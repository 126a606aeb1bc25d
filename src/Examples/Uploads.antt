-- ===== src/Examples/Uploads.antt =====
-- Writes to S3 at concrete inputs.
use fusio.Base.{
  ℕ, suc, ◌≡◌, ◌∙◌, ◌<◌, ◌==◌, refl, List, [], ◌∷◌, ◌++◌, Option, none, some, Bool, true, false,
  ◌&&◌, ltb, if◌then◌else◌, Text, arith,
}
use fusio.Effect.{Result, ok, err, ◌>>◌}
use fusio.Manifest.Types.{FsError, remote}
use fusio.S3.Writer.{Multipart, S3Writer, close}
use fusio.S3.Writer.Parts.{joined}
use fusio.S3.Writer.Service.{AllKept, IsService}
use fusio.S3.Writer.Assembled.{write_in_turn, in_all, close-write_in_turn}

-- A kept part: the number of its upload, its own number, and its bytes.
abbrev Part : Type 0
Part = ℕ × ℕ × Text

-- Uploads are numbered; those below `begun` have begun. Their ids are texts of one character.
record Bucket : Type 0 where
  pub begun : ℕ
  pub kept : List Part
  pub contents : Text

abbrev is_open : Text → Bucket → Bool
is_open (u ∷ []) w = ltb u w.begun
is_open _ w = false

abbrev upload_of : Text → ℕ
upload_of [] = 0
upload_of (u ∷ _) = u

abbrev find_part : ℕ → ℕ → List Part → Option Text
find_part u n [] = none
find_part u n ((i, m, b) ∷ ps) =
    let rest = find_part u n ps in if i == u && m == n then some b else rest

abbrev and_then : Option Text → Option Text → Option Text
and_then (some a) (some b) = some (a ++ b)
and_then (some a) none = none
and_then none _ = none

-- The bytes of the parts with these numbers, if all are kept.
abbrev gather : ℕ → List ℕ → List Part → Option Text
gather u [] parts = some []
gather u (n ∷ ns) parts = and_then (find_part u n parts) (gather u ns parts)

abbrev completed : Option Text → Bucket → Result FsError Unit × Bucket
completed none w = (err remote, w)
completed (some b) w = (ok tt, record w { contents = b })

-- A part's handle is its number.
abbrev bucket : Multipart Bucket ℕ
bucket = record {
  initiate = λ w. (ok (w.begun ∷ []), record w { begun = suc w.begun });
  upload_part = λ id n b w.
      if is_open id w && ltb n 10000
      then (ok n, record w { kept = (upload_of id, n, b) ∷ w.kept })
      else (err remote, w);
  upload_once = λ b w. (ok tt, record w { contents = b });
  complete_part = λ id ps w.
      if is_open id w then completed (gather (upload_of id) ps w.kept) w else (err remote, w);
}

abbrev Open : Text → Bucket → Type 0
Open id w = is_open id w ≡ true

abbrev Kept : Text → ℕ → ℕ × Text → Bucket → Type 0
Kept id p x w = (p ≡ x.0) × (find_part (upload_of id) (x.0) w.kept ≡ some (x.1))

stays_open :
    (id : Text) (w : Bucket) (ps : List Part) → Open id w → Open id (record w { kept = ps })
stays_open [] w ps h = h
stays_open (u ∷ []) w ps h = h
stays_open (u ∷ v ∷ id) w ps h = h

begins : (n : ℕ) → ltb n (suc n) ≡ true
begins n = ground arith

find_new : (u n : ℕ) (b : Text) (ps : List Part) → find_part u n ((u, n, b) ∷ ps) ≡ some b
find_new u n b ps = ground arith

find_old :
    (u n m : ℕ) (b : Text) (ps : List Part)
    → m < n
    → find_part u m ((u, n, b) ∷ ps) ≡ find_part u m ps
find_old u n m b ps lt = ground arith

lt→true : (n : ℕ) → n < 10000 → ltb n 10000 ≡ true
lt→true n h = ground arith

gather-AllKept :
    (id : Text) (ps : List ℕ) (xs : List (ℕ × Text)) (w : Bucket)
    → AllKept Kept id ps xs w
    → gather (upload_of id) ps w.kept ≡ some (joined xs)
gather-AllKept id [] [] w k = refl
gather-AllKept id [] (x ∷ xs) w k = absurd k
gather-AllKept id (p ∷ ps) [] w k = absurd k
gather-AllKept id (p ∷ ps) ((n, b) ∷ xs) w ((e, found), k) =
    rw (e, found, gather-AllKept id ps xs w k) refl

bucket-IsService : IsService bucket (λ w. w.contents) 10000 Open Kept
bucket-IsService = record {
  initiates = λ w. (w.begun ∷ [], record w { begun = suc w.begun }, refl, begins w.begun);
  uploads = λ id n b w op lt. (
    n,
    record w { kept = (upload_of id, n, b) ∷ w.kept },
    rw (op, lt→true n lt) refl,
    stays_open id w ((upload_of id, n, b) ∷ w.kept) op,
    (refl, find_new (upload_of id) n b w.kept),
    λ q x h less. (h.0, find_old (upload_of id) n (x.0) b w.kept less ∙ h.1),
  );
  completes = λ id ps xs w op kept o l.
      (record w { contents = joined xs }, rw (op, gather-AllKept id ps xs w kept) refl, refl);
  stores = λ b w. (record w { contents = b }, refl, refl);
}

-- A writer that has begun upload 7 and holds a byte; two writes, the second of two bytes.
abbrev begun : S3Writer Bucket
begun = record {
  world = record { begun = 8; kept = []; contents = [] };
  upload_id = some (7 ∷ []);
  next_part = 0;
  buf = 1 ∷ [];
  handlers = [];
}

abbrev two_writes : List Text
two_writes = (2 ∷ []) ∷ (3 ∷ 4 ∷ []) ∷ []

upload_example :
    (s' : S3Writer Bucket) × ((write_in_turn bucket
            (λ w. w.contents)
            10000
            Open
            Kept
            bucket-IsService
            two_writes
          >> close bucket)
        begun
      ≡ (ok tt, s'))
    × (s'.world.contents
        ≡ (1 ∷ []) ++ in_all bucket (λ w. w.contents) 10000 Open Kept bucket-IsService two_writes)
upload_example =
    close-write_in_turn bucket (λ w. w.contents) 10000 Open Kept bucket-IsService two_writes begun
      (1 ∷ []) (record { counted = refl; content = refl; started = tt; ordered = tt }) tt refl
      (omega arith)
