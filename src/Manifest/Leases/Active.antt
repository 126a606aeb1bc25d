-- ===== src/Manifest/Leases/Active.antt =====
-- Which leases list_active answers.
use mathlib.Core.List.{append_assoc, append-nil}
use fusio.Base.{
  ℕ, ◌≡◌, ◌<◌, ◌∙◌, sym, ap, subst, min, inl, inr, List, [], ◌∷◌, ◌++◌, Option, none, some, Bool,
  true, Bool-cases, ltb, All, refl, if◌then◌else◌, Text, codes, u64_max, arith,
}
use fusio.Effect.{Result, ok, err, spent, pure, bind_cases}
use fusio.Path.{from}
use fusio.Manifest.Types.{Error, FsError, ActiveLease}
use fusio.Manifest.HeadStore.{CasStore}
use fusio.Manifest.Files.{FileSystem, converted, of_io}
use fusio.Manifest.Segments.{under}
use fusio.Manifest.Segments.Listing.{answers}
use fusio.Manifest.Checkpoints.{default_options}
use fusio.Manifest.Leases.{
  LeaseDoc, LeaseCodec, Clock, active_of, as_active, read_lease, read_leases, list_active,
}

-- The leases answered, if any are, expire after a time.
abbrev pub Unexpired : ℕ → Result Error (List ActiveLease) → Type 0
Unexpired now_ms (ok ls) = All (λ (l : ActiveLease). now_ms < l.expires_at) ls
Unexpired now_ms _ = Unit

ltb→lt : (a b : ℕ) → ltb a b ≡ true → a < b
ltb→lt a b h = ground arith

All-append : {A : Type 0} (P : A → Type 0) (xs ys : List A) → All P xs → All P ys → All P (xs ++ ys)
All-append P [] ys h k = k
All-append P (x ∷ xs) ys h k = (h.0, All-append P xs ys h.1 k)

active_of-Unexpired :
    (now_ms : ℕ) (d : Option LeaseDoc) → Unexpired now_ms (ok (active_of now_ms d))
unfolding active_of as_active
active_of-Unexpired now_ms none = tt
active_of-Unexpired now_ms (some doc) = elim (Bool-cases (ltb now_ms doc.expires_at_ms)) [
  | inl q ↦ rw q (ltb→lt now_ms doc.expires_at_ms q, tt)
  | inr q ↦ rw q tt
]

-- A lease for each document that is not expired, with its id, its transaction and its time.
abbrev pub unexpired : ℕ → List LeaseDoc → List ActiveLease
unexpired now_ms [] = []
unexpired now_ms (doc ∷ docs) =
    let rest = unexpired now_ms docs in
    if ltb now_ms doc.expires_at_ms
    then record {
      id = doc.id;
      snapshot_txn_id = doc.snapshot_txn_id;
      expires_at = doc.expires_at_ms;
    }
      ∷ rest
    else rest

abbrev pub with_document : Option LeaseDoc → List LeaseDoc → List LeaseDoc
with_document none docs = docs
with_document (some doc) docs = doc ∷ docs

-- One object's part of the answer.
active_of-unexpired :
    (now_ms : ℕ) (o : Option LeaseDoc) (docs : List LeaseDoc)
    → unexpired now_ms (with_document o docs) ≡ active_of now_ms o ++ unexpired now_ms docs
unfolding active_of as_active
active_of-unexpired now_ms none docs = refl
active_of-unexpired now_ms (some doc) docs = elim (Bool-cases (ltb now_ms doc.expires_at_ms)) [
  | inl q ↦ rw q refl
  | inr q ↦ rw q refl
]

module _ {W F : Type 0} (fs : FileSystem W F) (cas : CasStore W) (codec : LeaseCodec)
    (clock : Clock W) (percent_encode : (ℕ → Bool) → Text → Text) (prefix : Text) where
  read_lease-Unexpired :
      (now_ms : ℕ) (p : Text) (w : W)
      → Unexpired now_ms (read_lease fs cas codec clock percent_encode prefix now_ms p w).0
  unfolding read_lease
  read_lease-Unexpired now_ms p w =
      bind_cases (λ o. Unexpired now_ms o.0) _ (converted (fs.open_options p default_options)) w
        (λ file e.
          bind_cases (λ o. Unexpired now_ms o.0)
            (λ bytes. pure (active_of now_ms (codec.decode_lease bytes)))
            (converted (fs.read_to_end_at file [] 0)) _
            (λ bytes _. active_of-Unexpired now_ms (codec.decode_lease bytes)) (λ _ _. tt)
            (λ _. tt))
        (λ _ _. tt) (λ _. tt)

  read_leases-Unexpired :
      (now_ms : ℕ) (out : List ActiveLease) (items : List (Result FsError (Text × ℕ))) (w : W)
      → Unexpired now_ms (ok out)
      → Unexpired now_ms (read_leases fs cas codec clock percent_encode prefix now_ms out items w).0
  unfolding read_leases
  read_leases-Unexpired now_ms out [] w h = h
  read_leases-Unexpired now_ms out (err e ∷ items) w h = tt
  read_leases-Unexpired now_ms out (spent ∷ items) w h = tt
  read_leases-Unexpired now_ms out (ok (p, n) ∷ items) w h =
      bind_cases (λ o. Unexpired now_ms o.0)
        (λ more. read_leases fs cas codec clock percent_encode prefix now_ms (out ++ more) items)
        (read_lease fs cas codec clock percent_encode prefix now_ms p) w
        (λ more e. read_leases-Unexpired now_ms (out ++ more) items _ (
          All-append (λ (l : ActiveLease). now_ms < l.expires_at) out more h
            (subst (Unexpired now_ms) e (read_lease-Unexpired now_ms p w))))
        (λ _ _. tt) (λ _. tt)

  -- For every file system and world: a lease that list_active answers, if it answers, expires after
  -- the given time (taken as a u64).
  pub list_active-Unexpired :
      (now : ℕ) (w : W)
      → Unexpired (min now u64_max) (list_active fs cas codec clock percent_encode prefix now w).0
  unfolding list_active
  list_active-Unexpired now w =
      bind_cases (λ o. Unexpired (min now u64_max) o.0)
        (read_leases fs cas codec clock percent_encode prefix (min now u64_max) [])
        (converted (fs.list (from percent_encode (under prefix (codes "leases"))))) w
        (λ items _. read_leases-Unexpired (min now u64_max) [] items _ tt) (λ _ _. tt) (λ _. tt)

  -- The listed objects can be read and hold these bytes, in a world that reading leaves alone.
  abbrev pub IsReadable : (Text → Text) → List (Text × ℕ) → W → Type 0
  IsReadable bytes xs w =
      All
        (λ (x : Text × ℕ).
          (f : F) × (fs.open_options (x.0) default_options w ≡ (ok f, w))
          × (fs.read_to_end_at f [] 0 w ≡ (ok (bytes (x.0)), w)))
        xs

  -- The documents among the objects, in the order of the listing; the others are passed over.
  abbrev pub documents : (Text → Text) → List (Text × ℕ) → List LeaseDoc
  documents bytes [] = []
  documents bytes ((p, n) ∷ xs) = with_document (codec.decode_lease (bytes p)) (documents bytes xs)

  read_leases-eq :
      (now_ms : ℕ) (bytes : Text → Text) (out : List ActiveLease) (xs : List (Text × ℕ)) (w : W)
      → IsReadable bytes xs w
      → read_leases fs cas codec clock percent_encode prefix now_ms out (answers xs) w
        ≡ (ok (out ++ unexpired now_ms (documents bytes xs)), w)
  unfolding read_leases answers read_lease converted of_io
  read_leases-eq now_ms bytes out [] w h =
      ap (λ (z : List ActiveLease). (ok z, w)) (sym (append-nil out))
  read_leases-eq now_ms bytes out ((p, n) ∷ xs) w ((f, opened, read), h) =
      let more = active_of now_ms (codec.decode_lease (bytes p)) in
      rw (opened, read)
        (read_leases-eq now_ms bytes (out ++ more) xs w h
          ∙ ap (λ (z : List ActiveLease). (ok z, w))
              (append_assoc out more (unexpired now_ms (documents bytes xs))
                ∙ ap (λ (z : List ActiveLease). out ++ z)
                    (sym (
                      active_of-unexpired now_ms (codec.decode_lease (bytes p))
                        (documents bytes xs)))))

  -- Where the listing has no errors and the listed objects can be read, list_active answers for each of
  -- them that decodes to a document that is not expired, in the order of the listing, a lease with the
  -- document's id, transaction and time, and answers no other; the others are passed over.
  pub list_active-eq-unexpired :
      (now : ℕ) (bytes : Text → Text) (xs : List (Text × ℕ)) (w w' : W)
      → fs.list (from percent_encode (under prefix (codes "leases"))) w ≡ (ok (answers xs), w')
      → IsReadable bytes xs w'
      → list_active fs cas codec clock percent_encode prefix now w
        ≡ (ok (unexpired (min now u64_max) (documents bytes xs)), w')
  unfolding list_active converted of_io
  list_active-eq-unexpired now bytes xs w w' e h =
      rw e (read_leases-eq (min now u64_max) bytes [] xs w' h)
