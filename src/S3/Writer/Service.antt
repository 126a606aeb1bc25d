-- ===== src/S3/Writer/Service.antt =====
-- What a service for multipart uploads does, as S3 documents it.
use fusio.Base.{ℕ, ◌≡◌, ◌<◌, List, [], ◌∷◌, Text}
use fusio.Effect.{ok}
use fusio.S3.Writer.{Multipart}
use fusio.S3.Writer.Parts.{joined, IsInOrder, IsLargeButLast}

-- The handles are those of parts that are kept, one by one.
abbrev pub AllKept :
    {W P : Type 0}
    → (Text → P → ℕ × Text → W → Type 0)
    → Text
    → List P
    → List (ℕ × Text)
    → W
    → Type 0
AllKept Kept id [] [] w = Unit
AllKept Kept id [] (x ∷ xs) w = ⊥
AllKept Kept id (p ∷ ps) [] w = ⊥
AllKept Kept id (p ∷ ps) (x ∷ xs) w = (Kept id p x w) × AllKept Kept id ps xs w

-- A service that works, with as many numbers for parts as the limit says (10,000 on S3). `Open id w`:
-- the upload has begun. `Kept id p (n, b) w`: the upload has the bytes b as its part with number n, and
-- p is the handle of that part. An upload that begins is open; a part for an open upload is kept, and
-- the parts with smaller numbers stay; and an open upload is completed, by handles of parts that it
-- keeps, in order and all but the last large, to the object of their bytes. Of other uploads, handles
-- and numbers nothing is promised: there S3 answers NoSuchUpload or InvalidPart.
pub record IsService {W P : Type 0} (up : Multipart W P) (view : W → Text) (limit : ℕ)
    (Open : Text → W → Type 0) (Kept : Text → P → ℕ × Text → W → Type 0) : Type 0 where
  pub initiates : (w : W) → (id : Text) × (w' : W) × (up.initiate w ≡ (ok id, w')) × (Open id w')
  pub uploads :
      (id : Text) (n : ℕ) (b : Text) (w : W)
      → Open id w
      → n < limit
      → (p : P) × (w' : W) × (up.upload_part id n b w ≡ (ok p, w'))
        × (Open id w')
        × (Kept id p (n, b) w')
        × ((q : P) (x : ℕ × Text) → Kept id q x w → x.0 < n → Kept id q x w')
  pub completes :
      (id : Text) (ps : List P) (xs : List (ℕ × Text)) (w : W)
      → Open id w
      → AllKept Kept id ps xs w
      → IsInOrder 0 xs
      → IsLargeButLast xs
      → (w' : W) × (up.complete_part id ps w ≡ (ok tt, w')) × (view w' ≡ joined xs)
  pub stores : (b : Text) (w : W) → (w' : W) × (up.upload_once b w ≡ (ok tt, w')) × (view w' ≡ b)
