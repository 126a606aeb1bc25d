-- ===== src/S3/Writer/Parts.antt =====
-- Lists of parts: their bytes, their numbers and their sizes, and what a writer holds.
use mathlib.Core.List.{append_assoc, append-nil}
use fusio.Base.{
  ℕ, suc, ◌+◌, ◌≡◌, ◌<◌, ◌∙◌, sym, ap, List, [], ◌∷◌, ◌++◌, length, length-append, Option, none,
  some, Text, All, arith,
}
use fusio.S3.Writer.{S3Writer, s3_part_minimum_size}

abbrev pub joined : List (ℕ × Text) → Text
joined [] = []
joined ((n, b) ∷ hs) = b ++ joined hs

-- Parts with consecutive numbers, and all but the last larger than the minimum.
abbrev pub IsInOrder : ℕ → List (ℕ × Text) → Type 0
IsInOrder k [] = Unit
IsInOrder k ((n, b) ∷ hs) = (n ≡ k) × IsInOrder (suc k) hs

abbrev pub IsLarge : List (ℕ × Text) → Type 0
IsLarge = All (λ (h : ℕ × Text). s3_part_minimum_size < length (h.1))

abbrev pub IsLargeButLast : List (ℕ × Text) → Type 0
IsLargeButLast [] = Unit
IsLargeButLast (h ∷ []) = Unit
IsLargeButLast (h ∷ i ∷ hs) = (s3_part_minimum_size < length (h.1)) × IsLargeButLast (i ∷ hs)

pub joined-last :
    (hs : List (ℕ × Text)) (n : ℕ) (b : Text) → joined (hs ++ ((n, b) ∷ [])) ≡ joined hs ++ b
joined-last [] n b = append-nil b
joined-last ((m, c) ∷ hs) n b =
    ap (λ (z : Text). c ++ z) (joined-last hs n b) ∙ sym (append_assoc c (joined hs) b)

pub IsInOrder-last :
    (k n : ℕ) (b : Text) (hs : List (ℕ × Text))
    → IsInOrder k hs
    → n ≡ k + length hs
    → IsInOrder k (hs ++ ((n, b) ∷ []))
IsInOrder-last k n b [] h e = (omega (arith, e), tt)
IsInOrder-last k n b ((m, c) ∷ hs) h e = (h.0, IsInOrder-last (suc k) n b hs h.1 (omega (arith, e)))

pub IsLargeButLast-last :
    (n : ℕ) (b : Text) (hs : List (ℕ × Text)) → IsLarge hs → IsLargeButLast (hs ++ ((n, b) ∷ []))
IsLargeButLast-last n b [] h = tt
IsLargeButLast-last n b (x ∷ []) h = (h.0, tt)
IsLargeButLast-last n b (x ∷ y ∷ hs) h = (h.0, IsLargeButLast-last n b (y ∷ hs) h.1)

pub IsLarge-but_last : (hs : List (ℕ × Text)) → IsLarge hs → IsLargeButLast hs
IsLarge-but_last [] h = tt
IsLarge-but_last (x ∷ []) h = tt
IsLarge-but_last (x ∷ y ∷ hs) h = (h.0, IsLarge-but_last (y ∷ hs) h.1)

pub length-last : (hs : List (ℕ × Text)) (x : ℕ × Text) → length (hs ++ (x ∷ [])) ≡ suc (length hs)
length-last hs x = omega (arith, length-append hs (x ∷ []))

-- There is an upload wherever there are parts.
abbrev pub HasUpload : Option Text → List (ℕ × Text) → Type 0
HasUpload none hs = hs ≡ []
HasUpload (some id) hs = Unit

-- What the writer holds: its parts and its buffer are the bytes written.
pub record IsWriter {W : Type 0} (s : S3Writer W) (bytes : Text) : Type 0 where
  pub counted : s.next_part ≡ length s.handlers
  pub content : joined s.handlers ++ s.buf ≡ bytes
  pub started : HasUpload s.upload_id s.handlers
  pub ordered : IsInOrder 0 s.handlers
