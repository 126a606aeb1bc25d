-- ===== src/Manifest/Segments/Keys.antt =====
-- The names of segments: what parse_seq reads in a name is the number that it was made of.
use fusio.Base.{
  ℕ, ◌≡◌, ◌≤◌, ◌∙◌, ap, [], ◌∷◌, ◌++◌, some, Text, u64_max, strip_prefix-append, codes, arith,
}
use fusio.Decimal.{padded, padded20, parse_u64}
use fusio.Decimal.RoundTrip.{IsDigits, padded-IsDigits, parse_u64-padded20}
use fusio.Manifest.Segments.{before_dot, number_of, parse_seq, file_name}

before_dot-digits : (s rest : Text) → IsDigits s → before_dot (s ++ (46 ∷ rest)) ≡ s
unfolding before_dot
before_dot-digits [] rest h = ground arith
before_dot-digits (c ∷ s) rest h = ground (arith, h.0, before_dot-digits s rest h.1)

before_dot-padded20 :
    (seq : ℕ) (ext : Text) → before_dot (padded20 seq ++ (46 ∷ ext)) ≡ padded20 seq
unfolding padded20
before_dot-padded20 seq ext = before_dot-digits (padded 20 seq) ext (padded-IsDigits 20 seq)

-- The name of a segment, with any extension, is read back as its sequence number, for every u64.
pub parse_seq-file_name :
    (seq : ℕ) (ext : Text) → seq ≤ u64_max → parse_seq (file_name seq (46 ∷ ext)) ≡ some seq
unfolding parse_seq number_of file_name
parse_seq-file_name seq ext le =
    ap number_of (strip_prefix-append (codes "seg-") (padded20 seq ++ (46 ∷ ext)))
    ∙ (ap parse_u64 (before_dot-padded20 seq ext) ∙ parse_u64-padded20 seq le)
