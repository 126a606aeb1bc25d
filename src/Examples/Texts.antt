-- ===== src/Examples/Texts.antt =====
-- Paths, names and ids at concrete inputs.
use fusio.Base.{◌≡◌, ◌↔◌, refl, [], ◌∷◌, ◌++◌, some, codes, ◌≢◌, ℕ, arith, Text-discrete}
use fusio.Effect.{ok}
use fusio.Path.{parse, join, prefix_match, child, filename}
use fusio.Path.Segments.{IsSegment}
use fusio.Path.Matching.{prefix_match_iff, filename-child}
use fusio.Path.Canonical.{parse-parse}
use fusio.Manifest.Segments.{parse_seq, file_name}
use fusio.Manifest.Segments.Keys.{parse_seq-file_name}
use fusio.Manifest.Checkpoints.{new, lsn}
use fusio.Manifest.Checkpoints.Ids.{lsn-new}

parsed : parse (codes "/a/b/") ≡ ok (codes "a/b")
unfolding parse Text-discrete
parsed = refl

canonical_example : parse (codes "a/b") ≡ ok (codes "a/b")
canonical_example = parse-parse (codes "/a/b/") (codes "a/b") parsed

letter : (c : ℕ) → c ≢ 47 → IsSegment (c ∷ [])
letter c n = ((λ e. cc), (n, tt))

a_letter : IsSegment (codes "a")
a_letter = letter 97 (λ e. omega (arith, e))

b_letter : IsSegment (codes "b")
b_letter = letter 98 (λ e. omega (arith, e))

last_name_example :
    filename (child (join (codes "a" ∷ codes "b" ∷ [])) (codes "a")) ≡ some (codes "a")
last_name_example =
    filename-child (codes "a" ∷ codes "b" ∷ []) (codes "a") (a_letter, (b_letter, tt)) a_letter

boundary_example :
    (prefix_match (join (codes "a" ∷ codes "b" ∷ [])) (join (codes "a" ∷ []))
      ≡ some (codes "b" ∷ []))
    ↔ (codes "a" ∷ codes "b" ∷ [] ≡ (codes "a" ∷ []) ++ (codes "b" ∷ []))
boundary_example =
    prefix_match_iff (codes "a" ∷ codes "b" ∷ []) (codes "a" ∷ []) (codes "b" ∷ [])
      (a_letter, (b_letter, tt)) (a_letter, tt) (b_letter, tt)

number_example : parse_seq (file_name 42 (codes ".json")) ≡ some 42
number_example = parse_seq-file_name 42 (codes "json") (omega arith)

id_example : lsn (new 18446744073709551615) ≡ some 18446744073709551615
id_example = lsn-new 18446744073709551615 (omega arith)
