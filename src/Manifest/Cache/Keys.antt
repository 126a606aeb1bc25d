-- ===== src/Manifest/Cache/Keys.antt =====
-- The keys of different segments differ.
use fusio.Base.{
  ℕ, ◌≡◌, ◌≤◌, ◌∙◌, sym, ap, [], ◌∷◌, ◌++◌, Option, Text, u64_max, codes, strip_prefix,
  strip_prefix-append,
}
use fusio.Decimal.{padded20, parse_u64}
use fusio.Decimal.RoundTrip.{parse_u64-padded20}
use fusio.Path.Segments.{some_eq}
use fusio.Manifest.Cache.{CacheKey, segment_identifier, segment_key}

prefix_cancel : (p a b : Text) → p ++ a ≡ p ++ b → a ≡ b
prefix_cancel p a b e =
    some_eq (sym (strip_prefix-append p a) ∙ (ap (strip_prefix p) e ∙ strip_prefix-append p b))

pub segment_identifier-injective :
    (m n : ℕ) → m ≤ u64_max → n ≤ u64_max → segment_identifier m ≡ segment_identifier n → m ≡ n
unfolding segment_identifier
segment_identifier-injective m n u v e = some_eq (
    sym (parse_u64-padded20 m u)
    ∙ (ap parse_u64 (prefix_cancel (codes "seg-") (padded20 m) (padded20 n) e)
        ∙ parse_u64-padded20 n v))

identifier_eq :
    (namespace : Text) (m n : ℕ) (e f : Option Text)
    → segment_key namespace m e ≡ segment_key namespace n f
    → namespace ++ (58 ∷ segment_identifier m) ≡ namespace ++ (58 ∷ segment_identifier n)
unfolding segment_key
identifier_eq namespace m n e f q = ap (λ (k : CacheKey). k.identifier) q

-- Two keys of segments are the same only for one number and one tag.
pub segment_key-injective :
    (namespace : Text) (m n : ℕ) (e f : Option Text)
    → m ≤ u64_max
    → n ≤ u64_max
    → segment_key namespace m e ≡ segment_key namespace n f
    → (m ≡ n) × (e ≡ f)
unfolding segment_key
segment_key-injective namespace m n e f u v q = (
  segment_identifier-injective m n u v (
      prefix_cancel (58 ∷ []) (segment_identifier m) (segment_identifier n) (
        prefix_cancel namespace (58 ∷ segment_identifier m) (58 ∷ segment_identifier n)
          (identifier_eq namespace m n e f q))),
  ap (λ (k : CacheKey). k.revision) q,
)
