-- ===== src/Decimal/RoundTrip.antt =====
-- What is printed parses back.
use fusio.Base.{
  ℕ, zero, suc, ◌+◌, ◌/◌, ◌%◌, ◌≤◌, ◌≡◌, ◌≢◌, ◌∙◌, refl, sym, ap, [], ◌∷◌, ◌++◌, Option, none, some,
  Bool-cases, inl, inr, ◌==◌, Text, u64_max, arith, All,
}
use fusio.Decimal.{
  padded, padded20, trimmed, to_text, push_digit, digits_value, unsigned, parse_u64,
}

-- The number has at most k decimal digits.
abbrev Fits : ℕ → ℕ → Type 0
Fits zero n = n ≡ 0
Fits (suc k) n = Fits k (n / 10)

digits_value-none : (s : Text) → digits_value none s ≡ none
unfolding digits_value
digits_value-none s = refl

digits_value-snoc :
    (o : Option ℕ) (s : Text) (c v : ℕ)
    → digits_value o s ≡ some v
    → digits_value o (s ++ (c ∷ [])) ≡ digits_value (push_digit v c) []
unfolding digits_value
digits_value-snoc none s c v e = cc
digits_value-snoc (some n) [] c v e =
    ap (λ (o : Option ℕ). digits_value o []) (ap (λ (m : ℕ). push_digit m c) (some_eq e))
  where
    some_eq : {a b : ℕ} → some a ≡ some b → a ≡ b
    some_eq q = cc
digits_value-snoc (some n) (d ∷ s) c v e = digits_value-snoc (push_digit n d) s c v e

push_digit-last : (n : ℕ) → n ≤ u64_max → push_digit (n / 10) (48 + n % 10) ≡ some n
unfolding push_digit
push_digit-last n h = ground arith

digits_value-padded :
    (k n : ℕ) → Fits k n → n ≤ u64_max → digits_value (some 0) (padded k n) ≡ some n
unfolding padded digits_value
digits_value-padded zero n f h = ap some (sym f)
digits_value-padded (suc k) n f h =
    digits_value-snoc (some 0) (padded k (n / 10)) (48 + n % 10) (n / 10)
      (digits_value-padded k (n / 10) f (omega arith))
    ∙ rw (push_digit-last n h) refl

digits_value-zero : (s : Text) → digits_value (some 0) (48 ∷ s) ≡ digits_value (some 0) s
unfolding digits_value push_digit
digits_value-zero s = refl

digits_value-trimmed : (s : Text) → digits_value (some 0) (trimmed s) ≡ digits_value (some 0) s
unfolding trimmed
digits_value-trimmed [] = refl
digits_value-trimmed (c ∷ []) = refl
digits_value-trimmed (c ∷ d ∷ s) = elim (Bool-cases (c == 48)) [
  | inl q ↦ rw q (
      digits_value-trimmed (d ∷ s)
      ∙ (sym (digits_value-zero (d ∷ s))
          ∙ ap (λ (x : ℕ). digits_value (some 0) (x ∷ d ∷ s)) (ground arith)))
  | inr q ↦ rw q refl
]

-- All are digits.
abbrev pub IsDigits : Text → Type 0
IsDigits = All (λ (c : ℕ). (48 ≤ c) × (c ≤ 57))

IsDigits-snoc : (s : Text) (c : ℕ) → IsDigits s → 48 ≤ c → c ≤ 57 → IsDigits (s ++ (c ∷ []))
IsDigits-snoc [] c h l u = ((l, u), tt)
IsDigits-snoc (d ∷ s) c h l u = (h.0, IsDigits-snoc s c h.1 l u)

pub padded-IsDigits : (k n : ℕ) → IsDigits (padded k n)
unfolding padded
padded-IsDigits zero n = tt
padded-IsDigits (suc k) n =
    IsDigits-snoc (padded k (n / 10)) (48 + n % 10) (padded-IsDigits k (n / 10)) (omega arith)
      (omega arith)

trimmed-IsDigits : (s : Text) → IsDigits s → IsDigits (trimmed s)
unfolding trimmed
trimmed-IsDigits [] h = tt
trimmed-IsDigits (c ∷ []) h = h
trimmed-IsDigits (c ∷ d ∷ s) h = elim (Bool-cases (c == 48)) [
  | inl q ↦ rw q (trimmed-IsDigits (d ∷ s) h.1)
  | inr q ↦ rw q h
]

-- On digits, of which there is one, the parser is just their value.
parse_u64-digits :
    (s : Text) (v : ℕ)
    → IsDigits s
    → digits_value (some 0) s ≡ some v
    → s ≢ []
    → parse_u64 s ≡ some v
unfolding parse_u64 unsigned
parse_u64-digits [] v h e n = absurd (n refl)
parse_u64-digits (c ∷ s) v h e n = ground (arith, h.0)

snoc-ne-nil : (s : Text) (c : ℕ) → s ++ (c ∷ []) ≢ []
snoc-ne-nil [] c = λ e. cc
snoc-ne-nil (d ∷ s) c = λ e. cc

trimmed-ne-nil : (s : Text) → s ≢ [] → trimmed s ≢ []
unfolding trimmed
trimmed-ne-nil [] h = h
trimmed-ne-nil (c ∷ []) h = h
trimmed-ne-nil (c ∷ d ∷ s) h = elim (Bool-cases (c == 48)) [
  | inl q ↦ rw q (trimmed-ne-nil (d ∷ s) (λ e. cc))
  | inr q ↦ rw q h
]

u64-Fits : (n : ℕ) → n ≤ u64_max → Fits 20 n
u64-Fits n h = omega arith

padded20-ne-nil : (n : ℕ) → padded20 n ≢ []
unfolding padded20 padded
padded20-ne-nil n = snoc-ne-nil (padded 19 (n / 10)) (48 + n % 10)

-- A u64 printed with twenty digits parses back to itself.
pub parse_u64-padded20 : (n : ℕ) → n ≤ u64_max → parse_u64 (padded20 n) ≡ some n
unfolding padded20
parse_u64-padded20 n h =
    parse_u64-digits (padded 20 n) n (padded-IsDigits 20 n)
      (digits_value-padded 20 n (u64-Fits n h) h) (padded20-ne-nil n)

-- A u64 printed without leading zeros parses back to itself.
pub parse_u64-to_text : (n : ℕ) → n ≤ u64_max → parse_u64 (to_text n) ≡ some n
unfolding to_text padded20
parse_u64-to_text n h =
    parse_u64-digits (trimmed (padded 20 n)) n
      (trimmed-IsDigits (padded 20 n) (padded-IsDigits 20 n))
      (digits_value-trimmed (padded 20 n) ∙ digits_value-padded 20 n (u64-Fits n h) h)
      (trimmed-ne-nil (padded 20 n) (padded20-ne-nil n))
