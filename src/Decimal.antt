-- ===== src/Decimal.antt =====
-- Decimal texts of u64 numbers: `{:020}`, `to_string` and `str::parse::<u64>` of std.
pub mod RoundTrip
use fusio.Base.{
  ℕ, zero, suc, ◌+◌, ◌-◌, ◌*◌, ◌/◌, ◌%◌, List, [], ◌∷◌, ◌++◌, Option, none, some, Bool, ◌&&◌, leb,
  ◌==◌, if◌then◌else◌, Text, u64_max,
}

-- The last k digits.
unfoldable pub padded : ℕ → ℕ → Text
padded zero n = []
padded (suc k) n = padded k (n / 10) ++ ((48 + n % 10) ∷ [])

-- `format!("{:020}", n)`; a u64 has at most 20 digits.
unfoldable pub padded20 : ℕ → Text
unfolding padded
padded20 n = padded 20 n

-- Without leading zeros; the last digit stays.
unfoldable pub trimmed : Text → Text
trimmed [] = []
trimmed (c ∷ []) = c ∷ []
trimmed (c ∷ d ∷ s) = let rest = trimmed (d ∷ s) in if c == 48 then rest else c ∷ d ∷ s

-- `n.to_string()`
unfoldable pub to_text : ℕ → Text
unfolding trimmed padded20
to_text n = trimmed (padded20 n)

-- One more digit: `none` where it is not a digit, or where the number is no u64.
unfoldable pub push_digit : ℕ → ℕ → Option ℕ
push_digit n c =
    if leb 48 c && leb c 57 && leb (n * 10 + (c - 48)) u64_max
    then some (n * 10 + (c - 48))
    else none

unfoldable pub digits_value : Option ℕ → Text → Option ℕ
unfolding push_digit
digits_value none s = none
digits_value (some n) [] = some n
digits_value (some n) (c ∷ s) = digits_value (push_digit n c) s

-- A sign `+` is accepted, an empty text is not.
unfoldable pub unsigned : Text → Option ℕ
unfolding digits_value
unsigned [] = none
unsigned (c ∷ s) = digits_value (some 0) (c ∷ s)

-- `s.parse::<u64>().ok()`
unfoldable pub parse_u64 : Text → Option ℕ
unfolding unsigned
parse_u64 [] = none
parse_u64 (c ∷ s) = if c == 43 then unsigned s else unsigned (c ∷ s)
