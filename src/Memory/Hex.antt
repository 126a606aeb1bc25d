-- ===== src/Memory/Hex.antt =====
-- `format!("{:016x}", n)`, the text of a tag.
use fusio.Base.{
  ℕ, zero, suc, ◌+◌, ◌/◌, ◌%◌, ◌<◌, ◌≡◌, ◌∙◌, refl, sym, List, [], ◌∷◌, ◌++◌, Text, ltb,
  if◌then◌else◌, arith,
}

unfoldable pub digit : ℕ → ℕ
digit d = if ltb d 10 then 48 + d else 87 + d

-- The last k hexadecimal digits.
unfoldable pub hex : ℕ → ℕ → Text
unfolding digit
hex zero n = []
hex (suc k) n = hex k (n / 16) ++ (digit (n % 16) ∷ [])

unfoldable pub hex16 : ℕ → Text
unfolding hex
hex16 n = hex 16 n

-- The number has at most k hexadecimal digits.
abbrev Fits : ℕ → ℕ → Type 0
Fits zero n = n ≡ 0
Fits (suc k) n = Fits k (n / 16)

digit_inj : (a b : ℕ) → a < 16 → b < 16 → digit a ≡ digit b → a ≡ b
unfolding digit
digit_inj a b p q e = ground arith

snoc_init :
    {A : Type 0} (xs ys : List A) (x y : A) → xs ++ (x ∷ []) ≡ ys ++ (y ∷ []) → (xs ≡ ys) × (x ≡ y)
snoc_init [] [] x y e = (refl, cc)
snoc_init [] (b ∷ []) x y e = cc
snoc_init [] (b ∷ c ∷ ys) x y e = cc
snoc_init (a ∷ []) [] x y e = cc
snoc_init (a ∷ c ∷ xs) [] x y e = cc
snoc_init (a ∷ xs) (b ∷ ys) x y e =
    let heads : a ≡ b = cc in
    let tails : xs ++ (x ∷ []) ≡ ys ++ (y ∷ []) = cc in
    let (p, q) = snoc_init xs ys x y tails in (cc, q)

hex-injective : (k n m : ℕ) → Fits k n → Fits k m → hex k n ≡ hex k m → n ≡ m
unfolding hex
hex-injective zero n m p q e = p ∙ sym q
hex-injective (suc k) n m p q e =
    let (high, low) =
      snoc_init (hex k (n / 16)) (hex k (m / 16)) (digit (n % 16)) (digit (m % 16)) e in
    let a : n / 16 ≡ m / 16 = hex-injective k (n / 16) (m / 16) p q high in
    let b : n % 16 ≡ m % 16 = digit_inj (n % 16) (m % 16) (omega arith) (omega arith) low in
    omega (arith, a, b)

u64-Fits : (n : ℕ) → n < 18446744073709551616 → Fits 16 n
u64-Fits n h = omega arith

-- Two u64 with the same text are the same.
pub hex16-injective :
    (n m : ℕ) → n < 18446744073709551616 → m < 18446744073709551616 → hex16 n ≡ hex16 m → n ≡ m
unfolding hex16
hex16-injective n m p q e = hex-injective 16 n m (u64-Fits n p) (u64-Fits m q) e
