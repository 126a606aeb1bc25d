-- ===== src/Base/Texts.antt =====
-- Texts and byte strings as lists of bytes, with decidable equality and the std tests on them.
use Prim.Native.Nat.{ℕ}
use Prim.Native.Char.{code}
use Prim.Native.String.{String}
use mathlib.Core.Path.{◌≡◌, refl, sym}
use mathlib.Core.List.{List, [], ◌∷◌, ◌++◌}
use mathlib.Core.Option.{Option, none, some}
use native.Mathlib.Omega.{arith}
unfoldable use native.Mathlib.Decide.{ℕ_discrete}
use fusio.Base.Tests.{◌==◌, if◌then◌else◌}

abbrev pub Text : Type 0
Text = List ℕ

abbrev pub codes : String → Text
codes String.[] = []
codes (String.◌∷◌ c s) = code c ∷ codes s

cons-eq : {a b : ℕ} {s t : Text} → a ≡ b → s ≡ t → a ∷ s ≡ b ∷ t
cons-eq p q = cc

head_eq : {a b : ℕ} {s t : Text} → a ∷ s ≡ b ∷ t → a ≡ b
head_eq e = cc

tail_eq : {a b : ℕ} {s t : Text} → a ∷ s ≡ b ∷ t → s ≡ t
tail_eq e = cc

nil-ne-cons : {a : ℕ} {s : Text} → [] ≡ a ∷ s → ⊥
nil-ne-cons e = cc

unfoldable pub Text-discrete : Discrete Text
unfolding ℕ_discrete cons-eq head_eq tail_eq nil-ne-cons
Text-discrete [] [] = yes refl
Text-discrete [] (b ∷ t) = no nil-ne-cons
Text-discrete (a ∷ s) [] = no (λ e. nil-ne-cons (sym e))
Text-discrete (a ∷ s) (b ∷ t) =
    let rest = Text-discrete s t in
    elim (ℕ_discrete a b) [
      | yes p ↦ elim rest [ yes q ↦ yes (cons-eq p q) | no n ↦ no (λ e. n (tail_eq e)) ]
      | no n ↦ no (λ e. n (head_eq e))
    ]

-- `strip_prefix`.
unfoldable pub strip_prefix : Text → Text → Option Text
strip_prefix [] s = some s
strip_prefix (c ∷ p) [] = none
strip_prefix (c ∷ p) (d ∷ s) = if c == d then strip_prefix p s else none

pub strip_prefix-append : (p s : Text) → strip_prefix p (p ++ s) ≡ some s
unfolding strip_prefix
strip_prefix-append [] s = refl
strip_prefix-append (c ∷ p) s = ground (arith, strip_prefix-append p s)
