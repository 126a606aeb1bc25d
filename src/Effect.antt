-- ===== src/Effect.antt =====
-- Fallible code and fallible code with state: Rust's `Result<T, E>`, `?` and `match` on a result,
-- threaded through the state that the calls change.
use fusio.Base.{◌≡◌, refl, ◌⊎◌, inl, inr}

-- `spent` says that a loop has used up its fuel; no Rust value corresponds to it.
pub data Result (E A : Type 0) : Type 0 where
  ok : A → Result E A
  err : E → Result E A
  spent : Result E A

-- A call that reads and writes a state `W`; what was written before an error stays written.
abbrev pub Exec : Type 0 → Type 0 → Type 0 → Type 0
Exec E W A = W → Result E A × W

module _ {E W A : Type 0} where
  abbrev pub pure : A → Exec E W A
  pure a w = (ok a, w)

  abbrev pub fail : E → Exec E W A
  fail e w = (err e, w)

  abbrev pub exhausted : Exec E W A
  exhausted w = (spent, w)

  abbrev pub lift : Result E A → Exec E W A
  lift r w = (r, w)

module _ {E W A B : Type 0} where
  abbrev continue : Result E A → (A → Exec E W B) → Exec E W B
  continue (ok a) f w = f a w
  continue (err e) f w = (err e, w)
  continue spent f w = (spent, w)

  infixl 10 ◌>>=◌ ◌>>◌
  abbrev pub ◌>>=◌ : Exec E W A → (A → Exec E W B) → Exec E W B
  ◌>>=◌ m f w = let (r, w') = m w in continue r f w'

  abbrev pub ◌>>◌ : Exec E W A → Exec E W B → Exec E W B
  m >> n = m >>= λ _. n

  abbrev settle : Result E A → (A → Exec E W B) → (E → Exec E W B) → Exec E W B
  settle (ok a) f g w = f a w
  settle (err e) f g w = g e w
  settle spent f g w = (spent, w)

  -- `match m { Ok(a) => f, Err(e) => g }`.
  abbrev pub on_result : Exec E W A → (A → Exec E W B) → (E → Exec E W B) → Exec E W B
  on_result m f g w = let (r, w') = m w in settle r f g w'

module _ {E W A : Type 0} where
  abbrev forget : Result E A × W → Result E Unit × W
  forget (spent, w) = (spent, w)
  forget (_, w) = (ok tt, w)

  -- `let _ = m`: the result is dropped, an error too.
  abbrev pub ignoring : Exec E W A → Exec E W Unit
  ignoring m w = forget (m w)

-- How a result came about, for a split that keeps the equation.
pub Result-cases :
    {E A : Type 0} (r : Result E A)
    → ((a : A) × (r ≡ ok a)) ⊎ (((e : E) × (r ≡ err e)) ⊎ (r ≡ spent))
Result-cases (ok a) = inl (a, refl)
Result-cases (err e) = inr (inl (e, refl))
Result-cases spent = inr (inr refl)

-- To prove something of a call's outcome, prove it for each way in which the call can come out.
module _ {E W A B : Type 0} (P : Result E B × W → Type 0) (f : A → Exec E W B) where
  continue_cases :
      (r : Result E A) (w : W)
      → ((a : A) → r ≡ ok a → P (f a w))
      → ((e : E) → r ≡ err e → P (err e, w))
      → (r ≡ spent → P (spent, w))
      → P (continue r f w)
  continue_cases (ok a) w good bad out = good a refl
  continue_cases (err e) w good bad out = bad e refl
  continue_cases spent w good bad out = out refl

  pub bind_cases :
      (m : Exec E W A) (w : W)
      → ((a : A) → (m w).0 ≡ ok a → P (f a (m w).1))
      → ((e : E) → (m w).0 ≡ err e → P (err e, (m w).1))
      → ((m w).0 ≡ spent → P (spent, (m w).1))
      → P ((m >>= f) w)
  bind_cases m w = continue_cases (m w).0 (m w).1

  settle_cases :
      (g : E → Exec E W B) (r : Result E A) (w : W)
      → ((a : A) → r ≡ ok a → P (f a w))
      → ((e : E) → r ≡ err e → P (g e w))
      → (r ≡ spent → P (spent, w))
      → P (settle r f g w)
  settle_cases g (ok a) w good bad out = good a refl
  settle_cases g (err e) w good bad out = bad e refl
  settle_cases g spent w good bad out = out refl

  pub on_result_cases :
      (g : E → Exec E W B) (m : Exec E W A) (w : W)
      → ((a : A) → (m w).0 ≡ ok a → P (f a (m w).1))
      → ((e : E) → (m w).0 ≡ err e → P (g e (m w).1))
      → ((m w).0 ≡ spent → P (spent, (m w).1))
      → P (on_result m f g w)
  on_result_cases g m w = settle_cases g (m w).0 (m w).1

module _ {E W A : Type 0} where
  forget_cases :
      (P : Result E Unit × W → Type 0) (r : Result E A) (w : W)
      → P (ok tt, w)
      → (r ≡ spent → P (spent, w))
      → P (forget (r, w))
  forget_cases P (ok a) w done out = done
  forget_cases P (err e) w done out = done
  forget_cases P spent w done out = out refl

  pub ignoring_cases :
      (P : Result E Unit × W → Type 0) (m : Exec E W A) (w : W)
      → P (ok tt, (m w).1)
      → ((m w).0 ≡ spent → P (spent, (m w).1))
      → P (ignoring m w)
  ignoring_cases P m w = forget_cases P (m w).0 (m w).1
