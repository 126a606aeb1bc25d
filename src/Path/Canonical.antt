-- ===== src/Path/Canonical.antt =====
-- What Path::parse answers is canonical: it parses to itself.
use fusio.Base.{
  ℕ, ◌≡◌, ◌≢◌, ◌∙◌, refl, ap, subst, List, [], ◌∷◌, Bool-cases, inl, inr, ◌==◌, if◌then◌else◌, Text,
  arith, if_yes, if_no,
}
use fusio.Effect.{Result, ok, err, spent}
use fusio.Path.{
  PathError, bad_segment, delimiter, first_char, split, strip_first, strip_last, is_bad,
  check_segments, checked, parse_stripped, parse,
}

ok_ne_err : {A : Type 0} {a : A} {e : PathError} → ◌≡◌ {A = Result PathError A} (err e) (ok a) → ⊥
ok_ne_err q = cc

ok_eq : {A : Type 0} {a b : A} → ◌≡◌ {A = Result PathError A} (ok a) (ok b) → a ≡ b
ok_eq q = cc

-- The last segment is not empty.
abbrev LastFull : List Text → Type 0
LastFull [] = ⊥
LastFull (s ∷ []) = s ≢ []
LastFull (s ∷ t ∷ ss) = LastFull (t ∷ ss)

check-tail :
    (s : Text) (ss : List Text)
    → check_segments (s ∷ ss) ≡ ok tt
    → (s ≢ []) × (check_segments ss ≡ ok tt)
unfolding check_segments
check-tail [] ss e = absurd (ok_ne_err e)
check-tail (c ∷ s) ss e = elim (Bool-cases (is_bad (c ∷ s))) [
  | inl q ↦ absurd (
      ok_ne_err {e = bad_segment} (
        if_yes (λ (r : Result PathError Unit). r ≡ ok tt) (is_bad (c ∷ s)) (err bad_segment)
          (check_segments ss) q e))
  | inr q ↦ (
    (λ z. cc),
    if_no (λ (r : Result PathError Unit). r ≡ ok tt) (is_bad (c ∷ s)) (err bad_segment)
        (check_segments ss) q e,
  )
]

check-LastFull : (s : Text) (ss : List Text) → check_segments (s ∷ ss) ≡ ok tt → LastFull (s ∷ ss)
check-LastFull s [] e = (check-tail s [] e).0
check-LastFull s (t ∷ ss) e = check-LastFull t ss (check-tail s (t ∷ ss) e).1

split-ne-nil : (s : Text) → split s ≢ []
unfolding split first_char
split-ne-nil [] = λ e. cc
split-ne-nil (c ∷ s) = of_first (split s)
  where
    of_first : (r : List Text) → (if c == delimiter then [] ∷ r else first_char c r) ≢ []
    of_first [] = λ e. ground arith
    of_first (t ∷ r) = λ e. ground arith

-- A last segment keeps being full behind one more byte in front of a text that has a byte.
LastFull-first :
    (c : ℕ) (rs : List Text)
    → (rs ≢ [])
    → ((r : Text) → rs ≡ r ∷ [] → r ≢ [])
    → LastFull (first_char c rs)
    → LastFull rs
unfolding first_char
LastFull-first c [] n one h = absurd (n refl)
LastFull-first c (r ∷ []) n one h = one r refl
LastFull-first c (r ∷ t ∷ rs) n one h = h

tail_nil : (s r : Text) (ss : List Text) → s ∷ ss ≡ r ∷ [] → ss ≡ []
tail_nil s r ss q = cc

first_char-single : (d : ℕ) (ss : List Text) (r : Text) → first_char d ss ≡ r ∷ [] → r ≢ []
unfolding first_char
first_char-single d [] r q = λ z. cc
first_char-single d (t ∷ ss) r q = λ z. cc

split_single : (d : ℕ) (s r : Text) → split (d ∷ s) ≡ r ∷ [] → r ≢ []
unfolding split
split_single d s r e = elim (Bool-cases (d == delimiter)) [
  | inl q ↦ absurd (
      split-ne-nil s (
        tail_nil [] r (split s) (
          if_yes (λ (z : List Text). z ≡ r ∷ []) (d == delimiter) ([] ∷ split s)
            (first_char d (split s)) q e)))
  | inr q ↦ first_char-single d (split s) r (
      if_no (λ (z : List Text). z ≡ r ∷ []) (d == delimiter) ([] ∷ split s) (first_char d (split s))
        q e)
]

LastFull-cons : (c d : ℕ) (s : Text) → LastFull (split (c ∷ d ∷ s)) → LastFull (split (d ∷ s))
unfolding split
LastFull-cons c d s h = elim (Bool-cases (c == delimiter)) [
  | inl q ↦
      LastFull-tail (split (d ∷ s)) (split-ne-nil (d ∷ s))
        (if_yes LastFull (c == delimiter) ([] ∷ split (d ∷ s)) (first_char c (split (d ∷ s))) q h)
  | inr q ↦
      LastFull-first c (split (d ∷ s)) (split-ne-nil (d ∷ s)) (λ r e. split_single d s r e)
        (if_no LastFull (c == delimiter) ([] ∷ split (d ∷ s)) (first_char c (split (d ∷ s))) q h)
]
  where
    LastFull-tail : (ss : List Text) → ss ≢ [] → LastFull ([] ∷ ss) → LastFull ss
    LastFull-tail [] n k = absurd (n refl)
    LastFull-tail (t ∷ ss) n k = k

strip_last-full : (s : Text) → LastFull (split s) → strip_last s ≡ s
unfolding strip_last split
strip_last-full [] h = refl
strip_last-full (c ∷ []) h = elim (Bool-cases (c == delimiter)) [
  | inl q ↦
      absurd (if_yes LastFull (c == delimiter) ([] ∷ [] ∷ []) (first_char c ([] ∷ [])) q h refl)
  | inr q ↦ rw q refl
]
strip_last-full (c ∷ d ∷ s) h =
    ap (λ (t : Text). c ∷ t) (strip_last-full (d ∷ s) (LastFull-cons c d s h))

-- A text whose segments pass the check: it does not begin or end with the delimiter.
strip_first-checked : (s : Text) → check_segments (split s) ≡ ok tt → strip_first s ≡ s
unfolding strip_first split
strip_first-checked [] e = refl
strip_first-checked (c ∷ s) e = elim (Bool-cases (c == delimiter)) [
  | inl q ↦ absurd (
      (check-tail [] (split s) (
          if_yes (λ (z : List Text). check_segments z ≡ ok tt) (c == delimiter) ([] ∷ split s)
            (first_char c (split s)) q e)).0
        refl)
  | inr q ↦ rw q refl
]

strip_last-checked : (s : Text) → check_segments (split s) ≡ ok tt → strip_last s ≡ s
strip_last-checked s e = strip_last-full s (of_split (split s) (split-ne-nil s) e)
  where
    of_split : (ss : List Text) → ss ≢ [] → check_segments ss ≡ ok tt → LastFull ss
    of_split [] n k = absurd (n refl)
    of_split (t ∷ ss) n k = check-LastFull t ss k

checked-ok :
    (s raw : Text) (r : Result PathError Unit) → checked s r ≡ ok raw → (r ≡ ok tt) × (s ≡ raw)
unfolding checked
checked-ok s raw (ok tt) e = (refl, ok_eq e)
checked-ok s raw (err x) e = absurd (ok_ne_err e)
checked-ok s raw spent e = cc

stripped-checked : (s : Text) → check_segments (split s) ≡ ok tt → parse_stripped s ≡ ok s
unfolding parse_stripped
stripped-checked [] e = refl
stripped-checked (c ∷ s) e =
    ap (λ (t : Text). checked t (check_segments (split t))) (strip_last-checked (c ∷ s) e)
    ∙ (ap (checked (c ∷ s)) e ∙ unfold checked in refl)

-- A text whose segments pass the check parses to itself.
parse-checked : (s : Text) → check_segments (split s) ≡ ok tt → parse s ≡ ok s
unfolding parse
parse-checked s e = ap parse_stripped (strip_first-checked s e) ∙ stripped-checked s e

parse-stripped : (t raw : Text) → parse_stripped t ≡ ok raw → parse raw ≡ ok raw
unfolding parse_stripped
parse-stripped [] raw e =
    subst (λ (r : Text). parse r ≡ ok r) (ok_eq e) (unfold parse strip_first in refl)
parse-stripped (c ∷ s) raw e =
    let (fine, same) =
      checked-ok (strip_last (c ∷ s)) raw (check_segments (split (strip_last (c ∷ s)))) e in
    parse-checked raw (subst (λ (r : Text). check_segments (split r) ≡ ok tt) same fine)

-- What parse answers is canonical: it parses to itself.
pub parse-parse : (s raw : Text) → parse s ≡ ok raw → parse raw ≡ ok raw
unfolding parse
parse-parse s raw e = parse-stripped (strip_first s) raw e
