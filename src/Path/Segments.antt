-- ===== src/Path/Segments.antt =====
-- Paths as lists of segments: `split` and `join`, and the operations of Path on them.
use fusio.Base.{
  ℕ, ◌≡◌, ◌≢◌, ◌∙◌, ◌⊎◌, refl, sym, ap, List, [], ◌∷◌, ◌++◌, Option, none, some, Bool-cases, inl,
  inr, ◌==◌, Text, All, arith, strip_prefix, strip_prefix-append,
}
use fusio.Path.{
  delimiter, first_char, split, drop_empty_last, parts, at_boundary, parts_behind, bounded_rest,
  prefix_match, join,
}

-- A text without the delimiter.
abbrev pub IsFlat : Text → Type 0
IsFlat = All (λ (c : ℕ). c ≢ delimiter)

-- A segment: flat, and not empty.
abbrev pub IsSegment : Text → Type 0
IsSegment s = (s ≢ []) × IsFlat s

pub split-flat : (s : Text) → IsFlat s → split s ≡ s ∷ []
unfolding split first_char
split-flat [] h = refl
split-flat (c ∷ s) h = ground (arith, h.0, split-flat s h.1)

pub split-append : (s t : Text) → IsFlat s → split (s ++ (delimiter ∷ t)) ≡ s ∷ split t
unfolding split first_char
split-append [] t h = ground arith
split-append (c ∷ s) t h = ground (arith, h.0, split-append s t h.1)

pub split-join :
    (s : Text) (ss : List Text) → IsFlat s → All IsFlat ss → split (join (s ∷ ss)) ≡ s ∷ ss
unfolding join
split-join s [] h k = split-flat s h
split-join s (t ∷ ss) h k =
    split-append s (join (t ∷ ss)) h ∙ ap (λ (r : List Text). s ∷ r) (split-join t ss k.0 k.1)

pub drop_empty_last-full :
    (ss : List Text) → All (λ (s : Text). s ≢ []) ss → drop_empty_last ss ≡ ss
unfolding drop_empty_last
drop_empty_last-full [] h = refl
drop_empty_last-full ([] ∷ []) h = absurd (h.0 refl)
drop_empty_last-full ((c ∷ s) ∷ []) h = refl
drop_empty_last-full ([] ∷ t ∷ ss) h = absurd (h.0 refl)
drop_empty_last-full ((c ∷ s) ∷ t ∷ ss) h =
    ap (λ (r : List Text). (c ∷ s) ∷ r) (drop_empty_last-full (t ∷ ss) h.1)

pub full-of : (ss : List Text) → All IsSegment ss → All (λ (s : Text). s ≢ []) ss
full-of [] h = tt
full-of (s ∷ ss) h = (h.0.0, full-of ss h.1)

pub IsFlat-of : (ss : List Text) → All IsSegment ss → All IsFlat ss
IsFlat-of [] h = tt
IsFlat-of (s ∷ ss) h = (h.0.1, IsFlat-of ss h.1)

-- The parts of joined segments are the segments.
pub parts-join : (ss : List Text) → All IsSegment ss → parts (join ss) ≡ ss
unfolding parts
parts-join [] h = unfold join split drop_empty_last in refl
parts-join (s ∷ ss) h =
    ap drop_empty_last (split-join s ss h.0.1 (IsFlat-of ss h.1))
    ∙ drop_empty_last-full (s ∷ ss) (full-of (s ∷ ss) h)

append_assoc : (a b c : Text) → (a ++ b) ++ c ≡ a ++ (b ++ c)
append_assoc [] b c = refl
append_assoc (x ∷ a) b c = ap (λ (t : Text). x ∷ t) (append_assoc a b c)

pub append_nil : {A : Type 0} (xs : List A) → xs ++ [] ≡ xs
append_nil [] = refl
append_nil (x ∷ xs) = ap (λ t. x ∷ t) (append_nil xs)

join-append :
    (p : Text) (ps : List Text) (r : Text) (rs : List Text)
    → join ((p ∷ ps) ++ (r ∷ rs)) ≡ join (p ∷ ps) ++ (delimiter ∷ join (r ∷ rs))
unfolding join
join-append p [] r rs = refl
join-append p (q ∷ ps) r rs =
    ap (λ (t : Text). p ++ (delimiter ∷ t)) (join-append q ps r rs)
    ∙ sym (append_assoc p (delimiter ∷ join (q ∷ ps)) (delimiter ∷ join (r ∷ rs)))

pub join-ne-nil : (p : Text) (ps : List Text) → p ≢ [] → join (p ∷ ps) ≢ []
unfolding join
join-ne-nil p [] h = h
join-ne-nil [] (q ∷ ps) h = absurd (h refl)
join-ne-nil (c ∷ p) (q ∷ ps) h = λ e. cc

at_boundary-full : (q t : Text) → q ≢ [] → at_boundary q (delimiter ∷ t) ≡ some t
unfolding at_boundary
at_boundary-full [] t h = absurd (h refl)
at_boundary-full (c ∷ q) t h = ground arith

pub at_boundary_nil : (t : Text) → at_boundary [] t ≡ some t
unfolding at_boundary
at_boundary_nil [] = refl
at_boundary_nil (c ∷ t) = refl

strip_prefix_self : (q : Text) → strip_prefix q q ≡ some []
strip_prefix_self q = ap (strip_prefix q) (sym (append_nil q)) ∙ strip_prefix-append q []

-- A path matches each prefix of its segments, and what is left are the other segments.
pub prefix_match-join :
    (ps rs : List Text)
    → All IsSegment ps
    → All IsSegment rs
    → prefix_match (join (ps ++ rs)) (join ps) ≡ some rs
unfolding prefix_match parts_behind bounded_rest
prefix_match-join [] rs h k =
    unfold join strip_prefix in
    ap parts_behind (at_boundary_nil (join rs)) ∙ ap some (parts-join rs k)
prefix_match-join (p ∷ ps) [] h k =
    ap (λ (l : List Text). prefix_match (join l) (join (p ∷ ps))) (append_nil (p ∷ ps))
    ∙ (ap (λ o. parts_behind (bounded_rest (join (p ∷ ps)) o)) (strip_prefix_self (join (p ∷ ps)))
        ∙ unfold at_boundary join in ap some (parts-join [] tt))
prefix_match-join (p ∷ ps) (r ∷ rs) h k =
    ap (λ (t : Text). prefix_match t (join (p ∷ ps))) (join-append p ps r rs)
    ∙ (ap (λ o. parts_behind (bounded_rest (join (p ∷ ps)) o))
          (strip_prefix-append (join (p ∷ ps)) (delimiter ∷ join (r ∷ rs)))
        ∙ (ap parts_behind
              (at_boundary-full (join (p ∷ ps)) (join (r ∷ rs)) (join-ne-nil p ps h.0.0))
            ∙ ap some (parts-join (r ∷ rs) k)))

pub strip_prefix_sound : (q s r : Text) → strip_prefix q s ≡ some r → s ≡ q ++ r
unfolding strip_prefix
strip_prefix_sound [] s r e = cc
strip_prefix_sound (c ∷ q) [] r e = cc
strip_prefix_sound (c ∷ q) (d ∷ s) r e = ground (arith, strip_prefix_sound q s r)

pub split-join_more :
    (p : Text) (ps : List Text) (t : Text)
    → IsFlat p
    → All IsFlat ps
    → split (join (p ∷ ps) ++ (delimiter ∷ t)) ≡ (p ∷ ps) ++ split t
unfolding join
split-join_more p [] t h k = split-append p t h
split-join_more p (q ∷ ps) t h k =
    ap split (append_assoc p (delimiter ∷ join (q ∷ ps)) (delimiter ∷ t))
    ∙ (split-append p (join (q ∷ ps) ++ (delimiter ∷ t)) h
        ∙ ap (λ (r : List Text). p ∷ r) (split-join_more q ps t k.0 k.1))

pub All-back : {A : Type 0} (P : A → Type 0) (xs ys : List A) → All P (xs ++ ys) → All P ys
All-back P [] ys h = h
All-back P (x ∷ xs) ys h = All-back P xs ys h.1

pub none_not_some : {A : Type 0} {a : A} → ◌≡◌ {A = Option A} none (some a) → ⊥
none_not_some e = cc

pub some_eq : {A : Type 0} {a b : A} → ◌≡◌ {A = Option A} (some a) (some b) → a ≡ b
some_eq e = cc

-- What stands behind a prefix that matches: it is the prefix, or goes on with a delimiter.
pub at_boundary-cases :
    (q r t : Text) → q ≢ [] → at_boundary q r ≡ some t → ((r ≡ []) × (t ≡ [])) ⊎ (r ≡ delimiter ∷ t)
unfolding at_boundary
at_boundary-cases [] r t n e = absurd (n refl)
at_boundary-cases (c ∷ q) [] t n e = inl (refl, sym (some_eq e))
at_boundary-cases (c ∷ q) (d ∷ r) t n e = elim (Bool-cases (d == delimiter)) [
  | inl m ↦ inr (ground (arith, e))
  | inr m ↦ absurd (none_not_some (sym (rw m refl) ∙ e))
]
