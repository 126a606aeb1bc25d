-- ===== src/Path/Matching.antt =====
-- Path::prefix_match and Path::child on the segments of paths.
use fusio.Base.{
  ◌≡◌, ◌≢◌, ◌∙◌, ◌⊎◌, refl, sym, ap, subst, List, [], ◌∷◌, ◌++◌, Option, none, some, inl, inr, Text,
  All, strip_prefix, ◌↔◌,
}
use fusio.Path.{
  delimiter, split, parts, last_of, filename, parts_behind, bounded_rest, prefix_match, child, join,
}
use fusio.Path.Segments.{
  IsFlat, IsSegment, split-join, split-flat, parts-join, drop_empty_last-full, full-of, IsFlat-of,
  join-ne-nil, at_boundary_nil, at_boundary-cases, prefix_match-join, strip_prefix_sound,
  split-join_more, All-back, none_not_some, some_eq, append_nil,
}

split_parts : (ss : List Text) → All IsSegment ss → ss ≢ [] → split (join ss) ≡ ss
split_parts [] h n = absurd (n refl)
split_parts (s ∷ ss) h n = split-join s ss h.0.1 (IsFlat-of ss h.1)

-- What follows a prefix that has matched.
behind_sound :
    (xs : List Text) (p : Text) (ps rs : List Text) (rest t : Text)
    → All IsSegment xs
    → All IsSegment (p ∷ ps)
    → join xs ≡ join (p ∷ ps) ++ rest
    → ((rest ≡ []) × (t ≡ [])) ⊎ (rest ≡ delimiter ∷ t)
    → parts t ≡ rs
    → xs ≡ (p ∷ ps) ++ rs
unfolding parts join
behind_sound xs p ps rs rest t h k e (inl (r, q)) d =
    let same : join xs ≡ join (p ∷ ps) =
      e ∙ (ap (λ (z : Text). join (p ∷ ps) ++ z) r ∙ append_nil (join (p ∷ ps))) in
    let left : xs ≡ p ∷ ps = sym (parts-join xs h) ∙ (ap parts same ∙ parts-join (p ∷ ps) k) in
    let none_left : rs ≡ [] = sym d ∙ (ap parts q ∙ parts-join [] tt) in
    left ∙ (sym (append_nil (p ∷ ps)) ∙ ap (λ (z : List Text). (p ∷ ps) ++ z) (sym none_left))
behind_sound [] p ps rs rest t h k e (inr r) d =
    absurd (join-ne-nil p ps k.0.0 (left_nil (join (p ∷ ps)) rest (sym e)))
  where
    left_nil : (a b : Text) → a ++ b ≡ [] → a ≡ []
    left_nil [] b e = refl
    left_nil (x ∷ a) b e = cc
behind_sound (x ∷ xs) p ps rs rest t h k e (inr r) d =
    let all : x ∷ xs ≡ (p ∷ ps) ++ split t =
      sym (split_parts (x ∷ xs) h (λ q. cc))
      ∙ (ap split (e ∙ ap (λ (z : Text). join (p ∷ ps) ++ z) r)
          ∙ split-join_more p ps t k.0.1 (IsFlat-of ps k.1)) in
    let tail : All IsSegment (split t) =
      All-back IsSegment (p ∷ ps) (split t) (subst (All IsSegment) all h) in
    all
    ∙ ap (λ (z : List Text). (p ∷ ps) ++ z)
        (sym (drop_empty_last-full (split t) (full-of (split t) tail)) ∙ d)

rest_sound :
    (xs : List Text) (p : Text) (ps rs : List Text) (o b : Option Text)
    → All IsSegment xs
    → All IsSegment (p ∷ ps)
    → strip_prefix (join (p ∷ ps)) (join xs) ≡ o
    → bounded_rest (join (p ∷ ps)) o ≡ b
    → parts_behind b ≡ some rs
    → xs ≡ (p ∷ ps) ++ rs
unfolding parts_behind bounded_rest
rest_sound xs p ps rs none none h k e q d = absurd (none_not_some d)
rest_sound xs p ps rs none (some t) h k e q d = absurd (none_not_some q)
rest_sound xs p ps rs (some rest) none h k e q d = absurd (none_not_some d)
rest_sound xs p ps rs (some rest) (some t) h k e q d =
    behind_sound xs p ps rs rest t h k (strip_prefix_sound (join (p ∷ ps)) (join xs) rest e)
      (at_boundary-cases (join (p ∷ ps)) rest t (join-ne-nil p ps k.0.0) q) (some_eq d)

prefix_match_sound :
    (xs ps rs : List Text)
    → All IsSegment xs
    → All IsSegment ps
    → prefix_match (join xs) (join ps) ≡ some rs
    → xs ≡ ps ++ rs
unfolding prefix_match
prefix_match_sound xs [] rs h k e =
    unfold join strip_prefix bounded_rest parts_behind in
    sym (parts-join xs h) ∙ some_eq (sym (ap parts_behind (at_boundary_nil (join xs))) ∙ e)
prefix_match_sound xs (p ∷ ps) rs h k e =
    rest_sound xs p ps rs (strip_prefix (join (p ∷ ps)) (join xs)) _ h k refl refl e

-- For paths of segments, a path matches a prefix and leaves some parts exactly where its segments
-- are those of the prefix followed by these parts: a prefix ends where a segment does.
pub prefix_match_iff :
    (xs ps rs : List Text)
    → All IsSegment xs
    → All IsSegment ps
    → All IsSegment rs
    → (prefix_match (join xs) (join ps) ≡ some rs) ↔ (xs ≡ ps ++ rs)
prefix_match_iff xs ps rs h k l = (
  prefix_match_sound xs ps rs h k,
  λ e. ap (λ (z : List Text). prefix_match (join z) (join ps)) e ∙ prefix_match-join ps rs k l,
)

child-join :
    (p : Text) (ps : List Text) (s : Text)
    → p ≢ []
    → child (join (p ∷ ps)) s ≡ join (p ∷ ps) ++ (delimiter ∷ s)
unfolding child
child-join p ps s n = of_full (join (p ∷ ps)) (join-ne-nil p ps n)
  where
    of_full : (t : Text) → t ≢ [] → child t s ≡ t ++ (delimiter ∷ s)
    of_full [] m = absurd (m refl)
    of_full (c ∷ t) m = refl

child-parts :
    (ss : List Text) (s : Text)
    → All IsSegment ss
    → IsFlat s
    → split (child (join ss) s) ≡ ss ++ (s ∷ [])
unfolding child join
child-parts [] s h f = split-flat s f
child-parts (p ∷ ps) s h f =
    ap split (child-join p ps s h.0.0)
    ∙ (split-join_more p ps s h.0.1 (IsFlat-of ps h.1)
        ∙ ap (λ (z : List Text). (p ∷ ps) ++ z) (split-flat s f))

last_of-snoc : (ss : List Text) (s : Text) → last_of (ss ++ (s ∷ [])) ≡ s
unfolding last_of
last_of-snoc [] s = refl
last_of-snoc (t ∷ []) s = refl
last_of-snoc (t ∷ u ∷ ss) s = last_of-snoc (u ∷ ss) s

child-ne-nil : (r s : Text) → s ≢ [] → child r s ≢ []
unfolding child
child-ne-nil [] s n = n
child-ne-nil (c ∷ r) s n = λ e. cc

filename-full : (r : Text) → r ≢ [] → filename r ≡ some (last_of (split r))
unfolding filename
filename-full [] n = absurd (n refl)
filename-full (c ∷ r) n = refl

-- The last component of a child is the segment it was made with.
pub filename-child :
    (ss : List Text) (s : Text)
    → All IsSegment ss
    → IsSegment s
    → filename (child (join ss) s) ≡ some s
filename-child ss s h k =
    filename-full (child (join ss) s) (child-ne-nil (join ss) s k.0)
    ∙ ap some (ap last_of (child-parts ss s h k.1) ∙ last_of-snoc ss s)
