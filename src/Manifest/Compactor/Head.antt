-- ===== src/Manifest/Compactor/Head.antt =====
-- What compaction and GC do to HEAD.
use fusio.Base.{
  ℕ, ◌≡◌, ◌∙◌, refl, sym, subst, ap, ◌⊎◌, inl, inr, List, [], ◌∷◌, Option, none, some, Bool, true,
  false, Text, Bool-cases, ◌==◌,
}
use fusio.Effect.{
  Result, ok, err, spent, Exec, pure, fail, on_result, bind_cases, on_result_cases, ignoring_cases,
}
use fusio.Manifest.Types.{
  Error, precondition_failed, unimplemented, corrupt, other, io, HeadJson, PutCondition, if_match,
}
use fusio.Manifest.Backoff.{classify_error, by_class_cases}
use fusio.Manifest.Stores.{Stores}
use fusio.Manifest.Heads.{Head, HeadLaws, Put, Loaded}
use fusio.Manifest.Compactor.Compact.{
  put_again, put_after, put_loop, compacted_head, compacted_condition, publish_from,
  publish_checkpoint,
}
use fusio.Manifest.Plan.{PlanStore, GcPlan, empty_plan, last_end}
use fusio.Manifest.Session.Writes.{or_zero}
use fusio.Manifest.Compactor.Retention.{Entry}
use fusio.Manifest.Compactor.Gc.{
  or_again, again_after, invalidate, on_head_put_error, retarget, put_target, already_ok,
  apply_candidate, is_outdated, apply_to_head, listed_entries, has_no_deletes, apply_plan,
  apply_round, gc_apply,
}
use fusio.Manifest.Compactor.Pointed.{
  Pointed, Repointed, compacted_head-Pointed, retarget-Repointed,
}

-- HEAD after the publication of a checkpoint, by the answer.
abbrev pub Compacted : Text → Head → Head → Result Error (Text × Text) → Type 0
Compacted id before after (ok r) =
    (new : HeadJson) × (r.0 ≡ id) × (Pointed before id new) × (after ≡ some (new, r.1))
Compacted id before after _ = after ≡ before

ok_eq : {A : Type 0} {a b : A} → ◌≡◌ {A = Result Error A} (ok a) (ok b) → a ≡ b
ok_eq e = cc

module _ {W : Type 0} (st : Stores W) (head_of : W → Head) (laws : HeadLaws st head_of)
    (before : Head) where
  -- A put that is repeated: it took effect once, or not at all.
  abbrev Repeated : HeadJson → Result Error Text × W → Type 0
  Repeated h (ok t, w) = head_of w ≡ some (h, t)
  Repeated h (_, w) = head_of w ≡ before

  put_again_lem :
      (h : HeadJson) (again : Error → Exec Error W Text) (e : Error) (w : W)
      → ((e : Error) → Repeated h (again e w))
      → head_of w ≡ before
      → Repeated h (put_again st again e w)
  unfolding put_again
  put_again_lem h again precondition_failed w ih k = k
  put_again_lem h again unimplemented w ih k =
      by_class_cases (λ m. Repeated h (m w)) (classify_error unimplemented) (again unimplemented)
        (fail unimplemented) (fail unimplemented) (ih unimplemented) k k
  put_again_lem h again corrupt w ih k =
      by_class_cases (λ m. Repeated h (m w)) (classify_error corrupt) (again corrupt) (fail corrupt)
        (fail corrupt) (ih corrupt) k k
  put_again_lem h again other w ih k =
      by_class_cases (λ m. Repeated h (m w)) (classify_error other) (again other) (fail other)
        (fail other) (ih other) k k
  put_again_lem h again (io x) w ih k =
      by_class_cases (λ m. Repeated h (m w)) (classify_error (io x)) (again (io x)) (fail (io x))
        (fail (io x)) (ih (io x)) k k

  put_once_lem :
      (h : HeadJson) (c : PutCondition) (again : Error → Exec Error W Text) (w : W)
      → ((e : Error) (w : W) → head_of w ≡ before → Repeated h (again e w))
      → head_of w ≡ before
      → Repeated h (on_result (st.head_put h c) pure (put_again st again) w)
  put_once_lem h c again w ih k =
      let w' = (st.head_put h c w).1 in
      let after = λ (r : Result Error Text) (q : (st.head_put h c w).0 ≡ r).
        subst (Put h c (head_of w) (head_of w')) q (laws.put_lem h c w) in
      on_result_cases (Repeated h) pure (put_again st again) (st.head_put h c) w
        (λ t q. (after (ok t) q).1)
        (λ e q.
          put_again_lem h again e w' (λ x. ih x w' (after (err e) q ∙ k)) (after (err e) q ∙ k))
        (λ q. after spent q ∙ k)

  put_loop_lem :
      (delays : List ℕ) (h : HeadJson) (c : PutCondition) (w : W)
      → head_of w ≡ before
      → Repeated h (put_loop st delays h c w)
  unfolding put_loop
  put_loop_lem [] h c w k = put_once_lem h c fail w (λ _ _ q. q) k
  put_loop_lem (delay ∷ delays) h c w k =
      put_once_lem h c (put_after st delay (put_loop st delays h c)) w
        (unfold put_after in
          λ e w' q. put_loop_lem delays h c (st.sleep delay w') (laws.sleep_keeps delay w' ∙ q))
        k

  Once-of :
      (h : HeadJson) (o : Result Error Text × W) (t : Text)
      → Repeated h o
      → o.0 ≡ ok t
      → head_of (o.1) ≡ some (h, t)
  Once-of h (ok u, w) t k e = k ∙ ap (λ x. some (h, x)) (ok_eq e)
  Once-of h (err x, w) t k e = cc
  Once-of h (spent, w) t k e = cc

  Never-err :
      (h : HeadJson) (o : Result Error Text × W) (x : Error)
      → Repeated h o
      → o.0 ≡ err x
      → head_of (o.1) ≡ before
  Never-err h (ok u, w) x k e = cc
  Never-err h (err y, w) x k e = k
  Never-err h (spent, w) x k e = cc

  Never-spent :
      (h : HeadJson) (o : Result Error Text × W)
      → Repeated h o
      → o.0 ≡ spent
      → head_of (o.1) ≡ before
  Never-spent h (ok u, w) k e = cc
  Never-spent h (err y, w) k e = cc
  Never-spent h (spent, w) k e = k

  -- Over stores that keep the HEAD laws: the last part of compact_once either fails and leaves HEAD, or
  -- returns the checkpoint's id and HEAD's new tag, and HEAD has this checkpoint and the version, the last
  -- segment and the last transaction of before; where there was none, version 1, no segment and
  -- transaction 0.
  pub publish_checkpoint-Compacted :
      (delays : List ℕ) (id : Text) (w : W)
      → head_of w ≡ before
      → Compacted id before
          (head_of (publish_checkpoint st delays id w).1)
          (publish_checkpoint st delays id w).0
  unfolding publish_checkpoint publish_from
  publish_checkpoint-Compacted delays id w k =
      let P = λ (o : Result Error (Text × Text) × W). Compacted id before (head_of (o.1)) (o.0) in
      let kept : head_of (st.head_load w).1 ≡ before = laws.load_keeps w ∙ k in
      bind_cases P (publish_from st delays id) st.head_load w
        (λ loaded q.
          let same : loaded ≡ before = subst (Loaded (head_of w)) q (laws.load_answer w) ∙ k in
          subst (λ b. P (publish_from st delays id b (st.head_load w).1)) (sym same)
            (let h = compacted_head id before in
              let m = put_loop st delays h (compacted_condition before) in
              let w1 = (st.head_load w).1 in
              let done = put_loop_lem delays h (compacted_condition before) w1 kept in
              bind_cases P (λ tag. pure (id, tag)) m w1
                (λ t e. (h, refl, compacted_head-Pointed before id, Once-of h (m w1) t done e))
                (λ x e. Never-err h (m w1) x done e) (λ e. Never-spent h (m w1) done e)))
        (λ _ _. kept) (λ _. kept)

-- The store of plans is another object than HEAD.
pub record PlanKeeps {W : Type 0} (ps : PlanStore W) (head_of : W → Head) : Type 0 where
  pub load_keeps : (w : W) → head_of (ps.load w).1 ≡ head_of w
  pub put_keeps : (p : GcPlan) (c : PutCondition) (w : W) → head_of (ps.put p c w).1 ≡ head_of w

-- HEAD is as before, or has the same contents but for its checkpoint, under some tag.
abbrev pub Retargeted : Head → Head → Type 0
Retargeted before after =
    (after ≡ before)
    ⊎ ((cur : HeadJson) × (tag : Text) × (id : Text) × (new : HeadJson) × (tag' : Text) × (before
          ≡ some (cur, tag))
        × (Repointed cur id new)
        × (after ≡ some (new, tag')))

module _ {W : Type 0} (st : Stores W) (head_of : W → Head) (laws : HeadLaws st head_of)
    (ps : PlanStore W) (plans : PlanKeeps ps head_of) (before : Head) where
  abbrev Moved : {A : Type 0} → Result Error A × W → Type 0
  Moved o = Retargeted before (head_of (o.1))

  abbrev Again : {A : Type 0} → (Error → Exec Error W A) → Type 0
  Again {A} again = (e : Error) (w : W) → head_of w ≡ before → Moved {A = A} (again e w)

  invalidate_lem : (tag : Text) (w : W) → head_of w ≡ before → Moved (invalidate st ps tag w)
  unfolding invalidate
  invalidate_lem tag w k =
      let kept = plans.put_keeps empty_plan (if_match tag) w ∙ k in
      ignoring_cases Moved (ps.put empty_plan (if_match tag)) w (inl kept) (λ _. inl kept)

  or_again_lem :
      (again : Error → Exec Error W Unit) (e : Error) (w : W)
      → Again again
      → head_of w ≡ before
      → Moved (or_again st again e w)
  unfolding or_again
  or_again_lem again e w ih k =
      by_class_cases (λ m. Moved (m w)) (classify_error e) (again e) (fail e) (fail e) (ih e w k)
        (inl k) (inl k)

  put_target_lem :
      (again : Error → Exec Error W Unit) (plan_tag : Text) (cur : HeadJson) (tag id : Text)
      (fine : Bool) (w : W)
      → Again again
      → before ≡ some (cur, tag)
      → head_of w ≡ before
      → Moved (put_target st ps again plan_tag (cur, tag) id fine w)
  unfolding put_target on_head_put_error
  put_target_lem again plan_tag cur tag id true w ih b k = inl k
  put_target_lem again plan_tag cur tag id false w ih b k =
      let h = retarget cur id in
      let c = if_match tag in
      let w' = (st.head_put h c w).1 in
      let after = λ (r : Result Error Text) (q : (st.head_put h c w).0 ≡ r).
        subst (Put h c (head_of w) (head_of w')) q (laws.put_lem h c w) in
      on_result_cases Moved (λ _. pure tt) (on_head_put_error st ps again plan_tag)
        (st.head_put h c) w
        (λ t q. inr (cur, tag, id, h, t, b, retarget-Repointed cur id, (after (ok t) q).1))
        (λ e q.
          let kept = after (err e) q ∙ k in
          by_class_cases (λ m. Moved (m w')) (classify_error e) (again e)
            (invalidate st ps plan_tag) (fail e) (ih e w' kept) (invalidate_lem plan_tag w' kept)
            (inl kept))
        (λ q. inl (after spent q ∙ k))

  already_ok_keeps :
      (upto : ℕ) (o : Option Text) (w : W) → head_of (already_ok st ps upto o w).1 ≡ head_of w
  unfolding already_ok
  already_ok_keeps upto none w = refl
  already_ok_keeps upto (some id) w =
      on_result_cases (λ o. head_of (o.1) ≡ head_of w) _ _ (st.ckpt_get id) w
        (λ _ _. laws.ckpt_get_keeps id w) (λ _ _. laws.ckpt_get_keeps id w)
        (λ _. laws.ckpt_get_keeps id w)

  apply_candidate_lem :
      (again : Error → Exec Error W Unit) (plan_tag : Text) (upto : ℕ) (cur : HeadJson) (tag : Text)
      (o : Option Entry) (w : W)
      → Again again
      → before ≡ some (cur, tag)
      → head_of w ≡ before
      → Moved (apply_candidate st ps again plan_tag upto (cur, tag) o w)
  unfolding apply_candidate
  apply_candidate_lem again plan_tag upto cur tag none w ih b k = invalidate_lem plan_tag w k
  apply_candidate_lem again plan_tag upto cur tag (some (id, m)) w ih b k =
      let look = already_ok st ps upto cur.checkpoint_id in
      let kept = already_ok_keeps upto cur.checkpoint_id w ∙ k in
      bind_cases Moved (put_target st ps again plan_tag (cur, tag) id) look w
        (λ fine _. put_target_lem again plan_tag cur tag id fine (look w).1 ih b kept)
        (λ _ _. inl kept) (λ _. inl kept)

  listed_keeps : (w : W) → head_of (listed_entries st w).1 ≡ head_of w
  unfolding listed_entries
  listed_keeps w =
      on_result_cases (λ o. head_of (o.1) ≡ head_of w) _ _ st.ckpt_list w
        (λ _ _. laws.ckpt_list_keeps w) (λ _ _. laws.ckpt_list_keeps w)
        (λ _. laws.ckpt_list_keeps w)

  apply_to_head_lem :
      (again : Error → Exec Error W Unit) (plan : GcPlan) (plan_tag : Text) (upto : ℕ)
      (loaded : Head) (w : W)
      → Again again
      → before ≡ loaded
      → head_of w ≡ before
      → Moved (apply_to_head st ps again plan plan_tag upto loaded w)
  unfolding apply_to_head
  apply_to_head_lem again plan plan_tag upto none w ih b k = invalidate_lem plan_tag w k
  apply_to_head_lem again plan plan_tag upto (some (cur, tag)) w ih b k =
      elim (Bool-cases (is_outdated st ps plan.against_head_tag tag)) [
        | inl q ↦ rw q (invalidate_lem plan_tag w k)
        | inr q ↦
            let kept = listed_keeps w ∙ k in
            rw q (
              bind_cases Moved _ (listed_entries st) w
                (λ es _.
                  apply_candidate_lem again plan_tag upto cur tag _ (listed_entries st w).1 ih b
                    kept)
                (λ _ _. inl kept) (λ _. inl kept))
      ]

  apply_plan_lem :
      (again : Error → Exec Error W Unit) (loaded : Option (GcPlan × Text)) (w : W)
      → Again again
      → head_of w ≡ before
      → Moved (apply_plan st ps again loaded w)
  unfolding apply_plan
  apply_plan_lem again none w ih k = inl k
  apply_plan_lem again (some (plan, plan_tag)) w ih k =
      let upto = or_zero (last_end plan.delete_segments) in
      let kept : head_of (st.head_load w).1 ≡ before = laws.load_keeps w ∙ k in
      elim (Bool-cases (has_no_deletes st ps plan)) [
        | inl q ↦ rw q (inl k)
        | inr q ↦ rw q (elim (Bool-cases (upto == 0)) [
          | inl r ↦ rw r (inl k)
          | inr r ↦ rw r (
              on_result_cases Moved (apply_to_head st ps again plan plan_tag upto)
                (or_again st again) st.head_load w
                (λ loaded e.
                  apply_to_head_lem again plan plan_tag upto loaded (st.head_load w).1 ih
                    (sym (subst (Loaded (head_of w)) e (laws.load_answer w) ∙ k)) kept)
                (λ e _. or_again_lem again e (st.head_load w).1 ih kept) (λ _. inl kept))
        ])
      ]

  apply_round_lem :
      (again : Error → Exec Error W Unit) (w : W)
      → Again again
      → head_of w ≡ before
      → Moved (apply_round st ps again w)
  unfolding apply_round
  apply_round_lem again w ih k =
      let kept = plans.load_keeps w ∙ k in
      on_result_cases Moved (apply_plan st ps again) (or_again st again) ps.load w
        (λ loaded _. apply_plan_lem again loaded (ps.load w).1 ih kept)
        (λ e _. or_again_lem again e (ps.load w).1 ih kept) (λ _. inl kept)

  -- Over stores that keep the HEAD laws and a plan store apart from HEAD: gc_apply leaves HEAD, or
  -- changes nothing of it but the checkpoint it references and its tag (version, last segment and last
  -- transaction are those of before), whatever its result and however often it retries.
  pub gc_apply-Retargeted :
      (delays : List ℕ) (w : W)
      → head_of w ≡ before
      → Retargeted before (head_of (gc_apply st ps delays w).1)
  unfolding gc_apply
  gc_apply-Retargeted [] w k = apply_round_lem fail w (λ _ _ q. inl q) k
  gc_apply-Retargeted (delay ∷ delays) w k =
      apply_round_lem (again_after st delay (gc_apply st ps delays)) w
        (unfold again_after in
          λ e w' q. gc_apply-Retargeted delays (st.sleep delay w') (laws.sleep_keeps delay w' ∙ q))
        k
