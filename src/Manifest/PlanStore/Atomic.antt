-- ===== src/Manifest/PlanStore/Atomic.antt =====
-- FsGcPlanStore over any compare-and-swap store: an atomic conditional put of the plan, with retries.
use fusio.Base.{◌≡◌, refl, subst, ◌∙◌, ℕ, List, [], ◌∷◌, Option, none, some, Text}
use fusio.Effect.{Result, ok, err, spent, Exec, pure, fail, on_result_cases}
use fusio.Path.{parse}
use fusio.Memory.{CasCondition}
use fusio.Memory.Tags.{Holds}
use fusio.Manifest.Types.{Error, FsError, PutCondition}
use fusio.Manifest.Backoff.{classify_error, by_class, by_class_cases}
use fusio.Manifest.Plan.{GcPlan}
use fusio.Manifest.HeadStore.{CasStore, CasLaws, Swapped, mapped, of_fs, or_other, cas_condition}
use fusio.Manifest.Segments.{json_type}
use fusio.Manifest.PlanStore.{PlanCodec, retried, put_plan}

of_fs_err :
    {A : Type 0} (r : Result FsError A) (e : Error) → of_fs r ≡ err e → (x : FsError) × (r ≡ err x)
unfolding of_fs
of_fs_err (ok a) e q = cc
of_fs_err (err x) e q = (x, refl)
of_fs_err spent e q = cc

-- What a put of a plan has done, by its answer.
abbrev pub Done :
    Text → CasCondition → (before after : Option (Text × Text)) → Result Error Text → Type 0
Done body c before after (ok t) = Holds c before × (after ≡ some (body, t))
Done body c before after _ = after ≡ before

Swapped-Done :
    (body : Text) (c : CasCondition) (before after : Option (Text × Text)) (r : Result FsError Text)
    → Swapped body c before after r
    → Done body c before after (of_fs r)
unfolding of_fs
Swapped-Done body c before after (ok t) h = h
Swapped-Done body c before after (err e) h = h
Swapped-Done body c before after spent h = h

module _ {W A : Type 0} (cas : CasStore W) (codec : PlanCodec) (sleep : ℕ → W → W) (key : Text)
    (I : W → Type 0) (P : Result Error A × W → Type 0) (m : Exec Error W A)
    (each : (w : W) → I w → P (m w))
    (again : (w : W) (e : Error) → I w → (m w).0 ≡ err e → I (m w).1)
    (slept : (d : ℕ) (w : W) → I w → I (sleep d w)) where
  -- What holds of each try holds of the retried call, if failed tries and sleeps keep what it takes.
  retried_lem : (ds : List ℕ) (w : W) → I w → P (retried cas codec sleep key ds m w)
  unfolding retried
  retried_lem [] w i = each w i
  retried_lem (d ∷ ds) w i =
      on_result_cases P pure
        (λ e.
          by_class (classify_error e) (λ v. retried cas codec sleep key ds m (sleep d v)) (fail e)
            (fail e))
        m w (λ a q. subst (λ (r : Result Error A). P (r, (m w).1)) q (each w i))
        (λ e q.
          by_class_cases (λ (n : Exec Error W A). P (n (m w).1)) (classify_error e)
            (λ v. retried cas codec sleep key ds m (sleep d v)) (fail e) (fail e)
            (retried_lem ds (sleep d (m w).1) (slept d (m w).1 (again w e i q)))
            (subst (λ (r : Result Error A). P (r, (m w).1)) q (each w i))
            (subst (λ (r : Result Error A). P (r, (m w).1)) q (each w i)))
        (λ q. subst (λ (r : Result Error A). P (r, (m w).1)) q (each w i))

module _ {W : Type 0} (cas : CasStore W) (codec : PlanCodec) (sleep : ℕ → W → W) (key : Text)
    (object : Text → W → Option (Text × Text)) (Fine : W → Type 0) (laws : CasLaws cas object Fine)
    (path : Text) (parsed : parse key ≡ ok path)
    (sleeps : (d : ℕ) (w : W)
      → Fine w
      → Fine (sleep d w) × (object path (sleep d w) ≡ object path w))
    (before : Option (Text × Text)) where
  -- A fine world in which the object is the one of before.
  abbrev pub AtRest : W → Type 0
  AtRest w = Fine w × (object path w ≡ before)

  AtRest-sleep : (d : ℕ) (w : W) → AtRest w → AtRest (sleep d w)
  AtRest-sleep d w (fine, same) = ((sleeps d w fine).0, (sleeps d w fine).1 ∙ same)

  module _ (delays : List ℕ) (plan : GcPlan) (cond : PutCondition) (body : Text)
      (encoded : codec.encode_plan plan ≡ some body)
      (stays : (w : W) (x : FsError)
        → Fine w
        → (cas.put_conditional path body (some json_type) none (cas_condition cond) w).0 ≡ err x
        → Fine (cas.put_conditional path body (some json_type) none (cas_condition cond) w).1) where
    try_put-Done :
        (w : W)
        → AtRest w
        → Done body
            (cas_condition cond)
            before
            (object path
              (mapped
                (cas.put_conditional path body (some json_type) none (cas_condition cond))
                w).1)
            (mapped (cas.put_conditional path body (some json_type) none (cas_condition cond)) w).0
    unfolding mapped
    try_put-Done w (fine, same) = Swapped-Done body (cas_condition cond) before _ _ (
        subst
          (λ (o : Option (Text × Text)).
            Swapped body (cas_condition cond) o
              (object path
                (cas.put_conditional path body (some json_type) none (cas_condition cond) w).1)
              (cas.put_conditional path body (some json_type) none (cas_condition cond) w).0)
          same (laws.put_lem path body (some json_type) none (cas_condition cond) w fine))

    failed_put-AtRest :
        (w : W) (e : Error)
        → AtRest w
        → (mapped (cas.put_conditional path body (some json_type) none (cas_condition cond)) w).0
          ≡ err e
        → AtRest
            (mapped (cas.put_conditional path body (some json_type) none (cas_condition cond)) w).1
    unfolding mapped
    failed_put-AtRest w e (fine, same) q =
        let (x, f) = of_fs_err _ e q in
        (
          stays w x fine f,
          subst
                (Swapped body (cas_condition cond) (object path w) (
                  object path
                    (cas.put_conditional path body (some json_type) none (cas_condition cond) w).1))
                f (laws.put_lem path body (some json_type) none (cas_condition cond) w fine)
              ∙ same,
        )

    -- Over a compare-and-swap store whose worlds stay fine across failed puts and sleeps, for a key
    -- that parses and a plan that encodes, and whatever number of retries: put_plan answers a tag only
    -- if the condition held of the object of before, and then the object is the encoded plan under
    -- this tag; otherwise the object is the one of before.
    pub put_plan-Done :
        (w : W)
        → AtRest w
        → Done body
            (cas_condition cond)
            before
            (object path (put_plan cas codec sleep key delays plan cond w).1)
            (put_plan cas codec sleep key delays plan cond w).0
    unfolding put_plan or_other
    put_plan-Done w i =
        rw (encoded, parsed)
          (retried_lem cas codec sleep key AtRest
            (λ o. Done body (cas_condition cond) before (object path o.1) o.0)
            (mapped (cas.put_conditional path body (some json_type) none (cas_condition cond)))
            try_put-Done failed_put-AtRest AtRest-sleep delays w i)
