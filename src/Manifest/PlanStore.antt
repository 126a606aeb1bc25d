-- ===== src/Manifest/PlanStore.antt =====
-- fusio-manifest/src/gc.rs: FsGcPlanStore, the plan of the garbage collector as an object behind
-- compare-and-swap. `delays` are the delays that the backoff policy allows.
pub mod Atomic
use fusio.Base.{◌≡◌, refl, sym, subst, ◌∙◌, ℕ, List, [], ◌∷◌, ◌++◌, Option, none, some, Text, codes}
use fusio.Effect.{
  Result, ok, err, spent, Exec, pure, fail, lift, ◌>>=◌, on_result, bind_cases, on_result_cases,
}
use fusio.Path.{PathError, parse}
use fusio.Memory.{CasCondition}
use fusio.Memory.Tags.{Holds}
use fusio.Manifest.Types.{Error, FsError, PutCondition}
use fusio.Manifest.Backoff.{map_fs_error, classify_error, by_class, by_class_cases}
use fusio.Manifest.Plan.{GcPlan}
use fusio.Manifest.HeadStore.{
  CasStore, CasLaws, Swapped, Read, mapped, of_fs, of_fs_ok, or_other, cas_condition,
}
use fusio.Manifest.Session.Reads.{or_corrupt}
use fusio.Manifest.Segments.{under, json_type}
use fusio.Manifest.Leases.{new_prefix}

-- serde_json on GcPlan.
pub record PlanCodec : Type 0 where
  pub encode_plan : GcPlan → Option Text
  pub decode_plan : Text → Option GcPlan

-- FsGcPlanStore::new: the key.
unfoldable pub plan_key : Text → Text
unfolding under new_prefix
plan_key prefix = under (new_prefix prefix) (codes "gc/GARBAGE")

module _ {W : Type 0} (cas : CasStore W) (codec : PlanCodec) (sleep : ℕ → W → W) (key : Text) where
  -- A call that is tried again after a transient error, as long as there are delays.
  unfoldable pub retried : {A : Type 0} → List ℕ → Exec Error W A → Exec Error W A
  unfolding classify_error
  retried [] m = m
  retried (delay ∷ delays) m =
      let again : Exec Error W _ = λ w. retried delays m (sleep delay w) in
      on_result m pure (λ e. by_class (classify_error e) again (fail e) (fail e))

  unfoldable pub decode_found : Option (Text × Text) → Exec Error W (Option (GcPlan × Text))
  decode_found none = pure none
  decode_found (some (bytes, etag)) = do
    plan ← lift (or_corrupt (codec.decode_plan bytes))
    pure (some (plan, etag))

  -- FsGcPlanStore::load; a plan that does not decode ends it at once.
  unfoldable pub load_plan : List ℕ → Exec Error W (Option (GcPlan × Text))
  unfolding or_other mapped retried decode_found
  load_plan delays = do
    path ← lift (or_other (parse key))
    found ← retried delays (mapped (cas.load_with_tag path))
    decode_found found

  -- FsGcPlanStore::put
  unfoldable pub put_plan : List ℕ → GcPlan → PutCondition → Exec Error W Text
  unfolding or_other mapped retried cas_condition
  put_plan delays plan cond = do
    body ← lift (or_corrupt (codec.encode_plan plan))
    path ← lift (or_other (parse key))
    retried delays
        (mapped (cas.put_conditional path body (some json_type) none (cas_condition cond)))
