-- ===== src/Manifest/Plan.antt =====
-- fusio-manifest/src/gc.rs, the data and the trait; fusio-manifest/src/retention.rs.
use fusio.Base.{
  ℕ, max, List, [], ◌∷◌, Option, none, some, Bool, true, false, ◌&&◌, leb, if◌then◌else◌, Text,
}
use fusio.Effect.{Exec}
use fusio.Manifest.Types.{Error, PutCondition}

-- A closed range of segment numbers.
pub record SegmentRange : Type 0 where
  pub start : ℕ
  pub end : ℕ

-- SegmentRange::new: the bounds in either order.
unfoldable pub new_range : ℕ → ℕ → SegmentRange
new_range start end =
    if leb start end
    then record { start = start; end = end }
    else record { start = end; end = start }

pub record CheckpointSpec : Type 0 where
  pub name : Text
  pub upto_lsn : ℕ

pub record GcPlan : Type 0 where
  pub against_head_tag : Option Text
  pub not_before : ℕ
  pub delete_segments : List SegmentRange
  pub delete_checkpoints : List Text
  pub make_checkpoints : List CheckpointSpec

-- `GcPlan::default()`
abbrev pub empty_plan : GcPlan
empty_plan = record {
  against_head_tag = none;
  not_before = 0;
  delete_segments = [];
  delete_checkpoints = [];
  make_checkpoints = [];
}

unfoldable pub is_nil : {A : Type 0} → List A → Bool
is_nil [] = true
is_nil (_ ∷ _) = false

-- GcPlan::is_empty
unfoldable pub is_empty : GcPlan → Bool
unfolding is_nil
is_empty p = is_nil p.delete_segments && is_nil p.delete_checkpoints && is_nil p.make_checkpoints

-- `plan.delete_segments.iter().map(|r| r.end).max()`
unfoldable pub last_end : List SegmentRange → Option ℕ
last_end [] = none
last_end (r ∷ rs) = elim (last_end rs) [ none ↦ some r.end | some e ↦ some (max r.end e) ]

-- GcPlanStore: the stored plan with its tag.
pub record PlanStore (W : Type 0) : Type 0 where
  pub load : Exec Error W (Option (GcPlan × Text))
  pub put : GcPlan → PutCondition → Exec Error W Text

-- RetentionPolicy; sessions take its `lease_ttl` as an argument.
pub record Retention : Type 0 where
  pub checkpoints_keep_last : ℕ
  pub checkpoints_min_ttl : ℕ
  pub segments_min_ttl : ℕ
  pub lease_ttl : ℕ
