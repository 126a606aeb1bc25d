-- ===== src/Manifest/Compactor/Gc.antt =====
-- compactor.rs: compact_and_gc, run_once, and the three steps of the planned GC: gc_compute,
-- gc_apply and gc_delete_and_reset.
use fusio.Base.{
  ℕ, ◌-◌, min, List, [], ◌∷◌, map, reverse, take, Option, none, some, Bool, true, false, not, ◌&&◌,
  ltb, leb, ◌==◌, if◌then◌else◌, any, keep, Text, u64_max, saturating_add,
}
use fusio.Effect.{Exec, pure, fail, ◌>>=◌, ◌>>◌, on_result, ignoring}
use fusio.Manifest.Types.{
  Error, precondition_failed, HeadJson, if_not_exists, if_match, ActiveLease, CheckpointMeta,
}
use fusio.Manifest.Backoff.{classify_error, by_class}
use fusio.Manifest.Stores.{Stores, Codec}
use fusio.Manifest.Plan.{GcPlan, empty_plan, is_nil, last_end, PlanStore, Retention}
use fusio.Manifest.Compactor.Retention.{
  Entry, Stats, text_eq, retention_of, checkpoints_to_delete, segments_to_delete, is_entry,
}
use fusio.Manifest.Compactor.Compact.{compact_once}
use fusio.Manifest.Recover.{recover_orphans}
use fusio.Manifest.Session.Writes.{or_zero}

-- `leases.iter().map(|l| l.snapshot_txn_id).min()`
unfoldable pub least : List ActiveLease → Option ℕ
least [] = none
least (l ∷ ls) = elim (least ls) [
  | none ↦ some l.snapshot_txn_id
  | some t ↦ some (min l.snapshot_txn_id t)
]

unfoldable pub watermark_of : List ActiveLease → ℕ
unfolding least
watermark_of ls = elim (least ls) [ none ↦ u64_max | some t ↦ t ]

-- The last of the entries with the greatest key: `max_by_key`.
unfoldable pub max_by_key : (Entry → ℕ) → List Entry → Option Entry
max_by_key key [] = none
max_by_key key (e ∷ es) = elim (max_by_key key es) [
  | none ↦ some e
  | some b ↦ if ltb (key b) (key e) then some e else some b
]

-- A stable sort: `sort_by_key`.
unfoldable pub insert_by : (Entry → ℕ) → Entry → List Entry → List Entry
insert_by key e [] = e ∷ []
insert_by key e (x ∷ xs) =
    let rest = insert_by key e xs in if leb (key e) (key x) then e ∷ x ∷ xs else (x ∷ rest)

unfoldable pub sort_by_key : (Entry → ℕ) → List Entry → List Entry
unfolding insert_by
sort_by_key key [] = []
sort_by_key key (e ∷ es) = insert_by key e (sort_by_key key es)

unfoldable pub find_reaching : ℕ → List Entry → Option Entry
find_reaching upto [] = none
find_reaching upto ((id, m) ∷ es) =
    if leb upto m.last_segment_seq_at_ckpt then some (id, m) else find_reaching upto es

module _ {W : Type 0} (st : Stores W) where
  -- The entries that are listed, none if the listing fails.
  unfoldable pub listed_entries : Exec Error W (List Entry)
  listed_entries = on_result st.ckpt_list pure (λ _. pure [])

module _ {W : Type 0} (st : Stores W) (retention : Retention) where
  -- The entries of compact_and_gc that may not go.
  unfoldable pub stays : List Entry → (watermark now_ms : ℕ) → Entry → Bool
  unfolding is_entry max_by_key text_eq keep any
  stays list watermark now_ms (id, m) =
      let newest = max_by_key (λ e. (e.1).lsn) list in
      let floor = max_by_key (λ e. (e.1).lsn) (keep (λ e. leb (e.1).lsn watermark) list) in
      let newest_ids =
        map (λ (e : Entry). e.0) (take retention.checkpoints_keep_last (reverse list)) in
      not (
        not (is_entry newest id)
        && (not (is_entry floor id)
            && (not (any (λ i. text_eq i id) newest_ids)
                && leb retention.checkpoints_min_ttl (now_ms - m.created_at_ms))))

  unfoldable pub delete_old : List Entry → (watermark now_ms : ℕ) → List Entry → Exec Error W Unit
  unfolding stays
  delete_old list watermark now_ms [] = pure tt
  delete_old list watermark now_ms (e ∷ es) =
      let rest = delete_old list watermark now_ms es in
      if stays list watermark now_ms e then rest else (ignoring (st.ckpt_delete (e.0)) >> rest)

  unfoldable pub delete_segments_below : ℕ → CheckpointMeta → Exec Error W Unit
  delete_segments_below watermark meta =
      if ltb meta.lsn watermark
      then ignoring (st.seg_delete_upto meta.last_segment_seq_at_ckpt)
      else pure tt

  unfoldable pub delete_checkpoints_below : ℕ → ℕ → Exec Error W Unit
  unfolding listed_entries delete_old sort_by_key
  delete_checkpoints_below watermark now_ms = do
    entries ← listed_entries st
    let list = sort_by_key (λ e. (e.1).lsn) entries in delete_old list watermark now_ms list

  -- What follows in compact_and_gc where HEAD is still the one that compact_once has put.
  unfoldable pub collect_garbage : Text → Text → Exec Error W (Text × Text)
  unfolding watermark_of delete_segments_below delete_checkpoints_below
  collect_garbage id tag w =
      (do
        leases ← st.lease_list_active (st.now w)
        meta ← st.ckpt_get_meta id
        delete_segments_below (watermark_of leases) meta
        (λ w'. delete_checkpoints_below (watermark_of leases) (st.now w') w')
        pure (id, tag))
        w

  unfoldable pub after_compaction :
      Text × Text → Option (HeadJson × Text) → Exec Error W (Text × Text)
  unfolding collect_garbage text_eq
  after_compaction (id, tag) none = collect_garbage id tag
  after_compaction (id, tag) (some (_, cur_tag)) =
      if not (text_eq cur_tag tag) then pure (id, tag) else collect_garbage id tag

  unfoldable pub compact_and_gc :
      {K V : Type 0} → Discrete K → Codec K V → ℕ → List ℕ → Exec Error W (Text × Text)
  unfolding compact_once after_compaction
  compact_and_gc key_eq c fuel delays = do
    done ← compact_once key_eq st c fuel delays
    loaded ← st.head_load
    after_compaction done loaded

  unfoldable pub run_once : {K V : Type 0} → Discrete K → Codec K V → ℕ → List ℕ → Exec Error W Unit
  unfolding recover_orphans compact_and_gc
  run_once key_eq c fuel delays = do
    recover_orphans st fuel delays
    compact_and_gc key_eq c fuel delays
    pure tt

module _ {W : Type 0} (st : Stores W) where
  -- One iteration ended in an error: again after a transient one.
  unfoldable pub or_again : {A : Type 0} → (Error → Exec Error W A) → Error → Exec Error W A
  or_again again e = by_class (classify_error e) (again e) (fail e) (fail e)

  unfoldable pub again_after : {A : Type 0} → ℕ → Exec Error W A → Error → Exec Error W A
  again_after delay next e w = next (st.sleep delay w)

module _ {W : Type 0} (st : Stores W) (ps : PlanStore W) (retention : Retention) where
  -- The plan against a HEAD.
  unfoldable pub plan_against : (HeadJson × Text) → (now_ms : ℕ) → Stats → GcPlan
  unfolding checkpoints_to_delete segments_to_delete saturating_add
  plan_against (head_json, head_tag) now_ms s = record {
    against_head_tag = some head_tag;
    not_before = saturating_add now_ms retention.segments_min_ttl;
    delete_segments = segments_to_delete s head_json;
    delete_checkpoints = checkpoints_to_delete s now_ms retention.checkpoints_min_ttl;
    make_checkpoints = [];
  }

  unfoldable pub on_install_error :
      (Error → Exec Error W (Option Text)) → Error → Exec Error W (Option Text)
  unfolding or_again
  on_install_error again precondition_failed = pure none
  on_install_error again e = or_again st again e

  unfoldable pub retention_state : ℕ → Exec Error W Stats
  unfolding retention_of
  retention_state watermark =
      on_result st.ckpt_list
        (λ es. pure (retention_of watermark retention.checkpoints_keep_last (some es)))
        (λ _. pure (retention_of watermark retention.checkpoints_keep_last none))

  unfoldable pub install_plan :
      (Error → Exec Error W (Option Text))
      → (HeadJson × Text)
      → ℕ
      → Stats
      → Exec Error W (Option Text)
  unfolding plan_against on_install_error
  install_plan again head now_ms s =
      on_result (ps.put (plan_against head now_ms s) if_not_exists) (λ tag. pure (some tag))
        (on_install_error again)

  unfoldable pub plan_with_leases :
      (Error → Exec Error W (Option Text))
      → (HeadJson × Text)
      → ℕ
      → List ActiveLease
      → Exec Error W (Option Text)
  unfolding retention_state install_plan watermark_of
  plan_with_leases again head now_ms [] = pure none
  plan_with_leases again head now_ms (l ∷ ls) = do
    s ← retention_state (watermark_of (l ∷ ls))
    install_plan again head now_ms s

  unfoldable pub plan_with_head :
      (Error → Exec Error W (Option Text)) → Option (HeadJson × Text) → Exec Error W (Option Text)
  unfolding plan_with_leases or_again
  plan_with_head again none w = pure none w
  plan_with_head again (some head) w =
      on_result (st.lease_list_active (st.now w)) (plan_with_leases again head (st.now w))
        (or_again st again) w

  unfoldable pub compute_round : (Error → Exec Error W (Option Text)) → Exec Error W (Option Text)
  unfolding plan_with_head or_again
  compute_round again = on_result st.head_load (plan_with_head again) (or_again st again)

  unfoldable pub gc_compute : List ℕ → Exec Error W (Option Text)
  unfolding compute_round again_after
  gc_compute [] = compute_round fail
  gc_compute (delay ∷ delays) = compute_round (again_after st delay (gc_compute delays))

unfoldable pub retarget : HeadJson → Text → HeadJson
retarget cur target_id = record {
  version = cur.version;
  checkpoint_id = some target_id;
  last_segment_seq = cur.last_segment_seq;
  last_txn_id = cur.last_txn_id;
}

module _ {W : Type 0} (st : Stores W) (ps : PlanStore W) where
  -- let _ = store.put(&GcPlan::default(), IfMatch(plan_tag)); return Ok(())
  unfoldable pub invalidate : Text → Exec Error W Unit
  invalidate plan_tag = ignoring (ps.put empty_plan (if_match plan_tag))

  unfoldable pub on_head_put_error : (Error → Exec Error W Unit) → Text → Error → Exec Error W Unit
  unfolding invalidate
  on_head_put_error again plan_tag e =
      by_class (classify_error e) (again e) (invalidate plan_tag) (fail e)

  unfoldable pub put_target :
      (Error → Exec Error W Unit) → Text → (HeadJson × Text) → Text → Bool → Exec Error W Unit
  unfolding on_head_put_error retarget
  put_target again plan_tag (cur, cur_tag) target_id true = pure tt
  put_target again plan_tag (cur, cur_tag) target_id false =
      on_result (st.head_put (retarget cur target_id) (if_match cur_tag)) (λ _. pure tt)
        (on_head_put_error again plan_tag)

  -- HEAD references a checkpoint that reaches `upto`.
  unfoldable pub already_ok : ℕ → Option Text → Exec Error W Bool
  already_ok upto none = pure false
  already_ok upto (some id) =
      on_result (st.ckpt_get id) (λ found. pure (leb upto (found.0).last_segment_seq_at_ckpt))
        (λ _. pure false)

  unfoldable pub apply_candidate :
      (Error → Exec Error W Unit) → Text → ℕ → (HeadJson × Text) → Option Entry → Exec Error W Unit
  unfolding invalidate already_ok put_target
  apply_candidate again plan_tag upto head none = invalidate plan_tag
  apply_candidate again plan_tag upto (cur, cur_tag) (some (target_id, _)) = do
    fine ← already_ok upto cur.checkpoint_id
    put_target again plan_tag (cur, cur_tag) target_id fine

  -- `plan.against_head_tag` is there and another than HEAD's.
  unfoldable pub is_outdated : Option Text → Text → Bool
  unfolding text_eq
  is_outdated none cur_tag = false
  is_outdated (some expected) cur_tag = not (text_eq cur_tag expected)

  unfoldable pub apply_to_head :
      (Error → Exec Error W Unit) → GcPlan → Text → ℕ → Option (HeadJson × Text) → Exec Error W Unit
  unfolding invalidate is_outdated apply_candidate listed_entries find_reaching sort_by_key
  apply_to_head again plan plan_tag upto none = invalidate plan_tag
  apply_to_head again plan plan_tag upto (some (cur, cur_tag)) =
      if is_outdated plan.against_head_tag cur_tag then invalidate plan_tag else (do
        ckpts ← listed_entries st
        apply_candidate again plan_tag upto (cur, cur_tag)
            (find_reaching upto (sort_by_key (λ e. (e.1).last_segment_seq_at_ckpt) ckpts)))

  -- Nothing is planned, so nothing is to do.
  unfoldable pub has_no_deletes : GcPlan → Bool
  unfolding is_nil
  has_no_deletes plan = is_nil plan.delete_segments && is_nil plan.delete_checkpoints

  unfoldable pub apply_plan :
      (Error → Exec Error W Unit) → Option (GcPlan × Text) → Exec Error W Unit
  unfolding has_no_deletes last_end apply_to_head or_again or_zero
  apply_plan again none = pure tt
  apply_plan again (some (plan, plan_tag)) =
      let upto = or_zero (last_end plan.delete_segments) in
      if has_no_deletes plan
      then pure tt
      else if upto == 0
      then pure tt
      else on_result st.head_load (apply_to_head again plan plan_tag upto) (or_again st again)

  unfoldable pub apply_round : (Error → Exec Error W Unit) → Exec Error W Unit
  unfolding apply_plan or_again
  apply_round again = on_result ps.load (apply_plan again) (or_again st again)

  unfoldable pub gc_apply : List ℕ → Exec Error W Unit
  unfolding apply_round again_after
  gc_apply [] = apply_round fail
  gc_apply (delay ∷ delays) = apply_round (again_after st delay (gc_apply delays))

  -- The loop that resets the plan.
  unfoldable pub on_reset_error : (Error → Exec Error W Unit) → Error → Exec Error W Unit
  unfolding or_again
  on_reset_error again precondition_failed = pure tt
  on_reset_error again e = or_again st again e

  unfoldable pub reset_plan : List ℕ → Text → Exec Error W Unit
  unfolding on_reset_error again_after
  reset_plan [] plan_tag =
      on_result (ps.put empty_plan (if_match plan_tag)) (λ _. pure tt) (on_reset_error fail)
  reset_plan (delay ∷ delays) plan_tag =
      on_result (ps.put empty_plan (if_match plan_tag)) (λ _. pure tt)
        (on_reset_error (again_after st delay (reset_plan delays plan_tag)))

  unfoldable pub delete_planned : List Text → Exec Error W Unit
  delete_planned [] = pure tt
  delete_planned (id ∷ ids) = do st.ckpt_delete id; delete_planned ids

  unfoldable pub delete_range : Option ℕ → Exec Error W Unit
  delete_range none = pure tt
  delete_range (some upto) = st.seg_delete_upto upto

  unfoldable pub delete_loaded : List ℕ → Option (GcPlan × Text) → Exec Error W Unit
  unfolding has_no_deletes last_end reset_plan delete_planned delete_range
  delete_loaded delays none w = pure tt w
  delete_loaded delays (some (plan, plan_tag)) w =
      if has_no_deletes plan
      then (pure tt w)
      else if ltb (st.now w) plan.not_before
      then (pure tt w)
      else (do
        delete_range (last_end plan.delete_segments)
        delete_planned plan.delete_checkpoints
        reset_plan delays plan_tag)
          w

  -- The plan could not be read: the next pass will try again.
  unfoldable pub give_way : List ℕ → Error → Exec Error W Unit
  unfolding or_again again_after
  give_way [] e = or_again st fail e
  give_way (delay ∷ delays) e = or_again st (again_after st delay (pure tt)) e

  unfoldable pub gc_delete_and_reset : List ℕ → Exec Error W Unit
  unfolding delete_loaded give_way
  gc_delete_and_reset delays = on_result ps.load (delete_loaded delays) (give_way delays)
