-- ===== src/Examples/Runs.antt =====
-- The theorems at concrete inputs.
use fusio.Base.{
  ℕ, ◌≡◌, refl, List, [], ◌∷◌, Option, none, some, true, codes, arith, ℕ_discrete, keep,
  saturating_add, Text-discrete,
}
use fusio.Effect.{ok}
use fusio.Manifest.Types.{op_put, op_del, Segment, Snapshot, HeadJson, CheckpointMeta}
use fusio.Manifest.Table
use fusio.Manifest.Session.Reads.{base_get, base_scan}
use fusio.Manifest.Session.Rest.{from}
use fusio.Manifest.Session.Reads.{first_seq}
use fusio.Manifest.Session.Agree.{base_get-eq-scan, base_scan-eq-told}
use fusio.Manifest.Session.History.{value_after}
use fusio.Manifest.Session.Writes.{
  Session, Limits, Live, staged_segment, staged_record, commit, or_zero,
}
use fusio.Manifest.Session.Success.{commit-Succeeds}
use fusio.Manifest.Session.Commit.{Atomic, the_plan, commit-Atomic}
use fusio.Manifest.Recover.{Probe, probe, recover_orphans, current_head}
use fusio.Manifest.Recover.Probing.{Along, Keeps, probe-Keeps}
use fusio.Manifest.Recover.Adopt.{Recovered, recover_orphans-Recovered}
use fusio.Manifest.Plan.{last_end}
use fusio.Manifest.Compactor.Retention.{
  Entry, retention_of, observe_all, observe, beats, checkpoints_to_delete, segments_to_delete,
  segments_below, range_upto,
}
use fusio.Manifest.Compactor.Compact.{publish_checkpoint}
use fusio.Manifest.Compactor.Gc.{gc_apply}
use fusio.Manifest.Compactor.Kept.{Retains, retention_of-Retains, Spares, plan-Spares}
use fusio.Manifest.Compactor.Head.{
  Compacted, publish_checkpoint-Compacted, Retargeted, gc_apply-Retargeted,
}
use fusio.Examples.Filed.{
  Filed, filed_stores, filed_head, filed_laws, filed_stores-Serves, IsFree, filed_segs, two_files,
  filed-AtRest, three-IsFree, segment_one, segment_two,
}
use fusio.Examples.World.{
  World, small_codec, small_stores, small_laws, small_plans, small_plans-PlanKeeps, head_of,
}

abbrev orphan : Segment ℕ ℕ
orphan = record { txn_id = 3; records = record { key = 7; op = op_put; value = some 71 } ∷ [] }

abbrev meta : CheckpointMeta
meta = record {
  lsn = 0;
  key_count = 1;
  byte_size = 2;
  created_at_ms = 0;
  format = codes "application/json";
  last_segment_seq_at_ckpt = 0;
}

abbrev head : HeadJson
head = record {
  version = 1;
  checkpoint_id = some (codes "k");
  last_segment_seq = some 2;
  last_txn_id = 2;
}

-- Two published segments behind a checkpoint with one entry.
abbrev world : World
world = record {
  head = some (head, codes "0");
  segs = filed_segs;
  ckpts = (codes "k", (meta, 5 ∷ 50 ∷ [])) ∷ [];
  leases = [];
  plan = none;
  clock = 1000;
}

abbrev snap : Snapshot
snap = record {
  head_tag = some (codes "0");
  txn_id = 2;
  last_segment_seq = some 2;
  checkpoint_seq = some 0;
  checkpoint_id = some (codes "k");
}

some_not_none : {a : ℕ} → some a ≡ none → ⊥
some_not_none e = cc

del_not_put : op_del ≡ op_put → ⊥
del_not_put e = cc

-- The segments are files, and SegmentStoreImpl reads them.
abbrev filed : Filed
filed = (world, two_files)

abbrev scanned : List (ℕ × ℕ)
scanned = (5, 50) ∷ (8, 80) ∷ (9, 90) ∷ []

-- Key 7 was put, and then deleted.
abbrev said_of_keys : List (ℕ × Option ℕ)
said_of_keys = (5, some 50) ∷ (7, some 70) ∷ (8, some 80) ∷ (7, none) ∷ (9, some 90) ∷ []

scan_example :
    (base_scan ℕ_discrete filed_stores small_codec 4 snap filed ≡ (ok scanned, filed))
    × ((key : ℕ) → Table.get ℕ_discrete key scanned ≡ value_after ℕ_discrete key said_of_keys none)
unfolding Table.insert Table.remove ℕ_discrete keep Text-discrete
scan_example =
    base_scan-eq-told ℕ_discrete filed_stores small_codec filed snap 2 4 filed_segs ((5, 50) ∷ [])
      (filed-AtRest world) (omega arith) refl ((meta, 5 ∷ 50 ∷ []), refl, refl)
      ((λ _. omega arith), ((λ _. omega arith), tt))
      (unfold from first_seq saturating_add in omega arith)

get_example :
    (table : List (ℕ × ℕ)) × (base_scan ℕ_discrete filed_stores small_codec 4 snap filed
      ≡ (ok table, filed))
    × (base_get ℕ_discrete filed_stores small_codec 4 snap 9 filed
        ≡ (ok (Table.get ℕ_discrete 9 table), filed))
unfolding Text-discrete
get_example =
    base_get-eq-scan ℕ_discrete filed_stores small_codec filed snap 2 4 filed_segs ((5, 50) ∷ [])
      (filed-AtRest world) (omega arith) refl ((meta, 5 ∷ 50 ∷ []), refl, refl)
      ((λ _. omega arith), ((λ _. omega arith), tt))
      (unfold from first_seq saturating_add in omega arith) 9
      (
        ((λ _ e. some_not_none e), ((λ _ e. some_not_none e), tt)),
        (((λ e _. del_not_put e), ((λ _ e. some_not_none e), tt)), tt),
      )

abbrev limits : Limits
limits = record { max_elapsed_ms = 100; delays = 5 ∷ [] }

abbrev session : Session ℕ ℕ
session = record {
  lease = some (record { id = codes "l"; snapshot_txn_id = 3 });
  snapshot = snap;
  pinned = true;
  ttl = 60;
  staged = (7, op_put, some 71) ∷ [];
}

abbrev live : Live World
live = record { world = world; lease = session.lease }

commit_example :
    Atomic
      (the_plan small_stores head_of small_laws small_codec limits session live
        (3 ∷ 2 ∷ 7 ∷ 71 ∷ []))
      (head_of world)
      (head_of (commit small_stores small_codec limits session live).1.world)
      (commit small_stores small_codec limits session live).0
unfolding staged_segment staged_record saturating_add
commit_example =
    commit-Atomic small_stores head_of small_laws small_codec limits session live
      (3 ∷ 2 ∷ 7 ∷ 71 ∷ []) refl

-- The world with a segment that is written but not published.
abbrev crashed : World
crashed = record world { segs = (1, segment_one) ∷ (2, segment_two) ∷ (3, orphan) ∷ [] }

recover_example :
    Recovered crashed.head
      (head_of (recover_orphans small_stores 4 [] crashed).1)
      (recover_orphans small_stores 4 [] crashed).0
recover_example =
    recover_orphans-Recovered small_stores head_of small_laws crashed.head
      (unfold or_zero current_head in omega arith) 4 [] crashed refl

publish_example :
    Compacted
      (codes "k2")
      world.head
      (head_of (publish_checkpoint small_stores (5 ∷ []) (codes "k2") world).1)
      (publish_checkpoint small_stores (5 ∷ []) (codes "k2") world).0
publish_example =
    publish_checkpoint-Compacted small_stores head_of small_laws world.head (5 ∷ []) (codes "k2")
      world refl

abbrev planned : World
planned = record world {
  plan = some (
    record {
      against_head_tag = some (codes "0");
      not_before = 0;
      delete_segments = record { start = 1; end = 2 } ∷ [];
      delete_checkpoints = [];
      make_checkpoints = [];
    },
    codes "p",
  );
}

apply_example :
    Retargeted planned.head (head_of (gc_apply small_stores small_plans (5 ∷ []) planned).1)
apply_example =
    gc_apply-Retargeted small_stores head_of small_laws small_plans small_plans-PlanKeeps
      planned.head (5 ∷ []) planned refl

abbrev entries : List Entry
entries =
    (codes "a", record meta { lsn = 3; last_segment_seq_at_ckpt = 3 })
    ∷ (codes "b", record meta { lsn = 5; last_segment_seq_at_ckpt = 5 })
    ∷ (codes "c", record meta { lsn = 9; last_segment_seq_at_ckpt = 9 })
    ∷ []

retention_example : Retains 6 entries (retention_of 6 1 (some entries))
retention_example = retention_of-Retains 6 1 entries

plan-Spares_example :
    Spares 6 entries
      (record head { last_segment_seq = some 4 })
      (checkpoints_to_delete (retention_of 6 1 (some entries)) 1000 10)
      4
unfolding last_end segments_to_delete segments_below range_upto retention_of observe_all observe
    beats
plan-Spares_example =
    plan-Spares 6 1 1000 10 4 entries (record head { last_segment_seq = some 4 }) refl

abbrev begin : Probe
begin = record { expected = 3; adopted = 0; max_seq = 2; last_txn = 2 }

-- A writer holds a lease on transaction 4.
probe_example :
    Keeps head_of crashed.head (Along (4 ∷ []) begin) (probe small_stores (4 ∷ []) 4 begin crashed)
probe_example =
    probe-Keeps small_stores head_of small_laws (4 ∷ []) begin crashed.head 4 begin crashed
      (record {
        txns = omega arith;
        numbers = unfold saturating_add in omega arith;
        next = unfold saturating_add in omega arith;
        below = λ t m lt. lt;
      })
      refl

abbrev filed_live : Live Filed
filed_live = record { world = filed; lease = session.lease }

success_example : (commit filed_stores small_codec limits session filed_live).0 ≡ ok tt
unfolding staged_segment staged_record saturating_add
success_example =
    commit-Succeeds filed_stores filed_head filed_laws (λ _. Unit) IsFree filed_stores-Serves
      small_codec limits session filed_live (3 ∷ 2 ∷ 7 ∷ 71 ∷ []) tt (three-IsFree world) refl refl
