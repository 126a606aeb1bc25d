-- ===== src/Manifest/Compactor/Compact.antt =====
-- compactor.rs: snapshot, fold_until and compact_once.
use fusio.Base.{ℕ, List, [], ◌∷◌, length, Option, none, some, Text}
use fusio.Effect.{Exec, pure, fail, lift, ◌>>=◌, on_result}
use fusio.Manifest.Types.{
  Error, precondition_failed, HeadJson, PutCondition, if_not_exists, if_match, Snapshot,
  CheckpointMeta,
}
use fusio.Manifest.Backoff.{classify_error, by_class}
use fusio.Manifest.Table.{Table}
use fusio.Manifest.Stores.{Stores, Codec}
use fusio.Manifest.Open.{snapshot_at, empty_snapshot}
use fusio.Manifest.Session.Reads.{fold_into_map, or_corrupt}
use fusio.Manifest.Session.Writes.{or_zero, json_type}

module _ {W : Type 0} (st : Stores W) where
  unfoldable pub with_found : HeadJson → Text → Option Text → Exec Error W Snapshot
  unfolding snapshot_at
  with_found h tag none = pure (snapshot_at h tag none none)
  with_found h tag (some id) = do
    found ← st.ckpt_get id
    pure (snapshot_at h tag (some id) (some (found.0).last_segment_seq_at_ckpt))

  unfoldable pub snapshot_from : Option (HeadJson × Text) → Exec Error W Snapshot
  unfolding with_found empty_snapshot
  snapshot_from none = pure empty_snapshot
  snapshot_from (some (h, tag)) = with_found h tag h.checkpoint_id

  unfoldable pub snapshot : Exec Error W Snapshot
  unfolding snapshot_from
  snapshot = do loaded ← st.head_load; snapshot_from loaded

  -- The loop that puts the new HEAD: its one put, and its repetition after each delay.
  unfoldable pub put_again : (Error → Exec Error W Text) → Error → Exec Error W Text
  put_again again precondition_failed = fail precondition_failed
  put_again again e = by_class (classify_error e) (again e) (fail e) (fail e)

  unfoldable pub put_after : ℕ → Exec Error W Text → Error → Exec Error W Text
  put_after delay next e w = next (st.sleep delay w)

  unfoldable pub put_loop : List ℕ → HeadJson → PutCondition → Exec Error W Text
  unfolding put_again put_after
  put_loop [] h c = on_result (st.head_put h c) pure (put_again fail)
  put_loop (delay ∷ delays) h c =
      on_result (st.head_put h c) pure (put_again (put_after delay (put_loop delays h c)))

-- The HEAD that points at the new checkpoint.
unfoldable pub compacted_head : Text → Option (HeadJson × Text) → HeadJson
compacted_head id none = record {
  version = 1;
  checkpoint_id = some id;
  last_segment_seq = none;
  last_txn_id = 0;
}
compacted_head id (some (cur, _)) = record {
  version = cur.version;
  checkpoint_id = some id;
  last_segment_seq = cur.last_segment_seq;
  last_txn_id = cur.last_txn_id;
}

unfoldable pub compacted_condition : Option (HeadJson × Text) → PutCondition
compacted_condition none = if_not_exists
compacted_condition (some (_, cur_tag)) = if_match cur_tag

unfoldable pub checkpoint_meta : Snapshot → (key_count byte_size now_ms : ℕ) → CheckpointMeta
unfolding or_zero
checkpoint_meta snap key_count byte_size now_ms = record {
  lsn = snap.txn_id;
  key_count = key_count;
  byte_size = byte_size;
  created_at_ms = now_ms;
  format = json_type;
  last_segment_seq_at_ckpt = or_zero snap.last_segment_seq;
}

module _ {W : Type 0} (st : Stores W) where
  -- Behind the put of the checkpoint.
  unfoldable pub publish_from :
      List ℕ → Text → Option (HeadJson × Text) → Exec Error W (Text × Text)
  unfolding put_loop compacted_head compacted_condition
  publish_from delays id loaded = do
    tag ← put_loop st delays (compacted_head id loaded) (compacted_condition loaded)
    pure (id, tag)

  unfoldable pub publish_checkpoint : List ℕ → Text → Exec Error W (Text × Text)
  unfolding publish_from
  publish_checkpoint delays id = do loaded ← st.head_load; publish_from delays id loaded

  unfoldable pub put_payload : List ℕ → Snapshot → ℕ → Text → Exec Error W (Text × Text)
  unfolding checkpoint_meta publish_checkpoint
  put_payload delays snap count payload w =
      (do
        id ← st.ckpt_put (checkpoint_meta snap count (length payload) (st.now w)) payload json_type
        publish_checkpoint delays id)
        w

module _ {W K V : Type 0} (key_eq : Discrete K) (st : Stores W) (c : Codec K V) where
  unfoldable pub put_table : List ℕ → Snapshot → Table K V → Exec Error W (Text × Text)
  unfolding put_payload
  put_table delays snap entries = do
    payload ← lift (or_corrupt (c.encode_entries entries))
    put_payload st delays snap (length entries) payload

  unfoldable pub compact_from : ℕ → List ℕ → Snapshot → Exec Error W (Text × Text)
  unfolding fold_into_map put_table
  compact_from fuel delays snap = do
    entries ← fold_into_map key_eq st c fuel snap []
    put_table delays snap entries

  -- `fuel` is for the windows of the fold.
  unfoldable pub compact_once : ℕ → List ℕ → Exec Error W (Text × Text)
  unfolding snapshot compact_from
  compact_once fuel delays = do snap ← snapshot st; compact_from fuel delays snap
