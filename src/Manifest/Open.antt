-- ===== src/Manifest/Open.antt =====
-- fusio-manifest/src/manifest.rs: the snapshot of HEAD, the opening of sessions and the one-shot
-- reads.
use fusio.Base.{ℕ, List, [], Option, none, some, Bool, true, saturating_add, Text}
use fusio.Effect.{Exec, pure, ◌>>=◌, ◌>>◌}
use fusio.Manifest.Types.{Error, Snapshot, HeadJson, ScanRange}
use fusio.Manifest.Stores.{Stores, Codec}
use fusio.Manifest.Session.Reads.{base_get, base_scan, base_scan_range}
use fusio.Manifest.Session.Writes.{Session, release_taken}
use fusio.Manifest.Recover.{recover_orphans}

-- A snapshot of HEAD at its tag, with what the checkpoint's metadata says.
unfoldable pub snapshot_at : HeadJson → Text → Option Text → Option ℕ → Snapshot
snapshot_at h tag id seq = record {
  head_tag = some tag;
  txn_id = h.last_txn_id;
  last_segment_seq = h.last_segment_seq;
  checkpoint_seq = seq;
  checkpoint_id = id;
}

-- The snapshot where there is no HEAD.
unfoldable pub empty_snapshot : Snapshot
empty_snapshot = record {
  head_tag = none;
  txn_id = 0;
  last_segment_seq = none;
  checkpoint_seq = none;
  checkpoint_id = none;
}

module _ {W : Type 0} (st : Stores W) where
  with_checkpoint : HeadJson → Text → Option Text → Exec Error W Snapshot
  unfolding snapshot_at
  with_checkpoint h tag none = pure (snapshot_at h tag none none)
  with_checkpoint h tag (some id) = do
    meta ← st.ckpt_get_meta id
    pure (snapshot_at h tag (some id) (some meta.last_segment_seq_at_ckpt))

  of_head : Option (HeadJson × Text) → Exec Error W Snapshot
  unfolding with_checkpoint empty_snapshot
  of_head none = pure empty_snapshot
  of_head (some (h, tag)) = with_checkpoint h tag h.checkpoint_id

  unfoldable pub snapshot : Exec Error W Snapshot
  unfolding of_head
  snapshot = do loaded ← st.head_load; of_head loaded

  -- session_at: a session over the snapshot, with a lease on its transaction.
  unfoldable pub session_at : {K V : Type 0} → ℕ → Snapshot → Exec Error W (Session K V)
  session_at ttl snap = do
    lease ← st.lease_create snap.txn_id snap.head_tag ttl
    pure (record { lease = some lease; snapshot = snap; pinned = true; ttl = ttl; staged = [] })

  unfoldable pub session_read : {K V : Type 0} → ℕ → Exec Error W (Session K V)
  unfolding snapshot session_at
  session_read ttl = do snap ← snapshot; session_at ttl snap

  -- session_write: orphans first, and the lease is on the next transaction.
  unfoldable pub session_write : {K V : Type 0} → ℕ → List ℕ → ℕ → Exec Error W (Session K V)
  unfolding snapshot recover_orphans saturating_add
  session_write fuel delays ttl = do
    recover_orphans st fuel delays
    snap ← snapshot
    lease ← st.lease_create (saturating_add snap.txn_id 1) snap.head_tag ttl
    pure (record { lease = some lease; snapshot = snap; pinned = true; ttl = ttl; staged = [] })

module _ {W K V : Type 0} (key_eq : Discrete K) (st : Stores W) (c : Codec K V) where
  unfoldable pub get_latest : ℕ → ℕ → K → Exec Error W (Option V)
  unfolding snapshot session_at release_taken
  get_latest fuel ttl key = do
    snap ← snapshot st
    s ← session_at st {K = K} {V = V} ttl snap
    value ← base_get key_eq st c fuel s.snapshot key
    release_taken st s.lease
    pure value

  scan_or_range :
      (ge lt : K → K → Bool) → ℕ → Snapshot → Option (ScanRange K) → Exec Error W (List (K × V))
  scan_or_range ge lt fuel snap none = base_scan key_eq st c fuel snap
  scan_or_range ge lt fuel snap (some r) = base_scan_range key_eq st c ge lt fuel snap r

  unfoldable pub scan_latest :
      (ge lt : K → K → Bool) → ℕ → ℕ → Option (ScanRange K) → Exec Error W (List (K × V))
  unfolding snapshot session_at release_taken scan_or_range
  scan_latest ge lt fuel ttl range = do
    snap ← snapshot st
    s ← session_at st {K = K} {V = V} ttl snap
    result ← scan_or_range ge lt fuel s.snapshot range
    release_taken st s.lease
    pure result
