-- ===== src/Manifest/Session/Writes.antt =====
-- session.rs: the fields of a session, its lease, the staged operations of WriteSession, and
-- `commit`. Logging is left out.
use fusio.Base.{
  ℕ, ◌-◌, ite, List, [], ◌∷◌, ◌++◌, map, reverse, Option, none, some, Bool, true, false, Text,
  codes, ltb, leb, if◌then◌else◌, saturating_add, Text-discrete,
}
use fusio.Effect.{Result, ok, err, Exec, pure, fail, lift, ◌>>=◌, ◌>>◌, on_result, ignoring}
use fusio.Manifest.Types.{
  Error, precondition_failed, corrupt, Op, op_put, op_del, Record, Segment, Snapshot, ScanRange,
  HeadJson, PutCondition, if_not_exists, if_match, LeaseHandle,
}
use fusio.Manifest.Backoff.{classify_error, by_class}
use fusio.Manifest.Table
use fusio.Manifest.Table.{Table}
use fusio.Manifest.Stores.{Stores, Codec}
use fusio.Manifest.Session.Reads.{base_get, base_scan, base_scan_range, in_range}

-- One staged operation: `(K, Op, Option<V>)`.
abbrev pub Staged : Type 0 → Type 0 → Type 0
Staged K V = K × Op × Option V

-- SessionInner with the staged operations; a read session has none.
pub record Session (K V : Type 0) : Type 0 where
  pub lease : Option LeaseHandle
  pub snapshot : Snapshot
  pub pinned : Bool
  pub ttl : ℕ
  pub staged : List (Staged K V)

-- The limits of a retry loop: BackoffPolicy.max_elapsed_ms, and the delays that are left of
-- `build_backoff()`.
pub record Limits : Type 0 where
  pub max_elapsed_ms : ℕ
  pub delays : List ℕ

-- The world, and the lease that the session still holds.
pub record Live (W : Type 0) : Type 0 where
  pub world : W
  pub lease : Option LeaseHandle

module _ {W A : Type 0} where
  -- A call of a store.
  abbrev pub call : Exec Error W A → Exec Error (Live W) A
  call m s = let (r, w) = m s.world in (r, record s { world = w })

module _ {W : Type 0} (st : Stores W) where
  unfoldable pub release_taken : Option LeaseHandle → Exec Error W Unit
  release_taken none = pure tt
  release_taken (some lease) = st.lease_release lease

  -- release_lease: the lease is taken, whether or not the store fails.
  unfoldable pub release_lease : Exec Error (Live W) Unit
  unfolding release_taken
  release_lease s = call (release_taken s.lease) (record s { lease = none })

  unfoldable pub release_lease_silent : Exec Error (Live W) Unit
  unfolding release_lease
  release_lease_silent = ignoring release_lease

  -- ReadSession::end and WriteSession::end.
  unfoldable pub end_session : Exec Error (Live W) Unit
  unfolding release_lease
  end_session = release_lease

  heartbeat_held : Option LeaseHandle → ℕ → Exec Error W Unit
  heartbeat_held none ttl = pure tt
  heartbeat_held (some lease) ttl = st.lease_heartbeat lease ttl

  unfoldable pub heartbeat : {K V : Type 0} → Session K V → Exec Error W Unit
  unfolding heartbeat_held
  heartbeat s = if s.pinned then heartbeat_held s.lease s.ttl else pure tt

module _ {K V : Type 0} where
  unfoldable pub put : K → V → Session K V → Session K V
  put key value s = record s { staged = s.staged ++ (key, op_put, some value) ∷ [] }

  unfoldable pub delete : K → Session K V → Session K V
  delete key s = record s { staged = s.staged ++ (key, op_del, none) ∷ [] }

module _ {W K V : Type 0} (key_eq : Discrete K) (st : Stores W) (c : Codec K V) where
  -- What a staged operation says of its key; the value is cloned through JSON.
  staged_value : Op → Option V → Result Error (Option V)
  staged_value op_del v = ok none
  staged_value op_put none = ok none
  staged_value op_put (some v) = elim (c.clone_value v) [
    | none ↦ err corrupt
    | some x ↦ ok (some x)
  ]

  -- for (k, op, v) in staged.iter().rev()
  unfoldable pub find_staged : K → List (Staged K V) → Option (Result Error (Option V))
  unfolding staged_value
  find_staged key [] = none
  find_staged key ((k, op, v) ∷ older) =
      ite (key_eq k key) (some (staged_value op v)) (find_staged key older)

  unfoldable pub get_local : ℕ → Session K V → K → Exec Error W (Option V)
  unfolding find_staged
  get_local fuel s key = elim (find_staged key (reverse s.staged)) [
    | some r ↦ lift r
    | none ↦ base_get key_eq st c fuel s.snapshot key
  ]

  -- The overlay of one staged operation on the scanned entries.
  stage_on : K → Op → Option V → Table K V → Result Error (Table K V)
  stage_on k op_del v m = ok (Table.remove key_eq k m)
  stage_on k op_put none m = ok m
  stage_on k op_put (some v) m = elim (c.clone_key k) [
    | none ↦ err corrupt
    | some k' ↦ elim (c.clone_value v) [
      | none ↦ err corrupt
      | some v' ↦ ok (Table.insert key_eq k' v' m)
    ]
  ]

  unfoldable pub overlay : List (Staged K V) → Table K V → Exec Error W (Table K V)
  unfolding stage_on
  overlay [] m = pure m
  overlay ((k, op, v) ∷ rest) m = do m' ← lift (stage_on k op v m); overlay rest m'

  -- base_entries.drain(..).collect() into a map.
  unfoldable pub collect_map : List (K × V) → Table K V → Table K V
  collect_map [] m = m
  collect_map ((k, v) ∷ es) m = collect_map es (Table.insert key_eq k v m)

  clone_bound : Option K → Result Error (Option K)
  clone_bound none = ok none
  clone_bound (some k) = elim (c.clone_key k) [ none ↦ err corrupt | some x ↦ ok (some x) ]

  -- The part of `scan_local` with a range.
  unfoldable pub scan_local_range :
      (ge lt : K → K → Bool) → ℕ → Session K V → ScanRange K → Exec Error W (List (K × V))
  unfolding clone_bound in_range
  scan_local_range ge lt fuel s r = do
    start ← lift (clone_bound r.start)
    end ← lift (clone_bound r.end)
    base ← base_scan_range key_eq st c ge lt fuel s.snapshot (record { start = start; end = end })
    m ← overlay s.staged (collect_map base [])
    pure (in_range ge lt r m)

  unfoldable pub scan_local :
      (ge lt : K → K → Bool) → ℕ → Session K V → Option (ScanRange K) → Exec Error W (List (K × V))
  unfolding scan_local_range
  scan_local ge lt fuel s none = do
    base ← base_scan key_eq st c fuel s.snapshot
    overlay s.staged (collect_map base [])
  scan_local ge lt fuel s (some r) = scan_local_range ge lt fuel s r

-- The head that the session's snapshot was taken from is gone.
unfoldable pub is_stale : Option Text → Option (HeadJson × Text) → Bool
is_stale none none = false
is_stale (some t) (some (h, cur)) = ite (Text-discrete t cur) false true
is_stale none (some h) = true
is_stale (some t) none = true

-- What one call of `commit` fixes before its loop.
pub record Plan : Type 0 where
  pub expected_tag : Option Text
  pub next_seq : ℕ
  pub next_txn : ℕ
  pub payload : Text
  pub start_time : ℕ
  pub max_elapsed_ms : ℕ

unfoldable pub next_head : Plan → Option (HeadJson × Text) → HeadJson
next_head p none = record {
  version = 1;
  checkpoint_id = none;
  last_segment_seq = some p.next_seq;
  last_txn_id = p.next_txn;
}
next_head p (some (h, t)) = record {
  version = h.version;
  checkpoint_id = h.checkpoint_id;
  last_segment_seq = some p.next_seq;
  last_txn_id = p.next_txn;
}

unfoldable pub put_condition : Option Text → PutCondition
put_condition none = if_not_exists
put_condition (some t) = if_match t

abbrev pub json_type : Text
json_type = codes "application/json"

module _ {W : Type 0} (st : Stores W) (p : Plan) where
  -- release_lease_silent; return Err(e)
  unfoldable pub give_up : Error → Exec Error (Live W) Unit
  unfolding release_lease_silent
  give_up e = do release_lease_silent st; fail e

  -- The check of the elapsed time, then the next round if a delay is left.
  unfoldable pub retry : Exec Error (Live W) Unit → Error → Exec Error (Live W) Unit
  unfolding give_up
  retry next e s =
      if (if ltb 0 p.max_elapsed_ms
        then leb p.max_elapsed_ms (st.now s.world - p.start_time)
        else false)
      then give_up e s
      else next s

  -- `again written e` is the round after a transient error `e`.
  unfoldable pub publish :
      (Bool → Error → Exec Error (Live W) Unit)
      → Option (HeadJson × Text)
      → Exec Error (Live W) Unit
  unfolding give_up
  publish again loaded =
      on_result (call (st.head_put (next_head p loaded) (put_condition p.expected_tag)))
        (λ _. release_lease_silent st)
        (λ e. by_class (classify_error e) (again true e) (give_up precondition_failed) (give_up e))

  unfoldable pub write_segment :
      (Bool → Error → Exec Error (Live W) Unit)
      → Option (HeadJson × Text)
      → Exec Error (Live W) Unit
  unfolding give_up publish
  write_segment again loaded =
      on_result (call (st.seg_put_next p.next_seq p.next_txn p.payload json_type))
        (λ _. publish again loaded)
        (λ e. by_class (classify_error e) (again false e) (give_up e) (give_up e))

  -- The round behind the load of HEAD; `written` is `seg_written`.
  unfoldable pub after_load :
      (Bool → Error → Exec Error (Live W) Unit)
      → Bool
      → Option (HeadJson × Text)
      → Exec Error (Live W) Unit
  unfolding give_up write_segment publish
  after_load again written loaded =
      if is_stale p.expected_tag loaded
      then give_up precondition_failed
      else if written
      then publish again loaded
      else write_segment again loaded

  -- One round of the loop.
  unfoldable pub commit_round :
      (Bool → Error → Exec Error (Live W) Unit) → Bool → Exec Error (Live W) Unit
  unfolding after_load
  commit_round again written = do loaded ← call st.head_load; after_load again written loaded

  -- The round after a sleep.
  unfoldable pub sleep_then : ℕ → Exec Error (Live W) Unit → Exec Error (Live W) Unit
  sleep_then delay next s = next (record s { world = st.sleep delay s.world })

  -- What follows a transient error when no delay is left, and when one is.
  unfoldable pub last_round : Bool → Error → Exec Error (Live W) Unit
  unfolding retry
  last_round written e = retry (give_up e) e

  unfoldable pub next_round :
      ℕ → (Bool → Exec Error (Live W) Unit) → Bool → Error → Exec Error (Live W) Unit
  unfolding retry sleep_then
  next_round delay loop written e = retry (sleep_then delay (loop written)) e

  unfoldable pub commit_loop : List ℕ → Bool → Exec Error (Live W) Unit
  unfolding commit_round last_round next_round
  commit_loop [] written = commit_round last_round written
  commit_loop (delay ∷ delays) written =
      commit_round (next_round delay (commit_loop delays)) written

-- `unwrap_or(0)`
unfoldable pub or_zero : Option ℕ → ℕ
or_zero none = 0
or_zero (some n) = n

module _ {K V : Type 0} where
  unfoldable pub staged_record : Staged K V → Record K V
  staged_record (k, op, v) = record { key = k; op = op; value = v }

  unfoldable pub plan_of : Limits → Session K V → Text → ℕ → Plan
  unfolding saturating_add or_zero
  plan_of limits s payload start = record {
    expected_tag = s.snapshot.head_tag;
    next_seq = saturating_add (or_zero s.snapshot.last_segment_seq) 1;
    next_txn = saturating_add s.snapshot.txn_id 1;
    payload = payload;
    start_time = start;
    max_elapsed_ms = limits.max_elapsed_ms;
  }

  unfoldable pub staged_segment : Session K V → Segment K V
  unfolding staged_record saturating_add
  staged_segment s = record {
    txn_id = saturating_add s.snapshot.txn_id 1;
    records = map staged_record s.staged;
  }

  -- The commit of what the segment was encoded to; a serde error returns at once.
  unfoldable pub commit_encoded :
      {W : Type 0} → Stores W → Limits → Session K V → Option Text → Exec Error (Live W) Unit
  unfolding plan_of commit_loop
  commit_encoded st limits s none live = (err corrupt, live)
  commit_encoded st limits s (some payload) live =
      commit_loop st (plan_of limits s payload (st.now live.world)) limits.delays false live

  -- WriteSession::commit; the state says which lease is still held when it returns.
  unfoldable pub commit :
      {W : Type 0} → Stores W → Codec K V → Limits → Session K V → Exec Error (Live W) Unit
  unfolding commit_encoded staged_segment
  commit st c limits s = commit_encoded st limits s (c.encode_segment (staged_segment s))
