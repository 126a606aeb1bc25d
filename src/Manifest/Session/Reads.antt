-- ===== src/Manifest/Session/Reads.antt =====
-- session.rs, SessionInner: fold_into_map, base_scan, base_scan_range and base_get.
use fusio.Base.{
  ℕ, zero, suc, ◌+◌, max, ite, List, [], ◌∷◌, ◌++◌, reverse, Option, none, some, Bool, ◌&&◌, Text,
  ltb, leb, if◌then◌else◌, saturating_add, keep,
}
use fusio.Effect.{Result, ok, err, Exec, pure, exhausted, lift, ◌>>=◌}
use fusio.Manifest.Types.{Error, corrupt, op_put, op_del, Record, Snapshot, ScanRange}
use fusio.Manifest.Table
use fusio.Manifest.Table.{Table}
use fusio.Manifest.Stores.{Stores, Codec}

-- `.map_err(|e| Error::Corrupt(..))?` on a decoded payload.
abbrev pub or_corrupt : {A : Type 0} → Option A → Result Error A
or_corrupt none = err corrupt
or_corrupt (some a) = ok a

-- `checkpoint_seq.map(|s| s.saturating_add(1)).unwrap_or(0)`
unfoldable pub first_seq : Snapshot → ℕ
unfolding saturating_add
first_seq snap = elim snap.checkpoint_seq [ none ↦ 0 | some s ↦ saturating_add s 1 ]

module _ {K V : Type 0} (key_eq : Discrete K) where
  unfoldable pub insert_entries : List (K × V) → Table K V → Table K V
  insert_entries [] m = m
  insert_entries ((k, v) ∷ es) m = insert_entries es (Table.insert key_eq k v m)

  unfoldable pub put_value : K → Option V → Table K V → Table K V
  put_value k none m = m
  put_value k (some v) m = Table.insert key_eq k v m

  unfoldable pub apply_record : Record K V → Table K V → Table K V
  unfolding put_value
  apply_record r m = elim r.op [
    | op_put ↦ put_value r.key r.value m
    | op_del ↦ Table.remove key_eq r.key m
  ]

  unfoldable pub apply_records : List (Record K V) → Table K V → Table K V
  apply_records [] m = m
  apply_records (r ∷ rs) m = apply_records rs (apply_record r m)

-- Where the loop over one window of ids stands: returned, or at a new cursor.
pub data Window (A : Type 0) : Type 0 where
  finished : A → Window A
  going : ℕ → A → Window A

module _ {W K V : Type 0} (key_eq : Discrete K) (st : Stores W) (c : Codec K V) where
  -- for (k, v) in payload.entries { map.insert(k, v); }
  unfoldable pub fold_checkpoint : Option Text → Table K V → Exec Error W (Table K V)
  fold_checkpoint none m = pure m
  fold_checkpoint (some id) m = do
    found ← st.ckpt_get id
    entries ← lift (or_corrupt (c.decode_entries (found.1)))
    pure (insert_entries key_eq entries m)

  -- for id in ids { .. }
  unfoldable pub fold_ids :
      Snapshot → ℕ → List ℕ → ℕ → Table K V → Exec Error W (Window (Table K V))
  fold_ids snap last_seq [] cursor m = pure (going cursor m)
  fold_ids snap last_seq (id ∷ ids) cursor m =
      let skip = fold_ids snap last_seq ids cursor m in
      if ltb last_seq id then pure (finished m) else if ltb id cursor then skip else (do
        bytes ← st.seg_get id
        seg ← lift (or_corrupt (c.decode_segment bytes))
        if ltb snap.txn_id seg.txn_id
            then pure (finished m)
            else fold_ids snap last_seq ids (saturating_add id 1)
                (apply_records key_eq seg.records m))

  -- loop { let ids = list_from(cursor, 256); .. }
  unfoldable pub fold_segments : ℕ → Snapshot → ℕ → ℕ → Table K V → Exec Error W (Table K V)
  fold_segments zero snap last_seq cursor m = exhausted
  fold_segments (suc fuel) snap last_seq cursor m = do
    ids ← st.seg_list_from cursor 256
    elim ids [
      | [] ↦ pure m
      | i ∷ is ↦ (do
        w ← fold_ids snap last_seq (i ∷ is) cursor m
        elim w [
          | finished out ↦ pure out
          | going cursor' m' ↦ fold_segments fuel snap last_seq cursor' m'
        ])
    ]

  unfoldable pub fold_into_map : ℕ → Snapshot → Table K V → Exec Error W (Table K V)
  unfolding first_seq
  fold_into_map fuel snap m = do
    m' ← fold_checkpoint snap.checkpoint_id m
    elim snap.last_segment_seq [
      | none ↦ pure m'
      | some last_seq ↦ fold_segments fuel snap last_seq (first_seq snap) m'
    ]

  unfoldable pub base_scan : ℕ → Snapshot → Exec Error W (List (K × V))
  base_scan fuel snap = fold_into_map fuel snap []

-- `id.seq >= start_seq && id.seq <= last_seq`
unfoldable pub within : ℕ → ℕ → ℕ → Bool
within start_seq last_seq seq = leb start_seq seq && leb seq last_seq

-- The maximum of the ids, `cursor` if there are none.
unfoldable pub max_seq : List ℕ → ℕ → ℕ
max_seq [] cursor = cursor
max_seq (i ∷ []) cursor = i
max_seq (i ∷ j ∷ is) cursor = max i (max_seq (j ∷ is) cursor)

module _ {W : Type 0} (st : Stores W) where
  -- One round of the loop that gathers the ids in `all`, after its filter; `again` goes on.
  unfoldable pub gather :
      (ℕ → List ℕ → Exec Error W (List ℕ)) → ℕ → ℕ → List ℕ → List ℕ → Exec Error W (List ℕ)
  unfolding max_seq
  gather again last_seq cursor all [] = pure all
  gather again last_seq cursor all (i ∷ is) =
      let next = max_seq (i ∷ is) cursor + 1 in
      if ltb last_seq next then pure (all ++ (i ∷ is)) else again next (all ++ (i ∷ is))

  unfoldable pub collect_ids : ℕ → ℕ → ℕ → ℕ → List ℕ → Exec Error W (List ℕ)
  unfolding gather within
  collect_ids zero start_seq last_seq cursor all = exhausted
  collect_ids (suc fuel) start_seq last_seq cursor all = do
    listed ← st.seg_list_from cursor 512
    gather (collect_ids fuel start_seq last_seq) last_seq cursor all
        (keep (within start_seq last_seq) listed)

-- `sort_by_key(|s| s.seq)`: the standard library's stable sort, by insertion.
unfoldable pub insert_seq : ℕ → List ℕ → List ℕ
insert_seq i [] = i ∷ []
insert_seq i (j ∷ js) = if leb i j then i ∷ j ∷ js else j ∷ insert_seq i js

unfoldable pub sort_seqs : List ℕ → List ℕ
unfolding insert_seq
sort_seqs [] = []
sort_seqs (i ∷ is) = insert_seq i (sort_seqs is)

module _ {K V : Type 0} (key_eq : Discrete K) where
  -- `match r.op { Op::Put => r.value, Op::Del => None }`
  unfoldable pub record_value : Record K V → Option V
  record_value r = elim r.op [ op_put ↦ r.value | op_del ↦ none ]

  -- The first of the records with the key: `some` of what it says of the key.
  unfoldable pub find_record : K → List (Record K V) → Option (Option V)
  unfolding record_value
  find_record key [] = none
  find_record key (r ∷ rs) = ite (key_eq r.key key) (some (record_value r)) (find_record key rs)

  unfoldable pub find_entry : K → List (K × V) → Option V
  find_entry key [] = none
  find_entry key ((k, v) ∷ es) = ite (key_eq k key) (some v) (find_entry key es)

module _ {K V : Type 0} where
  -- `ge` and `lt` are the key's `>=` and `<` of PartialOrd.
  unfoldable pub in_range : (ge lt : K → K → Bool) → ScanRange K → List (K × V) → List (K × V)
  in_range ge lt range out =
      let out' : List (K × V) = elim range.start [
        | none ↦ out
        | some start ↦ keep (λ e. ge (e.0) start) out
      ] in
      elim range.end [ none ↦ out' | some end ↦ keep (λ e. lt (e.0) end) out' ]

module _ {W K V : Type 0} (key_eq : Discrete K) (st : Stores W) (c : Codec K V) where
  -- for id in all.into_iter().rev() { .. }; `none` when no segment decides the key
  unfoldable pub search_segments : Snapshot → K → List ℕ → Exec Error W (Option (Option V))
  search_segments snap key [] = pure none
  search_segments snap key (id ∷ ids) =
      let older = search_segments snap key ids in
      do
        bytes ← st.seg_get id
        seg ← lift (or_corrupt (c.decode_segment bytes))
        if ltb snap.txn_id seg.txn_id
            then older
            else elim (find_record key_eq key (reverse seg.records)) [
              | some found ↦ pure (some found)
              | none ↦ older
            ]

  unfoldable pub search_checkpoint : Option Text → K → Exec Error W (Option V)
  search_checkpoint none key = pure none
  search_checkpoint (some id) key = do
    found ← st.ckpt_get id
    entries ← lift (or_corrupt (c.decode_entries (found.1)))
    pure (find_entry key_eq key (reverse entries))

  -- The checkpoint is asked when no segment has decided.
  unfoldable pub or_checkpoint : Snapshot → K → Option (Option V) → Exec Error W (Option V)
  or_checkpoint snap key (some found) = pure found
  or_checkpoint snap key none = search_checkpoint snap.checkpoint_id key

  unfoldable pub get_upto : ℕ → Snapshot → K → Option ℕ → Exec Error W (Option V)
  unfolding first_seq
  get_upto fuel snap key none = pure none
  get_upto fuel snap key (some last_seq) = do
    all ← collect_ids st fuel (first_seq snap) last_seq (first_seq snap) []
    hit ← search_segments snap key (reverse (sort_seqs all))
    or_checkpoint snap key hit

  unfoldable pub base_get : ℕ → Snapshot → K → Exec Error W (Option V)
  unfolding get_upto
  base_get fuel snap key = get_upto fuel snap key snap.last_segment_seq

  unfoldable pub base_scan_range :
      (ge lt : K → K → Bool) → ℕ → Snapshot → ScanRange K → Exec Error W (List (K × V))
  unfolding in_range
  base_scan_range ge lt fuel snap range = do
    out ← fold_into_map key_eq st c fuel snap []
    pure (in_range ge lt range out)
