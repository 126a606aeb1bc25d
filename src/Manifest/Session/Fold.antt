-- ===== src/Manifest/Session/Fold.antt =====
-- `fold_into_map` over a store at rest: it ends, and its table is the replay of the segments of
-- the snapshot.
use fusio.Base.{
  ℕ, zero, suc, ◌+◌, ◌≤◌, ◌<◌, ◌≡◌, refl, ◌⊎◌, inl, inr, List, [], ◌∷◌, Text, ltb, take,
  length-drop, ◌∙◌, drop, length, All, arith, u64_max, saturating_add-lt, Bool-cases, le→ltb, false,
}
use native.Mathlib.Numerals.{add-one}
use fusio.Effect.{ok}
use fusio.Manifest.Types.{Segment, Snapshot}
use fusio.Manifest.Table.{Table}
use fusio.Manifest.Stores.{Stores, Codec}
use fusio.Manifest.Session.Reads.{apply_records, finished, going, fold_ids, fold_segments}
use fusio.Manifest.Session.Rest.{
  Sorted, from, upto, seqs, Fetched, AtRest, from_next, Sorted-from, All-from,
}

module _ {K V : Type 0} (key_eq : Discrete K) where
  -- The table after the segments, oldest first.
  unfoldable pub replay : List (ℕ × Segment K V) → Table K V → Table K V
  replay [] m = m
  replay ((i, s) ∷ xs) m = replay xs (apply_records key_eq s.records m)

module _ {W K V : Type 0} (key_eq : Discrete K) (st : Stores W) (c : Codec K V) (w : W)
    (snap : Snapshot) (last : ℕ) (in_u64 : last < u64_max) where
  room : (i : ℕ) → ltb last i ≡ false → i + 1 < 18446744073709551616
  room i h = ground arith

  -- A segment up to the snapshot's last belongs to the snapshot's transactions.
  abbrev pub IsVisible : ℕ × Segment K V → Type 0
  IsVisible x = ltb last (x.0) ≡ false → (x.1).txn_id ≤ snap.txn_id

  -- One round on an object of the snapshot.
  fold_ids_step :
      (payload : ℕ → Text) (i : ℕ) (s : Segment K V) (ids : List ℕ) (cursor : ℕ) (m : Table K V)
      → Fetched st c w payload (i, s)
      → ltb last i ≡ false
      → cursor ≤ i
      → s.txn_id ≤ snap.txn_id
      → fold_ids key_eq st c snap last (i ∷ ids) cursor m w
        ≡ fold_ids key_eq st c snap last ids (suc i) (apply_records key_eq s.records m) w
  unfolding fold_ids
  fold_ids_step payload i s ids cursor m f in_snapshot above seen = rw (
    in_snapshot,
    le→ltb i cursor above,
    f.0,
    f.1,
    le→ltb snap.txn_id s.txn_id seen,
    saturating_add-lt i 1 (room i in_snapshot),
    add-one,
  )

  -- What one window of ids does to the table: all of the snapshot's rest, or the window's part.
  abbrev Windowed : List (ℕ × Segment K V) → ℕ → List (ℕ × Segment K V) → ℕ → Table K V → Type 0
  Windowed segs n xs cursor m =
      (fold_ids key_eq st c snap last (take n (seqs xs)) cursor m w
        ≡ (ok (finished (replay key_eq (upto last xs) m)), w))
      ⊎ ((cursor' : ℕ) × (m' : Table K V) × (fold_ids key_eq st c snap last (take n (seqs xs))
              cursor m w
            ≡ (ok (going cursor' m'), w))
          × (from cursor' segs ≡ drop n xs)
          × (replay key_eq (upto last (drop n xs)) m' ≡ replay key_eq (upto last xs) m))

  fold_ids_lem :
      (payload : ℕ → Text) (segs : List (ℕ × Segment K V)) (n : ℕ) (xs : List (ℕ × Segment K V))
      (cursor : ℕ) (m : Table K V)
      → Sorted 0 segs
      → from cursor segs ≡ xs
      → Sorted cursor xs
      → All (Fetched st c w payload) xs
      → All IsVisible xs
      → Windowed segs n xs cursor m
  unfolding fold_ids upto replay
  fold_ids_lem payload segs zero xs cursor m so fr o f v = inr (cursor, m, refl, fr, refl)
  fold_ids_lem payload segs (suc n) [] cursor m so fr o f v = inr (cursor, m, refl, fr, refl)
  fold_ids_lem payload segs (suc n) ((i, s) ∷ xs) cursor m so fr o f v =
      elim (Bool-cases (ltb last i)) [
        | inl past ↦ inl (rw past)
        | inr within ↦
            let step =
              fold_ids_step payload i s (take n (seqs xs)) cursor m f.0 within o.0 (v.0 within) in
            elim (fold_ids_lem payload segs n xs (suc i) (apply_records key_eq s.records m) so
              (from_next 0 cursor segs i s xs so fr) o.1 f.1 v.1) [
                | inl e ↦ inl (step ∙ rw (within, e))
                | inr (cursor', m', e, next, rest) ↦
                    inr (cursor', m', step ∙ e, next, rw (within, rest))
              ]
      ]

  fold_segments_lem :
      (segs : List (ℕ × Segment K V)) (rest : AtRest st c w segs)
      → All IsVisible segs
      → (fuel cursor : ℕ) (xs : List (ℕ × Segment K V)) (m : Table K V) → from cursor segs ≡ xs
      → length xs < fuel
      → fold_segments key_eq st c fuel snap last cursor m w
        ≡ (ok (replay key_eq (upto last xs) m), w)
  unfolding fold_segments upto replay
  fold_segments_lem segs rest v zero cursor xs m fr enough = elim enough [ ]
  fold_segments_lem segs rest v (suc fuel) cursor [] m fr enough =
      rw (rest.listed cursor 256 (omega arith), fr)
  fold_segments_lem segs rest v (suc fuel) cursor ((i, s) ∷ xs) m fr enough =
      let ys = (i, s) ∷ xs in
      let window =
        fold_ids_lem rest.payload segs 256 ys cursor m rest.sorted fr
          (rw fr at (Sorted-from 0 cursor segs rest.sorted))
          (rw fr at (All-from (Fetched st c w rest.payload) cursor segs rest.fetched))
          (rw fr at (All-from IsVisible cursor segs v)) in
      elim window [
        | inl e ↦ rw (rest.listed cursor 256 (omega arith), fr, e)
        | inr (cursor', m', e, next, same) ↦
            rw (rest.listed cursor 256 (omega arith), fr, e)
              (fold_segments_lem segs rest v fuel cursor' (drop 256 ys) m' next
                  (omega (arith, length-drop {0} 256 ys))
                ∙ rw same)
      ]

  -- The fold of a snapshot ends, with more fuel than segments, and gives the replay of the
  -- snapshot's segments over the checkpoint's table.
  pub fold_segments-eq-replay :
      (segs : List (ℕ × Segment K V))
      → AtRest st c w segs
      → All IsVisible segs
      → (fuel cursor : ℕ) (m : Table K V) → length (from cursor segs) < fuel
      → fold_segments key_eq st c fuel snap last cursor m w
        ≡ (ok (replay key_eq (upto last (from cursor segs)) m), w)
  fold_segments-eq-replay segs rest v fuel cursor m enough =
      fold_segments_lem segs rest v fuel cursor (from cursor segs) m refl enough
