-- ===== src/Manifest/Session/Agree.antt =====
-- `base_get` against `base_scan` over a store at rest.
use mathlib.Core.List.{reverse-cons}
use fusio.Base.{
  ℕ, suc, ◌≤◌, ◌<◌, ◌≡◌, ◌∙◌, refl, sym, ap, List, [], ◌∷◌, ◌++◌, reverse, Option, none, some, Text,
  ltb, length, All, arith, Bool-cases, false, le→ltb, Option-cases, inl, inr, u64_max,
}
use fusio.Effect.{Result, ok}
use fusio.Manifest.Types.{Error, Segment, Snapshot, CheckpointMeta}
use fusio.Manifest.Table
use fusio.Manifest.Table.{Table}
use fusio.Manifest.Stores.{Stores, Codec}
use fusio.Manifest.Session.Reads.{
  first_seq, insert_entries, fold_checkpoint, fold_into_map, base_scan, base_get, get_upto,
  or_checkpoint, search_segments, search_checkpoint, find_record, find_entry, sort_seqs,
}
use fusio.Manifest.Session.Rest.{Sorted, from, upto, seqs, Fetched, AtRest, Sorted-from, All-from}
use fusio.Manifest.Session.Fold.{replay, IsVisible, fold_segments-eq-replay}
use fusio.Manifest.Session.History.{history, told, value_after, get-told, replay-history}
use fusio.Manifest.Session.Lookup.{decide, unwrap_or, HasValues, get-replay, get-insert_entries_nil}
use fusio.Manifest.Session.Collect.{collect_ids-eq-seqs, sort_seqs-Sorted}

module _ {K V : Type 0} where
  seqs-append : (xs ys : List (ℕ × Segment K V)) → seqs (xs ++ ys) ≡ seqs xs ++ seqs ys
  seqs-append [] ys = refl
  seqs-append ((i, s) ∷ xs) ys = rw (seqs-append xs ys)

  reverse-seqs : (xs : List (ℕ × Segment K V)) → reverse (seqs xs) ≡ seqs (reverse xs)
  reverse-seqs [] = refl
  reverse-seqs ((i, s) ∷ xs) =
      rw (
        reverse-cons i (seqs xs),
        reverse-cons (i, s) xs,
        seqs-append (reverse xs),
        reverse-seqs xs,
      )

  All-append :
      (P : ℕ × Segment K V → Type 0) (xs ys : List (ℕ × Segment K V))
      → All P xs
      → All P ys
      → All P (xs ++ ys)
  All-append P [] ys h k = k
  All-append P (x ∷ xs) ys h k = (h.0, All-append P xs ys h.1 k)

  All-reverse :
      (P : ℕ × Segment K V → Type 0) (xs : List (ℕ × Segment K V)) → All P xs → All P (reverse xs)
  All-reverse P [] h = tt
  All-reverse P (x ∷ xs) h =
      rw (reverse-cons x xs) (All-append P (reverse xs) (x ∷ []) (All-reverse P xs h.1) (h.0, tt))

  All-upto :
      (P : ℕ × Segment K V → Type 0) (last : ℕ) (xs : List (ℕ × Segment K V))
      → All P xs
      → All P (upto last xs)
  unfolding upto
  All-upto P last [] h = tt
  All-upto P last ((i, s) ∷ xs) h = ground (arith, All-upto P last xs h.1)

  All-seen :
      (P : ℕ × Segment K V → Type 0) (last : ℕ) (xs : List (ℕ × Segment K V))
      → All (λ x. ltb last (x.0) ≡ false → P x) xs
      → All P (upto last xs)
  unfolding upto
  All-seen P last [] h = tt
  All-seen P last ((i, s) ∷ xs) h = elim (Bool-cases (ltb last i)) [
    | inl past ↦ rw past tt
    | inr inside ↦ rw inside (h.0 inside, All-seen P last xs h.1)
  ]

  Sorted-weaken : (n : ℕ) (xs : List (ℕ × Segment K V)) → Sorted n xs → Sorted 0 xs
  Sorted-weaken n [] h = tt
  Sorted-weaken n ((i, s) ∷ xs) h = (omega arith, h.1)

  Sorted-upto : (n last : ℕ) (xs : List (ℕ × Segment K V)) → Sorted n xs → Sorted n (upto last xs)
  unfolding upto
  Sorted-upto n last [] h = tt
  Sorted-upto n last ((i, s) ∷ xs) h = ground (arith, Sorted-upto (suc i) last xs h.1)

answer_eq :
    {W A : Type 0} (w : W) {a b : A} → a ≡ b → ◌≡◌ {A = Result Error A × W} (ok a, w) (ok b, w)
answer_eq w e = cc

module _ {W K V : Type 0} (key_eq : Discrete K) (st : Stores W) (c : Codec K V) (w : W)
    (snap : Snapshot) where
  abbrev Seen : ℕ × Segment K V → Type 0
  Seen x = (x.1).txn_id ≤ snap.txn_id

  -- The search over segments that are all of the snapshot.
  search_segments-eq-decide :
      (key : K) (payload : ℕ → Text) (xs : List (ℕ × Segment K V))
      → All (Fetched st c w payload) xs
      → All Seen xs
      → search_segments key_eq st c snap key (seqs xs) w ≡ (ok (decide key_eq key xs), w)
  unfolding search_segments decide
  search_segments-eq-decide key payload [] f v = refl
  search_segments-eq-decide key payload ((i, s) ∷ xs) f v =
      rw (f.0.0, f.0.1, le→ltb snap.txn_id s.txn_id v.0)
        (elim (Option-cases (find_record key_eq key (reverse s.records))) [
          | inl e ↦ rw e (search_segments-eq-decide key payload xs f.1 v.1)
          | inr (found, e) ↦ rw e refl
        ])

module _ {W K V : Type 0} (key_eq : Discrete K) (st : Stores W) (c : Codec K V) (w : W) where
  -- The checkpoint of the snapshot is there and decodes to the entries; none has no entries.
  abbrev pub Checkpointed : Option Text → List (K × V) → Type 0
  Checkpointed none es = es ≡ []
  Checkpointed (some id) es =
      (found : CheckpointMeta × Text) × (st.ckpt_get id w ≡ (ok found, w))
      × (c.decode_entries (found.1) ≡ some es)

  fold_checkpoint-eq :
      (id : Option Text) (es : List (K × V))
      → Checkpointed id es
      → fold_checkpoint key_eq st c id [] w ≡ (ok (insert_entries key_eq es []), w)
  unfolding fold_checkpoint insert_entries
  fold_checkpoint-eq none es h = rw h
  fold_checkpoint-eq (some id) es h = rw (h.1, h.2)

  search_checkpoint-eq :
      (key : K) (id : Option Text) (es : List (K × V))
      → Checkpointed id es
      → search_checkpoint key_eq st c id key w ≡ (ok (find_entry key_eq key (reverse es)), w)
  unfolding search_checkpoint find_entry
  search_checkpoint-eq key none es h = rw h
  search_checkpoint-eq key (some id) es h = rw (h.1, h.2)

module _ {W K V : Type 0} (key_eq : Discrete K) (st : Stores W) (c : Codec K V) (w : W)
    (snap : Snapshot) (last fuel : ℕ) (segs : List (ℕ × Segment K V)) (entries : List (K × V))
    (at_rest : AtRest st c w segs) (in_u64 : last < u64_max)
    (published : snap.last_segment_seq ≡ some last)
    (checkpointed : Checkpointed key_eq st c w snap.checkpoint_id entries)
    (visible : All (IsVisible key_eq st c w snap last in_u64) segs)
    (enough : length (from (first_seq snap) segs) < fuel) where
  -- The snapshot's segments.
  abbrev inside : List (ℕ × Segment K V)
  inside = upto last (from (first_seq snap) segs)

  abbrev folded : Table K V
  folded = replay key_eq inside (insert_entries key_eq entries [])

  scan-folded : base_scan key_eq st c fuel snap w ≡ (ok folded, w)
  unfolding base_scan fold_into_map
  scan-folded = rw (
    fold_checkpoint-eq key_eq st c w snap.checkpoint_id entries checkpointed,
    published,
    fold_segments-eq-replay key_eq st c w snap last in_u64 segs at_rest visible fuel
        (first_seq snap) (insert_entries key_eq entries []) enough,
  )

  -- Over a store at rest, for a snapshot with a last segment, whose number is below u64::MAX, whose
  -- checkpoint decodes to the entries and whose segments up to the last are of its transactions: with
  -- more fuel than segments, the scan ends. Its table is that of the entries and then of the records of
  -- the segments behind the checkpoint up to the last, in order, where a put with a value inserts its
  -- key, a deletion removes it and a put without one does nothing; and of each key it holds what was
  -- said last.
  pub base_scan-eq-told :
      (base_scan key_eq st c fuel snap w
        ≡ (ok (told key_eq (history snap last entries segs) []), w))
      × ((key : K)
          → Table.get key_eq key (told key_eq (history snap last entries segs) [])
            ≡ value_after key_eq key (history snap last entries segs) none)
  base_scan-eq-told = (
    scan-folded ∙ answer_eq w (replay-history key_eq snap last entries segs in_u64 at_rest.sorted),
    λ key.
        get-told key_eq key (history snap last entries segs) []
        ∙ ap (value_after key_eq key (history snap last entries segs)) (get-nil key),
  )
    where
      get-nil : (key : K) → ◌≡◌ {A = Option V} (Table.get key_eq key []) none
      get-nil key = unfold Table.get in refl

  Sorted-inside : Sorted 0 inside
  Sorted-inside = Sorted-upto 0 last (from (first_seq snap) segs) (
      Sorted-weaken (first_seq snap) (from (first_seq snap) segs)
        (Sorted-from 0 (first_seq snap) segs at_rest.sorted))

  All-inside : (P : ℕ × Segment K V → Type 0) → All P segs → All P inside
  All-inside P h = All-upto P last (from (first_seq snap) segs) (All-from P (first_seq snap) segs h)

  Seen-inside : All (Seen key_eq st c w snap) inside
  Seen-inside =
      All-seen (λ x. (x.1).txn_id ≤ snap.txn_id) last (from (first_seq snap) segs)
        (All-from (IsVisible key_eq st c w snap last in_u64) (first_seq snap) segs visible)

  -- The search of the segments, from the newest.
  search-eq-decide :
      (key : K) (all : List ℕ)
      → all ≡ seqs inside
      → search_segments key_eq st c snap key (reverse (sort_seqs all)) w
        ≡ (ok (decide key_eq key (reverse inside)), w)
  search-eq-decide key all e =
      ap (λ (l : List ℕ). search_segments key_eq st c snap key (reverse l) w)
        (ap sort_seqs e ∙ sort_seqs-Sorted 0 inside Sorted-inside)
      ∙ ap (λ (l : List ℕ). search_segments key_eq st c snap key l w) (reverse-seqs inside)
      ∙ search_segments-eq-decide key_eq st c w snap key at_rest.payload (reverse inside)
          (All-reverse (Fetched st c w at_rest.payload) inside
            (All-inside (Fetched st c w at_rest.payload) at_rest.fetched))
          (All-reverse (Seen key_eq st c w snap) inside Seen-inside)

  or_checkpoint-eq :
      (key : K) (hit : Option (Option V))
      → or_checkpoint key_eq st c snap key hit w
        ≡ (ok (unwrap_or hit (find_entry key_eq key (reverse entries))), w)
  unfolding or_checkpoint
  or_checkpoint-eq key none =
      search_checkpoint-eq key_eq st c w key snap.checkpoint_id entries checkpointed
  or_checkpoint-eq key (some found) = refl

  get_upto-eq :
      (key : K)
      → get_upto key_eq st c fuel snap key (some last) w ≡ (
        ok (
            unwrap_or
              (decide key_eq key (reverse inside))
              (find_entry key_eq key (reverse entries))),
        w,
      )
  unfolding get_upto
  get_upto-eq key =
      rw
        (
          collect_ids-eq-seqs st c w (first_seq snap) last segs at_rest fuel enough,
          search-eq-decide key (seqs inside) refl,
        )
        (or_checkpoint-eq key (decide key_eq key (reverse inside)))

  get-folded :
      (key : K)
      → All (HasValues key_eq key) segs
      → base_get key_eq st c fuel snap key w ≡ (ok (Table.get key_eq key folded), w)
  unfolding base_get
  get-folded key valued =
      ap (λ (o : Option ℕ). get_upto key_eq st c fuel snap key o w) published
      ∙ get_upto-eq key
      ∙ answer_eq w (
          sym (
            get-replay key_eq key inside (insert_entries key_eq entries [])
              (All-inside (HasValues key_eq key) valued)
            ∙ ap (unwrap_or (decide key_eq key (reverse inside)))
                (get-insert_entries_nil key_eq key entries)))

  -- Under the conditions of the scan's theorem, a last segment of the snapshot among them, and where
  -- each put record has a value: `base_scan`, oldest first, and `base_get`, which reads segments newest
  -- first and then the checkpoint, both end, and `base_get` answers the key's entry in the table that
  -- `base_scan` answers.
  pub base_get-eq-scan :
      (key : K)
      → All (HasValues key_eq key) segs
      → (table : Table K V) × (base_scan key_eq st c fuel snap w ≡ (ok table, w))
        × (base_get key_eq st c fuel snap key w ≡ (ok (Table.get key_eq key table), w))
  base_get-eq-scan key valued = (folded, scan-folded, get-folded key valued)
