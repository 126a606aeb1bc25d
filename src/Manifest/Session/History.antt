-- ===== src/Manifest/Session/History.antt =====
-- What a snapshot's checkpoint and segments say of the keys, told apart from the code's loops.
use fusio.Base.{
  ℕ, suc, ◌≤◌, ◌<◌, ◌≡◌, ◌∙◌, refl, sym, ap, inl, inr, true, List, [], ◌∷◌, ◌++◌, Option, none,
  some, Bool, ◌&&◌, false, ltb, leb, keep, ite, Bool-cases, u64_max, saturating_add, arith,
}
use fusio.Manifest.Types.{Op, op_put, op_del, Record, Segment, Snapshot}
use fusio.Manifest.Table
use fusio.Manifest.Table.{Table, get-insert, get-remove}
use fusio.Manifest.Session.Reads.{first_seq, insert_entries, put_value, apply_record, apply_records}
use fusio.Manifest.Session.Rest.{Sorted, from, upto}
use fusio.Manifest.Session.Fold.{replay}

-- Behind the last segment of the checkpoint, if there is one.
abbrev pub is_behind : Option ℕ → ℕ → Bool
is_behind none i = true
is_behind (some s) i = ltb s i

le-of : (n i : ℕ) → ltb i n ≡ false → n ≤ i
le-of n i h = ground arith

behind_eq :
    (o : Option ℕ) (snap : Snapshot) (last i : ℕ)
    → last < u64_max
    → snap.checkpoint_seq ≡ o
    → (leb (first_seq snap) i && leb i last) ≡ (is_behind o i && leb i last)
unfolding first_seq saturating_add
behind_eq none snap last i lt e = rw e (ground arith)
behind_eq (some s) snap last i lt e = rw e (ground arith)

module _ {K V : Type 0} where
  -- The segments behind the checkpoint, up to the last of the snapshot.
  abbrev pub covered : Snapshot → ℕ → List (ℕ × Segment K V) → List (ℕ × Segment K V)
  covered snap last segs = keep (λ x. is_behind snap.checkpoint_seq (x.0) && leb (x.0) last) segs

  -- A key and its value from now on, `none` for a key that is gone. A put without a value says nothing.
  abbrev pub said : K → Op → Option V → List (K × Option V)
  said k op_put none = []
  said k op_put (some v) = (k, some v) ∷ []
  said k op_del o = (k, none) ∷ []

  abbrev pub said_by_records : List (Record K V) → List (K × Option V)
  said_by_records [] = []
  said_by_records (r ∷ rs) = said r.key r.op r.value ++ said_by_records rs

  abbrev pub said_by_segments : List (ℕ × Segment K V) → List (K × Option V)
  said_by_segments [] = []
  said_by_segments ((i, s) ∷ xs) = said_by_records s.records ++ said_by_segments xs

  abbrev pub said_by_entries : List (K × V) → List (K × Option V)
  said_by_entries [] = []
  said_by_entries ((k, v) ∷ es) = (k, some v) ∷ said_by_entries es

  -- Of the checkpoint's entries and then of the segments, oldest first.
  abbrev pub history : Snapshot → ℕ → List (K × V) → List (ℕ × Segment K V) → List (K × Option V)
  history snap last entries segs =
      said_by_entries entries ++ said_by_segments (covered snap last segs)

  keep_past :
      (n last k : ℕ) (xs : List (ℕ × Segment K V))
      → last < k
      → Sorted k xs
      → keep (λ x. leb n (x.0) && leb (x.0) last) xs ≡ []
  unfolding keep
  keep_past n last k [] lt o = refl
  keep_past n last k ((i, s) ∷ xs) lt o = ground (arith, keep_past n last (suc i) xs)

  Sorted-lower : (n k : ℕ) (xs : List (ℕ × Segment K V)) → n ≤ k → Sorted k xs → Sorted n xs
  Sorted-lower n k [] le o = tt
  Sorted-lower n k ((i, s) ∷ xs) le o = (omega arith, o.1)

  upto-keep :
      (n last k : ℕ) (xs : List (ℕ × Segment K V))
      → n ≤ k
      → Sorted k xs
      → upto last xs ≡ keep (λ x. leb n (x.0) && leb (x.0) last) xs
  unfolding keep upto
  upto-keep n last k [] le o = refl
  upto-keep n last k ((i, s) ∷ xs) le o =
      ground (arith, upto-keep n last (suc i) xs, keep_past n last (suc i) xs)

  from_below :
      (n i : ℕ) (s : Segment K V) (xs : List (ℕ × Segment K V))
      → ltb i n ≡ true
      → from n ((i, s) ∷ xs) ≡ from n xs
  unfolding from
  from_below n i s xs below = rw below refl

  from_above :
      (n i : ℕ) (s : Segment K V) (xs : List (ℕ × Segment K V))
      → ltb i n ≡ false
      → from n ((i, s) ∷ xs) ≡ (i, s) ∷ xs
  unfolding from
  from_above n i s xs above = rw above refl

  keep_below :
      (n last i : ℕ) (s : Segment K V) (xs : List (ℕ × Segment K V))
      → ltb i n ≡ true
      → keep (λ x. leb n (x.0) && leb (x.0) last) ((i, s) ∷ xs)
        ≡ keep (λ x. leb n (x.0) && leb (x.0) last) xs
  unfolding keep
  keep_below n last i s xs below = ground arith

  keep_nil :
      (n last : ℕ)
      → upto last (from {K = K} {V = V} n []) ≡ keep (λ x. leb n (x.0) && leb (x.0) last) []
  unfolding keep upto from
  keep_nil n last = refl

  upto-from-keep :
      (n last k : ℕ) (xs : List (ℕ × Segment K V))
      → Sorted k xs
      → upto last (from n xs) ≡ keep (λ x. leb n (x.0) && leb (x.0) last) xs
  upto-from-keep n last k [] o = keep_nil n last
  upto-from-keep n last k ((i, s) ∷ xs) o = elim (Bool-cases (ltb i n)) [
    | inl below ↦
        ap (upto last) (from_below n i s xs below)
        ∙ (upto-from-keep n last (suc i) xs o.1 ∙ sym (keep_below n last i s xs below))
    | inr above ↦
        ap (upto last) (from_above n i s xs above)
        ∙ upto-keep n last n ((i, s) ∷ xs) (omega arith) (le-of n i above, o.1)
  ]

  keep_cong :
      (p q : ℕ × Segment K V → Bool) (xs : List (ℕ × Segment K V))
      → ((x : ℕ × Segment K V) → p x ≡ q x)
      → keep p xs ≡ keep q xs
  unfolding keep
  keep_cong p q [] h = refl
  keep_cong p q (x ∷ xs) h = rw (h x, keep_cong p q xs h) refl

  pub covered_eq :
      (snap : Snapshot) (last : ℕ) (segs : List (ℕ × Segment K V))
      → last < u64_max
      → Sorted 0 segs
      → upto last (from (first_seq snap) segs) ≡ covered snap last segs
  covered_eq snap last segs lt o =
      upto-from-keep (first_seq snap) last 0 segs o
      ∙ keep_cong _ _ segs (λ x. behind_eq snap.checkpoint_seq snap last (x.0) lt refl)

module _ {K V : Type 0} (key_eq : Discrete K) where
  -- One thing said, on a table.
  abbrev pub heard : K → Option V → Table K V → Table K V
  heard k none m = Table.remove key_eq k m
  heard k (some v) m = Table.insert key_eq k v m

  -- The table once all has been said, in order.
  abbrev pub told : List (K × Option V) → Table K V → Table K V
  told [] m = m
  told ((k, o) ∷ es) m = told es (heard k o m)

  -- A key's value once all has been said, if this was its value before.
  abbrev pub value_after : K → List (K × Option V) → Option V → Option V
  value_after key [] before = before
  value_after key ((k, o) ∷ es) before = value_after key es (ite (key_eq k key) o before)

  told-append :
      (xs ys : List (K × Option V)) (m : Table K V) → told (xs ++ ys) m ≡ told ys (told xs m)
  told-append [] ys m = refl
  told-append ((k, o) ∷ xs) ys m = told-append xs ys (heard k o m)

  get-heard :
      (key k : K) (o : Option V) (m : Table K V)
      → Table.get key_eq key (heard k o m) ≡ ite (key_eq k key) o (Table.get key_eq key m)
  get-heard key k none m = grind (arith, get-remove key_eq k key m)
  get-heard key k (some v) m = grind (arith, get-insert key_eq k key v m)

  pub get-told :
      (key : K) (es : List (K × Option V)) (m : Table K V)
      → Table.get key_eq key (told es m) ≡ value_after key es (Table.get key_eq key m)
  get-told key [] m = refl
  get-told key ((k, o) ∷ es) m =
      get-told key es (heard k o m) ∙ ap (value_after key es) (get-heard key k o m)

  apply_record-told :
      (k : K) (op : Op) (o : Option V) (m : Table K V)
      → apply_record key_eq (record { key = k; op = op; value = o }) m ≡ told (said k op o) m
  unfolding apply_record put_value
  apply_record-told k op_put none m = refl
  apply_record-told k op_put (some v) m = refl
  apply_record-told k op_del o m = refl

  apply_records-told :
      (rs : List (Record K V)) (m : Table K V)
      → apply_records key_eq rs m ≡ told (said_by_records rs) m
  unfolding apply_records
  apply_records-told [] m = refl
  apply_records-told (r ∷ rs) m =
      apply_records-told rs (apply_record key_eq r m)
      ∙ (ap (told (said_by_records rs)) (apply_record-told r.key r.op r.value m)
          ∙ sym (told-append (said r.key r.op r.value) (said_by_records rs) m))

  replay-told :
      (xs : List (ℕ × Segment K V)) (m : Table K V)
      → replay key_eq xs m ≡ told (said_by_segments xs) m
  unfolding replay
  replay-told [] m = refl
  replay-told ((i, s) ∷ xs) m =
      replay-told xs (apply_records key_eq s.records m)
      ∙ (ap (told (said_by_segments xs)) (apply_records-told s.records m)
          ∙ sym (told-append (said_by_records s.records) (said_by_segments xs) m))

  insert_entries-told :
      (es : List (K × V)) (m : Table K V) → insert_entries key_eq es m ≡ told (said_by_entries es) m
  unfolding insert_entries
  insert_entries-told [] m = refl
  insert_entries-told ((k, v) ∷ es) m = insert_entries-told es (Table.insert key_eq k v m)

  -- The fold of entries and segments is the telling of the history.
  pub replay-history :
      (snap : Snapshot) (last : ℕ) (entries : List (K × V)) (segs : List (ℕ × Segment K V))
      → last < u64_max
      → Sorted 0 segs
      → replay key_eq (upto last (from (first_seq snap) segs)) (insert_entries key_eq entries [])
        ≡ told (history snap last entries segs) []
  replay-history snap last entries segs lt o =
      replay-told (upto last (from (first_seq snap) segs)) (insert_entries key_eq entries [])
      ∙ (ap (λ (m : Table K V). told (said_by_segments (upto last (from (first_seq snap) segs))) m)
            (insert_entries-told entries [])
          ∙ (ap
                (λ (xs : List (ℕ × Segment K V)).
                  told (said_by_segments xs) (told (said_by_entries entries) []))
                (covered_eq snap last segs lt o)
              ∙ sym (
                  told-append (said_by_entries entries) (said_by_segments (covered snap last segs))
                    [])))
