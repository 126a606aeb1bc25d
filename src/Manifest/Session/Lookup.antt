-- ===== src/Manifest/Session/Lookup.antt =====
-- Searching backward finds what folding forward left in the table.
use mathlib.Core.List.{reverse-cons}
use fusio.Base.{ℕ, ◌≡◌, refl, sym, List, [], ◌∷◌, ◌++◌, reverse, Option, none, some, All, arith}
use fusio.Manifest.Types.{Record, Segment}
use fusio.Manifest.Table
use fusio.Manifest.Table.{Table, get-insert, get-remove}
use fusio.Manifest.Session.Reads.{
  apply_record, apply_records, insert_entries, find_record, find_entry,
}
use fusio.Manifest.Session.Rest.{HasValue}
use fusio.Manifest.Session.Fold.{replay}

module _ {A : Type 0} where
  -- The first decision stands.
  abbrev pub or_else : Option A → Option A → Option A
  or_else none b = b
  or_else (some a) b = some a

  abbrev pub unwrap_or : Option A → A → A
  unwrap_or none d = d
  unwrap_or (some a) d = a

  unwrap_or-or_else :
      (a b : Option A) (d : A) → unwrap_or (or_else a b) d ≡ unwrap_or a (unwrap_or b d)
  unwrap_or-or_else none b d = refl
  unwrap_or-or_else (some a) b d = refl

module _ {K V : Type 0} (key_eq : Discrete K) (key : K) where
  find_record-append :
      (rs qs : List (Record K V))
      → find_record key_eq key (rs ++ qs)
        ≡ or_else (find_record key_eq key rs) (find_record key_eq key qs)
  unfolding find_record
  find_record-append [] qs = refl
  find_record-append (r ∷ rs) qs = ground (arith, find_record-append rs qs)

  find_entry-append :
      (es fs : List (K × V))
      → find_entry key_eq key (es ++ fs)
        ≡ or_else (find_entry key_eq key es) (find_entry key_eq key fs)
  unfolding find_entry
  find_entry-append [] fs = refl
  find_entry-append ((k, v) ∷ es) fs = ground (arith, find_entry-append es fs)

  get-apply_record :
      (r : Record K V) (m : Table K V)
      → HasValue r
      → Table.get key_eq key (apply_record key_eq r m)
        ≡ unwrap_or (find_record key_eq key (r ∷ [])) (Table.get key_eq key m)
  unfolding apply_record find_record
  get-apply_record r m h = grind (arith, get-insert key_eq r.key key, get-remove key_eq r.key key m)

  pub get-apply_records :
      (rs : List (Record K V)) (m : Table K V)
      → All HasValue rs
      → Table.get key_eq key (apply_records key_eq rs m)
        ≡ unwrap_or (find_record key_eq key (reverse rs)) (Table.get key_eq key m)
  unfolding apply_records find_record
  get-apply_records [] m h = refl
  get-apply_records (r ∷ rs) m h =
      rw
        (
          get-apply_records rs (apply_record key_eq r m) h.1,
          get-apply_record r m h.0,
          reverse-cons r rs,
          find_record-append (reverse rs) (r ∷ []),
        )
        (sym (unwrap_or-or_else (find_record key_eq key (reverse rs)) _ _))

  get-insert_entries :
      (es : List (K × V)) (m : Table K V)
      → Table.get key_eq key (insert_entries key_eq es m)
        ≡ or_else (find_entry key_eq key (reverse es)) (Table.get key_eq key m)
  unfolding insert_entries find_entry
  get-insert_entries [] m = refl
  get-insert_entries ((k, v) ∷ es) m =
      rw (reverse-cons (k, v) es, find_entry-append (reverse es) ((k, v) ∷ []))
        (ground
          (arith, get-insert_entries es (Table.insert key_eq k v m), get-insert key_eq k key v m))

  -- Of a table that starts empty.
  pub get-insert_entries_nil :
      (es : List (K × V))
      → Table.get key_eq key (insert_entries key_eq es []) ≡ find_entry key_eq key (reverse es)
  unfolding Table.get
  get-insert_entries_nil es = ground (arith, get-insert_entries es [])

  -- What the segments, in the order of the search, decide about the key.
  unfoldable pub decide : List (ℕ × Segment K V) → Option (Option V)
  decide [] = none
  decide ((i, s) ∷ xs) = or_else (find_record key_eq key (reverse s.records)) (decide xs)

  decide-append :
      (xs ys : List (ℕ × Segment K V)) → decide (xs ++ ys) ≡ or_else (decide xs) (decide ys)
  unfolding decide
  decide-append [] ys = refl
  decide-append ((i, s) ∷ xs) ys = ground (arith, decide-append xs ys)

  -- All puts of the segments have values.
  abbrev pub HasValues : ℕ × Segment K V → Type 0
  HasValues x = All HasValue (x.1).records

  pub get-replay :
      (xs : List (ℕ × Segment K V)) (m : Table K V)
      → All HasValues xs
      → Table.get key_eq key (replay key_eq xs m)
        ≡ unwrap_or (decide (reverse xs)) (Table.get key_eq key m)
  unfolding replay decide
  get-replay [] m h = refl
  get-replay ((i, s) ∷ xs) m h =
      rw
        (
          get-replay xs (apply_records key_eq s.records m) h.1,
          get-apply_records s.records m h.0,
          reverse-cons (i, s) xs,
          decide-append (reverse xs) ((i, s) ∷ []),
        )
        (ground arith)
