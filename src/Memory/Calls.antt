-- ===== src/Memory/Calls.antt =====
-- Every call of the in-memory file system that changes it keeps it well formed.
use fusio.Base.{
  ℕ, zero, suc, ◌+◌, ◌%◌, ◌≤◌, ◌<◌, ◌≡◌, refl, sym, subst, List, [], ◌∷◌, length, length-append,
  Option, none, some, Bool, true, false, Bool-cases, inl, inr, Text, Text-discrete, All, arith, not,
}
use fusio.Effect.{Result, ok, err, spent, bind_cases}
use fusio.Manifest.Types.{FsError}
use fusio.Manifest.Table
use fusio.Manifest.Table.{Table}
use fusio.Memory.{
  EntryState, new_entry, MemFs, OpenOptions, File, CasCondition, entry_at, find, next_count,
  next_tag, insert_entry, update, create_entry, or_create_entry, open_file, defaulted, open_options,
  write_all, commit, remove, same_entry, copy_state, copy_from, copy, put_conditional,
}
use fusio.Memory.Tags.{
  Issued, IsWellFormed, Cas, All-last, All-imp, All-store_at, length-store_at, All-insert, later,
  get-All, put_conditional-Cas,
}

ok_eq : {A : Type 0} {a b : A} → ◌≡◌ {A = Result FsError A} (ok a) (ok b) → a ≡ b
ok_eq e = cc

All-remove :
    (n : ℕ) (key : Text) (m : Table Text ℕ)
    → All (λ (p : Text × ℕ). p.1 < n) m
    → All (λ (p : Text × ℕ). p.1 < n) (Table.remove Text-discrete key m)
unfolding Table.remove
All-remove n key [] h = tt
All-remove n key ((k, i) ∷ m) h = ground (arith, All-remove n key m h.1)

-- The tag that next_tag gives is issued in the file system behind it.
next_tag-Issued :
    (fs : MemFs) (b : Text) (m : Table Text Text) (c : Option Text)
    → Issued
        (next_tag fs).1.counter
        (record { content = b; metadata = m; content_type = c; etag = (next_tag fs).0 })
unfolding next_tag
next_tag-Issued fs b m c = (next_count fs, omega arith, refl)

module _ (fs : MemFs) (formed : IsWellFormed fs) where
  entry_at-Issued : (id : ℕ) → id < length fs.heap → Issued fs.counter (entry_at id fs.heap)
  entry_at-Issued id h = at-All id fs.heap formed.issued h
    where
      at-All :
          (id : ℕ) (xs : List EntryState)
          → All (Issued fs.counter) xs
          → id < length xs
          → Issued fs.counter (entry_at id xs)
      at-All id [] a h = absurd (omega arith)
      at-All zero (x ∷ xs) a h = a.0
      at-All (suc id) (x ∷ xs) a h = at-All id xs a.1 (omega arith)

  update-IsWellFormed :
      (id : ℕ) (e : EntryState) → Issued fs.counter e → IsWellFormed (update id e fs)
  unfolding update
  update-IsWellFormed id e h = record {
    addressed = rw (length-store_at id e fs.heap) formed.addressed;
    issued = All-store_at (Issued fs.counter) id e fs.heap formed.issued h;
  }

  insert_entry-IsWellFormed :
      (key : Text) (e : EntryState) → Issued fs.counter e → IsWellFormed (insert_entry key e fs).1
  unfolding insert_entry
  insert_entry-IsWellFormed key e h = record {
    addressed = rw (length-append fs.heap (e ∷ [])) (
        All-insert (length fs.heap + 1) key (length fs.heap) fs.objects
          (All-imp _ _ fs.objects (λ p l. omega arith) formed.addressed) (omega arith));
    issued = All-last (Issued fs.counter) fs.heap e formed.issued h;
  }

  next_tag-IsWellFormed : fs.counter + 1 < 18446744073709551616 → IsWellFormed (next_tag fs).1
  unfolding next_tag next_count
  next_tag-IsWellFormed room =
      let c : (fs.counter + 1) % 18446744073709551616 ≡ fs.counter + 1 = omega arith in
      record {
        addressed = formed.addressed;
        issued = rw c (later fs.counter (fs.counter + 1) fs.heap (omega arith) formed.issued);
      }

  remove-IsWellFormed : (key : Text) → IsWellFormed (remove key fs).1
  unfolding remove
  remove-IsWellFormed key = record {
    addressed = All-remove (length fs.heap) key fs.objects formed.addressed;
    issued = formed.issued;
  }

  write_all-IsWellFormed :
      (f : File) (b : Text) → f.entry < length fs.heap → IsWellFormed (write_all f b fs).1
  unfolding write_all
  write_all-IsWellFormed f b inside = elim (Bool-cases (not f.allow_write)) [
    | inl q ↦ rw q formed
    | inr q ↦ rw q (update-IsWellFormed f.entry _ (entry_at-Issued f.entry inside))
  ]

module _ (fs : MemFs) (formed : IsWellFormed fs)
    (room : fs.counter + 2 < 18446744073709551616) where
  tagged : IsWellFormed (next_tag fs).1
  tagged = next_tag-IsWellFormed fs formed (omega arith)

  same_heap : (next_tag fs).1.heap ≡ fs.heap
  unfolding next_tag
  same_heap = refl

  one_tag : (next_tag fs).1.counter ≤ fs.counter + 1
  unfolding next_tag next_count
  one_tag = omega arith

  commit-IsWellFormed : (f : File) → IsWellFormed (commit f fs).1
  unfolding commit
  commit-IsWellFormed f =
      let s = entry_at f.entry (next_tag fs).1.heap in
      update-IsWellFormed (next_tag fs).1 tagged f.entry (record s { etag = (next_tag fs).0 })
        (next_tag-Issued fs s.content s.metadata s.content_type)

  -- The entry that a path has or gets stands in the heap.
  abbrev Opened : Result FsError ℕ × MemFs → Type 0
  Opened (ok id, fs') = IsWellFormed fs' × (id < length fs'.heap) × (fs'.counter ≤ fs.counter + 1)
  Opened (_, fs') = IsWellFormed fs'

  create_entry-Opened :
      (key : Text) (create : Bool) (o : Option ℕ)
      → find key fs ≡ o
      → Opened (create_entry key create o fs)
  unfolding create_entry insert_entry
  create_entry-Opened key create (some id) e =
      (formed, get-All (length fs.heap) key id fs.objects formed.addressed e, omega arith)
  create_entry-Opened key false none e = formed
  create_entry-Opened key true none e =
      let fs1 = (next_tag fs).1 in
      let new = new_entry (next_tag fs).0 in
      (
        insert_entry-IsWellFormed fs1 tagged key new (next_tag-Issued fs [] [] none),
        rw (length-append fs1.heap (new ∷ [])) (omega arith),
        one_tag,
      )

open_file-IsWellFormed :
    (o : OpenOptions) (id : ℕ) (fs : MemFs)
    → IsWellFormed fs
    → id < length fs.heap
    → IsWellFormed (open_file o id fs).1
unfolding open_file
open_file-IsWellFormed o id fs formed inside = elim (Bool-cases o.truncate) [
  | inl q ↦ rw q (update-IsWellFormed fs formed id _ (entry_at-Issued fs formed id inside))
  | inr q ↦ rw q formed
]

copy_state-IsWellFormed :
    (source target : ℕ) (fs : MemFs)
    → IsWellFormed fs
    → fs.counter + 1 < 18446744073709551616
    → IsWellFormed (copy_state source target fs).1
unfolding copy_state
copy_state-IsWellFormed source target fs formed room =
    elim (Bool-cases (same_entry source target)) [
      | inl q ↦ rw q formed
      | inr q ↦ rw q (
          let s = entry_at source fs.heap in
          update-IsWellFormed (next_tag fs).1 (next_tag-IsWellFormed fs formed room) target
            (record {
              content = s.content;
              metadata = s.metadata;
              content_type = s.content_type;
              etag = (next_tag fs).0;
            })
            (next_tag-Issued fs s.content s.metadata s.content_type))
    ]

-- The calls that change the file system.
pub data Call : Type 0 where
  open_call : Text → OpenOptions → Call
  write_call : File → Text → Call
  commit_call : File → Call
  remove_call : Text → Call
  copy_call : Text → Text → Call
  put_call : Text → Text → Option Text → Option (List (Text × Text)) → CasCondition → Call

-- The file system behind the call, whatever its answer.
unfoldable pub after : Call → MemFs → MemFs
unfolding open_options write_all commit remove copy put_conditional
after (open_call key o) fs = (open_options key o fs).1
after (write_call f b) fs = (write_all f b fs).1
after (commit_call f) fs = (commit f fs).1
after (remove_call key) fs = (remove key fs).1
after (copy_call a b) fs = (copy a b fs).1
after (put_call key payload ct m c) fs = (put_conditional key payload ct m c fs).1

-- The file of the call was opened on this file system.
abbrev pub IsCall : MemFs → Call → Type 0
IsCall fs (write_call f b) = f.entry < length fs.heap
IsCall fs _ = Unit

module _ (fs : MemFs) (formed : IsWellFormed fs)
    (room : fs.counter + 2 < 18446744073709551616) where
  Opened-of : (key : Text) (create : Bool) → Opened fs formed room (or_create_entry key create fs)
  unfolding or_create_entry
  Opened-of key create = create_entry-Opened fs formed room key create (find key fs) refl

  entry-of :
      (o : Result FsError ℕ × MemFs) (id : ℕ)
      → Opened fs formed room o
      → o.0 ≡ ok id
      → IsWellFormed (o.1) × (id < length (o.1).heap) × ((o.1).counter ≤ fs.counter + 1)
  entry-of (ok i, fs') id h e = (h.0, subst (λ j. j < length fs'.heap) (ok_eq e) h.1, h.2)
  entry-of (err x, fs') id h e = cc
  entry-of (spent, fs') id h e = cc

  formed-of : (o : Result FsError ℕ × MemFs) → Opened fs formed room o → IsWellFormed (o.1)
  formed-of (ok i, fs') h = h.0
  formed-of (err x, fs') h = h
  formed-of (spent, fs') h = h

  formed_put :
      (key payload : Text) (c : CasCondition) (o : Result FsError Text × MemFs)
      → Cas key payload c fs o
      → IsWellFormed (o.1)
  formed_put key payload c (ok t, fs') h = h.3
  formed_put key payload c (err x, fs') h = subst IsWellFormed (sym h.0) formed
  formed_put key payload c (spent, fs') h = absurd h

  copy_from-IsWellFormed : (o : Option ℕ) (to : Text) → IsWellFormed (copy_from o to fs).1
  unfolding copy_from
  copy_from-IsWellFormed none to = formed
  copy_from-IsWellFormed (some source) to =
      let m = or_create_entry to true fs in
      bind_cases (λ x. IsWellFormed (x.1)) (copy_state source) (or_create_entry to true) fs
        (λ id e.
          let (f, _, c) = entry-of m id (Opened-of to true) e in
          copy_state-IsWellFormed source id (m.1) f (omega (arith, c)))
        (λ _ _. formed-of m (Opened-of to true)) (λ _. formed-of m (Opened-of to true))

  open_options-IsWellFormed :
      (key : Text) (o : OpenOptions) → IsWellFormed (open_options key o fs).1
  unfolding open_options
  open_options-IsWellFormed key o =
      let m = or_create_entry key o.create fs in
      bind_cases (λ x. IsWellFormed (x.1)) (open_file (defaulted o)) (or_create_entry key o.create)
        fs
        (λ id e.
          let (f, inside, _) = entry-of m id (Opened-of key o.create) e in
          open_file-IsWellFormed (defaulted o) id (m.1) f inside)
        (λ _ _. formed-of m (Opened-of key o.create)) (λ _. formed-of m (Opened-of key o.create))

  -- From a well-formed file system with room for two more tags, each call that changes it, a write to a
  -- file of it included, leaves it well formed, whatever the call answers.
  pub after-IsWellFormed : (c : Call) → IsCall fs c → IsWellFormed (after c fs)
  unfolding after copy
  after-IsWellFormed (open_call key o) h = open_options-IsWellFormed key o
  after-IsWellFormed (write_call f b) h = write_all-IsWellFormed fs formed f b h
  after-IsWellFormed (commit_call f) h = commit-IsWellFormed fs formed room f
  after-IsWellFormed (remove_call key) h = remove-IsWellFormed fs formed key
  after-IsWellFormed (copy_call a b) h = copy_from-IsWellFormed (find a fs) b
  after-IsWellFormed (put_call key payload ct m c) h =
      formed_put key payload c (put_conditional key payload ct m c fs)
        (put_conditional-Cas key payload ct m fs formed room c)
