-- ===== src/Memory.antt =====
-- fusio/src/impls/mem/fs.rs: the in-memory file system. Entries stand in a heap, since a file keeps
-- its entry when the path is removed; the paths refer to entries of the heap.
pub mod Hex
pub mod Tags
pub mod Calls
pub mod Fresh
pub mod Written
use fusio.Base.{
  ℕ, zero, suc, ◌+◌, ◌%◌, List, [], ◌∷◌, ◌++◌, length, take, drop, Option, none, some, Bool, true,
  false, not, ◌&&◌, ◌||◌, leb, ltb, if◌then◌else◌, Text, Text-discrete, ite, strip_prefix,
}
use fusio.Effect.{Result, ok, err, Exec, pure, fail, exhausted, ◌>>=◌}
use fusio.Manifest.Types.{
  FsError, fs_io, IoKind, not_found, unexpected_eof, unsupported, fs_precondition_failed,
}
use fusio.Manifest.Table
use fusio.Manifest.Table.{Table}
use fusio.Memory.Hex.{hex16}
use fusio.Path.{from}

pub record EntryState : Type 0 where
  pub content : Text
  pub metadata : Table Text Text
  pub content_type : Option Text
  pub etag : Text

-- `Entry::new`
abbrev pub new_entry : Text → EntryState
new_entry tag = record { content = []; metadata = []; content_type = none; etag = tag }

-- InMemoryFs: the heap of entries, the paths, and the counter of tags.
pub record MemFs : Type 0 where
  pub heap : List EntryState
  pub objects : Table Text ℕ
  pub counter : ℕ

pub record OpenOptions : Type 0 where
  pub read : Bool
  pub write : Bool
  pub create : Bool
  pub truncate : Bool

-- InMemoryFile
pub record File : Type 0 where
  pub entry : ℕ
  pub allow_read : Bool
  pub allow_write : Bool
  pub truncated : Bool

-- CasCondition
pub data CasCondition : Type 0 where
  cas_if_not_exists : CasCondition
  cas_if_match : Text → CasCondition

-- The entry at an address; a fresh one where there is none, which no address in use leads to.
abbrev pub entry_at : ℕ → List EntryState → EntryState
entry_at n [] = new_entry []
entry_at zero (e ∷ es) = e
entry_at (suc n) (e ∷ es) = entry_at n es

abbrev pub store_at : ℕ → EntryState → List EntryState → List EntryState
store_at n e [] = []
store_at zero e (x ∷ xs) = e ∷ xs
store_at (suc n) e (x ∷ xs) = x ∷ store_at n e xs

abbrev pub find : Text → MemFs → Option ℕ
find key fs = Table.get Text-discrete key fs.objects

-- The counter's next value, as a u64.
unfoldable pub next_count : MemFs → ℕ
next_count fs = (fs.counter + 1) % 18446744073709551616

unfoldable pub next_tag : MemFs → Text × MemFs
unfolding next_count
next_tag fs = (hex16 (next_count fs), record fs { counter = next_count fs })

-- A new entry at the end of the heap, under a path.
unfoldable pub insert_entry : Text → EntryState → MemFs → ℕ × MemFs
insert_entry key e fs = (
  length fs.heap,
  record fs {
    heap = fs.heap ++ (e ∷ []);
    objects = Table.insert Text-discrete key (length fs.heap) fs.objects;
  },
)

unfoldable pub create_entry : Text → Bool → Option ℕ → Exec FsError MemFs ℕ
unfolding insert_entry next_tag
create_entry key create (some id) fs = (ok id, fs)
create_entry key false none fs = (err (fs_io not_found), fs)
create_entry key true none fs =
    let (tag, fs') = next_tag fs in
    let (id, fs'') = insert_entry key (new_entry tag) fs' in (ok id, fs'')

unfoldable pub or_create_entry : Text → Bool → Exec FsError MemFs ℕ
unfolding create_entry
or_create_entry key create fs = create_entry key create (find key fs) fs

unfoldable pub update : ℕ → EntryState → MemFs → MemFs
update id e fs = record fs { heap = store_at id e fs.heap }

-- InMemoryFile::new
unfoldable pub open_file : OpenOptions → ℕ → Exec FsError MemFs File
unfolding update
open_file o id fs =
    let file : File = record {
      entry = id;
      allow_read = o.read;
      allow_write = o.write;
      truncated = o.truncate;
    } in
    (
      ok file,
      if o.truncate then update id (record (entry_at id fs.heap) { content = [] }) fs else fs,
    )

-- Read, if neither is set.
unfoldable pub defaulted : OpenOptions → OpenOptions
defaulted o = record o { read = if not o.read && not o.write then true else o.read }

unfoldable pub open_options : Text → OpenOptions → Exec FsError MemFs File
unfolding or_create_entry open_file defaulted
open_options key o = do id ← or_create_entry key o.create; open_file (defaulted o) id

-- Read: `len` is the length of the caller's buffer.
unfoldable pub read_exact_at : File → (len pos : ℕ) → Exec FsError MemFs Text
read_exact_at f len pos fs =
    let bytes = (entry_at f.entry fs.heap).content in
    if not f.allow_read
    then (err unsupported, fs)
    else if ltb (length bytes) (pos + len)
    then (err (fs_io unexpected_eof), fs)
    else (ok (take len (drop pos bytes)), fs)

unfoldable pub read_to_end_at : File → Text → ℕ → Exec FsError MemFs Text
read_to_end_at f buf pos fs =
    let bytes = (entry_at f.entry fs.heap).content in
    if not f.allow_read
    then (err unsupported, fs)
    else if ltb (length bytes) pos
    then (err (fs_io unexpected_eof), fs)
    else (ok (buf ++ drop pos bytes), fs)

unfoldable pub size : File → Exec FsError MemFs ℕ
size f fs = (ok (length (entry_at f.entry fs.heap).content), fs)

-- Write: the file after the call, since the first write clears `truncated`.
unfoldable pub write_all : File → Text → Exec FsError MemFs File
unfolding update
write_all f buf fs =
    let s = entry_at f.entry fs.heap in
    if not f.allow_write then (err unsupported, fs) else (
      ok (record f { truncated = false }),
      update f.entry (record s { content = (if f.truncated then [] else s.content) ++ buf }) fs,
    )

unfoldable pub commit : File → Exec FsError MemFs Unit
unfolding update next_tag
commit f fs =
    let (tag, fs') = next_tag fs in
    (ok tt, update f.entry (record (entry_at f.entry fs'.heap) { etag = tag }) fs')

-- list: the paths with the prefix, and their sizes.
unfoldable pub starts_with : Text → Text → Bool
unfolding strip_prefix
starts_with prefix key = elim (strip_prefix prefix key) [ none ↦ false | some _ ↦ true ]

unfoldable pub keys_with_prefix : Text → Table Text ℕ → List (Text × ℕ)
unfolding starts_with
keys_with_prefix prefix [] = []
keys_with_prefix prefix ((k, id) ∷ m) =
    let rest = keys_with_prefix prefix m in if starts_with prefix k then (k, id) ∷ rest else rest

unfoldable pub sizes : MemFs → List (Text × ℕ) → List (Text × ℕ)
sizes fs [] = []
sizes fs ((k, id) ∷ xs) = (k, length (entry_at id fs.heap).content) ∷ sizes fs xs

-- Each key is made a path again, which encodes its segments a second time.
module _ (percent_encode : (ℕ → Bool) → Text → Text) where
  unfoldable pub items : List (Text × ℕ) → List (Result FsError (Text × ℕ))
  items [] = []
  items ((k, n) ∷ xs) = ok (from percent_encode k, n) ∷ items xs

  unfoldable pub list : Text → Exec FsError MemFs (List (Result FsError (Text × ℕ)))
  unfolding keys_with_prefix sizes items
  list prefix fs = (ok (items (sizes fs (keys_with_prefix prefix fs.objects))), fs)

unfoldable pub remove : Text → Exec FsError MemFs Unit
remove key fs = (ok tt, record fs { objects = Table.remove Text-discrete key fs.objects })

unfoldable pub same_entry : ℕ → ℕ → Bool
same_entry a b = leb a b && leb b a

-- The entry's lock is taken twice where source and target are one entry: such a call never returns.
unfoldable pub copy_state : ℕ → ℕ → Exec FsError MemFs Unit
unfolding update next_tag same_entry
copy_state source target fs =
    let s = entry_at source fs.heap in
    let (tag, fs') = next_tag fs in
    if same_entry source target then exhausted fs else (
      ok tt,
      update target
          (record {
            content = s.content;
            metadata = s.metadata;
            content_type = s.content_type;
            etag = tag;
          })
          fs',
    )

unfoldable pub copy_from : Option ℕ → Text → Exec FsError MemFs Unit
unfolding or_create_entry copy_state
copy_from none to = fail (fs_io not_found)
copy_from (some source) to = do target ← or_create_entry to true; copy_state source target

unfoldable pub copy : Text → Text → Exec FsError MemFs Unit
unfolding copy_from
copy source to fs = copy_from (find source fs) to fs

-- FsCas
unfoldable pub loaded : Option ℕ → MemFs → Option (Text × Text)
loaded none fs = none
loaded (some id) fs = some ((entry_at id fs.heap).content, (entry_at id fs.heap).etag)

-- What load_with_tag answers.
unfoldable pub object : Text → MemFs → Option (Text × Text)
unfolding loaded
object key fs = loaded (find key fs) fs

unfoldable pub load_with_tag : Text → Exec FsError MemFs (Option (Text × Text))
unfolding object
load_with_tag key fs = (ok (object key fs), fs)

-- HeadObject
pub record HeadObject : Type 0 where
  pub size : ℕ
  pub etag : Option Text
  pub metadata : Table Text Text

unfoldable pub head_object_of : Option ℕ → MemFs → Option HeadObject
head_object_of none fs = none
head_object_of (some id) fs =
    let s = entry_at id fs.heap in
    some (record { size = length s.content; etag = some s.etag; metadata = s.metadata })

unfoldable pub head_object : Text → Exec FsError MemFs (Option HeadObject)
unfolding head_object_of
head_object key fs = (ok (head_object_of (find key fs) fs), fs)

unfoldable pub insert_all : List (Text × Text) → Table Text Text → Table Text Text
insert_all [] m = m
insert_all ((k, v) ∷ kvs) m = insert_all kvs (Table.insert Text-discrete k v m)

-- `if let Some(meta) = metadata { .. }`
unfoldable pub new_metadata : Option (List (Text × Text)) → Table Text Text → Table Text Text
unfolding insert_all
new_metadata none old = old
new_metadata (some kvs) old = insert_all kvs []

unfoldable pub put_new :
    Text → Text → Option Text → Option (List (Text × Text)) → Option ℕ → Exec FsError MemFs Text
unfolding next_tag insert_entry new_metadata
put_new key payload content_type metadata (some _) fs = (err fs_precondition_failed, fs)
put_new key payload content_type metadata none fs =
    let (_, fs1) = next_tag fs in
    let (tag, fs2) = next_tag fs1 in
    let e : EntryState = record {
      content = payload;
      metadata = new_metadata metadata [];
      content_type = content_type;
      etag = tag;
    } in
    let (_, fs3) = insert_entry key e fs2 in (ok tag, fs3)

unfoldable pub put_matching :
    Text → Text → Option Text → Option (List (Text × Text)) → Option ℕ → Exec FsError MemFs Text
unfolding next_tag update new_metadata
put_matching expected payload content_type metadata none fs = (err fs_precondition_failed, fs)
put_matching expected payload content_type metadata (some id) fs =
    let s = entry_at id fs.heap in
    let (tag, fs') = next_tag fs in
    let e : EntryState = record {
      content = payload;
      metadata = new_metadata metadata s.metadata;
      content_type = content_type;
      etag = tag;
    } in
    ite (Text-discrete s.etag expected) (ok tag, update id e fs') (err fs_precondition_failed, fs)

unfoldable pub put_conditional :
    Text → Text → Option Text → Option (List (Text × Text)) → CasCondition → Exec FsError MemFs Text
unfolding put_new put_matching
put_conditional key payload content_type metadata cas_if_not_exists fs =
    put_new key payload content_type metadata (find key fs) fs
put_conditional key payload content_type metadata (cas_if_match expected) fs =
    put_matching expected payload content_type metadata (find key fs) fs
