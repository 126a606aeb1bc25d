-- ===== src/Manifest/Files.antt =====
-- What the stores of fusio-manifest ask of a file system: the traits Fs, Read, Write, FileCommit and
-- ObjectHead (fusio/src/fs/mod.rs, segment.rs), with the stream of a listing as the list of its
-- items, and the conversion of their errors. FsCas is in HeadStore.
use fusio.Base.{ℕ, Option, none, some, List, Text, Bool}
use fusio.Effect.{Result, ok, err, spent, Exec}
use fusio.Memory
use fusio.Memory.{OpenOptions, MemFs, File, HeadObject}
use fusio.Manifest.Types.{
  Error, FsError, fs_io, not_found, io, corrupt, unimplemented, precondition_failed, other,
}
use fusio.Manifest.Table.{Table}
use fusio.Manifest.Backoff.{map_fs_error}

pub record FileSystem (W F : Type 0) : Type 0 where
  pub list : Text → Exec FsError W (List (Result FsError (Text × ℕ)))
  pub remove : Text → Exec FsError W Unit
  pub open_options : Text → OpenOptions → Exec FsError W F
  pub read_to_end_at : F → Text → ℕ → Exec FsError W Text
  pub write_all : F → Text → Exec FsError W F
  pub commit : F → Exec FsError W Unit
  pub head_metadata : Text → Exec FsError W (Option (Table Text Text))

-- `Error::from`, as `?` applies it to the error of a file system.
unfoldable pub of_io : {A : Type 0} → Result FsError A → Result Error A
of_io (ok a) = ok a
of_io (err e) = err (io e)
of_io spent = spent

unfoldable pub converted : {W A : Type 0} → Exec FsError W A → Exec Error W A
unfolding of_io
converted m w = let (r, w') = m w in (of_io r, w')

-- `match r { Ok(()) => {}, Err(Io(NotFound)) => {}, Err(e) => return Err(map_fs_error(e)) }`
unfoldable pub tolerated : Result FsError Unit → Result Error Unit
unfolding map_fs_error
tolerated (ok _) = ok tt
tolerated (err (fs_io not_found)) = ok tt
tolerated (err e) = err (map_fs_error e)
tolerated spent = spent

unfoldable pub remove_tolerant : {W F : Type 0} → FileSystem W F → Text → Exec Error W Unit
unfolding tolerated
remove_tolerant fs p w = let (r, w') = fs.remove p w in (tolerated r, w')

-- The corrupt result of a first call gives way to a second call.
unfoldable pub or_if_corrupt : {W A : Type 0} → Result Error A → Exec Error W A → Exec Error W A
or_if_corrupt (ok a) m w = (ok a, w)
or_if_corrupt (err corrupt) m w = m w
or_if_corrupt (err unimplemented) m w = (err unimplemented, w)
or_if_corrupt (err precondition_failed) m w = (err precondition_failed, w)
or_if_corrupt (err other) m w = (err other, w)
or_if_corrupt (err (io e)) m w = (err (io e), w)
or_if_corrupt spent m w = (spent, w)

unfoldable pub or_else_corrupt : {W A : Type 0} → Exec Error W A → Exec Error W A → Exec Error W A
unfolding or_if_corrupt
or_else_corrupt m n w = let (r, w') = m w in or_if_corrupt r n w'

unfoldable pub metadata_of : Option HeadObject → Option (Table Text Text)
metadata_of none = none
metadata_of (some h) = some h.metadata

-- `impl ObjectHead for InMemoryFs`
unfoldable pub mem_head_metadata : Text → Exec FsError MemFs (Option (Table Text Text))
unfolding Memory.head_object metadata_of
mem_head_metadata key fs = (ok (metadata_of (Memory.head_object_of (Memory.find key fs) fs)), fs)

abbrev pub mem_files : ((ℕ → Bool) → Text → Text) → FileSystem MemFs File
mem_files percent_encode = record {
  list = Memory.list percent_encode;
  remove = Memory.remove;
  open_options = Memory.open_options;
  read_to_end_at = Memory.read_to_end_at;
  write_all = Memory.write_all;
  commit = Memory.commit;
  head_metadata = mem_head_metadata;
}
