-- ===== src/Buffered.antt =====
-- fusio/src/impls/buffered.rs: BufWriter over any writer.
pub mod Total
pub mod Reader
use fusio.Base.{
  ℕ, ◌+◌, List, [], ◌∷◌, ◌++◌, length, Option, none, some, Bool, ltb, if◌then◌else◌, Text,
}
use fusio.Effect.{Result, ok, err, spent, Exec, pure, fail, ◌>>=◌, ◌>>◌}
use fusio.Manifest.Types.{FsError}

-- The trait Write, and FileSync and FileCommit.
pub record Writer (W : Type 0) : Type 0 where
  pub inner_write_all : Text → Exec FsError W Unit
  pub inner_flush : Exec FsError W Unit
  pub inner_close : Exec FsError W Unit
  pub inner_sync_data : Exec FsError W Unit
  pub inner_sync_all : Exec FsError W Unit
  pub inner_sync_range : (offset len : ℕ) → Exec FsError W Unit
  pub inner_commit : Exec FsError W Unit

-- An error of the writer, or the panic of `expect("no buffer available")`.
pub data Fault : Type 0 where
  no_buffer : Fault
  fault : FsError → Fault

-- The inner writer's world, and the buffer: there is none behind a flush that has failed.
pub record Buffered (W : Type 0) : Type 0 where
  pub world : W
  pub buf : Option Text

-- `?` on a result of the writer.
unfoldable pub raised : Result FsError Unit → Result Fault Unit
raised (ok u) = ok u
raised (err e) = err (fault e)
raised spent = spent

module _ {W : Type 0} where
  -- `BufWriter::new`; the capacity is an argument of the operations.
  abbrev pub new : W → Buffered W
  new w = record { world = w; buf = some [] }

  unfoldable pub inner : Exec FsError W Unit → Exec Fault (Buffered W) Unit
  unfolding raised
  inner m s = let (r, w) = m s.world in (raised r, record s { world = w })

  unfoldable pub set_buf : Option Text → Exec Fault (Buffered W) Unit
  set_buf b s = (ok tt, record s { buf = b })

module _ {W : Type 0} (f : Writer W) where
  -- The buffer is taken, and comes back empty once it is written.
  unfoldable pub flush_taken : Option Text → Exec Fault (Buffered W) Unit
  unfolding inner set_buf
  flush_taken none = fail no_buffer
  flush_taken (some bytes) = do
    set_buf none
    inner (f.inner_write_all bytes)
    set_buf (some [])
    inner f.inner_flush

  unfoldable pub flush : Exec Fault (Buffered W) Unit
  unfolding flush_taken
  flush s = flush_taken s.buf s

  -- `owned_buf.extend_from_slice(buf)`
  unfoldable pub extend : Text → Option Text → Exec Fault (Buffered W) Unit
  unfolding set_buf
  extend bytes none = fail no_buffer
  extend bytes (some held) = set_buf (some (held ++ bytes))

  unfoldable pub write_with : (capacity : ℕ) → Text → Option Text → Exec Fault (Buffered W) Unit
  unfolding flush inner extend
  write_with capacity bytes none = fail no_buffer
  write_with capacity bytes (some held) =
      if ltb capacity (length held + length bytes)
      then (flush >> inner (f.inner_write_all bytes))
      else extend bytes (some held)

  unfoldable pub write_all : (capacity : ℕ) → Text → Exec Fault (Buffered W) Unit
  unfolding write_with
  write_all capacity bytes s = write_with capacity bytes s.buf s

  unfoldable pub close : Exec Fault (Buffered W) Unit
  unfolding flush inner
  close = flush >> inner f.inner_close

  unfoldable pub sync_data : Exec Fault (Buffered W) Unit
  unfolding flush inner
  sync_data = flush >> inner f.inner_sync_data

  unfoldable pub sync_all : Exec Fault (Buffered W) Unit
  unfolding flush inner
  sync_all = flush >> inner f.inner_sync_all

  unfoldable pub sync_range : (offset len : ℕ) → Exec Fault (Buffered W) Unit
  unfolding flush inner
  sync_range offset len = flush >> inner (f.inner_sync_range offset len)

  unfoldable pub commit : Exec Fault (Buffered W) Unit
  unfolding flush inner
  commit = flush >> inner f.inner_commit

  -- One write after another.
  unfoldable pub write_each : (capacity : ℕ) → List Text → Exec Fault (Buffered W) Unit
  unfolding write_all
  write_each capacity [] = pure tt
  write_each capacity (b ∷ bs) = write_all capacity b >> write_each capacity bs
