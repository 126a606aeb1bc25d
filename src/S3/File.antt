-- ===== src/S3/File.antt =====
-- fusio/src/impls/remotes/aws/s3.rs: writing to an S3File, and how AmazonS3 opens one (fs.rs). Reads
-- are HTTP requests and are left out.
use fusio.Base.{◌&&◌, ◌||◌, not, if◌then◌else◌, Text}
use fusio.Effect.{Result, ok, err}
use fusio.Memory.{OpenOptions}
use fusio.Manifest.Types.{FsError, unsupported}
use fusio.S3.Writer
use fusio.S3.Writer.{Multipart, Fault, closed, fault, S3Writer, new_writer}

-- S3File: with a writer, or without one.
pub data S3File (W : Type 0) : Type 0 where
  writing : S3Writer W → S3File W
  idle : W → S3File W

-- AmazonS3::open_options
unfoldable pub s3_open : {W : Type 0} → OpenOptions → W → Result FsError (S3File W)
s3_open o w =
    if o.write && not o.truncate
    then err unsupported
    else ok (if o.create || o.write then writing (new_writer w) else idle w)

module _ {W P : Type 0} (up : Multipart W P) where
  unfoldable pub write_all : Text → S3File W → Result Fault Unit × S3File W
  unfolding Writer.write_all
  write_all b (writing s) = let (r, s') = Writer.write_all up b s in (r, writing s')
  write_all b (idle w) = (err closed, idle w)

  unfoldable pub flush : S3File W → Result Fault Unit × S3File W
  unfolding Writer.flush
  flush (writing s) = let (r, s') = Writer.flush up s in (r, writing s')
  flush (idle w) = (ok tt, idle w)

  -- S3File::close; the writer is taken, also where its close fails.
  unfoldable pub close : S3File W → Result Fault Unit × S3File W
  unfolding Writer.close
  close (writing s) = let (r, s') = Writer.close up s in (r, idle s'.world)
  close (idle w) = (ok tt, idle w)

  -- sync_data, sync_all and sync_range flush; commit closes.
  unfoldable pub sync_all : S3File W → Result Fault Unit × S3File W
  unfolding flush
  sync_all f = flush f

  unfoldable pub commit : S3File W → Result Fault Unit × S3File W
  unfolding close
  commit f = close f
