-- ===== src/S3/Writer.antt =====
-- fusio/src/impls/remotes/aws/writer.rs: S3Writer, which gathers bytes into the parts of a multipart
-- upload. The uploads themselves are an interface (MultipartUpload). A part's upload starts when
-- `close` waits for it; there they run in the order of the parts.
pub mod Parts
pub mod Service
pub mod Uploading
pub mod Assembled
use fusio.Base.{
  ℕ, zero, suc, ◌+◌, List, [], ◌∷◌, ◌++◌, length, Option, none, some, Bool, ltb, ◌==◌,
  if◌then◌else◌, Text,
}
use fusio.Effect.{Result, ok, err, spent, Exec, pure, fail, ◌>>=◌, ◌>>◌}
use fusio.Manifest.Types.{FsError, remote}

-- MultipartUpload; `P` is what an uploaded part leaves behind (its number and ETag).
pub record Multipart (W P : Type 0) : Type 0 where
  pub initiate : Exec FsError W Text
  pub upload_part : Text → ℕ → Text → Exec FsError W P
  pub upload_once : Text → Exec FsError W Unit
  pub complete_part : Text → List P → Exec FsError W Unit

-- An error, the failed assertion that every part was uploaded, or the panic of a write behind close.
pub data Fault : Type 0 where
  parts_differ closed : Fault
  fault : FsError → Fault

-- S3_PART_MINIMUM_SIZE
abbrev pub s3_part_minimum_size : ℕ
s3_part_minimum_size = 5242880

-- S3Writer; a handler is the number of a part and its bytes.
pub record S3Writer (W : Type 0) : Type 0 where
  pub world : W
  pub upload_id : Option Text
  pub next_part : ℕ
  pub buf : Text
  pub handlers : List (ℕ × Text)

-- `S3Writer::new`
abbrev pub new_writer : {W : Type 0} → W → S3Writer W
new_writer w = record { world = w; upload_id = none; next_part = 0; buf = []; handlers = [] }

-- `?`, without and with `.map_err(|err| Error::Remote(..))`.
unfoldable pub raise : {A : Type 0} → Result FsError A → Result Fault A
raise (ok a) = ok a
raise (err e) = err (fault e)
raise spent = spent

unfoldable pub raise_remote : {A : Type 0} → Result FsError A → Result Fault A
raise_remote (ok a) = ok a
raise_remote (err e) = err (fault remote)
raise_remote spent = spent

unfoldable pub call :
    {W A : Type 0}
    → (Result FsError A → Result Fault A)
    → Exec FsError W A
    → Exec Fault (S3Writer W) A
call f m s = let (r, w) = m s.world in (f r, record s { world = w })

module _ {W P : Type 0} (up : Multipart W P) where
  unfoldable pub set_id : Text → Exec Fault (S3Writer W) Text
  set_id id s = (ok id, record s { upload_id = some id })

  -- The id of the upload, which the first part initiates.
  unfoldable pub id_or_initiate : Option Text → Exec Fault (S3Writer W) Text
  unfolding call raise_remote set_id
  id_or_initiate none = do id ← call raise_remote up.initiate; set_id id
  id_or_initiate (some id) = pure id

  unfoldable pub push_part : Exec Fault (S3Writer W) Unit
  push_part s = (
    ok tt,
    record s {
      next_part = s.next_part + 1;
      buf = [];
      handlers = s.handlers ++ ((s.next_part, s.buf) ∷ []);
    },
  )

  -- S3Writer::upload_part
  unfoldable pub upload_part : Exec Fault (S3Writer W) Unit
  unfolding id_or_initiate push_part
  upload_part s = (id_or_initiate s.upload_id >>= (λ _. push_part)) s

  unfoldable pub flush : Exec Fault (S3Writer W) Unit
  unfolding upload_part
  flush s = if ltb s3_part_minimum_size (length s.buf) then upload_part s else (ok tt, s)

  unfoldable pub put_bytes : Text → Exec Fault (S3Writer W) Unit
  put_bytes bytes s = (ok tt, record s { buf = s.buf ++ bytes })

  -- S3Writer::write_all, which first does what flush does.
  unfoldable pub write_all : Text → Exec Fault (S3Writer W) Unit
  unfolding flush put_bytes
  write_all bytes = flush >> put_bytes bytes

  unfoldable pub upload_rest : Text → Exec Fault (S3Writer W) Unit
  unfolding upload_part
  upload_rest [] s = (ok tt, s)
  upload_rest (c ∷ b) s = upload_part s

  -- `while let Some(handle) = self.handlers.next().await`
  unfoldable pub upload_handlers : Text → List (ℕ × Text) → Exec Fault (S3Writer W) (List P)
  unfolding call raise_remote
  upload_handlers id [] s = (ok [], record s { handlers = [] })
  upload_handlers id ((number, bytes) ∷ hs) s =
      (call raise_remote (up.upload_part id number bytes)
          >>= (λ part. upload_handlers id hs >>= (λ parts. pure (part ∷ parts))))
        (record s { handlers = hs })

  unfoldable pub drain : Text → Exec Fault (S3Writer W) (List P)
  unfolding upload_handlers
  drain id s = upload_handlers id s.handlers s

  unfoldable pub complete : Text → List P → Exec Fault (S3Writer W) Unit
  unfolding call raise_remote
  complete id parts s =
      if s.next_part == length parts
      then call raise_remote (up.complete_part id parts) s
      else (err parts_differ, s)

  unfoldable pub close_with : Option Text → Exec Fault (S3Writer W) Unit
  unfolding call raise upload_rest drain complete
  close_with none s = call raise (up.upload_once s.buf) (record s { buf = [] })
  close_with (some id) s = (upload_rest s.buf >> drain id >>= (λ parts. complete id parts)) s

  -- S3Writer::close
  unfoldable pub close : Exec Fault (S3Writer W) Unit
  unfolding close_with
  close s = close_with s.upload_id s
