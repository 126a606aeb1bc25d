-- ===== src/Manifest/Checkpoints.antt =====
-- fusio-manifest/src/checkpoint.rs: CheckpointId and CheckpointStoreImpl over a file system. An id is
-- its text; `percent_encode` is the one of Path, and the stream of `list` is taken to its end.
pub mod Ids
pub mod Stored
use fusio.Base.{
  ℕ, zero, suc, List, [], ◌∷◌, ◌++◌, reverse, length, Option, none, some, Bool, true, false, Text,
  codes, ite, Text-discrete, strip_prefix,
}
use fusio.Effect.{Result, ok, err, spent, Exec, pure, lift, ◌>>=◌, ◌>>◌}
use fusio.Decimal.{padded20, parse_u64}
use fusio.Path.{filename, from}
use fusio.Memory.{OpenOptions}
use fusio.Manifest.Types.{Error, FsError, io, CheckpointMeta}
use fusio.Manifest.HeadStore.{CasStore}
use fusio.Manifest.Files.{FileSystem, of_io, converted, remove_tolerant, or_else_corrupt}
use fusio.Manifest.Session.Reads.{or_corrupt}
use fusio.Manifest.Segments.{under, json_type, present}

-- CheckpointId::new
unfoldable pub new : ℕ → Text
new lsn = codes "ckpt-" ++ padded20 lsn

unfoldable pub lsn_text : Option Text → Option ℕ
lsn_text none = none
lsn_text (some rest) = parse_u64 rest

-- CheckpointId::lsn
unfoldable pub lsn : Text → Option ℕ
unfolding lsn_text
lsn id = lsn_text (strip_prefix (codes "ckpt-") id)

-- CheckpointStoreImpl::keys_for
unfoldable pub base_key : (prefix id : Text) → Text
unfolding under
base_key prefix id = under prefix (codes "checkpoints/" ++ id)

unfoldable pub meta_key : (prefix id : Text) → Text
unfolding base_key
meta_key prefix id = base_key prefix id ++ codes ".meta.json"

unfoldable pub data_key : (prefix id ext : Text) → Text
unfolding base_key
data_key prefix id ext = base_key prefix id ++ ext

-- CheckpointStoreImpl::payload_ext_for
unfoldable pub payload_ext_for : Text → Text
payload_ext_for format = ite (Text-discrete format json_type) (codes ".json") (codes ".bin")

-- `OpenOptions::default()`, and with create, truncate and write.
abbrev pub default_options : OpenOptions
default_options = record { read = true; write = false; create = false; truncate = false }

abbrev pub write_options : OpenOptions
write_options = record { read = true; write = true; create = true; truncate = true }

-- `ends_with`, and `trim_end_matches`, which takes the suffix away as often as it stands there.
unfoldable pub ends_with : (suffix s : Text) → Bool
ends_with suffix s = elim (strip_prefix (reverse suffix) (reverse s)) [
  | none ↦ false
  | some _ ↦ true
]

unfoldable pub strip_all : ℕ → (p s : Text) → Text
strip_all zero p s = s
strip_all (suc n) p s = elim (strip_prefix p s) [ none ↦ s | some rest ↦ strip_all n p rest ]

unfoldable pub trim_end_matches : (suffix s : Text) → Text
unfolding strip_all
trim_end_matches suffix s = reverse (strip_all (length s) (reverse suffix) (reverse s))

-- The id in the path of a listed metadata object.
unfoldable pub listed_id : Text → Option Text
unfolding ends_with trim_end_matches filename
listed_id p = elim (filename p) [
  | none ↦ none
  | some f ↦ (elim (ends_with (codes ".meta.json") f) [
    | true ↦ some (trim_end_matches (codes ".meta.json") f)
    | false ↦ none
  ])
]

-- serde_json on CheckpointMeta.
pub record MetaCodec : Type 0 where
  pub encode_meta : CheckpointMeta → Option Text
  pub decode_meta : Text → Option CheckpointMeta

module _ {W F : Type 0} (fs : FileSystem W F) (cas : CasStore W) (codec : MetaCodec)
    (percent_encode : (ℕ → Bool) → Text → Text) (prefix : Text) where
  -- open_options, write_all and commit, each with its `?`.
  unfoldable pub write_object : Text → Text → Exec Error W Unit
  unfolding converted
  write_object key bytes = do
    file ← converted (fs.open_options (from percent_encode key) write_options)
    written ← converted (fs.write_all file bytes)
    converted (fs.commit written)

  -- CheckpointStoreImpl::put_checkpoint: an error in encoding shows after the payload is written.
  unfoldable pub put_checkpoint : CheckpointMeta → Text → Text → Exec Error W Text
  unfolding write_object data_key meta_key payload_ext_for new
  put_checkpoint meta payload content_type = do
    written ← write_object (data_key prefix (new meta.lsn) (payload_ext_for content_type)) payload
    bytes ← lift (or_corrupt (codec.encode_meta meta))
    described ← write_object (meta_key prefix (new meta.lsn)) bytes
    pure (new meta.lsn)

  unfoldable pub read_meta : Text → Exec Error W CheckpointMeta
  unfolding converted
  read_meta path = do
    file ← converted (fs.open_options path default_options)
    bytes ← converted (fs.read_to_end_at file [] 0)
    lift (or_corrupt (codec.decode_meta bytes))

  -- CheckpointStoreImpl::load_meta
  unfoldable pub load_meta : Text → Exec Error W CheckpointMeta
  unfolding read_meta from
  load_meta key = read_meta (from percent_encode key)

  unfoldable pub load_payload : Text → Exec Error W (Text × Option Text)
  unfolding converted present
  load_payload key = do
    found ← converted (cas.load_with_tag (from percent_encode key))
    lift (present found)

  -- CheckpointStoreImpl::get_checkpoint_with_etag and get_checkpoint
  unfoldable pub get_checkpoint_with_etag :
      Text → Exec Error W (CheckpointMeta × (Text × Option Text))
  unfolding load_meta load_payload or_else_corrupt data_key meta_key
  get_checkpoint_with_etag id = do
    meta ← load_meta (meta_key prefix id)
    found ←
        or_else_corrupt (load_payload (data_key prefix id (codes ".json")))
          (load_payload (data_key prefix id (codes ".bin")))
    pure (meta, found)

  unfoldable pub get_checkpoint : Text → Exec Error W (CheckpointMeta × Text)
  unfolding get_checkpoint_with_etag
  get_checkpoint id = do found ← get_checkpoint_with_etag id; pure (found.0, (found.1).0)

  -- CheckpointStoreImpl::get_checkpoint_meta
  unfoldable pub get_checkpoint_meta : Text → Exec Error W CheckpointMeta
  unfolding load_meta meta_key
  get_checkpoint_meta id = load_meta (meta_key prefix id)

  unfoldable pub list_item : Text → Option Text → Exec Error W (List (Text × CheckpointMeta))
  unfolding read_meta
  list_item p none = pure []
  list_item p (some id) = do m ← read_meta p; pure ((id, m) ∷ [])

  unfoldable pub list_items :
      List (Result FsError (Text × ℕ)) → Exec Error W (List (Text × CheckpointMeta))
  unfolding list_item listed_id
  list_items [] w = (ok [], w)
  list_items (err e ∷ items) w = (err (io e), w)
  list_items (spent ∷ items) w = (spent, w)
  list_items (ok (p, n) ∷ items) w =
      (list_item p (listed_id p) >>= (λ now. list_items items >>= (λ rest. pure (now ++ rest)))) w

  -- CheckpointStoreImpl::list
  unfoldable pub list : Exec Error W (List (Text × CheckpointMeta))
  unfolding converted list_items from under
  list = do
    items ← converted (fs.list (from percent_encode (under prefix (codes "checkpoints/"))))
    list_items items

  -- CheckpointStoreImpl::delete
  unfoldable pub delete : Text → Exec Error W Unit
  unfolding remove_tolerant from meta_key data_key
  delete id =
      remove_tolerant fs (from percent_encode (meta_key prefix id))
      >> remove_tolerant fs (from percent_encode (data_key prefix id (codes ".json")))
      >> remove_tolerant fs (from percent_encode (data_key prefix id (codes ".bin")))
