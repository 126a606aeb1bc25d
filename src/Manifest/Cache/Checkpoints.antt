-- ===== src/Manifest/Cache/Checkpoints.antt =====
-- fusio-manifest/src/cache.rs: CachedCheckpointStore over a checkpoint store.
use fusio.Base.{List, ◌∷◌, ◌++◌, Option, none, some, Text}
use fusio.Effect.{Result, ok, Exec, pure, ◌>>=◌}
use fusio.Manifest.Types.{Error, CheckpointMeta}
use fusio.Manifest.Cache.{
  checkpoint_kind, CacheKey, CacheValue, segment_value, checkpoint_value, BlobCache, Cached,
  on_inner, known_etag, keep_value, remember, note_etag, forget_key, find_cached,
}

-- CheckpointStore
pub record CheckpointIo (W : Type 0) : Type 0 where
  pub put_checkpoint : CheckpointMeta → Text → Text → Exec Error W Text
  pub get_checkpoint_with_etag : Text → Exec Error W (CheckpointMeta × (Text × Option Text))
  pub get_checkpoint_meta : Text → Exec Error W CheckpointMeta
  pub list : Exec Error W (List (Text × CheckpointMeta))
  pub delete : Text → Exec Error W Unit

-- CachedCheckpointStore::cache_key
unfoldable pub checkpoint_key : Text → Text → Option Text → CacheKey
checkpoint_key namespace id etag = record {
  kind = checkpoint_kind;
  identifier = namespace ++ (58 ∷ id);
  revision = etag;
}

-- A hit under the known tag answers with this tag, one without a tag with the entry's.
unfoldable pub first_hit :
    Option Text → Option CacheValue → Option (CheckpointMeta × (Text × Option Text))
first_hit known none = none
first_hit known (some (segment_value payload etag)) = none
first_hit known (some (checkpoint_value meta payload etag)) = some (meta, (payload, known))

unfoldable pub checkpoint_hit : Option CacheValue → Option (CheckpointMeta × (Text × Option Text))
checkpoint_hit none = none
checkpoint_hit (some (segment_value payload etag)) = none
checkpoint_hit (some (checkpoint_value meta payload etag)) = some (meta, (payload, etag))

unfoldable pub meta_hit : Option CacheValue → Option CheckpointMeta
meta_hit none = none
meta_hit (some (segment_value payload etag)) = none
meta_hit (some (checkpoint_value meta payload etag)) = some meta

module _ {W B : Type 0} (store : CheckpointIo W) (cache : Option (BlobCache B))
    (namespace : Text) where
  -- CachedCheckpointStore::put_checkpoint
  unfoldable pub put_checkpoint : CheckpointMeta → Text → Text → Exec Error (Cached W B) Text
  unfolding on_inner keep_value note_etag checkpoint_key
  put_checkpoint meta payload content_type =
      on_inner (store.put_checkpoint meta payload content_type) >>= (λ id c. (
        ok id,
        note_etag cache id none (
            keep_value cache (checkpoint_key namespace id none) (checkpoint_value meta payload none)
              c),
      ))

  unfoldable pub note_checkpoint :
      Text → CheckpointMeta × (Text × Option Text) → Cached W B → Cached W B
  unfolding remember note_etag checkpoint_key
  note_checkpoint id (meta, (payload, etag)) c =
      note_etag cache id etag
        (remember cache (checkpoint_key namespace id) (checkpoint_value meta payload) etag c)

  unfoldable pub from_store : Text → Exec Error (Cached W B) (CheckpointMeta × (Text × Option Text))
  unfolding on_inner note_checkpoint
  from_store id =
      on_inner (store.get_checkpoint_with_etag id)
      >>= (λ found c. (ok found, note_checkpoint id found c))

  unfoldable pub cached_or_store :
      Text
      → Option (CheckpointMeta × (Text × Option Text)) × Cached W B
      → Result Error (CheckpointMeta × (Text × Option Text)) × Cached W B
  unfolding from_store
  cached_or_store id (some found, c) = (ok found, c)
  cached_or_store id (none, c) = from_store id c

  -- CachedCheckpointStore::get_checkpoint_with_etag and get_checkpoint
  unfoldable pub get_checkpoint_with_etag :
      Text → Exec Error (Cached W B) (CheckpointMeta × (Text × Option Text))
  unfolding cached_or_store find_cached first_hit checkpoint_hit checkpoint_key known_etag
  get_checkpoint_with_etag id c = cached_or_store id (
      find_cached cache (first_hit (known_etag id c)) checkpoint_hit (checkpoint_key namespace id)
        (known_etag id c) c)

  unfoldable pub get_checkpoint : Text → Exec Error (Cached W B) (CheckpointMeta × Text)
  unfolding get_checkpoint_with_etag
  get_checkpoint id = do found ← get_checkpoint_with_etag id; pure (found.0, (found.1).0)

  unfoldable pub meta_or_store :
      Text → Option CheckpointMeta × Cached W B → Result Error CheckpointMeta × Cached W B
  unfolding on_inner
  meta_or_store id (some meta, c) = (ok meta, c)
  meta_or_store id (none, c) = on_inner (store.get_checkpoint_meta id) c

  -- CachedCheckpointStore::get_checkpoint_meta
  unfoldable pub get_checkpoint_meta : Text → Exec Error (Cached W B) CheckpointMeta
  unfolding meta_or_store find_cached meta_hit checkpoint_key known_etag
  get_checkpoint_meta id c =
      meta_or_store id
        (find_cached cache meta_hit meta_hit (checkpoint_key namespace id) (known_etag id c) c)

  unfoldable pub list : Exec Error (Cached W B) (List (Text × CheckpointMeta))
  unfolding on_inner
  list = on_inner store.list

  -- CachedCheckpointStore::delete
  unfoldable pub delete : Text → Exec Error (Cached W B) Unit
  unfolding on_inner forget_key checkpoint_key
  delete id =
      on_inner (store.delete id)
      >>= (λ _ c. (ok tt, forget_key cache id (checkpoint_key namespace id) c))
