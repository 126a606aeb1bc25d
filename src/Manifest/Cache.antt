-- ===== src/Manifest/Cache.antt =====
-- fusio-manifest/src/cache.rs: keys and values of a blob cache, and CachedSegmentStore over a segment
-- store. The cache (moka, or one of the caller's) is a parameter with a state of its own; a poisoned
-- lock, which the code passes over, does not occur.
pub mod Keys
pub mod Coherent
pub mod Reading
pub mod Deletion
pub mod Checkpoints
use fusio.Base.{ℕ, zero, suc, List, [], ◌∷◌, ◌++◌, Option, none, some, Text, Text-discrete, codes}
use fusio.Effect.{Result, ok, Exec, pure, ◌>>=◌}
use fusio.Decimal.{padded20}
use fusio.Manifest.Types.{Error, CheckpointMeta}
use fusio.Manifest.Table
use fusio.Manifest.Table.{Table}

pub data CacheKind : Type 0 where
  checkpoint_kind segment_kind : CacheKind

pub record CacheKey : Type 0 where
  pub kind : CacheKind
  pub identifier : Text
  pub revision : Option Text

-- CacheValue, with the fields of SegmentCacheEntry and CheckpointCacheEntry.
pub data CacheValue : Type 0 where
  segment_value : Text → Option Text → CacheValue
  checkpoint_value : CheckpointMeta → Text → Option Text → CacheValue

-- BlobCache
pub record BlobCache (B : Type 0) : Type 0 where
  pub lookup : CacheKey → B → Option CacheValue × B
  pub insert : CacheKey → CacheValue → B → B
  pub invalidate : CacheKey → B → B

-- The state of a cached store: the store below, the cache, and the known tags.
pub record Cached (W B : Type 0) : Type 0 where
  pub inner : W
  pub blobs : B
  pub etags : Table Text (Option Text)

-- A call of the store below, with its `?`.
unfoldable pub on_inner : {W B A : Type 0} → Exec Error W A → Exec Error (Cached W B) A
on_inner m c = let (r, w) = m c.inner in (r, record c { inner = w })

unfoldable pub flattened : Option (Option Text) → Option Text
flattened none = none
flattened (some o) = o

-- `map.get(&identifier).cloned().flatten()`
unfoldable pub known_etag : {W B : Type 0} → Text → Cached W B → Option Text
unfolding flattened Table.get
known_etag identifier c = flattened (Table.get Text-discrete identifier c.etags)

-- The calls of a cache that may be absent.
module _ {W B : Type 0} (cache : Option (BlobCache B)) where
  unfoldable pub look : CacheKey → Cached W B → Option CacheValue × Cached W B
  look key c = elim cache [
    | none ↦ (none, c)
    | some k ↦ (let (v, b) = k.lookup key c.blobs in (v, record c { blobs = b }))
  ]

  unfoldable pub keep_value : CacheKey → CacheValue → Cached W B → Cached W B
  keep_value key v c = elim cache [
    | none ↦ c
    | some k ↦ record c { blobs = k.insert key v c.blobs }
  ]

  unfoldable pub drop_key : CacheKey → Cached W B → Cached W B
  drop_key key c = elim cache [ none ↦ c | some k ↦ record c { blobs = k.invalidate key c.blobs } ]

  -- Under the key with the tag; a key without a tag is given up for it.
  unfoldable pub remember :
      (Option Text → CacheKey) → (Option Text → CacheValue) → Option Text → Cached W B → Cached W B
  unfolding keep_value drop_key
  remember key value none c = keep_value (key none) (value none) c
  remember key value (some tag) c =
      keep_value (key (some tag)) (value (some tag)) (drop_key (key none) c)

  unfoldable pub note_etag : Text → Option Text → Cached W B → Cached W B
  unfolding Table.insert
  note_etag identifier etag c = record c {
    etags = Table.insert Text-discrete identifier etag c.etags;
  }

  -- What delete forgets: the key without a tag, the known tag, and the key with that tag.
  unfoldable pub drop_tagged : (Option Text → CacheKey) → Option Text → Cached W B → Cached W B
  unfolding drop_key
  drop_tagged key none c = c
  drop_tagged key (some tag) c = drop_key (key (some tag)) c

  unfoldable pub forget_key : Text → (Option Text → CacheKey) → Cached W B → Cached W B
  unfolding drop_key drop_tagged known_etag Table.remove
  forget_key identifier key c =
      drop_tagged key (known_etag identifier c)
        (record (drop_key (key none) c) { etags = Table.remove Text-discrete identifier c.etags })

  -- The lookup under the known tag, and where there is one, also without a tag.
  unfoldable pub fall_back :
      {A : Type 0}
      → (Option CacheValue → Option A)
      → (Option Text → CacheKey)
      → Option Text
      → Option A × Cached W B
      → Option A × Cached W B
  unfolding look
  fall_back hit key known (some a, c) = (some a, c)
  fall_back hit key none (none, c) = (none, c)
  fall_back hit key (some tag) (none, c) = let (v, c') = look (key none) c in (hit v, c')

  unfoldable pub find_cached :
      {A : Type 0}
      → (first hit : Option CacheValue → Option A) → (Option Text → CacheKey)
      → Option Text
      → Cached W B
      → Option A × Cached W B
  unfolding look fall_back
  find_cached first hit key known c =
      let (v, c') = look (key known) c in fall_back hit key known (first v, c')

-- SegmentIo
pub record SegmentIo (W : Type 0) : Type 0 where
  pub put_next : ℕ → ℕ → Text → Text → Exec Error W ℕ
  pub get_with_etag : ℕ → Exec Error W (Text × Option Text)
  pub load_meta : ℕ → Exec Error W ℕ
  pub list_from : ℕ → ℕ → Exec Error W (List ℕ)
  pub delete_upto : ℕ → Exec Error W Unit

unfoldable pub segment_hit : Option CacheValue → Option (Text × Option Text)
segment_hit none = none
segment_hit (some (segment_value payload etag)) = some (payload, etag)
segment_hit (some (checkpoint_value meta payload etag)) = none

-- CachedSegmentStore::identifier
unfoldable pub segment_identifier : ℕ → Text
unfolding padded20
segment_identifier seq = codes "seg-" ++ padded20 seq

-- CachedSegmentStore::cache_key
unfoldable pub segment_key : Text → ℕ → Option Text → CacheKey
unfolding segment_identifier
segment_key namespace seq etag = record {
  kind = segment_kind;
  identifier = namespace ++ (58 ∷ segment_identifier seq);
  revision = etag;
}

module _ {W B : Type 0} (store : SegmentIo W) (cache : Option (BlobCache B))
    (namespace : Text) where
  unfoldable pub put_next : ℕ → ℕ → Text → Text → Exec Error (Cached W B) ℕ
  unfolding on_inner
  put_next seq txn_id payload content_type =
      on_inner (store.put_next seq txn_id payload content_type)

  unfoldable pub note_segment : ℕ → Text × Option Text → Cached W B → Cached W B
  unfolding remember note_etag segment_key segment_identifier
  note_segment seq (bytes, etag) c =
      note_etag cache (segment_identifier seq) etag
        (remember cache (segment_key namespace seq) (segment_value bytes) etag c)

  unfoldable pub from_store : ℕ → Exec Error (Cached W B) (Text × Option Text)
  unfolding on_inner note_segment
  from_store seq =
      on_inner (store.get_with_etag seq) >>= (λ found c. (ok found, note_segment seq found c))

  unfoldable pub cached_or_store :
      ℕ → Option (Text × Option Text) × Cached W B → Result Error (Text × Option Text) × Cached W B
  unfolding from_store
  cached_or_store seq (some found, c) = (ok found, c)
  cached_or_store seq (none, c) = from_store seq c

  -- CachedSegmentStore::get_with_etag and get
  unfoldable pub get_with_etag : ℕ → Exec Error (Cached W B) (Text × Option Text)
  unfolding cached_or_store find_cached segment_hit segment_key known_etag segment_identifier
  get_with_etag seq c = cached_or_store seq (
      find_cached cache segment_hit segment_hit (segment_key namespace seq)
        (known_etag (segment_identifier seq) c) c)

  unfoldable pub get : ℕ → Exec Error (Cached W B) Text
  unfolding get_with_etag
  get seq = do found ← get_with_etag seq; pure (found.0)

  unfoldable pub load_meta : ℕ → Exec Error (Cached W B) ℕ
  unfolding on_inner
  load_meta seq = on_inner (store.load_meta seq)

  unfoldable pub list_from : ℕ → ℕ → Exec Error (Cached W B) (List ℕ)
  unfolding on_inner
  list_from from_seq limit = on_inner (store.list_from from_seq limit)

  -- `for seq in 0..=upto_seq`
  unfoldable pub forget_upto : ℕ → Cached W B → Cached W B
  unfolding forget_key segment_identifier segment_key
  forget_upto zero c = forget_key cache (segment_identifier zero) (segment_key namespace zero) c
  forget_upto (suc n) c =
      forget_key cache (segment_identifier (suc n)) (segment_key namespace (suc n))
        (forget_upto n c)

  -- CachedSegmentStore::delete_upto
  unfoldable pub delete_upto : ℕ → Exec Error (Cached W B) Unit
  unfolding on_inner forget_upto
  delete_upto upto = on_inner (store.delete_upto upto) >>= (λ _ c. (ok tt, forget_upto upto c))
