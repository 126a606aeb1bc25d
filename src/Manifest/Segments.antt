-- ===== src/Manifest/Segments.antt =====
-- fusio-manifest/src/segment.rs: SegmentStoreImpl over a file system. `percent_encode` is the one of
-- Path. A segment id is its sequence number.
pub mod Keys
pub mod Listing
pub mod Stored
pub mod Absent
pub mod Deletion
use fusio.Base.{
  ℕ, List, [], ◌∷◌, ◌++◌, Option, none, some, Bool, leb, ◌==◌, if◌then◌else◌, length, Text, codes,
  ite, Text-discrete, strip_prefix,
}
use fusio.Effect.{Result, ok, err, spent, Exec, pure, lift, ◌>>=◌}
use fusio.Decimal.{padded20, to_text, parse_u64}
use fusio.Path.{parse, filename, from}
use fusio.Memory.{CasCondition, cas_if_not_exists}
use fusio.Manifest.Types.{Error, FsError, corrupt, io}
use fusio.Manifest.Table
use fusio.Manifest.Table.{Table}
use fusio.Manifest.HeadStore.{CasStore, mapped, or_other}
use fusio.Manifest.Files.{FileSystem, converted, remove_tolerant, or_else_corrupt}
use fusio.Manifest.Session.Reads.{or_corrupt, sort_seqs}

-- TXN_ID_HEADER
abbrev pub txn_id_header : Text
txn_id_header = codes "x-amz-meta-fusio-txn-id"

abbrev pub json_type : Text
json_type = codes "application/json"

-- `format!("{}/{}", prefix, name)`, or the name alone where the prefix is empty.
unfoldable pub under : (prefix name : Text) → Text
under [] name = name
under (c ∷ p) name = (c ∷ p) ++ (47 ∷ name)

unfoldable pub file_name : ℕ → Text → Text
file_name seq ext = codes "seg-" ++ (padded20 seq ++ ext)

-- SegmentStoreImpl::key_for
unfoldable pub key_for : Text → ℕ → Text → Text
unfolding under file_name
key_for prefix seq ext = under prefix (file_name seq ext)

-- `split_once('.').unwrap_or((rest, "")).0`
unfoldable pub before_dot : Text → Text
before_dot [] = []
before_dot (c ∷ s) = let rest = before_dot s in if c == 46 then [] else c ∷ rest

unfoldable pub number_of : Option Text → Option ℕ
unfolding before_dot
number_of none = none
number_of (some s) = parse_u64 (before_dot s)

-- SegmentStoreImpl::parse_seq
unfoldable pub parse_seq : Text → Option ℕ
unfolding number_of
parse_seq name = number_of (strip_prefix (codes "seg-") name)

-- The number of a listed path.
unfoldable pub seq_of : Text → Option ℕ
unfolding parse_seq
seq_of p = elim (filename p) [ none ↦ none | some f ↦ parse_seq f ]

unfoldable pub ext_for : Text → Text
ext_for content_type = ite (Text-discrete content_type json_type) (codes ".json") (codes ".bin")

unfoldable pub type_of : Text → Option Text
type_of [] = none
type_of (c ∷ s) = some (c ∷ s)

-- The loop of list_from, which ends once `limit` numbers are there.
unfoldable pub pushed : ℕ → List ℕ → Option ℕ → List ℕ
pushed from_seq out none = out
pushed from_seq out (some seq) = if leb from_seq seq then out ++ (seq ∷ []) else out

unfoldable pub gathered : ℕ → ℕ → List ℕ → List (Result FsError (Text × ℕ)) → Result Error (List ℕ)
unfolding pushed seq_of
gathered from_seq limit out [] = ok out
gathered from_seq limit out (err e ∷ items) = err (io e)
gathered from_seq limit out (spent ∷ items) = spent
gathered from_seq limit out (ok (p, n) ∷ items) =
    let next = pushed from_seq out (seq_of p) in
    let rest = gathered from_seq limit next items in
    if leb limit (length next) then ok next else rest

-- What an object is to get and to load_meta.
unfoldable pub present : Option (Text × Text) → Result Error (Text × Option Text)
present none = err corrupt
present (some (bytes, etag)) = ok (bytes, some etag)

unfoldable pub txn_of : Option (Table Text Text) → Result Error ℕ
unfolding Table.get parse_u64
txn_of none = err corrupt
txn_of (some metadata) = elim (Table.get Text-discrete txn_id_header metadata) [
  | none ↦ err corrupt
  | some txn ↦ or_corrupt (parse_u64 txn)
]

module _ {W F : Type 0} (fs : FileSystem W F) (cas : CasStore W)
    (percent_encode : (ℕ → Bool) → Text → Text) (prefix : Text) where
  -- SegmentStoreImpl::put_next
  unfoldable pub put_next : ℕ → ℕ → Text → Text → Exec Error W ℕ
  unfolding key_for ext_for type_of or_other mapped to_text
  put_next seq txn_id payload content_type = do
    path ← lift (or_other (parse (key_for prefix seq (ext_for content_type))))
    tag ← mapped (
        cas.put_conditional path payload (type_of content_type)
          (some ((txn_id_header, to_text txn_id) ∷ [])) cas_if_not_exists)
    pure seq

  unfoldable pub load_key : Text → Exec Error W (Text × Option Text)
  unfolding or_other converted present
  load_key key = do
    path ← lift (or_other (parse key))
    found ← converted (cas.load_with_tag path)
    lift (present found)

  -- SegmentStoreImpl::get_with_etag and get
  unfoldable pub get_with_etag : ℕ → Exec Error W (Text × Option Text)
  unfolding load_key or_else_corrupt key_for
  get_with_etag seq =
      or_else_corrupt (load_key (key_for prefix seq (codes ".json")))
        (load_key (key_for prefix seq (codes ".bin")))

  unfoldable pub get : ℕ → Exec Error W Text
  unfolding get_with_etag
  get seq = do found ← get_with_etag seq; pure (found.0)

  unfoldable pub meta_key : Text → Exec Error W ℕ
  unfolding or_other converted txn_of
  meta_key key = do
    path ← lift (or_other (parse key))
    found ← converted (fs.head_metadata path)
    lift (txn_of found)

  -- SegmentStoreImpl::load_meta
  unfoldable pub load_meta : ℕ → Exec Error W ℕ
  unfolding meta_key or_else_corrupt key_for
  load_meta seq =
      or_else_corrupt (meta_key (key_for prefix seq (codes ".json")))
        (meta_key (key_for prefix seq (codes ".bin")))

  -- SegmentStoreImpl::list_from
  unfoldable pub list_from : ℕ → ℕ → Exec Error W (List ℕ)
  unfolding converted gathered sort_seqs from
  list_from from_seq limit = do
    items ← converted (fs.list (from percent_encode prefix))
    out ← lift (gathered from_seq limit [] items)
    pure (sort_seqs out)

  unfoldable pub remove_old : ℕ → Text → Option ℕ → Exec Error W Unit
  unfolding remove_tolerant
  remove_old upto p none = pure tt
  remove_old upto p (some seq) = if leb seq upto then remove_tolerant fs p else pure tt

  unfoldable pub remove_upto : ℕ → List (Result FsError (Text × ℕ)) → Exec Error W Unit
  unfolding remove_old seq_of
  remove_upto upto [] w = (ok tt, w)
  remove_upto upto (err e ∷ items) w = (err (io e), w)
  remove_upto upto (spent ∷ items) w = (spent, w)
  remove_upto upto (ok (p, n) ∷ items) w =
      (remove_old upto p (seq_of p) >>= (λ _. remove_upto upto items)) w

  -- SegmentStoreImpl::delete_upto
  unfoldable pub delete_upto : ℕ → Exec Error W Unit
  unfolding converted remove_upto from
  delete_upto upto = do
    items ← converted (fs.list (from percent_encode prefix))
    remove_upto upto items
