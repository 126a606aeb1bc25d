-- ===== src/Manifest/Leases.antt =====
-- fusio-manifest/src/lease/mod.rs: LeaseStoreImpl over a file system. Times and durations are whole
-- milliseconds; `now` is the clock's time since the epoch (zero before it) and `delays` are the
-- delays that the backoff policy allows.
pub mod Keeper
pub mod Active
pub mod Held
use fusio.Base.{
  ℕ, zero, suc, ◌+◌, min, List, [], ◌∷◌, ◌++◌, reverse, Option, none, some, Bool, ltb, ◌==◌,
  if◌then◌else◌, Text, codes, u64_max, saturating_add,
}
use fusio.Effect.{Result, ok, err, spent, Exec, pure, fail, lift, ◌>>=◌, on_result}
use fusio.Decimal.{to_text}
use fusio.Path.{PathError, parse, from}
use fusio.Memory.{cas_if_not_exists, cas_if_match}
use fusio.Manifest.Types.{Error, FsError, corrupt, io, LeaseHandle, ActiveLease}
use fusio.Manifest.Backoff.{classify_error, by_class}
use fusio.Manifest.HeadStore.{CasStore, mapped, or_other}
use fusio.Manifest.Files.{FileSystem, converted}
use fusio.Manifest.Session.Reads.{or_corrupt}
use fusio.Manifest.Segments.{under, json_type}
use fusio.Manifest.Checkpoints.{default_options}

pub record LeaseDoc : Type 0 where
  pub id : Text
  pub snapshot_txn_id : ℕ
  pub expires_at_ms : ℕ
  pub head_tag : Option Text

-- serde_json on LeaseDoc.
pub record LeaseCodec : Type 0 where
  pub encode_lease : LeaseDoc → Option Text
  pub decode_lease : Text → Option LeaseDoc

-- The clock and the timer.
pub record Clock (W : Type 0) : Type 0 where
  pub now : W → ℕ
  pub sleep : ℕ → W → W

-- `trim_end_matches('/')`, on the reversed text.
unfoldable pub trim_start : Text → Text
trim_start [] = []
trim_start (c ∷ s) = let rest = trim_start s in if c == 47 then rest else c ∷ s

-- LeaseStoreImpl::new: the prefix that is kept.
unfoldable pub new_prefix : Text → Text
unfolding trim_start
new_prefix prefix = reverse (trim_start (reverse prefix))

-- LeaseStoreImpl::key_for
unfoldable pub key_for : (prefix id : Text) → Text
unfolding under
key_for prefix id = under prefix (codes "leases/" ++ (id ++ codes ".json"))

-- The id of an attempt.
unfoldable pub lease_id : (now attempt : ℕ) → Text
unfolding to_text
lease_id now zero = codes "lease-" ++ to_text now
lease_id now (suc attempt) = codes "lease-" ++ (to_text now ++ (45 ∷ to_text (suc attempt)))

-- `let _ = ..`, on the result of a file system.
unfoldable pub dropped : {W : Type 0} → Result FsError Unit × W → Result Error Unit × W
dropped (ok _, w) = (ok tt, w)
dropped (err _, w) = (ok tt, w)
dropped (spent, w) = (spent, w)

unfoldable pub as_active : LeaseDoc → ActiveLease
as_active doc = record {
  id = doc.id;
  snapshot_txn_id = doc.snapshot_txn_id;
  expires_at = doc.expires_at_ms;
}

-- What a lease document adds to the active leases.
unfoldable pub active_of : ℕ → Option LeaseDoc → List ActiveLease
unfolding as_active
active_of now_ms none = []
active_of now_ms (some doc) = if ltb now_ms doc.expires_at_ms then as_active doc ∷ [] else []

module _ {W F : Type 0} (fs : FileSystem W F) (cas : CasStore W) (codec : LeaseCodec)
    (clock : Clock W) (percent_encode : (ℕ → Bool) → Text → Text) (prefix : Text) where
  -- LeaseStoreImpl::wall_clock_now_ms
  unfoldable pub wall_clock_now_ms : W → ℕ
  wall_clock_now_ms w = min (clock.now w) u64_max

  unfoldable pub new_doc : ℕ → ℕ → Option Text → ℕ → W → LeaseDoc
  unfolding lease_id wall_clock_now_ms saturating_add
  new_doc attempt snapshot_txn_id head_tag ttl w = record {
    id = lease_id (wall_clock_now_ms w) attempt;
    snapshot_txn_id = snapshot_txn_id;
    expires_at_ms = saturating_add (wall_clock_now_ms w) (min ttl u64_max);
    head_tag = head_tag;
  }

  unfoldable pub handle_of : LeaseDoc → LeaseHandle
  handle_of doc = record { id = doc.id; snapshot_txn_id = doc.snapshot_txn_id }

  -- One turn of the loop of `create`; `retry` is what follows a transient error.
  unfoldable pub attempt_put :
      LeaseDoc → (Error → Exec Error W LeaseHandle) → Exec Error W LeaseHandle
  unfolding converted or_other key_for handle_of classify_error
  attempt_put doc retry = do
    body ← lift (or_corrupt (codec.encode_lease doc))
    path ← lift (or_other (parse (key_for prefix doc.id)))
    on_result (converted (cas.put_conditional path body (some json_type) none cas_if_not_exists))
        (λ tag. pure (handle_of doc)) (λ e. by_class (classify_error e) (retry e) (fail e) (fail e))

  unfoldable pub create_from :
      List ℕ → (attempt snapshot_txn_id : ℕ) → Option Text → ℕ → Exec Error W LeaseHandle
  unfolding attempt_put new_doc
  create_from [] attempt snapshot_txn_id head_tag ttl w =
      attempt_put (new_doc attempt snapshot_txn_id head_tag ttl w) fail w
  create_from (delay ∷ delays) attempt snapshot_txn_id head_tag ttl w =
      attempt_put (new_doc attempt snapshot_txn_id head_tag ttl w)
        (λ e w'.
          create_from delays (suc attempt) snapshot_txn_id head_tag ttl (clock.sleep delay w'))
        w

  -- LeaseStoreImpl::create
  unfoldable pub create : List ℕ → ℕ → Option Text → ℕ → Exec Error W LeaseHandle
  unfolding create_from
  create delays snapshot_txn_id head_tag ttl = create_from delays 0 snapshot_txn_id head_tag ttl

  unfoldable pub extended : ℕ → LeaseDoc → W → LeaseDoc
  unfolding wall_clock_now_ms saturating_add
  extended ttl doc w = record doc {
    expires_at_ms = saturating_add (wall_clock_now_ms w) (min ttl u64_max);
  }

  unfoldable pub put_extended : Text → ℕ → Text → LeaseDoc → Exec Error W Unit
  unfolding extended mapped
  put_extended path ttl tag doc w =
      (lift (or_corrupt (codec.encode_lease (extended ttl doc w))) >>= (λ body.
          mapped (cas.put_conditional path body (some json_type) none (cas_if_match tag))
          >>= (λ t. pure tt)))
        w

  unfoldable pub renew : Text → ℕ → Option (Text × Text) → Exec Error W Unit
  unfolding put_extended
  renew path ttl none = fail corrupt
  renew path ttl (some (bytes, tag)) = do
    doc ← lift (or_corrupt (codec.decode_lease bytes))
    put_extended path ttl tag doc

  -- LeaseStoreImpl::heartbeat
  unfoldable pub heartbeat : LeaseHandle → ℕ → Exec Error W Unit
  unfolding or_other key_for converted renew
  heartbeat lease ttl = do
    path ← lift (or_other (parse (key_for prefix lease.id)))
    found ← converted (cas.load_with_tag path)
    renew path ttl found

  unfoldable pub remove_parsed : Result PathError Text → Exec Error W Unit
  unfolding dropped
  remove_parsed (ok path) w = dropped (fs.remove path w)
  remove_parsed (err e) w = (ok tt, w)
  remove_parsed spent w = (spent, w)

  -- LeaseStoreImpl::release
  unfoldable pub release : LeaseHandle → Exec Error W Unit
  unfolding remove_parsed key_for
  release lease = remove_parsed (parse (key_for prefix lease.id))

  unfoldable pub read_lease : ℕ → Text → Exec Error W (List ActiveLease)
  unfolding converted active_of
  read_lease now_ms path = do
    file ← converted (fs.open_options path default_options)
    bytes ← converted (fs.read_to_end_at file [] 0)
    pure (active_of now_ms (codec.decode_lease bytes))

  unfoldable pub read_leases :
      ℕ → List ActiveLease → List (Result FsError (Text × ℕ)) → Exec Error W (List ActiveLease)
  unfolding read_lease
  read_leases now_ms out [] w = (ok out, w)
  read_leases now_ms out (err e ∷ items) w = (err (io e), w)
  read_leases now_ms out (spent ∷ items) w = (spent, w)
  read_leases now_ms out (ok (p, n) ∷ items) w =
      (read_lease now_ms p >>= (λ more. read_leases now_ms (out ++ more) items)) w

  -- LeaseStoreImpl::list_active
  unfoldable pub list_active : ℕ → Exec Error W (List ActiveLease)
  unfolding converted read_leases from under
  list_active now_ms = do
    items ← converted (fs.list (from percent_encode (under prefix (codes "leases"))))
    read_leases (min now_ms u64_max) [] items
