-- ===== src/Manifest/Leases/Held.antt =====
-- What create and heartbeat leave in the store, over any compare-and-swap store.
use fusio.Base.{
  ℕ, zero, suc, ◌+◌, ◌≡◌, refl, sym, subst, min, List, [], ◌∷◌, ◌++◌, Option, none, some, Bool,
  Text, codes, u64_max, saturating_add, arith,
}
use fusio.Decimal.{to_text}
use fusio.Effect.{Result, ok, err, spent, lift, bind_cases}
use fusio.Path.{parse}
use fusio.Memory.{cas_if_not_exists, cas_if_match}
use fusio.Manifest.Types.{Error, FsError, LeaseHandle}
use fusio.Manifest.HeadStore.{CasStore, CasLaws, Swapped, Read, mapped, of_fs_ok, or_other}
use fusio.Manifest.Files.{FileSystem, of_io, converted}
use fusio.Manifest.Session.Reads.{or_corrupt}
use fusio.Manifest.Segments.{json_type}
use fusio.Manifest.Leases.{
  LeaseDoc, LeaseCodec, Clock, key_for, extended, put_extended, renew, heartbeat, wall_clock_now_ms,
}

-- What follows the time in the id of an attempt: nothing, or a dash and the number of the attempt.
abbrev pub suffix : ℕ → Text
suffix zero = []
suffix (suc n) = 45 ∷ to_text (suc n)

-- A document for the snapshot, the tag of HEAD and the time to live, made at a time; times are u64.
pub record IsFor (snapshot_txn_id : ℕ) (head_tag : Option Text) (ttl now : ℕ) (doc : LeaseDoc)
    : Type 0 where
  pub attempt : ℕ
  pub named : doc.id ≡ codes "lease-" ++ (to_text (min now u64_max) ++ suffix attempt)
  pub snapshot : doc.snapshot_txn_id ≡ snapshot_txn_id
  pub tag : doc.head_tag ≡ head_tag
  pub expiry : doc.expires_at_ms ≡ min (now + ttl) u64_max

-- The same document with the time to live begun anew.
pub record IsExtended (old : LeaseDoc) (ttl now : ℕ) (doc : LeaseDoc) : Type 0 where
  pub id : doc.id ≡ old.id
  pub snapshot : doc.snapshot_txn_id ≡ old.snapshot_txn_id
  pub tag : doc.head_tag ≡ old.head_tag
  pub expiry : doc.expires_at_ms ≡ min (now + ttl) u64_max

saturating_add-min :
    (a b : ℕ) → saturating_add (min a u64_max) (min b u64_max) ≡ min (a + b) u64_max
unfolding saturating_add
saturating_add-min a b = omega arith

pub or_corrupt_ok : {A : Type 0} (o : Option A) (a : A) → or_corrupt o ≡ ok a → o ≡ some a
or_corrupt_ok none a e = cc
or_corrupt_ok (some b) a e = cc

of_io_ok : {A : Type 0} (r : Result FsError A) (a : A) → of_io r ≡ ok a → r ≡ ok a
unfolding of_io
of_io_ok (ok b) a e = cc
of_io_ok (err x) a e = cc
of_io_ok spent a e = cc

module _ {W F : Type 0} (fs : FileSystem W F) (cas : CasStore W) (codec : LeaseCodec)
    (clock : Clock W) (percent_encode : (ℕ → Bool) → Text → Text) (prefix : Text)
    (object : Text → W → Option (Text × Text)) (Fine : W → Type 0)
    (laws : CasLaws cas object Fine) where
  -- The handle is that of a document of which P is known in the world of the put; its key led nowhere
  -- then, and this put of the encoded document made the world.
  abbrev pub HoldsLease : (LeaseDoc → W → Type 0) → LeaseHandle → W → Type 0
  HoldsLease P h w' =
      (doc : LeaseDoc) × (w : W) × (P doc w)
      × (h.id ≡ doc.id)
      × (h.snapshot_txn_id ≡ doc.snapshot_txn_id)
      × ((path : Text) × (body : Text) × (tag : Text) × (parse (key_for prefix h.id) ≡ ok path)
          × (codec.encode_lease doc ≡ some body)
          × (object path w ≡ none)
          × (w' ≡ (cas.put_conditional path body (some json_type) none cas_if_not_exists w).1)
          × (object path w' ≡ some (body, tag)))

  abbrev pub Created : (LeaseDoc → W → Type 0) → Result Error LeaseHandle × W → Type 0
  Created P (ok h, w) = HoldsLease P h w
  Created P (err e, w) = Unit
  Created P (spent, w) = Unit

  -- The document is made for what was asked, at the time of the world.
  abbrev pub IsAsked : ℕ → Option Text → ℕ → LeaseDoc → W → Type 0
  IsAsked snapshot_txn_id head_tag ttl doc w = IsFor snapshot_txn_id head_tag ttl (clock.now w) doc

  extended-IsExtended :
      (ttl : ℕ) (doc : LeaseDoc) (w : W)
      → IsExtended doc ttl
          (clock.now w)
          (extended fs cas codec clock percent_encode prefix ttl doc w)
  unfolding extended wall_clock_now_ms
  extended-IsExtended ttl doc w = record {
    id = refl;
    snapshot = refl;
    tag = refl;
    expiry = saturating_add-min (clock.now w) ttl;
  }

  -- What a heartbeat that answers Ok has done: the object was the encoding of a document under some
  -- tag, and is now that document with a new time, counted from the load.
  abbrev pub Renewed : (path : Text) → ℕ → W → Result Error Unit × W → Type 0
  Renewed path ttl w (ok _, w') =
      (bytes : Text) × (tag : Text) × (doc : LeaseDoc) × (object path w ≡ some (bytes, tag))
      × (codec.decode_lease bytes ≡ some doc)
      × ((new : LeaseDoc) × (body : Text) × (t : Text) × (IsExtended doc ttl
            (clock.now (cas.load_with_tag path w).1) new)
          × (codec.encode_lease new ≡ some body)
          × (object path w' ≡ some (body, t)))
  Renewed path ttl w (err e, w') = Unit
  Renewed path ttl w (spent, w') = Unit

  module _ (lease : LeaseHandle) (ttl : ℕ) (path : Text)
      (key : parse (key_for prefix lease.id) ≡ ok path) (w : W) (fine : Fine w)
      (after_load : Fine (cas.load_with_tag path w).1) where
    put_extended-Renewed :
        (bytes tag : Text) (doc : LeaseDoc)
        → object path w ≡ some (bytes, tag)
        → codec.decode_lease bytes ≡ some doc
        → Renewed path ttl w (
            put_extended fs cas codec clock percent_encode prefix path ttl tag doc
              (cas.load_with_tag path w).1)
    unfolding put_extended mapped
    put_extended-Renewed bytes tag doc held dec =
        let w1 = (cas.load_with_tag path w).1 in
        let doc' = extended fs cas codec clock percent_encode prefix ttl doc w1 in
        bind_cases (Renewed path ttl w) _ (lift (or_corrupt (codec.encode_lease doc'))) w1
          (λ body e.
            bind_cases (Renewed path ttl w) _
              (mapped (cas.put_conditional path body (some json_type) none (cas_if_match tag))) w1
              (λ t f.
                let done =
                  subst
                    (Swapped body (cas_if_match tag) (object path w1) (
                      object path
                        (cas.put_conditional path body (some json_type) none (cas_if_match tag)
                          w1).1))
                    (of_fs_ok _ t f)
                    (laws.put_lem path body (some json_type) none (cas_if_match tag) w1
                      after_load) in
                (
                  bytes,
                  tag,
                  doc,
                  held,
                  dec,
                  (doc', body, t, extended-IsExtended ttl doc w1, or_corrupt_ok _ body e, done.1),
                ))
              (λ _ _. tt) (λ _. tt))
          (λ _ _. tt) (λ _. tt)

    renew-Renewed :
        (o : Option (Text × Text))
        → object path w ≡ o
        → Renewed path ttl w
            (renew fs cas codec clock percent_encode prefix path ttl o (cas.load_with_tag path w).1)
    unfolding renew
    renew-Renewed none e = tt
    renew-Renewed (some (bytes, tag)) e =
        bind_cases (Renewed path ttl w) _ (lift (or_corrupt (codec.decode_lease bytes))) _
          (λ doc f. put_extended-Renewed bytes tag doc e (or_corrupt_ok _ doc f)) (λ _ _. tt)
          (λ _. tt)

    -- Over a compare-and-swap store whose world is fine before and after the load, for a handle whose
    -- key parses: when heartbeat answers Ok, the lease's document was there, and what is there now is
    -- the encoding of a document with the same id, snapshot and tag of HEAD, that expires at the time
    -- after the load and the time to live, as a u64.
    pub heartbeat-Renewed :
        Renewed path ttl w (heartbeat fs cas codec clock percent_encode prefix lease ttl w)
    unfolding heartbeat or_other converted
    heartbeat-Renewed = rw key (
        bind_cases (Renewed path ttl w) (renew fs cas codec clock percent_encode prefix path ttl)
          (converted (cas.load_with_tag path)) w
          (λ o e.
            renew-Renewed o
              (sym (subst (Read (object path w)) (of_io_ok _ o e) (laws.load_answer path w fine))))
          (λ _ _. tt) (λ _. tt))
