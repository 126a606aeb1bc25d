-- ===== src/Manifest/Cache/Coherent.antt =====
-- A cache of segments that one store writes agrees with the store below it.
use fusio.Base.{
  ℕ, ◌≡◌, ◌≢◌, ◌≤◌, ◌⊎◌, ◌∙◌, refl, sym, ap, Option, none, some, Text, Text-discrete, u64_max,
}
use fusio.Manifest.Table
use fusio.Manifest.Table.{Table, get-insert}
use fusio.Manifest.Cache.{
  CacheKey, CacheValue, segment_value, checkpoint_value, BlobCache, Cached, look, fall_back,
  find_cached, segment_hit, segment_identifier, segment_key,
}

-- What a cache keeps at most: `held` are its entries. It may lose any entry at any time.
pub record CacheLaws {B : Type 0} (k : BlobCache B) (held : B → CacheKey → Option CacheValue)
    : Type 0 where
  pub hit :
      (key : CacheKey) (b : B) (v : CacheValue) → (k.lookup key b).0 ≡ some v → held b key ≡ some v
  pub lookup_keeps :
      (key j : CacheKey) (b : B) (v : CacheValue)
      → held (k.lookup key b).1 j ≡ some v
      → held b j ≡ some v
  pub insert_keeps :
      (key j : CacheKey) (x v : CacheValue) (b : B)
      → held (k.insert key x b) j ≡ some v
      → ((j ≡ key) × (v ≡ x)) ⊎ (held b j ≡ some v)
  pub invalidate_keeps :
      (key j : CacheKey) (b : B) (v : CacheValue)
      → held (k.invalidate key b) j ≡ some v
      → (j ≢ key) × (held b j ≡ some v)

-- The known tag is the one of a key that has one.
abbrev pub Tagged : Option Text → Option (Option Text) → Type 0
Tagged none m = Unit
Tagged (some tag) m = m ≡ some (some tag)

-- A value under the key of a number and a tag: the segment of this number, with this tag.
abbrev pub IsRight :
    Option (Text × Option Text) → Option Text → CacheValue → Option (Option Text) → Type 0
IsRight stored e (segment_value payload etag) m =
    (stored ≡ some (payload, e)) × (etag ≡ e) × Tagged e m
IsRight stored e (checkpoint_value meta payload etag) m = ⊥

pub etag_eq :
    {p q : Text} {e f : Option Text}
    → ◌≡◌ {A = Option (Text × Option Text)} (some (p, e)) (some (q, f))
    → e ≡ f
etag_eq h = cc

pub none_ne_some : {A : Type 0} {a : A} → ◌≡◌ {A = Option A} none (some a) → ⊥
none_ne_some e = cc

-- A value that is right stays right under tags in which its own is noted.
pub Tagged-noted : (e f : Option Text) → e ≡ f → Tagged f (some e)
Tagged-noted e none h = tt
Tagged-noted e (some tag) h = ap some h

pub IsRight-tags :
    (stored : Option (Text × Option Text)) (e : Option Text) (v : CacheValue)
    (m m' : Option (Option Text))
    → (Tagged e m → Tagged e m')
    → IsRight stored e v m
    → IsRight stored e v m'
IsRight-tags stored e (segment_value payload etag) m m' f (s, t, g) = (s, t, f g)
IsRight-tags stored e (checkpoint_value meta payload etag) m m' f h = h

pub IsRight-etag :
    (stored : Option (Text × Option Text)) (e : Option Text) (v : CacheValue)
    (m : Option (Option Text)) (payload : Text) (f : Option Text)
    → IsRight stored e v m
    → stored ≡ some (payload, f)
    → f ≡ e
IsRight-etag stored e (segment_value p etag) m payload f (s, t, g) h = etag_eq (sym h ∙ s)
IsRight-etag stored e (checkpoint_value meta p etag) m payload f h s = absurd h

IsRight-hit :
    (stored : Option (Text × Option Text)) (e : Option Text) (o : Option CacheValue)
    (m : Option (Option Text)) (r : Text × Option Text)
    → ((v : CacheValue) → o ≡ some v → IsRight stored e v m)
    → segment_hit o ≡ some r
    → stored ≡ some r
unfolding segment_hit
IsRight-hit stored e none m r h q = absurd (none_ne_some q)
IsRight-hit stored e (some (checkpoint_value meta payload etag)) m r h q = absurd (none_ne_some q)
IsRight-hit stored e (some (segment_value payload etag)) m r h q =
    let (s, t, g) = h (segment_value payload etag) refl in
    s ∙ (ap (λ (z : Option Text). some (payload, z)) (sym t) ∙ q)

module _ {W B : Type 0} (k : BlobCache B) (namespace : Text)
    (held : B → CacheKey → Option CacheValue) (laws : CacheLaws k held)
    (stored : ℕ → Option (Text × Option Text)) where
  -- What the cache holds under the key of a segment is right.
  abbrev pub IsCoherent : Cached W B → Type 0
  IsCoherent c =
      (n : ℕ) (e : Option Text) (v : CacheValue)
      → n ≤ u64_max
      → held c.blobs (segment_key namespace n e) ≡ some v
      → IsRight (stored n) e v (Table.get Text-discrete (segment_identifier n) c.etags)

  look-IsCoherent :
      (key : CacheKey) (c : Cached W B) → IsCoherent c → IsCoherent (look (some k) key c).1
  unfolding look
  look-IsCoherent key c h n e v u q =
      h n e v u (laws.lookup_keeps key (segment_key namespace n e) c.blobs v q)

  look-hit :
      (n : ℕ) (e : Option Text) (c : Cached W B) (r : Text × Option Text)
      → n ≤ u64_max
      → IsCoherent c
      → segment_hit (look (some k) (segment_key namespace n e) c).0 ≡ some r
      → stored n ≡ some r
  unfolding look
  look-hit n e c r u h q =
      IsRight-hit (stored n) e (k.lookup (segment_key namespace n e) c.blobs).0
        (Table.get Text-discrete (segment_identifier n) c.etags) r
        (λ v f. h n e v u (laws.hit (segment_key namespace n e) c.blobs v f)) q

  -- The answer of a lookup: right, if there is one, and the cache is still coherent.
  abbrev pub Found : ℕ → Option (Text × Option Text) × Cached W B → Type 0
  Found n (some r, c) = (stored n ≡ some r) × IsCoherent c
  Found n (none, c) = IsCoherent c

  Found-of :
      (n : ℕ) (o : Option (Text × Option Text)) (c : Cached W B)
      → ((r : Text × Option Text) → o ≡ some r → stored n ≡ some r)
      → IsCoherent c
      → Found n (o, c)
  Found-of n none c f h = h
  Found-of n (some r) c f h = (f r refl, h)

  fall_back-Found :
      (n : ℕ) (known : Option Text) (o : Option (Text × Option Text)) (c : Cached W B)
      → n ≤ u64_max
      → Found n (o, c)
      → Found n (fall_back (some k) segment_hit (segment_key namespace n) known (o, c))
  unfolding fall_back
  fall_back-Found n known (some r) c u h = h
  fall_back-Found n none none c u h = h
  fall_back-Found n (some tag) none c u h =
      Found-of n (segment_hit (look (some k) (segment_key namespace n none) c).0)
        (look (some k) (segment_key namespace n none) c).1 (λ r. look-hit n none c r u h)
        (look-IsCoherent (segment_key namespace n none) c h)

  pub find_cached-Found :
      (n : ℕ) (known : Option Text) (c : Cached W B)
      → n ≤ u64_max
      → IsCoherent c
      → Found n (find_cached (some k) segment_hit segment_hit (segment_key namespace n) known c)
  unfolding find_cached
  find_cached-Found n known c u h =
      fall_back-Found n known (segment_hit (look (some k) (segment_key namespace n known) c).0)
        (look (some k) (segment_key namespace n known) c).1 u
        (Found-of n (segment_hit (look (some k) (segment_key namespace n known) c).0)
          (look (some k) (segment_key namespace n known) c).1 (λ r. look-hit n known c r u h)
          (look-IsCoherent (segment_key namespace n known) c h))
