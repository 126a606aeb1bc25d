-- ===== src/Manifest/Cache/Deletion.antt =====
-- delete_upto of a cached segment store leaves nothing of a deleted segment in the cache.
use fusio.Base.{
  ℕ, zero, suc, ◌≡◌, ◌≢◌, ◌≤◌, ◌<◌, ◌∙◌, refl, sym, ap, subst, Option, none, some, Bool-cases, inl,
  inr, leb, if◌then◌else◌, leb→le, Text, Text-discrete, ite, u64_max, arith,
}
use fusio.Effect.{Result, ok, err, spent}
use fusio.Manifest.Types.{Error}
use fusio.Manifest.Table
use fusio.Manifest.Table.{Table, get-remove}
use fusio.Manifest.Cache.{
  CacheKey, CacheValue, segment_value, checkpoint_value, BlobCache, Cached, on_inner, known_etag,
  flattened, drop_key, drop_tagged, forget_key, SegmentIo, segment_identifier, segment_key,
  forget_upto, delete_upto,
}
use fusio.Manifest.Cache.Keys.{segment_identifier-injective}
use fusio.Manifest.Cache.Coherent.{CacheLaws, IsRight, IsCoherent}

-- The tag of a right value is the known one.
IsRight-known :
    (stored : Option (Text × Option Text)) (tag : Text) (v : CacheValue) (m : Option (Option Text))
    → IsRight stored (some tag) v m
    → flattened m ≡ some tag
unfolding flattened
IsRight-known stored tag (segment_value p e) m (s, t, g) = ap flattened g
IsRight-known stored tag (checkpoint_value c p e) m h = absurd h

-- The segments that are left.
abbrev pub above : ℕ → (ℕ → Option (Text × Option Text)) → ℕ → Option (Text × Option Text)
above upto stored n = if leb n upto then none else stored n

IsRight-above :
    (upto n : ℕ) (stored : ℕ → Option (Text × Option Text)) (e : Option Text) (v : CacheValue)
    (m : Option (Option Text))
    → ((n ≤ upto) → ⊥)
    → IsRight (stored n) e v m
    → IsRight (above upto stored n) e v m
IsRight-above upto n stored e v m out h = elim (Bool-cases (leb n upto)) [
  | inl q ↦ absurd (out (leb→le n upto q))
  | inr q ↦ rw q h
]

module _ {W B : Type 0} (store : SegmentIo W) (k : BlobCache B) (namespace : Text)
    (held : B → CacheKey → Option CacheValue) (laws : CacheLaws k held)
    (stored : ℕ → Option (Text × Option Text)) where
  drop_tagged_etags :
      (key : Option Text → CacheKey) (o : Option Text) (c : Cached W B)
      → (drop_tagged (some k) key o c).etags ≡ c.etags
  unfolding drop_tagged drop_key
  drop_tagged_etags key none c = refl
  drop_tagged_etags key (some tag) c = refl

  drop_tagged_held :
      (key : Option Text → CacheKey) (o : Option Text) (c : Cached W B) (j : CacheKey)
      (v : CacheValue)
      → held (drop_tagged (some k) key o c).blobs j ≡ some v
      → (held c.blobs j ≡ some v) × ((tag : Text) → o ≡ some tag → j ≢ key (some tag))
  unfolding drop_tagged drop_key
  drop_tagged_held key none c j v q = (q, λ tag e. cc)
  drop_tagged_held key (some t) c j v q =
      let (ne, h) = laws.invalidate_keeps (key (some t)) j c.blobs v q in
      (h, λ tag e same. ne (same ∙ ap key (sym e)))

  -- What is held behind a `forget_key` was held before, and is of another segment.
  forget_held :
      (n m : ℕ) (f : Option Text) (v : CacheValue) (c : Cached W B)
      → m ≤ u64_max
      → IsCoherent k namespace held laws stored c
      → held
          (forget_key (some k) (segment_identifier n) (segment_key namespace n) c).blobs
          (segment_key namespace m f)
        ≡ some v
      → (held c.blobs (segment_key namespace m f) ≡ some v) × ((n ≡ m) → ⊥)
  unfolding forget_key drop_key known_etag
  forget_held n m f v c l h q =
      let (q1, other_tag) =
        drop_tagged_held (segment_key namespace n) (known_etag (segment_identifier n) c)
          (record c {
            blobs = k.invalidate (segment_key namespace n none) c.blobs;
            etags = Table.remove Text-discrete (segment_identifier n) c.etags;
          })
          (segment_key namespace m f) v q in
      let (no_tag, q0) =
        laws.invalidate_keeps (segment_key namespace n none) (segment_key namespace m f) c.blobs v
          q1 in
      (q0, λ same. clash f same no_tag other_tag (h m f v l q0))
    where
      clash :
          (g : Option Text)
          → n ≡ m
          → segment_key namespace m g ≢ segment_key namespace n none
          → ((tag : Text)
              → known_etag (segment_identifier n) c ≡ some tag
              → segment_key namespace m g ≢ segment_key namespace n (some tag))
          → IsRight (stored m) g v (Table.get Text-discrete (segment_identifier m) c.etags)
          → ⊥
      clash none same no_tag other_tag right =
          no_tag (ap (λ (i : ℕ). segment_key namespace i none) (sym same))
      clash (some tag) same no_tag other_tag right =
          other_tag tag
            (ap (λ (i : ℕ). flattened (Table.get Text-discrete (segment_identifier i) c.etags)) same
              ∙ IsRight-known (stored m) tag v
                  (Table.get Text-discrete (segment_identifier m) c.etags) right)
            (ap (λ (i : ℕ). segment_key namespace i (some tag)) (sym same))

  forget_etags :
      (n : ℕ) (c : Cached W B)
      → (forget_key (some k) (segment_identifier n) (segment_key namespace n) c).etags
        ≡ Table.remove Text-discrete (segment_identifier n) c.etags
  unfolding forget_key drop_key
  forget_etags n c =
      drop_tagged_etags (segment_key namespace n) (known_etag (segment_identifier n) c) (record c {
        blobs = k.invalidate (segment_key namespace n none) c.blobs;
        etags = Table.remove Text-discrete (segment_identifier n) c.etags;
      })

  other_tags :
      (n m : ℕ) (f : Option Text) (v : CacheValue) (tags : Table Text (Option Text))
      → n ≤ u64_max
      → m ≤ u64_max
      → ((n ≡ m) → ⊥)
      → IsRight (stored m) f v (Table.get Text-discrete (segment_identifier m) tags)
      → IsRight (stored m) f v (
          Table.get Text-discrete
            (segment_identifier m)
            (Table.remove Text-discrete (segment_identifier n) tags))
  other_tags n m f v tags u l ne h =
      subst (IsRight (stored m) f v)
        (sym (get-remove Text-discrete (segment_identifier n) (segment_identifier m) tags))
        (pick (Text-discrete (segment_identifier n) (segment_identifier m)))
    where
      pick :
          (d : Dec (segment_identifier n ≡ segment_identifier m))
          → IsRight
              (stored m)
              f
              v
              (ite d none (Table.get Text-discrete (segment_identifier m) tags))
      pick (yes q) = absurd (ne (segment_identifier-injective n m u l q))
      pick (no z) = h

  forget_key-IsCoherent :
      (n : ℕ) (c : Cached W B)
      → n ≤ u64_max
      → IsCoherent k namespace held laws stored c
      → IsCoherent k namespace held laws stored
          (forget_key (some k) (segment_identifier n) (segment_key namespace n) c)
  forget_key-IsCoherent n c u h m f v l q =
      let (q0, ne) = forget_held n m f v c l h q in
      subst
        (λ (tags : Table Text (Option Text)).
          IsRight (stored m) f v (Table.get Text-discrete (segment_identifier m) tags))
        (sym (forget_etags n c)) (other_tags n m f v c.etags u l ne (h m f v l q0))

  -- Nothing is held of the segments up to a number.
  abbrev IsClear : ℕ → Cached W B → Type 0
  IsClear upto c =
      (m : ℕ) (f : Option Text) (v : CacheValue)
      → m ≤ u64_max
      → held c.blobs (segment_key namespace m f) ≡ some v
      → upto < m

  forget_upto-IsClear :
      (upto : ℕ) (c : Cached W B)
      → upto ≤ u64_max
      → IsCoherent k namespace held laws stored c
      → IsCoherent k namespace held laws stored (forget_upto store (some k) namespace upto c)
        × IsClear upto (forget_upto store (some k) namespace upto c)
  unfolding forget_upto
  forget_upto-IsClear zero c u h = (
    forget_key-IsCoherent zero c u h,
    λ m f v l q. let ne = (forget_held zero m f v c l h q).1 in positive m ne,
  )
    where
      positive : (m : ℕ) → (zero ≡ m → ⊥) → zero < m
      positive zero ne = absurd (ne refl)
      positive (suc m) ne = omega arith
  forget_upto-IsClear (suc n) c u h =
      let (h1, clear) = forget_upto-IsClear n c (omega arith) h in
      (
        forget_key-IsCoherent (suc n) (forget_upto store (some k) namespace n c) u h1,
        λ m f v l q.
            let (q0, ne) =
              forget_held (suc n) m f v (forget_upto store (some k) namespace n c) l h1 q in
            omega (arith, clear m f v l q0, ne),
      )

  drop_tagged_inner :
      (key : Option Text → CacheKey) (o : Option Text) (c : Cached W B)
      → (drop_tagged (some k) key o c).inner ≡ c.inner
  unfolding drop_tagged drop_key
  drop_tagged_inner key none c = refl
  drop_tagged_inner key (some tag) c = refl

  forget_inner :
      (n : ℕ) (c : Cached W B)
      → (forget_key (some k) (segment_identifier n) (segment_key namespace n) c).inner ≡ c.inner
  unfolding forget_key drop_key
  forget_inner n c =
      drop_tagged_inner (segment_key namespace n) (known_etag (segment_identifier n) c) (record c {
        blobs = k.invalidate (segment_key namespace n none) c.blobs;
        etags = Table.remove Text-discrete (segment_identifier n) c.etags;
      })

  forget_upto_inner :
      (n : ℕ) (c : Cached W B) → (forget_upto store (some k) namespace n c).inner ≡ c.inner
  unfolding forget_upto
  forget_upto_inner zero c = forget_inner zero c
  forget_upto_inner (suc n) c =
      forget_inner (suc n) (forget_upto store (some k) namespace n c) ∙ forget_upto_inner n c

  -- What a segment store does on a deletion that answers Ok: the segments up to the number are gone.
  abbrev pub Deletes :
      (W → ℕ → Option (Text × Option Text)) → ℕ → W → Result Error Unit × W → Type 0
  Deletes truth upto w (ok _, w') = (j : ℕ) → truth w' j ≡ above upto (truth w) j
  Deletes truth upto w (err e, w') = Unit
  Deletes truth upto w (spent, w') = Unit

  -- After a deletion that answers Ok: the cache is coherent with the segments that are left.
  abbrev pub Deleted :
      (W → ℕ → Option (Text × Option Text)) → ℕ → Result Error Unit × Cached W B → Type 0
  Deleted truth upto (ok _, c) =
      IsCoherent k namespace held laws (above upto stored) c
      × ((j : ℕ) → truth c.inner j ≡ above upto stored j)
  Deleted truth upto (err e, c) = Unit
  Deleted truth upto (spent, c) = Unit

  above-IsCoherent :
      (upto : ℕ) (c : Cached W B)
      → IsCoherent k namespace held laws stored c × IsClear upto c
      → IsCoherent k namespace held laws (above upto stored) c
  above-IsCoherent upto c (h, clear) m f v l q =
      IsRight-above upto m stored f v (Table.get Text-discrete (segment_identifier m) c.etags)
        (λ le. omega (arith, clear m f v l q)) (h m f v l q)

  module _ (truth : W → ℕ → Option (Text × Option Text)) (upto : ℕ) (fits : upto ≤ u64_max) where
    delete-Deleted :
        (c : Cached W B) (o : Result Error Unit × W)
        → store.delete_upto upto c.inner ≡ o
        → Deletes truth upto c.inner o
        → IsCoherent k namespace held laws stored c
        → ((j : ℕ) → truth c.inner j ≡ stored j)
        → Deleted truth upto (delete_upto store (some k) namespace upto c)
    unfolding delete_upto on_inner
    delete-Deleted c (ok _, w) e gone h t = rw e (
      above-IsCoherent upto (forget_upto store (some k) namespace upto (record c { inner = w }))
          (forget_upto-IsClear upto (record c { inner = w }) fits h),
      λ j.
          ap (λ (v : W). truth v j) (forget_upto_inner upto (record c { inner = w }))
          ∙ (gone j
              ∙ ap (λ (z : Option (Text × Option Text)). if leb j upto then none else z) (t j)),
    )
    delete-Deleted c (err x, w) e gone h t = rw e tt
    delete-Deleted c (spent, w) e gone h t = rw e tt

    -- Over a cache that keeps at most what was put in and not invalidated, and that this store alone
    -- writes under its namespace, and a segment store whose deletions that answer Ok delete exactly
    -- the segments up to the number: if all that the cache holds is right, then after a deletion that
    -- answers Ok all that it holds is right for the segments that are left; nothing of the others is
    -- held.
    pub delete_upto-Deleted :
        ((w : W) → Deletes truth upto w (store.delete_upto upto w))
        → (c : Cached W B) → IsCoherent k namespace held laws stored c
        → ((j : ℕ) → truth c.inner j ≡ stored j)
        → Deleted truth upto (delete_upto store (some k) namespace upto c)
    delete_upto-Deleted deletes c h t =
        delete-Deleted c (store.delete_upto upto c.inner) refl (deletes c.inner) h t
