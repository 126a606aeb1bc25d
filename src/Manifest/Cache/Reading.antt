-- ===== src/Manifest/Cache/Reading.antt =====
-- get_with_etag of a cached segment store answers what the store below holds.
use fusio.Base.{
  ℕ, ◌≡◌, ◌≤◌, ◌∙◌, refl, sym, ap, subst, inl, inr, Option, none, some, Text, Text-discrete, ite,
  u64_max,
}
use fusio.Effect.{Result, ok, err, spent}
use fusio.Memory.Tags.{ite_self}
use fusio.Manifest.Types.{Error}
use fusio.Manifest.Table
use fusio.Manifest.Table.{Table, get-insert}
use fusio.Manifest.Cache.{
  CacheKey, CacheValue, segment_value, BlobCache, Cached, on_inner, known_etag, remember, note_etag,
  keep_value, drop_key, look, fall_back, find_cached, SegmentIo, segment_hit, segment_identifier,
  segment_key, note_segment, from_store, cached_or_store, get_with_etag,
}
use fusio.Manifest.Cache.Keys.{segment_identifier-injective, segment_key-injective}
use fusio.Manifest.Cache.Coherent.{
  CacheLaws, Tagged, IsRight, Tagged-noted, IsRight-tags, IsRight-etag, IsCoherent, Found,
  find_cached-Found,
}

module _ {W B : Type 0} (store : SegmentIo W) (k : BlobCache B) (namespace : Text)
    (held : B → CacheKey → Option CacheValue) (laws : CacheLaws k held)
    (stored : ℕ → Option (Text × Option Text)) where
  noted :
      (n m : ℕ) (p : Text) (e f : Option Text) (v : CacheValue) (tags : Table Text (Option Text))
      → n ≤ u64_max
      → m ≤ u64_max
      → stored n ≡ some (p, e)
      → IsRight (stored m) f v (Table.get Text-discrete (segment_identifier m) tags)
      → IsRight (stored m) f v (
          Table.get Text-discrete
            (segment_identifier m)
            (Table.insert Text-discrete (segment_identifier n) e tags))
  noted n m p e f v tags u l s h =
      subst (IsRight (stored m) f v)
        (sym (get-insert Text-discrete (segment_identifier n) (segment_identifier m) e tags))
        (pick (Text-discrete (segment_identifier n) (segment_identifier m)))
    where
      pick :
          (d : Dec (segment_identifier n ≡ segment_identifier m))
          → IsRight
              (stored m)
              f
              v
              (ite d (some e) (Table.get Text-discrete (segment_identifier m) tags))
      pick (no z) = h
      pick (yes q) =
          let same : stored m ≡ some (p, e) =
            subst (λ (i : ℕ). stored i ≡ some (p, e)) (segment_identifier-injective n m u l q) s in
          IsRight-tags (stored m) f v (Table.get Text-discrete (segment_identifier m) tags) (some e)
            (λ _. Tagged-noted e f (
              IsRight-etag (stored m) f v (Table.get Text-discrete (segment_identifier m) tags) p e
                h same))
            h

  fresh :
      (n : ℕ) (p : Text) (e : Option Text) (tags : Table Text (Option Text))
      → stored n ≡ some (p, e)
      → IsRight (stored n) e (segment_value p e) (
          Table.get Text-discrete
            (segment_identifier n)
            (Table.insert Text-discrete (segment_identifier n) e tags))
  fresh n p e tags s = (
    s,
    refl,
    subst (Tagged e)
        (sym (
          get-insert Text-discrete (segment_identifier n) (segment_identifier n) e tags
          ∙ ite_self (Text-discrete (segment_identifier n) (segment_identifier n)) (some e)
              (Table.get Text-discrete (segment_identifier n) tags)))
        (Tagged-noted e e refl),
  )

  -- A value that stands after an insertion, under the key of a segment.
  inserted :
      (n m : ℕ) (p : Text) (e f : Option Text) (v : CacheValue) (b : B)
      (tags : Table Text (Option Text))
      → n ≤ u64_max
      → m ≤ u64_max
      → stored n ≡ some (p, e)
      → held
          (k.insert (segment_key namespace n e) (segment_value p e) b)
          (segment_key namespace m f)
        ≡ some v
      → (held b (segment_key namespace m f) ≡ some v
          → IsRight (stored m) f v (Table.get Text-discrete (segment_identifier m) tags))
      → IsRight (stored m) f v (
          Table.get Text-discrete
            (segment_identifier m)
            (Table.insert Text-discrete (segment_identifier n) e tags))
  inserted n m p e f v b tags u l s q old =
      elim (laws.insert_keeps (segment_key namespace n e) (segment_key namespace m f)
        (segment_value p e) v b q) [
          | inr h ↦ noted n m p e f v tags u l s (old h)
          | inl (same, value) ↦
              (let (i, g) = segment_key-injective namespace m n f e l u same in
                subst
                  (λ (j : ℕ). IsRight (stored j) f v (
                    Table.get Text-discrete (segment_identifier j)
                      (Table.insert Text-discrete (segment_identifier n) e tags)))
                  (sym i)
                  (subst
                    (λ (g' : Option Text). IsRight (stored n) g' v (
                      Table.get Text-discrete (segment_identifier n)
                        (Table.insert Text-discrete (segment_identifier n) e tags)))
                    (sym g)
                    (subst
                      (λ (x : CacheValue). IsRight (stored n) e x (
                        Table.get Text-discrete (segment_identifier n)
                          (Table.insert Text-discrete (segment_identifier n) e tags)))
                      (sym value) (fresh n p e tags s))))
        ]

  note_segment-IsCoherent :
      (n : ℕ) (found : Text × Option Text) (c : Cached W B)
      → n ≤ u64_max
      → stored n ≡ some found
      → IsCoherent k namespace held laws stored c
      → IsCoherent k namespace held laws stored (note_segment store (some k) namespace n found c)
  unfolding note_segment note_etag remember keep_value drop_key
  note_segment-IsCoherent n (p, none) c u s h m f v l q =
      inserted n m p none f v c.blobs c.etags u l s q (h m f v l)
  note_segment-IsCoherent n (p, some tag) c u s h m f v l q =
      inserted n m p (some tag) f v (k.invalidate (segment_key namespace n none) c.blobs) c.etags u
        l s q
        (λ r.
          h m f v l
            (laws.invalidate_keeps (segment_key namespace n none) (segment_key namespace m f)
              c.blobs v r).1)

  note_segment_inner :
      (n : ℕ) (found : Text × Option Text) (c : Cached W B)
      → (note_segment store (some k) namespace n found c).inner ≡ c.inner
  unfolding note_segment note_etag remember keep_value drop_key
  note_segment_inner n (p, none) c = refl
  note_segment_inner n (p, some tag) c = refl

  fall_back_inner :
      (n : ℕ) (known : Option Text) (o : Option (Text × Option Text)) (c : Cached W B)
      → ((fall_back (some k) segment_hit (segment_key namespace n) known (o, c)).1).inner ≡ c.inner
  unfolding fall_back look
  fall_back_inner n known (some r) c = refl
  fall_back_inner n none none c = refl
  fall_back_inner n (some tag) none c = refl

  find_cached_inner :
      (n : ℕ) (known : Option Text) (c : Cached W B)
      → ((find_cached (some k) segment_hit segment_hit (segment_key namespace n) known c).1).inner
        ≡ c.inner
  unfolding find_cached look
  find_cached_inner n known c =
      fall_back_inner n known (segment_hit (k.lookup (segment_key namespace n known) c.blobs).0)
        (record c { blobs = (k.lookup (segment_key namespace n known) c.blobs).1 })

  -- What a read of segment n answers: what is stored, if it answers; and the cache is still coherent.
  abbrev pub Served :
      (W → ℕ → Option (Text × Option Text))
      → ℕ
      → Result Error (Text × Option Text) × Cached W B
      → Type 0
  Served truth n (ok r, c) =
      (stored n ≡ some r)
      × IsCoherent k namespace held laws stored c
      × ((j : ℕ) → truth c.inner j ≡ stored j)
  Served truth n (err e, c) =
      IsCoherent k namespace held laws stored c × ((j : ℕ) → truth c.inner j ≡ stored j)
  Served truth n (spent, c) =
      IsCoherent k namespace held laws stored c × ((j : ℕ) → truth c.inner j ≡ stored j)

  -- What a segment store does on a read: the segments stay, and it answers the one asked for, if it
  -- answers.
  abbrev pub Reads :
      (W → ℕ → Option (Text × Option Text)) → ℕ → W → Result Error (Text × Option Text) × W → Type 0
  Reads truth n w (ok r, w') = (truth w n ≡ some r) × ((j : ℕ) → truth w' j ≡ truth w j)
  Reads truth n w (err e, w') = (j : ℕ) → truth w' j ≡ truth w j
  Reads truth n w (spent, w') = (j : ℕ) → truth w' j ≡ truth w j

  module _ (truth : W → ℕ → Option (Text × Option Text)) (n : ℕ) (fits : n ≤ u64_max)
      (reads : (w : W) → Reads truth n w (store.get_with_etag n w)) where
    from_store-Served :
        (c : Cached W B) (o : Result Error (Text × Option Text) × W)
        → store.get_with_etag n c.inner ≡ o
        → Reads truth n c.inner o
        → IsCoherent k namespace held laws stored c
        → ((j : ℕ) → truth c.inner j ≡ stored j)
        → Served truth n (from_store store (some k) namespace n c)
    unfolding from_store on_inner
    from_store-Served c (ok r, w) e (s, same) h t = rw e (
      sym (t n) ∙ s,
      note_segment-IsCoherent n r (record c { inner = w }) fits (sym (t n) ∙ s) h,
      λ j.
          ap (λ (v : W). truth v j) (note_segment_inner n r (record c { inner = w }))
          ∙ (same j ∙ t j),
    )
    from_store-Served c (err x, w) e same h t = rw e (h, λ j. same j ∙ t j)
    from_store-Served c (spent, w) e same h t = rw e (h, λ j. same j ∙ t j)

    cached_or_store-Served :
        (o : Option (Text × Option Text)) (c : Cached W B)
        → Found k namespace held laws stored n (o, c)
        → ((j : ℕ) → truth c.inner j ≡ stored j)
        → Served truth n (cached_or_store store (some k) namespace n (o, c))
    unfolding cached_or_store
    cached_or_store-Served (some r) c (s, h) t = (s, h, t)
    cached_or_store-Served none c h t =
        from_store-Served c (store.get_with_etag n c.inner) refl (reads c.inner) h t

    -- Over a cache that keeps at most what was put in and not invalidated, and that this store alone
    -- writes under its namespace, and a segment store whose reads leave the segments: if all that the
    -- cache holds is right, get_with_etag answers, if it answers, the segment and the tag that the
    -- store below holds, and afterwards all that the cache holds is right again.
    pub get_with_etag-Served :
        (c : Cached W B)
        → IsCoherent k namespace held laws stored c
        → ((j : ℕ) → truth c.inner j ≡ stored j)
        → Served truth n (get_with_etag store (some k) namespace n c)
    unfolding get_with_etag
    get_with_etag-Served c h t =
        cached_or_store-Served
          (find_cached (some k) segment_hit segment_hit (segment_key namespace n)
            (known_etag (segment_identifier n) c) c).0
          (find_cached (some k) segment_hit segment_hit (segment_key namespace n)
            (known_etag (segment_identifier n) c) c).1
          (find_cached-Found k namespace held laws stored n (known_etag (segment_identifier n) c) c
            fits h)
          (λ j.
            ap (λ (v : W). truth v j) (find_cached_inner n (known_etag (segment_identifier n) c) c)
            ∙ t j)
