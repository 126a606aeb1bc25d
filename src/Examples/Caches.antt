-- ===== src/Examples/Caches.antt =====
-- A cache with one entry over a store of segments, and the stored plan, at concrete inputs.
use fusio.Base.{
  ℕ, ◌≡◌, refl, sym, ap, inl, [], ◌∷◌, Option, none, some, ◌==◌, if◌then◌else◌, Text, Text-discrete,
  codes, ite, arith,
}
use fusio.Effect.{Result, ok, err}
use fusio.Path.{parse}
use fusio.Memory.{MemFs, object}
use fusio.Manifest.HeadStore.{cas_condition}
use fusio.Manifest.Segments.{json_type}
use fusio.Manifest.Types.{Error, corrupt, if_not_exists}
use fusio.Manifest.Table
use fusio.Manifest.Plan.{empty_plan}
use fusio.Manifest.InMemory.{mem_cas, mem_cas-CasLaws, Fine, put_conditional-Fine}
use fusio.Manifest.PlanStore.{PlanCodec, put_plan}
use fusio.Manifest.PlanStore.Atomic.{Done, put_plan-Done}
use fusio.Manifest.Cache.{
  CacheKind, checkpoint_kind, segment_kind, CacheKey, CacheValue, BlobCache, Cached, SegmentIo,
  get_with_etag, delete_upto,
}
use fusio.Manifest.Cache.Coherent.{CacheLaws, IsCoherent}
use fusio.Manifest.Cache.Reading.{Served, Reads, get_with_etag-Served}
use fusio.Manifest.Cache.Deletion.{Deleted, above, delete_upto-Deleted}

kind_discrete : Discrete CacheKind
kind_discrete checkpoint_kind checkpoint_kind = yes refl
kind_discrete checkpoint_kind segment_kind = no (λ e. cc)
kind_discrete segment_kind checkpoint_kind = no (λ e. cc)
kind_discrete segment_kind segment_kind = yes refl

some_cong : {s t : Text} → s ≡ t → ◌≡◌ {A = Option Text} (some s) (some t)
some_cong e = ap some e

some_back : {s t : Text} → ◌≡◌ {A = Option Text} (some s) (some t) → s ≡ t
some_back e = cc

unfoldable tag_discrete : Discrete (Option Text)
unfolding Text-discrete
tag_discrete none none = yes refl
tag_discrete none (some t) = no (λ e. cc)
tag_discrete (some s) none = no (λ e. cc)
tag_discrete (some s) (some t) = elim (Text-discrete s t) [
  | yes p ↦ yes (some_cong p)
  | no n ↦ no (λ e. n (some_back e))
]

key_cong :
    {k l : CacheKind} {s t : Text} {e f : Option Text}
    → k ≡ l
    → s ≡ t
    → e ≡ f
    → ◌≡◌ {A = CacheKey}
        (record { kind = k; identifier = s; revision = e })
        (record { kind = l; identifier = t; revision = f })
key_cong p q r = cc

unfoldable key_discrete : Discrete CacheKey
key_discrete a b = elim (kind_discrete a.kind b.kind) [
  | no n ↦ no (λ e. n (ap (λ (x : CacheKey). x.kind) e))
  | yes p ↦ (elim (Text-discrete a.identifier b.identifier) [
    | no n ↦ no (λ e. n (ap (λ (x : CacheKey). x.identifier) e))
    | yes q ↦ (elim (tag_discrete a.revision b.revision) [
      | no n ↦ no (λ e. n (ap (λ (x : CacheKey). x.revision) e))
      | yes r ↦ yes (key_cong p q r)
    ])
  ])
]

abbrev Slot : Type 0
Slot = Option (CacheKey × CacheValue)

abbrev slot_held : Slot → CacheKey → Option CacheValue
slot_held none key = none
slot_held (some (j, v)) key = ite (key_discrete j key) (some v) none

-- The last value that was put in; to invalidate any key empties the cache.
abbrev slot_cache : BlobCache Slot
slot_cache = record {
  lookup = λ key b. (slot_held b key, b);
  insert = λ key v b. some (key, v);
  invalidate = λ key b. none;
}

ite-some :
    {j key : CacheKey} (d : Dec (j ≡ key)) (x v : CacheValue)
    → ite d (some x) none ≡ some v
    → (key ≡ j) × (v ≡ x)
ite-some (yes p) x v e = (sym p, cc)
ite-some (no n) x v e = cc

slot_cache-CacheLaws : CacheLaws slot_cache slot_held
slot_cache-CacheLaws = record {
  hit = λ key b v e. e;
  lookup_keeps = λ key j b v e. e;
  insert_keeps = λ key j x v b e. inl (ite-some (key_discrete key j) x v e);
  invalidate_keeps = λ key j b v e. cc;
}

abbrev Segments : Type 0
Segments = ℕ → Option (Text × Option Text)

unfoldable or_missing : Option (Text × Option Text) → Result Error (Text × Option Text)
or_missing none = err corrupt
or_missing (some r) = ok r

abbrev plain_store : SegmentIo Segments
plain_store = record {
  put_next = λ seq txn payload ct w. (ok seq, λ n. if n == seq then some (payload, none) else w n);
  get_with_etag = λ seq w. (or_missing (w seq), w);
  load_meta = λ seq w. (ok 0, w);
  list_from = λ seq limit w. (ok [], w);
  delete_upto = λ upto w. (ok tt, above upto w);
}

plain-Reads :
    (n : ℕ) (w : Segments)
    → Reads plain_store slot_cache
        (codes "s")
        slot_held
        slot_cache-CacheLaws
        w
        (λ v. v)
        n
        w
        (plain_store.get_with_etag n w)
unfolding or_missing
plain-Reads n w = of_found (w n) refl
  where
    of_found :
        (o : Option (Text × Option Text))
        → w n ≡ o
        → Reads plain_store slot_cache
            (codes "s")
            slot_held
            slot_cache-CacheLaws
            w
            (λ v. v)
            n
            w
            (or_missing o, w)
    of_found none e = λ j. refl
    of_found (some r) e = (e, λ j. refl)

-- Segments 3 and 8, and nothing in the cache.
abbrev two_segments : Segments
two_segments n =
    if n == 3
    then some (1 ∷ [], some (codes "a"))
    else if n == 8
    then some (2 ∷ [], some (codes "b"))
    else none

abbrev cold : Cached Segments Slot
cold = record { inner = two_segments; blobs = none; etags = [] }

cold-IsCoherent : IsCoherent slot_cache (codes "s") slot_held slot_cache-CacheLaws two_segments cold
cold-IsCoherent n e v u q = cc

read_example :
    Served plain_store slot_cache
      (codes "s")
      slot_held
      slot_cache-CacheLaws
      two_segments
      (λ v. v)
      3
      (get_with_etag plain_store (some slot_cache) (codes "s") 3 cold)
read_example =
    get_with_etag-Served plain_store slot_cache (codes "s") slot_held slot_cache-CacheLaws
      two_segments (λ v. v) 3 (omega arith) (plain-Reads 3) cold cold-IsCoherent (λ j. refl)

-- After the read, the cache holds segment 3 under its tag.
abbrev warm : Cached Segments Slot
warm = (get_with_etag plain_store (some slot_cache) (codes "s") 3 cold).1

warm-Served :
    Served plain_store slot_cache
      (codes "s")
      slot_held
      slot_cache-CacheLaws
      two_segments
      (λ v. v)
      3
      (get_with_etag plain_store (some slot_cache) (codes "s") 3 cold)
warm-Served =
    get_with_etag-Served plain_store slot_cache (codes "s") slot_held slot_cache-CacheLaws
      two_segments (λ v. v) 3 (omega arith) (plain-Reads 3) cold cold-IsCoherent (λ j. refl)

delete_example :
    Deleted plain_store slot_cache
      (codes "s")
      slot_held
      slot_cache-CacheLaws
      two_segments
      (λ v. v)
      5
      (delete_upto plain_store (some slot_cache) (codes "s") 5 warm)
unfolding get_with_etag or_missing key_discrete
delete_example =
    delete_upto-Deleted plain_store slot_cache (codes "s") slot_held slot_cache-CacheLaws
      two_segments (λ v. v) 5 (omega arith) (λ w j. refl) warm (warm-Served.1) (warm-Served.2)

abbrev plan_codec : PlanCodec
plan_codec = record { encode_plan = λ p. some (p.not_before ∷ []); decode_plan = λ _. none }

plan_parsed : parse (codes "db/gc/GARBAGE") ≡ ok (codes "db/gc/GARBAGE")
unfolding parse Text-discrete
plan_parsed = refl

abbrev no_objects : MemFs
no_objects = record { heap = []; objects = []; counter = 0 }

no_objects-Fine : Fine no_objects
no_objects-Fine = (record { addressed = tt; issued = tt }, omega arith)

plan_example :
    let o =
      put_plan mem_cas plan_codec
        (λ _ w. w)
        (codes "db/gc/GARBAGE")
        (5 ∷ [])
        empty_plan
        if_not_exists
        no_objects in
    Done (0 ∷ []) (cas_condition if_not_exists) none (object (codes "db/gc/GARBAGE") o.1) o.0
unfolding object Table.get
plan_example =
    put_plan-Done mem_cas plan_codec (λ _ w. w) (codes "db/gc/GARBAGE") object Fine mem_cas-CasLaws
      (codes "db/gc/GARBAGE") plan_parsed (λ d w fine. (fine, refl)) none (5 ∷ []) empty_plan
      if_not_exists (0 ∷ []) refl
      (λ w x fine e.
        put_conditional-Fine (codes "db/gc/GARBAGE") (0 ∷ []) (some json_type) none
          (cas_condition if_not_exists) w x fine e)
      no_objects (no_objects-Fine, refl)
