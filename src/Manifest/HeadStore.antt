-- ===== src/Manifest/HeadStore.antt =====
-- fusio-manifest/src/head.rs: HeadStoreImpl over a file system with compare-and-swap.
use fusio.Base.{◌≡◌, refl, sym, subst, Option, none, some, List, Text, codes}
use fusio.Effect.{Result, ok, err, spent, Exec, pure, lift, ◌>>=◌, bind_cases}
use fusio.Path.{PathError, parse}
use fusio.Memory.{CasCondition, cas_if_not_exists, cas_if_match}
use fusio.Memory.Tags.{Holds}
use fusio.Manifest.Types.{Error, FsError, other, HeadJson, PutCondition, if_not_exists, if_match}
use fusio.Manifest.Backoff.{map_fs_error}
use fusio.Manifest.Heads.{Head, Meets, Put, Loaded}
use fusio.Manifest.Session.Reads.{or_corrupt}

-- FsCas
pub record CasStore (W : Type 0) : Type 0 where
  pub load_with_tag : Text → Exec FsError W (Option (Text × Text))
  pub put_conditional :
      Text → Text → Option Text → Option (List (Text × Text)) → CasCondition → Exec FsError W Text

-- serde_json on HeadJson.
pub record HeadCodec : Type 0 where
  pub encode : HeadJson → Option Text
  pub decode : Text → Option HeadJson

-- `.map_err(map_fs_error)`
unfoldable pub of_fs : {A : Type 0} → Result FsError A → Result Error A
unfolding map_fs_error
of_fs (ok a) = ok a
of_fs (err e) = err (map_fs_error e)
of_fs spent = spent

unfoldable pub mapped : {W A : Type 0} → Exec FsError W A → Exec Error W A
unfolding of_fs
mapped m w = let (r, w') = m w in (of_fs r, w')

-- `Path::parse(&self.key).map_err(Error::other)?`
unfoldable pub or_other : Result PathError Text → Result Error Text
or_other (ok p) = ok p
or_other (err e) = err other
or_other spent = spent

unfoldable pub cas_condition : PutCondition → CasCondition
cas_condition if_not_exists = cas_if_not_exists
cas_condition (if_match tag) = cas_if_match tag

module _ {W : Type 0} (cas : CasStore W) (codec : HeadCodec) (key : Text) where
  decode_head : Option (Text × Text) → Exec Error W (Option (HeadJson × Text))
  decode_head none = pure none
  decode_head (some (bytes, tag)) = do
    head ← lift (or_corrupt (codec.decode bytes))
    pure (some (head, tag))

  -- HeadStoreImpl::load
  unfoldable pub load : Exec Error W (Option (HeadJson × Text))
  unfolding or_other mapped decode_head
  load = do
    path ← lift (or_other (parse key))
    found ← mapped (cas.load_with_tag path)
    decode_head found

  put_body : PutCondition → Text → Exec Error W Text
  unfolding or_other mapped cas_condition
  put_body cond body = do
    path ← lift (or_other (parse key))
    mapped
        (cas.put_conditional path body (some (codes "application/json")) none (cas_condition cond))

  -- HeadStoreImpl::put
  unfoldable pub put : HeadJson → PutCondition → Exec Error W Text
  unfolding put_body
  put head cond = do body ← lift (or_corrupt (codec.encode head)); put_body cond body

pub of_fs_ok : {A : Type 0} (r : Result FsError A) (a : A) → of_fs r ≡ ok a → r ≡ ok a
unfolding of_fs
of_fs_ok (ok b) a e = cc
of_fs_ok (err x) a e = cc
of_fs_ok spent a e = cc

-- What a compare-and-swap store has done, by its answer.
abbrev pub Swapped :
    Text → CasCondition → (before after : Option (Text × Text)) → Result FsError Text → Type 0
Swapped payload c before after (ok t) = Holds c before × (after ≡ some (payload, t))
Swapped payload c before after _ = after ≡ before

abbrev pub Read : Option (Text × Text) → Result FsError (Option (Text × Text)) → Type 0
Read before (ok r) = r ≡ before
Read before _ = Unit

-- What a compare-and-swap store promises in the worlds that are fine: `object` is the object at a
-- path as the world holds it.
pub record CasLaws {W : Type 0} (cas : CasStore W) (object : Text → W → Option (Text × Text))
    (Fine : W → Type 0) : Type 0 where
  pub load_answer : (p : Text) (w : W) → Fine w → Read (object p w) (cas.load_with_tag p w).0
  pub load_keeps : (p : Text) (w : W) → Fine w → object p (cas.load_with_tag p w).1 ≡ object p w
  pub put_lem :
      (p payload : Text) (ct : Option Text) (m : Option (List (Text × Text))) (c : CasCondition)
      (w : W)
      → Fine w
      → Swapped payload c
          (object p w)
          (object p (cas.put_conditional p payload ct m c w).1)
          (cas.put_conditional p payload ct m c w).0

-- HEAD as the object holds it, if it is readable.
abbrev pub Reads : HeadCodec → Option (Text × Text) → Head → Type 0
Reads codec none h = h ≡ none
Reads codec (some (b, t)) h = (j : HeadJson) × (codec.decode b ≡ some j) × (h ≡ some (j, t))

-- A put of HEAD at the level of the object: it leaves the object readable as a HEAD, and Put holds.
abbrev pub PutReads :
    HeadCodec
    → (before : Head) → HeadJson
    → PutCondition
    → Option (Text × Text)
    → Result Error Text
    → Type 0
PutReads codec before h c object r =
    (after : Head) × Reads codec object after × Put h c before after r

module _ {W : Type 0} (cas : CasStore W) (object : Text → W → Option (Text × Text))
    (Fine : W → Type 0) (laws : CasLaws cas object Fine) (codec : HeadCodec)
    (back : (h : HeadJson) (b : Text) → codec.encode h ≡ some b → codec.decode b ≡ some h)
    (key path : Text) (parsed : parse key ≡ ok path) (w : W) (fine : Fine w) (before : Head)
    (readable : Reads codec (object path w) before) where
  decode_head-Loaded :
      (o : Option (Text × Text)) (w' : W)
      → Reads codec o before
      → Loaded before (decode_head cas codec key o w').0
  unfolding decode_head
  decode_head-Loaded none w' r = sym r
  decode_head-Loaded (some (b, t)) w' (j, e, h) = rw e (sym h)

  -- HeadStoreImpl over a compare-and-swap store, for a key that parses and an object that is a readable
  -- HEAD or absent: what load answers, if it answers, is that HEAD.
  pub load-Loaded : Loaded before (load cas codec key w).0
  unfolding load or_other
  load-Loaded = rw parsed (
      bind_cases (λ o. Loaded before (o.0)) (decode_head cas codec key)
        (mapped (cas.load_with_tag path)) w
        (unfold mapped in
          λ found e.
            let same : found ≡ object path w =
              subst (Read (object path w)) (of_fs_ok (cas.load_with_tag path w).0 found e)
                (laws.load_answer path w fine) in
            subst (λ o. Loaded before (decode_head cas codec key o (cas.load_with_tag path w).1).0)
              (sym same) (decode_head-Loaded (object path w) (cas.load_with_tag path w).1 readable))
        (λ _ _. tt) (λ _. tt))

  Holds-Meets : (c : PutCondition) → Holds (cas_condition c) (object path w) → Meets c before
  unfolding cas_condition
  Holds-Meets if_not_exists e = subst (λ o. Reads codec o before) e readable
  Holds-Meets (if_match t) (d, e) =
      let (j, _, same) = subst (λ o. Reads codec o before) e readable in (j, same)

  put_case :
      (h : HeadJson) (c : PutCondition) (body : Text) (r : Result FsError Text) (w' : W)
      → codec.encode h ≡ some body
      → Swapped body (cas_condition c) (object path w) (object path w') r
      → PutReads codec before h c (object path w') (of_fs r)
  unfolding of_fs
  put_case h c body (ok t) w' enc (holds, stored) = (
    some (h, t),
    subst (λ o. Reads codec o (some (h, t))) (sym stored) (h, back h body enc, refl),
    (Holds-Meets c holds, refl),
  )
  put_case h c body (err e) w' enc kept =
      (before, subst (λ o. Reads codec o before) (sym kept) readable, refl)
  put_case h c body spent w' enc kept =
      (before, subst (λ o. Reads codec o before) (sym kept) readable, refl)

  -- Under the same conditions, a put of a HEAD that encodes leaves a readable HEAD or none; it is an
  -- atomic conditional put of HEAD: Ok with a tag only where the condition held, and then HEAD is the
  -- new one under that tag, and unchanged after an error.
  pub put-Put :
      (h : HeadJson) (c : PutCondition) (body : Text)
      → codec.encode h ≡ some body
      → PutReads codec before h c
          (object path (put cas codec key h c w).1)
          (put cas codec key h c w).0
  unfolding put put_body mapped or_other
  put-Put h c body enc =
      rw (enc, parsed)
        (put_case h c body
          (cas.put_conditional path body (some (codes "application/json")) none (cas_condition c)
            w).0
          (cas.put_conditional path body (some (codes "application/json")) none (cas_condition c)
            w).1
          enc
          (laws.put_lem path body (some (codes "application/json")) none (cas_condition c) w fine))
