-- ===== src/Manifest/Segments/Stored.antt =====
-- Segments over the in-memory file system: what put_next stores is what get and load_meta answer.
use fusio.Base.{
  ℕ, suc, ◌≡◌, ◌≢◌, ◌≤◌, ◌∙◌, refl, sym, ap, subst, ◌⊎◌, inl, inr, List, [], ◌∷◌, length,
  length-append, Option, none, some, Bool, Text, Text-discrete, ite, codes, u64_max, arith,
}
use fusio.Effect.{ok, err}
use fusio.Decimal.{padded20, to_text}
use fusio.Decimal.RoundTrip.{parse_u64-to_text}
use fusio.Path.{parse}
use fusio.Memory
use fusio.Memory.{MemFs, find, object, loaded, put_new, new_metadata, HeadObject, head_object}
use fusio.Memory.Fresh.{IsPut, put_new-IsPut}
use fusio.Manifest.Types.{corrupt}
use fusio.Manifest.Table
use fusio.Manifest.HeadStore.{mapped, or_other}
use fusio.Manifest.InMemory.{mem_cas}
use fusio.Manifest.Files.{
  mem_files, converted, of_io, or_else_corrupt, or_if_corrupt, metadata_of, mem_head_metadata,
}
use fusio.Manifest.Segments.{
  key_for, file_name, under, ext_for, type_of, txn_id_header, json_type, put_next, load_key,
  get_with_etag, meta_key, load_meta, present, txn_of,
}

length-under :
    (p a b : Text) → length a ≡ suc (length b) → length (under p a) ≡ suc (length (under p b))
unfolding under
length-under [] a b e = e
length-under (c ∷ p) a b e = omega (arith, length-append p (47 ∷ a), length-append p (47 ∷ b))

-- The two keys of a number are not the same.
keys_differ : (p : Text) (n : ℕ) → key_for p n (codes ".bin") ≢ key_for p n (codes ".json")
unfolding key_for file_name
keys_differ p n e =
    let one = length-append (padded20 n) (codes ".json") in
    let two = length-append (padded20 n) (codes ".bin") in
    let long =
      length-under p (file_name n (codes ".json")) (file_name n (codes ".bin")) (omega arith) in
    omega (arith, ap (λ (z : Text). length z) e)

-- The header of a transaction.
abbrev pub txn_header : ℕ → List (Text × Text)
txn_header txn = (txn_id_header, to_text txn) ∷ []

module _ (percent_encode : (ℕ → Bool) → Text → Text) (prefix : Text) where
  pub load_key_found :
      (k b t : Text) (fs : MemFs)
      → parse k ≡ ok k
      → object k fs ≡ some (b, t)
      → load_key (mem_files percent_encode) mem_cas percent_encode prefix k fs
        ≡ (ok (b, some t), fs)
  unfolding load_key or_other converted of_io present Memory.load_with_tag
  load_key_found k b t fs e h = rw (e, h) refl

  pub load_key_missing :
      (k : Text) (fs : MemFs)
      → parse k ≡ ok k
      → object k fs ≡ none
      → load_key (mem_files percent_encode) mem_cas percent_encode prefix k fs ≡ (err corrupt, fs)
  unfolding load_key or_other converted of_io present Memory.load_with_tag
  load_key_missing k fs e h = rw (e, h) refl

  meta_key_found :
      (k : Text) (h : HeadObject) (txn : ℕ) (fs : MemFs)
      → parse k ≡ ok k
      → Memory.head_object_of (find k fs) fs ≡ some h
      → h.metadata ≡ new_metadata (some (txn_header txn)) []
      → txn ≤ u64_max
      → meta_key (mem_files percent_encode) mem_cas percent_encode prefix k fs ≡ (ok txn, fs)
  unfolding meta_key or_other converted of_io mem_head_metadata metadata_of txn_of new_metadata
      Table.insert Text-discrete
  meta_key_found k h txn fs e f m l = rw (e, f, m, parse_u64-to_text txn l) refl

  meta_key_missing :
      (k : Text) (fs : MemFs)
      → parse k ≡ ok k
      → find k fs ≡ none
      → meta_key (mem_files percent_encode) mem_cas percent_encode prefix k fs ≡ (err corrupt, fs)
  unfolding meta_key or_other converted of_io mem_head_metadata metadata_of txn_of
      Memory.head_object_of
  meta_key_missing k fs e f = rw (e, f) refl

  pub put_next_fresh :
      (seq txn : ℕ) (payload ct : Text) (fs : MemFs)
      → parse (key_for prefix seq (ext_for ct)) ≡ ok (key_for prefix seq (ext_for ct))
      → find (key_for prefix seq (ext_for ct)) fs ≡ none
      → put_next (mem_files percent_encode) mem_cas percent_encode prefix seq txn payload ct fs ≡ (
        ok seq,
        (put_new
            (key_for prefix seq (ext_for ct))
            payload
            (type_of ct)
            (some (txn_header txn))
            none
            fs).1,
      )
  unfolding put_next or_other mapped Memory.put_conditional put_new Memory.next_tag
      Memory.insert_entry
  put_next_fresh seq txn payload ct fs e f = rw (e, f) refl

  -- What the store answers for a number.
  abbrev pub Answers : ℕ → (payload : Text) → (txn : ℕ) → MemFs → Type 0
  Answers seq payload txn fs =
      ((t : Text) × (get_with_etag (mem_files percent_encode) mem_cas percent_encode prefix seq fs
          ≡ (ok (payload, some t), fs)))
      × (load_meta (mem_files percent_encode) mem_cas percent_encode prefix seq fs ≡ (ok txn, fs))

  module _ (seq txn : ℕ) (payload : Text) (fs fs' : MemFs)
      (json_key : parse (key_for prefix seq (codes ".json"))
        ≡ ok (key_for prefix seq (codes ".json")))
      (bin_key : parse (key_for prefix seq (codes ".bin")) ≡ ok (key_for prefix seq (codes ".bin")))
      (fits : txn ≤ u64_max) where
    json-Answers :
        IsPut
          (key_for prefix seq (codes ".json"))
          payload
          (new_metadata (some (txn_header txn)) [])
          fs
          fs'
        → Answers seq payload txn fs'
    unfolding get_with_etag load_meta or_else_corrupt or_if_corrupt
    json-Answers put = (
      (
        put.tag,
        rw
            (load_key_found (key_for prefix seq (codes ".json")) payload put.tag fs' json_key
              put.stored)
            refl,
      ),
      rw (meta_key_found (key_for prefix seq (codes ".json")) _ txn fs' json_key put.head refl fits)
          refl,
    )

    bin-Answers :
        IsPut
          (key_for prefix seq (codes ".bin"))
          payload
          (new_metadata (some (txn_header txn)) [])
          fs
          fs'
        → find (key_for prefix seq (codes ".json")) fs ≡ none
        → Answers seq payload txn fs'
    unfolding get_with_etag load_meta or_else_corrupt or_if_corrupt
    bin-Answers put free =
        let kept : find (key_for prefix seq (codes ".json")) fs' ≡ none =
          put.others (key_for prefix seq (codes ".json")) (keys_differ prefix seq) ∙ free in
        (
          (
            put.tag,
            rw
                (
                  load_key_missing (key_for prefix seq (codes ".json")) fs' json_key
                      (unfold object loaded in ap (λ (o : Option ℕ). loaded o fs') kept),
                  load_key_found (key_for prefix seq (codes ".bin")) payload put.tag fs' bin_key
                      put.stored,
                )
                refl,
          ),
          rw
              (
                meta_key_missing (key_for prefix seq (codes ".json")) fs' json_key kept,
                meta_key_found (key_for prefix seq (codes ".bin")) _ txn fs' bin_key put.head refl
                    fits,
              )
              refl,
        )

pub ite_cases : {P : Type 0} (d : Dec P) (a b : Text) → (ite d a b ≡ a) ⊎ (ite d a b ≡ b)
ite_cases (yes p) a b = inl refl
ite_cases (no n) a b = inr refl

ext_for-cases : (ct : Text) → (ext_for ct ≡ codes ".json") ⊎ (ext_for ct ≡ codes ".bin")
unfolding ext_for
ext_for-cases ct = ite_cases (Text-discrete ct json_type) (codes ".json") (codes ".bin")

module _ (percent_encode : (ℕ → Bool) → Text → Text) (prefix : Text) (seq txn : ℕ)
    (payload ct : Text) (fs : MemFs)
    (json_key : parse (key_for prefix seq (codes ".json"))
      ≡ ok (key_for prefix seq (codes ".json")))
    (bin_key : parse (key_for prefix seq (codes ".bin")) ≡ ok (key_for prefix seq (codes ".bin")))
    (fits : txn ≤ u64_max) (no_json : find (key_for prefix seq (codes ".json")) fs ≡ none)
    (no_bin : find (key_for prefix seq (codes ".bin")) fs ≡ none) where
  at_key : (P : Text → Type 0) → P (codes ".json") → P (codes ".bin") → P (ext_for ct)
  at_key P j b = elim (ext_for-cases ct) [ inl q ↦ subst P (sym q) j | inr q ↦ subst P (sym q) b ]

  put_key-Answers :
      (fs' : MemFs)
      → IsPut
          (key_for prefix seq (ext_for ct))
          payload
          (new_metadata (some (txn_header txn)) [])
          fs
          fs'
      → Answers percent_encode prefix seq payload txn fs'
  put_key-Answers fs' =
      at_key
        (λ (e : Text).
          IsPut (key_for prefix seq e) payload (new_metadata (some (txn_header txn)) []) fs fs'
          → Answers percent_encode prefix seq payload txn fs')
        (λ put. json-Answers percent_encode prefix seq txn payload fs fs' json_key bin_key fits put)
        (λ put.
          bin-Answers percent_encode prefix seq txn payload fs fs' json_key bin_key fits put
            no_json)

  -- Over the in-memory file system, for a number whose two keys are canonical paths without an
  -- object: put_next succeeds with the number, whatever the content type; then get_with_etag answers
  -- the payload with a tag, and load_meta the transaction, for every u64 transaction.
  pub put_next-Answers :
      let o =
        put_next (mem_files percent_encode) mem_cas percent_encode prefix seq txn payload ct fs in
      (o.0 ≡ ok seq) × Answers percent_encode prefix seq payload txn o.1
  put_next-Answers =
      rw
        (put_next_fresh percent_encode prefix seq txn payload ct fs
          (at_key (λ (e : Text). parse (key_for prefix seq e) ≡ ok (key_for prefix seq e)) json_key
            bin_key)
          (at_key (λ (e : Text). find (key_for prefix seq e) fs ≡ none) no_json no_bin))
        (
          refl,
          put_key-Answers _ (
              put_new-IsPut (key_for prefix seq (ext_for ct)) payload (type_of ct)
                (some (txn_header txn)) fs),
        )
