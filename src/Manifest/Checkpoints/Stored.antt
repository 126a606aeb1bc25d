-- ===== src/Manifest/Checkpoints/Stored.antt =====
-- Checkpoints over the in-memory file system: what put_checkpoint stores is what get_checkpoint
-- answers.
use fusio.Base.{
  ℕ, ◌+◌, ◌%◌, ◌≡◌, ◌≢◌, ◌∙◌, ◌⊎◌, refl, sym, ap, subst, inl, inr, none, some, Bool, length, le→ltb,
  Text, Text-discrete, codes, arith,
}
use fusio.Effect.{ok, err}
use fusio.Path.{from}
use fusio.Memory
use fusio.Memory.{MemFs, find, entry_at, object, loaded, next_count, new_entry}
use fusio.Memory.Hex.{hex16}
use fusio.Memory.Written.{IsWritten, appended-IsWritten, three_changes, emptied, filled, tagged}
use fusio.Manifest.Types.{corrupt, CheckpointMeta}
use fusio.Manifest.InMemory.{mem_cas}
use fusio.Manifest.Files.{mem_files, converted, of_io, or_else_corrupt, or_if_corrupt}
use fusio.Manifest.Segments.{present, json_type}
use fusio.Manifest.Segments.Stored.{ite_cases}
use fusio.Manifest.Checkpoints.{
  MetaCodec, new, meta_key, data_key, payload_ext_for, write_object, put_checkpoint, read_meta,
  load_meta, load_payload, get_checkpoint_with_etag,
}

module _ (codec : MetaCodec) (percent_encode : (ℕ → Bool) → Text → Text) (prefix : Text) where
  -- At a path without an object, write_object answers Ok and writes the bytes to a new entry.
  write_object-IsWritten :
      (key bytes : Text) (fs : MemFs)
      → find (from percent_encode key) fs ≡ none
      → (fs' : MemFs) × (write_object
            (mem_files percent_encode)
            mem_cas
            codec
            percent_encode
            prefix
            key
            bytes
            fs
          ≡ (ok tt, fs'))
        × IsWritten (from percent_encode key) bytes fs fs'
  unfolding write_object converted of_io Memory.open_options Memory.or_create_entry
      Memory.create_entry Memory.next_tag next_count Memory.insert_entry Memory.open_file
      Memory.defaulted Memory.update Memory.write_all Memory.commit
  write_object-IsWritten key bytes fs free =
      let first = hex16 (next_count fs) in
      let last = hex16 ((next_count fs + 1) % 18446744073709551616) in
      rw free (
        _,
        refl,
        appended-IsWritten (from percent_encode key) bytes
            (tagged last (filled bytes (emptied (new_entry first)))) fs _ refl
            (three_changes emptied (filled bytes) (tagged last) (new_entry first) fs.heap) refl,
      )

  read_meta_back :
      (p bytes : Text) (id : ℕ) (m : CheckpointMeta) (fs : MemFs)
      → find p fs ≡ some id
      → (entry_at id fs.heap).content ≡ bytes
      → codec.decode_meta bytes ≡ some m
      → read_meta (mem_files percent_encode) mem_cas codec percent_encode prefix p fs ≡ (ok m, fs)
  unfolding read_meta converted of_io Memory.open_options Memory.or_create_entry Memory.create_entry
      Memory.open_file Memory.defaulted Memory.read_to_end_at
  read_meta_back p bytes id m fs f c d = rw (f, c, le→ltb (length bytes) 0 (omega arith), d) refl

  payload_found :
      (key bytes tag : Text) (fs : MemFs)
      → object (from percent_encode key) fs ≡ some (bytes, tag)
      → load_payload (mem_files percent_encode) mem_cas codec percent_encode prefix key fs
        ≡ (ok (bytes, some tag), fs)
  unfolding load_payload converted of_io present Memory.load_with_tag
  payload_found key bytes tag fs e = rw e refl

  payload_missing :
      (key : Text) (fs : MemFs)
      → object (from percent_encode key) fs ≡ none
      → load_payload (mem_files percent_encode) mem_cas codec percent_encode prefix key fs
        ≡ (err corrupt, fs)
  unfolding load_payload converted of_io present Memory.load_with_tag
  payload_missing key fs e = rw e refl

  object_at :
      (p bytes : Text) (id : ℕ) (fs : MemFs)
      → find p fs ≡ some id
      → (entry_at id fs.heap).content ≡ bytes
      → object p fs ≡ some (bytes, (entry_at id fs.heap).etag)
  unfolding object loaded
  object_at p bytes id fs f c = rw (f, c) refl

  object-none : (p : Text) (fs : MemFs) → find p fs ≡ none → object p fs ≡ none
  unfolding object loaded
  object-none p fs f = rw f refl

payload_ext_for-cases :
    (ct : Text) → (payload_ext_for ct ≡ codes ".json") ⊎ (payload_ext_for ct ≡ codes ".bin")
unfolding payload_ext_for
payload_ext_for-cases ct = ite_cases (Text-discrete ct json_type) (codes ".json") (codes ".bin")

module _ (codec : MetaCodec) (percent_encode : (ℕ → Bool) → Text → Text) (prefix : Text)
    (meta : CheckpointMeta) (payload bytes : Text) (encoded : codec.encode_meta meta ≡ some bytes)
    (decoded : codec.decode_meta bytes ≡ some meta) where
  -- The paths of the metadata and of the payload with an extension.
  abbrev pub meta_path : Text
  meta_path = from percent_encode (meta_key prefix (new meta.lsn))

  abbrev pub data_path : Text → Text
  data_path ext = from percent_encode (data_key prefix (new meta.lsn) ext)

  -- What a checkpoint with a payload in this path leaves.
  record Stored (ext : Text) (before after : MemFs) : Type 0 where
    at_meta : (n : ℕ) × (find meta_path after ≡ some n) × ((entry_at n after.heap).content ≡ bytes)
    at_data : (t : Text) × (object (data_path ext) after ≡ some (payload, t))
    elsewhere : (k : Text) → data_path ext ≢ k → meta_path ≢ k → find k after ≡ find k before

  put-Stored :
      (ct : Text) (fs : MemFs)
      → find (data_path (payload_ext_for ct)) fs ≡ none
      → find meta_path fs ≡ none
      → data_path (payload_ext_for ct) ≢ meta_path
      → (fs' : MemFs) × (put_checkpoint
            (mem_files percent_encode)
            mem_cas
            codec
            percent_encode
            prefix
            meta
            payload
            ct
            fs
          ≡ (ok (new meta.lsn), fs'))
        × Stored (payload_ext_for ct) fs fs'
  unfolding put_checkpoint
  put-Stored ct fs no_data no_meta ne =
      let path = data_path (payload_ext_for ct) in
      let (fs1, e1, one) =
        write_object-IsWritten codec percent_encode prefix
          (data_key prefix (new meta.lsn) (payload_ext_for ct)) payload fs no_data in
      let (fs2, e2, two) =
        write_object-IsWritten codec percent_encode prefix (meta_key prefix (new meta.lsn)) bytes
          fs1 (one.others meta_path ne ∙ no_meta) in
      let long = one.longer in
      rw (e1, encoded, e2)
        (
          fs2,
          refl,
          record {
            at_meta = (length fs1.heap, two.found, two.holds);
            at_data = (
              (entry_at (length fs.heap) fs2.heap).etag,
              object_at codec percent_encode prefix path payload (length fs.heap) fs2
                  (two.others path (λ q. ne (sym q)) ∙ one.found)
                  (ap (λ (x : Memory.EntryState). x.content)
                      (two.kept (length fs.heap) (omega (arith, long)))
                    ∙ one.holds),
            );
            elsewhere = λ k a b. two.others k b ∙ one.others k a;
          },
        )

  abbrev pub IsGot : MemFs → Type 0
  IsGot fs =
      (t : Text) × (get_checkpoint_with_etag (mem_files percent_encode) mem_cas codec percent_encode
          prefix (new meta.lsn) fs
        ≡ (ok (meta, (payload, some t)), fs))

  json-IsGot : (fs fs' : MemFs) → Stored (codes ".json") fs fs' → IsGot fs'
  unfolding get_checkpoint_with_etag load_meta or_else_corrupt or_if_corrupt
  json-IsGot fs fs' s =
      let (n, f, c) = s.at_meta in
      let (t, o) = s.at_data in
      (
        t,
        rw
            (
              read_meta_back codec percent_encode prefix meta_path bytes n meta fs' f c decoded,
              payload_found codec percent_encode prefix
                  (data_key prefix (new meta.lsn) (codes ".json")) payload t fs' o,
            )
            refl,
      )

  bin-IsGot :
      (fs fs' : MemFs)
      → find (data_path (codes ".json")) fs ≡ none
      → data_path (codes ".bin") ≢ data_path (codes ".json")
      → meta_path ≢ data_path (codes ".json")
      → Stored (codes ".bin") fs fs'
      → IsGot fs'
  unfolding get_checkpoint_with_etag load_meta or_else_corrupt or_if_corrupt
  bin-IsGot fs fs' no_json a b s =
      let (n, f, c) = s.at_meta in
      let (t, o) = s.at_data in
      (
        t,
        rw
            (
              read_meta_back codec percent_encode prefix meta_path bytes n meta fs' f c decoded,
              payload_missing codec percent_encode prefix
                  (data_key prefix (new meta.lsn) (codes ".json")) fs'
                  (object-none codec percent_encode prefix (data_path (codes ".json")) fs'
                    (s.elsewhere (data_path (codes ".json")) a b ∙ no_json)),
              payload_found codec percent_encode prefix
                  (data_key prefix (new meta.lsn) (codes ".bin")) payload t fs' o,
            )
            refl,
      )

  -- Over the in-memory file system, for metadata that serde_json encodes and decodes back, and a
  -- checkpoint whose three paths are different and have no object: put_checkpoint answers Ok with the
  -- id of the LSN, whatever the content type, and then get_checkpoint_with_etag of this id answers the
  -- metadata, the payload and a tag.
  pub put_checkpoint-IsGot :
      (ct : Text) (fs : MemFs)
      → find (data_path (codes ".json")) fs ≡ none
      → find (data_path (codes ".bin")) fs ≡ none
      → find meta_path fs ≡ none
      → data_path (codes ".json") ≢ meta_path
      → data_path (codes ".bin") ≢ meta_path
      → data_path (codes ".bin") ≢ data_path (codes ".json")
      → (fs' : MemFs) × (put_checkpoint
            (mem_files percent_encode)
            mem_cas
            codec
            percent_encode
            prefix
            meta
            payload
            ct
            fs
          ≡ (ok (new meta.lsn), fs'))
        × IsGot fs'
  put_checkpoint-IsGot ct fs no_json no_bin no_meta a b c = elim (payload_ext_for-cases ct) [
    | inl q ↦
        (let (fs', e, s) =
            put-Stored ct fs (subst (λ (x : Text). find (data_path x) fs ≡ none) (sym q) no_json)
              no_meta (subst (λ (x : Text). data_path x ≢ meta_path) (sym q) a) in
          (fs', e, json-IsGot fs fs' (subst (λ (x : Text). Stored x fs fs') q s)))
    | inr q ↦
        (let (fs', e, s) =
            put-Stored ct fs (subst (λ (x : Text). find (data_path x) fs ≡ none) (sym q) no_bin)
              no_meta (subst (λ (x : Text). data_path x ≢ meta_path) (sym q) b) in
          (
            fs',
            e,
            bin-IsGot fs fs' no_json c (λ z. a (sym z)) (subst (λ (x : Text). Stored x fs fs') q s),
          ))
  ]
