-- ===== src/Examples/Checkpoints.antt =====
-- A checkpoint over the in-memory file system at concrete inputs.
use fusio.Base.{
  ◌≡◌, ◌≢◌, refl, ap, [], ◌∷◌, Option, none, some, Text, Text-discrete, codes, length, arith,
}
use fusio.Effect.{ok}
use fusio.Path.{from, is_invalid}
use fusio.Decimal.{padded20}
use fusio.Memory.{MemFs}
use fusio.Manifest.Types.{CheckpointMeta}
use fusio.Manifest.Table
use fusio.Manifest.InMemory.{mem_cas}
use fusio.Manifest.Files.{mem_files}
use fusio.Manifest.Checkpoints.{MetaCodec, new, meta_key, data_key, put_checkpoint}
use fusio.Manifest.Checkpoints.Stored.{IsGot, put_checkpoint-IsGot}
use fusio.Examples.Stores.{encode, no_files}

abbrev flat_meta : CheckpointMeta → Text
flat_meta m =
    m.lsn ∷ m.key_count ∷ m.byte_size ∷ m.created_at_ms ∷ m.last_segment_seq_at_ckpt ∷ m.format

abbrev to_meta : Text → Option CheckpointMeta
to_meta (l ∷ k ∷ b ∷ c ∷ s ∷ f) = some (record {
  lsn = l;
  key_count = k;
  byte_size = b;
  created_at_ms = c;
  format = f;
  last_segment_seq_at_ckpt = s;
})
to_meta _ = none

abbrev meta_codec : MetaCodec
meta_codec = record { encode_meta = λ m. some (flat_meta m); decode_meta = to_meta }

abbrev nine : CheckpointMeta
nine = record {
  lsn = 9;
  key_count = 2;
  byte_size = 3;
  created_at_ms = 1000;
  format = codes "text/plain";
  last_segment_seq_at_ckpt = 4;
}

abbrev path_json : Text
path_json = codes "db/checkpoints/ckpt-00000000000000000009.json"

abbrev path_bin : Text
path_bin = codes "db/checkpoints/ckpt-00000000000000000009.bin"

abbrev path_meta : Text
path_meta = codes "db/checkpoints/ckpt-00000000000000000009.meta.json"

length_ne : (s t : Text) → length s ≢ length t → s ≢ t
length_ne s t n e = n (ap (λ (z : Text). length z) e)

checkpoint_example :
    (fs' : MemFs) × (put_checkpoint
        (mem_files encode)
        mem_cas
        meta_codec
        encode
        (codes "db")
        nine
        (1 ∷ 2 ∷ 3 ∷ [])
        (codes "text/plain")
        no_files
      ≡ (ok (new 9), fs'))
    × IsGot meta_codec encode (codes "db") nine (1 ∷ 2 ∷ 3 ∷ []) (flat_meta nine) refl refl fs'
unfolding from is_invalid padded20 Table.get meta_key data_key new Text-discrete
checkpoint_example =
    put_checkpoint-IsGot meta_codec encode (codes "db") nine (1 ∷ 2 ∷ 3 ∷ []) (flat_meta nine) refl
      refl (codes "text/plain") no_files refl refl refl
      (length_ne path_json path_meta (λ e. omega (arith, e)))
      (length_ne path_bin path_meta (λ e. omega (arith, e)))
      (length_ne path_bin path_json (λ e. omega (arith, e)))
