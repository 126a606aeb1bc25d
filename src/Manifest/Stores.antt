-- ===== src/Manifest/Stores.antt =====
-- What the manifest is generic over: the traits HeadStore, SegmentIo, CheckpointStore and
-- LeaseStore, the timer, and serde_json. A call may fail, and may change the state `W` of the world.
-- Payloads are byte strings; times are milliseconds since the epoch.
use fusio.Base.{ℕ, ◌≡◌, Option, some, List, Text}
use fusio.Effect.{Exec}
use fusio.Manifest.Types.{
  Error, HeadJson, PutCondition, Segment, CheckpointMeta, LeaseHandle, ActiveLease,
}

pub record Stores (W : Type 0) : Type 0 where
  pub head_load : Exec Error W (Option (HeadJson × Text))
  pub head_put : HeadJson → PutCondition → Exec Error W Text
  pub seg_put_next : ℕ → ℕ → Text → Text → Exec Error W ℕ
  pub seg_get : ℕ → Exec Error W Text
  pub seg_load_meta : ℕ → Exec Error W ℕ
  pub seg_list_from : ℕ → ℕ → Exec Error W (List ℕ)
  pub seg_delete_upto : ℕ → Exec Error W Unit
  pub ckpt_put : CheckpointMeta → Text → Text → Exec Error W Text
  pub ckpt_get : Text → Exec Error W (CheckpointMeta × Text)
  pub ckpt_get_meta : Text → Exec Error W CheckpointMeta
  pub ckpt_list : Exec Error W (List (Text × CheckpointMeta))
  pub ckpt_delete : Text → Exec Error W Unit
  pub lease_create : ℕ → Option Text → ℕ → Exec Error W LeaseHandle
  pub lease_heartbeat : LeaseHandle → ℕ → Exec Error W Unit
  pub lease_release : LeaseHandle → Exec Error W Unit
  pub lease_list_active : ℕ → Exec Error W (List ActiveLease)
  pub now : W → ℕ
  pub sleep : ℕ → W → W

-- serde_json on segments, checkpoint payloads, keys and values; `none` is a serde error.
pub record Codec (K V : Type 0) : Type 0 where
  pub encode_segment : Segment K V → Option Text
  pub decode_segment : Text → Option (Segment K V)
  pub encode_entries : List (K × V) → Option Text
  pub decode_entries : Text → Option (List (K × V))
  pub clone_key : K → Option K
  pub clone_value : V → Option V

-- What serde_json documents: a value that was encoded decodes to itself.
pub record IsCodec {K V : Type 0} (c : Codec K V) : Type 0 where
  pub segment_back :
      (s : Segment K V) (b : Text) → c.encode_segment s ≡ some b → c.decode_segment b ≡ some s
  pub entries_back :
      (es : List (K × V)) (b : Text) → c.encode_entries es ≡ some b → c.decode_entries b ≡ some es
