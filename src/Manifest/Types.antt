-- ===== src/Manifest/Types.antt =====
-- fusio-manifest/src/types.rs, snapshot.rs, head.rs (data), manifest.rs (data), and the errors of
-- fusio-core/src/error.rs. Messages of errors are left out.
use fusio.Base.{ℕ, List, Option, Text}

-- `std::io::ErrorKind`, as far as the code tells the kinds apart.
pub data IoKind : Type 0 where
  not_found unexpected_eof other_kind : IoKind

-- fusio_core::error::Error
pub data FsError : Type 0 where
  fs_io : IoKind → FsError
  path remote unsupported fs_precondition_failed cast_error wasm fs_other : FsError

-- types.rs: Error
pub data Error : Type 0 where
  unimplemented precondition_failed corrupt other : Error
  io : FsError → Error

-- head.rs: HeadTag, and the conditions of a conditional put.
pub data PutCondition : Type 0 where
  if_not_exists : PutCondition
  if_match : Text → PutCondition

pub record HeadJson : Type 0 where
  pub version : ℕ
  pub checkpoint_id : Option Text
  pub last_segment_seq : Option ℕ
  pub last_txn_id : ℕ

-- snapshot.rs
pub record Snapshot : Type 0 where
  pub head_tag : Option Text
  pub txn_id : ℕ
  pub last_segment_seq : Option ℕ
  pub checkpoint_seq : Option ℕ
  pub checkpoint_id : Option Text

pub record ScanRange (K : Type 0) : Type 0 where
  pub start : Option K
  pub end : Option K

-- manifest.rs
pub data Op : Type 0 where
  op_put op_del : Op

pub record Record (K V : Type 0) : Type 0 where
  pub key : K
  pub op : Op
  pub value : Option V

pub record Segment (K V : Type 0) : Type 0 where
  pub txn_id : ℕ
  pub records : List (Record K V)

-- checkpoint.rs
pub record CheckpointMeta : Type 0 where
  pub lsn : ℕ
  pub key_count : ℕ
  pub byte_size : ℕ
  pub created_at_ms : ℕ
  pub format : Text
  pub last_segment_seq_at_ckpt : ℕ

-- lease/mod.rs
pub record LeaseHandle : Type 0 where
  pub id : Text
  pub snapshot_txn_id : ℕ

pub record ActiveLease : Type 0 where
  pub id : Text
  pub snapshot_txn_id : ℕ
  pub expires_at : ℕ
