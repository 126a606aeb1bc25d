-- ===== src/Manifest/Compactor/Pointed.antt =====
-- HEAD with another checkpoint: what compact_once and gc_apply put in its place.
use fusio.Base.{◌≡◌, refl, none, some, Text}
use fusio.Manifest.Types.{HeadJson}
use fusio.Manifest.Heads.{Head}
use fusio.Manifest.Compactor.Compact.{compacted_head}
use fusio.Manifest.Compactor.Gc.{retarget}

-- The new HEAD has this checkpoint, and for the rest the contents of the old one.
pub record Repointed (old : HeadJson) (id : Text) (new : HeadJson) : Type 0 where
  pub version : new.version ≡ old.version
  pub checkpoint : new.checkpoint_id ≡ some id
  pub last_segment : new.last_segment_seq ≡ old.last_segment_seq
  pub last_txn : new.last_txn_id ≡ old.last_txn_id

-- A HEAD of the first version with a checkpoint, and no segments and transactions.
pub record IsFirst (id : Text) (new : HeadJson) : Type 0 where
  pub version : new.version ≡ 1
  pub checkpoint : new.checkpoint_id ≡ some id
  pub last_segment : new.last_segment_seq ≡ none
  pub last_txn : new.last_txn_id ≡ 0

-- What HEAD holds after a checkpoint has been put into it.
abbrev pub Pointed : Head → Text → HeadJson → Type 0
Pointed none id new = IsFirst id new
Pointed (some (old, _)) id new = Repointed old id new

pub compacted_head-Pointed :
    (before : Head) (id : Text) → Pointed before id (compacted_head id before)
unfolding compacted_head
compacted_head-Pointed none id = record {
  version = refl;
  checkpoint = refl;
  last_segment = refl;
  last_txn = refl;
}
compacted_head-Pointed (some (old, t)) id = record {
  version = refl;
  checkpoint = refl;
  last_segment = refl;
  last_txn = refl;
}

pub retarget-Repointed : (cur : HeadJson) (id : Text) → Repointed cur id (retarget cur id)
unfolding retarget
retarget-Repointed cur id = record {
  version = refl;
  checkpoint = refl;
  last_segment = refl;
  last_txn = refl;
}
