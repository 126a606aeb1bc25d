-- ===== src/Manifest/Heads.antt =====
-- What a HEAD store promises its clients: the conditional put is atomic, and no other call of the
-- stores changes HEAD. `head_of` is HEAD as the world holds it.
use fusio.Base.{ℕ, ◌≡◌, ◌≢◌, Option, none, some, Text}
use fusio.Effect.{Result, ok, spent}
use fusio.Manifest.Types.{
  Error, HeadJson, PutCondition, if_not_exists, if_match, LeaseHandle, CheckpointMeta,
}
use fusio.Manifest.Stores.{Stores}

abbrev pub Head : Type 0
Head = Option (HeadJson × Text)

-- The condition holds of the current HEAD.
abbrev pub Meets : PutCondition → Head → Type 0
Meets if_not_exists h = h ≡ none
Meets (if_match t) h = (j : HeadJson) × (h ≡ some (j, t))

-- What a put has done, by its answer.
abbrev pub Put : HeadJson → PutCondition → Head → Head → Result Error Text → Type 0
Put h c before after (ok t) = Meets c before × (after ≡ some (h, t))
Put h c before after _ = after ≡ before

-- What a load has answered.
abbrev pub Loaded : Head → Result Error Head → Type 0
Loaded before (ok r) = r ≡ before
Loaded before _ = Unit

pub record HeadLaws {W : Type 0} (st : Stores W) (head_of : W → Head) : Type 0 where
  pub load_answer : (w : W) → Loaded (head_of w) (st.head_load w).0
  pub load_keeps : (w : W) → head_of (st.head_load w).1 ≡ head_of w
  pub put_lem :
      (h : HeadJson) (c : PutCondition) (w : W)
      → Put h c (head_of w) (head_of (st.head_put h c w).1) (st.head_put h c w).0
  pub seg_put_keeps :
      (seq txn : ℕ) (payload ct : Text) (w : W)
      → head_of (st.seg_put_next seq txn payload ct w).1 ≡ head_of w
  pub seg_get_keeps : (seq : ℕ) (w : W) → head_of (st.seg_get seq w).1 ≡ head_of w
  pub meta_keeps : (seq : ℕ) (w : W) → head_of (st.seg_load_meta seq w).1 ≡ head_of w
  pub list_keeps : (n limit : ℕ) (w : W) → head_of (st.seg_list_from n limit w).1 ≡ head_of w
  pub ckpt_put_keeps :
      (m : CheckpointMeta) (payload ct : Text) (w : W)
      → head_of (st.ckpt_put m payload ct w).1 ≡ head_of w
  pub ckpt_get_keeps : (id : Text) (w : W) → head_of (st.ckpt_get id w).1 ≡ head_of w
  pub ckpt_list_keeps : (w : W) → head_of (st.ckpt_list w).1 ≡ head_of w
  pub active_keeps : (now : ℕ) (w : W) → head_of (st.lease_list_active now w).1 ≡ head_of w
  pub release_keeps : (l : LeaseHandle) (w : W) → head_of (st.lease_release l w).1 ≡ head_of w
  pub sleep_keeps : (delay : ℕ) (w : W) → head_of (st.sleep delay w) ≡ head_of w
  -- A call of a store always has an answer.
  pub release_answers : (l : LeaseHandle) (w : W) → (st.lease_release l w).0 ≢ spent
