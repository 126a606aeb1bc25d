-- ===== src/Examples/World.antt =====
-- A small world: the stores of the manifest over lists, with numbers for keys and values.
use fusio.Base.{
  ℕ, zero, suc, ◌+◌, ◌≡◌, refl, ap, List, [], ◌∷◌, ◌++◌, take, Option, none, some, Text, codes,
  ◌==◌, if◌then◌else◌, Text-discrete,
}
use fusio.Effect.{Result, ok, err, spent}
use fusio.Manifest.Types.{
  Error, precondition_failed, other, op_put, op_del, Record, Segment, HeadJson, PutCondition,
  if_not_exists, if_match, CheckpointMeta, ActiveLease,
}
use fusio.Manifest.Stores.{Stores, Codec}
use fusio.Manifest.Plan.{GcPlan, PlanStore}
use fusio.Manifest.Compactor.Head.{PlanKeeps}
use fusio.Manifest.Heads.{Meets, Head, Put, HeadLaws}
use fusio.Manifest.Session.Rest.{from, seqs}

-- Records and segments as numbers, three for each record behind the transaction.
abbrev pub flat : List (Record ℕ ℕ) → Text
flat [] = []
flat (r ∷ rs) = elim r.op [
  | op_del ↦ 0 ∷ r.key ∷ 0 ∷ flat rs
  | op_put ↦ elim r.value [ none ↦ 1 ∷ r.key ∷ 0 ∷ flat rs | some v ↦ 2 ∷ r.key ∷ v ∷ flat rs ]
]

abbrev pub unflat : Text → List (Record ℕ ℕ)
unflat (zero ∷ k ∷ v ∷ rest) = record { key = k; op = op_del; value = none } ∷ unflat rest
unflat (suc zero ∷ k ∷ v ∷ rest) = record { key = k; op = op_put; value = none } ∷ unflat rest
unflat (suc (suc _) ∷ k ∷ v ∷ rest) = record { key = k; op = op_put; value = some v } ∷ unflat rest
unflat _ = []

abbrev pub to_segment : Text → Option (Segment ℕ ℕ)
to_segment [] = none
to_segment (t ∷ rs) = some (record { txn_id = t; records = unflat rs })

abbrev pub flat_entries : List (ℕ × ℕ) → Text
flat_entries [] = []
flat_entries ((k, v) ∷ es) = k ∷ v ∷ flat_entries es

abbrev pub unflat_entries : Text → List (ℕ × ℕ)
unflat_entries (k ∷ v ∷ es) = (k, v) ∷ unflat_entries es
unflat_entries _ = []

abbrev pub small_codec : Codec ℕ ℕ
small_codec = record {
  encode_segment = λ s. some (s.txn_id ∷ flat s.records);
  decode_segment = to_segment;
  encode_entries = λ es. some (flat_entries es);
  decode_entries = λ b. some (unflat_entries b);
  clone_key = some;
  clone_value = some;
}

pub record World : Type 0 where
  pub head : Head
  pub segs : List (ℕ × Segment ℕ ℕ)
  pub ckpts : List (Text × (CheckpointMeta × Text))
  pub leases : List ActiveLease
  pub plan : Option (GcPlan × Text)
  pub clock : ℕ

abbrev pub head_of : World → Head
head_of w = w.head

abbrev find_seg : ℕ → List (ℕ × Segment ℕ ℕ) → Option (Segment ℕ ℕ)
find_seg seq [] = none
find_seg seq ((i, s) ∷ xs) = if i == seq then some s else find_seg seq xs

abbrev get_seg : Option (Segment ℕ ℕ) → World → Result Error Text × World
get_seg none w = (err other, w)
get_seg (some s) w = (ok (s.txn_id ∷ flat s.records), w)

abbrev seg_txn : Option (Segment ℕ ℕ) → World → Result Error ℕ × World
seg_txn none w = (err other, w)
seg_txn (some s) w = (ok s.txn_id, w)

abbrev add_seg : ℕ → Option (Segment ℕ ℕ) → World → Result Error ℕ × World
add_seg seq none w =
    (ok seq, record w { segs = w.segs ++ ((seq, record { txn_id = 0; records = [] }) ∷ []) })
add_seg seq (some s) w = (ok seq, record w { segs = w.segs ++ ((seq, s) ∷ []) })

abbrev find_ckpt : Text → List (Text × (CheckpointMeta × Text)) → Option (CheckpointMeta × Text)
find_ckpt id [] = none
find_ckpt id ((i, c) ∷ xs) = elim (Text-discrete i id) [ yes _ ↦ some c | no _ ↦ find_ckpt id xs ]

abbrev get_ckpt :
    Option (CheckpointMeta × Text) → World → Result Error (CheckpointMeta × Text) × World
get_ckpt none w = (err other, w)
get_ckpt (some c) w = (ok c, w)

abbrev get_meta : Option (CheckpointMeta × Text) → World → Result Error CheckpointMeta × World
get_meta none w = (err other, w)
get_meta (some c) w = (ok (c.0), w)

abbrev listed : List (Text × (CheckpointMeta × Text)) → List (Text × CheckpointMeta)
listed [] = []
listed ((i, c) ∷ xs) = (i, c.0) ∷ listed xs

-- The tag after a tag.
abbrev bumped : Text → Text
bumped t = 1 ∷ t

abbrev put_decided : {u t : Text} → HeadJson → Dec (u ≡ t) → World → Result Error Text × World
put_decided {u = u} h (yes _) w = (ok (bumped u), record w { head = some (h, bumped u) })
put_decided h (no _) w = (err precondition_failed, w)

abbrev put_if_tag : HeadJson → Text → Head → World → Result Error Text × World
put_if_tag h t none w = (err precondition_failed, w)
put_if_tag h t (some (j, u)) w = put_decided h (Text-discrete u t) w

abbrev put_first : HeadJson → Head → World → Result Error Text × World
put_first h none w = (ok (codes "0"), record w { head = some (h, codes "0") })
put_first h (some _) w = (err precondition_failed, w)

abbrev pub put_head : HeadJson → PutCondition → World → Result Error Text × World
put_head h if_not_exists w = put_first h w.head w
put_head h (if_match t) w = put_if_tag h t w.head w

abbrev pub small_stores : Stores World
small_stores = record {
  head_load = λ w. (ok w.head, w);
  head_put = put_head;
  seg_put_next = λ seq txn payload ct w. add_seg seq (to_segment payload) w;
  seg_get = λ seq w. get_seg (find_seg seq w.segs) w;
  seg_load_meta = λ seq w. seg_txn (find_seg seq w.segs) w;
  seg_list_from = λ n limit w. (ok (take limit (seqs (from n w.segs))), w);
  seg_delete_upto = λ n w. (ok tt, record w { segs = from (suc n) w.segs });
  ckpt_put =
      λ m payload ct w. (ok (codes "c"), record w { ckpts = (codes "c", (m, payload)) ∷ w.ckpts });
  ckpt_get = λ id w. get_ckpt (find_ckpt id w.ckpts) w;
  ckpt_get_meta = λ id w. get_meta (find_ckpt id w.ckpts) w;
  ckpt_list = λ w. (ok (listed w.ckpts), w);
  ckpt_delete = λ id w. (ok tt, record w { ckpts = [] });
  lease_create = λ txn tag ttl w. (ok (record { id = codes "l"; snapshot_txn_id = txn }), w);
  lease_heartbeat = λ l ttl w. (ok tt, w);
  lease_release = λ l w. (ok tt, w);
  lease_list_active = λ now w. (ok w.leases, w);
  now = λ w. w.clock;
  sleep = λ delay w. record w { clock = w.clock + delay };
}

put_decided_lem :
    (h j : HeadJson) (u t : Text) (d : Dec (u ≡ t)) (w : World)
    → w.head ≡ some (j, u)
    → Put h (if_match t) (some (j, u)) (put_decided h d w).1.head (put_decided h d w).0
put_decided_lem h j u t (yes p) w e = ((j, ap (λ x. some (j, x)) p), refl)
put_decided_lem h j u t (no n) w e = e

put_if_tag_lem :
    (h : HeadJson) (t : Text) (o : Head) (w : World)
    → w.head ≡ o
    → Put h (if_match t) o (put_if_tag h t o w).1.head (put_if_tag h t o w).0
put_if_tag_lem h t none w e = e
put_if_tag_lem h t (some (j, u)) w e = put_decided_lem h j u t (Text-discrete u t) w e

put_first_lem :
    (h : HeadJson) (o : Head) (w : World)
    → w.head ≡ o
    → Put h if_not_exists o (put_first h o w).1.head (put_first h o w).0
put_first_lem h none w e = (refl, refl)
put_first_lem h (some x) w e = e

put_head_lem :
    (h : HeadJson) (c : PutCondition) (w : World)
    → Put h c (head_of w) (put_head h c w).1.head (put_head h c w).0
put_head_lem h if_not_exists w = put_first_lem h w.head w refl
put_head_lem h (if_match t) w = put_if_tag_lem h t w.head w refl

add_seg_keeps : (seq : ℕ) (o : Option (Segment ℕ ℕ)) (w : World) → (add_seg seq o w).1.head ≡ w.head
add_seg_keeps seq none w = refl
add_seg_keeps seq (some s) w = refl

get_seg_keeps : (o : Option (Segment ℕ ℕ)) (w : World) → (get_seg o w).1.head ≡ w.head
get_seg_keeps none w = refl
get_seg_keeps (some s) w = refl

seg_txn_keeps : (o : Option (Segment ℕ ℕ)) (w : World) → (seg_txn o w).1.head ≡ w.head
seg_txn_keeps none w = refl
seg_txn_keeps (some s) w = refl

get_ckpt_keeps : (o : Option (CheckpointMeta × Text)) (w : World) → (get_ckpt o w).1.head ≡ w.head
get_ckpt_keeps none w = refl
get_ckpt_keeps (some s) w = refl

ok-ne-spent : {A : Type 0} (a : A) → ◌≡◌ {A = Result Error A} (ok a) spent → ⊥
ok-ne-spent a e = cc

pub small_laws : HeadLaws small_stores head_of
small_laws = record {
  load_answer = λ w. refl;
  load_keeps = λ w. refl;
  put_lem = put_head_lem;
  seg_put_keeps = λ seq txn payload ct w. add_seg_keeps seq (to_segment payload) w;
  seg_get_keeps = λ seq w. get_seg_keeps (find_seg seq w.segs) w;
  meta_keeps = λ seq w. seg_txn_keeps (find_seg seq w.segs) w;
  list_keeps = λ n limit w. refl;
  ckpt_put_keeps = λ m payload ct w. refl;
  ckpt_get_keeps = λ id w. get_ckpt_keeps (find_ckpt id w.ckpts) w;
  ckpt_list_keeps = λ w. refl;
  active_keeps = λ now w. refl;
  release_keeps = λ l w. refl;
  sleep_keeps = λ delay w. refl;
  release_answers = λ l w. ok-ne-spent tt;
}

abbrev pub small_plans : PlanStore World
small_plans = record {
  load = λ w. (ok w.plan, w);
  put = λ p c w. (ok (codes "p"), record w { plan = some (p, codes "p") });
}

pub small_plans-PlanKeeps : PlanKeeps small_plans head_of
small_plans-PlanKeeps = record { load_keeps = λ w. refl; put_keeps = λ p c w. refl }

put_decided_ok :
    (h : HeadJson) (u t : Text) (d : Dec (u ≡ t)) (w : World)
    → u ≡ t
    → (x : Text) × ((put_decided h d w).0 ≡ ok x)
put_decided_ok h u t (yes p) w e = (bumped u, refl)
put_decided_ok h u t (no n) w e = absurd (n e)

put_if_tag_ok :
    (h j : HeadJson) (t : Text) (o : Head) (w : World)
    → o ≡ some (j, t)
    → (x : Text) × ((put_if_tag h t o w).0 ≡ ok x)
put_if_tag_ok h j t none w e = cc
put_if_tag_ok h j t (some (i, u)) w e = put_decided_ok h u t (Text-discrete u t) w cc

put_first_ok :
    (h : HeadJson) (o : Head) (w : World) → o ≡ none → (x : Text) × ((put_first h o w).0 ≡ ok x)
put_first_ok h none w e = (codes "0", refl)
put_first_ok h (some x) w e = cc

pub put_head_ok :
    (h : HeadJson) (c : PutCondition) (w : World)
    → Meets c w.head
    → (x : Text) × ((put_head h c w).0 ≡ ok x)
put_head_ok h if_not_exists w m = put_first_ok h w.head w m
put_head_ok h (if_match t) w (j, e) = put_if_tag_ok h j t w.head w e
