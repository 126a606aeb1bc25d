-- ===== src/Examples/Filed.antt =====
-- The small world with the segments as files: SegmentStoreImpl over the in-memory file system.
use fusio.Base.{
  ℕ, ◌≡◌, ◌≤◌, ◌∙◌, refl, sym, subst, ap, List, [], ◌∷◌, take, keep, leb, ◌==◌, if◌then◌else◌, some,
  none, Text, Text-discrete, ite, codes, arith,
}
use fusio.Effect.{Result, ok, Exec}
use fusio.Path.{parse, from, is_invalid, filename}
use fusio.Decimal.{padded20, parse_u64}
use fusio.Base.{strip_prefix}
use fusio.Memory
use fusio.Memory.{MemFs, find, put_new, insert_entry, next_tag}
use fusio.Manifest.HeadStore.{or_other}
use fusio.Manifest.Types.{op_put, op_del, Error, Segment}
use fusio.Manifest.Table
use fusio.Manifest.Heads.{Head, HeadLaws}
use fusio.Manifest.Stores.{Stores}
use fusio.Manifest.InMemory.{mem_cas}
use fusio.Manifest.Files.{mem_files, converted, of_io, or_else_corrupt, or_if_corrupt}
use fusio.Manifest.Segments.{
  key_for, ext_for, json_type, put_next, get, get_with_etag, load_key, present, load_meta,
  list_from, delete_upto, seq_of, parse_seq,
}
use fusio.Manifest.Segments.Listing.{list_from-eq-take, numbers, answers, Rising}
use fusio.Manifest.Segments.Stored.{put_next_fresh}
use fusio.Manifest.Session.Rest.{AtRest, from as from_seq, seqs}
use fusio.Manifest.Session.Success.{Serves}
use fusio.Examples.World.{World, small_stores, small_laws, small_codec, head_of, put_head_ok, flat}
use fusio.Examples.Stores.{encode, blob}

abbrev pub Filed : Type 0
Filed = World × MemFs

abbrev on_world : {A : Type 0} → Exec Error World A → Exec Error Filed A
on_world m (w, fs) = let (r, w') = m w in (r, (w', fs))

abbrev on_files : {A : Type 0} → Exec Error MemFs A → Exec Error Filed A
on_files m (w, fs) = let (r, fs') = m fs in (r, (w, fs'))

abbrev pub filed_head : Filed → Head
filed_head w = head_of (w.0)

abbrev pub filed_stores : Stores Filed
filed_stores = record {
  head_load = on_world small_stores.head_load;
  head_put = λ h c. on_world (small_stores.head_put h c);
  seg_put_next = λ seq txn payload ct.
      on_files (put_next (mem_files encode) mem_cas encode (codes "db") seq txn payload ct);
  seg_get = λ seq. on_files (get (mem_files encode) mem_cas encode (codes "db") seq);
  seg_load_meta = λ seq. on_files (load_meta (mem_files encode) mem_cas encode (codes "db") seq);
  seg_list_from =
      λ n limit. on_files (list_from (mem_files encode) mem_cas encode (codes "db") n limit);
  seg_delete_upto = λ n. on_files (delete_upto (mem_files encode) mem_cas encode (codes "db") n);
  ckpt_put = λ m payload ct. on_world (small_stores.ckpt_put m payload ct);
  ckpt_get = λ id. on_world (small_stores.ckpt_get id);
  ckpt_get_meta = λ id. on_world (small_stores.ckpt_get_meta id);
  ckpt_list = on_world small_stores.ckpt_list;
  ckpt_delete = λ id. on_world (small_stores.ckpt_delete id);
  lease_create = λ txn tag ttl. on_world (small_stores.lease_create txn tag ttl);
  lease_heartbeat = λ l ttl. on_world (small_stores.lease_heartbeat l ttl);
  lease_release = λ l. on_world (small_stores.lease_release l);
  lease_list_active = λ now. on_world (small_stores.lease_list_active now);
  now = λ w. (w.0).clock;
  sleep = λ delay w. (small_stores.sleep delay (w.0), w.1);
}

pub filed_laws : HeadLaws filed_stores filed_head
filed_laws = record {
  load_answer = λ w. small_laws.load_answer (w.0);
  load_keeps = λ w. small_laws.load_keeps (w.0);
  put_lem = λ h c w. small_laws.put_lem h c (w.0);
  seg_put_keeps = λ seq txn payload ct w. refl;
  seg_get_keeps = λ seq w. refl;
  meta_keeps = λ seq w. refl;
  list_keeps = λ n limit w. refl;
  ckpt_put_keeps = λ m payload ct w. small_laws.ckpt_put_keeps m payload ct (w.0);
  ckpt_get_keeps = λ id w. small_laws.ckpt_get_keeps id (w.0);
  ckpt_list_keeps = λ w. small_laws.ckpt_list_keeps (w.0);
  active_keeps = λ now w. small_laws.active_keeps now (w.0);
  release_keeps = λ l w. small_laws.release_keeps l (w.0);
  sleep_keeps = λ delay w. small_laws.sleep_keeps delay (w.0);
  release_answers = λ l w. small_laws.release_answers l (w.0);
}

-- No object stands at either key of the number, and both are canonical paths.
abbrev pub IsFree : ℕ → Filed → Type 0
IsFree n w =
    ((ext : Text) → find (key_for (codes "db") n (ext_for ext)) (w.1) ≡ none)
    × ((ext : Text)
        → parse (key_for (codes "db") n (ext_for ext)) ≡ ok (key_for (codes "db") n (ext_for ext)))

put_ok :
    (seq txn : ℕ) (payload ct : Text) (w : Filed)
    → IsFree seq w
    → (n : ℕ) × ((filed_stores.seg_put_next seq txn payload ct w).0 ≡ ok n)
put_ok seq txn payload ct w (free, key) = (
  seq,
  ap (λ (o : Result Error ℕ × MemFs). o.0)
      (put_next_fresh encode (codes "db") seq txn payload ct (w.1) (key ct) (free ct)),
)

pub filed_stores-Serves : Serves filed_stores filed_head (λ _. Unit) IsFree
filed_stores-Serves = record {
  loads = λ w _. refl;
  load_up = λ w _. tt;
  load_free = λ n w _ free. free;
  writes = λ seq txn payload ct w _ free. put_ok seq txn payload ct w free;
  write_up = λ seq txn payload ct w _ _. tt;
  puts = λ h c w _ m. put_head_ok h c (w.0) m;
}

-- Segments 1 and 2, as files.
abbrev pub segment_one : Segment ℕ ℕ
segment_one = record {
  txn_id = 1;
  records =
      record { key = 7; op = op_put; value = some 70 }
      ∷ record { key = 8; op = op_put; value = some 80 }
      ∷ [];
}

abbrev pub segment_two : Segment ℕ ℕ
segment_two = record {
  txn_id = 2;
  records =
      record { key = 7; op = op_del; value = none }
      ∷ record { key = 9; op = op_put; value = some 90 }
      ∷ [];
}

abbrev pub filed_segs : List (ℕ × Segment ℕ ℕ)
filed_segs = (1, segment_one) ∷ (2, segment_two) ∷ []

abbrev pub two_files : MemFs
two_files = record {
  heap = blob (1 ∷ flat segment_one.records) ∷ blob (2 ∷ flat segment_two.records) ∷ [];
  objects =
      (codes "db/seg-00000000000000000001.json", 0)
      ∷ (codes "db/seg-00000000000000000002.json", 1)
      ∷ [];
  counter = 2;
}

abbrev size_one : ℕ
size_one = 7

two_items : List (Text × ℕ)
two_items =
    (codes "db/seg-00000000000000000001.json", size_one)
    ∷ (codes "db/seg-00000000000000000002.json", size_one)
    ∷ []

two_listed :
    Memory.list encode (from encode (codes "db")) two_files ≡ (ok (answers two_items), two_files)
unfolding Memory.list answers from is_invalid Text-discrete two_items
two_listed = refl

two_numbers : numbers two_items ≡ 1 ∷ 2 ∷ []
unfolding numbers seq_of filename Text-discrete parse_seq parse_u64 strip_prefix two_items
two_numbers = refl

from-keep : (n : ℕ) → keep (leb n) (1 ∷ 2 ∷ []) ≡ seqs (from_seq n filed_segs)
unfolding keep from_seq
from-keep n = ground arith

filed_payload : ℕ → Text
filed_payload n = if n == 1 then 1 ∷ flat segment_one.records else 2 ∷ flat segment_two.records

module _ (world : World) where
  filed_listed :
      (n limit : ℕ)
      → 1 ≤ limit
      → filed_stores.seg_list_from n limit (world, two_files)
        ≡ (ok (take limit (seqs (from_seq n filed_segs))), (world, two_files))
  filed_listed n limit l =
      ap (λ (o : Result Error (List ℕ) × MemFs). (o.0, (world, o.1)))
        (list_from-eq-take (mem_files encode) mem_cas encode (codes "db") n limit two_items
            two_files two_files two_listed
            (subst (Rising 0) (sym two_numbers) (omega arith, (omega arith, tt))) l
          ∙ ap (λ (is : List ℕ). (ok (take limit is), two_files))
              (ap (keep (leb n)) two_numbers ∙ from-keep n))

  one_read : filed_stores.seg_get 1 (world, two_files) ≡ (ok (filed_payload 1), (world, two_files))
  unfolding get get_with_etag or_else_corrupt or_if_corrupt load_key present converted of_io
      or_other parse Text-discrete key_for padded20 Memory.load_with_tag filed_payload Table.get
  one_read = refl

  two_read : filed_stores.seg_get 2 (world, two_files) ≡ (ok (filed_payload 2), (world, two_files))
  unfolding get get_with_etag or_else_corrupt or_if_corrupt load_key present converted of_io
      or_other parse Text-discrete key_for padded20 Memory.load_with_tag filed_payload Table.get
  two_read = refl

  pub filed-AtRest : AtRest filed_stores small_codec (world, two_files) filed_segs
  unfolding filed_payload
  filed-AtRest = record {
    listed = filed_listed;
    payload = filed_payload;
    fetched = ((one_read, refl), ((two_read, refl), tt));
    sorted = (omega arith, (omega arith, tt));
  }

  -- Number 3 is free.
  pub three-IsFree : IsFree 3 (world, two_files)
  unfolding ext_for parse Text-discrete key_for padded20 Table.get
  three-IsFree = (
    λ ext.
        elim (Text-discrete ext json_type)
          as (λ d.
            find (key_for (codes "db") 3 (ite d (codes ".json") (codes ".bin"))) two_files ≡ none) [
              | yes _ ↦ refl
              | no _ ↦ refl
            ],
    λ ext.
        elim (Text-discrete ext json_type)
          as (λ d.
            parse (key_for (codes "db") 3 (ite d (codes ".json") (codes ".bin")))
            ≡ ok (key_for (codes "db") 3 (ite d (codes ".json") (codes ".bin")))) [
              | yes _ ↦ refl
              | no _ ↦ refl
            ],
  )
