-- ===== src/Manifest/Compactor/Retention.antt =====
-- compactor.rs: what a list of checkpoints retains (collect_checkpoint_retention_state) and what
-- may go (checkpoints_to_delete, segments_to_delete).
use fusio.Base.{
  ℕ, ◌-◌, min, List, [], ◌∷◌, ◌++◌, Option, none, some, Bool, true, false, not, ◌&&◌, ◌||◌, ltb,
  leb, ◌==◌, if◌then◌else◌, length, any, Text,
}
use fusio.Manifest.Types.{CheckpointMeta, HeadJson}
use fusio.Manifest.Plan.{SegmentRange}

-- A checkpoint as it is listed.
abbrev pub Entry : Type 0
Entry = Text × CheckpointMeta

-- `==` and `<=` of `CheckpointId`, a string.
unfoldable pub text_eq : Text → Text → Bool
text_eq [] [] = true
text_eq [] (_ ∷ _) = false
text_eq (_ ∷ _) [] = false
text_eq (a ∷ i) (b ∷ j) = (a == b) && text_eq i j

unfoldable pub text_leb : Text → Text → Bool
text_leb [] _ = true
text_leb (_ ∷ _) [] = false
text_leb (a ∷ i) (b ∷ j) = let rest = text_leb i j in ltb a b || ((a == b) && rest)

-- The order of the heap's pairs.
unfoldable pub pair_leb : ℕ × Text → ℕ × Text → Bool
unfolding text_leb
pair_leb (m, i) (n, j) = ltb m n || ((m == n) && text_leb i j)

-- BinaryHeap<Reverse<_>> as its ascending list: `push`, and `pop` of the least.
unfoldable pub push : ℕ × Text → List (ℕ × Text) → List (ℕ × Text)
unfolding pair_leb
push x [] = x ∷ []
push x (y ∷ ys) = let rest = push x ys in if pair_leb x y then x ∷ y ∷ ys else (y ∷ rest)

unfoldable pub pop : List (ℕ × Text) → List (ℕ × Text)
pop [] = []
pop (_ ∷ xs) = xs

-- CheckpointRetentionStats, with the heap that keep_last_ids is made of.
pub record Stats : Type 0 where
  pub entries : List Entry
  pub newest : Option Entry
  pub floor : Option Entry
  pub keep_last : List (ℕ × Text)

abbrev pub no_stats : Stats
no_stats = record { entries = []; newest = none; floor = none; keep_last = [] }

-- `best.as_ref().map(|(_, m)| m.lsn < lsn).unwrap_or(true)`
unfoldable pub beats : ℕ → Option Entry → Bool
beats lsn none = true
beats lsn (some (_, m)) = ltb m.lsn lsn

unfoldable pub bounded : ℕ → List (ℕ × Text) → List (ℕ × Text)
unfolding pop
bounded keep_last heap = if ltb keep_last (length heap) then pop heap else heap

-- The loop's body.
unfoldable pub observe : (watermark keep_last : ℕ) → Entry → Stats → Stats
unfolding beats push bounded
observe watermark keep_last (id, meta) s = record {
  entries = s.entries ++ ((id, meta) ∷ []);
  newest = if beats meta.lsn s.newest then some (id, meta) else s.newest;
  floor = if leb meta.lsn watermark && beats meta.lsn s.floor then some (id, meta) else s.floor;
  keep_last =
      if ltb 0 keep_last then bounded keep_last (push (meta.lsn, id) s.keep_last) else s.keep_last;
}

unfoldable pub observe_all : (watermark keep_last : ℕ) → List Entry → Stats → Stats
unfolding observe
observe_all watermark keep_last [] s = s
observe_all watermark keep_last (e ∷ es) s =
    observe_all watermark keep_last es (observe watermark keep_last e s)

-- collect_checkpoint_retention_state on the list that the store has answered, if it has.
unfoldable pub retention_of : (watermark keep_last : ℕ) → Option (List Entry) → Stats
unfolding observe_all
retention_of watermark keep_last none = no_stats
retention_of watermark keep_last (some es) = observe_all watermark keep_last es no_stats

unfoldable pub is_entry : Option Entry → Text → Bool
unfolding text_eq
is_entry none id = false
is_entry (some (i, _)) id = text_eq i id

unfoldable pub in_last : List (ℕ × Text) → Text → Bool
unfolding any text_eq
in_last heap id = any (λ p. text_eq (p.1) id) heap

-- The test of checkpoints_to_delete.
unfoldable pub may_go : Stats → (now_ms ttl_ms : ℕ) → Entry → Bool
unfolding is_entry in_last
may_go s now_ms ttl_ms (id, meta) =
    not (is_entry s.newest id)
    && (not (is_entry s.floor id)
        && (not (in_last s.keep_last id) && leb ttl_ms (now_ms - meta.created_at_ms)))

unfoldable pub going_ids : Stats → (now_ms ttl_ms : ℕ) → List Entry → List Text
unfolding may_go
going_ids s now_ms ttl_ms [] = []
going_ids s now_ms ttl_ms ((id, meta) ∷ es) =
    let rest = going_ids s now_ms ttl_ms es in
    if may_go s now_ms ttl_ms (id, meta) then id ∷ rest else rest

unfoldable pub checkpoints_to_delete : Stats → (now_ms ttl_ms : ℕ) → List Text
unfolding going_ids
checkpoints_to_delete s now_ms ttl_ms = going_ids s now_ms ttl_ms s.entries

unfoldable pub range_upto : ℕ → List SegmentRange
range_upto upto = if ltb 0 upto then record { start = 1; end = upto } ∷ [] else []

-- The range below a floor, for the number of HEAD's last segment.
unfoldable pub segments_below : Option Entry → Option ℕ → List SegmentRange
unfolding range_upto
segments_below none last = []
segments_below (some floor) none = []
segments_below (some (_, floor_meta)) (some last_seq) =
    range_upto (min floor_meta.last_segment_seq_at_ckpt last_seq)

unfoldable pub segments_to_delete : Stats → HeadJson → List SegmentRange
unfolding segments_below
segments_to_delete s head = segments_below s.floor head.last_segment_seq
