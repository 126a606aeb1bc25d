-- ===== src/Manifest/Compactor/Kept.antt =====
-- What the retention statistics say of the checkpoints that were listed, and what a GC plan made of
-- them leaves.
use fusio.Base.{
  ℕ, ◌≤◌, ◌<◌, ◌≡◌, refl, sym, ap, subst, min, inl, inr, List, [], ◌∷◌, ◌++◌, Option, none, some,
  true, false, ◌&&◌, ltb, leb, if◌then◌else◌, Text, arith, All, Member, Bool-cases,
}
use fusio.Manifest.Types.{CheckpointMeta, HeadJson}
use fusio.Manifest.Plan.{last_end}
use fusio.Manifest.Session.Writes.{or_zero}
use fusio.Manifest.Compactor.Retention.{
  Entry, Stats, no_stats, beats, observe, observe_all, retention_of, text_eq, may_go, going_ids,
  checkpoints_to_delete, segments_to_delete, segments_below, range_upto, is_entry,
}

abbrev pub lsn_of : Entry → ℕ
lsn_of e = (e.1).lsn

All-snoc :
    {A : Type 0} (P : A → Type 0) (xs : List A) (x : A) → All P xs → P x → All P (xs ++ (x ∷ []))
All-snoc P [] x h p = (p, tt)
All-snoc P (y ∷ ys) x h p = (h.0, All-snoc P ys x h.1 p)

All-mono :
    {A : Type 0} (P Q : A → Type 0) (xs : List A) → ((x : A) → P x → Q x) → All P xs → All Q xs
All-mono P Q [] f h = tt
All-mono P Q (x ∷ xs) f h = (f x h.0, All-mono P Q xs f h.1)

Member-snoc : {A : Type 0} (xs : List A) (x : A) → Member x (xs ++ (x ∷ []))
Member-snoc [] x = inl refl
Member-snoc (y ∷ ys) x = inr (Member-snoc ys x)

Member-left : {A : Type 0} (a : A) (xs : List A) (x : A) → Member a xs → Member a (xs ++ (x ∷ []))
Member-left a [] x m = absurd m
Member-left a (y ∷ ys) x (inl e) = inl e
Member-left a (y ∷ ys) x (inr m) = inr (Member-left a ys x m)

-- The newest entry: a listed one that no listed one is above.
abbrev pub IsNewest : List Entry → Option Entry → Type 0
IsNewest es none = All (λ _. ⊥) es
IsNewest es (some b) = Member b es × All (λ e. lsn_of e ≤ lsn_of b) es

-- The floor: a listed entry at the watermark or below, above all such.
abbrev pub IsFloor : ℕ → List Entry → Option Entry → Type 0
IsFloor watermark es none = All (λ e. watermark < lsn_of e) es
IsFloor watermark es (some b) =
    Member b es
    × ((lsn_of b ≤ watermark) × All (λ e. lsn_of e ≤ watermark → lsn_of e ≤ lsn_of b) es)

pub record Retains (watermark : ℕ) (es : List Entry) (s : Stats) : Type 0 where
  pub entries : s.entries ≡ es
  pub newest : IsNewest es s.newest
  pub floor : IsFloor watermark es s.floor

IsNewest-step :
    (es : List Entry) (e : Entry) (b : Option Entry)
    → IsNewest es b
    → IsNewest (es ++ (e ∷ [])) (if beats (lsn_of e) b then some e else b)
unfolding beats
IsNewest-step es e none h = (
  Member-snoc es e,
  All-snoc (λ x. lsn_of x ≤ lsn_of e) es e (All-mono _ _ es (λ x v. absurd v) h) (omega arith),
)
IsNewest-step es e (some b) (m, h) = elim (Bool-cases (ltb (lsn_of b) (lsn_of e))) [
  | inl q ↦ rw q (
    Member-snoc es e,
    All-snoc (λ x. lsn_of x ≤ lsn_of e) es e
        (All-mono (λ x. lsn_of x ≤ lsn_of b) (λ x. lsn_of x ≤ lsn_of e) es (λ x v. ground arith) h)
        (omega arith),
  )
  | inr q ↦ rw q (Member-left b es e m, All-snoc (λ x. lsn_of x ≤ lsn_of b) es e h (ground arith))
]

IsFloor-step :
    (watermark : ℕ) (es : List Entry) (e : Entry) (b : Option Entry)
    → IsFloor watermark es b
    → IsFloor watermark
        (es ++ (e ∷ []))
        (if leb (lsn_of e) watermark && beats (lsn_of e) b then some e else b)
unfolding beats
IsFloor-step w es e none h = elim (Bool-cases (leb (lsn_of e) w)) [
  | inl q ↦ rw q (
    Member-snoc es e,
    (
      ground arith,
      All-snoc (λ x. lsn_of x ≤ w → lsn_of x ≤ lsn_of e) es e
          (All-mono (λ x. w < lsn_of x) (λ x. lsn_of x ≤ w → lsn_of x ≤ lsn_of e) es
            (λ x v u. omega arith) h)
          (λ _. omega arith),
    ),
  )
  | inr q ↦ rw q (All-snoc (λ x. w < lsn_of x) es e h (ground arith))
]
IsFloor-step w es e (some b) (m, (low, h)) = elim (Bool-cases (leb (lsn_of e) w)) [
  | inr q ↦ rw q (
    Member-left b es e m,
    (low, All-snoc (λ x. lsn_of x ≤ w → lsn_of x ≤ lsn_of b) es e h (λ v. ground arith)),
  )
  | inl q ↦ rw q (elim (Bool-cases (ltb (lsn_of b) (lsn_of e))) [
    | inl r ↦ rw r (
      Member-snoc es e,
      (
        ground arith,
        All-snoc (λ x. lsn_of x ≤ w → lsn_of x ≤ lsn_of e) es e
            (All-mono (λ x. lsn_of x ≤ w → lsn_of x ≤ lsn_of b)
              (λ x. lsn_of x ≤ w → lsn_of x ≤ lsn_of e) es (λ x v u. let t = v u in ground arith) h)
            (λ _. omega arith),
      ),
    )
    | inr r ↦ rw r (
      Member-left b es e m,
      (low, All-snoc (λ x. lsn_of x ≤ w → lsn_of x ≤ lsn_of b) es e h (λ v. ground arith)),
    )
  ])
]

append_assoc :
    {A : Type 0} (xs : List A) (y : A) (ys : List A) → (xs ++ (y ∷ [])) ++ ys ≡ xs ++ (y ∷ ys)
append_assoc [] y ys = refl
append_assoc (x ∷ xs) y ys = ap (λ t. x ∷ t) (append_assoc xs y ys)

append-nil : {A : Type 0} (xs : List A) → xs ++ [] ≡ xs
append-nil [] = refl
append-nil (x ∷ xs) = ap (λ t. x ∷ t) (append-nil xs)

observe-Retains :
    (watermark keep_last : ℕ) (seen : List Entry) (e : Entry) (s : Stats)
    → Retains watermark seen s
    → Retains watermark (seen ++ (e ∷ [])) (observe watermark keep_last e s)
unfolding observe
observe-Retains w k seen e s r = record {
  entries = ap (λ t. t ++ (e ∷ [])) r.entries;
  newest = IsNewest-step seen e s.newest r.newest;
  floor = IsFloor-step w seen e s.floor r.floor;
}

observe_all-Retains :
    (watermark keep_last : ℕ) (seen es : List Entry) (s : Stats)
    → Retains watermark seen s
    → Retains watermark (seen ++ es) (observe_all watermark keep_last es s)
unfolding observe_all
observe_all-Retains w k seen [] s r = subst (λ l. Retains w l s) (sym (append-nil seen)) r
observe_all-Retains w k seen (e ∷ es) s r =
    subst (λ l. Retains w l (observe_all w k es (observe w k e s))) (append_assoc seen e es)
      (observe_all-Retains w k (seen ++ (e ∷ [])) es (observe w k e s)
        (observe-Retains w k seen e s r))

-- The statistics of a list: it is kept in order, the newest is a listed entry that no other is
-- above, and the floor is one at the watermark or below that no other such is above; where there is
-- no newest the list is empty, and where there is no floor all entries are above the watermark.
pub retention_of-Retains :
    (watermark keep_last : ℕ) (es : List Entry)
    → Retains watermark es (retention_of watermark keep_last (some es))
unfolding retention_of
retention_of-Retains w k es =
    observe_all-Retains w k [] es no_stats (record { entries = refl; newest = tt; floor = tt })

text_eq_refl : (i : Text) → text_eq i i ≡ true
unfolding text_eq
text_eq_refl [] = refl
text_eq_refl (a ∷ i) = ground (arith, text_eq_refl i)

floor_may_not_go :
    (s : Stats) (now_ms ttl_ms : ℕ) (b : Entry) (meta : CheckpointMeta)
    → s.floor ≡ some b
    → may_go s now_ms ttl_ms (b.0, meta) ≡ false
unfolding may_go is_entry
floor_may_not_go s now_ms ttl_ms b meta e =
    let same : is_entry s.floor (b.0) ≡ true = rw e (text_eq_refl (b.0)) in
    elim (Bool-cases (is_entry s.newest (b.0))) [ inl q ↦ rw q refl | inr q ↦ rw q (rw same refl) ]

pub goes-false :
    (s : Stats) (now_ms ttl_ms : ℕ) (b : Entry) (es : List Entry)
    → s.floor ≡ some b
    → Member (b.0) (going_ids s now_ms ttl_ms es)
    → ⊥
unfolding going_ids
goes-false s now_ms ttl_ms b [] e m = absurd m
goes-false s now_ms ttl_ms b ((id, meta) ∷ es) e m =
    elim (Bool-cases (may_go s now_ms ttl_ms (id, meta))) [
      | inr q ↦ goes-false s now_ms ttl_ms b es e (
          subst
            (λ t.
              Member (b.0)
                (if t then id ∷ going_ids s now_ms ttl_ms es else going_ids s now_ms ttl_ms es))
            q m)
      | inl q ↦
          elim (subst
            (λ t.
              Member (b.0)
                (if t then id ∷ going_ids s now_ms ttl_ms es else going_ids s now_ms ttl_ms es))
            q m) [
              | inr n ↦ goes-false s now_ms ttl_ms b es e n
              | inl same ↦
                  let no = floor_may_not_go s now_ms ttl_ms b meta e in
                  let yes : may_go s now_ms ttl_ms (b.0, meta) ≡ true =
                    subst (λ i. may_go s now_ms ttl_ms (i, meta) ≡ true) (sym same) q in
                  cc
            ]
    ]

range_upto-end : (n u : ℕ) → last_end (range_upto n) ≡ some u → u ≡ n
unfolding range_upto last_end
range_upto-end n u e = elim (Bool-cases (ltb 0 n)) [
  | inl q ↦
      cc (subst (λ t. last_end (if t then record { start = 1; end = n } ∷ [] else []) ≡ some u) q e)
  | inr q ↦
      cc (subst (λ t. last_end (if t then record { start = 1; end = n } ∷ [] else []) ≡ some u) q e)
]

-- What a plan leaves: a checkpoint that stands for all the deleted segments.
pub record Spares (watermark : ℕ) (es : List Entry) (head : HeadJson) (deleted : List Text)
    (upto : ℕ) : Type 0 where
  pub spared : Entry
  pub listed : Member spared es
  pub low : lsn_of spared ≤ watermark
  pub covers : upto ≤ (spared.1).last_segment_seq_at_ckpt
  pub published : upto ≤ or_zero head.last_segment_seq
  pub stays : Member (spared.0) deleted → ⊥

none_not_some : {A : Type 0} (a : A) → ◌≡◌ {A = Option A} none (some a) → ⊥
none_not_some a e = cc

Spares-of :
    (w : ℕ) (es : List Entry) (s : Stats) (head : HeadJson) (now_ms ttl_ms upto : ℕ)
    (o : Option Entry) (l : Option ℕ)
    → Retains w es s
    → s.floor ≡ o
    → head.last_segment_seq ≡ l
    → last_end (segments_below o l) ≡ some upto
    → Spares w es head (checkpoints_to_delete s now_ms ttl_ms) upto
unfolding segments_below checkpoints_to_delete last_end or_zero
Spares-of w es s head now_ms ttl_ms upto none l r e q h = absurd (none_not_some upto h)
Spares-of w es s head now_ms ttl_ms upto (some b) none r e q h = absurd (none_not_some upto h)
Spares-of w es s head now_ms ttl_ms upto (some b) (some last) r e q h =
    let floor : IsFloor w es (some b) = subst (IsFloor w es) e r.floor in
    let u : upto ≡ min (b.1).last_segment_seq_at_ckpt last =
      range_upto-end (min (b.1).last_segment_seq_at_ckpt last) upto h in
    record {
      spared = b;
      listed = floor.0;
      low = (floor.1).0;
      covers = omega (arith, u);
      published = rw q (omega (arith, u));
      stays = goes-false s now_ms ttl_ms b s.entries e;
    }

-- If a plan deletes segments up to some number, then a listed checkpoint stays that is at the
-- watermark or below and covers that number, and HEAD has published up to it.
pub plan-Spares :
    (watermark keep_last now_ms ttl_ms upto : ℕ) (es : List Entry) (head : HeadJson)
    → let s = retention_of watermark keep_last (some es) in
      last_end (segments_to_delete s head) ≡ some upto
      → Spares watermark es head (checkpoints_to_delete s now_ms ttl_ms) upto
unfolding segments_to_delete
plan-Spares w k now_ms ttl_ms upto es head h =
    let s = retention_of w k (some es) in
    Spares-of w es s head now_ms ttl_ms upto s.floor head.last_segment_seq
      (retention_of-Retains w k es) refl refl h
