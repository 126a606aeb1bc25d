-- ===== src/Manifest/Recover/Probing.antt =====
-- The probe of recover_orphans: what it adopts is a contiguous run that meets no leased transaction.
use fusio.Base.{
  ℕ, zero, suc, ◌+◌, ◌<◌, ◌≡◌, ◌≢◌, ◌∙◌, subst, inl, inr, List, [], ◌∷◌, Bool, true, false, ltb,
  saturating_add, any, Member, arith, Bool-cases,
}
use fusio.Effect.{Result, ok, err, spent, Exec, bind_cases}
use fusio.Manifest.Types.{Error}
use fusio.Manifest.Stores.{Stores}
use fusio.Manifest.Heads.{Head, HeadLaws}
use fusio.Manifest.Recover.{
  Probe, Round, broken, at_end, is_active, refused, adopt, meet_segment, probe_ids, after_round,
  probe_window, probe,
}

not_active :
    (active : List ℕ) (txn t : ℕ) → is_active active txn ≡ false → Member t active → t ≢ txn
unfolding is_active any
not_active [] txn t h m = absurd m
not_active (a ∷ active) txn t h (inl e) = ground arith
not_active (a ∷ active) txn t h (inr m) = ground (arith, not_active active txn t)

module _ (active : List ℕ) (start : Probe) where
  -- Where the probe may stand: `adopted` segments behind its start, below every lease ahead.
  pub record Along (p : Probe) : Type 0 where
    pub txns : p.last_txn ≡ start.last_txn + p.adopted
    pub numbers : p.max_seq ≡ saturating_add start.max_seq p.adopted
    pub next : p.expected ≡ saturating_add p.max_seq 1
    pub below : (t : ℕ) → Member t active → start.last_txn < t → p.last_txn < t

  adopt-Along :
      (seq txn : ℕ) (p : Probe)
      → Along p
      → ltb seq p.expected ≡ false
      → ltb p.expected seq ≡ false
      → refused active p.last_txn txn ≡ false
      → Along (adopt seq txn p)
  unfolding adopt refused saturating_add
  adopt-Along seq txn p v lo hi fine = record {
    txns = ground (arith, v.txns);
    numbers = ground (arith, v.numbers, v.next);
    next = ground (arith, v.next);
    below = λ t m h. ground (arith, v.below t m h, v.txns, not_active active txn t);
  }

-- An outcome keeps HEAD, and a result that there is has the property.
abbrev pub Keeps : {W A : Type 0} → (W → Head) → Head → (A → Type 0) → Result Error A × W → Type 0
Keeps head_of before P (ok a, w) = P a × (head_of w ≡ before)
Keeps head_of before P (err e, w) = head_of w ≡ before
Keeps head_of before P (spent, w) = head_of w ≡ before

pub ok_eq : {A : Type 0} {a b : A} → ◌≡◌ {A = Result Error A} (ok a) (ok b) → a ≡ b
ok_eq e = cc

module _ {W : Type 0} (st : Stores W) (head_of : W → Head) (laws : HeadLaws st head_of)
    (active : List ℕ) (start : Probe) (before : Head) where
  abbrev Standing : Round → Type 0
  Standing (broken p) = Along active start p
  Standing (at_end b p) = Along active start p

  probe_ids-Keeps :
      (ids : List ℕ) (progressed : Bool) (p : Probe) (w : W)
      → Along active start p
      → head_of w ≡ before
      → Keeps head_of before Standing (probe_ids st active ids progressed p w)
  unfolding probe_ids
  probe_ids-Keeps [] progressed p w v k = (v, k)
  probe_ids-Keeps (seq ∷ ids) progressed p w v k = elim (Bool-cases (ltb seq p.expected)) [
    | inl lower ↦ rw lower (probe_ids-Keeps ids progressed p w v k)
    | inr lo ↦ rw lo (elim (Bool-cases (ltb p.expected seq)) [
      | inl gap ↦ rw gap (v, k)
      | inr hi ↦ rw hi (
          bind_cases (Keeps head_of before Standing)
            (meet_segment st active (probe_ids st active ids true) seq p) (st.seg_load_meta seq) w
            (unfold meet_segment in
              λ txn _. elim (Bool-cases (refused active p.last_txn txn)) [
                | inl e ↦ rw e (v, laws.meta_keeps seq w ∙ k)
                | inr e ↦ rw e (
                    probe_ids-Keeps ids true (adopt seq txn p) (st.seg_load_meta seq w).1
                      (adopt-Along active start seq txn p v lo hi e) (laws.meta_keeps seq w ∙ k))
              ])
            (λ _ _. laws.meta_keeps seq w ∙ k) (λ _. laws.meta_keeps seq w ∙ k))
    ])
  ]

  after_round-Keeps :
      (again : Probe → Exec Error W Probe) (r : Round) (w : W)
      → ((p : Probe) (w : W)
          → Along active start p
          → head_of w ≡ before
          → Keeps head_of before (Along active start) (again p w))
      → Standing r
      → head_of w ≡ before
      → Keeps head_of before (Along active start) (after_round st active again r w)
  unfolding after_round
  after_round-Keeps again (broken p) w ih v k = (v, k)
  after_round-Keeps again (at_end true p) w ih v k = ih p w v k
  after_round-Keeps again (at_end false p) w ih v k = (v, k)

  Standing-of :
      (o : Result Error Round × W) (r : Round)
      → Keeps head_of before Standing o
      → o.0 ≡ ok r
      → Standing r × (head_of (o.1) ≡ before)
  Standing-of (ok a, w) r h e = (subst Standing (ok_eq e) h.0, h.1)
  Standing-of (err x, w) r h e = cc
  Standing-of (spent, w) r h e = cc

  pub head-of :
      {A : Type 0} (P : A → Type 0) (o : Result Error A × W)
      → Keeps head_of before P o
      → head_of (o.1) ≡ before
  head-of P (ok a, w) h = h.1
  head-of P (err e, w) h = h
  head-of P (spent, w) h = h

  probe_window-Keeps :
      (again : Probe → Exec Error W Probe) (ids : List ℕ) (p : Probe) (w : W)
      → ((p : Probe) (w : W)
          → Along active start p
          → head_of w ≡ before
          → Keeps head_of before (Along active start) (again p w))
      → Along active start p
      → head_of w ≡ before
      → Keeps head_of before (Along active start) (probe_window st active again ids p w)
  unfolding probe_window
  probe_window-Keeps again [] p w ih v k = (v, k)
  probe_window-Keeps again (i ∷ is) p w ih v k =
      let ended = probe_ids-Keeps (i ∷ is) false p w v k in
      bind_cases (Keeps head_of before (Along active start)) (after_round st active again)
        (probe_ids st active (i ∷ is) false p) w
        (λ r e.
          let (standing, kept) = Standing-of (probe_ids st active (i ∷ is) false p w) r ended e in
          after_round-Keeps again r (probe_ids st active (i ∷ is) false p w).1 ih standing kept)
        (λ e q. head-of Standing _ ended) (λ q. head-of Standing _ ended)

  -- Over stores that keep the HEAD laws, from a point along the way: the probe leaves HEAD as it is, and
  -- a result that it returns is along the way, as many segments and transactions ahead of the start as
  -- it has adopted, and still below each leased transaction that was ahead of the start.
  pub probe-Keeps :
      (fuel : ℕ) (p : Probe) (w : W)
      → Along active start p
      → head_of w ≡ before
      → Keeps head_of before (Along active start) (probe st active fuel p w)
  unfolding probe
  probe-Keeps zero p w v k = k
  probe-Keeps (suc fuel) p w v k =
      bind_cases (Keeps head_of before (Along active start))
        (λ ids. probe_window st active (probe st active fuel) ids p)
        (st.seg_list_from p.expected 256) w
        (λ ids e.
          probe_window-Keeps (probe st active fuel) ids p (st.seg_list_from p.expected 256 w).1
            (probe-Keeps fuel) v (laws.list_keeps p.expected 256 w ∙ k))
        (λ _ _. laws.list_keeps p.expected 256 w ∙ k) (λ _. laws.list_keeps p.expected 256 w ∙ k)
