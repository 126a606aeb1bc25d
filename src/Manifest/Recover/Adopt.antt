-- ===== src/Manifest/Recover/Adopt.antt =====
-- recover_orphans as a whole: HEAD moves by just the adopted segments, or does not move.
use fusio.Base.{
  ℕ, ◌+◌, ◌≤◌, ◌≡◌, ◌∙◌, refl, sym, subst, ap, ◌⊎◌, inl, inr, max, List, [], ◌∷◌, map, some, Text,
  u64_max, saturating_add, arith, ◌==◌, Bool-cases,
}
use fusio.Effect.{Result, ok, err, spent, Exec, fail, bind_cases, on_result_cases}
use fusio.Manifest.Types.{Error, precondition_failed, HeadJson, ActiveLease}
use fusio.Manifest.Backoff.{classify_error, by_class_cases}
use fusio.Manifest.Stores.{Stores}
use fusio.Manifest.Heads.{Head, HeadLaws, Put, Loaded}
use fusio.Manifest.Session.Writes.{or_zero}
use fusio.Manifest.Recover.{
  Probe, current_head, current_condition, start_probe, adopted_head, on_put_error, publish_adopted,
  adopt_from, attempt, recover_round, recover_orphans, sleep_then, probe,
}
use fusio.Manifest.Recover.Probing.{Along, Keeps, probe-Keeps, head-of, ok_eq}

-- The head that is n segments, and so n transactions, ahead.
abbrev pub advanced_head : HeadJson → ℕ → HeadJson
advanced_head h n = record {
  version = max h.version 1;
  checkpoint_id = h.checkpoint_id;
  last_segment_seq = some (saturating_add (or_zero h.last_segment_seq) n);
  last_txn_id = h.last_txn_id + n;
}

-- What recover_orphans has done to HEAD, by its result.
abbrev pub Recovered : Head → Head → Result Error ℕ → Type 0
Recovered before after (ok n) =
    ((n ≡ 0) × (after ≡ before))
    ⊎ ((t : Text) × (after ≡ some (advanced_head (current_head before) n, t)))
Recovered before after _ = after ≡ before

start_probe-Along :
    (active : List ℕ) (h : HeadJson)
    → or_zero h.last_segment_seq ≤ u64_max
    → Along active (start_probe h) (start_probe h)
unfolding start_probe saturating_add
start_probe-Along active h r = record {
  txns = ground arith;
  numbers = ground arith;
  next = ground arith;
  below = λ t m lt. lt;
}

adopted-advanced :
    (active : List ℕ) (h : HeadJson) (p : Probe)
    → Along active (start_probe h) p
    → adopted_head h p ≡ advanced_head h p.adopted
unfolding adopted_head start_probe
adopted-advanced active h p v = ground (arith, v.txns, v.numbers)

probe_Along-of :
    {W : Type 0} (head_of : W → Head) (before : Head) (active : List ℕ) (start : Probe)
    (o : Result Error Probe × W) (p : Probe)
    → Keeps head_of before (Along active start) o
    → o.0 ≡ ok p
    → Along active start p
probe_Along-of head_of before active start (ok a, w) p h e =
    subst (Along active start) (ok_eq e) h.0
probe_Along-of head_of before active start (err x, w) p h e = cc
probe_Along-of head_of before active start (spent, w) p h e = cc

module _ {W : Type 0} (st : Stores W) (head_of : W → Head) (laws : HeadLaws st head_of)
    (before : Head) (in_range : or_zero (current_head before).last_segment_seq ≤ u64_max) where
  abbrev Ends : Result Error ℕ × W → Type 0
  Ends o = Recovered before (head_of (o.1)) (o.0)

  -- The next attempt, from an unmoved HEAD.
  abbrev Again : Exec Error W ℕ → Type 0
  Again next = (w : W) → head_of w ≡ before → Ends (next w)

  on_put_error-Ends :
      (next : Exec Error W ℕ) (e : Error) (w : W)
      → Again next
      → head_of w ≡ before
      → Ends (on_put_error st next e w)
  unfolding on_put_error
  on_put_error-Ends next precondition_failed w ih k = ih w k
  on_put_error-Ends next _ w ih k = k

  publish_adopted-Ends :
      (next : Exec Error W ℕ) (active : List ℕ) (p : Probe) (w : W)
      → Again next
      → Along active (start_probe (current_head before)) p
      → head_of w ≡ before
      → Ends (publish_adopted st next before p w)
  unfolding publish_adopted
  publish_adopted-Ends next active p w ih v k = elim (Bool-cases (p.adopted == 0)) [
    | inl e ↦ rw e (inl (refl, k))
    | inr e ↦
        let h = adopted_head (current_head before) p in
        let c = current_condition before in
        let w' = (st.head_put h c w).1 in
        let after = λ (r : Result Error Text) (q : (st.head_put h c w).0 ≡ r).
          subst (Put h c (head_of w) (head_of w')) q (laws.put_lem h c w) in
        rw e (
          on_result_cases Ends _ (on_put_error st next) (st.head_put h c) w
            (λ t q. inr (
              t,
              (after (ok t) q).1
                  ∙ ap (λ (j : HeadJson). some (j, t))
                      (adopted-advanced active (current_head before) p v),
            ))
            (λ x q. on_put_error-Ends next x w' ih (after (err x) q ∙ k)) (λ q. after spent q ∙ k))
  ]

  adopt_from-Ends :
      (fuel : ℕ) (next : Exec Error W ℕ) (active : List ℕ) (w : W)
      → Again next
      → head_of w ≡ before
      → Ends (adopt_from st fuel next active before w)
  unfolding adopt_from
  adopt_from-Ends fuel next active w ih k =
      let start = start_probe (current_head before) in
      let m = probe st active fuel start in
      let ended =
        probe-Keeps st head_of laws active start before fuel start w
          (start_probe-Along active (current_head before) in_range) k in
      let kept = head-of st head_of laws active start before (Along active start) (m w) ended in
      bind_cases Ends (publish_adopted st next before) m w
        (λ p e.
          publish_adopted-Ends next active p (m w).1 ih
            (probe_Along-of head_of before active start (m w) p ended e) kept)
        (λ _ _. kept) (λ _. kept)

  attempt-Ends :
      (fuel : ℕ) (next : Exec Error W ℕ) (leases : List ActiveLease) (w : W)
      → Again next
      → head_of w ≡ before
      → Ends (attempt st fuel next leases w)
  unfolding attempt
  attempt-Ends fuel next leases w ih k =
      let active = map (λ (l : ActiveLease). l.snapshot_txn_id) leases in
      let kept : head_of (st.head_load w).1 ≡ before = laws.load_keeps w ∙ k in
      bind_cases Ends (adopt_from st fuel next active) st.head_load w
        (λ loaded q.
          let same : loaded ≡ before = subst (Loaded (head_of w)) q (laws.load_answer w) ∙ k in
          subst (λ b. Ends (adopt_from st fuel next active b (st.head_load w).1)) (sym same)
            (adopt_from-Ends fuel next active (st.head_load w).1 ih kept))
        (λ _ _. kept) (λ _. kept)

  recover_round-Ends :
      (fuel : ℕ) (again : Error → Exec Error W ℕ) (w : W)
      → ((e : Error) → Again (again e))
      → head_of w ≡ before
      → Ends (recover_round st fuel again w)
  unfolding recover_round
  recover_round-Ends fuel again w ih k =
      let m = st.lease_list_active (st.now w) in
      let kept : head_of (m w).1 ≡ before = laws.active_keeps (st.now w) w ∙ k in
      on_result_cases Ends (attempt st fuel (again precondition_failed)) _ m w
        (λ leases _.
          attempt-Ends fuel (again precondition_failed) leases (m w).1 (ih precondition_failed)
            kept)
        (λ e _.
          by_class_cases (λ n. Ends (n (m w).1)) (classify_error e) (again e) (fail e) (fail e)
            (ih e (m w).1 kept) kept kept)
        (λ _. kept)

  -- Over stores that keep the HEAD laws, from a HEAD whose last segment number is a u64: if
  -- recover_orphans returns n, then n is 0 and HEAD is as before, or HEAD is the one of before moved n
  -- segments and n transactions ahead, its checkpoint kept; if it fails, or the probe runs out of fuel,
  -- HEAD is as before.
  pub recover_orphans-Recovered :
      (fuel : ℕ) (delays : List ℕ) (w : W)
      → head_of w ≡ before
      → Ends (recover_orphans st fuel delays w)
  unfolding recover_orphans
  recover_orphans-Recovered fuel [] w k = recover_round-Ends fuel fail w (λ _ _ kept. kept) k
  recover_orphans-Recovered fuel (delay ∷ delays) w k =
      recover_round-Ends fuel (sleep_then st delay (recover_orphans st fuel delays)) w
        (unfold sleep_then in
          λ e w' kept.
            recover_orphans-Recovered fuel delays (st.sleep delay w')
              (laws.sleep_keeps delay w' ∙ kept))
        k
