-- ===== src/Manifest/Session/Success.antt =====
-- `commit` succeeds over stores that serve, where HEAD is still the snapshot's.
use fusio.Base.{
  ℕ, ◌+◌, min, u64_max, saturating_add, ◌≡◌, ◌∙◌, refl, sym, subst, ap, List, [], ◌∷◌, Option, none,
  some, Bool, false, Text, arith,
}
use fusio.Effect.{Result, ok, err, spent, Exec, bind_cases, on_result_cases, ignoring_cases}
use fusio.Manifest.Types.{Error, HeadJson, PutCondition}
use fusio.Manifest.Stores.{Stores, Codec}
use fusio.Manifest.Heads.{Head, Meets, HeadLaws}
use fusio.Manifest.Session.Commit.{tag_of, taken_answers}
use fusio.Manifest.Session.Writes.{
  call, Live, Plan, Limits, Session, release_lease, release_lease_silent, publish, write_segment,
  commit_round, commit_loop, is_stale, staged_segment, plan_of, last_round, next_round, after_load,
  commit_encoded, commit, put_condition, next_head, json_type, or_zero,
}

-- Stores that serve in the worlds where they are up: HEAD is answered; a segment is put under a number
-- that is free; and a put of HEAD whose condition holds succeeds. A load takes no number.
pub record Serves {W : Type 0} (st : Stores W) (head_of : W → Head) (Up : W → Type 0)
    (Free : ℕ → W → Type 0) : Type 0 where
  pub loads : (w : W) → Up w → (st.head_load w).0 ≡ ok (head_of w)
  pub load_up : (w : W) → Up w → Up (st.head_load w).1
  pub load_free : (n : ℕ) (w : W) → Up w → Free n w → Free n (st.head_load w).1
  pub writes :
      (seq txn : ℕ) (payload ct : Text) (w : W)
      → Up w
      → Free seq w
      → (n : ℕ) × ((st.seg_put_next seq txn payload ct w).0 ≡ ok n)
  pub write_up :
      (seq txn : ℕ) (payload ct : Text) (w : W)
      → Up w
      → Free seq w
      → Up (st.seg_put_next seq txn payload ct w).1
  pub puts :
      (h : HeadJson) (c : PutCondition) (w : W)
      → Up w
      → Meets c (head_of w)
      → (t : Text) × ((st.head_put h c w).0 ≡ ok t)

-- The number behind the last segment of a snapshot, as a u64.
abbrev pub seq_after : Option ℕ → ℕ
seq_after none = 1
seq_after (some last) = min (last + 1) u64_max

not_err : {A : Type 0} {r : Result Error A} {a : A} {e : Error} → r ≡ ok a → r ≡ err e → ⊥
not_err p q = cc

not_spent : {A : Type 0} {r : Result Error A} {a : A} → r ≡ ok a → r ≡ spent → ⊥
not_spent p q = cc

ok_eq : {A : Type 0} {a b : A} → ◌≡◌ {A = Result Error A} (ok a) (ok b) → a ≡ b
ok_eq e = cc

tag-is_stale : (tag : Option Text) (h : Head) → tag_of h ≡ tag → is_stale tag h ≡ false
unfolding is_stale
tag-is_stale none none e = refl
tag-is_stale none (some (j, t)) e = cc
tag-is_stale (some u) none e = cc
tag-is_stale (some u) (some (j, t)) e = ground arith

tag-Meets : (tag : Option Text) (h : Head) → tag_of h ≡ tag → Meets (put_condition tag) h
unfolding put_condition
tag-Meets none none e = refl
tag-Meets none (some (j, t)) e = cc
tag-Meets (some u) none e = cc
tag-Meets (some u) (some (j, t)) e = (j, ap (λ (x : Text). some (j, x)) (text_eq e))
  where
    text_eq : some t ≡ some u → t ≡ u
    text_eq q = cc

module _ {W : Type 0} (st : Stores W) (head_of : W → Head) (laws : HeadLaws st head_of)
    (Up : W → Type 0) (Free : ℕ → W → Type 0) (serves : Serves st head_of Up Free) (p : Plan) where
  abbrev Succeeds : Result Error Unit × Live W → Type 0
  Succeeds o = o.0 ≡ ok tt

  silent-Succeeds : (s : Live W) → Succeeds (release_lease_silent st s)
  unfolding release_lease_silent release_lease
  silent-Succeeds s =
      ignoring_cases Succeeds (release_lease st) s refl
        (λ e. absurd (taken_answers st head_of laws p s.lease s.world e))

  publish-Succeeds :
      (again : Bool → Error → Exec Error (Live W) Unit) (loaded : Head) (s : Live W)
      → Up s.world
      → tag_of (head_of s.world) ≡ p.expected_tag
      → Succeeds (publish st p again loaded s)
  unfolding publish
  publish-Succeeds again loaded s up tag =
      let h = next_head p loaded in
      let c = put_condition p.expected_tag in
      let (t, good) = serves.puts h c s.world up (tag-Meets p.expected_tag (head_of s.world) tag) in
      on_result_cases Succeeds _ _ (call (st.head_put h c)) s
        (λ _ _. silent-Succeeds (record s { world = (st.head_put h c s.world).1 }))
        (λ e q. absurd (not_err good q)) (λ q. absurd (not_spent good q))

  write_segment-Succeeds :
      (again : Bool → Error → Exec Error (Live W) Unit) (loaded : Head) (s : Live W)
      → Up s.world
      → Free p.next_seq s.world
      → tag_of (head_of s.world) ≡ p.expected_tag
      → Succeeds (write_segment st p again loaded s)
  unfolding write_segment
  write_segment-Succeeds again loaded s up free tag =
      let m = st.seg_put_next p.next_seq p.next_txn p.payload json_type in
      let (n, good) = serves.writes p.next_seq p.next_txn p.payload json_type s.world up free in
      on_result_cases Succeeds _ _ (call m) s
        (λ _ _.
          publish-Succeeds again loaded (record s { world = (m s.world).1 })
            (serves.write_up p.next_seq p.next_txn p.payload json_type s.world up free)
            (ap tag_of (laws.seg_put_keeps p.next_seq p.next_txn p.payload json_type s.world)
              ∙ tag))
        (λ e q. absurd (not_err good q)) (λ q. absurd (not_spent good q))

  commit_round-Succeeds :
      (again : Bool → Error → Exec Error (Live W) Unit) (s : Live W)
      → Up s.world
      → Free p.next_seq s.world
      → tag_of (head_of s.world) ≡ p.expected_tag
      → Succeeds (commit_round st p again false s)
  unfolding commit_round after_load
  commit_round-Succeeds again s up free tag =
      let good = serves.loads s.world up in
      bind_cases Succeeds _ (call st.head_load) s
        (λ loaded q.
          let same : head_of s.world ≡ loaded = ok_eq (sym good ∙ q) in
          rw (tag-is_stale p.expected_tag loaded (ap tag_of (sym same) ∙ tag)) (
            write_segment-Succeeds again loaded (record s { world = (st.head_load s.world).1 })
              (serves.load_up s.world up) (serves.load_free p.next_seq s.world up free)
              (ap tag_of (laws.load_keeps s.world) ∙ tag)))
        (λ e q. absurd (not_err good q)) (λ q. absurd (not_spent good q))

  commit_loop-Succeeds :
      (delays : List ℕ) (s : Live W)
      → Up s.world
      → Free p.next_seq s.world
      → tag_of (head_of s.world) ≡ p.expected_tag
      → Succeeds (commit_loop st p delays false s)
  unfolding commit_loop
  commit_loop-Succeeds [] s up free tag = commit_round-Succeeds (last_round st p) s up free tag
  commit_loop-Succeeds (d ∷ ds) s up free tag =
      commit_round-Succeeds (next_round st p d (commit_loop st p ds)) s up free tag

module _ {K V : Type 0} (limits : Limits) (s : Session K V) (payload : Text) (start : ℕ) where
  next_seq_after :
      (o : Option ℕ)
      → s.snapshot.last_segment_seq ≡ o
      → (plan_of limits s payload start).next_seq ≡ seq_after o
  unfolding plan_of or_zero saturating_add
  next_seq_after none e = rw e refl
  next_seq_after (some n) e = rw e refl

module _ {W K V : Type 0} (st : Stores W) (head_of : W → Head) (laws : HeadLaws st head_of)
    (Up : W → Type 0) (Free : ℕ → W → Type 0) (serves : Serves st head_of Up Free) (c : Codec K V)
    (limits : Limits) (s : Session K V) (live : Live W) where
  -- Over stores that are up, serve and keep the HEAD laws, where the staged segment encodes to the
  -- payload, HEAD still has the tag of the session's snapshot (or there is still none) and the number
  -- behind the snapshot's last segment is free, so that no orphan stands there: the commit returns Ok.
  pub commit-Succeeds :
      (payload : Text)
      → Up live.world
      → Free (seq_after s.snapshot.last_segment_seq) live.world
      → c.encode_segment (staged_segment s) ≡ some payload
      → tag_of (head_of live.world) ≡ s.snapshot.head_tag
      → (commit st c limits s live).0 ≡ ok tt
  unfolding commit
  commit-Succeeds payload up free encoded tag =
      let start = st.now live.world in
      let free' =
        subst (λ n. Free n live.world)
          (sym (next_seq_after limits s payload start s.snapshot.last_segment_seq refl)) free in
      subst (λ o. (commit_encoded st limits s o live).0 ≡ ok tt) (sym encoded)
        (unfold commit_encoded plan_of in
          commit_loop-Succeeds st head_of laws Up Free serves (plan_of limits s payload start)
            limits.delays live up free' tag)
