-- ===== src/Manifest/Session/Commit.antt =====
-- `commit` over any stores that keep the HEAD laws, whatever else fails.
use fusio.Base.{
  ℕ, ◌≡◌, ◌≢◌, ◌∙◌, subst, refl, sym, Bool-cases, inl, inr, List, [], ◌∷◌, Option, none, some, Bool,
  true, false, Text, arith,
}
use fusio.Effect.{Result, ok, err, spent, Exec, fail, bind_cases, on_result_cases, ignoring_cases}
use fusio.Manifest.Types.{HeadJson, Error, LeaseHandle, precondition_failed}
use fusio.Manifest.Backoff.{classify_error, by_class_cases}
use fusio.Manifest.Stores.{Stores, Codec}
use fusio.Manifest.Heads.{Head, Put, Loaded, HeadLaws}
use fusio.Manifest.Session.Writes.{
  call, release_taken, Live, Plan, Limits, Session, release_lease, release_lease_silent, give_up,
  retry, publish, write_segment, commit_round, commit_loop, next_head, is_stale, staged_segment,
  plan_of, last_round, next_round, sleep_then, after_load, commit_encoded, commit, put_condition,
  json_type,
}

-- The tag of HEAD.
abbrev pub tag_of : Head → Option Text
tag_of none = none
tag_of (some (h, t)) = some t

-- The HEAD that a plan leads to: its segment and its transaction, and what it keeps of the one before.
abbrev pub IsNext : Plan → Head → HeadJson → Type 0
IsNext p none h =
    (h.last_segment_seq ≡ some p.next_seq)
    × (h.last_txn_id ≡ p.next_txn)
    × (h.checkpoint_id ≡ none)
    × (h.version ≡ 1)
IsNext p (some (j, t)) h =
    (h.last_segment_seq ≡ some p.next_seq)
    × (h.last_txn_id ≡ p.next_txn)
    × (h.checkpoint_id ≡ j.checkpoint_id)
    × (h.version ≡ j.version)

-- All or nothing: HEAD moved from the plan's to the plan's next, or did not move.
abbrev pub Atomic : Plan → Head → Head → Result Error Unit → Type 0
Atomic p before after (ok u) =
    (tag_of before ≡ p.expected_tag)
    × ((h : HeadJson) × ((t : Text) × (IsNext p before h × (after ≡ some (h, t)))))
Atomic p before after _ = after ≡ before

next_head-IsNext : (p : Plan) (before : Head) → IsNext p before (next_head p before)
unfolding next_head
next_head-IsNext p none = (refl, refl, refl, refl)
next_head-IsNext p (some (j, t)) = (refl, refl, refl, refl)

module _ {W : Type 0} (st : Stores W) (head_of : W → Head) (laws : HeadLaws st head_of)
    (p : Plan) where
  taken_keeps : (o : Option LeaseHandle) (w : W) → head_of (release_taken st o w).1 ≡ head_of w
  unfolding release_taken
  taken_keeps none w = refl
  taken_keeps (some l) w = laws.release_keeps l w

  -- The round ends in an outcome that is atomic, from a world that has the HEAD still.
  abbrev Ends : Head → Result Error Unit × Live W → Type 0
  Ends before o = Atomic p before (head_of (o.1).world) (o.0)

  silent_keeps : (s : Live W) → head_of (release_lease_silent st s).1.world ≡ head_of s.world
  unfolding release_lease_silent release_lease
  silent_keeps s =
      ignoring_cases (λ o. head_of (o.1).world ≡ head_of s.world) (release_lease st) s
        (taken_keeps s.lease s.world) (λ _. taken_keeps s.lease s.world)

  pub taken_answers : (o : Option LeaseHandle) (w : W) → (release_taken st o w).0 ≢ spent
  unfolding release_taken
  taken_answers none w = λ e. cc
  taken_answers (some l) w = laws.release_answers l w

  give_up-Ends :
      (before : Head) (e : Error) (s : Live W)
      → head_of s.world ≡ before
      → Ends before (give_up st p e s)
  unfolding give_up
  give_up-Ends before e s same =
      bind_cases (Ends before) (λ _. fail e) (release_lease_silent st) s
        (λ _ _. silent_keeps s ∙ same) (λ _ _. silent_keeps s ∙ same) (λ _. silent_keeps s ∙ same)

  -- The lease is released after the put; the outcome is the put's.
  succeed_Ends :
      (before : Head) (t : Text) (s : Live W)
      → tag_of before ≡ p.expected_tag
      → head_of s.world ≡ some (next_head p before, t)
      → Ends before (release_lease_silent st s)
  unfolding release_lease_silent release_lease
  succeed_Ends before t s tag moved =
      ignoring_cases (Ends before) (release_lease st) s
        (
          tag,
          (
            next_head p before,
            (t, (next_head-IsNext p before, taken_keeps s.lease s.world ∙ moved)),
          ),
        )
        (λ e. absurd (taken_answers s.lease s.world e))

  fresh_tag :
      (loaded : Head) → is_stale p.expected_tag loaded ≡ false → tag_of loaded ≡ p.expected_tag
  unfolding is_stale
  fresh_tag none h = ground arith
  fresh_tag (some (j, t)) h = ground arith

  -- What the next round owes.
  abbrev AgainEnds : Head → (Bool → Error → Exec Error (Live W) Unit) → Type 0
  AgainEnds before again =
      (b : Bool) (e : Error) (s : Live W) → head_of s.world ≡ before → Ends before (again b e s)

  publish-Ends :
      (again : Bool → Error → Exec Error (Live W) Unit) (loaded : Head) (s : Live W)
      → AgainEnds loaded again
      → tag_of loaded ≡ p.expected_tag
      → head_of s.world ≡ loaded
      → Ends loaded (publish st p again loaded s)
  unfolding publish
  publish-Ends again loaded s ih tag same =
      let h = next_head p loaded in
      let c = put_condition p.expected_tag in
      let w' = (st.head_put h c s.world).1 in
      let s' : Live W = record s { world = w' } in
      let after = λ (r : Result Error Text) (e : (st.head_put h c s.world).0 ≡ r).
        subst (Put h c (head_of s.world) (head_of w')) e (laws.put_lem h c s.world) in
      on_result_cases (Ends loaded) _ _ (call (st.head_put h c)) s
        (λ t e. succeed_Ends loaded t s' tag (after (ok t) e).1)
        (λ e q.
          let kept = after (err e) q ∙ same in
          by_class_cases (λ m. Ends loaded (m s')) (classify_error e) (again true e)
            (give_up st p precondition_failed) (give_up st p e) (ih true e s' kept)
            (give_up-Ends loaded precondition_failed s' kept) (give_up-Ends loaded e s' kept))
        (λ q. after spent q ∙ same)

  write_segment-Ends :
      (again : Bool → Error → Exec Error (Live W) Unit) (loaded : Head) (s : Live W)
      → AgainEnds loaded again
      → tag_of loaded ≡ p.expected_tag
      → head_of s.world ≡ loaded
      → Ends loaded (write_segment st p again loaded s)
  unfolding write_segment
  write_segment-Ends again loaded s ih tag same =
      let m = st.seg_put_next p.next_seq p.next_txn p.payload json_type in
      let s' : Live W = record s { world = (m s.world).1 } in
      let kept : head_of s'.world ≡ loaded =
        laws.seg_put_keeps p.next_seq p.next_txn p.payload json_type s.world ∙ same in
      on_result_cases (Ends loaded) _ _ (call m) s (λ _ _. publish-Ends again loaded s' ih tag kept)
        (λ e _.
          by_class_cases (λ n. Ends loaded (n s')) (classify_error e) (again false e)
            (give_up st p e) (give_up st p e) (ih false e s' kept) (give_up-Ends loaded e s' kept)
            (give_up-Ends loaded e s' kept))
        (λ _. kept)

  checked_Ends :
      (again : Bool → Error → Exec Error (Live W) Unit) (written : Bool) (loaded : Head)
      (s : Live W)
      → AgainEnds loaded again
      → head_of s.world ≡ loaded
      → Ends loaded (after_load st p again written loaded s)
  unfolding after_load
  checked_Ends again written loaded s ih same = elim (Bool-cases (is_stale p.expected_tag loaded)) [
    | inl stale ↦ rw stale (give_up-Ends loaded precondition_failed s same)
    | inr current ↦
        let tag = fresh_tag loaded current in
        rw current (elim (Bool-cases written) [
          | inl e ↦ rw e (publish-Ends again loaded s ih tag same)
          | inr e ↦ rw e (write_segment-Ends again loaded s ih tag same)
        ])
  ]

  commit_round-Ends :
      (again : Bool → Error → Exec Error (Live W) Unit) (written : Bool) (before : Head)
      (s : Live W)
      → AgainEnds before again
      → head_of s.world ≡ before
      → Ends before (commit_round st p again written s)
  unfolding commit_round
  commit_round-Ends again written before s ih same =
      let s' : Live W = record s { world = (st.head_load s.world).1 } in
      let kept : head_of s'.world ≡ before = laws.load_keeps s.world ∙ same in
      bind_cases (Ends before) _ (call st.head_load) s
        (λ loaded q.
          let e : loaded ≡ before =
            subst (Loaded (head_of s.world)) q (laws.load_answer s.world) ∙ same in
          subst (λ b. Ends b (after_load st p again written loaded s')) e
            (checked_Ends again written loaded s' (subst (λ b. AgainEnds b again) (sym e) ih)
              (kept ∙ sym e)))
        (λ _ _. kept) (λ _. kept)

  retry-Ends :
      (next : Exec Error (Live W) Unit) (before : Head) (e : Error) (s : Live W)
      → Ends before (next s)
      → Ends before (give_up st p e s)
      → Ends before (retry st p next e s)
  unfolding retry
  retry-Ends next before e s go stop = ground arith

  commit_loop-Ends :
      (delays : List ℕ) (written : Bool) (before : Head) (s : Live W)
      → head_of s.world ≡ before
      → Ends before (commit_loop st p delays written s)
  unfolding commit_loop
  commit_loop-Ends [] written before s same =
      commit_round-Ends (last_round st p) written before s
        (unfold last_round in
          λ b e s' k.
            retry-Ends (give_up st p e) before e s' (give_up-Ends before e s' k)
              (give_up-Ends before e s' k))
        same
  commit_loop-Ends (d ∷ ds) written before s same =
      commit_round-Ends (next_round st p d (commit_loop st p ds)) written before s
        (unfold next_round sleep_then in
          λ b e s' k.
            retry-Ends (sleep_then st p d (commit_loop st p ds b)) before e s'
              (commit_loop-Ends ds b before (record s' { world = st.sleep d s'.world })
                (laws.sleep_keeps d s'.world ∙ k))
              (give_up-Ends before e s' k))
        same

module _ {W K V : Type 0} (st : Stores W) (head_of : W → Head) (laws : HeadLaws st head_of)
    (c : Codec K V) (limits : Limits) (s : Session K V) (live : Live W) where
  -- The plan of the commit.
  abbrev pub the_plan : Text → Plan
  the_plan payload = plan_of limits s payload (st.now live.world)

  -- Over stores that keep the HEAD laws, and where the staged segment encodes to the payload: a commit
  -- that returns Ok found HEAD at the tag of its snapshot and has replaced it by one with the plan's
  -- segment and transaction and the checkpoint and version of before (none and 1 where there was none);
  -- one that fails, whatever failed and however many rounds it took, leaves HEAD as it was.
  pub commit-Atomic :
      (payload : Text)
      → c.encode_segment (staged_segment s) ≡ some payload
      → Atomic
          (the_plan payload)
          (head_of live.world)
          (head_of (commit st c limits s live).1.world)
          (commit st c limits s live).0
  unfolding commit
  commit-Atomic payload encoded =
      subst
        (λ o.
          let r = commit_encoded st limits s o live in
          Atomic (the_plan payload) (head_of live.world) (head_of (r.1).world) (r.0))
        (sym encoded)
        (unfold commit_encoded in
          commit_loop-Ends st head_of laws (the_plan payload) limits.delays false
            (head_of live.world) live refl)
