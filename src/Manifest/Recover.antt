-- ===== src/Manifest/Recover.antt =====
-- fusio-manifest/src/manifest.rs: recover_orphans, which adopts segments that are written but not
-- published.
pub mod Probing
pub mod Adopt
use fusio.Base.{
  ℕ, zero, suc, ◌+◌, max, List, [], ◌∷◌, map, Option, none, some, Bool, true, false, not, ltb, leb,
  ◌==◌, if◌then◌else◌, saturating_add, any, Text,
}
use fusio.Effect.{Exec, pure, fail, exhausted, ◌>>=◌, on_result}
use fusio.Manifest.Types.{
  Error, precondition_failed, HeadJson, PutCondition, if_not_exists, if_match, ActiveLease,
}
use fusio.Manifest.Backoff.{classify_error, by_class}
use fusio.Manifest.Stores.{Stores}
use fusio.Manifest.Session.Writes.{or_zero}

-- The variables of the probe loop.
pub record Probe : Type 0 where
  pub expected : ℕ
  pub adopted : ℕ
  pub max_seq : ℕ
  pub last_txn : ℕ

-- How the loop over a window ends: `break 'probe`, or the window's end, with `progressed`.
pub data Round : Type 0 where
  broken : Probe → Round
  at_end : Bool → Probe → Round

-- `active_txns.contains(&txn_id)`
unfoldable pub is_active : List ℕ → ℕ → Bool
unfolding any
is_active active txn = any (λ t. t == txn) active

-- The tests on the transaction of the segment that is next in line.
unfoldable pub refused : List ℕ → ℕ → ℕ → Bool
unfolding is_active saturating_add
refused active last_txn txn =
    if leb txn last_txn
    then true
    else if not (txn == saturating_add last_txn 1)
    then true
    else is_active active txn

unfoldable pub adopt : ℕ → ℕ → Probe → Probe
unfolding saturating_add
adopt seq txn p = record {
  expected = saturating_add p.expected 1;
  adopted = p.adopted + 1;
  max_seq = seq;
  last_txn = txn;
}

module _ {W : Type 0} (st : Stores W) (active : List ℕ) where
  -- The segment that is next in line, with its transaction: `more` goes on behind it.
  unfoldable pub meet_segment : (Probe → Exec Error W Round) → ℕ → Probe → ℕ → Exec Error W Round
  unfolding refused adopt
  meet_segment more seq p txn =
      if refused active p.last_txn txn then pure (broken p) else more (adopt seq txn p)

  -- for id in ids { .. }
  unfoldable pub probe_ids : List ℕ → Bool → Probe → Exec Error W Round
  unfolding meet_segment
  probe_ids [] progressed p = pure (at_end progressed p)
  probe_ids (seq ∷ ids) progressed p =
      let skip = probe_ids ids progressed p in
      if ltb seq p.expected then skip else if ltb p.expected seq then pure (broken p) else (do
        txn ← st.seg_load_meta seq
        if refused active p.last_txn txn
            then pure (broken p)
            else probe_ids ids true (adopt seq txn p))

  -- After a window: again if it made progress.
  unfoldable pub after_round : (Probe → Exec Error W Probe) → Round → Exec Error W Probe
  after_round again (broken p) = pure p
  after_round again (at_end true p) = again p
  after_round again (at_end false p) = pure p

  unfoldable pub probe_window : (Probe → Exec Error W Probe) → List ℕ → Probe → Exec Error W Probe
  unfolding probe_ids after_round
  probe_window again [] p = pure p
  probe_window again (i ∷ is) p = do r ← probe_ids (i ∷ is) false p; after_round again r

  -- 'probe: loop { .. }
  unfoldable pub probe : ℕ → Probe → Exec Error W Probe
  unfolding probe_window
  probe zero p = exhausted
  probe (suc fuel) p = do ids ← st.seg_list_from p.expected 256; probe_window (probe fuel) ids p

-- The head that the attempt starts from, and its condition.
unfoldable pub current_head : Option (HeadJson × Text) → HeadJson
current_head none = record {
  version = 1;
  checkpoint_id = none;
  last_segment_seq = none;
  last_txn_id = 0;
}
current_head (some (h, t)) = h

unfoldable pub current_condition : Option (HeadJson × Text) → PutCondition
current_condition none = if_not_exists
current_condition (some (h, t)) = if_match t

unfoldable pub start_probe : HeadJson → Probe
unfolding or_zero saturating_add
start_probe cur =
    let expected = saturating_add (or_zero cur.last_segment_seq) 1 in
    record {
      expected = if expected == 0 then 1 else expected;
      adopted = 0;
      max_seq = or_zero cur.last_segment_seq;
      last_txn = cur.last_txn_id;
    }

unfoldable pub adopted_head : HeadJson → Probe → HeadJson
adopted_head cur p = record {
  version = max cur.version 1;
  checkpoint_id = cur.checkpoint_id;
  last_segment_seq = some p.max_seq;
  last_txn_id = p.last_txn;
}

module _ {W : Type 0} (st : Stores W) where
  -- The answer to the put; `again` is the next attempt after a lost race.
  unfoldable pub on_put_error : Exec Error W ℕ → Error → Exec Error W ℕ
  on_put_error again precondition_failed = again
  on_put_error again e = fail e

  unfoldable pub publish_adopted :
      Exec Error W ℕ → Option (HeadJson × Text) → Probe → Exec Error W ℕ
  unfolding on_put_error adopted_head current_head current_condition
  publish_adopted again loaded p =
      if p.adopted == 0
      then pure 0
      else on_result (st.head_put (adopted_head (current_head loaded) p) (current_condition loaded))
          (λ _. pure p.adopted) (on_put_error again)

  unfoldable pub adopt_from :
      ℕ → Exec Error W ℕ → List ℕ → Option (HeadJson × Text) → Exec Error W ℕ
  unfolding publish_adopted start_probe probe
  adopt_from fuel again active loaded = do
    p ← probe st active fuel (start_probe (current_head loaded))
    publish_adopted again loaded p

  -- One attempt behind the lease listing.
  unfoldable pub attempt : ℕ → Exec Error W ℕ → List ActiveLease → Exec Error W ℕ
  unfolding adopt_from
  attempt fuel again leases = do
    loaded ← st.head_load
    adopt_from fuel again (map (λ l. l.snapshot_txn_id) leases) loaded

  -- One round; `again e` is what a transient error or a lost race leads to.
  unfoldable pub recover_round : ℕ → (Error → Exec Error W ℕ) → Exec Error W ℕ
  unfolding attempt
  recover_round fuel again w =
      on_result (st.lease_list_active (st.now w)) (attempt fuel (again precondition_failed))
        (λ e. by_class (classify_error e) (again e) (fail e) (fail e)) w

  unfoldable pub sleep_then : ℕ → Exec Error W ℕ → Error → Exec Error W ℕ
  sleep_then delay next e w = next (st.sleep delay w)

  unfoldable pub recover_orphans : ℕ → List ℕ → Exec Error W ℕ
  unfolding recover_round sleep_then
  recover_orphans fuel [] = recover_round fuel fail
  recover_orphans fuel (delay ∷ delays) =
      recover_round fuel (sleep_then delay (recover_orphans fuel delays))
