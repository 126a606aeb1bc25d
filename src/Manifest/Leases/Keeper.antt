-- ===== src/Manifest/Leases/Keeper.antt =====
-- fusio-manifest/src/lease/keeper.rs: the worker that keeps a lease alive. The stop flag is set from
-- outside: a run is given what the worker reads there, at the head of the loop and after the sleep.
use fusio.Base.{
  ℕ, ◌/◌, ◌*◌, ◌≤◌, Option, none, some, ◌≡◌, refl, max, List, [], ◌∷◌, Bool, true, false, ◌==◌,
  if◌then◌else◌, arith,
}
use fusio.Effect.{Result, ok, err, spent}
use fusio.Manifest.Types.{
  Error, unimplemented, precondition_failed, corrupt, other, io, LeaseHandle,
}

-- heartbeat_interval, in nanoseconds; a tenth of a second at least.
abbrev pub tenth : ℕ
tenth = 100000000

unfoldable pub heartbeat_interval : ℕ → ℕ
heartbeat_interval ttl = if ttl / 2 == 0 then tenth else max (ttl / 2) tenth

module _ {W : Type 0} (sleep : ℕ → W → W) (heartbeat : LeaseHandle → ℕ → W → Result Error Unit × W)
    (release : LeaseHandle → W → Result Error Unit × W) (lease : LeaseHandle) (ttl : ℕ) where
  -- `match heartbeat { Err(PreconditionFailed) => break, _ => {} }`
  unfoldable pub beat_or_end : {A : Type 0} → Result Error Unit → A → A → A
  beat_or_end (err precondition_failed) go end = end
  beat_or_end (err unimplemented) go end = go
  beat_or_end (err corrupt) go end = go
  beat_or_end (err other) go end = go
  beat_or_end (err (io e)) go end = go
  beat_or_end (ok _) go end = go
  beat_or_end spent go end = go

  -- LeaseKeeperWorker::run: the world when the worker ends, if it does on these reads.
  unfoldable pub run : List (Bool × Bool) → W → Option W
  unfolding beat_or_end heartbeat_interval
  run [] w = none
  run ((true, after) ∷ reads) w = some (release lease w).1
  run ((false, true) ∷ reads) w = some (release lease (sleep (heartbeat_interval ttl) w)).1
  run ((false, false) ∷ reads) w =
      let (r, w') = heartbeat lease ttl (sleep (heartbeat_interval ttl) w) in
      beat_or_end r (run reads w') (some (release lease w').1)

  -- The stop flag is read as set.
  abbrev pub Stops : List (Bool × Bool) → Type 0
  Stops [] = ⊥
  Stops ((true, after) ∷ reads) = Unit
  Stops ((false, true) ∷ reads) = Unit
  Stops ((false, false) ∷ reads) = Stops reads

  abbrev Ends : Option W → Type 0
  Ends o = (v : W) × (o ≡ some (release lease v).1)

  beat-Ends :
      (r : Result Error Unit) (go : Option W) (v : W)
      → Ends go
      → Ends (beat_or_end r go (some (release lease v).1))
  unfolding beat_or_end
  beat-Ends (err precondition_failed) go v h = (v, refl)
  beat-Ends (err unimplemented) go v h = h
  beat-Ends (err corrupt) go v h = h
  beat-Ends (err other) go v h = h
  beat-Ends (err (io e)) go v h = h
  beat-Ends (ok _) go v h = h
  beat-Ends spent go v h = h

  -- A keeper that once reads the stop flag as set ends, whatever the heartbeats answer, and the last
  -- thing that it does is to release the lease.
  pub run-Ends :
      (reads : List (Bool × Bool)) (w : W)
      → Stops reads
      → (v : W) × (run reads w ≡ some (release lease v).1)
  unfolding run
  run-Ends [] w h = absurd h
  run-Ends ((true, after) ∷ reads) w h = (w, refl)
  run-Ends ((false, true) ∷ reads) w h = (sleep (heartbeat_interval ttl) w, refl)
  run-Ends ((false, false) ∷ reads) w h =
      let o = heartbeat lease ttl (sleep (heartbeat_interval ttl) w) in
      beat-Ends o.0 (run reads o.1) o.1 (run-Ends reads o.1 h)

-- For a time to live of at least two tenths of a second, the keeper sleeps a tenth of a second at
-- least, and two sleeps are not longer than the time to live.
pub heartbeat_interval-bounds :
    (ttl : ℕ)
    → 200000000 ≤ ttl
    → (tenth ≤ heartbeat_interval ttl) × (heartbeat_interval ttl * 2 ≤ ttl)
unfolding heartbeat_interval
heartbeat_interval-bounds ttl h = (ground arith, ground arith)
