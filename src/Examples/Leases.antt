-- ===== src/Examples/Leases.antt =====
-- The lease store over the in-memory file system, and the keeper, at concrete inputs.
use fusio.Base.{
  ℕ, ◌+◌, ◌≡◌, ◌≤◌, ◌*◌, ◌==◌, refl, min, List, [], ◌∷◌, Option, none, some, true, false,
  if◌then◌else◌, Text, Text-discrete, codes, u64_max, arith,
}
use fusio.Effect.{ok, err}
use fusio.Path.{parse, from, is_invalid}
use fusio.Memory
use fusio.Memory.{MemFs, EntryState, object, find}
use fusio.Manifest.Types.{unimplemented, LeaseHandle}
use fusio.Manifest.Table
use fusio.Manifest.InMemory.{mem_cas, mem_cas-CasLaws, Fine}
use fusio.Manifest.Files.{mem_files}
use fusio.Manifest.Segments.{under}
use fusio.Manifest.Segments.Listing.{answers}
use fusio.Manifest.Leases
use fusio.Manifest.Leases.{LeaseDoc, LeaseCodec, Clock, heartbeat, list_active}
use fusio.Manifest.Leases.Held.{Renewed, heartbeat-Renewed}
use fusio.Manifest.Leases.Active.{Unexpired, list_active-Unexpired, list_active-eq-unexpired}
use fusio.Manifest.Leases.Keeper.{
  run, run-Ends, tenth, heartbeat_interval, heartbeat_interval-bounds,
}
use fusio.Examples.Stores.{encode, blob}

abbrev to_doc : Text → Option LeaseDoc
to_doc (x ∷ e ∷ id) =
    some (record { id = id; snapshot_txn_id = x; expires_at_ms = e; head_tag = none })
to_doc _ = none

abbrev lease_codec : LeaseCodec
lease_codec = record {
  encode_lease = λ d. some (d.snapshot_txn_id ∷ d.expires_at_ms ∷ d.id);
  decode_lease = to_doc;
}

abbrev lease_clock : Clock MemFs
lease_clock = record { now = λ _. 1000; sleep = λ _ w. w }

abbrev lease_path : Text
lease_path = codes "db/leases/lease-7.json"

-- One lease, for transaction 5, until time 2000.
abbrev leased : MemFs
leased = record {
  heap = blob (5 ∷ 2000 ∷ codes "lease-7") ∷ [];
  objects = (lease_path, 0) ∷ [];
  counter = 1;
}

leased-Fine : Fine leased
leased-Fine =
    (record { addressed = (omega arith, tt); issued = ((1, omega arith, refl), tt) }, omega arith)

abbrev lease_handle : LeaseHandle
lease_handle = record { id = codes "lease-7"; snapshot_txn_id = 5 }

lease_parsed : parse (Leases.key_for (codes "db") (codes "lease-7")) ≡ ok lease_path
unfolding parse Text-discrete Leases.key_for
lease_parsed = refl

heartbeat_example :
    Renewed
      (mem_files encode)
      mem_cas
      lease_codec
      lease_clock
      encode
      (codes "db")
      object
      Fine
      mem_cas-CasLaws
      lease_path
      60000
      leased
      (heartbeat
        (mem_files encode)
        mem_cas
        lease_codec
        lease_clock
        encode
        (codes "db")
        lease_handle
        60000
        leased)
unfolding Memory.load_with_tag
heartbeat_example =
    heartbeat-Renewed (mem_files encode) mem_cas lease_codec lease_clock encode (codes "db") object
      Fine mem_cas-CasLaws lease_handle 60000 lease_path lease_parsed leased leased-Fine leased-Fine

unexpired_example :
    Unexpired
      (min 1500 u64_max)
      (list_active
        (mem_files encode)
        mem_cas
        lease_codec
        lease_clock
        encode
        (codes "db")
        1500
        leased).0
unexpired_example =
    list_active-Unexpired (mem_files encode) mem_cas lease_codec lease_clock encode (codes "db")
      1500 leased

abbrev lease_items : List (Text × ℕ)
lease_items = (lease_path, 9) ∷ []

abbrev lease_bytes : Text → Text
lease_bytes _ = 5 ∷ 2000 ∷ codes "lease-7"

lease_listed :
    Memory.list encode (from encode (under (codes "db") (codes "leases"))) leased
    ≡ (ok (answers lease_items), leased)
unfolding Memory.list answers from is_invalid Text-discrete under
lease_listed = refl

active_example :
    list_active (mem_files encode) mem_cas lease_codec lease_clock encode (codes "db") 1500 leased
    ≡ (ok (record { id = codes "lease-7"; snapshot_txn_id = 5; expires_at = 2000 } ∷ []), leased)
unfolding Memory.open_options Memory.read_to_end_at Text-discrete Table.get
active_example =
    list_active-eq-unexpired (mem_files encode) mem_cas lease_codec lease_clock encode (codes "db")
      1500 lease_bytes lease_items leased leased lease_listed ((_, refl, refl), tt)

-- Stopped in the third turn; the heartbeats count the turns, and the second one fails.
keeper_example :
    (v : ℕ) × (run
        (λ _ w. w)
        (λ _ _ w. (if w == 1 then err unimplemented else ok tt, w + 1))
        (λ _ w. (ok tt, w + 100))
        lease_handle
        300000000
        ((false, false) ∷ (false, false) ∷ (false, true) ∷ [])
        0
      ≡ some (v + 100))
keeper_example =
    run-Ends (λ _ w. w) (λ _ _ w. (if w == 1 then err unimplemented else ok tt, w + 1))
      (λ _ w. (ok tt, w + 100)) lease_handle 300000000
      ((false, false) ∷ (false, false) ∷ (false, true) ∷ []) 0 tt

interval_example :
    (tenth ≤ heartbeat_interval 300000000) × (heartbeat_interval 300000000 * 2 ≤ 300000000)
interval_example = heartbeat_interval-bounds 300000000 (omega arith)
