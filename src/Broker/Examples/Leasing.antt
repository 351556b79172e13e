-- ===== src/Broker/Examples/Leasing.antt =====
-- Leases of one target, from plasma/broker/broker/store.py.
use eight_call.Prelude.{ℕ, ◌≡◌, refl, false, List, [], ◌∷◌, arith, find, upsert}
use eight_call.Broker.Result.{Result, ok, err, denied, lease_held_by_other}
use eight_call.Broker.Store.{Store, empty}
use eight_call.Broker.Store.Leases.{Leased, acquire_lease, lease_of, current_fencing}
use eight_call.Broker.Store.Runs.{add_observation}
use eight_call.Broker.Store.Ops.{Op, apply, run}
use eight_call.Broker.Store.Ops.Fences.{lease-exclusive}
use eight_call.Broker.Examples.{digest, actual}

abbrev first : Result Leased × Store
first = acquire_lease "phone" "gate" "ping" 30 "k1" 10 empty

abbrev between : List Op
between =
    Op.add_observation "phone" "pop" "ok" 12
    ∷ Op.acquire_lease "tablet" "gate" "ping" 30 "k3" 13
    ∷ []

abbrev leased : ℕ → ℕ → Leased
leased n t = record { fencing = n; expires_ts = t; reused = false }

lease_lem :
    (first.0 ≡ ok (leased 1 40))
    × ((acquire_lease "phone" "gate" "ping" 30 "k2" 50 (run digest actual between first.1)).0
        ≡ ok (leased 2 80))
    × (current_fencing "phone" (run digest actual between first.1) ≡ 1)
unfolding acquire_lease lease_of current_fencing find upsert run apply add_observation
lease_lem = (refl, refl, refl)

lease-exclusive_example :
    acquire_lease "phone" "gate" "ping" 30 "k2" 20 (run digest actual between first.1)
    ≡ (err (denied lease_held_by_other), run digest actual between first.1)
lease-exclusive_example =
    lease-exclusive digest actual "phone" "gate" "ping" "gate" "ping" 30 30 "k1" "k2" 10 20 empty
      (leased 1 40) between lease_lem.0 refl (omega arith) refl
