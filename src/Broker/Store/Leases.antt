-- ===== src/Broker/Store/Leases.antt =====
-- store.py: exclusive leases with a fencing number that only grows.
use eight_call.Prelude.{
  ℕ, ◌+◌, String, Bool, true, false, Option, none, some, ◌==◌, ltb, find, upsert, if◌then◌else◌,
}
use eight_call.Broker.Result.{ok, err, Action, denied, lease_held_by_other}
use eight_call.Broker.Store.{Store, Lease, lease_key}

pub record Leased : Type 0 where
  pub fencing : ℕ
  pub expires_ts : ℕ
  pub reused : Bool

unfoldable pub lease_of : String → Store → Option Lease
lease_of id s = find lease_key id s.leases

abbrev pub fencing_of : Option Lease → ℕ
fencing_of none = 0
fencing_of (some r) = r.fencing

unfoldable pub current_fencing : String → Store → ℕ
unfolding lease_of
current_fencing id s = fencing_of (lease_of id s)

-- The SELECT of the lease that has not expired.
abbrev unexpired : ℕ → Option Lease → Option Lease
unexpired now none = none
unexpired now (some r) = if ltb now r.expires_ts then some r else none

abbrev grant_lease : String → String → String → ℕ → String → ℕ → Action Store Leased
grant_lease id owner action ttl idem now s =
    let fence : ℕ = fencing_of (find lease_key id s.leases) + 1 in
    let row : Lease = record {
      target_id = id;
      fencing = fence;
      owner = owner;
      action = action;
      idem_key = idem;
      issued_ts = now;
      expires_ts = now + ttl;
    } in
    (
      ok (record { fencing = fence; expires_ts = now + ttl; reused = false }),
      record s { leases = upsert lease_key row s.leases },
    )

-- Exclusive per target, and idempotent for the same key. `target_id` is the primary key, so
-- MAX(fencing) is the fencing of the one row.
unfoldable pub acquire_lease : String → String → String → ℕ → String → ℕ → Action Store Leased
unfolding lease_of
acquire_lease id owner action ttl idem now s = elim (unexpired now (lease_of id s)) [
  | some r ↦
      if r.idem_key == idem
      then (ok (record { fencing = r.fencing; expires_ts = r.expires_ts; reused = true }), s)
      else (err (denied lease_held_by_other), s)
  | none ↦ grant_lease id owner action ttl idem now s
]
