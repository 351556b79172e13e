-- ===== src/Broker/Store/Ops/Fences.antt =====
-- Leases and their fencing numbers over every history of store.py.
use eight_call.Prelude.{
  ℕ, ◌≤◌, ◌<◌, String, ◌≡◌, refl, Bool, true, false, not, ◌||◌, ◌&&◌, List, [], ◌∷◌, Option, none,
  some, ◌==◌, arith, ltb, find-update, find-upsert, eq_iff, eq_refl, key-find,
}
use eight_call.Broker.Json.{Fields}
use eight_call.Broker.Result.{ok, err, denied, lease_held_by_other}
use eight_call.Broker.Store.{Store, Lease, lease_key}
use eight_call.Broker.Store.Leases
use eight_call.Broker.Store.Leases.{Leased, lease_of, current_fencing}
use eight_call.Broker.Store.Ops.{
  Op, apply, run, accept_policy_version, acquire_lease, revoke_target,
}

-- The row of the table agrees with the lease that was handed out under `key`.
abbrev HasLease : String → Leased → Option Lease → Type 0
HasLease key l none = ⊥
HasLease key l (some r) =
    (r.idem_key ≡ key) × (r.fencing ≡ l.fencing) × (r.expires_ts ≡ l.expires_ts)

module _ (id owner action : String) (ttl : ℕ) (key : String) (now : ℕ) (s : Store)
    (l : Leased) where
  acquire-HasLease :
      (Leases.acquire_lease id owner action ttl key now s).0 ≡ ok l
      → HasLease key l (lease_of id (Leases.acquire_lease id owner action ttl key now s).1)
  unfolding Leases.acquire_lease lease_of
  acquire-HasLease h = grind (arith, find-upsert, eq_refl id, λ (r : Lease). eq_iff r.idem_key key)

  pub acquire-fence :
      (Leases.acquire_lease id owner action ttl key now s).0 ≡ ok l
      → (l.reused ≡ false → current_fencing id s < l.fencing)
        × (l.fencing ≡ current_fencing id (Leases.acquire_lease id owner action ttl key now s).1)
  unfolding Leases.acquire_lease current_fencing
  acquire-fence h = grind (arith, find-upsert, eq_refl id)

-- A lease that was found unexpired keeps other keys out.
held :
    (id owner action : String) (ttl : ℕ) (key : String) (now : ℕ) (s : Store) (r : Lease)
    → lease_of id s ≡ some r
    → now < r.expires_ts
    → (r.idem_key == key) ≡ false
    → Leases.acquire_lease id owner action ttl key now s ≡ (err (denied lease_held_by_other), s)
unfolding Leases.acquire_lease
held id owner action ttl key now s r h live other = ground arith

module _ (digest : Fields → String) (actual : String → Option String) where
  pub apply-fencing :
      (id : String) (op : Op) (s : Store)
      → current_fencing id s ≤ current_fencing id (apply digest actual op s)
  unfolding apply current_fencing
  apply-fencing id (acquire_lease t o a ttl k now) s = grind (arith, find-upsert, eq_iff t id)
  apply-fencing id (accept_policy_version v) s = grind (arith, find-update)
  apply-fencing id _ s = grind (arith, find-update)

  -- No operation lowers the fence of a target.
  pub run-fencing :
      (id : String) (ops : List Op) (s : Store)
      → current_fencing id s ≤ current_fencing id (run digest actual ops s)
  unfolding run
  run-fencing id [] s = omega arith
  run-fencing id (op ∷ ops) s =
      omega (arith, apply-fencing id op s, run-fencing id ops (apply digest actual op s))

  -- The operation neither revokes the target nor asks for its lease at or after `expires`.
  abbrev pub respects : String → ℕ → Op → Bool
  respects id expires (acquire_lease t o a ttl k now) = not (t == id) || ltb now expires
  respects id expires (revoke_target t now) = not (t == id)
  respects id expires _ = true

  abbrev pub all_respect : String → ℕ → List Op → Bool
  all_respect id expires [] = true
  all_respect id expires (op ∷ ops) = respects id expires op && all_respect id expires ops

  apply-lease_of :
      (id : String) (op : Op) (s : Store) (r : Lease)
      → lease_of id s ≡ some r
      → respects id r.expires_ts op ≡ true
      → lease_of id (apply digest actual op s) ≡ some r
  unfolding apply lease_of
  apply-lease_of id (acquire_lease t o a ttl k now) s r h e =
      grind (arith, find-upsert, eq_iff t id)
  apply-lease_of id (revoke_target t now) s r h e = grind (
    arith,
    find-update,
    key-find lease_key id s.leases,
    eq_iff r.target_id t,
    eq_iff r.target_id id,
    eq_iff t id,
  )
  apply-lease_of id (accept_policy_version v) s r h e = grind (arith, find-update)
  apply-lease_of id _ s r h e = grind (arith, find-update)

  run-lease_of :
      (id : String) (ops : List Op) (s : Store) (r : Lease)
      → lease_of id s ≡ some r
      → all_respect id r.expires_ts ops ≡ true
      → lease_of id (run digest actual ops s) ≡ some r
  unfolding run
  run-lease_of id [] s r h e = h
  run-lease_of id (op ∷ ops) s r h e =
      run-lease_of id ops (apply digest actual op s) r (apply-lease_of id op s r h (ground arith))
        (ground arith)

  -- The lease of a target is exclusive: between its being handed out and its expiry, whatever else is
  -- done but revoking that target or taking its lease at a later time, a request under another key
  -- is refused and changes nothing.
  pub lease-exclusive :
      (id : String) (o a o' a' : String) (ttl ttl' : ℕ) (k k' : String) (now t : ℕ) (s : Store)
      (l : Leased) (ops : List Op)
      → (Leases.acquire_lease id o a ttl k now s).0 ≡ ok l
      → all_respect id l.expires_ts ops ≡ true
      → t < l.expires_ts
      → (k == k') ≡ false
      → let s' = run digest actual ops (Leases.acquire_lease id o a ttl k now s).1 in
        Leases.acquire_lease id o' a' ttl' k' t s' ≡ (err (denied lease_held_by_other), s')
  lease-exclusive id o a o' a' ttl ttl' k k' now t s l ops got kept live other =
      exclusive (lease_of id after) refl (acquire-HasLease id o a ttl k now s l got)
    where
      after : Store
      after = (Leases.acquire_lease id o a ttl k now s).1

      exclusive :
          (row : Option Lease)
          → lease_of id after ≡ row
          → HasLease k l row
          → Leases.acquire_lease id o' a' ttl' k' t (run digest actual ops after)
            ≡ (err (denied lease_held_by_other), run digest actual ops after)
      exclusive none e h = absurd h
      exclusive (some r) e h =
          held id o' a' ttl' k' t (run digest actual ops after) r
            (run-lease_of id ops after r e (rw h.2 kept)) (omega arith) (rw h.0 other)

  -- Fencing numbers grow: a lease that is newly handed out has a larger one than every lease that was
  -- handed out for the same target before.
  pub lease-fencing :
      (id : String) (o a o' a' : String) (ttl ttl' : ℕ) (k k' : String) (now t : ℕ) (s : Store)
      (l l' : Leased) (ops : List Op)
      → (Leases.acquire_lease id o a ttl k now s).0 ≡ ok l
      → (Leases.acquire_lease id o' a' ttl' k' t
          (run digest actual ops (Leases.acquire_lease id o a ttl k now s).1)).0
        ≡ ok l'
      → l'.reused ≡ false
      → l.fencing < l'.fencing
  lease-fencing id o a o' a' ttl ttl' k k' now t s l l' ops got got' fresh = omega (
    arith,
    (acquire-fence id o a ttl k now s l got).1,
    run-fencing id ops (Leases.acquire_lease id o a ttl k now s).1,
    (acquire-fence id o' a' ttl' k' t
          (run digest actual ops (Leases.acquire_lease id o a ttl k now s).1) l' got').0
        fresh,
  )
