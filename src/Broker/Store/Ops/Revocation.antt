-- ===== src/Broker/Store/Ops/Revocation.antt =====
-- Revocation in store.py, and the revisions of enrollments over every history.
use eight_call.Prelude.{
  ◌||◌, ℕ, ◌+◌, ◌≤◌, String, ◌≡◌, refl, Bool, true, false, not, ◌&&◌, List, [], ◌∷◌, Option, none,
  some, ◌==◌, arith, is_some, find, find-update, find-append, key-find, eq_iff, count_key, count,
  ◌⊎◌, inl, inr, Option-cases, if◌then◌else◌,
}
use eight_call.Broker.Json.{Fields}
use eight_call.Broker.Result.{
  err, denied, unknown_target, already_revoked, stale_fencing, token_invalid_or_used,
}
use eight_call.Broker.Store.{
  Store, Target, Enrollment, Lease, TokenRow, target_key, enrolled_key, lease_key, token_key,
  is_revoked,
}
use eight_call.Broker.Store.Targets.{target}
use eight_call.Broker.Store.Enrollments.{enrollment_by_target}
use eight_call.Broker.Store.Leases.{lease_of}
use eight_call.Broker.Store.Decisions.{revoke_target}
use eight_call.Broker.Store.Tokens.{claim_run}
use eight_call.Broker.Store.Ops.{Op, apply, run, accept_policy_version}
use eight_call.Broker.Store.Ops.Keys.{IsKeyed, run-IsKeyed, apply-IsKeyed}
use eight_call.Broker.Store.Ops.Claims.{is_used, run-is_used, claim_used}

abbrev pub row_revoked : Option Target → Bool
row_revoked none = true
row_revoked (some r) = is_revoked r.state

-- The pod's enrollment, at a revision of at least `n`.
abbrev pub HasRevision : String → ℕ → Option Enrollment → Type 0
HasRevision pod n none = ⊥
HasRevision pod n (some e) = (e.pod_name ≡ pod) × (n ≤ e.revision)

abbrev pub IsExpired : Option Lease → Type 0
IsExpired none = Unit
IsExpired (some r) = r.expires_ts ≡ 0

abbrev pub IsSpent : String → Option TokenRow → Type 0
IsSpent id none = Unit
IsSpent id (some r) = (not (r.target_id == id) || r.used) ≡ true

-- The enrollment, where there is one, has moved to a higher revision in its pod.
abbrev pub IsMoved : Option Enrollment → Option Enrollment → Type 0
IsMoved none after = Unit
IsMoved (some e) after = HasRevision e.pod_name (e.revision + 1) after

module _ (digest : Fields → String) (id : String) (now : ℕ) (s : Store) (keyed : IsKeyed s) where
  -- A target that is unknown or revoked already is refused, and nothing changes.
  pub revoke_refused :
      row_revoked (target id s) ≡ true
      → revoke_target digest id now s
        ≡ (err (denied (if is_some (target id s) then already_revoked else unknown_target)), s)
  unfolding revoke_target
  revoke_refused h =
      ground
        (arith, count_key target_key id (λ r. not (is_revoked r.state)) s.targets keyed.targets)

  one_row :
      row_revoked (target id s) ≡ false
      → count (λ r. r.target_id == id && not (is_revoked r.state)) s.targets ≡ 1
  unfolding target
  one_row h =
      ground
        (arith, count_key target_key id (λ r. not (is_revoked r.state)) s.targets keyed.targets)

  module _ (approved_before : row_revoked (target id s) ≡ false) where
    target-revoke : row_revoked (target id (revoke_target digest id now s).1) ≡ true
    unfolding revoke_target
    target-revoke =
        grind (arith, one_row approved_before, find-update, key-find target_key id s.targets)

    enrollment-revoke :
        (o : Option Enrollment)
        → enrollment_by_target id s ≡ o
        → IsMoved o (enrollment_by_target id (revoke_target digest id now s).1)
    unfolding revoke_target enrollment_by_target
    enrollment-revoke none h = tt
    enrollment-revoke (some e) h =
        grind (arith, one_row approved_before, find-update, key-find enrolled_key id s.enrollments)

    lease-revoke : IsExpired (lease_of id (revoke_target digest id now s).1)
    unfolding revoke_target lease_of
    lease-revoke =
        grind (arith, one_row approved_before, find-update, key-find lease_key id s.leases)

    token-revoke :
        (d : String) → IsSpent id (find token_key d (revoke_target digest id now s).1.tokens)
    unfolding revoke_target
    token-revoke d = elim (Option-cases (find token_key d s.tokens)) [
      | inl missing ↦ grind (arith, one_row approved_before, find-update)
      | inr (r, found) ↦ grind (arith, one_row approved_before, find-update, eq_iff r.target_id id)
    ]

    -- Revoking a target that is not revoked yet marks it, moves its enrollment to a higher revision,
    -- ends its lease and uses up every token for it, all at once, and also where the audit record
    -- that follows is refused.
    -- The keys of the database's tables are distinct.
    pub revoke-effect :
        let s' = (revoke_target digest id now s).1 in
        (row_revoked (target id s') ≡ true)
        × IsMoved (enrollment_by_target id s) (enrollment_by_target id s')
        × IsExpired (lease_of id s')
        × ((d : String) → IsSpent id (find token_key d s'.tokens))
    revoke-effect = (
      target-revoke,
      enrollment-revoke (enrollment_by_target id s) refl,
      lease-revoke,
      token-revoke,
    )

module _ (digest : Fields → String) (actual : String → Option String) where
  apply-HasRevision :
      (id pod : String) (n : ℕ) (op : Op) (s : Store)
      → HasRevision pod n (enrollment_by_target id s)
      → HasRevision pod n (enrollment_by_target id (apply digest actual op s))
  unfolding apply enrollment_by_target
  apply-HasRevision id pod n (accept_policy_version v) s h = grind (arith, find-update, find-append)
  apply-HasRevision id pod n _ s h = grind (arith, find-update, find-append)

  -- A target stays in its pod, and the revision of its enrollment never decreases.
  pub run-HasRevision :
      (id pod : String) (n : ℕ) (ops : List Op) (s : Store)
      → HasRevision pod n (enrollment_by_target id s)
      → HasRevision pod n (enrollment_by_target id (run digest actual ops s))
  unfolding run
  run-HasRevision id pod n [] s h = h
  run-HasRevision id pod n (op ∷ ops) s h =
      run-HasRevision id pod n ops (apply digest actual op s) (apply-HasRevision id pod n op s h)

  used_row :
      (id d : String) (now : ℕ) (s : Store) (r : TokenRow)
      → IsKeyed s
      → row_revoked (target id s) ≡ false
      → find token_key d s.tokens ≡ some r
      → r.target_id ≡ id
      → is_used (find token_key d (revoke_target digest id now s).1.tokens) ≡ true
  unfolding revoke_target
  used_row id d now s r keyed live found here =
      grind (arith, one_row digest id now s keyed live, find-update, eq_iff r.target_id id)

  -- A token that was minted for a target before its revocation is never consumed after it, whatever
  -- else is done, approving the target again included: each claim is refused and changes nothing.
  -- The keys of the database's tables are distinct.
  pub revoke-claim :
      (id d : String) (now : ℕ) (s : Store) (r : TokenRow) (ops : List Op) (id' action : String)
      (fencing : ℕ) (run_id pod : String) (t : ℕ)
      → IsKeyed s
      → row_revoked (target id s) ≡ false
      → find token_key d s.tokens ≡ some r
      → r.target_id ≡ id
      → let s' = run digest actual ops (revoke_target digest id now s).1 in
        let (x, s'') = claim_run d id' action fencing run_id pod t s' in
        ((x ≡ err (denied stale_fencing)) ⊎ (x ≡ err (denied token_invalid_or_used))) × (s'' ≡ s')
  unfolding apply
  revoke-claim id d now s r ops id' action fencing run_id pod t keyed live found here =
      let s' = (revoke_target digest id now s).1 in
      claim_used d id' action fencing run_id pod t (run digest actual ops s')
        (run-IsKeyed digest actual ops s'
          (apply-IsKeyed digest actual (Op.revoke_target id now) s keyed))
        (run-is_used digest actual d ops s' (used_row id d now s r keyed live found here))
