-- ===== src/Broker/Examples/Histories.antt =====
-- Histories of the database of plasma/broker/broker/store.py.
use eight_call.Prelude.{
  ◌≡◌, ◌↔◌, ◌⊎◌, refl, true, false, List, [], ◌∷◌, ◌++◌, some, arith, find, update, append, upsert,
  count,
}
use eight_call.Broker.Result.{ok, err, denied, stale_fencing, token_invalid_or_used}
use eight_call.Broker.Store.{Store, TokenRow, empty, token_key}
use eight_call.Broker.Store.Meta.{get_meta, set_meta, accept_policy_version}
use eight_call.Broker.Store.Targets.{target, add_target, approve_target, set_target_endpoint}
use eight_call.Broker.Store.Enrollments.{
  enroll, enrollment_by_target, enrollment_by_pod, sorted_set, insert_sorted,
}
use eight_call.Broker.Store.Leases.{acquire_lease, lease_of}
use eight_call.Broker.Store.Requests.{record_request, is_recorded}
use eight_call.Broker.Store.Decisions.{revoke_target}
use eight_call.Broker.Store.Tokens.{claim_run, mint_token}
use eight_call.Broker.Store.Ops.{Op, apply, run}
use eight_call.Broker.Store.Ops.Keys.{IsKeyed, keys_distinct}
use eight_call.Broker.Store.Ops.Claims.{IsClaim, claim_run_iff}
use eight_call.Broker.Store.Ops.Identity.{IsPinned}
use eight_call.Broker.Store.Ops.Revocation.{row_revoked, HasRevision, revoke-claim}
use eight_call.Broker.Examples.{digest, actual, setup, ready}

abbrev arming : List Op
arming =
    setup
    ++ Op.acquire_lease "phone" "gate" "ping" 30 "k1" 10
      ∷ Op.mint_token "tok" "d1" "phone" "ping" 1 40
      ∷ []

-- A lease and a token for the phone.
abbrev armed : Store
armed = run digest actual arming empty

abbrev minted : TokenRow
minted = record {
  token_digest = "tok";
  decision_id = "d1";
  target_id = "phone";
  action = "ping";
  fencing = 1;
  expires_ts = 40;
  used = false;
}

abbrev later : List Op
later =
    Op.approve_target "phone" "other" "fp2" "approval" 20
    ∷ Op.set_target_address "phone" "10.0.0.6"
    ∷ Op.acquire_lease "phone" "gate" "ping" 30 "k2" 50
    ∷ Op.reconcile_runs 5 60
    ∷ []

setup_lem :
    ((claim_run "tok" "phone" "ping" 1 "run-1" "pod-1" 20 armed).0 ≡ ok tt)
    × (find token_key "tok" armed.tokens ≡ some minted)
    × (row_revoked (target "phone" armed) ≡ false)
    × (row_revoked (target "tablet" ready) ≡ true)
    × IsPinned "fp" (target "phone" ready)
    × HasRevision "pod-1" 1 (enrollment_by_target "phone" ready)
unfolding claim_run run apply find update append upsert count accept_policy_version get_meta
    set_meta add_target target approve_target actual set_target_endpoint enroll enrollment_by_target
    enrollment_by_pod sorted_set insert_sorted acquire_lease lease_of mint_token
setup_lem = (refl, refl, refl, refl, (refl, refl), (refl, omega arith))

armed-IsKeyed : IsKeyed armed
armed-IsKeyed = (keys_distinct digest actual arming).0

claim_run_iff_example :
    ((claim_run "tok" "phone" "ping" 1 "run-1" "pod-1" 20 armed).0 ≡ ok tt)
    ↔ IsClaim "tok" "phone" "ping" 1 "run-1" 20 armed
claim_run_iff_example = claim_run_iff "tok" "phone" "ping" 1 "run-1" "pod-1" 20 armed armed-IsKeyed

recorded_lem : (record_request "d1" "n1" "toolbox" "ping" "phone" 5 empty).0 ≡ ok tt
unfolding record_request is_recorded find
recorded_lem = refl

accepted_lem : (accept_policy_version 2 empty).0 ≡ ok tt
unfolding accept_policy_version get_meta find
accepted_lem = refl

revoke-claim_example :
    let s' = run digest actual later (revoke_target digest "phone" 30 armed).1 in
    let (x, s'') = claim_run "tok" "phone" "ping" 1 "run-1" "pod-1" 35 s' in
    ((x ≡ err (denied stale_fencing)) ⊎ (x ≡ err (denied token_invalid_or_used))) × (s'' ≡ s')
revoke-claim_example =
    revoke-claim digest actual "phone" "tok" 30 armed minted later "phone" "ping" 1 "run-1" "pod-1"
      35 armed-IsKeyed setup_lem.2 setup_lem.1 refl
