-- ===== src/Broker/Gate/Verify.antt =====
-- gate.py: `verify_token`, the gate at the time of use. It reads the store and changes nothing.
use eight_call.Prelude.{
  ℕ, String, true, false, not, ◌||◌, List, Option, none, some, ◌==◌, ltb, nat_eq, contains,
  if◌then◌else◌,
}
use eight_call.Broker.Result.{
  Result, ok, err, Reason, denied, token_malformed, gate_key_unavailable, crypto_unavailable,
  bad_token_signature, token_expired, token_scope_mismatch, stale_fencing, target_not_enrolled,
  capability_not_granted_to_pod, target_disabled, target_not_approved,
}
use eight_call.Broker.Store.{Store, Enrollment, Target, is_approved, is_set}
use eight_call.Broker.Store.Targets.{target}
use eight_call.Broker.Store.Enrollments.{enrollment_by_target}
use eight_call.Broker.Store.Leases.{current_fencing}
use eight_call.Broker.Gate.{Host, Payload, Token, TrustedKey, token_keys, same_keys}
use eight_call.Broker.Gate.Trust.{public_for}
use eight_call.Broker.Gate.Authorize.{gate_key_id}

abbrev usable_target : Option Target → Option Reason
usable_target none = some target_disabled
usable_target (some t) =
    if not (is_approved t.state) || not (is_set t.public_key)
    then some target_not_approved
    else if not (t.status == "enabled")
    then some target_disabled
    else none

abbrev usable_enrollment : String → Option Target → Option Enrollment → Option Reason
usable_enrollment action t none = some target_not_enrolled
usable_enrollment action t (some e) =
    if not (e.status == "enabled")
    then some target_not_enrolled
    else if not (contains action e.caps)
    then some capability_not_granted_to_pod
    else usable_target t

abbrev or_payload : Payload → Option Reason → Result Payload
or_payload p none = ok p
or_payload p (some reason) = err (denied reason)

-- The tests after the signature: freshness, scope, fence, enrollment and target.
unfoldable pub check_payload : Payload → String → String → ℕ → Store → Result Payload
unfolding current_fencing enrollment_by_target target
check_payload p target_id action now s =
    if ltb p.expiry now
    then err (denied token_expired)
    else if not (p.target_id == target_id) || not (p.action == action)
    then err (denied token_scope_mismatch)
    else if not (nat_eq p.fencing (current_fencing target_id s))
    then err (denied stale_fencing)
    else or_payload p
        (usable_enrollment action (target target_id s) (enrollment_by_target target_id s))

-- `token` is `none` where the text has no dot; the body may be no JSON object of the closed schema.
unfoldable pub verify_token :
    Host → List TrustedKey → Option Token → String → String → ℕ → Store → Result Payload
unfolding public_for check_payload
verify_token c keys none target_id action now s = err (denied token_malformed)
verify_token c keys (some token) target_id action now s = elim (c.decode token.body) [
  | none ↦ err (denied token_malformed)
  | some p ↦
      if not (same_keys p.keys token_keys)
      then err (denied token_malformed)
      else elim (public_for keys gate_key_id) [
        | none ↦ err (denied gate_key_unavailable)
        | some public ↦ elim (c.verify public token.body token.signature) [
          | none ↦ err (denied crypto_unavailable)
          | some false ↦ err (denied bad_token_signature)
          | some true ↦ check_payload p target_id action now s
        ]
      ]
]
