-- ===== src/Broker/Examples/Deciding.antt =====
-- The gate on a request, from plasma/broker/broker/gate.py.
use Prim.Native.String.{◌++◌ as concat}
use eight_call.Prelude.{
  ◌↔◌, inl, inr, ◌≤◌, ◌≢◌, String, ◌≡◌, refl, true, false, some, find, is_some, contains, arith,
  eq_refl, update, append, upsert, count,
}
use eight_call.Broker.Json
use eight_call.Broker.Json.{text, end, field}
use eight_call.Broker.Result.{Result, ok, err, denied, replay, bad_signature}
use eight_call.Broker.Store.{Store, Enrollment, run_key}
use eight_call.Broker.Store.Ops.{apply, run}
use eight_call.Broker.Store.Requests.{record_request, settle_request, is_recorded}
use eight_call.Broker.Store.Decisions.{append_decision}
use eight_call.Broker.Store.Tokens.{mint_token, claim_run}
use eight_call.Broker.Store.Leases.{acquire_lease, lease_of, current_fencing}
use eight_call.Broker.Store.Enrollments.{
  sorted_set, insert_sorted, enrollment_by_target, enrollment_by_pod,
}
use eight_call.Broker.Store.Targets.{target}
use eight_call.Broker.Registry
use eight_call.Broker.Registry.Params.{validate_params, has_extra, check_rules}
use eight_call.Broker.Gate.Trust.{public_for, entry_for, grant_for, grants_of, first_grant}
use eight_call.Broker.Gate.Records.{Verdict, allow, request_fields, record_nonce}
use eight_call.Broker.Gate.Authorize.{
  screen, screen_fresh, vet_enrollment, vet, payload_of, allowance, mint_allowed, issue,
  after_lease, grant_access, claim_nonce, proceed, authorize, rejected, gate_key_id, token_text,
}
use eight_call.Broker.Store.Ops.Keys.{IsKeyed, keys_distinct}
use eight_call.Broker.Store.Ops.History.{Reaches-refl}
use eight_call.Broker.Gate.{PolicyGrant, Payload}
use eight_call.Broker.Gate.Verify.{verify_token}
use eight_call.Broker.Gate.Authorize.Sound.{IsScreened, IsVetted}
use eight_call.Broker.Gate.Authorize.Issued.{authorize_sound}
use eight_call.Broker.Gate.Authorize.Once.{authorize-once}
use eight_call.Broker.Gate.Authorize.Usable.{authorize-usable}
use eight_call.Broker.Gate.Authorize.Audit.{IsForeign, IsRecorded, authorize-unaudited}
use eight_call.Broker.Examples.{
  digest, actual, setup, ready, keys, policy, request, sign, accepts, host, allowed, at_gate,
}

-- The call that allows the request, and the database that it leaves.
abbrev pub decided : Result Verdict × Store
decided =
    authorize host keys policy (some "gate.key") (at_gate 100) "gate" request "signed:n1" ready

pub decided_lem :
    (decided ≡ (ok (allow allowed), decided.1))
    × (is_some (find run_key "run-1" decided.1.runs) ≡ false)
    × (is_recorded (digest (request_fields request)) "n1" decided.1 ≡ true)
    × (screen host keys policy (some "gate.key") 100 request "forged" ≡ rejected bad_signature)
unfolding authorize proceed screen screen_fresh public_for entry_for contains accepts digest actual
    run apply record_nonce record_request is_recorded request_fields claim_nonce vet validate_params
    has_extra check_rules Registry.get Registry.lookup Registry.capabilities grant_for grants_of
    first_grant vet_enrollment enrollment_by_target target grant_access acquire_lease lease_of
    after_lease issue allowance append_decision mint_allowed payload_of mint_token settle_request
    find update append upsert sign Json.get Json.put sorted_set insert_sorted enrollment_by_pod
    count
decided_lem = (refl, refl, refl, refl)

pub ready-IsKeyed : IsKeyed ready
ready-IsKeyed = (keys_distinct digest actual setup).0

signed-accepts :
    (public path body signature : String)
    → public_for keys gate_key_id ≡ some public
    → some "gate.key" ≡ some path
    → sign body ≡ some signature
    → accepts body signature ≡ some true
unfolding sign accepts
signed-accepts public path body signature known here h =
    ground (arith, eq_refl (concat "signed:" body))

authorize_sound_example :
    IsScreened host keys policy (some "gate.key") 100 request "signed:n1"
    × (is_recorded (host.digest (request_fields request)) "n1" ready ≡ false)
    × ((g : PolicyGrant) × (e : Enrollment) × IsVetted host keys policy
          (some "gate.key")
          request
          ready
          allowed.params
          g
          e)
    × (allowed.target_id ≡ "phone")
    × (allowed.action ≡ "ping")
    × (allowed.fencing ≡ current_fencing "phone" decided.1)
    × (allowed.expires_ts ≤ 200)
authorize_sound_example =
    authorize_sound host keys policy (some "gate.key") (at_gate 100) "gate" request "signed:n1"
      ready decided.1 allowed decided_lem.0

-- The same request again, right after.
authorize-once_example :
    authorize host keys policy (some "gate.key") (at_gate 110) "gate" request "signed:n1" decided.1
    ≢ (ok (allow allowed), decided.1)
authorize-once_example =
    authorize-once actual host keys keys policy policy (some "gate.key") (some "gate.key")
      (at_gate 100) (at_gate 110) "gate" "gate" request request "signed:n1" "signed:n1" ready
      decided.1 decided.1 decided.1 allowed allowed decided_lem.0
      (Reaches-refl digest actual decided.1) refl

authorize-usable_example :
    ((p : Payload) × (verify_token host keys (some allowed.token) "phone" "ping" 120 decided.1
        ≡ ok p)
      × (p.params ≡ end)
      × (p.fencing ≡ 1))
    × ((claim_run
          (digest (field "tok" (text (token_text allowed.token)) end))
          "phone"
          "ping"
          1
          "run-1"
          "pod-1"
          120
          decided.1).0
        ≡ ok tt)
authorize-usable_example =
    authorize-usable host keys policy (some "gate.key") signed-accepts (at_gate 100) "gate" request
      "signed:n1" ready decided.1 allowed 120 "run-1" "pod-1" ready-IsKeyed decided_lem.0 refl
      (omega arith) decided_lem.1

-- The nonce again, under a forged signature.
forged_lem : IsForeign host keys policy (some "gate.key") 100 request "forged"
unfolding public_for entry_for accepts
forged_lem = inr ("aa", refl, inl refl)

authorize-unaudited_example :
    (authorize host keys policy (some "gate.key") (at_gate 100) "gate" request "forged" decided.1
      ≡ (err (denied replay), decided.1))
    ↔ IsRecorded (digest (request_fields request)) "n1" decided.1
authorize-unaudited_example =
    authorize-unaudited host keys policy (some "gate.key") (at_gate 100) "gate" request "forged"
      decided.1 (unfold contains in refl) forged_lem
