-- ===== src/Broker/Examples/Acting.antt =====
-- Authorized runs, from plasma/broker/broker/actions.py.
use eight_call.Prelude.{
  String, ◌≡◌, refl, true, false, none, some, ◌==◌, find, contains, arith, update, append, upsert,
  count,
}
use eight_call.Broker.Json
use eight_call.Broker.Json.{text, end, field}
use eight_call.Broker.Result.{Result, ok, err, killed}
use eight_call.Broker.Grant
use eight_call.Broker.Store.{Store, Target, running, outcome_unknown, run_key, token_key}
use eight_call.Broker.Store.Ops.{apply}
use eight_call.Broker.Store.Ops
use eight_call.Broker.Store.Ops.Keys.{IsKeyed}
use eight_call.Broker.Store.Ops.Claims.{is_open}
use eight_call.Broker.Store.Ops.History.{Reaches-refl, Reaches-IsKeyed}
use eight_call.Broker.Store.Requests.{record_request, settle_request, is_recorded}
use eight_call.Broker.Store.Decisions.{append_decision}
use eight_call.Broker.Store.Tokens.{mint_token, claim_run, has_fence}
use eight_call.Broker.Store.Runs.{finish_run, reconcile_runs, add_observation}
use eight_call.Broker.Store.Leases.{acquire_lease, lease_of, current_fencing}
use eight_call.Broker.Store.Enrollments.{
  sorted_set, insert_sorted, enrollment_by_target, enrollment_by_pod,
}
use eight_call.Broker.Store.Targets.{target}
use eight_call.Broker.Registry
use eight_call.Broker.Registry.Params.{validate_params, has_extra, check_rules}
use eight_call.Broker.Gate.{Payload}
use eight_call.Broker.Gate.Trust.{public_for, entry_for, grant_for, grants_of, first_grant}
use eight_call.Broker.Gate.Records.{request_fields, record_nonce}
use eight_call.Broker.Gate.Authorize.{
  screen, screen_fresh, vet_enrollment, vet, payload_of, allowance, mint_allowed, issue,
  after_lease, grant_access, claim_nonce, proceed, authorize, token_text,
}
use eight_call.Broker.Gate.Authorize.History.{authorize-IsHistory}
use eight_call.Broker.Gate.Verify.{verify_token, check_payload}
use eight_call.Broker.Possession.{verify_target, is_pinned}
use eight_call.Broker.Actions.{
  Outcome, hit, run, conclude, after_claim, execute, note_possession, possess, run_on, run_verified,
  run_authorized,
}
use eight_call.Broker.Actions.Outcomes.{is_started}
use eight_call.Broker.Actions.Promises.{
  run_authorized_sound, run_authorized-once, run_authorized-killed, run_state,
}
use eight_call.Broker.Examples.{
  digest, actual, keys, policy, request, ready, sign, accepts, host, allowed, at_gate, in_run,
  world,
}
use eight_call.Broker.Examples.Deciding.{decided, ready-IsKeyed}

-- The run under the token that was handed out, and the database that it leaves.
abbrev acted : Result Outcome × Store
acted =
    run_authorized host (world none) (in_run 110) "phone" "ping" keys (some allowed.token) "pod-1"
      "run-1" decided.1

abbrev struck : Result Outcome × Store
struck =
    run_authorized host (world (some "after_action")) (in_run 110) "phone" "ping" keys
      (some allowed.token) "pod-1" "run-1" decided.1

-- Too late for the token.
abbrev refused : Result Outcome × Store
refused =
    run_authorized host (world none) (in_run 131) "phone" "ping" keys (some allowed.token) "pod-1"
      "run-1" decided.1

acted_lem :
    (is_started acted.0 ≡ true)
    × (is_started refused.0 ≡ false)
    × (struck.0 ≡ err (killed "after_action"))
unfolding authorize proceed screen screen_fresh public_for entry_for contains accepts digest actual
    Ops.run apply record_nonce record_request is_recorded request_fields claim_nonce vet
    validate_params has_extra check_rules Registry.get Registry.lookup Registry.capabilities
    grant_for grants_of first_grant vet_enrollment enrollment_by_target target grant_access
    acquire_lease lease_of after_lease issue allowance append_decision mint_allowed payload_of
    mint_token settle_request find update append upsert sign Json.get Json.put sorted_set
    insert_sorted enrollment_by_pod count run_authorized run_verified verify_token check_payload
    current_fencing run_on possess verify_target note_possession add_observation execute claim_run
    after_claim hit conclude run Grant.mint Grant.check Grant.consume Grant.new finish_run
acted_lem = (refl, refl, refl)

decided-IsKeyed : IsKeyed decided.1
decided-IsKeyed =
    Reaches-IsKeyed digest actual
      ((authorize-IsHistory host actual keys policy (some "gate.key") (at_gate 100) "gate" request
          "signed:n1").at
        ready)
      ready-IsKeyed

run_authorized_sound_example :
    (p : Payload) × (t : Target) × (seen : String) × (verify_token host keys
        (some allowed.token)
        "phone"
        "ping"
        110
        decided.1
      ≡ ok p)
    × (target "phone" decided.1 ≡ some t)
    × ((t.status == "enabled") ≡ true)
    × (verify_target (world none).network true t.address t.transport_port t.key_fingerprint
        ≡ ok seen)
    × (is_pinned t.key_fingerprint seen ≡ true)
    × (has_fence p.fencing (lease_of "phone" decided.1) ≡ true)
    × (is_open "phone" "ping" p.fencing 110 (
          find token_key
            (digest (field "tok" (text (token_text allowed.token)) end))
            decided.1.tokens)
        ≡ true)
run_authorized_sound_example =
    run_authorized_sound host (world none) (in_run 110) "phone" "ping" keys allowed.token "pod-1"
      "run-1" decided.1 decided-IsKeyed acted_lem.0

-- The same token right after, for another run.
run_authorized-once_example :
    is_started
      (run_authorized host
        (world none)
        (in_run 115)
        "phone"
        "ping"
        keys
        (some allowed.token)
        "pod-1"
        "run-2"
        acted.1).0
    ≡ false
run_authorized-once_example =
    run_authorized-once actual host (world none) (world none) (in_run 110) (in_run 115) "phone"
      "ping" "phone" "ping" keys keys allowed.token "pod-1" "run-1" "pod-1" "run-2" decided.1
      acted.1 decided-IsKeyed acted_lem.0 (Reaches-refl digest actual acted.1)

run_authorized-killed_example :
    (run_state (find run_key "run-1" struck.1.runs) ≡ some running)
    × (run_state (find run_key "run-1" (reconcile_runs 60 200 struck.1).1.runs)
        ≡ some outcome_unknown)
run_authorized-killed_example =
    run_authorized-killed host (world (some "after_action")) (in_run 110) "phone" "ping" keys
      allowed.token "pod-1" "run-1" "after_action" decided.1 60 200 acted_lem.2 (omega arith)
