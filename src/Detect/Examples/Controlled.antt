-- ===== src/Detect/Examples/Controlled.antt =====
-- A controller of detect/nodebox_controller.py with one node and a gate.
use eight_call.Prelude.{String, ◌≡◌, refl, true, List, [], ◌∷◌, none, some, contains, find, upsert}
use eight_call.Broker.Json
use eight_call.Broker.Json.{Fields, text, obj, end, field}
use eight_call.Broker.Gate.{difference}
use eight_call.Broker.Registry.Params.{codes}
use eight_call.Broker.Store.Enrollments.{sorted_set}
use eight_call.Detect.AuthzGate.{Caller, Gate, hmac}
use eight_call.Detect.AuthzGate.Match.{
  before_star, starts_with, target_matches, any_matches, params_within, try_grant, equals,
}
use eight_call.Detect.AuthzGate.Evaluate.{
  check_shape, find_caller, signed_message, verify_signature, check_fresh, try_grants, permits,
  match_grants, spend, prove, identify, evaluate_shape, evaluate,
}
use eight_call.Detect.AuthzGate.Audit.{audit_record, append_audit, authorize}
use eight_call.Detect.AuthzGate.Audit.Calls.{new_gate}
use eight_call.Detect.Examples.{host}
use eight_call.Detect.Examples.Nodes.{crypto}
use eight_call.Detect.Nodebox.{Bytes, framed}
use eight_call.Detect.Nodebox.Channel.{open_channel, send}
use eight_call.Detect.Nodebox.Protocol.{
  Auth, Hello, node_id_for, transcript1, transcript_full, finish_key, controller_hello, node_auth,
  attested, advance, finish_message, server_handshake,
}
use eight_call.Detect.Nodebox.Controller.{
  NodeRecord, Controller, new_controller, enroll, sorted, resolve_node, policy_caps, emit,
}
use eight_call.Detect.Nodebox.Controller.Sessions.{
  attach, welcome, open_session, flag_clone, flag_binding,
}
use eight_call.Detect.Nodebox.Controller.Dispatch.{
  Draw, Applied, dispatched, command, gate_target, gate_request, sign, signed_request,
  gate_decision, dispatch, apply_gated, apply_allowed, apply_start,
}
use eight_call.Detect.Nodebox.Controller.Permitted.{IsPermitted, apply-IsPermitted}
use eight_call.Detect.Nodebox.Controller.Life.{Event, begin, enrolled, step, run}
use eight_call.Detect.Nodebox.Controller.Enrolled.{WasAllowed, run-dispatch}

abbrev callers : List Caller
callers =
    record {
      name = "controller";
      alg = hmac;
      key = "secret";
      fingerprint = none;
      key_error = none;
      grants =
          record {
            action = "PING";
            targets = "node:*" ∷ [];
            params = end;
            not_before = none;
            not_after = none;
          }
          ∷ [];
    }
    ∷ []

abbrev gate : Gate
gate = new_gate callers 120 30

abbrev nodes : List NodeRecord
nodes = (enroll crypto "vm" "AQ==" "microvm" ("STATUS" ∷ "PING" ∷ []) "machine-id:1" 3 []).1

abbrev idle : Controller
idle = record {
  nodes = nodes;
  sessions = [];
  pending = [];
  telemetry = [];
  gate = some gate;
  gate_caller = "controller";
  gate_key = "secret";
}

began : new_controller nodes (some gate) "controller" "secret" ≡ some idle
unfolding new_controller
began = refl

abbrev first : Hello × Bytes
first = controller_hello crypto (1 ∷ []) "controller" (3 ∷ []) (4 ∷ [])

abbrev answer : Auth
answer = (node_auth crypto (1 ∷ []) first.1 (5 ∷ []) (6 ∷ [])).0

abbrev attestation : Fields
attestation = field "type" (text "ATTEST") (
    field "attestation"
      (obj (field "boot_id" (text "b1") (field "machine_binding" (text "machine-id:1") end))) end)

-- The node is enrolled again, with less, while its session lives.
abbrev events : List Event
events =
    begin first.1 (3 ∷ []) answer attestation 1 "s1" "10.0.0.2"
    ∷ enrolled "vm" "AQ==" "microvm" ("STATUS" ∷ []) "machine-id:1" 4
    ∷ []

abbrev digest : List String → String
digest caps = "digest"

abbrev live : Controller
live = run crypto (1 ∷ []) "controller" digest host events idle

abbrev draw : Draw
draw = record {
  nonce = "n1";
  issued_at = "1970-01-01T00:00:01Z";
  evaluated = 2000000;
  stamped = 2000000;
  command_id = "c1";
}

abbrev applied : Applied × Controller
applied = apply_start host draw "node-0" "PING" end none live

sent : applied ≡ (dispatched "c1" (some "hash") (command "c1" "PING" end), applied.1)
unfolding apply_start apply_allowed apply_gated dispatch gate_decision signed_request gate_request
    gate_target sign run step server_handshake node_id_for resolve_node attach welcome open_session
    flag_clone flag_binding emit policy_caps sorted_set enroll sorted upsert find contains
    difference Json.get authorize evaluate evaluate_shape identify find_caller prove
    verify_signature signed_message check_shape check_fresh spend match_grants permits try_grants
    try_grant any_matches target_matches before_star starts_with codes params_within append_audit
    audit_record equals attested advance finish_message send open_channel finish_key transcript_full
    transcript1 controller_hello node_auth framed new_gate
sent = refl

apply-IsPermitted_example : IsPermitted host live applied.1 draw "node-0" "PING" none (some "hash")
apply-IsPermitted_example =
    apply-IsPermitted host live draw "node-0" "PING" end none "c1" (some "hash")
      (command "c1" "PING" end) applied.1 sent

abbrev refused : Applied × Controller
refused = apply_start host draw "node-0" "RESTART_SERVICE" end none live

run-dispatch_example :
    (caps : List String) × WasAllowed crypto nodes events "node-0" caps
    × (contains "PING" caps ≡ true)
run-dispatch_example =
    run-dispatch crypto (1 ∷ []) "controller" digest host nodes (some gate) "controller" "secret"
      events idle draw "node-0" "PING" end none "c1" (some "hash") (command "c1" "PING" end)
      applied.1 began sent
