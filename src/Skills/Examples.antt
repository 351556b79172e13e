-- ===== src/Skills/Examples.antt =====
-- skills/blue/authz-gate/scripts/eval_policy.py on the policy of its self-tests.
pub mod Logged
use eight_call.Prelude.{String, ◌≡◌, refl, true, false, [], ◌∷◌, Option, none, some, contains}
use eight_call.Broker.Json
use eight_call.Broker.Json.{Json, Fields, text, bool, end, field}
use eight_call.Broker.Registry.{lookup}
use eight_call.Detect.AuthzGate.Match.{equals}
use eight_call.Skills.EvalPolicy.{
  Role, Policy, Identity, Request, Approval, check_schema, check_names, validate_parameters,
  resolve_role, look, among, holds, matches, first_denial, context, refuse_scoped, refuse, evaluate,
}

abbrev operator : Role
operator = record {
  allow = "service.read" ∷ "service.restart" ∷ [];
  environments = some ("development" ∷ "staging" ∷ []);
  requires_approval = [];
}

abbrev production_operator : Role
production_operator = record {
  allow = "service.read" ∷ "service.restart" ∷ [];
  environments = some ("production" ∷ []);
  requires_approval = "service.restart" ∷ [];
}

abbrev policy : Policy
policy = record {
  version = 1;
  roles = ("operator", operator) ∷ ("production_operator", production_operator) ∷ [];
  actions =
      (
        "service.restart",
        record {
          resource_types = "service" ∷ [];
          parameters = ("graceful", record { type = "boolean"; required = true }) ∷ [];
        },
      )
      ∷ [];
  denials =
      record {
        all =
            record { path = "environment" ∷ []; op = "eq"; value = text "production" }
            ∷ record { path = "approval" ∷ "valid" ∷ []; op = "eq"; value = bool false }
            ∷ [];
        reason = "Production restart requires a valid human approval.";
      }
      ∷ [];
}

abbrev request : String → Request
request environment = record {
  request_id = "req_01";
  action = "service.restart";
  resource = field "type" (text "service") end;
  environment = environment;
  parameters = field "graceful" (bool true) end;
}

abbrev user : String → String → Identity
user id role = record {
  id = id;
  authenticated = true;
  session_expires_at = 60;
  roles = role ∷ [];
  whole = field "id" (text id) end;
}

abbrev approved_by : String → Option Approval
approved_by id = some (record { valid = true; approver = id })

-- The self-tests: staging, out of scope, no approval, another approver, the same approver.
self_tests :
    ((evaluate policy (request "staging") none 0 (some (user "user_123" "operator"))).permit ≡ true)
    × ((evaluate policy (request "production") none 0 (some (user "user_123" "operator"))).permit
        ≡ false)
    × ((evaluate policy
          (request "production")
          none
          0
          (some (user "prod" "production_operator"))).permit
        ≡ false)
    × ((evaluate policy
          (request "production")
          (approved_by "user_999")
          0
          (some (user "prod" "production_operator"))).permit
        ≡ true)
    × ((evaluate policy
          (request "production")
          (approved_by "prod")
          0
          (some (user "prod" "production_operator"))).permit
        ≡ false)
unfolding evaluate refuse lookup resolve_role refuse_scoped validate_parameters check_schema
    check_names first_denial matches holds look among equals context Json.get contains
self_tests = (refl, refl, refl, refl, refl)
