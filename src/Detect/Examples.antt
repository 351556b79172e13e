-- ===== src/Detect/Examples.antt =====
-- detect/authz_gate.py on a small policy, with stand-ins for the signatures.
pub mod Nodes
pub mod Redacted
pub mod Controlled
pub mod Connected
pub mod Gated
pub mod Tailed
pub mod Commanded
pub mod Loaded
use eight_call.Prelude.{
  ℕ, String, ◌≡◌, ◌≢◌, refl, ◌⊎◌, ◌++◌, true, false, List, [], ◌∷◌, none, some, contains,
}
use eight_call.Broker.Json
use eight_call.Broker.Json.{Json, Fields, text, num, obj, null, end, field}
use eight_call.Broker.Gate.{difference}
use eight_call.Broker.Registry.Params.{codes}
use eight_call.Detect.AuthzGate.{Caller, Gate, Host, hmac}
use eight_call.Detect.AuthzGate.Match.{
  before_star, starts_with, target_matches, any_matches, params_within, equals, try_grant,
}
use eight_call.Detect.AuthzGate.Match.Scope.{target_matches_inv, params_within_inv, IsPermitted}
use eight_call.Detect.AuthzGate.Evaluate.{
  Shaped, shaped, check_shape, find_caller, signed_message, verify_signature, check_fresh,
  try_grants, permits, match_grants, spend, prove, identify, evaluate_shape, evaluate,
}
use eight_call.Detect.AuthzGate.Audit.{audit_record, append_audit, authorize, verify_audit_chain}
use eight_call.Detect.AuthzGate.Audit.Promises.{IsAudited, authorize-IsAudited}
use eight_call.Detect.AuthzGate.Audit.Calls.{
  Call, new_gate, serve, serve-verify_audit_chain, allow-once,
}
use eight_call.Detect.AuthzGate.Audit.Allowed.{IsAuthorized, allow-IsAuthorized}

abbrev pub callers : List Caller
callers =
    record {
      name = "bot";
      alg = hmac;
      key = "secret";
      fingerprint = none;
      key_error = none;
      grants =
          record {
            action = "run";
            targets = "host-*" ∷ [];
            params = field "script" (text "status") end;
            not_before = none;
            not_after = none;
          }
          ∷ [];
    }
    ∷ []

abbrev pub host : Host
host = record {
  digest = λ d. "hash";
  hmac_hex = λ key d. key;
  verify_ed25519 = λ key d sig. false;
  parse_ts = λ v. some 1000000;
  describe = λ reason. "reason";
  stamp = λ now. "now";
}

abbrev pattern : String
pattern = "host-*"

abbrev target : String
target = "host-1"

abbrev params : Fields
params = field "script" (text "status") end

abbrev fields : Fields
fields = field "caller" (text "bot") (
    field "action" (text "run") (
      field "target" (text "host-1") (
        field "params" (obj params) (
          field "nonce" (text "n1")
            (field "issued_at" (text "1970-01-01T00:00:01Z") (field "sig" (text "secret") end))))))

abbrev asked : Shaped
asked = record {
  fields = fields;
  caller = "bot";
  action = "run";
  target = "host-1";
  params = params;
  nonce = "n1";
}

abbrev gate : Gate
gate = new_gate callers 120 30

abbrev pub calls : List Call
calls =
    record { evaluated = 1; stamped = 2; request = null }
    ∷ record { evaluated = 2000000; stamped = 2000000; request = obj fields }
    ∷ []

served :
    (check_shape (obj fields) ≡ shaped asked)
    × ((authorize host 2000000 2000001 (obj fields) gate).0.allow ≡ true)
    × (target_matches pattern target ≡ true)
    × (target_matches "*" target ≡ false)
    × (params_within params params ≡ none)
unfolding check_shape difference contains Json.get authorize evaluate evaluate_shape identify
    find_caller prove verify_signature signed_message check_fresh spend match_grants permits
    try_grants try_grant any_matches target_matches before_star starts_with codes params_within
    equals new_gate append_audit audit_record
served = (refl, refl, refl, refl, refl)

allow-IsAuthorized_example : IsAuthorized host gate 2000000 (obj fields)
allow-IsAuthorized_example = allow-IsAuthorized host 2000000 2000001 (obj fields) gate served.1

allow-once_example :
    (authorize host 2000000 2000001
      (obj fields)
      (serve host calls (authorize host 2000000 2000001 (obj fields) gate).1)).0.allow
    ≡ false
allow-once_example =
    allow-once host 2000000 2000001 2000000 2000001 (obj fields) (obj fields) asked asked calls gate
      served.0 served.0 refl served.1
