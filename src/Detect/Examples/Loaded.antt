-- ===== src/Detect/Examples/Loaded.antt =====
-- A policy of detect/authz_gate.py with a caller whose public key is pinned.
use eight_call.Prelude.{
  String, ◌≡◌, refl, true, false, List, [], ◌∷◌, Option, none, some, ◌==◌, contains, Bool,
}
use eight_call.Broker.Json
use eight_call.Broker.Json.{Json, Fields, text, obj, end, field}
use eight_call.Broker.Gate.{difference}
use eight_call.Broker.Registry.Params.{codes}
use eight_call.Detect.AuthzGate.{Gate, Host, ed25519}
use eight_call.Detect.AuthzGate.Match.{
  before_star, starts_with, target_matches, any_matches, params_within, equals, try_grant,
}
use eight_call.Detect.AuthzGate.Evaluate.{
  check_shape, find_caller, signed_message, verify_signature, check_fresh, try_grants, permits,
  match_grants, spend, prove, identify, evaluate_shape, evaluate,
}
use eight_call.Detect.AuthzGate.Audit.{genesis_hash, audit_record, append_audit, authorize}
use eight_call.Detect.AuthzGate.Audit.Restart.{load_chain_tip}
use eight_call.Detect.AuthzGate.Policy.{
  CallerSpec, Keys, Policy, several, resolve_ed25519, resolve_caller, parse_grant, parse_grants,
  load_callers, from_policy,
}
use eight_call.Detect.AuthzGate.Policy.Vouched.{IsVouched, allow-IsVouched}

abbrev host : Host
host = record {
  digest = λ d. "hash";
  hmac_hex = λ key d. key;
  verify_ed25519 = λ key d sig. key == sig;
  parse_ts = λ v. some 1000000;
  describe = λ reason. "reason";
  stamp = λ now. "now";
}

abbrev keys : Keys
keys = record {
  from_hex = λ t. none;
  environ = λ t. none;
  b64decode = λ t. some t;
  byte_length = λ t. 32;
  fingerprint = λ t. t;
  lower = λ t. t;
  describe = λ e. "error";
}

abbrev spec_of : String → CallerSpec
spec_of pin = record {
  alg = some "ed25519";
  key_hex = none;
  key_env = none;
  pubkey_b64 = some "public";
  key_sha256 = some pin;
  grants =
      record {
        action = some "run";
        targets = several ("host-*" ∷ []);
        params = field "script" (text "status") end;
        not_before = none;
        not_after = some "1970-01-01T00:00:01Z";
      }
      ∷ [];
}

abbrev policy_of : String → Policy
policy_of pin = record {
  schema = some "detect.authz.policy/v1";
  callers = record { name = "bot"; spec = spec_of pin } ∷ [];
  max_age = none;
  skew = none;
}

abbrev request : Json
request = obj (
    field "caller" (text "bot") (
      field "action" (text "run") (
        field "target" (text "host-1") (
          field "params" (obj (field "script" (text "status") end)) (
            field "nonce" (text "n1") (
              field "issued_at" (text "1970-01-01T00:00:01Z")
                (field "sig" (text "public") end)))))))

abbrev none_seen : List String
none_seen = []

abbrev unwritten : List Fields
unwritten = []

abbrev allows : Option Gate → Option Bool
allows none = none
allows (some g) = some (authorize host 1000000 1000000 request g).0.allow

abbrev gate : Gate
gate = record {
  callers =
      record {
        name = "bot";
        alg = ed25519;
        key = "public";
        fingerprint = some "public";
        key_error = none;
        grants =
            record {
              action = "run";
              targets = "host-*" ∷ [];
              params = field "script" (text "status") end;
              not_before = none;
              not_after = some 1000000;
            }
            ∷ [];
      }
      ∷ [];
  max_age = 120;
  skew = 30;
  seen_nonces = [];
  audit = [];
  prev_hash = genesis_hash;
  seq = 0;
}

made : from_policy host keys (policy_of "public") none_seen unwritten ≡ some gate
unfolding from_policy load_callers parse_grants parse_grant resolve_caller resolve_ed25519
    load_chain_tip
made = refl

allowed : (authorize host 1000000 1000000 request gate).0.allow ≡ true
unfolding check_shape difference contains Json.get authorize evaluate evaluate_shape identify
    find_caller prove verify_signature signed_message check_fresh spend match_grants permits
    try_grants try_grant any_matches target_matches before_star starts_with codes params_within
    equals append_audit audit_record
allowed = refl

-- With another pin the same request is denied.
unpinned : allows (from_policy host keys (policy_of "swapped") none_seen unwritten) ≡ some false
unfolding from_policy load_callers parse_grants parse_grant resolve_caller resolve_ed25519
    load_chain_tip check_shape difference contains Json.get authorize evaluate evaluate_shape
    identify find_caller append_audit audit_record
unpinned = refl

allow-IsVouched_example : IsVouched keys host (policy_of "public") 1000000 request
allow-IsVouched_example =
    allow-IsVouched keys host (policy_of "public") none_seen unwritten gate 1000000 1000000 request
      made allowed
