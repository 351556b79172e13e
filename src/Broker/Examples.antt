-- ===== src/Broker/Examples.antt =====
-- A small broker (plasma/broker/broker) to run the definitions and the theorems on: one target, one
-- pod, one caller, and stand-ins for the digests and signatures.
pub mod Sessions
pub mod Ledger
pub mod Leasing
pub mod Histories
pub mod Registered
pub mod Deciding
pub mod Acting
use Prim.Native.String.{◌++◌ as concat}
use eight_call.Prelude.{
  ℕ, String, Bool, true, false, List, [], ◌∷◌, Option, none, some, ◌==◌, if◌then◌else◌,
}
use eight_call.Broker.Json
use eight_call.Broker.Json.{Json, Fields, bool, text, end, field}
use eight_call.Broker.Store.{Store, empty}
use eight_call.Broker.Store.Decisions.{genesis}
use eight_call.Broker.Store.Ops.{
  Op, run, accept_policy_version, add_target, approve_target, set_target_endpoint, enroll,
}
use eight_call.Broker.Gate.{
  Request, Payload, Token, TrustedKey, PolicyGrant, CallerSpec, Policy, Host, request_keys,
  token_keys,
}
use eight_call.Broker.Gate.Records
use eight_call.Broker.Gate.Records.{Allowed}
use eight_call.Broker.Possession.{Peer, presents}
use eight_call.Broker.Actions
use eight_call.Broker.Actions.{World, Performed, returned}

abbrev text_of : Option Json → String
text_of (some (text t)) = t
text_of _ = ""

abbrev text_at : String → Fields → String
text_at k d = text_of (Json.get k d)

-- A decision's digest names the reasons of the chain up to it.
unfoldable pub digest : Fields → String
unfolding Json.get
digest d = elim (Json.get "prev" d) [
  | some (text p) ↦ concat (if p == genesis then "" else p) (concat (text_at "reason" d) ";")
  | _ ↦ concat (text_at "tok" d) (text_at "nonce" d)
]

unfoldable pub actual : String → Option String
actual k = if k == "key" then some "fp" else none

abbrev pub setup : List Op
setup =
    accept_policy_version 1
    ∷ add_target "phone" "10.0.0.5" "Phone" none 1
    ∷ approve_target "phone" "key" "fp" "approval" 2
    ∷ set_target_endpoint "phone" 8022
    ∷ enroll "pod-1" "phone" ("ping" ∷ []) 3
    ∷ []

-- The database once the phone is approved and enrolled.
abbrev pub ready : Store
ready = run digest actual setup empty

abbrev pub keys : List TrustedKey
keys =
    record { caller = "toolbox"; public = some "aa"; status = none }
    ∷ record { caller = "__gate__"; public = some "bb"; status = some "enabled" }
    ∷ []

abbrev pub policy : Policy
policy = record {
  callers =
      record {
        caller = "toolbox";
        grants = record { action = "ping"; targets = "*" ∷ []; ttl_s = none } ∷ [];
      }
      ∷ [];
  max_request_age_s = none;
  clock_skew_s = none;
}

abbrev pub request : Request
request = record {
  keys = request_keys;
  caller = "toolbox";
  action = "ping";
  target_id = "phone";
  params = end;
  policy_digest = "policy-1";
  enrollment_revision = 1;
  nonce = "n1";
  issued_at = 100;
  expiry = 200;
}

abbrev pub payload : Payload
payload = record {
  keys = token_keys;
  caller = "toolbox";
  target_id = "phone";
  action = "ping";
  params = end;
  fencing = 1;
  decision_id = "allow;";
  policy_digest = "policy-1";
  expiry = 130;
}

unfoldable pub sign : String → Option String
sign body = some (concat "signed:" body)

unfoldable pub accepts : String → String → Option Bool
accepts body signature = some (signature == concat "signed:" body)

abbrev pub host : Host
host = record {
  digest = digest;
  policy_digest = λ p. "policy-1";
  encode = λ p. concat p.target_id (concat "/" p.action);
  decode = λ body. if body == "phone/ping" then some payload else none;
  verify_request = λ public r signature. accepts r.nonce signature;
  verify_policy = λ public version p signature. some true;
  verify = λ public body signature. accepts body signature;
  sign = λ path body. sign body;
  is_hex = λ t. true;
  describe = λ action e. "refused";
}

abbrev pub allowed : Allowed
allowed = record {
  decision_id = "allow;";
  token = record { body = "phone/ping"; signature = "signed:phone/ping" };
  fencing = 1;
  expires_ts = 130;
  target_id = "phone";
  action = "ping";
  params = end;
  lease_reused = false;
}

abbrev pub at_gate : ℕ → Records.Times
at_gate t = record { checked = t; recorded = t; leased = t; stamped = t }

abbrev pub in_run : ℕ → Actions.Times
in_run t = record { verified = t; observed = t; claimed = t; finished = t }

-- The phone answers with its pinned key; the process is killed at the failpoint, if one is set.
abbrev pub world : Option String → World
world failpoint = record {
  network = λ address port. presents "fp";
  has_identity = true;
  perform = λ action address params. returned (field "ok" (bool true) end);
  service_mode = false;
  failpoint = failpoint;
  message = λ e. "error";
}
