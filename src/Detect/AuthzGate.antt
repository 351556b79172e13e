-- ===== src/Detect/AuthzGate.antt =====
-- detect/authz_gate.py: the data that the gate keeps and decides on. Times count microseconds.
pub mod Match
pub mod Evaluate
pub mod Audit
pub mod Policy
use eight_call.Prelude.{ℕ, String, Bool, List, [], ◌∷◌, Option}
use eight_call.Broker.Json.{Json, Fields}

-- A grant of the policy.
pub record Grant : Type 0 where
  pub action : String
  pub targets : List String
  pub params : Fields
  pub not_before : Option ℕ
  pub not_after : Option ℕ

-- How a caller signs; another algorithm has no usable key.
pub data Alg : Type 0 where
  hmac ed25519 other : Alg

-- `key` is the shared secret or the public key; `key_error` says why the caller is unusable.
pub record Caller : Type 0 where
  pub name : String
  pub alg : Alg
  pub key : String
  pub fingerprint : Option String
  pub key_error : Option String
  pub grants : List Grant

-- Why one grant did not match.
pub data Mismatch : Type 0 where
  not_yet_valid expired out_of_scope : Mismatch
  param_not_allowed param_value : String → Mismatch

-- The reason of a decision, before it is formatted.
pub data Reason : Type 0 where
  not_an_object params_not_object nonce_not_text bad_signature : Reason
  stale future replay bad_issued_at : Reason
  unexpected_fields missing_fields : List String → Reason
  not_a_text unknown_caller : String → Reason
  no_usable_key : String → String → Reason
  action_not_permitted : String → String → Reason
  no_match : String → String → List Mismatch → Reason
  granted : String → String → Reason

pub record Decision : Type 0 where
  pub allow : Bool
  pub reason : Reason
  pub decision_id : String

-- The callers of the policy and the gate's memory; `audit` has the records of the file, the latest
-- first.
pub record Gate : Type 0 where
  pub callers : List Caller
  pub max_age : ℕ
  pub skew : ℕ
  pub seen_nonces : List String
  pub audit : List Fields
  pub prev_hash : String
  pub seq : ℕ

-- What the gate uses of hashlib, hmac, cryptography and datetime. A digest is sha256 over the
-- canonical bytes; `parse_ts` is none on a ValueError; `describe` and `stamp` format.
pub record Host : Type 0 where
  pub digest : Fields → String
  pub hmac_hex : String → Fields → String
  pub verify_ed25519 : String → Fields → String → Bool
  pub parse_ts : Json → Option ℕ
  pub describe : Reason → String
  pub stamp : ℕ → String

abbrev pub allowed_keys : List String
allowed_keys =
    "caller" ∷ "action" ∷ "target" ∷ "params" ∷ "nonce" ∷ "issued_at" ∷ "evidence_ref" ∷ "sig" ∷ []

abbrev pub required_keys : List String
required_keys = "caller" ∷ "action" ∷ "target" ∷ "nonce" ∷ "issued_at" ∷ "sig" ∷ []

abbrev pub signed_keys : List String
signed_keys =
    "caller" ∷ "action" ∷ "target" ∷ "params" ∷ "nonce" ∷ "issued_at" ∷ "evidence_ref" ∷ []
