-- ===== src/Broker/Gate.antt =====
-- plasma/broker/broker/gate.py: what the gate reads. A dict of a request or of a token's payload is
-- its key set and the values under the keys of the schema, which have the types that
-- `build_request` gives them; times, versions and revisions are not negative.
pub mod Reasons
pub mod Trust
pub mod Records
pub mod Authorize
pub mod Verify
pub mod Anchor
use eight_call.Prelude.{
  ℕ, String, Bool, true, false, not, ◌&&◌, List, [], ◌∷◌, Option, none, some, ◌==◌, contains,
  if◌then◌else◌,
}
use eight_call.Broker.Json.{Json, Fields}
use eight_call.Broker.Registry.Params.{RegistryError}

pub record Request : Type 0 where
  pub keys : List String
  pub caller : String
  pub action : String
  pub target_id : String
  pub params : Fields
  pub policy_digest : String
  pub enrollment_revision : ℕ
  pub nonce : String
  pub issued_at : ℕ
  pub expiry : ℕ

abbrev pub request_keys : List String
request_keys =
    "caller" ∷ "action" ∷ "target_id" ∷ "params" ∷ "policy_digest" ∷ "enrollment_revision" ∷ "nonce"
    ∷ "issued_at" ∷ "expiry" ∷ []

pub record Payload : Type 0 where
  pub keys : List String
  pub caller : String
  pub target_id : String
  pub action : String
  pub params : Fields
  pub fencing : ℕ
  pub decision_id : String
  pub policy_digest : String
  pub expiry : ℕ

abbrev pub token_keys : List String
token_keys =
    "caller" ∷ "target_id" ∷ "action" ∷ "params" ∷ "fencing" ∷ "decision_id" ∷ "policy_digest"
    ∷ "expiry" ∷ []

-- The text `body.signature`.
pub record Token : Type 0 where
  pub body : String
  pub signature : String

-- One entry of trusted_keys.json; `none` where the entry has no such text.
pub record TrustedKey : Type 0 where
  pub caller : String
  pub public : Option String
  pub status : Option String

pub record PolicyGrant : Type 0 where
  pub action : String
  pub targets : List String
  pub ttl_s : Option ℕ

pub record CallerSpec : Type 0 where
  pub caller : String
  pub grants : List PolicyGrant

-- The body of the policy file.
pub record Policy : Type 0 where
  pub callers : List CallerSpec
  pub max_request_age_s : Option ℕ
  pub clock_skew_s : Option ℕ

pub record Envelope : Type 0 where
  pub keys : List String
  pub version : ℕ
  pub body : Policy
  pub signer : String
  pub signature : String

abbrev pub envelope_keys : List String
envelope_keys = "version" ∷ "body" ∷ "signer" ∷ "signature" ∷ []

-- What the gate uses of hashlib, json, base64 and OpenSSL. A digest is sha256 over the canonical
-- encoding; `none` from `verify` or `sign` is a CryptoError; `describe` formats a RegistryError.
pub record Host : Type 0 where
  pub digest : Fields → String
  pub policy_digest : Policy → String
  pub encode : Payload → String
  pub decode : String → Option Payload
  pub verify_request : String → Request → String → Option Bool
  pub verify_policy : String → ℕ → Policy → String → Option Bool
  pub verify : String → String → String → Option Bool
  pub sign : String → String → Option String
  pub is_hex : String → Bool
  pub describe : String → RegistryError → String

abbrev pub all_in : List String → List String → Bool
all_in [] ys = true
all_in (x ∷ xs) ys = contains x ys && all_in xs ys

-- Two key sets are equal.
abbrev pub same_keys : List String → List String → Bool
same_keys xs ys = all_in xs ys && all_in ys xs

-- `set(xs) - set(ys)`.
unfoldable pub difference : List String → List String → List String
difference [] ys = []
difference (x ∷ xs) ys = let rest = difference xs ys in if contains x ys then rest else x ∷ rest
