-- ===== src/Detect/AuthzGate/Policy.antt =====
-- authz_gate.py: the gate of a policy, `from_policy` with the keys of the callers and their grants. A
-- policy is what the YAML file holds, of the shape that its template documents.
pub mod Vouched
use eight_call.Prelude.{
  ℕ, String, Bool, true, false, not, List, [], ◌∷◌, Option, none, some, ◌==◌, nat_eq, if◌then◌else◌,
}
use eight_call.Broker.Json.{Fields, text}
use eight_call.Detect.AuthzGate.{Alg, hmac, ed25519, other, Grant, Caller, Gate, Host}
use eight_call.Detect.AuthzGate.Audit.Restart.{load_chain_tip}

-- Why a caller has no usable key, before it is formatted.
pub data KeyError : Type 0 where
  bad_hex no_key no_pubkey bad_base64 pin_mismatch : KeyError
  env_unset unknown_alg : String → KeyError
  wrong_length : ℕ → KeyError

pub data Targets : Type 0 where
  single : String → Targets
  several : List String → Targets

pub record GrantSpec : Type 0 where
  pub action : Option String
  pub targets : Targets
  pub params : Fields
  pub not_before : Option String
  pub not_after : Option String

pub record CallerSpec : Type 0 where
  pub alg : Option String
  pub key_hex : Option String
  pub key_env : Option String
  pub pubkey_b64 : Option String
  pub key_sha256 : Option String
  pub grants : List GrantSpec

pub record NamedSpec : Type 0 where
  pub name : String
  pub spec : CallerSpec

pub record Policy : Type 0 where
  pub schema : Option String
  pub callers : List NamedSpec
  pub max_age : Option ℕ
  pub skew : Option ℕ

-- `bytes.fromhex` and base64's strict decoding, none on a ValueError; the environment; the number of
-- bytes of a key, its sha256, a text in lower case, and how an error is written.
pub record Keys : Type 0 where
  pub from_hex : String → Option String
  pub environ : String → Option String
  pub b64decode : String → Option String
  pub byte_length : String → ℕ
  pub fingerprint : String → String
  pub lower : String → String
  pub describe : KeyError → String

-- What `_resolve_caller` returns; a key of None is empty.
pub record Resolved : Type 0 where
  pub alg : Alg
  pub key : String
  pub fingerprint : Option String
  pub error : Option KeyError

abbrev pub usable : Alg → String → Option String → Resolved
usable a key fingerprint = record { alg = a; key = key; fingerprint = fingerprint; error = none }

abbrev pub unusable : Alg → Option String → KeyError → Resolved
unusable a fingerprint e = record { alg = a; key = ""; fingerprint = fingerprint; error = some e }

module _ (k : Keys) where
  abbrev pub by_hex : Option String → Resolved
  by_hex none = unusable hmac none bad_hex
  by_hex (some key) = usable hmac key none

  abbrev pub by_env : String → Option String → Resolved
  by_env var none = unusable hmac none (env_unset var)
  by_env var (some raw) =
      if raw == "" then unusable hmac none (env_unset var) else usable hmac raw none

  unfoldable pub resolve_hmac : Option String → Option String → Resolved
  resolve_hmac (some hex) env = by_hex (k.from_hex hex)
  resolve_hmac none (some var) = by_env var (k.environ var)
  resolve_hmac none none = unusable hmac none no_key

  -- A fingerprint that the policy pins.
  abbrev pub is_pin : Option String → String → Bool
  is_pin none fp = true
  is_pin (some pin) fp = fp == k.lower pin

  abbrev pub by_pubkey : Option String → Option String → Resolved
  by_pubkey pin none = unusable ed25519 none bad_base64
  by_pubkey pin (some key) =
      if not (nat_eq (k.byte_length key) 32)
      then unusable ed25519 none (wrong_length (k.byte_length key))
      else if not (is_pin pin (k.fingerprint key))
      then unusable ed25519 (some (k.fingerprint key)) pin_mismatch
      else usable ed25519 key (some (k.fingerprint key))

  unfoldable pub resolve_ed25519 : Option String → Option String → Resolved
  resolve_ed25519 pin none = unusable ed25519 none no_pubkey
  resolve_ed25519 pin (some b) = by_pubkey pin (k.b64decode b)

  abbrev pub resolve_alg : String → CallerSpec → Resolved
  resolve_alg alg s =
      if alg == "hmac"
      then resolve_hmac s.key_hex s.key_env
      else if alg == "ed25519"
      then resolve_ed25519 s.key_sha256 s.pubkey_b64
      else unusable other none (unknown_alg alg)

  abbrev pub alg_of : Option String → String
  alg_of none = "hmac"
  alg_of (some a) = a

  unfoldable pub resolve_caller : CallerSpec → Resolved
  unfolding resolve_hmac resolve_ed25519
  resolve_caller s = resolve_alg (alg_of s.alg) s

  abbrev described : Option KeyError → Option String
  described none = none
  described (some e) = some (k.describe e)

  abbrev pub caller_of : String → Resolved → List Grant → Caller
  caller_of name r grants = record {
    name = name;
    alg = r.alg;
    key = r.key;
    fingerprint = r.fingerprint;
    key_error = described r.error;
    grants = grants;
  }

abbrev targets_of : Targets → List String
targets_of (single t) = if t == "" then [] else t ∷ []
targets_of (several ts) = ts

-- `none` is a ValueError.
abbrev time_of : Host → Option String → Option (Option ℕ)
time_of h none = some none
time_of h (some t) =
    if t == ""
    then some none
    else elim (h.parse_ts (text t)) [ none ↦ none | some n ↦ some (some n) ]

-- What follows runs only where there was no exception.
module _ {A B : Type 0} where
  infixl 5 ◌>>=◌
  abbrev ◌>>=◌ : Option A → (A → Option B) → Option B
  ◌>>=◌ none f = none
  ◌>>=◌ (some x) f = f x

-- `none` is a KeyError or a ValueError, which `from_policy` passes on.
unfoldable pub parse_grant : Host → GrantSpec → Option Grant
parse_grant h g = do
  action ← g.action
  not_before ← time_of h g.not_before
  not_after ← time_of h g.not_after
  some (record {
    action = action;
    targets = targets_of g.targets;
    params = g.params;
    not_before = not_before;
    not_after = not_after;
  })

unfoldable pub parse_grants : Host → List GrantSpec → Option (List Grant)
unfolding parse_grant
parse_grants h [] = some []
parse_grants h (g ∷ gs) = do
  grant ← parse_grant h g
  grants ← parse_grants h gs
  some (grant ∷ grants)

unfoldable pub load_callers : Host → Keys → List NamedSpec → Option (List Caller)
load_callers h k [] = some []
load_callers h k (n ∷ ns) = elim (parse_grants h n.spec.grants) [
  | none ↦ none
  | some grants ↦ elim (load_callers h k ns) [
    | none ↦ none
    | some cs ↦ some (caller_of k n.name (resolve_caller k n.spec) grants ∷ cs)
  ]
]

abbrev or_default : ℕ → Option ℕ → ℕ
or_default d none = d
or_default d (some n) = n

abbrev is_schema : Option String → Bool
is_schema none = false
is_schema (some s) = s == "detect.authz.policy/v1"

-- The gate over the nonces and the records of its files; `none` is an exception.
unfoldable pub from_policy : Host → Keys → Policy → List String → List Fields → Option Gate
from_policy h k p seen audit =
    if not (is_schema p.schema) then none else elim (load_callers h k p.callers) [
      | none ↦ none
      | some cs ↦ elim (load_chain_tip audit) [
        | none ↦ none
        | some tip ↦ some (record {
          callers = cs;
          max_age = or_default 120 p.max_age;
          skew = or_default 30 p.skew;
          seen_nonces = seen;
          audit = audit;
          prev_hash = tip.0;
          seq = tip.1;
        })
      ]
    ]
