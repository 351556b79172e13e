-- ===== src/Broker/Gate/Trust.antt =====
-- gate.py: trusted keys, the signed policy, and who is granted what.
use eight_call.Prelude.{
  ℕ, String, Bool, true, false, not, ◌&&◌, ◌||◌, List, [], ◌∷◌, Option, none, some, ◌==◌, contains,
  if◌then◌else◌,
}
use eight_call.Broker.Result.{
  Result, ok, err, denied, no_trusted_keys, malformed_trusted_keys, malformed_policy_envelope,
  policy_signer_unknown, crypto_unavailable, policy_signature_invalid,
}
use eight_call.Broker.Gate.{
  TrustedKey, PolicyGrant, CallerSpec, Policy, Envelope, Host, envelope_keys, same_keys,
}

abbrev is_public : Host → Option String → Bool
is_public c none = false
is_public c (some p) = c.is_hex p

unfoldable pub all_public : Host → List TrustedKey → Bool
all_public c [] = true
all_public c (k ∷ ks) = is_public c k.public && all_public c ks

-- The check of the parsed file; reading it is not modelled.
unfoldable pub load_keys : Host → List TrustedKey → Result (List TrustedKey)
unfolding all_public
load_keys c [] = err (denied no_trusted_keys)
load_keys c (k ∷ ks) =
    if all_public c (k ∷ ks) then ok (k ∷ ks) else err (denied malformed_trusted_keys)

unfoldable pub entry_for : List TrustedKey → String → Option TrustedKey
entry_for [] caller = none
entry_for (k ∷ ks) caller = if k.caller == caller then some k else entry_for ks caller

-- `entry.get("status", "enabled") == "enabled"`.
abbrev pub is_enabled : Option String → Bool
is_enabled none = true
is_enabled (some t) = t == "enabled"

abbrev pub public_of : Option TrustedKey → Option String
public_of none = none
public_of (some k) = if is_enabled k.status then k.public else none

-- Python's truth of the key: an empty one is none.
abbrev pub truthy : Option String → Option String
truthy none = none
truthy (some t) = if t == "" then none else some t

unfoldable pub public_for : List TrustedKey → String → Option String
unfolding entry_for
public_for keys caller = truthy (public_of (entry_for keys caller))

-- The verified body, its digest and its version.
unfoldable pub load_policy : Host → Envelope → List TrustedKey → Result (Policy × String × ℕ)
unfolding public_for
load_policy c envelope keys =
    if not (same_keys envelope.keys envelope_keys)
    then err (denied malformed_policy_envelope)
    else elim (public_for keys envelope.signer) [
      | none ↦ err (denied policy_signer_unknown)
      | some public ↦
          elim (c.verify_policy public envelope.version envelope.body envelope.signature) [
            | none ↦ err (denied crypto_unavailable)
            | some false ↦ err (denied policy_signature_invalid)
            | some true ↦ ok (envelope.body, c.policy_digest envelope.body, envelope.version)
          ]
    ]

unfoldable pub grants_of : List CallerSpec → String → List PolicyGrant
grants_of [] caller = []
grants_of (s ∷ rest) caller = if s.caller == caller then s.grants else grants_of rest caller

abbrev pub covers : String → String → PolicyGrant → Bool
covers action target_id g =
    g.action == action && (contains "*" g.targets || contains target_id g.targets)

unfoldable pub first_grant : List PolicyGrant → String → String → Option PolicyGrant
first_grant [] action target_id = none
first_grant (g ∷ gs) action target_id =
    if covers action target_id g then some g else first_grant gs action target_id

unfoldable pub grant_for : Policy → String → String → String → Option PolicyGrant
unfolding grants_of first_grant
grant_for policy caller action target_id =
    first_grant (grants_of policy.callers caller) action target_id
