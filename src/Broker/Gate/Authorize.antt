-- ===== src/Broker/Gate/Authorize.antt =====
-- gate.py: `authorize`, the only way to a lease and a token. The early returns stand in three
-- functions: `screen` for the tests before the nonce is claimed, `vet` for those after, and `issue`
-- for what is written when all hold.
pub mod Audit
pub mod Sound
pub mod Steps
pub mod Frames
pub mod Issued
pub mod History
pub mod Logged
pub mod Usable
pub mod Once
use Prim.Native.String.{◌++◌ as concat}
use eight_call.Prelude.{
  ℕ, ◌+◌, ◌-◌, String, Bool, true, false, not, ◌&&◌, ◌||◌, List, [], ◌∷◌, Option, none, some, pos,
  ◌==◌, ltb, nat_eq, min, contains, if◌then◌else◌,
}
use eight_call.Broker.Json.{Json, Fields, bool, num, text, obj, end, field}
use eight_call.Broker.Result.{
  Result, ok, err, Error, Reason, Action, denied, pure, raise, ◌>>=◌, ◌>>◌, unknown_caller,
  crypto_unavailable, bad_signature, gate_key_unavailable, stale_request, expired_request,
  policy_digest_mismatch, capability_refused, not_granted, target_not_enrolled, enrollment_disabled,
  capability_not_granted_to_pod, enrollment_revision_mismatch, target_disabled, target_not_approved,
}
use eight_call.Broker.Store.{Store, Enrollment, Target, is_approved, is_set}
use eight_call.Broker.Store.Targets.{target}
use eight_call.Broker.Store.Enrollments.{enrollment_by_target}
use eight_call.Broker.Store.Leases.{Leased, acquire_lease}
use eight_call.Broker.Store.Decisions.{append_decision}
use eight_call.Broker.Store.Tokens.{mint_token}
use eight_call.Broker.Registry
use eight_call.Broker.Registry.{Spec}
use eight_call.Broker.Registry.Params.{Checked, valid, refused, validate_params}
use eight_call.Broker.Gate.{
  Request, Payload, Token, TrustedKey, PolicyGrant, Policy, Host, request_keys, token_keys,
  same_keys,
}
use eight_call.Broker.Gate.Trust.{public_for, grant_for}
use eight_call.Broker.Gate.Records.{
  Times, Allowed, Verdict, allow, request_fields, refuse, refuse_schema, record_nonce, deny_settled,
  reject, settle,
}

-- What the tests before the nonce is claimed say.
pub data Screened : Type 0 where
  passed : Screened
  -- another key set
  malformed : Screened
  -- audited, and the nonce stays free
  refused_early : Reason → Screened
  -- recorded, audited and settled
  rejected : Reason → Screened

-- What the tests after the nonce is claimed say.
pub data Vetted : Type 0 where
  failed : Reason → Option String → Vetted
  vetted : Fields → PolicyGrant → Enrollment → Vetted

abbrev pub gate_key_id : String
gate_key_id = "__gate__"

abbrev pub or_else : Option ℕ → ℕ → ℕ
or_else none d = d
or_else (some n) d = n

-- `abs(a - b)`.
abbrev pub distance : ℕ → ℕ → ℕ
distance a b = (a - b) + (b - a)

abbrev pub is_stale : Policy → ℕ → Request → Bool
is_stale policy now r =
    ltb (or_else policy.max_request_age_s 60 + or_else policy.clock_skew_s 30)
      (distance now r.issued_at)

abbrev has : Option String → Bool
has none = false
has (some t) = true

-- `grant.get("ttl_s") or registry.get(action)["ttl_s"]`.
abbrev pub ttl_of : PolicyGrant → Option Spec → ℕ
ttl_of g none = or_else g.ttl_s 0
ttl_of g (some spec) = let n = or_else g.ttl_s 0 in if nat_eq n 0 then spec.ttl_s else n

-- `none` is a CryptoError.
abbrev pub sign_with : Host → Option String → String → Option String
sign_with c none body = none
sign_with c (some path) body = c.sign path body

abbrev pub token_text : Token → String
token_text t = concat t.body (concat "." t.signature)

-- `gate_key` is the path of the gate's private key, if it is given and the file exists.
module _ (c : Host) (keys : List TrustedKey) (policy : Policy) (gate_key : Option String) where
  -- 3. and 4.: the gate can sign, and the request is fresh.
  unfoldable pub screen_fresh : ℕ → Request → Screened
  unfolding public_for
  screen_fresh now r =
      if not (has (public_for keys gate_key_id)) || not (has gate_key)
      then refused_early gate_key_unavailable
      else if is_stale policy now r
      then rejected stale_request
      else if ltb r.expiry now
      then rejected expired_request
      else passed

  -- 1. and 2.: the schema, and the caller's signature.
  unfoldable pub screen : ℕ → Request → String → Screened
  unfolding public_for screen_fresh
  screen now r signature =
      if not (same_keys r.keys request_keys) then malformed else elim (public_for keys r.caller) [
        | none ↦ rejected unknown_caller
        | some public ↦ elim (c.verify_request public r signature) [
          | none ↦ refused_early crypto_unavailable
          | some false ↦ rejected bad_signature
          | some true ↦ screen_fresh now r
        ]
      ]

  abbrev vet_target : Fields → PolicyGrant → Enrollment → Option Target → Vetted
  vet_target params g e none = failed target_disabled none
  vet_target params g e (some t) =
      if not (is_approved t.state) || not (is_set t.public_key)
      then failed target_not_approved none
      else if not (t.status == "enabled")
      then failed target_disabled none
      else vetted params g e

  -- 9.: the enrollment is current.
  unfoldable pub vet_enrollment : Fields → PolicyGrant → Request → Store → Vetted
  unfolding enrollment_by_target target
  vet_enrollment params g r s = elim (enrollment_by_target r.target_id s) [
    | none ↦ failed target_not_enrolled none
    | some e ↦
        if not (e.status == "enabled")
        then failed enrollment_disabled none
        else if not (contains r.action e.caps)
        then failed capability_not_granted_to_pod none
        else if not (nat_eq r.enrollment_revision e.revision)
        then failed enrollment_revision_mismatch none
        else vet_target params g e (target r.target_id s)
  ]

  -- 6. to 9.: the policy's digest, the capability and its parameters, the grant, the enrollment.
  unfoldable pub vet : Request → Store → Vetted
  unfolding validate_params grant_for vet_enrollment
  vet r s =
      if not (r.policy_digest == c.policy_digest policy)
      then failed policy_digest_mismatch none
      else elim (validate_params r.action r.params) [
        | refused e ↦ failed capability_refused (some (c.describe r.action e))
        | valid params ↦ elim (grant_for policy r.caller r.action r.target_id) [
          | none ↦ failed not_granted none
          | some g ↦ vet_enrollment params g r s
        ]
      ]

  unfoldable pub payload_of : Request → Fields → Leased → String → Payload
  payload_of r params lease decision_id = record {
    keys = token_keys;
    caller = r.caller;
    target_id = r.target_id;
    action = r.action;
    params = params;
    fencing = lease.fencing;
    decision_id = decision_id;
    policy_digest = c.policy_digest policy;
    expiry = min r.expiry lease.expires_ts;
  }

  unfoldable pub allowance : Request → Fields → Enrollment → Leased → ℕ → Fields
  allowance r params e lease now = field "allow" (bool true) (
      field "reason" (text "allow") (
        field "caller" (text r.caller) (
          field "action" (text r.action) (
            field "target_id" (text r.target_id) (
              field "params" (obj params) (
                field "policy_digest" (text (c.policy_digest policy)) (
                  field "enrollment_revision" (num (pos e.revision)) (
                    field "nonce" (text r.nonce) (
                      field "fencing" (num (pos lease.fencing))
                        (field "ts" (num (pos now)) end))))))))))

  -- The last step: the token is minted and the request settled, or the signature failed.
  unfoldable pub mint_allowed :
      Times → Request → Fields → Leased → String → Option String → Action Store Verdict
  mint_allowed now r params lease decision_id none = deny_settled c now r gate_key_unavailable none
  mint_allowed now r params lease decision_id (some signature) =
      let payload = payload_of r params lease decision_id in
      let token : Token = record { body = c.encode payload; signature = signature } in
      do
        mint_token (c.digest (field "tok" (text (token_text token)) end)) decision_id r.target_id
            r.action lease.fencing payload.expiry
        settle c r "allow" "allow" decision_id
        pure (
            allow (record {
              decision_id = decision_id;
              token = token;
              fencing = lease.fencing;
              expires_ts = payload.expiry;
              target_id = r.target_id;
              action = r.action;
              params = params;
              lease_reused = lease.reused;
            }))

  -- 11.: the allowance is audited, and the gate signs a token.
  unfoldable pub issue : Times → Request → Fields → Enrollment → Leased → Action Store Verdict
  issue now r params e lease = do
    decision_id ← append_decision c.digest (allowance r params e lease now.stamped) now.stamped
    mint_allowed now r params lease decision_id
        (sign_with c gate_key (c.encode (payload_of r params lease decision_id)))

  -- 10.: the exclusive lease; only `Denied` is caught.
  unfoldable pub after_lease :
      Times → Request → Fields → Enrollment → Result Leased → Action Store Verdict
  after_lease now r params e (err (denied reason)) = deny_settled c now r reason none
  after_lease now r params e (err x) = raise x
  after_lease now r params e (ok lease) = issue now r params e lease

  unfoldable pub grant_access : Times → String → Request → Vetted → Action Store Verdict
  grant_access now owner r (failed reason detail) s = deny_settled c now r reason detail s
  grant_access now owner r (vetted params g e) s =
      let (lease, s') =
        acquire_lease r.target_id owner r.action (ttl_of g (Registry.get r.action))
          (c.digest (request_fields r)) now.leased s in
      after_lease now r params e lease s'

  -- 5.: the nonce is claimed, and a replay is audited.
  unfoldable pub claim_nonce : Times → String → Request → Result (Unit {0}) → Action Store Verdict
  claim_nonce now owner r (err (denied reason)) s = refuse c now r reason s
  claim_nonce now owner r (err x) s = (err x, s)
  claim_nonce now owner r (ok _) s = grant_access now owner r (vet r s) s

  unfoldable pub proceed : Times → String → Request → Screened → Action Store Verdict
  proceed now owner r malformed s = refuse_schema c now r s
  proceed now owner r (refused_early reason) s = refuse c now r reason s
  proceed now owner r (rejected reason) s = reject c now r reason s
  proceed now owner r passed s =
      let (recorded, s') = record_nonce c now r s in claim_nonce now owner r recorded s'

  unfoldable pub authorize : Times → String → Request → String → Action Store Verdict
  authorize now owner r signature s = proceed now owner r (screen now.checked r signature) s
