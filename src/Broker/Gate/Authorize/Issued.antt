-- ===== src/Broker/Gate/Authorize/Issued.antt =====
-- What an allowance of gate.py's `authorize` means, before and after the call.
use eight_call.Prelude.{
  ◌≤◌, String, ◌≡◌, ap, sym, ◌∙◌, true, false, List, Option, some, arith, min, find, subst,
}
use eight_call.Broker.Json.{text, end, field}
use eight_call.Broker.Result.{ok}
use eight_call.Broker.Registry
use eight_call.Broker.Store.{Store, Enrollment, Lease, TokenRow, token_key, lease_key}
use eight_call.Broker.Store.Targets.{target}
use eight_call.Broker.Store.Enrollments.{enrollment_by_target}
use eight_call.Broker.Store.Decisions.{last_id}
use eight_call.Broker.Store.Leases.{current_fencing, fencing_of, lease_of}
use eight_call.Broker.Store.Tokens.{has_fence}
use eight_call.Broker.Store.Requests.{is_recorded, settle_request}
use eight_call.Broker.Gate.{Request, TrustedKey, PolicyGrant, Policy, Host}
use eight_call.Broker.Gate.Records.{Times, Allowed, allow, request_fields, record_nonce}
use eight_call.Broker.Gate.Authorize.{authorize, allowance, ttl_of, token_text}
use eight_call.Broker.Gate.Authorize.Sound.{
  IsScreened, IsVetted, IsUsable, screen-passed, vet-vetted,
}
use eight_call.Broker.Gate.Authorize.Steps.{IsIssued, authorize-inv, mint_of}
use eight_call.Broker.Gate.Authorize.Frames.{record-frame, lease-frame, audit-frame, mint-frame}

module _ (c : Host) (keys : List TrustedKey) (policy : Policy) (gate_key : Option String) where
  module _ (now : Times) (owner : String) (r : Request) (signature : String) (s s' : Store)
      (a : Allowed) (h : IsIssued c keys policy gate_key now owner r signature s s' a) where
    pub fresh_nonce :
        (is_recorded (c.digest (request_fields r)) r.nonce s ≡ false)
        × (h.recorded_store ≡ record s { requests = h.recorded_store.requests })
    unfolding record_nonce
    fresh_nonce =
        let p =
          record-frame s h.recorded_store (c.digest (request_fields r)) r.nonce r.caller r.action
            r.target_id now.recorded h.recorded in
        (p.0, p.2)

    pub leased :
        (h.leased_store ≡ record h.recorded_store { leases = h.leased_store.leases })
        × (h.lease.fencing ≡ current_fencing r.target_id h.leased_store)
        × (has_fence h.lease.fencing (lease_of r.target_id h.leased_store) ≡ true)
    leased =
        lease-frame h.recorded_store h.leased_store r.target_id owner r.action
          (ttl_of h.granted (Registry.get r.action)) (c.digest (request_fields r)) now.leased
          h.lease h.leases

    pub audited :
        (h.audited_store ≡ record h.leased_store {
          decisions = h.audited_store.decisions;
          checkpoint = some h.decision_id;
        })
        × (last_id h.audited_store.decisions ≡ h.decision_id)
    audited =
        audit-frame h.leased_store h.audited_store c.digest
          (allowance c keys policy gate_key r h.params h.enrollment h.lease now.stamped) now.stamped
          h.decision_id h.audited

    abbrev pub token_row : String → TokenRow
    token_row d = record {
      token_digest = d;
      decision_id = h.decision_id;
      target_id = r.target_id;
      action = r.action;
      fencing = h.lease.fencing;
      expires_ts = min r.expiry h.lease.expires_ts;
      used = false;
    }

    abbrev pub token_digest : String
    token_digest = c.digest (
        field "tok"
          (text (
            token_text
              (mint_of c keys policy gate_key r h.params h.lease h.decision_id h.token_signature)))
          end)

    pub minted_row :
        (h.minted_store ≡ record h.audited_store { tokens = h.minted_store.tokens })
        × (find token_key token_digest h.minted_store.tokens ≡ some (token_row token_digest))
    minted_row =
        mint-frame h.audited_store h.minted_store token_digest h.decision_id r.target_id r.action
          h.lease.fencing (min r.expiry h.lease.expires_ts) h.mints

    pub before : IsVetted c keys policy gate_key r s h.params h.granted h.enrollment
    unfolding enrollment_by_target target
    before =
        let v =
          vet-vetted c keys policy gate_key r h.recorded_store h.params h.granted h.enrollment
            h.vets in
        record {
          bound = v.bound;
          registered = v.registered;
          granted = v.granted;
          enrolled = sym (ap (λ t. enrollment_by_target r.target_id t) fresh_nonce.1) ∙ v.enrolled;
          enabled = v.enabled;
          capable = v.capable;
          current = v.current;
          usable = subst (λ t. IsUsable (target r.target_id t)) fresh_nonce.1 v.usable;
        }

    pub left_store :
        (s'.targets ≡ s.targets)
        × (s'.enrollments ≡ s.enrollments)
        × (s'.leases ≡ h.leased_store.leases)
        × (s'.tokens ≡ h.minted_store.tokens)
        × (s'.runs ≡ s.runs)
    unfolding settle_request
    left_store = ground (arith, h.left, minted_row.0, audited.0, leased.0, fresh_nonce.1)

  -- A call of `authorize` that allows had a request of the schema, signed by the caller's enabled
  -- key and fresh; its digest and nonce were not on record; it is bound to this policy and to the
  -- current enabled enrollment of an approved and enabled target, for a capability and parameters
  -- that are registered, enrolled and granted by the policy. What it hands out is for exactly this
  -- target, action and checked parameters, under the target's current fence, and expires no later
  -- than the request.
  pub authorize_sound :
      (now : Times) (owner : String) (r : Request) (signature : String) (s s' : Store) (a : Allowed)
      → authorize c keys policy gate_key now owner r signature s ≡ (ok (allow a), s')
      → IsScreened c keys policy gate_key now.checked r signature
        × (is_recorded (c.digest (request_fields r)) r.nonce s ≡ false)
        × ((g : PolicyGrant) × (e : Enrollment) × IsVetted c keys policy gate_key r s a.params g e)
        × (a.target_id ≡ r.target_id)
        × (a.action ≡ r.action)
        × (a.fencing ≡ current_fencing r.target_id s')
        × (a.expires_ts ≤ r.expiry)
  unfolding current_fencing
  authorize_sound now owner r signature s s' a done =
      let h : IsIssued c keys policy gate_key now owner r signature s s' a =
        authorize-inv c keys policy gate_key now owner r signature s s' a done in
      let left = left_store now owner r signature s s' a h in
      (
        screen-passed c keys policy gate_key now.checked r signature h.screened,
        (fresh_nonce now owner r signature s s' a h).0,
        (
          h.granted,
          h.enrollment,
          subst (λ p. IsVetted c keys policy gate_key r s p h.granted h.enrollment)
              (sym (ap (λ (x : Allowed). x.params) h.result))
              (before now owner r signature s s' a h),
        ),
        ap (λ (x : Allowed). x.target_id) h.result,
        ap (λ (x : Allowed). x.action) h.result,
        cc (
          ap (λ (x : Allowed). x.fencing) h.result,
          (leased now owner r signature s s' a h).1,
          ap (λ (x : List Lease). fencing_of (find lease_key r.target_id x)) left.2,
        ),
        rw (ap (λ (x : Allowed). x.expires_ts) h.result) (omega arith),
      )
