-- ===== src/Broker/Gate/Authorize/Steps.antt =====
-- gate.py: `authorize` taken apart where it allows.
use eight_call.Prelude.{String, ◌≡◌, refl, ◌≢◌, inl, inr, List, Option, none, some, arith, min}
use eight_call.Broker.Json.{Fields, text, end, field}
use eight_call.Broker.Result.{Result, ok, err, Reason, Action-cases, denied}
use eight_call.Broker.Store.{Store, Enrollment}
use eight_call.Broker.Store.Leases.{Leased, acquire_lease}
use eight_call.Broker.Store.Requests.{record_request}
use eight_call.Broker.Store.Decisions.{append_decision}
use eight_call.Broker.Store.Tokens.{mint_token}
use eight_call.Broker.Registry
use eight_call.Broker.Gate.{Request, Token, TrustedKey, PolicyGrant, Policy, Host}
use eight_call.Broker.Gate.Records.{
  Times, Allowed, allow, request_fields, refuse, refuse_schema, record_nonce, deny_settled, reject,
  settle,
}
use eight_call.Broker.Gate.Authorize.{
  Screened, passed, malformed, refused_early, rejected, Vetted, vetted, failed, screen, vet, ttl_of,
  sign_with, token_text, payload_of, allowance, mint_allowed, issue, after_lease, grant_access,
  claim_nonce, proceed, authorize,
}

pair {ℓ} : {A : Type ℓ} {x : Result A × Store} {y : Result A} → x.0 ≡ y → x ≡ (y, x.1)
pair {x = x} h = λ i. (h i, x.1)

module _ (c : Host) (now : Times) (r : Request) (a : Allowed) (s s' : Store) where
  refuse-ne-allow : (x : Reason) → refuse c now r x s ≢ (ok (allow a), s')
  unfolding refuse append_decision
  refuse-ne-allow x h = ground arith

  schema-ne-allow : refuse_schema c now r s ≢ (ok (allow a), s')
  unfolding refuse_schema append_decision
  schema-ne-allow h = ground arith

  deny-ne-allow : (x : Reason) (d : Option String) → deny_settled c now r x d s ≢ (ok (allow a), s')
  unfolding deny_settled append_decision
  deny-ne-allow x d h = ground arith

  reject-ne-allow : (x : Reason) → reject c now r x s ≢ (ok (allow a), s')
  unfolding reject record_nonce record_request deny_settled append_decision
  reject-ne-allow x h = ground arith

module _ (c : Host) (keys : List TrustedKey) (policy : Policy) (gate_key : Option String) where
  abbrev pub mint_of : Request → Fields → Leased → String → String → Token
  mint_of r params lease id signature = record {
    body = c.encode (payload_of c keys policy gate_key r params lease id);
    signature = signature;
  }

  abbrev pub minted :
      Request → Fields → Leased → String → String → Store → Result (Unit {0}) × Store
  minted r params lease id signature =
      mint_token
        (c.digest (field "tok" (text (token_text (mint_of r params lease id signature))) end)) id
        r.target_id r.action lease.fencing (min r.expiry lease.expires_ts)

  abbrev pub allowed_of : Request → Fields → Leased → String → String → Allowed
  allowed_of r params lease id signature = record {
    decision_id = id;
    token = mint_of r params lease id signature;
    fencing = lease.fencing;
    expires_ts = min r.expiry lease.expires_ts;
    target_id = r.target_id;
    action = r.action;
    params = params;
    lease_reused = lease.reused;
  }

  -- The steps of a call that allows, each with the database that it leaves.
  pub record IsIssued (now : Times) (owner : String) (r : Request) (signature : String)
      (s s' : Store) (a : Allowed) : Type 0 where
    pub recorded_store : Store
    pub leased_store : Store
    pub audited_store : Store
    pub minted_store : Store
    pub params : Fields
    pub granted : PolicyGrant
    pub enrollment : Enrollment
    pub lease : Leased
    pub decision_id : String
    pub token_signature : String
    pub screened : screen c keys policy gate_key now.checked r signature ≡ passed
    pub recorded : record_nonce c now r s ≡ (ok tt, recorded_store)
    pub vets : vet c keys policy gate_key r recorded_store ≡ vetted params granted enrollment
    pub leases :
        acquire_lease r.target_id owner r.action
          (ttl_of granted (Registry.get r.action))
          (c.digest (request_fields r))
          now.leased
          recorded_store
        ≡ (ok lease, leased_store)
    pub audited :
        append_decision c.digest
          (allowance c keys policy gate_key r params enrollment lease now.stamped)
          now.stamped
          leased_store
        ≡ (ok decision_id, audited_store)
    pub signed :
        sign_with c gate_key
          (c.encode (payload_of c keys policy gate_key r params lease decision_id))
        ≡ some token_signature
    pub mints :
        minted r params lease decision_id token_signature audited_store ≡ (ok tt, minted_store)
    pub result : a ≡ allowed_of r params lease decision_id token_signature
    pub left : s' ≡ (settle c r "allow" "allow" decision_id minted_store).1

  mint-inv :
      (now : Times) (r : Request) (params : Fields) (lease : Leased) (id : String)
      (o : Option String) (s s' : Store) (a : Allowed)
      → mint_allowed c keys policy gate_key now r params lease id o s ≡ (ok (allow a), s')
      → (signature : String) × (t : Store) × (o ≡ some signature)
        × (minted r params lease id signature s ≡ (ok tt, t))
        × (a ≡ allowed_of r params lease id signature)
        × (s' ≡ (settle c r "allow" "allow" id t).1)
  unfolding mint_allowed payload_of
  mint-inv now r params lease id none s s' a h =
      absurd (deny-ne-allow c now r a s s' Reason.gate_key_unavailable none h)
  mint-inv now r params lease id (some signature) s s' a h =
      elim (Action-cases (minted r params lease id signature s)) [
        | inl (_, t, e) ↦ (signature, t, refl, ground arith, ground arith, ground arith)
        | inr (x, t, e) ↦ absurd (ground arith)
      ]

  issue-inv :
      (now : Times) (r : Request) (params : Fields) (e : Enrollment) (lease : Leased) (s s' : Store)
      (a : Allowed)
      → issue c keys policy gate_key now r params e lease s ≡ (ok (allow a), s')
      → (id : String) × (t : Store) × (append_decision c.digest
            (allowance c keys policy gate_key r params e lease now.stamped)
            now.stamped
            s
          ≡ (ok id, t))
        × (mint_allowed c keys policy gate_key now r params lease id
              (sign_with c gate_key
                (c.encode (payload_of c keys policy gate_key r params lease id)))
              t
            ≡ (ok (allow a), s'))
  unfolding issue
  issue-inv now r params e lease s s' a h =
      elim (Action-cases (
        append_decision c.digest (allowance c keys policy gate_key r params e lease now.stamped)
          now.stamped s)) [
            | inl (id, t, p) ↦ (id, t, p, rw p at h)
            | inr (x, t, p) ↦ absurd (cc (rw p at h))
          ]

  lease-inv :
      (now : Times) (r : Request) (params : Fields) (e : Enrollment) (lease : Result Leased)
      (s s' : Store) (a : Allowed)
      → after_lease c keys policy gate_key now r params e lease s ≡ (ok (allow a), s')
      → (l : Leased) × (lease ≡ ok l)
        × (issue c keys policy gate_key now r params e l s ≡ (ok (allow a), s'))
  unfolding after_lease
  lease-inv now r params e (err (denied x)) s s' a h =
      absurd (deny-ne-allow c now r a s s' x none h)
  lease-inv now r params e (ok l) s s' a h = (l, refl, h)
  lease-inv now r params e (err x) s s' a h = absurd (cc)

  grant-inv :
      (now : Times) (owner : String) (r : Request) (v : Vetted) (s s' : Store) (a : Allowed)
      → grant_access c keys policy gate_key now owner r v s ≡ (ok (allow a), s')
      → (params : Fields) × (g : PolicyGrant) × (e : Enrollment) × (l : Leased) × (t : Store) × (v
          ≡ vetted params g e)
        × (acquire_lease r.target_id owner r.action
              (ttl_of g (Registry.get r.action))
              (c.digest (request_fields r))
              now.leased
              s
            ≡ (ok l, t))
        × (issue c keys policy gate_key now r params e l t ≡ (ok (allow a), s'))
  unfolding grant_access
  grant-inv now owner r (failed x d) s s' a h = absurd (deny-ne-allow c now r a s s' x d h)
  grant-inv now owner r (vetted params g e) s s' a h =
      let got : Result Leased × Store =
        acquire_lease r.target_id owner r.action (ttl_of g (Registry.get r.action))
          (c.digest (request_fields r)) now.leased s in
      let (l, granted, rest) = lease-inv now r params e got.0 got.1 s' a h in
      (params, g, e, l, got.1, refl, pair granted, rest)

  claim-inv :
      (now : Times) (owner : String) (r : Request) (o : Result (Unit {0})) (s s' : Store)
      (a : Allowed)
      → claim_nonce c keys policy gate_key now owner r o s ≡ (ok (allow a), s')
      → (o ≡ ok tt)
        × (grant_access c keys policy gate_key now owner r (vet c keys policy gate_key r s) s
            ≡ (ok (allow a), s'))
  unfolding claim_nonce
  claim-inv now owner r (err (denied x)) s s' a h = absurd (refuse-ne-allow c now r a s s' x h)
  claim-inv now owner r (ok tt) s s' a h = (refl, h)
  claim-inv now owner r (err x) s s' a h = absurd (cc)

  proceed-inv :
      (now : Times) (owner : String) (r : Request) (v : Screened) (s s' : Store) (a : Allowed)
      → proceed c keys policy gate_key now owner r v s ≡ (ok (allow a), s')
      → (v ≡ passed)
        × (claim_nonce c keys policy gate_key now owner r
              (record_nonce c now r s).0
              (record_nonce c now r s).1
            ≡ (ok (allow a), s'))
  unfolding proceed
  proceed-inv now owner r malformed s s' a h = absurd (schema-ne-allow c now r a s s' h)
  proceed-inv now owner r (refused_early x) s s' a h = absurd (refuse-ne-allow c now r a s s' x h)
  proceed-inv now owner r (rejected x) s s' a h = absurd (reject-ne-allow c now r a s s' x h)
  proceed-inv now owner r passed s s' a h = (refl, h)

  -- A call that allows has gone through every step.
  pub authorize-inv :
      (now : Times) (owner : String) (r : Request) (signature : String) (s s' : Store) (a : Allowed)
      → authorize c keys policy gate_key now owner r signature s ≡ (ok (allow a), s')
      → IsIssued now owner r signature s s' a
  unfolding authorize
  authorize-inv now owner r signature s s' a h =
      let (screened, h₁) =
        proceed-inv now owner r (screen c keys policy gate_key now.checked r signature) s s' a h in
      let t : Store = (record_nonce c now r s).1 in
      let (recorded, h₂) = claim-inv now owner r (record_nonce c now r s).0 t s' a h₁ in
      let (params, g, e, l, t', vets, leases, h₃) =
        grant-inv now owner r (vet c keys policy gate_key r t) t s' a h₂ in
      let (id, t'', audited, h₄) = issue-inv now r params e l t' s' a h₃ in
      let (sig, t''', signed, mints, result, left) =
        mint-inv now r params l id
          (sign_with c gate_key (c.encode (payload_of c keys policy gate_key r params l id))) t'' s'
          a h₄ in
      record {
        recorded_store = t;
        leased_store = t';
        audited_store = t'';
        minted_store = t''';
        params = params;
        granted = g;
        enrollment = e;
        lease = l;
        decision_id = id;
        token_signature = sig;
        screened = screened;
        recorded = pair recorded;
        vets = vets;
        leases = leases;
        audited = audited;
        signed = signed;
        mints = mints;
        result = result;
        left = left;
      }
