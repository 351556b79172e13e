-- ===== src/Broker/Gate/Authorize/Logged.antt =====
-- Every verdict of gate.py's `authorize` is in the log.
use eight_call.Prelude.{
  ℕ, String, ◌≡◌, refl, ap, sym, subst, ◌∙◌, inl, inr, List, [], ◌∷◌, ◌++◌, append_assoc, Option,
  none, some, arith,
}
use eight_call.Broker.Json
use eight_call.Broker.Json.{Fields, text, end, field}
use eight_call.Broker.Result.{Result, ok, err, Reason, denied, Action-cases, pure, ◌>>=◌, ◌>>◌}
use eight_call.Broker.Store.{Store, Decision, Enrollment}
use eight_call.Broker.Store.Leases.{Leased, acquire_lease}
use eight_call.Broker.Store.Requests.{record_request, settle_request}
use eight_call.Broker.Store.Decisions.{append_decision, last_id}
use eight_call.Broker.Store.Tokens.{mint_token}
use eight_call.Broker.Registry
use eight_call.Broker.Gate.{Request, TrustedKey, Policy, Host}
use eight_call.Broker.Gate.Reasons.{reason_text}
use eight_call.Broker.Gate.Records.{
  Times, Verdict, deny, allow, request_fields, refusal, with_detail, refuse, refuse_schema,
  record_nonce, deny_settled, reject, settle,
}
use eight_call.Broker.Gate.Authorize.{
  Screened, passed, malformed, refused_early, rejected, Vetted, vetted, failed, screen, vet, ttl_of,
  sign_with, payload_of, allowance, mint_allowed, issue, after_lease, grant_access, claim_nonce,
  proceed, authorize,
}
use eight_call.Broker.Gate.Authorize.Steps.{minted, allowed_of}

abbrev pub id_of : Verdict → String
id_of (deny x id) = id
id_of (allow a) = a.decision_id

-- The log `ds` has grown to `es` by one record or more, the last of them `id`.
pub record IsLogged (ds es : List Decision) (id : String) : Type 0 where
  pub last : Decision
  pub others : List Decision
  pub grown : es ≡ last ∷ (others ++ ds)
  pub named : last.decision_id ≡ id

later :
    {ds es fs : List Decision} {i j : String}
    → IsLogged ds es i
    → IsLogged es fs j
    → IsLogged ds fs j
later {ds} f g = record {
  last = g.last;
  others = g.others ++ f.last ∷ f.others;
  grown =
      g.grown
      ∙ ap (λ (xs : List Decision). g.last ∷ (g.others ++ xs)) f.grown
      ∙ ap (λ (xs : List Decision). g.last ∷ xs)
          (sym (append_assoc g.others (f.last ∷ f.others) ds));
  named = g.named;
}

same :
    (w v : Verdict) (t s' : Store)
    → ◌≡◌ {A = Result Verdict × Store} (ok w, t) (ok v, s')
    → ◌≡◌ {A = Verdict × Store} (w, t) (v, s')
same w v t s' e = cc

-- The call ends by handing back `w`.
answered :
    (w v : Verdict) (t s' : Store) {ds : List Decision}
    → ◌≡◌ {A = Result Verdict × Store} (ok w, t) (ok v, s')
    → IsLogged ds t.decisions (id_of w)
    → IsLogged ds s'.decisions (id_of v)
answered w v t s' {ds} e h = subst (λ p. IsLogged ds p.1.decisions (id_of p.0)) (same w v t s' e) h

module _ (c : Host) (now : Times) (r : Request) where
  append-logged :
      (body : Fields) (t : ℕ) (id : String) (s s' : Store)
      → append_decision c.digest body t s ≡ (ok id, s')
      → IsLogged s.decisions s'.decisions id
  unfolding append_decision
  append-logged body t id s s' h = record {
    last = record {
      decision_id = id;
      prev = last_id s.decisions;
      logged = Json.put "decision_id" (text id) (Json.put "prev" (text (last_id s.decisions)) body);
      ts = t;
    };
    others = [];
    grown = ground arith;
    named = refl;
  }

  -- The record is written, and then the verdict is handed back or settled first.
  module _ (body : Fields) (x : Reason) (v : Verdict) (s s' : Store) where
    plain_deny-logged :
        (append_decision c.digest body now.stamped >>= λ id. pure (deny x id)) s ≡ (ok v, s')
        → IsLogged s.decisions s'.decisions (id_of v)
    plain_deny-logged h = elim (Action-cases (append_decision c.digest body now.stamped s)) [
      | inl (id, t, p) ↦
          answered (deny x id) v t s' (rw p at h) (append-logged body now.stamped id s t p)
      | inr (e, t, p) ↦ absurd (cc (rw p at h))
    ]

    settled_deny-logged :
        (append_decision c.digest body now.stamped >>= λ id.
        settle c r "deny" (reason_text x) id >> pure (deny x id))
            s
          ≡ (ok v, s')
        → IsLogged s.decisions s'.decisions (id_of v)
    unfolding settle_request
    settled_deny-logged h = elim (Action-cases (append_decision c.digest body now.stamped s)) [
      | inl (id, t, p) ↦
          answered (deny x id) v (settle c r "deny" (reason_text x) id t).1 s' (rw p at h)
            (append-logged body now.stamped id s t p)
      | inr (e, t, p) ↦ absurd (cc (rw p at h))
    ]

  module _ (v : Verdict) (s s' : Store) where
    refuse-logged :
        (x : Reason) → refuse c now r x s ≡ (ok v, s') → IsLogged s.decisions s'.decisions (id_of v)
    unfolding refuse
    refuse-logged x h = plain_deny-logged (refusal x r now.stamped) x v s s' h

    schema-logged :
        refuse_schema c now r s ≡ (ok v, s') → IsLogged s.decisions s'.decisions (id_of v)
    unfolding refuse_schema
    schema-logged h = plain_deny-logged _ Reason.malformed_request v s s' h

    deny-logged :
        (x : Reason) (d : Option String)
        → deny_settled c now r x d s ≡ (ok v, s')
        → IsLogged s.decisions s'.decisions (id_of v)
    unfolding deny_settled
    deny-logged x d h = settled_deny-logged (with_detail d (refusal x r now.stamped)) x v s s' h

  decisions-record : (s : Store) → (record_nonce c now r s).1.decisions ≡ s.decisions
  unfolding record_nonce record_request
  decisions-record s = ground arith

  reject-logged :
      (x : Reason) (v : Verdict) (s s' : Store)
      → reject c now r x s ≡ (ok v, s')
      → IsLogged s.decisions s'.decisions (id_of v)
  unfolding reject
  reject-logged x v s s' h = elim (Action-cases (record_nonce c now r s)) [
    | inl (u, t, p) ↦
        subst (λ ds. IsLogged ds s'.decisions (id_of v))
          (sym (ap (λ (q : Result (Unit {0}) × Store). q.1.decisions) p) ∙ decisions-record s)
          (deny-logged v t s' x none (rw p at h))
    | inr (e, t, p) ↦ absurd (cc (rw p at h))
  ]

module _ (c : Host) (keys : List TrustedKey) (policy : Policy) (gate_key : Option String) where
  decisions-mint :
      (d i id a : String) (f e : ℕ) (s : Store)
      → (mint_token d i id a f e s).1.decisions ≡ s.decisions
  unfolding mint_token
  decisions-mint d i id a f e s = ground arith

  -- After the allowance was logged, either it is handed back or a refusal is logged behind it.
  mint-logged :
      (now : Times) (r : Request) (params : Fields) (l : Leased) (id : String) (o : Option String)
      (v : Verdict) (ds : List Decision) (s s' : Store)
      → IsLogged ds s.decisions id
      → mint_allowed c keys policy gate_key now r params l id o s ≡ (ok v, s')
      → IsLogged ds s'.decisions (id_of v)
  unfolding mint_allowed payload_of
  mint-logged now r params l id none v ds s s' before h =
      later before (deny-logged c now r v s s' Reason.gate_key_unavailable none h)
  mint-logged now r params l id (some signature) v ds s s' before h =
      elim (Action-cases (minted c keys policy gate_key r params l id signature s)) [
        | inl (u, t, p) ↦
            answered (allow (allowed_of c keys policy gate_key r params l id signature)) v
              (settle c r "allow" "allow" id t).1 s' (rw p at h)
              (unfold settle_request in
                subst (λ es. IsLogged ds es id)
                  (sym (decisions-mint _ _ _ _ _ _ s)
                    ∙ ap (λ (q : Result (Unit {0}) × Store). q.1.decisions) p)
                  before)
        | inr (e, t, p) ↦ absurd (cc (rw p at h))
      ]

  issue-logged :
      (now : Times) (r : Request) (params : Fields) (e : Enrollment) (l : Leased) (v : Verdict)
      (s s' : Store)
      → issue c keys policy gate_key now r params e l s ≡ (ok v, s')
      → IsLogged s.decisions s'.decisions (id_of v)
  unfolding issue
  issue-logged now r params e l v s s' h =
      let body : Fields = allowance c keys policy gate_key r params e l now.stamped in
      elim (Action-cases (append_decision c.digest body now.stamped s)) [
        | inl (id, t, p) ↦
            mint-logged now r params l id
              (sign_with c gate_key (c.encode (payload_of c keys policy gate_key r params l id))) v
              s.decisions t s' (append-logged c now r body now.stamped id s t p) (rw p at h)
        | inr (x, t, p) ↦ absurd (cc (rw p at h))
      ]

  lease-logged :
      (now : Times) (r : Request) (params : Fields) (e : Enrollment) (l : Result Leased)
      (v : Verdict) (s s' : Store)
      → after_lease c keys policy gate_key now r params e l s ≡ (ok v, s')
      → IsLogged s.decisions s'.decisions (id_of v)
  unfolding after_lease
  lease-logged now r params e (err (denied x)) v s s' h = deny-logged c now r v s s' x none h
  lease-logged now r params e (ok l) v s s' h = issue-logged now r params e l v s s' h
  lease-logged now r params e (err x) v s s' h = absurd (cc)

  decisions-acquire :
      (id o a : String) (ttl : ℕ) (k : String) (t : ℕ) (s : Store)
      → (acquire_lease id o a ttl k t s).1.decisions ≡ s.decisions
  unfolding acquire_lease
  decisions-acquire id o a ttl k t s = ground arith

  grant-logged :
      (now : Times) (owner : String) (r : Request) (x : Vetted) (v : Verdict) (s s' : Store)
      → grant_access c keys policy gate_key now owner r x s ≡ (ok v, s')
      → IsLogged s.decisions s'.decisions (id_of v)
  unfolding grant_access
  grant-logged now owner r (failed x d) v s s' h = deny-logged c now r v s s' x d h
  grant-logged now owner r (vetted params g e) v s s' h =
      let got : Result Leased × Store =
        acquire_lease r.target_id owner r.action (ttl_of g (Registry.get r.action))
          (c.digest (request_fields r)) now.leased s in
      subst (λ ds. IsLogged ds s'.decisions (id_of v))
        (decisions-acquire r.target_id owner r.action (ttl_of g (Registry.get r.action))
          (c.digest (request_fields r)) now.leased s)
        (lease-logged now r params e got.0 v got.1 s' h)

  claim-logged :
      (now : Times) (owner : String) (r : Request) (o : Result (Unit {0})) (v : Verdict)
      (s s' : Store)
      → claim_nonce c keys policy gate_key now owner r o s ≡ (ok v, s')
      → IsLogged s.decisions s'.decisions (id_of v)
  unfolding claim_nonce
  claim-logged now owner r (err (denied x)) v s s' h = refuse-logged c now r v s s' x h
  claim-logged now owner r (ok _) v s s' h =
      grant-logged now owner r (vet c keys policy gate_key r s) v s s' h
  claim-logged now owner r (err x) v s s' h = absurd (cc)

  proceed-logged :
      (now : Times) (owner : String) (r : Request) (x : Screened) (v : Verdict) (s s' : Store)
      → proceed c keys policy gate_key now owner r x s ≡ (ok v, s')
      → IsLogged s.decisions s'.decisions (id_of v)
  unfolding proceed
  proceed-logged now owner r malformed v s s' h = schema-logged c now r v s s' h
  proceed-logged now owner r (refused_early x) v s s' h = refuse-logged c now r v s s' x h
  proceed-logged now owner r (rejected x) v s s' h = reject-logged c now r x v s s' h
  proceed-logged now owner r passed v s s' h =
      subst (λ ds. IsLogged ds s'.decisions (id_of v)) (decisions-record c now r s)
        (claim-logged now owner r (record_nonce c now r s).0 v (record_nonce c now r s).1 s' h)

  -- Every verdict that `authorize` returns, allowing or denying, is audited: the log has grown by one
  -- record or more, nothing before them is changed, and the last of them has the identifier that the
  -- verdict carries.
  pub authorize-logged :
      (now : Times) (owner : String) (r : Request) (signature : String) (v : Verdict) (s s' : Store)
      → authorize c keys policy gate_key now owner r signature s ≡ (ok v, s')
      → IsLogged s.decisions s'.decisions (id_of v)
  unfolding authorize
  authorize-logged now owner r signature v s s' h =
      proceed-logged now owner r (screen c keys policy gate_key now.checked r signature) v s s' h
