-- ===== src/Broker/Gate/Authorize/History.antt =====
-- Every outcome of gate.py's `authorize` is a history of the store's operations.
use eight_call.Prelude.{ℕ, String, ◌≡◌, refl, List, Option, none, some}
use eight_call.Broker.Json
use eight_call.Broker.Json.{Fields, text, end, field}
use eight_call.Broker.Result.{Result, ok, err, Reason, denied, ◌>>◌, pure}
use eight_call.Broker.Store.{Store, Enrollment}
use eight_call.Broker.Store.Leases.{Leased, acquire_lease}
use eight_call.Broker.Store.Decisions.{append_decision}
use eight_call.Broker.Store.Ops.{Op, apply}
use eight_call.Broker.Store.Ops.History.{
  Reaches-op, Reaches-refl, Reaches-trans, IsHistory, IsHistory-bind,
}
use eight_call.Broker.Registry
use eight_call.Broker.Gate.{Request, TrustedKey, Policy, Host}
use eight_call.Broker.Gate.Reasons.{reason_text}
use eight_call.Broker.Gate.Authorize.Steps.{allowed_of}
use eight_call.Broker.Gate.Records.{
  Times, Verdict, deny, allow, request_fields, refusal, refuse, refuse_schema, record_nonce,
  deny_settled, reject, settle,
}
use eight_call.Broker.Gate.Authorize.{
  Screened, passed, malformed, refused_early, rejected, Vetted, vetted, failed, screen, vet, ttl_of,
  payload_of, allowance, mint_allowed, issue, after_lease, grant_access, claim_nonce, proceed,
  authorize,
}

module _ (c : Host) (actual : String → Option String) where
  pure-IsHistory : {A : Type 0} (a : A) → IsHistory c.digest actual (pure a)
  pure-IsHistory a = record { at = λ s. Reaches-refl c.digest actual s }

  append-IsHistory :
      (body : Fields) (now : ℕ)
      → Json.get "decision_id" body ≡ none
      → IsHistory c.digest actual (append_decision c.digest body now)
  unfolding apply
  append-IsHistory body now plain = record {
    at = λ s. Reaches-op c.digest actual (Op.append_decision body now) s (plain, tt);
  }

  settle-IsHistory :
      (r : Request) (outcome reason id : String)
      → IsHistory c.digest actual (settle c r outcome reason id)
  unfolding apply
  settle-IsHistory r outcome reason id = record {
    at = λ s.
        Reaches-op c.digest actual
          (Op.settle_request (c.digest (request_fields r)) outcome reason id) s tt;
  }

  answer-IsHistory :
      (r : Request) (outcome reason id : String) (v : Verdict)
      → IsHistory c.digest actual (settle c r outcome reason id >> pure v)
  answer-IsHistory r outcome reason id v =
      IsHistory-bind c.digest actual (settle c r outcome reason id) (λ _. pure v)
        (settle-IsHistory r outcome reason id) (λ _. pure-IsHistory v)

  module _ (now : Times) (r : Request) where
    record-IsHistory : IsHistory c.digest actual (record_nonce c now r)
    unfolding apply record_nonce
    record-IsHistory = record {
      at = λ s.
          Reaches-op c.digest actual
            (Op.record_request (c.digest (request_fields r)) r.nonce r.caller r.action r.target_id
              now.recorded)
            s tt;
    }

    refuse-IsHistory : (x : Reason) → IsHistory c.digest actual (refuse c now r x)
    unfolding refuse refusal Json.get
    refuse-IsHistory x =
        IsHistory-bind c.digest actual _ _ (append-IsHistory _ now.stamped refl)
          (λ id. pure-IsHistory _)

    schema-IsHistory : IsHistory c.digest actual (refuse_schema c now r)
    unfolding refuse_schema refusal Json.get Json.put
    schema-IsHistory =
        IsHistory-bind c.digest actual _ _ (append-IsHistory _ now.stamped refl)
          (λ id. pure-IsHistory _)

    deny-IsHistory :
        (x : Reason) (d : Option String) → IsHistory c.digest actual (deny_settled c now r x d)
    unfolding deny_settled refusal Json.get Json.put
    deny-IsHistory x none =
        IsHistory-bind c.digest actual _ _ (append-IsHistory _ now.stamped refl)
          (λ id. answer-IsHistory r "deny" (reason_text x) id (deny x id))
    deny-IsHistory x (some d) =
        IsHistory-bind c.digest actual _ _ (append-IsHistory _ now.stamped refl)
          (λ id. answer-IsHistory r "deny" (reason_text x) id (deny x id))

    reject-IsHistory : (x : Reason) → IsHistory c.digest actual (reject c now r x)
    unfolding reject
    reject-IsHistory x =
        IsHistory-bind c.digest actual _ _ record-IsHistory (λ _. deny-IsHistory x none)

  module _ (keys : List TrustedKey) (policy : Policy) (gate_key : Option String) (now : Times) where
    mint-IsHistory :
        (r : Request) (params : Fields) (l : Leased) (id : String) (o : Option String)
        → IsHistory c.digest actual (mint_allowed c keys policy gate_key now r params l id o)
    unfolding mint_allowed payload_of apply
    mint-IsHistory r params l id none = deny-IsHistory now r _ none
    mint-IsHistory r params l id (some signature) =
        IsHistory-bind c.digest actual _ _
          (record { at = λ s. Reaches-op c.digest actual (Op.mint_token _ _ _ _ _ _) s tt })
          (λ _.
            answer-IsHistory r "allow" "allow" id
              (allow (allowed_of c keys policy gate_key r params l id signature)))

    issue-IsHistory :
        (r : Request) (params : Fields) (e : Enrollment) (l : Leased)
        → IsHistory c.digest actual (issue c keys policy gate_key now r params e l)
    unfolding issue allowance Json.get
    issue-IsHistory r params e l =
        IsHistory-bind c.digest actual _ _ (append-IsHistory _ now.stamped refl)
          (λ id. mint-IsHistory r params l id _)

    lease-IsHistory :
        (r : Request) (params : Fields) (e : Enrollment) (l : Result Leased)
        → IsHistory c.digest actual (after_lease c keys policy gate_key now r params e l)
    unfolding after_lease
    lease-IsHistory r params e (err (denied x)) = deny-IsHistory now r x none
    lease-IsHistory r params e (ok l) = issue-IsHistory r params e l
    lease-IsHistory r params e (err x) = record { at = λ s. Reaches-refl c.digest actual s }

    module _ (owner : String) (r : Request) where
      grant-IsHistory :
          (v : Vetted)
          → IsHistory c.digest actual (grant_access c keys policy gate_key now owner r v)
      unfolding grant_access apply
      grant-IsHistory (failed x d) = deny-IsHistory now r x d
      grant-IsHistory (vetted params g e) = record {
        at = λ s.
            let got : Result Leased × Store =
              acquire_lease r.target_id owner r.action (ttl_of g (Registry.get r.action))
                (c.digest (request_fields r)) now.leased s in
            Reaches-trans c.digest actual
              (Reaches-op c.digest actual
                (Op.acquire_lease r.target_id owner r.action (ttl_of g (Registry.get r.action))
                  (c.digest (request_fields r)) now.leased)
                s tt)
              ((lease-IsHistory r params e got.0).at got.1);
      }

      claim-IsHistory :
          (o : Result (Unit {0}))
          → IsHistory c.digest actual (claim_nonce c keys policy gate_key now owner r o)
      unfolding claim_nonce
      claim-IsHistory (err (denied x)) = refuse-IsHistory now r x
      claim-IsHistory (ok _) = record {
        at = λ s. (grant-IsHistory (vet c keys policy gate_key r s)).at s;
      }
      claim-IsHistory (err x) = record { at = λ s. Reaches-refl c.digest actual s }

      proceed-IsHistory :
          (v : Screened) → IsHistory c.digest actual (proceed c keys policy gate_key now owner r v)
      unfolding proceed
      proceed-IsHistory malformed = schema-IsHistory now r
      proceed-IsHistory (refused_early x) = refuse-IsHistory now r x
      proceed-IsHistory (rejected x) = reject-IsHistory now r x
      proceed-IsHistory passed = record {
        at = λ s.
            Reaches-trans c.digest actual ((record-IsHistory now r).at s)
              ((claim-IsHistory (record_nonce c now r s).0).at (record_nonce c now r s).1);
      }

      -- Whatever `authorize` returns or raises, the database it leaves is one that the store's
      -- operations lead to, with no audit record that has a "decision_id" of its own: what holds over
      -- every history of the store holds across the gate.
      pub authorize-IsHistory :
          (signature : String)
          → IsHistory c.digest actual (authorize c keys policy gate_key now owner r signature)
      unfolding authorize
      authorize-IsHistory signature = record {
        at = λ s. (proceed-IsHistory (screen c keys policy gate_key now.checked r signature)).at s;
      }
