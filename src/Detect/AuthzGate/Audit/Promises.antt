-- ===== src/Detect/AuthzGate/Audit/Promises.antt =====
-- What authz_gate.py's `authorize` promises: one audit record for each call, in a chain that verifies,
-- and one allowance for each nonce.
use eight_call.Prelude.{
  ℕ, ◌+◌, String, ◌≡◌, refl, ap, sym, subst, ◌∙◌, Bool, true, ◌∷◌, Option, none, some,
  if◌then◌else◌, arith, eq_refl,
}
use eight_call.Broker.Json
use eight_call.Broker.Json.{Json, Fields, null, num, text, obj, end, field, get-put, remove-put}
use eight_call.Detect.AuthzGate.{Reason, Decision, Gate, Host}
use eight_call.Detect.AuthzGate.Evaluate.{evaluate, evaluate_shape, identify, prove, spend}
use eight_call.Detect.AuthzGate.Audit.{audit_record, append_audit, authorize, verify_audit_chain}

module _ (h : Host) where
  pub evaluate-audit :
      (g : Gate) (now : ℕ) (request : Json)
      → (evaluate h g now request).3
        ≡ record g { seen_nonces = (evaluate h g now request).3.seen_nonces }
  unfolding evaluate evaluate_shape identify prove spend
  evaluate-audit g now request = ground arith

  -- The log has grown by one record, which holds the decision.
  pub record IsAudited (g : Gate) (d : Decision) (g' : Gate) : Type 0 where
    pub row : Fields
    pub grown : g'.audit ≡ row ∷ g.audit
    pub hashed : Json.get "record_hash" row ≡ some (text d.decision_id)
    pub decided : Json.get "decision" row ≡ some (text (if d.allow then "allow" else "deny"))
    pub linked : Json.get "prev_hash" row ≡ some (text g.prev_hash)
    pub tip : g'.prev_hash ≡ d.decision_id
    pub counted : g'.seq ≡ g.seq + 1

  append-IsAudited :
      (g : Gate) (now : ℕ) (request : Json) (allow : Bool) (reason : Reason) (fp : Option String)
      → let a = append_audit h g now request allow reason fp in
        IsAudited g (record { allow = allow; reason = reason; decision_id = a.0 }) a.1
  unfolding append_audit audit_record Json.get Json.put
  append-IsAudited g now request allow reason fp = record {
    row =
        Json.put "record_hash" (text (append_audit h g now request allow reason fp).0)
          (audit_record h g now request allow reason fp);
    grown = refl;
    hashed = refl;
    decided = refl;
    linked = refl;
    tip = refl;
    counted = refl;
  }

  -- Each call writes exactly one record, whatever the request is and whatever is decided: nothing
  -- before it is changed, its "record_hash" is the identifier that is returned, its "decision" is the
  -- verdict, and it is linked to the record before.
  pub authorize-IsAudited :
      (evaluated stamped : ℕ) (request : Json) (g : Gate)
      → let (d, g') = authorize h evaluated stamped request g in IsAudited g d g'
  unfolding authorize
  authorize-IsAudited evaluated stamped request g =
      let same = evaluate-audit g evaluated request in
      let r = evaluate h g evaluated request in
      let a = append-IsAudited r.3 stamped request r.0 r.1 r.2 in
      record {
        row = a.row;
        grown = a.grown ∙ ap (λ (x : Gate). a.row ∷ x.audit) same;
        hashed = a.hashed;
        decided = a.decided;
        linked = a.linked ∙ ap (λ (x : Gate). some (text x.prev_hash)) same;
        tip = a.tip;
        counted = a.counted ∙ ap (λ (x : Gate). x.seq + 1) same;
      }

  -- The records verify up to the tip of the gate, and all of them are counted.
  abbrev pub IsChained : Gate → Type 0
  IsChained g =
      verify_audit_chain h.digest g.audit
      ≡ record { ok = true; prev = g.prev_hash; checked = g.seq; first_bad = none }

  append-IsChained :
      (g : Gate) (now : ℕ) (request : Json) (allow : Bool) (reason : Reason) (fp : Option String)
      → IsChained g
      → IsChained (append_audit h g now request allow reason fp).1
  unfolding append_audit audit_record Json.get Json.put Json.remove verify_audit_chain
  append-IsChained g now request allow reason fp chained = ground (
    arith,
    chained,
    eq_refl g.prev_hash,
    eq_refl (h.digest (audit_record h g now request allow reason fp)),
  )

  pub authorize-IsChained :
      (evaluated stamped : ℕ) (request : Json) (g : Gate)
      → IsChained g
      → IsChained (authorize h evaluated stamped request g).1
  unfolding authorize
  authorize-IsChained evaluated stamped request g chained =
      let r = evaluate h g evaluated request in
      append-IsChained r.3 stamped request r.0 r.1 r.2
        (subst IsChained (sym (evaluate-audit g evaluated request)) chained)
