-- ===== src/Detect/AuthzGate/Audit.antt =====
-- authz_gate.py: the hash-chained audit, `authorize`, and the verification of the chain.
pub mod Promises
pub mod Restart
pub mod Reopened
pub mod Calls
pub mod Allowed
use eight_call.Prelude.{
  ℕ, suc, zero, ◌+◌, String, Bool, true, false, not, ◌&&◌, ◌||◌, List, [], ◌∷◌, Option, none, some,
  ◌==◌, pos, if◌then◌else◌,
}
use eight_call.Broker.Json
use eight_call.Broker.Json.{Json, Fields, null, num, text, obj, end, field}
use eight_call.Detect.AuthzGate.{Reason, Decision, Gate, Host}
use eight_call.Detect.AuthzGate.Evaluate.{evaluate, Evaluated}

abbrev pub genesis_hash : String
genesis_hash = "0000000000000000000000000000000000000000000000000000000000000000"

abbrev value_of : Option Json → Json
value_of none = null
value_of (some v) = v

-- `request.get(key) if isinstance(request, dict) else None`.
abbrev asked : Json → String → Json
asked (obj d) key = value_of (Json.get key d)
asked _ key = null

abbrev nullable : Option String → Json
nullable none = null
nullable (some t) = text t

-- The record without its own hash.
unfoldable pub audit_record : Host → Gate → ℕ → Json → Bool → Reason → Option String → Fields
audit_record h g now request allow reason fingerprint = field "schema" (text "detect.authz/v1") (
    field "seq" (num (pos g.seq)) (
      field "ts" (text (h.stamp now)) (
        field "decision" (text (if allow then "allow" else "deny")) (
          field "reason" (text (h.describe reason)) (
            field "caller" (asked request "caller") (
              field "caller_fingerprint" (nullable fingerprint) (
                field "action" (asked request "action") (
                  field "target" (asked request "target") (
                    field "params" (asked request "params") (
                      field "nonce" (asked request "nonce") (
                        field "request_issued_at" (asked request "issued_at") (
                          field "evidence_ref" (asked request "evidence_ref")
                            (field "prev_hash" (text g.prev_hash) end)))))))))))))

unfoldable pub append_audit : Host → Gate → ℕ → Json → Bool → Reason → Option String → String × Gate
unfolding audit_record
append_audit h g now request allow reason fingerprint =
    let body = audit_record h g now request allow reason fingerprint in
    let hash = h.digest body in
    (
      hash,
      record g {
        audit = Json.put "record_hash" (text hash) body ∷ g.audit;
        prev_hash = hash;
        seq = g.seq + 1;
      },
    )

-- `evaluated` and `stamped` are the two readings of the clock.
unfoldable pub authorize : Host → ℕ → ℕ → Json → Gate → Decision × Gate
unfolding evaluate append_audit
authorize h evaluated stamped request g =
    let r = evaluate h g evaluated request in
    let a = append_audit h r.3 stamped request r.0 r.1 r.2 in
    (record { allow = r.0; reason = r.1; decision_id = a.0 }, a.1)

-- What `verify_audit_chain` knows after some records: whether they fit, the hash of the last one, how
-- many there were, and the "seq" of the first that does not fit.
pub record Chain : Type 0 where
  pub ok : Bool
  pub prev : String
  pub checked : ℕ
  pub first_bad : Option Json

abbrev is_text : Option Json → String → Bool
is_text (some (text t)) u = t == u
is_text _ u = false

abbrev pub check_record : (Fields → String) → Fields → Chain → Chain
check_record digest d c =
    let hash = digest (Json.remove "record_hash" d) in
    if not c.ok
    then c
    else if not (is_text (Json.get "prev_hash" d) c.prev)
        || not (is_text (Json.get "record_hash" d) hash)
    then record c { ok = false; first_bad = Json.get "seq" d }
    else record c { prev = hash; checked = suc c.checked }

-- The loop from the oldest record.
unfoldable pub verify_audit_chain : (Fields → String) → List Fields → Chain
verify_audit_chain digest [] = record {
  ok = true;
  prev = genesis_hash;
  checked = zero;
  first_bad = none;
}
verify_audit_chain digest (d ∷ older) = check_record digest d (verify_audit_chain digest older)
