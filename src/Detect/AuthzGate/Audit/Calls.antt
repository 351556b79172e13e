-- ===== src/Detect/AuthzGate/Audit/Calls.antt =====
-- Sequences of calls of authz_gate.py's `authorize`.
use eight_call.Prelude.{
  ℕ, zero, String, ◌≡◌, refl, true, false, List, [], ◌∷◌, none, arith, contains, eq_refl,
}
use eight_call.Broker.Json.{Json}
use eight_call.Detect.AuthzGate.{Gate, Host, Caller}
use eight_call.Detect.AuthzGate.Evaluate.{
  Shaped, shaped, check_shape, nonce_key, evaluate, evaluate_shape, identify, prove, spend,
}
use eight_call.Detect.AuthzGate.Audit.{append_audit, authorize, genesis_hash, verify_audit_chain}
use eight_call.Detect.AuthzGate.Audit.Promises.{IsChained, authorize-IsChained}

-- One call, with the readings of the clock.
pub record Call : Type 0 where
  pub evaluated : ℕ
  pub stamped : ℕ
  pub request : Json

-- The gate over empty files.
unfoldable pub new_gate : List Caller → ℕ → ℕ → Gate
new_gate callers max_age skew = record {
  callers = callers;
  max_age = max_age;
  skew = skew;
  seen_nonces = [];
  audit = [];
  prev_hash = genesis_hash;
  seq = zero;
}

module _ (h : Host) where
  unfoldable pub serve : List Call → Gate → Gate
  serve [] g = g
  serve (c ∷ cs) g = serve cs (authorize h c.evaluated c.stamped c.request g).1

  serve-IsChained : (cs : List Call) (g : Gate) → IsChained h g → IsChained h (serve cs g)
  unfolding serve
  serve-IsChained [] g k = k
  serve-IsChained (c ∷ cs) g k =
      serve-IsChained cs (authorize h c.evaluated c.stamped c.request g).1
        (authorize-IsChained h c.evaluated c.stamped c.request g k)

  -- Whatever requests a new gate is called with, the audit verifies to its end, which is the gate's
  -- tip, and every record is counted.
  pub serve-verify_audit_chain :
      (callers : List Caller) (max_age skew : ℕ) (cs : List Call)
      → let g = serve cs (new_gate callers max_age skew) in
        verify_audit_chain h.digest g.audit
        ≡ record { ok = true; prev = g.prev_hash; checked = g.seq; first_bad = none }
  serve-verify_audit_chain callers max_age skew cs =
      serve-IsChained cs (new_gate callers max_age skew)
        (unfold new_gate verify_audit_chain in refl)

  seen-evaluate :
      (k : String) (g : Gate) (now : ℕ) (request : Json)
      → contains k g.seen_nonces ≡ true
      → contains k (evaluate h g now request).3.seen_nonces ≡ true
  unfolding evaluate evaluate_shape identify prove spend contains
  seen-evaluate k g now request seen = ground arith

  seen-authorize :
      (k : String) (e t : ℕ) (request : Json) (g : Gate)
      → contains k g.seen_nonces ≡ true
      → contains k (authorize h e t request g).1.seen_nonces ≡ true
  unfolding authorize append_audit
  seen-authorize k e t request g seen = seen-evaluate k g e request seen

  seen-serve :
      (k : String) (cs : List Call) (g : Gate)
      → contains k g.seen_nonces ≡ true
      → contains k (serve cs g).seen_nonces ≡ true
  unfolding serve
  seen-serve k [] g seen = seen
  seen-serve k (c ∷ cs) g seen =
      seen-serve k cs (authorize h c.evaluated c.stamped c.request g).1
        (seen-authorize k c.evaluated c.stamped c.request g seen)

  module _ (q : Shaped) (g : Gate) (now : ℕ) (request : Json)
      (shape : check_shape request ≡ shaped q) where
    allow-seen :
        (evaluate h g now request).0 ≡ true
        → contains (nonce_key q) (evaluate h g now request).3.seen_nonces ≡ true
    unfolding evaluate evaluate_shape identify prove spend contains
    allow-seen allowed = ground (arith, shape, eq_refl (nonce_key q))

    seen-denied : contains (nonce_key q) g.seen_nonces ≡ true → (evaluate h g now request).0 ≡ false
    unfolding evaluate evaluate_shape identify prove spend
    seen-denied seen = ground (arith, shape)

  -- A nonce is allowed once: after a call that allowed, whatever calls come between, a request of the
  -- same caller with the same nonce is denied, at any time and whatever it asks for.
  pub allow-once :
      (e t e' t' : ℕ) (request request' : Json) (q q' : Shaped) (cs : List Call) (g : Gate)
      → check_shape request ≡ shaped q
      → check_shape request' ≡ shaped q'
      → nonce_key q' ≡ nonce_key q
      → (authorize h e t request g).0.allow ≡ true
      → (authorize h e' t' request' (serve cs (authorize h e t request g).1)).0.allow ≡ false
  unfolding authorize append_audit
  allow-once e t e' t' request request' q q' cs g shape shape' same allowed =
      let g' = (authorize h e t request g).1 in
      seen-denied q' (serve cs g') e' request' shape'
        (rw same (seen-serve (nonce_key q) cs g' (allow-seen q g e request shape allowed)))
