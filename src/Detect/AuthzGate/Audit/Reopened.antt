-- ===== src/Detect/AuthzGate/Audit/Reopened.antt =====
-- authz_gate.py: the tip that a new gate reads from the file of a gate that was stopped.
use eight_call.Prelude.{ℕ, String, ◌≡◌, refl, sym, subst, Bool, List, [], ◌∷◌, Option, some, arith}
use eight_call.Broker.Json
use eight_call.Broker.Json.{Json}
use eight_call.Detect.AuthzGate.{Gate, Host, Caller, Reason}
use eight_call.Detect.AuthzGate.Evaluate.{evaluate}
use eight_call.Detect.AuthzGate.Audit.{audit_record, append_audit, authorize}
use eight_call.Detect.AuthzGate.Audit.Promises.{evaluate-audit}
use eight_call.Detect.AuthzGate.Audit.Calls.{Call, new_gate, serve}
use eight_call.Detect.AuthzGate.Audit.Restart.{load_chain_tip}

-- The tip in the file is that of the gate.
abbrev IsCurrent : Gate → Type 0
IsCurrent g = load_chain_tip g.audit ≡ some (g.prev_hash, g.seq)

module _ (h : Host) where
  append-IsCurrent :
      (g : Gate) (now : ℕ) (request : Json) (allow : Bool) (reason : Reason) (fp : Option String)
      → IsCurrent g
      → IsCurrent (append_audit h g now request allow reason fp).1
  unfolding append_audit audit_record Json.get Json.put load_chain_tip
  append-IsCurrent g now request allow reason fp current = ground (arith, current)

  authorize-IsCurrent :
      (evaluated stamped : ℕ) (request : Json) (g : Gate)
      → IsCurrent g
      → IsCurrent (authorize h evaluated stamped request g).1
  unfolding authorize
  authorize-IsCurrent evaluated stamped request g current =
      let r = evaluate h g evaluated request in
      append-IsCurrent r.3 stamped request r.0 r.1 r.2
        (subst IsCurrent (sym (evaluate-audit h g evaluated request)) current)

  serve-IsCurrent : (cs : List Call) (g : Gate) → IsCurrent g → IsCurrent (serve h cs g)
  unfolding serve
  serve-IsCurrent [] g current = current
  serve-IsCurrent (c ∷ cs) g current =
      serve-IsCurrent cs (authorize h c.evaluated c.stamped c.request g).1
        (authorize-IsCurrent c.evaluated c.stamped c.request g current)

  -- Whatever requests a new gate is called with, a gate that is opened on its file continues the chain
  -- where it stopped: it reads the same last hash and the same next number, without an error.
  pub serve-load_chain_tip :
      (callers : List Caller) (max_age skew : ℕ) (cs : List Call)
      → let g = serve h cs (new_gate callers max_age skew) in
        load_chain_tip g.audit ≡ some (g.prev_hash, g.seq)
  serve-load_chain_tip callers max_age skew cs =
      serve-IsCurrent cs (new_gate callers max_age skew) (unfold new_gate load_chain_tip in refl)
