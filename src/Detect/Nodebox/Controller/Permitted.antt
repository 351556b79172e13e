-- ===== src/Detect/Nodebox/Controller/Permitted.antt =====
-- What nodebox_controller.py's `apply` needs before it sends a command.
use eight_call.Prelude.{
  String, Bool, ◌&&◌, ◌≡◌, refl, true, false, ◌⊎◌, inl, inr, Option, none, some, arith, contains,
  find, Bool-cases, Option-cases,
}
use eight_call.Broker.Json
use eight_call.Broker.Json.{Json, Fields, text, obj, end, field}
use eight_call.Broker.Gate.{difference}
use eight_call.Detect.AuthzGate.{Gate, Host}
use eight_call.Detect.AuthzGate.Evaluate.{Shaped, shaped, check_shape}
use eight_call.Detect.AuthzGate.Audit.Allowed.{IsAuthorized, allow-IsAuthorized}
use eight_call.Detect.Nodebox.Controller.{SessionHandle, Controller, session_key, emit}
use eight_call.Detect.Nodebox.Controller.Dispatch.{
  Draw, Applied, dispatched, finished, gate_target, gate_request, signed_request, gate_decision,
  dispatch, apply_gated, apply_allowed, apply_start,
}

abbrev pub in_policy : String → Option SessionHandle → Bool
in_policy capability none = false
in_policy capability (some s) = contains capability s.policy_caps

abbrev pub is_dispatched : Applied → Bool
is_dispatched (dispatched id decision message) = true
is_dispatched (finished result) = false

module _ (h : Host) where
  -- The gate's verdict on the request that the controller signs, and what the gate allows it by.
  pub record IsGranted (g : Gate) (k : Controller) (w : Draw) (node capability id : String)
      (ref : Option String) : Type 0 where
    pub authorized : IsAuthorized h g w.evaluated (obj (signed_request h k w node capability ref))
    pub caller : authorized.asked.caller ≡ k.gate_caller
    pub action : authorized.asked.action ≡ capability
    pub target : authorized.asked.target ≡ gate_target node
    pub decided : (gate_decision h g k w node capability ref).0.decision_id ≡ id

  asked_inv :
      (k : Controller) (w : Draw) (node capability : String) (ref : Option String) (q : Shaped)
      → check_shape (obj (signed_request h k w node capability ref)) ≡ shaped q
      → (q.caller ≡ k.gate_caller) × (q.action ≡ capability) × (q.target ≡ gate_target node)
  unfolding check_shape signed_request gate_request difference contains Json.get
  asked_inv k w node capability none q e = (ground arith, ground arith, ground arith)
  asked_inv k w node capability (some r) q e = (ground arith, ground arith, ground arith)

  -- What stands behind a command that is sent to `node`: a live session of it, whose policy has the
  -- capability, and, where there is a gate, a decision that allows this capability on this node to the
  -- controller's own caller, under a grant of the gate's policy. The gate is left as the decision leaves
  -- it.
  pub record IsPermitted (k k' : Controller) (w : Draw) (node capability : String)
      (ref decision : Option String) : Type 0 where
    pub session : SessionHandle
    pub live : find session_key node k.sessions ≡ some session
    pub synced : contains capability session.policy_caps ≡ true
    pub gated :
        ((k.gate ≡ none) × (decision ≡ none) × (k'.gate ≡ none))
        ⊎ ((g : Gate) × (id : String) × (k.gate ≡ some g)
            × (decision ≡ some id)
            × (k'.gate ≡ some (gate_decision h g k w node capability ref).1)
            × IsGranted g k w node capability id ref)

  granted :
      (g : Gate) (k : Controller) (w : Draw) (node capability : String) (ref : Option String)
      → (gate_decision h g k w node capability ref).0.allow ≡ true
      → IsGranted g k w node capability
          (gate_decision h g k w node capability ref).0.decision_id
          ref
  unfolding gate_decision
  granted g k w node capability ref allowed =
      let request = obj (signed_request h k w node capability ref) in
      let by = allow-IsAuthorized h w.evaluated w.stamped request g allowed in
      let (caller, action, target) = asked_inv k w node capability ref by.asked by.shape in
      record { authorized = by; caller = caller; action = action; target = target; decided = refl }

  gated-IsGranted :
      (k : Controller) (w : Draw) (node capability : String) (params : Fields) (ref : Option String)
      (id : String) (decision : Option String) (message : Fields) (k' : Controller)
      → apply_allowed h w node capability params ref k ≡ (dispatched id decision message, k')
      → ((k.gate ≡ none) × (decision ≡ none) × (k'.gate ≡ none))
        ⊎ ((g : Gate) × (id : String) × (k.gate ≡ some g)
            × (decision ≡ some id)
            × (k'.gate ≡ some (gate_decision h g k w node capability ref).1)
            × IsGranted g k w node capability id ref)
  unfolding apply_allowed apply_gated dispatch
  gated-IsGranted k w node capability params ref id decision message k' e =
      elim (Option-cases k.gate) [
        | inl none_set ↦ inl (none_set, ground arith, ground arith)
        | inr (g, set) ↦ elim (Bool-cases ((gate_decision h g k w node capability ref).0.allow)) [
          | inr refused ↦ absurd (ground arith)
          | inl allowed ↦ inr (
            g,
            (gate_decision h g k w node capability ref).0.decision_id,
            set,
            ground arith,
            ground arith,
            granted g k w node capability ref allowed,
          )
        ]
      ]

  -- A command is sent only to a node with a live session whose policy has the capability, and, if the
  -- controller has a gate, only on a decision of the gate that allows it: the gate's policy has a grant
  -- of the controller's caller for this capability on this node, and the decision's identifier is
  -- returned with the command.
  pub apply-IsPermitted :
      (k : Controller) (w : Draw) (node capability : String) (params : Fields) (ref : Option String)
      (id : String) (decision : Option String) (message : Fields) (k' : Controller)
      → apply_start h w node capability params ref k ≡ (dispatched id decision message, k')
      → IsPermitted k k' w node capability ref decision
  unfolding apply_start
  apply-IsPermitted k w node capability params ref id decision message k' e =
      elim (Option-cases (find session_key node k.sessions)) [
        | inl missing ↦ absurd (ground arith)
        | inr (s, live) ↦ elim (Bool-cases (contains capability s.policy_caps)) [
          | inr outside ↦ absurd (ground arith)
          | inl synced ↦ record {
            session = s;
            live = live;
            synced = synced;
            gated =
                gated-IsGranted k w node capability params ref id decision message k'
                  (ground arith);
          }
        ]
      ]

  -- Whether the gate, if there is one, allows the dispatch.
  abbrev pub gate_allows : Controller → Draw → String → String → Option String → Option Gate → Bool
  gate_allows k w node capability ref none = true
  gate_allows k w node capability ref (some g) = (gate_decision h g k w node capability ref).0.allow

  -- `apply` sends a command if and only if the node has a live session whose policy has the capability
  -- and the gate, where there is one, allows it; whatever is refused leaves the pending commands and
  -- the sessions as they were.
  pub apply_iff :
      (k : Controller) (w : Draw) (node capability : String) (params : Fields) (ref : Option String)
      → let (applied, k') = apply_start h w node capability params ref k in
        (is_dispatched applied ≡ (
          in_policy capability (find session_key node k.sessions)
          && gate_allows k w node capability ref k.gate))
        × (k'.sessions ≡ k.sessions)
        × (is_dispatched applied ≡ false → k'.pending ≡ k.pending)
  unfolding apply_start apply_allowed apply_gated dispatch emit
  apply_iff k w node capability params ref = (ground arith, ground arith, ground arith)
