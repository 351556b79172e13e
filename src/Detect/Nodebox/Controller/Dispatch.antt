-- ===== src/Detect/Nodebox/Controller/Dispatch.antt =====
-- nodebox_controller.py: `_gate_decision` and `apply`.
use Prim.Native.String.{◌++◌ as concat}
use eight_call.Prelude.{
  ℕ, String, Bool, false, not, List, [], ◌∷◌, Option, none, some, ◌==◌, contains, find,
  if◌then◌else◌,
}
use eight_call.Broker.Json
use eight_call.Broker.Json.{Json, Fields, text, obj, end, field}
use eight_call.Detect.AuthzGate.{Gate, Host, Decision}
use eight_call.Detect.AuthzGate.Evaluate.{signed_message}
use eight_call.Detect.AuthzGate.Audit.{authorize}
use eight_call.Detect.Nodebox.Controller.{Pending, Controller, session_key, emit}

-- What a dispatch draws and reads: the nonce, the clock's text for the request, the gate's two readings,
-- and the identifier of the command.
pub record Draw : Type 0 where
  pub nonce : String
  pub issued_at : String
  pub evaluated : ℕ
  pub stamped : ℕ
  pub command_id : String

unfoldable pub gate_target : String → String
gate_target node_id = concat "node:" node_id

abbrev evidence : Option String → Fields → Fields
evidence none behind = behind
evidence (some ref) behind = field "evidence_ref" (text ref) behind

-- The request before `behind`, which is its end or its signature.
unfoldable pub gate_request : Controller → Draw → String → String → Option String → Fields → Fields
unfolding gate_target
gate_request k w node_id capability evidence_ref behind = field "caller" (text k.gate_caller) (
    field "action" (text capability) (
      field "target" (text (gate_target node_id)) (
        field "nonce" (text w.nonce)
          (field "issued_at" (text w.issued_at) (evidence evidence_ref behind)))))

module _ (h : Host) where
  -- `AuthzGate.sign`.
  unfoldable pub sign : Fields → String → String
  unfolding signed_message
  sign request key = h.hmac_hex key (signed_message request)

  unfoldable pub signed_request : Controller → Draw → String → String → Option String → Fields
  unfolding sign gate_request
  signed_request k w node_id capability evidence_ref =
      let sig = sign (gate_request k w node_id capability evidence_ref end) k.gate_key in
      gate_request k w node_id capability evidence_ref (field "sig" (text sig) end)

  unfoldable pub gate_decision :
      Gate → Controller → Draw → String → String → Option String → Decision × Gate
  gate_decision g k w node_id capability evidence_ref =
      authorize h w.evaluated w.stamped (obj (signed_request k w node_id capability evidence_ref)) g

-- The first half of `apply` ends with a result, or with a command that is sent and awaited.
pub data Applied : Type 0 where
  finished : Fields → Applied
  dispatched : String → Option String → Fields → Applied

abbrev denied : Fields → Fields
denied payload = field "outcome" (text "denied") (field "data" (obj payload) end)

abbrev pub command : String → String → Fields → Fields
command id capability params = field "type" (text "COMMAND") (
    field "command_id" (text id)
      (field "capability" (text capability) (field "params" (obj params) end)))

-- The command is put among the pending ones, and sent.
unfoldable pub dispatch :
    String → String → Fields → Option String → Controller → Applied × Controller
dispatch id capability params decision_id k = (
  dispatched id decision_id (command id capability params),
  record k { pending = record { command_id = id; event = false; result = none } ∷ k.pending },
)

module _ (h : Host) (w : Draw) where
  unfoldable pub apply_gated :
      String → String → Fields → Option String → Decision → Controller → Applied × Controller
  unfolding emit dispatch
  apply_gated node_id capability params evidence_ref d k =
      let reasons =
        field "gate_reason" (text (h.describe d.reason))
          (field "decision_id" (text d.decision_id) end) in
      if not d.allow
      then (
        finished (denied (field "reason" (text "authz_gate") reasons)),
        emit node_id "nodebox.command"
            (field "capability" (text capability)
              (field "outcome" (text "denied") (field "reason" (text "authz_gate") reasons)))
            end k,
      )
      else dispatch w.command_id capability params (some d.decision_id) k

  unfoldable pub apply_allowed :
      String → String → Fields → Option String → Controller → Applied × Controller
  apply_allowed node_id capability params evidence_ref k = elim k.gate [
    | none ↦ dispatch w.command_id capability params none k
    | some g ↦
        let (d, g') = gate_decision h g k w node_id capability evidence_ref in
        apply_gated node_id capability params evidence_ref d (record k { gate = some g' })
  ]

  -- `apply`, up to the wait.
  unfoldable pub apply_start :
      String → String → Fields → Option String → Controller → Applied × Controller
  unfolding find contains emit
  apply_start node_id capability params evidence_ref k =
      elim (find session_key node_id k.sessions) [
        | none ↦ (
          finished (
              field "outcome" (text "error")
                (field "data" (obj (field "reason" (text "no active session") end)) end)),
          k,
        )
        | some s ↦
            if not (contains capability s.policy_caps)
            then (
              finished (denied (field "reason" (text "controller_policy") end)),
              emit node_id "nodebox.command"
                  (field "capability" (text capability) (
                    field "outcome" (text "denied")
                      (field "reason" (text "controller_policy") end)))
                  end k,
            )
            else apply_allowed node_id capability params evidence_ref k
      ]

abbrev pending_key : Pending → String
pending_key p = p.command_id

unfoldable pub pop : String → List Pending → List Pending
pop id [] = []
pop id (p ∷ ps) = if p.command_id == id then ps else p ∷ pop id ps

abbrev no_result : String → Fields
no_result outcome =
    field "outcome" (text outcome) (field "data" (obj (field "reason" (text "no result") end)) end)

-- A message that is empty counts as none.
abbrev result_or : Option Pending → Fields
result_or none = no_result "error"
result_or (some p) = elim p.result [
  | none ↦ no_result "error"
  | some m ↦ elim m [ end ↦ no_result "error" | field k v d ↦ field k v d ]
]

abbrev with_decision : Option String → Fields → Fields
with_decision none result = result
with_decision (some id) result = Json.put "decision_id" (text id) result

-- `apply`, from the wait on; `got` is what the wait returned.
unfoldable pub apply_finish : Bool → String → Option String → Controller → Fields × Controller
unfolding find pop Json.put
apply_finish got id decision_id k = (
  with_decision decision_id
      (if got then result_or (find pending_key id k.pending) else no_result "timeout"),
  record k { pending = pop id k.pending },
)
