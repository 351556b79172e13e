-- ===== src/Detect/Nodebox/Controller/Sessions.antt =====
-- nodebox_controller.py: `_handle`, a session's life. What a session sends is returned as the message;
-- `Channel` makes a frame of it.
use eight_call.Prelude.{
  ℕ, String, Bool, true, false, not, ◌&&◌, ◌||◌, List, [], ◌∷◌, Option, none, some, ◌==◌, nat_eq,
  find, upsert, pos, zero, if◌then◌else◌,
}
use eight_call.Broker.Json
use eight_call.Broker.Json.{
  Json, Items, Fields, null, bool, num, text, arr, obj, nil, item, end, field,
}
use eight_call.Broker.Store.Enrollments.{sorted_set}
use eight_call.Detect.AuthzGate.Match.{equals}
use eight_call.Detect.Nodebox.Controller.{
  NodeRecord, SessionHandle, Pending, Controller, relayed, node_key, session_key, policy_caps, emit,
}

abbrev binding_of : Option NodeRecord → String
binding_of none = ""
binding_of (some r) = r.machine_binding

-- `d.get(k, "")` and `d.get(k)`.
abbrev or_empty : Option Json → Json
or_empty none = text ""
or_empty (some v) = v

abbrev pub or_null : Option Json → Json
or_null none = null
or_null (some v) = v

-- `bool(v)`.
abbrev truthy : Json → Bool
truthy null = false
truthy (bool b) = b
truthy (num (pos zero)) = false
truthy (num _) = true
truthy (text t) = not (t == "")
truthy (arr nil) = false
truthy (arr _) = true
truthy (obj end) = false
truthy (obj _) = true

abbrev items_of : List String → Items
items_of [] = nil
items_of (t ∷ ts) = item (text t) (items_of ts)

-- Another boot or another machine than the session that the table has.
unfoldable pub is_clone : SessionHandle → SessionHandle → Bool
unfolding equals
is_clone prior handle =
    not (equals prior.boot_id handle.boot_id)
    || not (equals prior.machine_binding handle.machine_binding)

abbrev clone_data : SessionHandle → SessionHandle → Fields
clone_data prior handle = field "transition" (text "CLONE_SUSPECTED") (
    field "prior_boot_id" prior.boot_id (
      field "new_boot_id" handle.boot_id (
        field "prior_machine_binding" prior.machine_binding (
          field "new_machine_binding" handle.machine_binding
            (field "reason" (text "same node_id, different boot_id or machine_binding") end)))))

unfoldable pub flag_clone : Option SessionHandle → SessionHandle → Controller → Controller
unfolding is_clone emit
flag_clone none handle k = k
flag_clone (some prior) handle k =
    if is_clone prior handle
    then emit handle.node_id "nodebox.clone" (clone_data prior handle) end k
    else k

unfoldable pub flag_binding : SessionHandle → Controller → Controller
unfolding emit find equals
flag_binding handle k =
    let enrolled = binding_of (find node_key handle.node_id k.nodes) in
    if not (enrolled == "")
      && truthy handle.machine_binding
      && not (equals (text enrolled) handle.machine_binding)
    then emit handle.node_id "nodebox.clone"
        (field "transition" (text "BINDING_MISMATCH") (
          field "enrolled_machine_binding" (text enrolled)
            (field "presented_machine_binding" handle.machine_binding end)))
        end k
    else k

abbrev session_data : String → String → Fields → Fields
session_data session_id peer a = field "transition" (text "AUTHENTICATED") (
    field "session_id" (text session_id) (
      field "capability_manifest" (or_null (Json.get "capability_manifest" a)) (
        field "attestation_scope" (or_null (Json.get "attestation_scope" a)) (
          field "code_digest" (or_null (Json.get "code_digest" a)) (
            field "supervisor" (or_null (Json.get "supervisor" a))
              (field "peer" (text peer) end))))))

-- The table's update, and what is emitted around it.
unfoldable pub open_session : String → String → Fields → SessionHandle → Controller → Controller
unfolding flag_clone flag_binding emit find upsert
open_session session_id peer a handle k =
    let flagged = flag_clone (find session_key handle.node_id k.sessions) handle k in
    let opened = record flagged { sessions = upsert session_key handle flagged.sessions } in
    emit handle.node_id "nodebox.session" (session_data session_id peer a)
      (field "boot_id" handle.boot_id (field "machine_binding" handle.machine_binding end))
      (flag_binding handle opened)

-- The attestation opens the session, and the policy is sent. An attestation that is missing or no dict
-- is an exception that ends the thread.
unfoldable pub welcome :
    (List String → String)
    → ℕ
    → String
    → String
    → String
    → Controller
    → Option Json
    → Option Fields × Controller
unfolding open_session policy_caps sorted_set Json.get
welcome digest id node_id session_id peer k (some (obj a)) =
    let caps = policy_caps k node_id in
    (
      some (
          field "type" (text "POLICY_SYNC") (
            field "allowed_capabilities" (arr (items_of (sorted_set caps)))
              (field "policy_digest" (text (digest (sorted_set caps))) end))),
      open_session session_id peer a
          (record {
            id = id;
            node_id = node_id;
            policy_caps = caps;
            boot_id = or_empty (Json.get "boot_id" a);
            machine_binding = or_empty (Json.get "machine_binding" a);
          })
          k,
    )
welcome digest id node_id session_id peer k _ = (none, k)

-- The handler behind the handshake, up to its loop: the first message that was received, and the one
-- that is sent. `none` is a connection that is closed, or an exception.
unfoldable pub attach :
    (List String → String)
    → ℕ
    → String
    → String
    → String
    → Fields
    → Controller
    → Option Fields × Controller
unfolding welcome Json.get equals
attach digest id node_id session_id peer att k =
    if not (equals (or_null (Json.get "type" att)) (text "ATTEST"))
    then (none, k)
    else welcome digest id node_id session_id peer k (Json.get "attestation" att)

unfoldable pub set_result : String → Fields → List Pending → List Pending
set_result id msg [] = []
set_result id msg (p ∷ ps) =
    (if p.command_id == id then record p { event = true; result = some msg } else p)
    ∷ set_result id msg ps

-- A list or a dict is no key of a dict.
abbrev is_hashable : Json → Bool
is_hashable (arr vs) = false
is_hashable (obj d) = false
is_hashable _ = true

unfoldable pub answer : Json → Fields → Controller → Controller
unfolding set_result
answer (text id) msg k = record k { pending = set_result id msg k.pending }
answer _ msg k = k

-- One round of the loop; `false` is an exception, which ends it.
unfoldable pub receive : String → Fields → Controller → Bool × Controller
unfolding answer emit Json.get equals
receive node_id msg k =
    let type = or_null (Json.get "type" msg) in
    let id = or_null (Json.get "command_id" msg) in
    let payload = field "command_id" id (
      field "capability" (or_null (Json.get "capability" msg))
        (field "outcome" (or_null (Json.get "outcome" msg)) end)) in
    let envelope = or_null (Json.get "envelope" msg) in
    if equals type (text "RESULT")
    then (if is_hashable id
        then (true, emit node_id "nodebox.result" payload end (answer id msg k))
        else (false, k))
    else if equals type (text "EVENT")
    then (
      true,
      record k {
        telemetry = relayed (if truthy envelope then envelope else obj end) ∷ k.telemetry;
      },
    )
    else (true, k)

unfoldable pub drop_session : String → ℕ → List SessionHandle → List SessionHandle
drop_session node_id id [] = []
drop_session node_id id (s ∷ ss) =
    let rest = drop_session node_id id ss in
    if s.node_id == node_id && nat_eq s.id id then rest else s ∷ rest

-- The end of the handler of a session, behind an exception of the loop.
unfoldable pub disconnect : String → ℕ → String → Controller → Controller
unfolding emit drop_session
disconnect node_id id reason k =
    let told =
      emit node_id "nodebox.session"
        (field "transition" (text "DISCONNECTED") (field "reason" (text reason) end)) end k in
    record told { sessions = drop_session node_id id told.sessions }
