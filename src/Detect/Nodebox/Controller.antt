-- ===== src/Detect/Nodebox/Controller.antt =====
-- nodebox_controller.py: the controller's state, its inventory and its telemetry.
pub mod Sessions
pub mod Dispatch
pub mod Permitted
pub mod Life
pub mod Enrolled
use Prim.Native.String.{compare}
use Prim.Native.Nat.{Ordering}
use eight_call.Prelude.{
  ℕ, String, Bool, true, false, not, ◌&&◌, ◌||◌, List, [], ◌∷◌, Option, none, some, ◌==◌, nat_eq,
  find, upsert, pos, zero, if◌then◌else◌,
}
use eight_call.Broker.Json
use eight_call.Broker.Json.{
  Json, Items, Fields, null, bool, num, text, arr, obj, nil, item, end, field,
}
use eight_call.Broker.Store.Enrollments.{sorted_set}
use eight_call.Detect.AuthzGate.{Gate}
use eight_call.Detect.AuthzGate.Match.{equals}
use eight_call.Detect.Nodebox.{Bytes, Crypto}
use eight_call.Detect.Nodebox.Protocol.{node_id_for}

-- A row of the inventory's "nodes".
pub record NodeRecord : Type 0 where
  pub node_id : String
  pub alias : String
  pub device_type : String
  pub pubkey_b64 : String
  pub machine_binding : String
  pub allowed_capabilities : List String
  pub enrolled_at : ℕ

-- `id` is the object's identity; `boot_id` and `machine_binding` are what the node claims.
pub record SessionHandle : Type 0 where
  pub id : ℕ
  pub node_id : String
  pub policy_caps : List String
  pub boot_id : Json
  pub machine_binding : Json

-- A command that waits for its result; `event` is whether the event is set.
pub record Pending : Type 0 where
  pub command_id : String
  pub event : Bool
  pub result : Option Fields

pub record Envelope : Type 0 where
  pub node_id : String
  pub device_type : String
  pub event_type : String
  pub payload : Fields
  pub provenance : Fields

-- A line of the telemetry file: one that the controller makes, or one that a node sent.
pub data Line : Type 0 where
  emitted : Envelope → Line
  relayed : Json → Line

-- The lines have the latest first.
pub record Controller : Type 0 where
  pub nodes : List NodeRecord
  pub sessions : List SessionHandle
  pub pending : List Pending
  pub telemetry : List Line
  pub gate : Option Gate
  pub gate_caller : String
  pub gate_key : String

-- `none` is the ValueError of a gate without a caller or a key.
unfoldable pub new_controller : List NodeRecord → Option Gate → String → String → Option Controller
new_controller nodes gate caller key =
    let c : Controller = record {
      nodes = nodes;
      sessions = [];
      pending = [];
      telemetry = [];
      gate = gate;
      gate_caller = caller;
      gate_key = key;
    } in
    elim gate [ none ↦ some c | some g ↦ if caller == "" || key == "" then none else some c ]

abbrev pub node_key : NodeRecord → String
node_key r = r.node_id

abbrev pub session_key : SessionHandle → String
session_key s = s.node_id

-- `sorted` keeps what is there twice.
unfoldable pub insert_text : String → List String → List String
insert_text t [] = t ∷ []
insert_text t (u ∷ us) = elim (compare t u) [ Ordering.gt ↦ u ∷ insert_text t us | _ ↦ t ∷ u ∷ us ]

unfoldable pub sorted : List String → List String
unfolding insert_text
sorted [] = []
sorted (t ∷ ts) = insert_text t (sorted ts)

-- On the inventory; `now` is the clock.
unfoldable pub enroll :
    {C : Type 0}
    → Crypto C
    → String
    → String
    → String
    → List String
    → String
    → ℕ
    → List NodeRecord
    → String × List NodeRecord
unfolding node_id_for sorted upsert
enroll c alias pubkey_b64 device_type allowed machine_binding now nodes =
    let node_id = node_id_for c (c.b64d pubkey_b64) in
    (
      node_id,
      upsert node_key
          (record {
            node_id = node_id;
            alias = alias;
            device_type = device_type;
            pubkey_b64 = pubkey_b64;
            machine_binding = machine_binding;
            allowed_capabilities = sorted allowed;
            enrolled_at = now;
          })
          nodes,
    )

unfoldable pub resolve_node : {C : Type 0} → Crypto C → Controller → String → Option Bytes
unfolding find
resolve_node c k node_id = elim (find node_key node_id k.nodes) [
  | none ↦ none
  | some r ↦ some (c.b64d r.pubkey_b64)
]

abbrev caps_of : Option NodeRecord → List String
caps_of none = []
caps_of (some r) = r.allowed_capabilities

unfoldable pub policy_caps : Controller → String → List String
unfolding find
policy_caps k node_id = caps_of (find node_key node_id k.nodes)

abbrev device_type_of : Option NodeRecord → String
device_type_of none = "unknown"
device_type_of (some r) = r.device_type

unfoldable pub emit : String → String → Fields → Fields → Controller → Controller
unfolding find
emit node_id event_type payload provenance k = record k {
  telemetry =
      emitted (record {
        node_id = node_id;
        device_type = device_type_of (find node_key node_id k.nodes);
        event_type = event_type;
        payload = payload;
        provenance = provenance;
      })
      ∷ k.telemetry;
}
