-- ===== src/Detect/Nodebox/Controller/Life.antt =====
-- Sequences of what happens to nodebox_controller.py's controller: enrollments, sessions that begin, speak
-- and end, and dispatches, in any order.
use eight_call.Prelude.{
  ℕ, String, Bool, ◌≡◌, refl, true, false, ◌&&◌, List, [], ◌∷◌, Option, none, some, ◌==◌, arith,
  find, is_distinct, eq_iff, nat_eq,
}
use eight_call.Broker.Json.{Fields}
use eight_call.Detect.AuthzGate.{Host}
use eight_call.Detect.Nodebox.{Bytes, Crypto, Outcome, done, failed}
use eight_call.Detect.Nodebox.Channel.{Frame}
use eight_call.Detect.Nodebox.Protocol.{Auth, Session, server_handshake}
use eight_call.Detect.Nodebox.Controller.{
  SessionHandle, Controller, session_key, emit, enroll, resolve_node,
}
use eight_call.Detect.Nodebox.Controller.Sessions.{attach, receive, disconnect, drop_session}
use eight_call.Detect.Nodebox.Controller.Dispatch.{Draw, apply_start, apply_finish}

find-drop :
    (other node : String) (id : ℕ) (s : SessionHandle) (ss : List SessionHandle)
    → find session_key other ss ≡ some s
    → is_distinct session_key ss ≡ true
    → ((other == node) && nat_eq s.id id) ≡ false
    → find session_key other (drop_session node id ss) ≡ some s
unfolding find drop_session is_distinct
find-drop other node id s [] h d ne = absurd (ground arith)
find-drop other node id s (x ∷ xs) h d ne = ground (
  arith,
  eq_iff x.node_id other,
  eq_iff other node,
  eq_iff x.node_id node,
  find-drop other node id s xs,
)

-- The end of a session takes away no other: a session of another node stays, and so does a newer one
-- of the same node.
pub disconnect-keeps :
    (other node : String) (id : ℕ) (reason : String) (s : SessionHandle) (k : Controller)
    → find session_key other k.sessions ≡ some s
    → is_distinct session_key k.sessions ≡ true
    → ((other == node) && nat_eq s.id id) ≡ false
    → find session_key other (disconnect node id reason k).sessions ≡ some s
unfolding disconnect emit
disconnect-keeps other node id reason s k = find-drop other node id s k.sessions

find-drop-none :
    (other node : String) (id : ℕ) (ss : List SessionHandle)
    → find session_key other ss ≡ none
    → find session_key other (drop_session node id ss) ≡ none
unfolding find drop_session
find-drop-none other node id [] h = refl
find-drop-none other node id (x ∷ xs) h = ground (arith, find-drop-none other node id xs)

pub find-drop_inv :
    (other node : String) (id : ℕ) (s : SessionHandle) (ss : List SessionHandle)
    → is_distinct session_key ss ≡ true
    → find session_key other (drop_session node id ss) ≡ some s
    → find session_key other ss ≡ some s
unfolding find drop_session is_distinct
find-drop_inv other node id s [] d h = h
find-drop_inv other node id s (x ∷ xs) d h = ground (
  arith,
  eq_iff x.node_id other,
  eq_iff x.node_id node,
  find-drop_inv other node id s xs,
  find-drop-none other node id xs,
)

pub is_distinct-drop :
    (node : String) (id : ℕ) (ss : List SessionHandle)
    → is_distinct session_key ss ≡ true
    → is_distinct session_key (drop_session node id ss) ≡ true
unfolding is_distinct drop_session
is_distinct-drop node id [] d = refl
is_distinct-drop node id (x ∷ xs) d =
    ground (arith, find-drop-none x.node_id node id xs, is_distinct-drop node id xs)

-- What happens to the controller; an attestation is what the node sent behind the handshake. The
-- inventory that `enroll` changes is the controller's own dict.
pub data Event : Type 0 where
  enrolled : String → String → String → List String → String → ℕ → Event
  begin : Bytes → Bytes → Auth → Fields → ℕ → String → String → Event
  message : String → Fields → Event
  lost : String → ℕ → String → Event
  start : Draw → String → String → Fields → Option String → Event
  finish : Bool → String → Option String → Event

module _ {C : Type 0} (c : Crypto C) (identity : Bytes) (controller_id : String)
    (digest : List String → String) (h : Host) where
  abbrev pub begun :
      Outcome (Session × Frame C) → Fields → ℕ → String → String → Controller → Controller
  begun (failed e) att id session_id peer k = k
  begun (done (s, f)) att id session_id peer k =
      (attach digest id s.node_id session_id peer att k).1

  unfoldable pub step : Event → Controller → Controller
  step (enrolled alias pubkey device_type allowed binding now) k = record k {
    nodes = (enroll c alias pubkey device_type allowed binding now k.nodes).1;
  }
  step (begin t1 eph a att id session_id peer) k =
      begun (server_handshake c identity t1 eph controller_id (resolve_node c k) a) att id
        session_id peer k
  step (message node msg) k = (receive node msg k).1
  step (lost node id reason) k = disconnect node id reason k
  step (start w node capability params ref) k = (apply_start h w node capability params ref k).1
  step (finish got id decision) k = (apply_finish got id decision k).1

  unfoldable pub run : List Event → Controller → Controller
  run [] k = k
  run (e ∷ es) k = run es (step e k)
