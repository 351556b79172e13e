-- ===== src/Detect/Nodebox/Protocol.antt =====
-- nodebox_protocol.py: the session's states and the two handshakes. What the peer sent is an argument;
-- a message that lacks a key is not modelled.
pub mod Handshake
use Prim.Native.String.{◌++◌ as concat}
use eight_call.Prelude.{
  ℕ, ◌+◌, String, Bool, true, false, not, ◌&&◌, ◌||◌, List, [], ◌∷◌, ◌++◌, Option, none, some, ◌==◌,
  nat_eq, if◌then◌else◌,
}
use eight_call.Broker.Json
use eight_call.Broker.Json.{Json, Fields, text, end, field}
use eight_call.Detect.Nodebox.{
  Bytes, NodeError, Outcome, done, failed, Crypto, framed, expected_client_auth, node_id_mismatch,
  not_enrolled, node_key_mismatch, bad_server_hello, unknown_controller_id, unknown_controller_key,
  expected_server_finish, invalid_signature, illegal_transition,
}
use eight_call.Detect.Nodebox.Channel.{Frame, Channel, open_channel, send, recv}

pub data State : Type 0 where
  connect authenticate attest sync observe apply disconnect : State

-- `ORDER.index`.
abbrev pub index : State → ℕ
index connect = 0
index authenticate = 1
index attest = 2
index sync = 3
index observe = 4
index apply = 5
index disconnect = 6

pub record Session : Type 0 where
  pub channel : Channel
  pub state : State
  pub node_id : String
  pub controller_id : String
  pub transcript : Bytes
  pub history : List State

abbrev is_repeat : State → State → Bool
is_repeat apply observe = true
is_repeat _ _ = false

-- One step forward, or from APPLY back to OBSERVE.
unfoldable pub advance : State → Session → Outcome Session
advance to s =
    if not (nat_eq (index to) (index s.state + 1)) && not (is_repeat s.state to)
    then failed illegal_transition
    else done (record s { state = to; history = s.history ++ to ∷ [] })

abbrev pub same_bytes : Bytes → Bytes → Bool
same_bytes [] [] = true
same_bytes (x ∷ xs) (y ∷ ys) = let rest = same_bytes xs ys in nat_eq x y && rest
same_bytes _ _ = false

-- CLIENT_AUTH and SERVER_HELLO.
pub record Auth : Type 0 where
  pub type : String
  pub node_id : String
  pub node_pubkey : Bytes
  pub client_nonce : Bytes
  pub eph_pub : Bytes
  pub sig : Bytes

pub record Hello : Type 0 where
  pub type : String
  pub proto : String
  pub controller_id : String
  pub controller_pubkey : Bytes
  pub server_nonce : Bytes
  pub eph_pub : Bytes
  pub sig : Bytes

abbrev pub proto_name : String
proto_name = "nodebox/1"

module _ {C : Type 0} (c : Crypto C) where
  unfoldable pub node_id_for : Bytes → String
  node_id_for public = concat "node-" (c.node_digest public)

  unfoldable pub transcript1 : String → Bytes → Bytes → Bytes
  transcript1 controller_id server_nonce eph =
      c.sha256 (framed (c.utf8 proto_name ∷ c.utf8 controller_id ∷ server_nonce ∷ eph ∷ []))

  unfoldable pub transcript_full : Bytes → String → Bytes → Bytes → Bytes → Bytes
  transcript_full t1 node_id public client_nonce eph =
      c.sha256 (framed (t1 ∷ c.utf8 node_id ∷ public ∷ client_nonce ∷ eph ∷ []))

  unfoldable pub finish_key : Bytes → Bytes → Bytes → Bytes
  finish_key secret peer full = c.derive_key (c.exchange secret peer) full

  -- `identity` and `eph` are secrets, `nonce` is drawn at random.
  unfoldable pub controller_hello : Bytes → String → Bytes → Bytes → Hello × Bytes
  unfolding transcript1
  controller_hello identity controller_id eph nonce =
      let t1 = transcript1 controller_id nonce (c.eph_public eph) in
      (
        record {
          type = "SERVER_HELLO";
          proto = proto_name;
          controller_id = controller_id;
          controller_pubkey = c.public identity;
          server_nonce = nonce;
          eph_pub = c.eph_public eph;
          sig = c.sign identity t1;
        },
        t1,
      )

  unfoldable pub node_auth : Bytes → Bytes → Bytes → Bytes → Auth × Bytes
  unfolding transcript_full node_id_for
  node_auth identity t1 eph nonce =
      let public = c.public identity in
      let full = transcript_full t1 (node_id_for public) public nonce (c.eph_public eph) in
      (
        record {
          type = "CLIENT_AUTH";
          node_id = node_id_for public;
          node_pubkey = public;
          client_nonce = nonce;
          eph_pub = c.eph_public eph;
          sig = c.sign identity full;
        },
        full,
      )

  -- A session that has attested, over a channel with the key that was agreed on.
  unfoldable pub attested : Bytes → Bytes → Bytes → Bool → String → String → Session
  unfolding open_channel finish_key
  attested eph peer full is_server node_id controller_id = record {
    channel = open_channel (finish_key eph peer full) full is_server;
    state = attest;
    node_id = node_id;
    controller_id = controller_id;
    transcript = full;
    history = [];
  }

  abbrev full_of : Bytes → Auth → Bytes
  full_of t1 a = transcript_full t1 a.node_id a.node_pubkey a.client_nonce a.eph_pub

  -- SERVER_FINISH; the session is in SYNC when it is sent.
  unfoldable pub finish_message : Bytes → String → Bytes → Fields
  finish_message identity controller_id full = field "type" (text "SERVER_FINISH") (
      field "sig" (text (c.b64e (c.sign identity full)))
        (field "controller_id" (text controller_id) (field "state" (text "SYNC") end)))

  abbrev send_finish : Fields → Outcome Session → Outcome (Session × Frame C)
  send_finish m (failed e) = failed e
  send_finish m (done s) =
      let (f, channel) = send c m s.channel in done (record s { channel = channel }, f)

  -- The controller, behind its hello: `t1` and `eph` are its transcript and secret. The result is the
  -- session and the frame that it sends.
  unfoldable pub server_handshake :
      Bytes → Bytes → Bytes → String → (String → Option Bytes) → Auth → Outcome (Session × Frame C)
  unfolding node_id_for attested advance finish_message send
  server_handshake identity t1 eph controller_id resolve_node a =
      if not (a.type == "CLIENT_AUTH")
      then failed expected_client_auth
      else if not (node_id_for a.node_pubkey == a.node_id)
      then failed node_id_mismatch
      else elim (resolve_node a.node_id) [
        | none ↦ failed not_enrolled
        | some enrolled ↦
            if not (same_bytes enrolled a.node_pubkey)
            then failed node_key_mismatch
            else if not (c.verify a.node_pubkey a.sig (full_of t1 a))
            then failed invalid_signature
            else send_finish (finish_message identity controller_id (full_of t1 a))
                (advance sync (attested eph a.eph_pub (full_of t1 a) true a.node_id controller_id))
      ]

  -- The node's tests of the controller, before it reveals itself; `done` is the first transcript.
  unfoldable pub check_hello : Bytes → String → Hello → Outcome Bytes
  unfolding transcript1
  check_hello pinned expected h =
      if not (h.type == "SERVER_HELLO") || not (h.proto == proto_name)
      then failed bad_server_hello
      else if not (h.controller_id == expected)
      then failed unknown_controller_id
      else if not (same_bytes h.controller_pubkey pinned)
      then failed unknown_controller_key
      else let t1 = transcript1 h.controller_id h.server_nonce h.eph_pub in
        if not (c.verify h.controller_pubkey h.sig t1) then failed invalid_signature else done t1

  abbrev pub text_of : Option Json → String
  text_of (some (text t)) = t
  text_of _ = ""

  -- The tests of the SERVER_FINISH that was received.
  unfoldable pub check_finish : Hello → Session → Fields → Outcome Session
  unfolding advance Json.get
  check_finish h s m =
      if not (text_of (Json.get "type" m) == "SERVER_FINISH")
      then failed expected_server_finish
      else if not (c.verify h.controller_pubkey (c.b64d (text_of (Json.get "sig" m))) s.transcript)
      then failed invalid_signature
      else advance sync s

  abbrev pub after_recv : Hello → Session → Outcome Fields × Channel → Outcome Session
  after_recv h s (failed e, channel) = failed e
  after_recv h s (done m, channel) = check_finish h (record s { channel = channel }) m

  -- What the node does on the hello, before it waits for the finish: the CLIENT_AUTH that it sends and
  -- the session in ATTEST. `identity` and `eph` are the node's secrets, `nonce` its random bytes.
  unfoldable pub client_reply :
      Bytes → Bytes → Bytes → Bytes → String → Hello → Outcome (Auth × Session)
  unfolding check_hello node_auth node_id_for attested
  client_reply identity eph nonce pinned expected h = elim (check_hello pinned expected h) [
    | failed e ↦ failed e
    | done t1 ↦
        let auth = node_auth identity t1 eph nonce in
        done (
          auth.0,
          attested eph h.eph_pub auth.1 false (node_id_for (c.public identity)) h.controller_id,
        )
  ]

  -- `f` is the frame that arrives then.
  unfoldable pub client_handshake :
      Bytes → Bytes → Bytes → Bytes → String → Hello → Frame C → Outcome Session
  unfolding client_reply check_finish recv
  client_handshake identity eph nonce pinned expected h f =
      elim (client_reply identity eph nonce pinned expected h) [
        | failed e ↦ failed e
        | done r ↦ after_recv h r.1 (recv c f r.1.channel)
      ]
