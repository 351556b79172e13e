-- ===== src/Detect/Examples/Nodes.antt =====
-- A controller and a node of detect/nodebox_protocol.py, with stand-ins for the cryptography.
use eight_call.Prelude.{
  ◌⊎◌, ℕ, ◌+◌, String, ◌≡◌, refl, ap, Bool, true, false, [], ◌∷◌, Option, none, some, ◌==◌,
  if◌then◌else◌, length, arith,
}
use eight_call.Broker.Json.{Fields, text, end, field}
use eight_call.Detect.Nodebox.{Bytes, NodeError, done, failed, Crypto, out_of_order}
use eight_call.Detect.Nodebox.Channel.{Frame, short, frame, Channel, open_channel, recv, recv_all}
use eight_call.Detect.Nodebox.Channel.Order.{IsPaired, recv-once}
use eight_call.Detect.Nodebox.Protocol.{
  sync, Session, Auth, Hello, same_bytes, node_id_for, transcript1, transcript_full, finish_key,
  controller_hello, node_auth, server_handshake, client_reply, client_handshake,
}
use eight_call.Detect.Nodebox.Protocol.Handshake.{
  same_bytes_refl, server_handshake_inv, IsProven, IsFinished, client_handshake_inv,
  handshake_agreed,
}

-- A key is its own public half and its own signature.
abbrev pub crypto : Crypto Fields
crypto = record {
  sha256 = λ b. b;
  utf8 = λ t. [];
  b64e = λ b. "AQ==";
  b64d = λ t. 1 ∷ [];
  node_digest = λ b. "0";
  public = λ k. k;
  sign = λ k m. k;
  verify = λ k sig m. same_bytes sig k;
  eph_public = λ k. k;
  exchange = λ a b. (length a + length b) ∷ [];
  derive_key = λ shared transcript. shared;
  encrypt = λ key d n m aad. m;
  decrypt = λ key d n m aad. some m;
}

abbrev resolve_node : String → Option Bytes
resolve_node name = if name == "node-0" then some (2 ∷ []) else none

enrolled : resolve_node (node_id_for crypto (2 ∷ [])) ≡ some (2 ∷ [])
unfolding node_id_for
enrolled = refl

abbrev first : Hello × Bytes
first = controller_hello crypto (1 ∷ []) "controller" (3 ∷ []) (4 ∷ [])

abbrev answer : Auth × Bytes
answer = node_auth crypto (2 ∷ []) first.1 (5 ∷ 5 ∷ []) (6 ∷ [])

swap : (a b : Bytes) → (length a + length b) ∷ [] ≡ (length b + length a) ∷ []
swap a b = ap (λ (n : ℕ). n ∷ []) (omega arith)

agreed :
    (s : Session) × (f : Frame Fields) × (n : Session) × (server_handshake crypto
        (1 ∷ [])
        first.1
        (3 ∷ [])
        "controller"
        resolve_node
        answer.0
      ≡ done (s, f))
    × (client_handshake crypto (2 ∷ []) (5 ∷ 5 ∷ []) (6 ∷ []) (1 ∷ []) "controller" first.0 f
        ≡ done n)
    × IsPaired s.channel n.channel
    × IsPaired n.channel s.channel
agreed =
    handshake_agreed crypto (λ key m. same_bytes_refl key) swap (λ key aad d n m. refl) (1 ∷ [])
      (3 ∷ []) (4 ∷ []) (λ m. refl) "controller" (2 ∷ []) (5 ∷ 5 ∷ []) (6 ∷ []) resolve_node
      enrolled

handshake_agreed_example :
    (s : Session) × (f : Frame Fields) × (n : Session) × (server_handshake crypto
        (1 ∷ [])
        first.1
        (3 ∷ [])
        "controller"
        resolve_node
        answer.0
      ≡ done (s, f))
    × (client_handshake crypto (2 ∷ []) (5 ∷ 5 ∷ []) (6 ∷ []) (1 ∷ []) "controller" first.0 f
        ≡ done n)
    × IsPaired s.channel n.channel
    × IsPaired n.channel s.channel
handshake_agreed_example =
    handshake_agreed crypto (λ key m. same_bytes_refl key) swap (λ key aad d n m. refl) (1 ∷ [])
      (3 ∷ []) (4 ∷ []) (λ m. refl) "controller" (2 ∷ []) (5 ∷ 5 ∷ []) (6 ∷ []) resolve_node
      enrolled

server_handshake_inv_example :
    let a = answer.0 in
    let full = transcript_full crypto first.1 a.node_id a.node_pubkey a.client_nonce a.eph_pub in
    ((node_id_for crypto a.node_pubkey == a.node_id) ≡ true)
    × ((known : Bytes) × (resolve_node a.node_id ≡ some known)
        × (same_bytes known a.node_pubkey ≡ true))
    × (crypto.verify a.node_pubkey a.sig full ≡ true)
    × (agreed.0.node_id ≡ a.node_id)
    × (agreed.0.state ≡ sync)
    × (agreed.0.channel.key ≡ finish_key crypto (3 ∷ []) a.eph_pub full)
server_handshake_inv_example =
    server_handshake_inv crypto (1 ∷ []) first.1 (3 ∷ []) "controller" resolve_node answer.0
      agreed.0 agreed.1 agreed.3

client_handshake_inv_example :
    let h = first.0 in
    let r = client_reply crypto (2 ∷ []) (5 ∷ 5 ∷ []) (6 ∷ []) (1 ∷ []) "controller" first.0 in
    let o =
      client_handshake crypto
        (2 ∷ [])
        (5 ∷ 5 ∷ [])
        (6 ∷ [])
        (1 ∷ [])
        "controller"
        first.0
        agreed.1 in
    let sent =
      node_auth crypto
        (2 ∷ [])
        (transcript1 crypto h.controller_id h.server_nonce h.eph_pub)
        (5 ∷ 5 ∷ [])
        (6 ∷ []) in
    ((e : NodeError) × (r ≡ failed e) × (o ≡ failed e))
    ⊎ ((s0 : Session) × (r ≡ done (sent.0, s0))
        × IsProven crypto (1 ∷ []) "controller" h
        × (s0.transcript ≡ sent.1)
        × (((e : NodeError) × (o ≡ failed e))
            ⊎ ((s : Session) × (o ≡ done s) × IsFinished crypto h s0 s)))
client_handshake_inv_example =
    client_handshake_inv crypto (2 ∷ []) (5 ∷ 5 ∷ []) (6 ∷ []) (1 ∷ []) "controller" first.0
      agreed.1

abbrev message : Fields
message = field "type" (text "PING") end

abbrev opened : Bool → Channel
opened is_server = open_channel (7 ∷ []) (8 ∷ []) is_server

received_lem :
    recv crypto (frame 1 0 message) (opened false)
    ≡ (done message, record (opened false) { recv_counter = 1 })
unfolding recv open_channel
received_lem = refl

recv-once_example :
    let ch = recv_all crypto (short ∷ []) (record (opened false) { recv_counter = 1 }) in
    recv crypto (frame 1 0 end) ch ≡ (failed out_of_order, ch)
recv-once_example =
    recv-once crypto 1 0 message end (opened false) (record (opened false) { recv_counter = 1 })
      message (short ∷ []) received_lem

opened-IsPaired : IsPaired (opened true) (opened false)
unfolding open_channel
opened-IsPaired = record { keys = refl; transcripts = refl; directions = refl; counters = refl }
