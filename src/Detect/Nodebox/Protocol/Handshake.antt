-- ===== src/Detect/Nodebox/Protocol/Handshake.antt =====
-- What the handshakes of nodebox_protocol.py establish.
use eight_call.Prelude.{
  ℕ, String, ◌≡◌, refl, ap, ◌∙◌, true, false, ◌⊎◌, inl, inr, [], ◌∷◌, Option, some, ◌==◌, arith,
  eq_refl, Option-cases,
}
use eight_call.Broker.Json
use eight_call.Broker.Json.{Fields}
use eight_call.Detect.Nodebox.{Bytes, NodeError, Outcome, done, failed, Crypto}
use eight_call.Detect.Nodebox.Channel.{Frame, Channel, open_channel, send, recv}
use eight_call.Detect.Nodebox.Channel.Order.{IsPaired}
use eight_call.Detect.Nodebox.Protocol.{
  sync, attest, Session, Auth, Hello, same_bytes, node_id_for, transcript1, transcript_full,
  finish_key, controller_hello, node_auth, advance, attested, finish_message, server_handshake,
  check_hello, check_finish, client_reply, client_handshake, after_recv, text_of,
}

pub Outcome-cases :
    {A : Type 0} (o : Outcome A) → ((e : NodeError) × (o ≡ failed e)) ⊎ ((a : A) × (o ≡ done a))
Outcome-cases (failed e) = inl (e, refl)
Outcome-cases (done a) = inr (a, refl)

module _ {C : Type 0} (c : Crypto C) where
  -- The controller opens a session only with a node whose name is made from its key, which is enrolled
  -- under that name with that key, and which signed the whole transcript with it. The session is in
  -- SYNC, and its key is bound to that transcript.
  pub server_handshake_inv :
      (identity t1 eph : Bytes) (controller_id : String) (resolve_node : String → Option Bytes)
      (a : Auth) (s : Session) (f : Frame C)
      → server_handshake c identity t1 eph controller_id resolve_node a ≡ done (s, f)
      → let full = transcript_full c t1 a.node_id a.node_pubkey a.client_nonce a.eph_pub in
        ((node_id_for c a.node_pubkey == a.node_id) ≡ true)
        × ((enrolled : Bytes) × (resolve_node a.node_id ≡ some enrolled)
            × (same_bytes enrolled a.node_pubkey ≡ true))
        × (c.verify a.node_pubkey a.sig full ≡ true)
        × (s.node_id ≡ a.node_id)
        × (s.state ≡ sync)
        × (s.channel.key ≡ finish_key c eph a.eph_pub full)
  unfolding server_handshake advance attested send open_channel
  server_handshake_inv identity t1 eph controller_id resolve_node a s f h =
      elim (Option-cases (resolve_node a.node_id)) [
        | inl missing ↦ absurd (ground arith)
        | inr (enrolled, found) ↦ (
          ground arith,
          (enrolled, found, ground arith),
          ground arith,
          ground arith,
          ground arith,
          ground arith,
        )
      ]

  hello_ok :
      (pinned : Bytes) (expected : String) (h : Hello) (t1 : Bytes)
      → check_hello c pinned expected h ≡ done t1
      → ((h.controller_id == expected) ≡ true)
        × (same_bytes h.controller_pubkey pinned ≡ true)
        × (c.verify h.controller_pubkey h.sig t1 ≡ true)
        × (t1 ≡ transcript1 c h.controller_id h.server_nonce h.eph_pub)
  unfolding check_hello
  hello_ok pinned expected h t1 e = (ground arith, ground arith, ground arith, ground arith)

  finish_ok :
      (h : Hello) (s s' : Session) (m : Fields)
      → check_finish c h s m ≡ done s'
      → ((sig : Bytes) × (c.verify h.controller_pubkey sig s.transcript ≡ true))
        × (s'.transcript ≡ s.transcript)
        × (s'.state ≡ sync)
  unfolding check_finish advance
  finish_ok h s s' m e =
      ((c.b64d (text_of c (Json.get "sig" m)), ground arith), ground arith, ground arith)

  received_ok :
      (h : Hello) (s s' : Session) (x : Outcome Fields × Channel)
      → after_recv c h s x ≡ done s'
      → ((sig : Bytes) × (c.verify h.controller_pubkey sig s.transcript ≡ true))
        × (s'.transcript ≡ s.transcript)
        × (s'.state ≡ sync)
  received_ok h s s' (failed e, ch) p = absurd (cc)
  received_ok h s s' (done m, ch) p = finish_ok h (record s { channel = ch }) s' m p

  -- The hello is of a controller with the expected name and the pinned key, which signed the first
  -- transcript with it.
  pub record IsProven (pinned : Bytes) (expected : String) (h : Hello) : Type 0 where
    pub named : (h.controller_id == expected) ≡ true
    pub pin : same_bytes h.controller_pubkey pinned ≡ true
    pub signed :
        c.verify h.controller_pubkey h.sig (transcript1 c h.controller_id h.server_nonce h.eph_pub)
        ≡ true

  -- The session `s` that a handshake ends in, from the one it was in after the hello: the pinned key
  -- signed the whole transcript, too.
  pub record IsFinished (h : Hello) (s0 s : Session) : Type 0 where
    pub signed : (sig : Bytes) × (c.verify h.controller_pubkey sig s0.transcript ≡ true)
    pub transcript : s.transcript ≡ s0.transcript
    pub state : s.state ≡ sync

  after_recv-cases :
      (h : Hello) (s : Session) (x : Outcome Fields × Channel)
      → ((e : NodeError) × (after_recv c h s x ≡ failed e))
        ⊎ ((s' : Session) × (after_recv c h s x ≡ done s') × IsFinished h s s')
  after_recv-cases h s x = elim (Outcome-cases (after_recv c h s x)) [
    | inl (e, bad) ↦ inl (e, bad)
    | inr (s', good) ↦
        let (signed, transcript, state) = received_ok h s s' x good in
        inr (s', good, record { signed = signed; transcript = transcript; state = state })
  ]

  -- Whatever hello and finish a node gets, it sends its CLIENT_AUTH, which names and signs for it, only
  -- after a hello of a controller with the expected name and the pinned key, signed with that key; and
  -- without such a hello the handshake fails. After it the handshake fails too, or it ends in a session
  -- in SYNC, over the transcript that the node signed, and the pinned key signed this transcript as well.
  pub client_handshake_inv :
      (identity eph nonce pinned : Bytes) (expected : String) (h : Hello) (f : Frame C)
      → let r = client_reply c identity eph nonce pinned expected h in
        let o = client_handshake c identity eph nonce pinned expected h f in
        let sent =
          node_auth c identity (transcript1 c h.controller_id h.server_nonce h.eph_pub) eph nonce in
        ((e : NodeError) × (r ≡ failed e) × (o ≡ failed e))
        ⊎ ((s0 : Session) × (r ≡ done (sent.0, s0))
            × IsProven pinned expected h
            × (s0.transcript ≡ sent.1)
            × (((e : NodeError) × (o ≡ failed e))
                ⊎ ((s : Session) × (o ≡ done s) × IsFinished h s0 s)))
  unfolding client_reply client_handshake attested
  client_handshake_inv identity eph nonce pinned expected h f =
      elim (Outcome-cases (check_hello c pinned expected h)) [
        | inl (e, bad) ↦
            inl (e, rw (bad, client_reply) refl, rw (bad, client_handshake, client_reply) refl)
        | inr (t1, good) ↦
            let (named, pin, signed, same) = hello_ok pinned expected h t1 good in
            let s0 =
              attested c eph h.eph_pub (node_auth c identity t1 eph nonce).1 false
                (node_id_for c (c.public identity)) h.controller_id in
            let proven : IsProven pinned expected h = record {
              named = named;
              pin = pin;
              signed = rw same at signed;
            } in
            let sent_by : Bytes → Auth × Bytes = λ t. node_auth c identity t eph nonce in
            inr (
              s0,
              rw (good, client_reply) (ap (λ t. done ((sent_by t).0, s0)) same),
              proven,
              ap (λ t. (sent_by t).1) same,
              rw (good, client_handshake, client_reply)
                  (after_recv-cases h s0 (recv c f s0.channel)),
            )
      ]

after_recv-done :
    {C : Type 0} (c : Crypto C) (h : Hello) (s : Session) (x : Outcome Fields × Channel)
    (m : Fields)
    → x.0 ≡ done m
    → after_recv c h s x ≡ check_finish c h (record s { channel = x.1 }) m
after_recv-done c h s (done k, ch) m e = ground arith
after_recv-done c h s (failed k, ch) m e = absurd (cc)

pub same_bytes_refl : (b : Bytes) → same_bytes b b ≡ true
same_bytes_refl [] = refl
same_bytes_refl (x ∷ xs) = ground (arith, same_bytes_refl xs)

module _ {C : Type 0} (c : Crypto C)
    (verifies : (key m : Bytes) → c.verify (c.public key) (c.sign key m) m ≡ true)
    (agrees : (a b : Bytes) → c.exchange a (c.eph_public b) ≡ c.exchange b (c.eph_public a))
    (decrypts : (key aad : Bytes) (d n : ℕ) (m : Fields)
      → c.decrypt key d n (c.encrypt key d n m aad) aad ≡ some m)
    (identity eph nonce : Bytes)
    (decodes : (m : Bytes) → c.b64d (c.b64e (c.sign identity m)) ≡ c.sign identity m)
    (controller_id : String) (node_identity node_eph node_nonce : Bytes)
    (resolve_node : String → Option Bytes)
    (enrolled : resolve_node (node_id_for c (c.public node_identity))
      ≡ some (c.public node_identity)) where
  abbrev hello : Hello × Bytes
  hello = controller_hello c identity controller_id eph nonce

  abbrev auth : Auth × Bytes
  auth = node_auth c node_identity hello.1 node_eph node_nonce

  abbrev full : Bytes
  full =
      transcript_full c hello.1 auth.0.node_id auth.0.node_pubkey auth.0.client_nonce auth.0.eph_pub

  abbrev server_session : Session
  server_session = record (attested c eph auth.0.eph_pub full true auth.0.node_id controller_id) {
    state = sync;
    history = sync ∷ [];
  }

  abbrev sent : Frame C × Channel
  sent = send c (finish_message c identity controller_id full) server_session.channel

  served :
      server_handshake c identity hello.1 eph controller_id resolve_node auth.0
      ≡ done (record server_session { channel = sent.1 }, sent.0)
  unfolding server_handshake advance attested send open_channel node_auth
  served = ground (
    arith,
    eq_refl (node_id_for c (c.public node_identity)),
    enrolled,
    same_bytes_refl (c.public node_identity),
    verifies node_identity full,
  )

  abbrev node_session : Session
  node_session =
      record (attested c node_eph hello.0.eph_pub auth.1 false
        (node_id_for c (c.public node_identity)) controller_id) {
          state = sync;
          history = sync ∷ [];
        }

  abbrev received : Outcome Fields × Channel
  received = recv c sent.0 node_session.channel

  welcomed : check_hello c (c.public identity) controller_id hello.0 ≡ done hello.1
  unfolding check_hello controller_hello
  welcomed =
      ground (
        arith,
        eq_refl controller_id,
        same_bytes_refl (c.public identity),
        verifies identity hello.1,
      )

  same_key :
      finish_key c node_eph (c.eph_public eph) full ≡ finish_key c eph (c.eph_public node_eph) full
  unfolding finish_key
  same_key = ap (λ (x : Bytes). c.derive_key x full) (agrees node_eph eph)

  delivered : received.0 ≡ done (finish_message c identity controller_id full)
  unfolding recv send attested open_channel node_auth controller_hello
  delivered = ground (
    arith,
    same_key,
    decrypts (finish_key c eph (c.eph_public node_eph) full) full 1 0
        (finish_message c identity controller_id full),
  )

  finished :
      check_finish c hello.0
        (record node_session { channel = received.1; state = attest; history = [] })
        (finish_message c identity controller_id full)
      ≡ done (record node_session { channel = received.1 })
  unfolding check_finish finish_message Json.get advance attested controller_hello node_auth
  finished = ground (arith, decodes full, verifies identity full)

  node_done :
      client_handshake c node_identity node_eph node_nonce
        (c.public identity)
        controller_id
        hello.0
        sent.0
      ≡ done (record node_session { channel = received.1 })
  unfolding client_handshake client_reply attested controller_hello
  node_done =
      rw (welcomed, client_handshake, client_reply)
        (after_recv-done c hello.0
            (attested c node_eph hello.0.eph_pub auth.1 false
              (node_id_for c (c.public node_identity)) controller_id)
            received (finish_message c identity controller_id full) delivered
          ∙ finished)

  paired : IsPaired sent.1 received.1 × IsPaired received.1 sent.1
  unfolding recv send attested open_channel node_auth controller_hello
  paired = (
    record {
      keys = ground (arith, same_key);
      transcripts = ground arith;
      directions = ground arith;
      counters = ground arith;
    },
    record {
      keys = ground (arith, same_key);
      transcripts = ground arith;
      directions = ground arith;
      counters = ground arith;
    },
  )

  -- The handshake succeeds: an enrolled node and a controller whose key it pins, that exchange their
  -- messages undisturbed, both end in a session, and their channels agree in both directions. What is
  -- used of the cryptography is that a signature verifies, that X25519 agrees, and that what is
  -- encoded or encrypted comes back.
  pub handshake_agreed :
      (s : Session) × (f : Frame C) × (n : Session) × (server_handshake c identity
          (controller_hello c identity controller_id eph nonce).1
          eph
          controller_id
          resolve_node
          (node_auth c node_identity
            (controller_hello c identity controller_id eph nonce).1
            node_eph
            node_nonce).0
        ≡ done (s, f))
      × (client_handshake c node_identity node_eph node_nonce
            (c.public identity)
            controller_id
            (controller_hello c identity controller_id eph nonce).0
            f
          ≡ done n)
      × IsPaired s.channel n.channel
      × IsPaired n.channel s.channel
  handshake_agreed = (
    record server_session { channel = sent.1 },
    sent.0,
    record node_session { channel = received.1 },
    served,
    node_done,
    paired.0,
    paired.1,
  )
