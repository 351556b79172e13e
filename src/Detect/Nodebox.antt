-- ===== src/Detect/Nodebox.antt =====
-- detect/nodebox_crypto.py and nodebox_protocol.py: the transcripts, the channel and the handshakes
-- between a controller and a node. A text that is base64 stands for its bytes.
pub mod Channel
pub mod Protocol
pub mod Controller
pub mod Ssh
pub mod SshGate
pub mod Agent
pub mod Layers
use eight_call.Prelude.{ℕ, ◌/◌, ◌%◌, String, Bool, List, [], ◌∷◌, ◌++◌, Option, length}
use eight_call.Broker.Json.{Fields}

abbrev pub Bytes : Type 0
Bytes = List ℕ

pub data NodeError : Type 0 where
  short_frame wrong_direction out_of_order invalid_tag : NodeError
  expected_client_auth node_id_mismatch not_enrolled node_key_mismatch : NodeError
  bad_server_hello unknown_controller_id unknown_controller_key expected_server_finish : NodeError
  invalid_signature illegal_transition : NodeError

pub data Outcome (A : Type 0) : Type 0 where
  done : A → Outcome A
  failed : NodeError → Outcome A

-- What the two sides use of hashlib, Ed25519, X25519, HKDF and AES-GCM; `C` is a ciphertext. A public
-- key is made from its secret, `node_digest` is the text that a node's name ends in, and `none` from
-- `decrypt` is an invalid tag.
pub record Crypto (C : Type 0) : Type 0 where
  pub sha256 : Bytes → Bytes
  pub utf8 : String → Bytes
  pub b64e : Bytes → String
  pub b64d : String → Bytes
  pub node_digest : Bytes → String
  pub public : Bytes → Bytes
  pub sign : Bytes → Bytes → Bytes
  pub verify : Bytes → Bytes → Bytes → Bool
  pub eph_public : Bytes → Bytes
  pub exchange : Bytes → Bytes → Bytes
  pub derive_key : Bytes → Bytes → Bytes
  pub encrypt : Bytes → ℕ → ℕ → Fields → Bytes → C
  pub decrypt : Bytes → ℕ → ℕ → C → Bytes → Option Fields

-- `struct.pack(">I", n)`, for a length below 2 ^ 32.
abbrev pack : ℕ → List ℕ
pack n = n / 16777216 % 256 ∷ n / 65536 % 256 ∷ n / 256 % 256 ∷ n % 256 ∷ []

-- Each part behind its length.
unfoldable pub framed : List (List ℕ) → List ℕ
framed [] = []
framed (p ∷ ps) = pack (length p) ++ p ++ framed ps
