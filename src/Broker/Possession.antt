-- ===== src/Broker/Possession.antt =====
-- plasma/broker/broker/possession.py: the live peer holds the pinned key. What the network shows is
-- an argument.
use eight_call.Prelude.{
  ℕ, String, Bool, false, not, Option, none, some, ◌==◌, nat_eq, if◌then◌else◌,
}
use eight_call.Broker.Result.{
  Result, ok, err, denied, os_error, target_not_approved, no_transport_endpoint,
  gate_transport_identity_unavailable, target_unreachable, target_identity_mismatch,
  target_identity_unverifiable,
}
use eight_call.Broker.Store.{is_set}

-- What is at an address and a port: no connection, a certificate that cannot be read, a peer with
-- this fingerprint, or such a peer whose connection breaks when the gate writes.
pub data Peer : Type 0 where
  unreachable unverifiable : Peer
  presents broken : String → Peer

abbrev pub port_of : Option ℕ → ℕ
port_of none = 0
port_of (some p) = p

abbrev pub is_pinned : Option String → String → Bool
is_pinned none seen = false
is_pinned (some pin) seen = seen == pin

abbrev meet : Option String → Peer → Result String
meet pin unreachable = err (denied target_unreachable)
meet pin unverifiable = err (denied target_identity_unverifiable)
meet pin (presents seen) =
    if not (is_pinned pin seen) then err (denied target_identity_mismatch) else ok seen
meet pin (broken seen) =
    if not (is_pinned pin seen) then err (denied target_identity_mismatch) else err os_error

-- `has_identity` says that the gate's certificate and key are there.
unfoldable pub verify_target :
    (String → ℕ → Peer) → Bool → String → Option ℕ → Option String → Result String
verify_target network has_identity address port pin =
    if not (is_set pin)
    then err (denied target_not_approved)
    else if nat_eq (port_of port) 0
    then err (denied no_transport_endpoint)
    else if not has_identity
    then err (denied gate_transport_identity_unavailable)
    else meet pin (network address (port_of port))
