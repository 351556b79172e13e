-- ===== src/Broker/Session.antt =====
-- plasma/broker/broker/session.py: the state machine of an authenticated session. A method returns
-- the session as it is left and, if it raised `ProtocolError`, which error.
pub mod Calls
pub mod Traces
use eight_call.Prelude.{
  String, Bool, true, false, not, ◌&&◌, ◌||◌, Option, none, some, ◌==◌, if◌then◌else◌,
}

pub data State : Type 0 where
  disconnected connected authenticating authenticated authorized executing : State
  completed failed outcome_unknown cancelled closed : State

pub data ProtocolError : Type 0 where
  illegal_transition : State → State → ProtocolError
  identity_mismatch not_authorized : ProtocolError
  invalid_outcome : State → ProtocolError

pub record Session : Type 0 where
  pub pinned_fingerprint : String
  pub session_id : String
  pub state : State
  pub peer_fingerprint : String

-- `target in _LEGAL[state]`.
unfoldable pub legal : State → State → Bool
legal disconnected connected = true
legal disconnected closed = true
legal connected authenticating = true
legal connected closed = true
legal authenticating authenticated = true
legal authenticating closed = true
legal authenticated authorized = true
legal authenticated closed = true
legal authorized executing = true
legal authorized closed = true
legal executing completed = true
legal executing failed = true
legal executing outcome_unknown = true
legal executing cancelled = true
legal executing closed = true
legal completed closed = true
legal failed closed = true
legal outcome_unknown closed = true
legal cancelled closed = true
legal _ _ = false

abbrev pub is_authenticating : State → Bool
is_authenticating authenticating = true
is_authenticating _ = false

abbrev pub is_authenticated : State → Bool
is_authenticated authenticated = true
is_authenticated _ = false

unfoldable pub new : String → String → Session
new pinned_fingerprint session_id = record {
  pinned_fingerprint = pinned_fingerprint;
  session_id = session_id;
  state = disconnected;
  peer_fingerprint = "";
}

-- The message is formatted after the state is set, so it names `closed`.
unfoldable pub go_to : State → Session → Session × Option ProtocolError
unfolding legal
go_to target s =
    if legal s.state target
    then (record s { state = target }, none)
    else (record s { state = closed }, some (illegal_transition closed target))

unfoldable pub connect : Session → Session × Option ProtocolError
unfolding go_to
connect = go_to connected

unfoldable pub begin_auth : Session → Session × Option ProtocolError
unfolding go_to
begin_auth = go_to authenticating

unfoldable pub authenticate : String → Session → Session × Option ProtocolError
authenticate peer s =
    if not (is_authenticating s.state)
    then (record s { state = closed }, some (illegal_transition closed authenticated))
    else if peer == "" || not (peer == s.pinned_fingerprint)
    then (record s { state = closed }, some identity_mismatch)
    else (record s { peer_fingerprint = peer; state = authenticated }, none)

unfoldable pub authorize : Bool → Session → Session × Option ProtocolError
authorize allowed s =
    if not (is_authenticated s.state)
    then (record s { state = closed }, some (illegal_transition closed authorized))
    else if not allowed
    then (record s { state = closed }, some not_authorized)
    else (record s { state = authorized }, none)

unfoldable pub begin_execute : Session → Session × Option ProtocolError
unfolding go_to
begin_execute = go_to executing

abbrev pub is_outcome : State → Bool
is_outcome completed = true
is_outcome failed = true
is_outcome outcome_unknown = true
is_outcome cancelled = true
is_outcome _ = false

unfoldable pub finish : State → Session → Session × Option ProtocolError
unfolding go_to
finish outcome s =
    if is_outcome outcome then go_to outcome s else (s, some (invalid_outcome outcome))

unfoldable pub close : Session → Session × Option ProtocolError
close s = (record s { state = closed }, none)
