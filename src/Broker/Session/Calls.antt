-- ===== src/Broker/Session/Calls.antt =====
-- The methods of session.py as data, for sequences of calls.
use eight_call.Prelude.{String, Bool, List, [], ◌∷◌, Option}
use eight_call.Broker.Session
use eight_call.Broker.Session.{State, Session, ProtocolError}

-- A call of a method, with its arguments.
pub data Call : Type 0 where
  connect begin_auth begin_execute close : Call
  authenticate : String → Call
  authorize : Bool → Call
  finish : State → Call

unfoldable pub call : Call → Session → Session × Option ProtocolError
unfolding Session.connect Session.begin_auth Session.authenticate Session.authorize
    Session.begin_execute Session.finish Session.close
call connect s = Session.connect s
call begin_auth s = Session.begin_auth s
call (authenticate peer) s = Session.authenticate peer s
call (authorize allowed) s = Session.authorize allowed s
call begin_execute s = Session.begin_execute s
call (finish outcome) s = Session.finish outcome s
call close s = Session.close s

-- Calls in a row; a caller may go on after an error.
unfoldable pub run : List Call → Session → Session
run [] s = s
run (c ∷ cs) s = run cs (call c s).0
