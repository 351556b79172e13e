-- ===== src/Broker/Examples/Sessions.antt =====
-- Sessions of plasma/broker/broker/session.py.
use eight_call.Prelude.{◌≡◌, ◌≢◌, ◌⊎◌, refl, true, false, List, [], ◌∷◌, none, some}
use eight_call.Broker.Session.{
  State, Session, ProtocolError, new, go_to, legal, disconnected, connected, authenticating,
  authenticated, executing, closed, illegal_transition, identity_mismatch, invalid_outcome,
  is_outcome, completed,
}
use eight_call.Broker.Session
use eight_call.Broker.Session.Calls.{
  Call, connect, begin_auth, authenticate, authorize, begin_execute, finish, close, call, run,
}
use eight_call.Broker.Session.Traces.{
  IsAuthentic, Subsequence, path, peer_pinned, run-closed, run-executed, call-outcome,
}

abbrev whole : List Call
whole =
    connect
    ∷ begin_auth
    ∷ authenticate "fp"
    ∷ authorize true
    ∷ begin_execute
    ∷ finish completed
    ∷ []

abbrev at : State → Session
at state = record {
  pinned_fingerprint = "fp";
  session_id = "s1";
  state = state;
  peer_fingerprint = "fp";
}

whole-completes : run whole (new "fp" "s1") ≡ at completed
unfolding run call new Session.connect Session.begin_auth Session.authenticate Session.authorize
    Session.begin_execute Session.finish go_to legal
whole-completes = refl

-- A second authentication closes the session, with a message that names the state after it.
reauthenticated :
    call (authenticate "fp") (at authenticated)
    ≡ (at closed, some (illegal_transition closed authenticated))
unfolding call Session.authenticate
reauthenticated = refl

wrong_peer : (call (authenticate "other") (at authenticating)).1 ≡ some identity_mismatch
unfolding call Session.authenticate
wrong_peer = refl

executed : Session.Traces.has_executed (run whole (new "fp" "s1")).state ≡ true
executed = rw whole-completes refl

run-executed_example : Subsequence (path "fp" disconnected) whole
run-executed_example = run-executed "fp" "s1" whole executed

call-outcome_example :
    let (s', e) = call (finish connected) (at executing) in
    ((e ≡ none) × ((legal executing s'.state ≡ true) ⊎ (finish connected ≡ close)))
    ⊎ ((e ≢ none) × (s'.state ≡ closed))
    ⊎ ((o : State) × (finish connected ≡ finish o)
        × (is_outcome o ≡ false)
        × (e ≡ some (invalid_outcome o))
        × (s' ≡ at executing))
call-outcome_example = call-outcome (finish connected) (at executing)
