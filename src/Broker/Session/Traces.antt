-- ===== src/Broker/Session/Traces.antt =====
-- What holds of a session of session.py over every sequence of calls.
use eight_call.Prelude.{
  not, ◌||◌, ◌==◌, String, ◌≡◌, ◌≢◌, ◌⊎◌, inl, inr, refl, Bool, true, false, List, [], ◌∷◌, none,
  some, arith, eq_iff, ◌∙◌, Bool-cases,
}
use eight_call.Broker.Session.{
  State, Session, new, disconnected, connected, authenticating, authenticated, authorized,
  executing, completed, failed, outcome_unknown, cancelled, closed, invalid_outcome, is_outcome,
  legal,
}
use eight_call.Broker.Session.Calls.{
  Call, connect, begin_auth, authenticate, authorize, begin_execute, finish, close, call, run,
}

-- The states that lie behind a successful `authenticated`.
abbrev pub is_past_auth : State → Bool
is_past_auth disconnected = false
is_past_auth connected = false
is_past_auth authenticating = false
is_past_auth closed = false
is_past_auth _ = true

pub record IsAuthentic (pin : String) (s : Session) : Type 0 where
  pub pinned : s.pinned_fingerprint ≡ pin
  pub matches : (not (is_past_auth s.state) || s.peer_fingerprint == pin) ≡ true
  pub present : (not (is_past_auth s.state) || not (s.peer_fingerprint == "")) ≡ true

call-IsAuthentic :
    (pin : String) (c : Call) (s : Session) → IsAuthentic pin s → IsAuthentic pin (call c s).0
unfolding call
call-IsAuthentic pin (authenticate p) s h =
    ground (arith, eq_iff p s.pinned_fingerprint, eq_iff p "")
call-IsAuthentic pin _ s h = ground arith

run-IsAuthentic :
    (pin : String) (cs : List Call) (s : Session) → IsAuthentic pin s → IsAuthentic pin (run cs s)
unfolding run
run-IsAuthentic pin [] s h = h
run-IsAuthentic pin (c ∷ cs) s h = run-IsAuthentic pin cs (call c s).0 (call-IsAuthentic pin c s h)

-- Whatever is called on a new session, in whatever order and whatever errors are ignored, in each
-- state from authenticated on the recorded peer fingerprint is the pinned one and is not empty.
pub peer_pinned : (pin id : String) (cs : List Call) → IsAuthentic pin (run cs (new pin id))
unfolding new
peer_pinned pin id cs = run-IsAuthentic pin cs (new pin id) (ground arith)

-- The calls of the first list are made in this order among those of the second.
pub data Subsequence : List Call → List Call → Type 0 where
  done : {cs : List Call} → Subsequence [] cs
  keep : {c : Call} {ds cs : List Call} → Subsequence ds cs → Subsequence (c ∷ ds) (c ∷ cs)
  skip : {c : Call} {ds cs : List Call} → Subsequence ds cs → Subsequence ds (c ∷ cs)

-- The calls that a session pinned to `pin` still needs to begin to execute.
abbrev pub path : String → State → List Call
path pin disconnected =
    connect ∷ begin_auth ∷ authenticate pin ∷ authorize true ∷ begin_execute ∷ []
path pin connected = begin_auth ∷ authenticate pin ∷ authorize true ∷ begin_execute ∷ []
path pin authenticating = authenticate pin ∷ authorize true ∷ begin_execute ∷ []
path pin authenticated = authorize true ∷ begin_execute ∷ []
path pin authorized = begin_execute ∷ []
path pin _ = []

-- A session that has begun to execute, and is not closed.
abbrev pub has_executed : State → Bool
has_executed executing = true
has_executed completed = true
has_executed failed = true
has_executed outcome_unknown = true
has_executed cancelled = true
has_executed _ = false

pinned-call : (c : Call) (s : Session) → (call c s).0.pinned_fingerprint ≡ s.pinned_fingerprint
unfolding call
pinned-call c s = ground arith

-- A call closes the session, or is the next one that is needed, or leaves as much to be called.
call-path :
    (pin : String) (c : Call) (s : Session)
    → s.pinned_fingerprint ≡ pin
    → ((call c s).0.state ≡ closed)
      ⊎ (path pin s.state ≡ c ∷ path pin (call c s).0.state)
      ⊎ (path pin s.state ≡ path pin (call c s).0.state)
unfolding call
call-path pin (authenticate x) s p = ground (arith, eq_iff x s.pinned_fingerprint)
call-path pin _ s p = ground arith

call-closed : (c : Call) (s : Session) → s.state ≡ closed → (call c s).0.state ≡ closed
unfolding call
call-closed c s h = ground arith

-- `closed` is final: whatever is called on a closed session, it stays closed.
pub run-closed : (cs : List Call) (s : Session) → s.state ≡ closed → (run cs s).state ≡ closed
unfolding run
run-closed [] s h = h
run-closed (c ∷ cs) s h = run-closed cs (call c s).0 (call-closed c s h)

ended : (pin : String) (t : State) → has_executed t ≡ true → Subsequence (path pin t) []
ended pin disconnected h = cc
ended pin connected h = cc
ended pin authenticating h = cc
ended pin authenticated h = cc
ended pin authorized h = cc
ended pin _ h = done

run-path :
    (pin : String) (cs : List Call) (s : Session)
    → s.pinned_fingerprint ≡ pin
    → has_executed (run cs s).state ≡ true
    → Subsequence (path pin s.state) cs
unfolding run
run-path pin [] s p h = ended pin s.state h
run-path pin (c ∷ cs) s p h =
    let rest = run-path pin cs (call c s).0 (pinned-call c s ∙ p) h in
    elim (call-path pin c s p) [
      | inl shut ↦ absurd (cc (run-closed cs (call c s).0 shut))
      | inr (inl next) ↦ rw next (keep rest)
      | inr (inr same) ↦ rw same (skip rest)
    ]

-- A new session pinned to `pin` has begun to execute, or has executed, only if `connected`,
-- `begin_auth`, `authenticated` with the pinned fingerprint, `authorize` with a positive verdict and
-- `begin_execute` were called on it, in this order.
pub run-executed :
    (pin id : String) (cs : List Call)
    → has_executed (run cs (new pin id)).state ≡ true
    → Subsequence (path pin disconnected) cs
unfolding new
run-executed pin id cs h = run-path pin cs (new pin id) refl h

-- A call that raises closes the session, except that `finish` refuses a state that is no outcome
-- and leaves the session as it was; a call that returns moves along `_LEGAL`, or is `close`.
pub call-outcome :
    (c : Call) (s : Session)
    → let (s', e) = call c s in
      ((e ≡ none) × ((legal s.state s'.state ≡ true) ⊎ (c ≡ close)))
      ⊎ ((e ≢ none) × (s'.state ≡ closed))
      ⊎ ((o : State) × (c ≡ finish o)
          × (is_outcome o ≡ false)
          × (e ≡ some (invalid_outcome o))
          × (s' ≡ s))
unfolding call legal
call-outcome (finish o) s = elim (Bool-cases (is_outcome o)) [
  | inl good ↦ ground arith
  | inr bad ↦ inr (inr (o, refl, bad, ground arith, ground arith))
]
call-outcome _ s = ground arith
