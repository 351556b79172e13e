-- ===== src/Broker/Actions.antt =====
-- plasma/broker/broker/actions.py: `run` and `run_authorized`, the only path to a capability, with
-- the crash points of failpoints.py. What a capability does on the network is an argument.
pub mod History
pub mod Outcomes
pub mod Promises
use Prim.Native.String.{◌++◌ as concat}
use eight_call.Prelude.{
  ℕ, ◌+◌, String, Bool, true, false, not, ◌&&◌, List, [], ◌∷◌, Option, none, some, ◌==◌, contains,
  if◌then◌else◌, ℤ, nat_eq, is_some,
}
use eight_call.Prelude.Int.{pos_part, neg_part}
use eight_call.Broker.Json
use eight_call.Broker.Json.{
  Json, Items, Fields, null, bool, num, text, arr, obj, nil, item, end, field,
}
use eight_call.Broker.Result.{
  Result, ok, err, Error, Reason, Action, denied, killed, action_failed, pure, ◌>>=◌, ◌>>◌,
  target_disabled, token_malformed, raise,
}
use eight_call.Broker.Store.{Store, Target, RunState, done, failed, outcome_unknown}
use eight_call.Broker.Store.Targets.{target}
use eight_call.Broker.Store.Tokens.{claim_run}
use eight_call.Broker.Store.Runs.{finish_run, add_observation}
use eight_call.Broker.Gate.{Host, Payload, Token, TrustedKey}
use eight_call.Broker.Gate.Authorize.{token_text}
use eight_call.Broker.Gate.Verify.{verify_token}
use eight_call.Broker.Gate.Reasons.{reason_text}
use eight_call.Broker.Grant
use eight_call.Broker.Grant.{Grant}
use eight_call.Broker.Possession.{Peer, verify_target}

-- The keys of `_DISPATCH`.
abbrev pub implemented : List String
implemented = "ping" ∷ "neigh" ∷ "tcp_probe" ∷ "inventory" ∷ []

-- What a capability of `_DISPATCH` does: it returns a dict, or raises with this message.
pub data Performed : Type 0 where
  returned : Fields → Performed
  raised : String → Performed

-- The outside: the network, the capabilities by name, address and parameters, and the process.
pub record World : Type 0 where
  pub network : String → ℕ → Peer
  pub has_identity : Bool
  pub perform : String → String → Fields → Performed
  pub service_mode : Bool
  pub failpoint : Option String
  pub message : Error → String

pub record Times : Type 0 where
  pub verified : ℕ
  pub observed : ℕ
  pub claimed : ℕ
  pub finished : ℕ

pub record Outcome : Type 0 where
  pub run_id : String
  pub state : RunState
  pub target : String
  pub action : String
  pub fencing : ℕ
  pub result : Fields

abbrev pub is_hit : World → String → Bool
is_hit w name = elim w.failpoint [ none ↦ false | some f ↦ not w.service_mode && f == name ]

-- `failpoints.hit`: SIGKILL at the named point, and never in service mode.
unfoldable pub hit : World → String → Action Store Unit
hit w name s = if is_hit w name then (err (killed name), s) else (ok tt, s)

abbrev missing_implementation : String → Fields
missing_implementation action =
    field "ok" (bool false)
      (field "error" (text (concat "no implementation for '" (concat action "'"))) end)

abbrev outcome_of : Performed → Result Fields
outcome_of (returned result) = ok result
outcome_of (raised message) = err (action_failed message)

abbrev performed :
    World → String → String → Fields → Result (Unit {0}) × Grant → Result Fields × Grant
performed w action address params (err e, g) = (err e, g)
performed w action address params (ok _, g) = (outcome_of (w.perform action address params), g)

abbrev dispatch :
    World → String → String → Fields → Grant → Result (Unit {0}) → Result Fields × Grant
dispatch w action address params g (err e) = (err e, g)
dispatch w action address params g (ok _) =
    if not (contains action implemented)
    then (ok (missing_implementation action), g)
    else performed w action address params (Grant.consume g)

-- Only a Grant can be handed in. It comes back as it is left.
unfoldable pub run : World → String → String → Fields → Grant → Result Fields × Grant
unfolding Grant.check Grant.consume
run w action address params g = dispatch w action address params g (Grant.check action g)

-- A write that raises nothing.
abbrev pub ended : (Store → Store) → Action Store Unit
ended f s = (ok tt, f s)

-- Python's truth of a JSON value.
abbrev truth : Json → Bool
truth null = false
truth (bool b) = b
truth (num n) = not (nat_eq (pos_part n + neg_part n) 0)
truth (text t) = not (t == "")
truth (arr nil) = false
truth (arr (item v vs)) = true
truth (obj end) = false
truth (obj (field k v d)) = true

-- `result.get("ok", True)`.
abbrev pub is_ok : Fields → Bool
is_ok result = elim (Json.get "ok" result) [ none ↦ true | some v ↦ truth v ]

abbrev pub enabled_target : Option Target → Result Target
enabled_target none = err (denied target_disabled)
enabled_target (some t) = if t.status == "enabled" then ok t else err (denied target_disabled)

module _ (c : Host) (w : World) (now : Times) (target_id action : String) where
  -- How the run ends, after the capability has returned or raised.
  unfoldable pub conclude : String → ℕ → Result Fields → Action Store Outcome
  conclude run_id fencing (err e) s = (
    err e,
    finish_run run_id outcome_unknown (c.digest (field "error" (text (w.message e)) end))
        now.finished s,
  )
  conclude run_id fencing (ok result) s =
      let state = if is_ok result then done else failed in
      let finish : Action Store Outcome = do
        hit w "after_action"
        ended (finish_run run_id state (c.digest result) now.finished)
        pure (record {
          run_id = run_id;
          state = state;
          target = target_id;
          action = action;
          fencing = fencing;
          result = result;
        })
      in finish s

  abbrev pub granted : String → Payload → Result Grant → Result Fields
  granted address p (err e) = err e
  granted address p (ok g) = (run w action address p.params g).0

  -- From the claim on: the grant is minted and the capability performed.
  unfoldable pub after_claim : String → Payload → Target → Action Store Outcome
  after_claim run_id p t = do
    hit w "after_claim"
    conclude run_id p.fencing
        (granted t.address p (Grant.mint target_id action p.fencing p.params run_id))

  unfoldable pub execute : String → String → Token → Payload → Target → Action Store Outcome
  execute run_id pod token p t = do
    claim_run (c.digest (field "tok" (text (token_text token)) end)) target_id action p.fencing
        run_id pod now.claimed
    after_claim run_id p t

  -- The proof of possession is observed either way, unless the connection broke.
  unfoldable pub note_possession : Result String → Action Store Unit
  note_possession (ok seen) s = (ok tt, add_observation target_id "pop" "ok" now.observed s)
  note_possession (err (denied reason)) s =
      (err (denied reason), add_observation target_id "pop" (reason_text reason) now.observed s)
  note_possession (err e) s = (err e, s)

  unfoldable pub possess : Target → Action Store Unit
  possess t =
      note_possession
        (verify_target w.network w.has_identity t.address t.transport_port t.key_fingerprint)

  unfoldable pub run_on : String → String → Token → Payload → Result Target → Action Store Outcome
  run_on pod run_id token p (err e) = raise e
  run_on pod run_id token p (ok t) = possess t >> execute run_id pod token p t

  unfoldable pub run_verified : String → String → Token → Result Payload → Action Store Outcome
  run_verified pod run_id token (err e) s = (err e, s)
  run_verified pod run_id token (ok p) s =
      run_on pod run_id token p (enabled_target (target target_id s)) s

  -- Verify the token, prove possession, claim, dispatch.
  unfoldable pub run_authorized :
      List TrustedKey → Option Token → String → String → Action Store Outcome
  run_authorized keys none pod run_id s = (err (denied token_malformed), s)
  run_authorized keys (some token) pod run_id s =
      run_verified pod run_id token
        (verify_token c keys (some token) target_id action now.verified s) s
