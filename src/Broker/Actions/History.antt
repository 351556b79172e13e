-- ===== src/Broker/Actions/History.antt =====
-- Every outcome of actions.py's `run_authorized` is a history of store.py's operations.
use eight_call.Prelude.{ℕ, String, List, Option, none, some, Bool-cases, if◌then◌else◌, inl, inr}
use eight_call.Broker.Json.{Fields}
use eight_call.Broker.Result.{Result, ok, err, denied, ◌>>◌, pure}
use eight_call.Broker.Store.{Target, RunState, done, failed, outcome_unknown}
use eight_call.Broker.Store.Targets.{target}
use eight_call.Broker.Store.Runs.{finish_run}
use eight_call.Broker.Store.Ops.{Op, apply}
use eight_call.Broker.Store.Ops.History.{IsHistory, Reaches-refl, Reaches-op, IsHistory-bind}
use eight_call.Broker.Gate.{Host, Payload, Token, TrustedKey}
use eight_call.Broker.Gate.Reasons.{reason_text}
use eight_call.Broker.Gate.Verify.{verify_token}
use eight_call.Broker.Possession.{verify_target}
use eight_call.Broker.Actions.{
  World, Times, Outcome, is_hit, hit, conclude, after_claim, execute, note_possession, possess,
  run_on, run_verified, enabled_target, run_authorized, is_ok, ended,
}

module _ (c : Host) (actual : String → Option String) (w : World) (now : Times)
    (id action : String) where
  hit-IsHistory : (name : String) → IsHistory c.digest actual (hit w name)
  unfolding hit
  hit-IsHistory name = record {
    at = λ s. elim (Bool-cases (is_hit w name)) [
      | inl h ↦ rw h (Reaches-refl c.digest actual s)
      | inr h ↦ rw h (Reaches-refl c.digest actual s)
    ];
  }

  finish-IsHistory :
      (run_id : String) (state : RunState) (d : String) (t : ℕ)
      → IsHistory c.digest actual (ended (finish_run run_id state d t))
  unfolding apply
  finish-IsHistory run_id state d t = record {
    at = λ s. Reaches-op c.digest actual (Op.finish_run run_id state d t) s tt;
  }

  answer-IsHistory :
      (run_id : String) (state : RunState) (d : String) (t : ℕ) (o : Outcome)
      → IsHistory c.digest actual (ended (finish_run run_id state d t) >> pure o)
  answer-IsHistory run_id state d t o =
      IsHistory-bind c.digest actual (ended (finish_run run_id state d t)) (λ _. pure o)
        (finish-IsHistory run_id state d t)
        (λ _. record { at = λ s. Reaches-refl c.digest actual s })

  conclude-IsHistory :
      (run_id : String) (fencing : ℕ) (r : Result Fields)
      → IsHistory c.digest actual (conclude c w now id action run_id fencing r)
  unfolding conclude
  conclude-IsHistory run_id fencing (err e) = record {
    at = λ s. (finish-IsHistory run_id outcome_unknown _ now.finished).at s;
  }
  conclude-IsHistory run_id fencing (ok result) =
      let state = if is_ok result then done else failed in
      let o : Outcome = record {
        run_id = run_id;
        state = state;
        target = id;
        action = action;
        fencing = fencing;
        result = result;
      } in
      let h =
        IsHistory-bind c.digest actual (hit w "after_action")
          (λ _. ended (finish_run run_id state (c.digest result) now.finished) >> pure o)
          (hit-IsHistory "after_action")
          (λ _. answer-IsHistory run_id state (c.digest result) now.finished o) in
      record { at = λ s. h.at s }

  after_claim-IsHistory :
      (run_id : String) (p : Payload) (t : Target)
      → IsHistory c.digest actual (after_claim c w now id action run_id p t)
  unfolding after_claim
  after_claim-IsHistory run_id p t =
      IsHistory-bind c.digest actual _ _ (hit-IsHistory "after_claim")
        (λ _. conclude-IsHistory run_id p.fencing _)

  execute-IsHistory :
      (run_id pod : String) (x : Token) (p : Payload) (t : Target)
      → IsHistory c.digest actual (execute c w now id action run_id pod x p t)
  unfolding execute apply
  execute-IsHistory run_id pod x p t =
      IsHistory-bind c.digest actual _ _
        (record {
          at = λ s. Reaches-op c.digest actual (Op.claim_run _ id action _ run_id pod _) s tt;
        })
        (λ _. after_claim-IsHistory run_id p t)

  note-IsHistory :
      (r : Result String) → IsHistory c.digest actual (note_possession c w now id action r)
  unfolding note_possession apply
  note-IsHistory (ok seen) = record {
    at = λ s. Reaches-op c.digest actual (Op.add_observation id "pop" "ok" now.observed) s tt;
  }
  note-IsHistory (err (denied reason)) = record {
    at = λ s.
        Reaches-op c.digest actual (Op.add_observation id "pop" (reason_text reason) now.observed) s
          tt;
  }
  note-IsHistory (err e) = record { at = λ s. Reaches-refl c.digest actual s }

  on-IsHistory :
      (pod run_id : String) (x : Token) (p : Payload) (o : Result Target)
      → IsHistory c.digest actual (run_on c w now id action pod run_id x p o)
  unfolding run_on possess
  on-IsHistory pod run_id x p (err e) = record { at = λ s. Reaches-refl c.digest actual s }
  on-IsHistory pod run_id x p (ok t) =
      IsHistory-bind c.digest actual _ _
        (note-IsHistory
          (verify_target w.network w.has_identity t.address t.transport_port t.key_fingerprint))
        (λ _. execute-IsHistory run_id pod x p t)

  verified-IsHistory :
      (pod run_id : String) (x : Token) (v : Result Payload)
      → IsHistory c.digest actual (run_verified c w now id action pod run_id x v)
  unfolding run_verified
  verified-IsHistory pod run_id x (err e) = record { at = λ s. Reaches-refl c.digest actual s }
  verified-IsHistory pod run_id x (ok p) = record {
    at = λ s. (on-IsHistory pod run_id x p (enabled_target (target id s))).at s;
  }

  -- Whatever `run_authorized` returns or raises, and wherever it is killed, the database it leaves is
  -- one that the store's operations lead to: what holds over every history of the store holds across
  -- a run.
  pub run_authorized-IsHistory :
      (keys : List TrustedKey) (o : Option Token) (pod run_id : String)
      → IsHistory c.digest actual (run_authorized c w now id action keys o pod run_id)
  unfolding run_authorized
  run_authorized-IsHistory keys none pod run_id = record {
    at = λ s. Reaches-refl c.digest actual s;
  }
  run_authorized-IsHistory keys (some x) pod run_id = record {
    at = λ s.
        (verified-IsHistory pod run_id x (verify_token c keys (some x) id action now.verified s)).at
          s;
  }
