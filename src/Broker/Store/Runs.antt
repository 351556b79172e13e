-- ===== src/Broker/Store/Runs.antt =====
-- store.py: how runs end, and the observations.
use eight_call.Prelude.{
  ℕ, ◌+◌, String, Bool, true, false, ◌&&◌, Option, none, some, List, [], ◌∷◌, ◌==◌, ltb, update,
  count, if◌then◌else◌,
}
use eight_call.Broker.Store.{Store, Run, RunState, Observation, claimed, running, outcome_unknown}
use eight_call.Broker.Store.Decisions.{genesis}

unfoldable pub finish_run : String → RunState → String → ℕ → Store → Store
finish_run run_id state result_digest now s = record s {
  runs =
      update (λ r. r.run_id == run_id)
        (λ r. record r { state = state; ended_ts = some now; result_digest = result_digest })
        s.runs;
}

abbrev pub is_open : RunState → Bool
is_open claimed = true
is_open running = true
is_open _ = false

-- `started_ts < now - timeout`, where the difference may be negative.
abbrev pub is_overdue : ℕ → ℕ → Run → Bool
is_overdue timeout now r = is_open r.state && ltb (r.started_ts + timeout) now

-- Runs left open past the timeout have an unknown outcome; the result is how many there were.
unfoldable pub reconcile_runs : ℕ → ℕ → Store → ℕ × Store
reconcile_runs timeout now s = (
  count (is_overdue timeout now) s.runs,
  record s {
    runs =
        update (is_overdue timeout now)
          (λ r. record r { state = outcome_unknown; ended_ts = some now }) s.runs;
  },
)

unfoldable pub add_observation : String → String → String → ℕ → Store → Store
add_observation target_id kind value now s = record s {
  observations =
      record { target_id = target_id; kind = kind; value = value; ts = now } ∷ s.observations;
}

latest : String → String → List Observation → Option Observation
latest target_id kind [] = none
latest target_id kind (o ∷ older) =
    if o.target_id == target_id && o.kind == kind then some o else latest target_id kind older

unfoldable pub last_observation : String → String → Store → Option Observation
unfolding latest
last_observation target_id kind s = latest target_id kind s.observations

unfoldable pub checkpoint_head : Store → ℕ × String
checkpoint_head s = elim s.checkpoint [ none ↦ (0, genesis) | some head ↦ (1, head) ]
