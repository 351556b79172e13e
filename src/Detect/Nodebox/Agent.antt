-- ===== src/Detect/Nodebox/Agent.antt =====
-- nodebox_agent.py: the typed commands of a node. Nothing here runs a process: a capability reads or
-- writes the node's own state.
pub mod Allowed
use eight_call.Prelude.{
  ℕ, zero, suc, ◌+◌, ◌-◌, String, Bool, true, false, not, ◌&&◌, List, [], ◌∷◌, ◌++◌, Option, none,
  some, ◌==◌, ℤ, pos, negsuc, contains, length, drop, if◌then◌else◌,
}
use mathlib.Core.List.{reverse}
use eight_call.Broker.Json
use eight_call.Broker.Json.{
  Json, Items, Fields, null, bool, num, text, arr, obj, nil, item, end, field,
}
use eight_call.Broker.Registry.Params.{int_of}
use eight_call.Detect.Nodebox.{Bytes}

abbrev pub capabilities : List String
capabilities =
    "PING" ∷ "INFO" ∷ "STATUS" ∷ "DISCONNECT" ∷ "SYNC_CONFIG" ∷ "FETCH_LOGS" ∷ "CAPTURE_TELEMETRY"
    ∷ "RESTART_SERVICE" ∷ "UPDATE_RULESET" ∷ []

abbrev pub mutating : List String
mutating = "SYNC_CONFIG" ∷ "RESTART_SERVICE" ∷ "UPDATE_RULESET" ∷ []

-- What the node is, and what it uses of the outside: the clock, sha256 of a text, the texts that JSON
-- and a telemetry line are written as, the controller's signature under its pinned key, and whether the
-- environment allows a restart. `info` is the part of INFO's answer that does not change, and
-- `provenance` that of every event.
pub record Node : Type 0 where
  pub node_id : String
  pub device_type : String
  pub allowed : List String
  pub info : Fields
  pub provenance : Fields
  pub clock : ℕ
  pub uptime : Json
  pub sha256_hex : String → String
  pub dumps : Json → String
  pub dump_line : Fields → String
  pub verify_controller : String → String → Bool
  pub allow_restart : Bool

-- Telemetry and ring have the latest last, as the file and the list have.
pub record Agent : Type 0 where
  pub events : ℕ
  pub commands : ℕ
  pub denied : ℕ
  pub last_command_id : Json
  pub ring : List Fields
  pub telemetry : List Fields
  pub config : Option Json
  pub rules : Option String

abbrev or_null : Option Json → Json
or_null none = null
or_null (some v) = v

-- `xs[-50:]`.
unfoldable pub last_fifty : List Fields → List Fields
unfolding drop
last_fifty xs = drop (length xs - 50) xs

-- `xs[-n:]`: all of it for zero, and what is behind the first ones for a negative number.
unfoldable pub tail_of : {A : Type 0} → ℤ → List A → List A
unfolding drop
tail_of (pos zero) xs = xs
tail_of (pos (suc n)) xs = drop (length xs - suc n) xs
tail_of (negsuc n) xs = drop (suc n) xs

abbrev counters : Agent → Fields
counters a = field "events" (num (pos a.events)) (
    field "commands" (num (pos a.commands))
      (field "denied" (num (pos a.denied)) (field "reconnects" (num (pos 0)) end)))

abbrev objects : List Fields → Items
objects [] = nil
objects (d ∷ ds) = item (obj d) (objects ds)

abbrev outcome : Bool → String
outcome true = "ok"
outcome false = "denied"

abbrev pub is_text : Option Json → Option String
is_text (some (text t)) = some t
is_text _ = none

abbrev pub is_object : Option Json → Option Json
is_object (some (obj d)) = some (obj d)
is_object _ = none

-- What a capability answers: whether it is "ok", the data, and the state; `none` is an exception.
abbrev pub Answer : Type 0
Answer = Option (Bool × Fields × Agent)

abbrev reason : String → Fields
reason r = field "reason" (text r) end

module _ (n : Node) where
  abbrev lines_of : List Fields → Items
  lines_of [] = nil
  lines_of (d ∷ ds) = item (text (n.dump_line d)) (lines_of ds)

  unfoldable pub emit : String → Fields → Agent → Agent
  unfolding last_fifty
  emit event_type payload a =
      let env = field "schema" (text "nodebox.event/v1") (
        field "node_id" (text n.node_id) (
          field "device_type" (text n.device_type) (
            field "ts" (num (pos n.clock)) (
              field "event_type" (text event_type)
                (field "data" (obj payload) (field "provenance" (obj n.provenance) end)))))) in
      record a {
        ring = last_fifty (a.ring ++ env ∷ []);
        events = a.events + 1;
        telemetry = a.telemetry ++ env ∷ [];
      }

  abbrev pub sync_config : Option Json → Agent → Answer
  sync_config none a = some (false, reason "config_must_be_object", a)
  sync_config (some config) a = some (
    true,
    field "digest" (text (n.sha256_hex (n.dumps config))) (field "path" (text "config.json") end),
    record a { config = some config },
  )

  abbrev pub update_ruleset : Option String → Option String → Agent → Answer
  update_ruleset (some rules) (some sig) a =
      if n.verify_controller rules sig
      then some
          (true, field "digest" (text (n.sha256_hex rules)) end, record a { rules = some rules })
      else some (false, reason "controller_signature_invalid", a)
  update_ruleset _ _ a = some (false, reason "ruleset_and_sig_required", a)

  abbrev pub count_or : ℤ → Option Json → Option ℤ
  count_or default none = some default
  count_or default (some v) = int_of v

  -- Without a telemetry file the parameter is not read.
  abbrev pub fetch_from : List Fields → Option ℤ → Agent → Answer
  fetch_from [] k a = some (true, field "lines" (arr nil) end, a)
  fetch_from (d ∷ ds) none a = none
  fetch_from (d ∷ ds) (some k) a =
      some (true, field "lines" (arr (lines_of (tail_of k (d ∷ ds)))) end, a)

  abbrev pub fetch_logs : Option ℤ → Agent → Answer
  fetch_logs k a = fetch_from a.telemetry k a

  abbrev pub capture : Option ℤ → Agent → Answer
  capture none a = none
  capture (some k) a = some (true, field "events" (arr (objects (tail_of k a.ring))) end, a)

  -- The counters of STATUS are the live dict: the command's event is counted before the answer is
  -- sent.
  unfoldable pub execute : String → Fields → Agent → Answer
  execute cap params a =
      if cap == "PING"
      then some (true, field "pong" (bool true) (field "ts" (num (pos n.clock)) end), a)
      else if cap == "INFO"
      then some (true, n.info, a)
      else if cap == "STATUS"
      then some (
        true,
        field "uptime_s" n.uptime (
            field "counters" (obj (counters (record a { events = a.events + 1 })))
              (field "last_command_id" a.last_command_id (field "state" (text "RUN") end))),
        a,
      )
      else if cap == "SYNC_CONFIG"
      then sync_config (is_object (Json.get "config" params)) a
      else if cap == "UPDATE_RULESET"
      then update_ruleset (is_text (Json.get "ruleset" params)) (is_text (Json.get "sig" params)) a
      else if cap == "FETCH_LOGS"
      then fetch_logs (count_or (pos 20) (Json.get "lines" params)) a
      else if cap == "CAPTURE_TELEMETRY"
      then capture (count_or (pos 10) (Json.get "count" params)) a
      else if cap == "RESTART_SERVICE"
      then (if n.allow_restart
          then some (
            true,
            field "action" (text "exit_for_supervisor_restart")
                (field "exit_code" (num (pos 75)) end),
            a,
          )
          else some (false, reason "restart_requires_supervisor_and_optin", a))
      else if cap == "DISCONNECT"
      then some (true, field "bye" (bool true) end, a)
      else some (false, reason "unimplemented", a)

  -- The command's tests, before it is executed; `policy_caps` is what the controller synced.
  unfoldable pub decide : List String → String → Fields → Agent → Answer
  decide policy_caps cap params a =
      if not (contains cap capabilities)
      then some (false, reason "unknown_capability", a)
      else if not (contains cap n.allowed && contains cap policy_caps)
      then some
          (false, field "reason" (text "not_authorized") (field "capability" (text cap) end), a)
      else execute cap params a

  abbrev pub started : Json → Agent → Agent
  started id a = record a { commands = a.commands + 1; last_command_id = id }

  unfoldable pub finish : Json → String → Bool × Fields × Agent → Fields × Agent
  unfolding emit contains Json.get
  finish id cap (is_ok, payload, a) =
      let counted = record a { denied = if is_ok then a.denied else a.denied + 1 } in
      (
        field "type" (text "RESULT") (
            field "command_id" id (
              field "capability" (text cap)
                (field "outcome" (text (outcome is_ok)) (field "data" (obj payload) end)))),
        emit "nodebox.command"
            (field "command_id" id (
              field "capability" (text cap) (
                field "outcome" (text (outcome is_ok)) (
                  field "mutating" (bool (contains cap mutating))
                    (field "reason" (or_null (Json.get "reason" payload)) end)))))
            counted,
      )

  -- A command with its identifier, its capability and its parameters.
  unfoldable pub handle_command :
      List String → Json → String → Fields → Agent → Option (Fields × Agent)
  handle_command policy_caps id cap params a = elim (decide policy_caps cap params (started id a)) [
    | none ↦ none
    | some answer ↦ some (finish id cap answer)
  ]
