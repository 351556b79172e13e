-- ===== src/Detect/Examples/Commanded.antt =====
-- Commands at a node of detect/nodebox_agent.py, and the scope of detect/nodebox_layers.py.
use eight_call.Prelude.{
  ◌≤◌, String, ◌≡◌, ◌⊎◌, refl, false, not, ◌||◌, List, [], ◌∷◌, none, some, ◌==◌, contains, nat_eq,
  pos, arith,
}
use eight_call.Broker.Json
use eight_call.Broker.Json.{Json, Fields, null, num, text, obj, end, field}
use eight_call.Detect.Nodebox.Agent.{Node, Agent, handle_command, execute, decide, finish}
use eight_call.Detect.Nodebox.Agent.Allowed.{IsSound, Command, serve, serve-IsSound}
use eight_call.Detect.Nodebox.Layers.{
  hardware, host_kernel, hypervisor, guest_userspace, has_layer, level, attestation_scope,
  known_anchors, attested_layers, layers_without,
}
use eight_call.Detect.Nodebox.Layers.Scoped.{anchor_of, attestation_scope_iff}

abbrev node : Node
node = record {
  node_id = "node-1";
  device_type = "pi";
  allowed = "PING" ∷ "UPDATE_RULESET" ∷ "SYNC_CONFIG" ∷ [];
  info = end;
  provenance = end;
  clock = 7;
  uptime = num (pos 3);
  sha256_hex = λ t. t;
  dumps = λ v. "config";
  dump_line = λ fs. "event";
  verify_controller = λ rules sig. rules == sig;
  allow_restart = false;
}

abbrev fresh_agent : Agent
fresh_agent = record {
  events = 0;
  commands = 0;
  denied = 0;
  last_command_id = null;
  ring = [];
  telemetry = [];
  config = none;
  rules = none;
}

abbrev ruleset_of : String → String → Command
ruleset_of rules sig = record {
  id = text "c";
  capability = "UPDATE_RULESET";
  params = field "ruleset" (text rules) (field "sig" (text sig) end);
}

abbrev policy_caps : List String
policy_caps = "PING" ∷ "UPDATE_RULESET" ∷ []

-- Signed rules are taken, and forged ones leave them.
ruled :
    (serve node policy_caps (ruleset_of "a" "a" ∷ ruleset_of "b" "x" ∷ []) fresh_agent).rules
    ≡ some "a"
unfolding serve handle_command decide execute finish contains Json.get
ruled = refl

fresh-IsSound : IsSound node fresh_agent
fresh-IsSound = record {
  signed = λ rules h. absurd (cc h);
  bounded = omega arith;
  counted = omega arith;
}

serve-IsSound_example :
    IsSound node (serve node policy_caps (ruleset_of "a" "a" ∷ ruleset_of "b" "x" ∷ []) fresh_agent)
serve-IsSound_example =
    serve-IsSound node policy_caps (ruleset_of "a" "a" ∷ ruleset_of "b" "x" ∷ []) fresh_agent
      fresh-IsSound

-- A gap between the anchors stays a gap: the supervisor is not vouched for by a measured boot.
gap :
    (attestation_scope ("measured_boot" ∷ "moon" ∷ [])).not_attested
    ≡ hardware ∷ host_kernel ∷ hypervisor ∷ guest_userspace ∷ []
unfolding attestation_scope known_anchors attested_layers layers_without contains has_layer
gap = refl

attestation_scope_iff_example :
    let s = attestation_scope ("measured_boot" ∷ "moon" ∷ []) in
    (has_layer guest_userspace s.attested ≡ (
      nat_eq (level guest_userspace) 5
      || contains (anchor_of guest_userspace) ("measured_boot" ∷ "moon" ∷ [])))
    × (has_layer guest_userspace s.not_attested ≡ not (has_layer guest_userspace s.attested))
    × ((level s.depth ≤ level guest_userspace) ⊎ (has_layer guest_userspace s.attested ≡ false))
attestation_scope_iff_example =
    attestation_scope_iff ("measured_boot" ∷ "moon" ∷ []) guest_userspace
