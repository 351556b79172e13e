-- ===== src/Broker/Store/Ops.antt =====
-- store.py: its writing methods as data, so that a list of them is a history of the database. What a
-- method raises is dropped, and its effect stays.
pub mod Keys
pub mod Fences
pub mod Claims
pub mod Replay
pub mod Policy
pub mod Identity
pub mod Chain
pub mod Tamper
pub mod Revocation
pub mod History
use eight_call.Prelude.{ℕ, String, List, [], ◌∷◌, Option}
use eight_call.Broker.Json.{Fields}
use eight_call.Broker.Store
use eight_call.Broker.Store.{Store, RunState}
use eight_call.Broker.Store.Meta
use eight_call.Broker.Store.Targets
use eight_call.Broker.Store.Enrollments
use eight_call.Broker.Store.Leases
use eight_call.Broker.Store.Requests
use eight_call.Broker.Store.Decisions
use eight_call.Broker.Store.Tokens
use eight_call.Broker.Store.Runs

pub data Op : Type 0 where
  set_meta : String → ℕ → Op
  accept_policy_version : ℕ → Op
  add_target : String → String → String → Option String → ℕ → Op
  approve_target : String → String → String → String → ℕ → Op
  revoke_target : String → ℕ → Op
  set_target_address : String → String → Op
  set_target_endpoint : String → ℕ → Op
  enroll : String → String → List String → ℕ → Op
  set_enrollment_status : String → String → Op
  acquire_lease : String → String → String → ℕ → String → ℕ → Op
  record_request : String → String → String → String → String → ℕ → Op
  settle_request : String → String → String → String → Op
  append_decision : Fields → ℕ → Op
  mint_token : String → String → String → String → ℕ → ℕ → Op
  claim_run : String → String → String → ℕ → String → String → ℕ → Op
  finish_run : String → RunState → String → ℕ → Op
  reconcile_runs : ℕ → ℕ → Op
  add_observation : String → String → String → ℕ → Op

-- `digest` is sha256 over the canonical encoding; `actual` is sha256 over the bytes of a hexadecimal
-- text.
module _ (digest : Fields → String) (actual : String → Option String) where
  unfoldable pub apply : Op → Store → Store
  unfolding Meta.set_meta Meta.accept_policy_version Targets.add_target Targets.approve_target
      Decisions.revoke_target Targets.set_target_address Targets.set_target_endpoint
      Enrollments.enroll Enrollments.set_enrollment_status Leases.acquire_lease
      Requests.record_request Requests.settle_request Decisions.append_decision Tokens.mint_token
      Tokens.claim_run Runs.finish_run Runs.reconcile_runs Runs.add_observation
  apply (set_meta key v) s = Meta.set_meta key v s
  apply (accept_policy_version v) s = (Meta.accept_policy_version v s).1
  apply (add_target id a l k now) s = Targets.add_target id a l k now s
  apply (approve_target id k f d now) s = (Targets.approve_target actual id k f d now s).1
  apply (revoke_target id now) s = (Decisions.revoke_target digest id now s).1
  apply (set_target_address id a) s = (Targets.set_target_address id a s).1
  apply (set_target_endpoint id p) s = (Targets.set_target_endpoint id p s).1
  apply (enroll pod id caps now) s = (Enrollments.enroll pod id caps now s).1
  apply (set_enrollment_status pod t) s = (Enrollments.set_enrollment_status pod t s).1
  apply (acquire_lease id o a ttl k now) s = (Leases.acquire_lease id o a ttl k now s).1
  apply (record_request d n c a id now) s = (Requests.record_request d n c a id now s).1
  apply (settle_request d o r id) s = Requests.settle_request d o r id s
  apply (append_decision b now) s = (Decisions.append_decision digest b now s).1
  apply (mint_token d i id a f e) s = (Tokens.mint_token d i id a f e s).1
  apply (claim_run d id a f run pod now) s = (Tokens.claim_run d id a f run pod now s).1
  apply (finish_run run t d now) s = Runs.finish_run run t d now s
  apply (reconcile_runs t now) s = (Runs.reconcile_runs t now s).1
  apply (add_observation id k v now) s = Runs.add_observation id k v now s

  -- A history: the operations in the order in which they were committed.
  unfoldable pub run : List Op → Store → Store
  run [] s = s
  run (op ∷ ops) s = run ops (apply op s)
