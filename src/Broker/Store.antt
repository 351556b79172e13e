-- ===== src/Broker/Store.antt =====
-- plasma/broker/broker/store.py: the tables of the authority database. Rows stand in the order of
-- insertion, those of `decisions` and `observations` with the latest first. Every value that the
-- program keeps in `meta` is a printed number, and the number stands for it.
pub mod Meta
pub mod Targets
pub mod Enrollments
pub mod Leases
pub mod Requests
pub mod Decisions
pub mod Tokens
pub mod Runs
pub mod Ops
use eight_call.Prelude.{ℕ, String, Bool, true, false, not, List, [], Option, none, some, ◌==◌}
use eight_call.Broker.Json.{Fields}

pub record Entry : Type 0 where
  pub key : String
  pub value : ℕ

pub data TargetState : Type 0 where
  candidate approved revoked : TargetState

pub record Target : Type 0 where
  pub target_id : String
  pub label : String
  pub address : String
  pub status : String
  pub created_ts : ℕ
  pub identity_algorithm : String
  pub public_key : Option String
  pub key_fingerprint : Option String
  pub state : TargetState
  pub approval_digest : String
  pub endpoint_revision : ℕ
  pub approved_ts : Option ℕ
  pub transport_port : Option ℕ

-- `caps` holds the names, which the program joins by commas in the column and splits when it reads.
pub record Enrollment : Type 0 where
  pub pod_name : String
  pub target_id : String
  pub caps : List String
  pub status : String
  pub revision : ℕ
  pub created_ts : ℕ

pub record Lease : Type 0 where
  pub target_id : String
  pub fencing : ℕ
  pub owner : String
  pub action : String
  pub idem_key : String
  pub issued_ts : ℕ
  pub expires_ts : ℕ

pub record RequestRow : Type 0 where
  pub req_digest : String
  pub nonce : String
  pub caller : String
  pub action : String
  pub target_id : String
  pub issued_ts : ℕ
  pub outcome : String
  pub reason : String
  pub decision_id : String

-- `logged` is the JSON of the column `record`, read back.
pub record Decision : Type 0 where
  pub decision_id : String
  pub prev : String
  pub logged : Fields
  pub ts : ℕ

pub record TokenRow : Type 0 where
  pub token_digest : String
  pub decision_id : String
  pub target_id : String
  pub action : String
  pub fencing : ℕ
  pub expires_ts : ℕ
  pub used : Bool

pub data RunState : Type 0 where
  claimed running done failed outcome_unknown : RunState

pub record Run : Type 0 where
  pub run_id : String
  pub target_id : String
  pub action : String
  pub fencing : ℕ
  pub pod : String
  pub state : RunState
  pub started_ts : ℕ
  pub ended_ts : Option ℕ
  pub result_digest : String

pub record Observation : Type 0 where
  pub target_id : String
  pub kind : String
  pub value : String
  pub ts : ℕ

-- `checkpoint` is the head in the one row of the table `checkpoints`.
pub record Store : Type 0 where
  pub meta : List Entry
  pub targets : List Target
  pub enrollments : List Enrollment
  pub leases : List Lease
  pub requests : List RequestRow
  pub decisions : List Decision
  pub tokens : List TokenRow
  pub runs : List Run
  pub observations : List Observation
  pub checkpoint : Option String

-- The database after `SCHEMA`.
abbrev pub empty : Store
empty = record {
  meta = [];
  targets = [];
  enrollments = [];
  leases = [];
  requests = [];
  decisions = [];
  tokens = [];
  runs = [];
  observations = [];
  checkpoint = none;
}

abbrev pub target_key : Target → String
target_key r = r.target_id

abbrev pub pod_key : Enrollment → String
pod_key r = r.pod_name

abbrev pub enrolled_key : Enrollment → String
enrolled_key r = r.target_id

abbrev pub lease_key : Lease → String
lease_key r = r.target_id

abbrev pub digest_key : RequestRow → String
digest_key r = r.req_digest

abbrev pub nonce_key : RequestRow → String
nonce_key r = r.nonce

abbrev pub decision_key : Decision → String
decision_key r = r.decision_id

abbrev pub token_key : TokenRow → String
token_key r = r.token_digest

abbrev pub run_key : Run → String
run_key r = r.run_id

-- Python's truth of a text that may be NULL.
abbrev pub is_set : Option String → Bool
is_set none = false
is_set (some t) = not (t == "")

abbrev pub is_approved : TargetState → Bool
is_approved approved = true
is_approved _ = false

abbrev pub is_revoked : TargetState → Bool
is_revoked revoked = true
is_revoked _ = false
