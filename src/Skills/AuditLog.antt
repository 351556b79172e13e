-- ===== src/Skills/AuditLog.antt =====
-- skills/blue/authz-gate/scripts/audit_log.py: the append-only log. A line of the file is the record
-- that it holds, the latest first; the program writes no blank lines.
pub mod Intact
use eight_call.Prelude.{
  ℕ, suc, zero, String, Bool, false, not, List, [], ◌∷◌, Option, none, some, ◌==◌, if◌then◌else◌,
}
use eight_call.Broker.Json
use eight_call.Broker.Json.{Json, Fields, text}

abbrev pub genesis : String
genesis = "0000000000000000000000000000000000000000000000000000000000000000"

pub record AuditLog : Type 0 where
  pub file : List Fields
  pub prev : String

-- A hash is a text, since the log writes it; `none` is the KeyError of a record without one.
abbrev text_of : Option Json → Option String
text_of (some (text t)) = some t
text_of _ = none

unfoldable pub tail_hash : List Fields → Option String
unfolding Json.get
tail_hash [] = some genesis
tail_hash (d ∷ older) = text_of (Json.get "hash" d)

unfoldable pub open_log : List Fields → Option AuditLog
unfolding tail_hash
open_log file = elim (tail_hash file) [
  | none ↦ none
  | some prev ↦ some (record { file = file; prev = prev })
]

-- What `verify` finds: a chain with its last hash and its number of lines, or what is wrong in a line;
-- `no_hash` is the KeyError of a record without a hash.
pub data Verdict : Type 0 where
  intact : String → ℕ → Verdict
  prev_mismatch hash_mismatch no_hash : ℕ → Verdict

abbrev pub is_text : Option Json → String → Bool
is_text (some (text t)) u = t == u
is_text _ u = false

-- `digest` is sha256 over the compact JSON of a record with its keys sorted.
module _ (digest : Fields → String) where
  -- The record before its hash; `now` is the reading of the clock.
  abbrev pub unsealed : Fields → Json → String → Fields
  unsealed event now prev = Json.put "timestamp" now (Json.put "prev_hash" (text prev) event)

  unfoldable pub append : Fields → Json → AuditLog → Fields × AuditLog
  append event now log =
      let body = unsealed event now log.prev in
      let sealed = Json.put "hash" (text (digest body)) body in
      (sealed, record { file = sealed ∷ log.file; prev = digest body })

  abbrev check_hashes : Option Json → Fields → String → ℕ → Verdict
  check_hashes none d prev line = no_hash line
  check_hashes (some stored) d prev line =
      if not (is_text (Json.get "prev_hash" d) prev)
      then prev_mismatch line
      else if not (is_text (some stored) (digest d))
      then hash_mismatch line
      else intact (digest d) line

  abbrev pub check_line : Fields → Verdict → Verdict
  check_line d (intact prev n) =
      check_hashes (Json.get "hash" d) (Json.remove "hash" d) prev (suc n)
  check_line d (prev_mismatch n) = prev_mismatch n
  check_line d (hash_mismatch n) = hash_mismatch n
  check_line d (no_hash n) = no_hash n

  -- The loop from the oldest line.
  unfoldable pub verify : List Fields → Verdict
  unfolding Json.get Json.remove
  verify [] = intact genesis zero
  verify (d ∷ older) = check_line d (verify older)
