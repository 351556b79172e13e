-- ===== src/Skills/Examples/Logged.antt =====
-- skills/blue/authz-gate/scripts/audit_log.py on the records of its self-test.
use eight_call.Prelude.{String, ◌≡◌, refl, true, List, [], ◌∷◌, Option, none, some, length}
use eight_call.Broker.Json
use eight_call.Broker.Json.{Json, Fields, text, bool, null, end, field}
use eight_call.Skills.AuditLog.{AuditLog, Verdict, intact, hash_mismatch, append, verify}
use eight_call.Skills.AuditLog.Intact.{Step, reopen, write, run, new_log, run-verify}

-- A stand-in for sha256 that tells the records of these logs apart.
abbrev word : Option Json → String
word (some (text t)) = t
word _ = "none"

abbrev digest : Fields → String
digest d = elim (Json.get "hash" d) [ some v ↦ "with a hash" | none ↦ word (Json.get "action" d) ]

abbrev permit : Fields
permit = field "event" (text "authz.decision") (field "permit" (bool true) end)

abbrev executed : String → Fields
executed action = field "event" (text "command.executed") (field "action" (text action) end)

abbrev steps : List Step
steps = write permit null ∷ reopen ∷ write (executed "service.restart") null ∷ []

abbrev verdict_of : Option AuditLog → Option Verdict
verdict_of none = none
verdict_of (some log) = some (verify digest log.file)

-- An event that brings a "hash" is logged, and the log no longer verifies, though nobody changed it.
hashed :
    verdict_of (
      run digest
        (write (field "hash" (text "x") (field "action" (text "a") end)) null ∷ [])
        new_log)
    ≡ some (hash_mismatch 1)
unfolding run append verify Json.get Json.put Json.remove
hashed = refl

run-verify_example :
    (log : AuditLog) × (run digest steps new_log ≡ some log)
    × (verify digest log.file ≡ intact log.prev (length log.file))
run-verify_example = run-verify digest steps (unfold Json.get in (refl, (refl, tt)))
