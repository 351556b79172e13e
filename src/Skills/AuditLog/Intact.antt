-- ===== src/Skills/AuditLog/Intact.antt =====
-- What audit_log.py writes verifies, whatever restarts come between.
use eight_call.Prelude.{String, ◌≡◌, refl, List, [], ◌∷◌, Option, none, some, eq_refl}
use eight_call.Broker.Json
use eight_call.Broker.Json.{Json, Fields, text, remove-put, get-put}
use eight_call.Prelude.{length}
use eight_call.Skills.AuditLog.{
  AuditLog, genesis, intact, unsealed, tail_hash, open_log, append, verify,
}

-- The log is opened again on its file, or an event is appended.
pub data Step : Type 0 where
  reopen : Step
  write : Fields → Json → Step

-- No event has a "hash" of its own.
abbrev pub AllPlain : List Step → Type 0
AllPlain [] = Unit
AllPlain (reopen ∷ ss) = AllPlain ss
AllPlain (write event now ∷ ss) = (Json.get "hash" event ≡ none) × AllPlain ss

module _ (digest : Fields → String) where
  unfoldable pub run : List Step → AuditLog → Option AuditLog
  run [] log = some log
  run (reopen ∷ ss) log = elim (open_log log.file) [ none ↦ none | some again ↦ run ss again ]
  run (write event now ∷ ss) log = run ss (append digest event now log).1

  record IsIntact (log : AuditLog) : Type 0 where
    pub verified : verify digest log.file ≡ intact log.prev (length log.file)
    pub last : tail_hash log.file ≡ some log.prev

  unsealed-get :
      (event : Fields) (now : Json) (prev : String)
      → Json.get "hash" event ≡ none
      → Json.get "hash" (unsealed digest event now prev) ≡ none
  unsealed-get event now prev plain =
      rw
        (
          get-put "timestamp" "hash" now (Json.put "prev_hash" (text prev) event),
          get-put "prev_hash" "hash" (text prev) event,
        )
        plain

  unsealed-prev :
      (event : Fields) (now : Json) (prev : String)
      → Json.get "prev_hash" (unsealed digest event now prev) ≡ some (text prev)
  unsealed-prev event now prev =
      rw
        (
          get-put "timestamp" "prev_hash" now (Json.put "prev_hash" (text prev) event),
          get-put "prev_hash" "prev_hash" (text prev) event,
        )
        refl

  append-IsIntact :
      (event : Fields) (now : Json) (log : AuditLog)
      → Json.get "hash" event ≡ none
      → IsIntact log
      → IsIntact (append digest event now log).1
  unfolding append verify tail_hash
  append-IsIntact event now log plain i =
      let body = unsealed digest event now log.prev in
      let own = get-put "hash" "hash" (text (digest body)) body in
      let back =
        remove-put "hash" (text (digest body)) body (unsealed-get event now log.prev plain) in
      record {
        verified =
            rw
              (
                i.verified,
                own,
                back,
                unsealed-prev event now log.prev,
                eq_refl log.prev,
                eq_refl (digest body),
              )
              refl;
        last = rw own refl;
      }

  reopen-same : (log : AuditLog) → IsIntact log → open_log log.file ≡ some log
  unfolding open_log
  reopen-same log i = rw (open_log, i.last) refl

  -- The same from any log that is intact.
  run_lem :
      (ss : List Step) (log : AuditLog)
      → AllPlain ss
      → IsIntact log
      → (log' : AuditLog) × (run ss log ≡ some log') × IsIntact log'
  unfolding run
  run_lem [] log plain i = (log, refl, i)
  run_lem (reopen ∷ ss) log plain i = rw (run, reopen-same log i) (run_lem ss log plain i)
  run_lem (write event now ∷ ss) log plain i =
      run_lem ss (append digest event now log).1 plain.1 (append-IsIntact event now log plain.0 i)

abbrev pub new_log : AuditLog
new_log = record { file = []; prev = genesis }

-- Whatever events without a "hash" of their own are written to a log over a new file, and however often
-- it is opened again in between, it opens, and `verify` finds its file intact, with every line counted
-- and the log's hash as the last one.
pub run-verify :
    (digest : Fields → String) (ss : List Step)
    → AllPlain ss
    → (log : AuditLog) × (run digest ss new_log ≡ some log)
      × (verify digest log.file ≡ intact log.prev (length log.file))
run-verify digest ss plain =
    let (log, ran, i) =
      run_lem digest ss new_log plain
        (record { verified = unfold verify in refl; last = unfold tail_hash in refl }) in
    (log, ran, i.verified)
