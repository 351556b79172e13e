-- ===== src/Detect/Redact/Evidence/Chain.antt =====
-- Sequences of hits, with restarts between them, on the file of redact.py's `EvidenceLog`.
use eight_call.Prelude.{
  ℕ, ◌+◌, ◌≡◌, refl, true, List, [], ◌∷◌, Option, none, some, arith, eq_refl, length,
}
use eight_call.Broker.Json
use eight_call.Detect.AuthzGate.Audit.{verify_audit_chain}
use eight_call.Detect.Redact.Scan.{Scanner}
use eight_call.Detect.Redact.Findings.{Finding, Hashes, Event, Rule, Options, capture_hit}
use eight_call.Detect.Redact.Evidence.{
  EvidenceLog, Writer, open_log, finding_fields, evidence_record, emit, emit_all, at_time,
  capture_and_emit,
}

-- What happens to the file: a hit is captured and emitted, or a new object is opened on the file.
pub data Step : Type 0 where
  hit : Rule → Event → Options → ℕ → Step
  restart : Step

module _ (w : Writer) (s : Scanner) (h : Hashes) where
  unfoldable pub run : List Step → EvidenceLog → Option EvidenceLog
  run [] log = some log
  run (hit rule event o now ∷ steps) log = run steps (capture_and_emit w s h rule event o now log).1
  run (restart ∷ steps) log = elim (open_log log.records) [
    | none ↦ none
    | some log' ↦ run steps log'
  ]

module _ (s : Scanner) (h : Hashes) where
  -- How many findings the hits of the steps have.
  unfoldable pub findings_in : List Step → ℕ
  findings_in [] = 0
  findings_in (hit rule event o now ∷ steps) =
      length (capture_hit s h rule event o) + findings_in steps
  findings_in (restart ∷ steps) = findings_in steps

module _ (w : Writer) where
  -- The file verifies to its end, which is the tip of the object, every record is counted, and a new
  -- object over the file would be this one.
  pub record IsChained (log : EvidenceLog) : Type 0 where
    pub verified :
        verify_audit_chain w.digest log.records
        ≡ record { ok = true; prev = log.prev_hash; checked = log.seq; first_bad = none }
    pub current : open_log log.records ≡ some log

  emit-verified :
      (now : ℕ) (f : Finding) (log : EvidenceLog)
      → verify_audit_chain w.digest log.records
        ≡ record { ok = true; prev = log.prev_hash; checked = log.seq; first_bad = none }
      → let log' = (emit w now f log).1 in
        verify_audit_chain w.digest log'.records
        ≡ record { ok = true; prev = log'.prev_hash; checked = log'.seq; first_bad = none }
  unfolding emit evidence_record finding_fields Json.get Json.put Json.remove verify_audit_chain
  emit-verified now f log chained =
      ground
        (arith, chained, eq_refl log.prev_hash, eq_refl (w.digest (evidence_record w log now f)))

  emit-current :
      (now : ℕ) (f : Finding) (log : EvidenceLog)
      → open_log log.records ≡ some log
      → open_log (emit w now f log).1.records ≡ some (emit w now f log).1
  unfolding emit evidence_record finding_fields Json.get Json.put open_log
  emit-current now f log current = ground (arith, current)

  emit-seq : (now : ℕ) (f : Finding) (log : EvidenceLog) → (emit w now f log).1.seq ≡ log.seq + 1
  unfolding emit
  emit-seq now f log = refl

  pub emit_all-IsChained :
      (now : ℕ) (fs : List Finding) (log : EvidenceLog)
      → IsChained log
      → IsChained (emit_all w (at_time now fs) log).1
        × ((emit_all w (at_time now fs) log).1.seq ≡ log.seq + length fs)
  unfolding emit_all at_time
  emit_all-IsChained now [] log chained = (chained, omega arith)
  emit_all-IsChained now (f ∷ fs) log chained =
      let log' = (emit w now f log).1 in
      let rest = emit_all-IsChained now fs log' (record {
        verified = emit-verified now f log chained.verified;
        current = emit-current now f log chained.current;
      }) in
      (rest.0, omega (arith, rest.1, emit-seq now f log))

module _ (w : Writer) (s : Scanner) (h : Hashes) where
  capture-IsChained :
      (rule : Rule) (event : Event) (o : Options) (now : ℕ) (log : EvidenceLog)
      → IsChained w log
      → let log' = (capture_and_emit w s h rule event o now log).1 in
        IsChained w log' × (log'.seq ≡ log.seq + length (capture_hit s h rule event o))
  unfolding capture_and_emit
  capture-IsChained rule event o now log chained =
      emit_all-IsChained w now (capture_hit s h rule event o) log chained

  -- From a log whose file verifies, every sequence of hits and restarts runs without an error, and
  -- ends in such a log, which has one more record for each finding of the hits.
  pub run-IsChained :
      (steps : List Step) (log : EvidenceLog)
      → IsChained w log
      → (log' : EvidenceLog) × (run w s h steps log ≡ some log')
        × IsChained w log'
        × (log'.seq ≡ log.seq + findings_in s h steps)
  unfolding run findings_in
  run-IsChained [] log chained = (log, refl, chained, omega arith)
  run-IsChained (hit rule event o now ∷ steps) log chained =
      let now_chained = capture-IsChained rule event o now log chained in
      let (log', ran, kept, counted) =
        run-IsChained steps (capture_and_emit w s h rule event o now log).1 now_chained.0 in
      (log', ran, kept, omega (arith, counted, now_chained.1))
  run-IsChained (restart ∷ steps) log chained =
      let (log', ran, kept, counted) = run-IsChained steps log chained in
      (log', rw (run, chained.current) ran, kept, counted)
