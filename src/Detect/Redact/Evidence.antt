-- ===== src/Detect/Redact/Evidence.antt =====
-- redact.py: `EvidenceLog`, the hash-chained log of findings, and `capture_and_emit`.
pub mod Chain
use eight_call.Prelude.{
  ℕ, zero, suc, ◌+◌, String, ◌≡◌, refl, ◌∙◌, ap, true, List, [], ◌∷◌, Option, none, some, pos,
  arith, eq_refl, length,
}
use eight_call.Broker.Json
use eight_call.Broker.Json.{Json, Fields, null, num, text, end, field}
use eight_call.Detect.AuthzGate.Audit.{genesis_hash, verify_audit_chain}
use eight_call.Detect.AuthzGate.Audit.Restart.{load_chain_tip}
use eight_call.Detect.Redact.{Text}
use eight_call.Detect.Redact.Scan.{Scanner}
use eight_call.Detect.Redact.Findings.{Finding, Hashes, Event, Rule, Options, capture_hit}

-- The records of the file, the latest first, and the tip that the object keeps.
pub record EvidenceLog : Type 0 where
  pub records : List Fields
  pub prev_hash : String
  pub seq : ℕ

-- sha256 over the canonical bytes of a record, the clock's text, and a text as one that JSON holds.
pub record Writer : Type 0 where
  pub digest : Fields → String
  pub stamp : ℕ → String
  pub string_of : Text → String

-- An object over the records of a file; `none` is the KeyError of a record that is not one of these.
unfoldable pub open_log : List Fields → Option EvidenceLog
unfolding load_chain_tip
open_log records = elim (load_chain_tip records) [
  | none ↦ none
  | some tip ↦ some (record { records = records; prev_hash = tip.0; seq = tip.1 })
]

abbrev nullable : Option String → Json
nullable none = null
nullable (some t) = text t

-- One reading of the clock for all of the findings of a hit.
unfoldable pub at_time : ℕ → List Finding → List (ℕ × Finding)
at_time now [] = []
at_time now (f ∷ fs) = (now, f) ∷ at_time now fs

module _ (w : Writer) where
  -- `**asdict(finding)`, before the last field.
  unfoldable pub finding_fields : Finding → Fields → Fields
  finding_fields f behind = field "rule" (text (w.string_of f.rule)) (
      field "target" (text (w.string_of f.target)) (
        field "field" (text f.field) (
          field "type" (text (w.string_of f.type)) (
            field "offset" (num (pos f.offset)) (
              field "length" (num (pos f.length)) (
                field "preview" (text (w.string_of f.preview)) (
                  field "secret_sha256" (text f.secret_sha256) (
                    field "salt_id" (text f.salt_id) (
                      field "severity" (text (w.string_of f.severity)) (
                        field "evidence_ref" (nullable f.evidence_ref)
                          (field "decision_id" (nullable f.decision_id) behind)))))))))))

  -- The record without its own hash.
  unfoldable pub evidence_record : EvidenceLog → ℕ → Finding → Fields
  unfolding finding_fields
  evidence_record log now f = field "schema" (text "detect.findings/v1") (
      field "seq" (num (pos log.seq)) (
        field "ts" (text (w.stamp now))
          (finding_fields f (field "prev_hash" (text log.prev_hash) end))))

  unfoldable pub emit : ℕ → Finding → EvidenceLog → String × EvidenceLog
  unfolding evidence_record Json.put
  emit now f log =
      let body = evidence_record log now f in
      let hash = w.digest body in
      (
        hash,
        record {
          records = Json.put "record_hash" (text hash) body ∷ log.records;
          prev_hash = hash;
          seq = log.seq + 1;
        },
      )

  -- Each finding with the reading of the clock at its record.
  unfoldable pub emit_all : List (ℕ × Finding) → EvidenceLog → List String × EvidenceLog
  unfolding emit
  emit_all [] log = ([], log)
  emit_all ((now, f) ∷ fs) log =
      let (hash, log') = emit now f log in
      let (hashes, last) = emit_all fs log' in (hash ∷ hashes, last)

  unfoldable pub capture_and_emit :
      Scanner → Hashes → Rule → Event → Options → ℕ → EvidenceLog → List String × EvidenceLog
  capture_and_emit s h rule event o now log =
      emit_all (at_time now (capture_hit s h rule event o)) log
