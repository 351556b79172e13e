-- ===== src/Detect/Examples/Redacted.antt =====
-- detect/redact.py on small texts, with one pattern, and authz_gate.py's files after a restart.
use eight_call.Prelude.{
  ℕ, ◌+◌, ◌≡◌, ◌≢◌, refl, Bool, true, false, List, [], ◌∷◌, ◌++◌, none, some, arith, leb, length,
  take, drop, slice, Bool-cases, inl, inr,
}
use eight_call.Broker.Registry.Params.{codes}
use eight_call.Detect.AuthzGate.Audit.{genesis_hash, verify_audit_chain}
use eight_call.Detect.AuthzGate.Audit.Restart.{
  load_chain_tip, load_lines, load_nonces, append_nonce, write_nonces, load_nonces-write,
}
use eight_call.Detect.Redact.{Text, decimal, decimal_from, mask}
use eight_call.Detect.Redact.Luhn.{luhn_digits, luhn_total}
use eight_call.Detect.Redact.Scan.{
  Pattern, Scanner, max_scan_chars, matches_of, raw_matches, insert_match, sort_matches,
  overlaps_any, keep_apart, scan_text,
}
use eight_call.Detect.Redact.Scan.Kept.{All}
use eight_call.Detect.Redact.Scan.Found.{scan_text-covers}
use eight_call.Detect.Redact.Rewrite.{
  redact_from, redact_text, IsInBounds, IsRedacted, redact_text-IsRedacted,
}
use eight_call.Detect.Redact.Findings.{
  Hashes, Event, Rule, Options, Finding, str, other, absent, dict, capture_hit, capture_fields,
  scan_fields, findings_of, scan_value, finding_of, event_target, lookup, rule_name, rule_severity,
  fingerprint, resolve_salt,
}
use eight_call.Detect.Redact.Findings.Sound.{IsOf, capture_hit-IsOf}
use eight_call.Detect.Redact.Evidence.{EvidenceLog, Writer, open_log}
use eight_call.Detect.Redact.Evidence.Chain.{
  Step, hit, restart, run, findings_in, IsChained, run-IsChained,
}

abbrev spans : Bool → List (ℕ × ℕ)
spans true = (4, 12) ∷ []
spans false = []

abbrev pattern : Pattern
pattern = record {
  type = codes "key";
  finditer = λ t. spans (leb 12 (length t));
  min_entropy = 0;
  validator = none;
}

abbrev pub scanner : Scanner
scanner = record { patterns = pattern ∷ []; entropy_below = λ value least. false }

abbrev pub line : Text
line = codes "key=abcdefgh!"

redacted : redact_text scanner 0 line ≡ codes "key=key:********(8)!"
unfolding redact_text redact_from scan_text raw_matches matches_of sort_matches insert_match
    keep_apart overlaps_any codes take drop slice mask decimal decimal_from
redacted = refl

pub bounds : IsInBounds scanner
unfolding raw_matches matches_of
bounds text = elim (Bool-cases (leb 12 (length text))) [
  | inl long ↦ rw long (ground arith)
  | inr short ↦ rw short tt
]

redact_text-IsRedacted_example :
    IsRedacted 0 line (scan_text scanner line) (redact_text scanner 0 line)
redact_text-IsRedacted_example = redact_text-IsRedacted scanner 0 line bounds

scan_text-covers_example :
    All
      (λ m. overlaps_any m (scan_text scanner line) ≡ true)
      (raw_matches scanner scanner.patterns (take max_scan_chars line))
scan_text-covers_example = scan_text-covers scanner line

abbrev card : List ℕ
card = 4 ∷ 1 ∷ 1 ∷ 1 ∷ 1 ∷ 1 ∷ 1 ∷ 1 ∷ 1 ∷ 1 ∷ 1 ∷ 1 ∷ 1 ∷ 1 ∷ 1 ∷ []

abbrev typed : ℕ
typed = 1

abbrev wrong : ℕ
wrong = 2

typed-ne-wrong : typed ≢ wrong
typed-ne-wrong e = omega (arith, e)

checked : luhn_digits (card ++ 1 ∷ []) ≡ true
unfolding luhn_digits luhn_total
checked = refl

abbrev pub hashes : Hashes
hashes = record {
  hmac_hex = λ salt value. "hash";
  salt_tag = λ salt. "tag";
  utf8 = λ t. t;
  env_salt = none;
  random = 7 ∷ [];
}

abbrev event : Event
event = ("dst", str (codes "host-1")) ∷ ("line", str line) ∷ ("seq", other) ∷ []

abbrev rule : Rule
rule = dict (some (codes "shell")) none none

abbrev options : Options
options = record {
  fields = none;
  salt = absent;
  severity = none;
  evidence_ref = some "ref";
  decision_id = none;
  reveal_last = 0;
}

-- A target is told as it is, also where a secret stands in it.
abbrev targets : List Finding → List Text
targets [] = []
targets (f ∷ fs) = f.target ∷ targets fs

unredacted : targets (capture_hit scanner hashes rule (("dst", str line) ∷ []) options) ≡ line ∷ []
unfolding capture_hit capture_fields scan_fields findings_of scan_value finding_of event_target
    lookup rule_name rule_severity scan_text raw_matches matches_of sort_matches insert_match
    keep_apart overlaps_any codes take slice mask decimal decimal_from fingerprint resolve_salt
unredacted = refl

capture_hit-IsOf_example :
    All (IsOf hashes rule event options) (capture_hit scanner hashes rule event options)
capture_hit-IsOf_example = capture_hit-IsOf scanner hashes rule event options

abbrev pub writer : Writer
writer = record { digest = λ d. "digest"; stamp = λ now. "now"; string_of = λ t. "text" }

abbrev pub fresh : EvidenceLog
fresh = record { records = []; prev_hash = genesis_hash; seq = 0 }

pub fresh-IsChained : IsChained writer fresh
unfolding verify_audit_chain open_log load_chain_tip
fresh-IsChained = record { verified = refl; current = refl }

abbrev steps : List Step
steps = hit rule event options 5 ∷ restart ∷ hit rule event options 6 ∷ []

run-IsChained_example :
    (log : EvidenceLog) × (run writer scanner hashes steps fresh ≡ some log)
    × IsChained writer log
    × (log.seq ≡ 0 + findings_in scanner hashes steps)
run-IsChained_example = run-IsChained writer scanner hashes steps fresh fresh-IsChained

abbrev nonces : List (List ℕ)
nonces = codes "bot\tn1" ∷ codes "bot\tn2" ∷ []

load_nonces-write_example : load_nonces (write_nonces [] nonces) ≡ nonces
unfolding codes
load_nonces-write_example = load_nonces-write nonces (refl, (refl, tt))

-- A nonce with a line feed is read back as two, and neither is the key that was spent.
split_nonce : load_nonces (append_nonce [] (codes "bot\tn\n1")) ≡ codes "bot\tn" ∷ codes "1" ∷ []
unfolding load_nonces load_lines append_nonce codes
split_nonce = refl
