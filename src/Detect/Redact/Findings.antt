-- ===== src/Detect/Redact/Findings.antt =====
-- redact.py: `Finding`, `fingerprint`, `resolve_salt` and `capture_hit`.
pub mod Sound
use eight_call.Prelude.{
  ℕ, String, Bool, true, false, List, [], ◌∷◌, ◌++◌, Option, none, some, ◌==◌, length, find,
  if◌then◌else◌,
}
use eight_call.Broker.Registry.Params.{codes}
use eight_call.Detect.Redact.{Text, mask}
use eight_call.Detect.Redact.Scan.{Match, Scanner, scan_text, scan_bytes}

pub record Finding : Type 0 where
  pub rule : Text
  pub target : Text
  pub field : String
  pub type : Text
  pub offset : ℕ
  pub length : ℕ
  pub preview : Text
  pub secret_sha256 : String
  pub salt_id : String
  pub severity : Text
  pub evidence_ref : Option String
  pub decision_id : Option String

-- What the stage uses of hashlib, hmac and os: HMAC-SHA256 over the UTF-8 text in hex, the first
-- twelve digits of the hash of a salt, UTF-8, the environment's salt and 32 random bytes.
pub record Hashes : Type 0 where
  pub hmac_hex : Text → Text → String
  pub salt_tag : Text → String
  pub utf8 : Text → Text
  pub env_salt : Option Text
  pub random : Text

-- The value of an event's field, as far as the scan tells values apart.
pub data Value : Type 0 where
  str bytes : Text → Value
  other : Value

abbrev pub Event : Type 0
Event = List (String × Value)

-- The title, the identifier and the level of a rule, or its name.
pub data Rule : Type 0 where
  dict : Option Text → Option Text → Option Text → Rule
  name : Text → Rule

pub data Salt : Type 0 where
  absent : Salt
  salt_bytes salt_str : Text → Salt

-- The keyword arguments of `capture_hit`.
pub record Options : Type 0 where
  pub fields : Option (List String)
  pub salt : Salt
  pub severity : Option Text
  pub evidence_ref : Option String
  pub decision_id : Option String
  pub reveal_last : ℕ

-- `a or b`, for a text that may be missing.
abbrev pub either : Option Text → Text → Text
either none b = b
either (some []) b = b
either (some (c ∷ cs)) b = c ∷ cs

-- The environment's salt, unless it is unset or empty.
abbrev default_salt : Hashes → Option Text → Text
default_salt h none = h.random
default_salt h (some []) = h.random
default_salt h (some (c ∷ cs)) = h.utf8 (c ∷ cs)

unfoldable pub resolve_salt : Hashes → Salt → Text × String
resolve_salt h absent = let salt = default_salt h h.env_salt in (salt, h.salt_tag salt)
resolve_salt h (salt_bytes salt) = (salt, h.salt_tag salt)
resolve_salt h (salt_str salt) = (h.utf8 salt, h.salt_tag (h.utf8 salt))

unfoldable pub fingerprint : Hashes → Text → Text → String
fingerprint h value salt = h.hmac_hex salt value

abbrev pub lookup : String → Event → Option Value
lookup k [] = none
lookup k ((j, v) ∷ event) = if j == k then some v else lookup k event

abbrev pub target_keys : List String
target_keys = "dst" ∷ "target" ∷ "host" ∷ "src" ∷ "flow.id" ∷ []

-- The first of the keys that has a text which is not empty.
unfoldable pub event_target : List String → Event → Text
event_target [] event = []
event_target (k ∷ ks) event =
    let later = event_target ks event in
    elim (lookup k event) [
      | none ↦ later
      | some v ↦ elim v [ str t ↦ either (some t) later | bytes t ↦ later | other ↦ later ]
    ]

unfoldable pub rule_name : Rule → Text
rule_name (dict title id level) = either title (either id (codes "rule"))
rule_name (name t) = t

unfoldable pub rule_severity : Option Text → Rule → Text
rule_severity severity (dict title id level) = either severity (either level (codes "medium"))
rule_severity severity (name t) = either severity (codes "medium")

-- The keys of the event whose values are texts or bytes.
unfoldable pub scan_fields : Event → List String
scan_fields [] = []
scan_fields ((k, str t) ∷ event) = k ∷ scan_fields event
scan_fields ((k, bytes t) ∷ event) = k ∷ scan_fields event
scan_fields ((k, other) ∷ event) = scan_fields event

module _ (s : Scanner) where
  unfoldable pub scan_value : Option Value → List Match
  unfolding scan_text scan_bytes
  scan_value none = []
  scan_value (some (str t)) = scan_text s t
  scan_value (some (bytes t)) = scan_bytes s t
  scan_value (some other) = []

  module _ (h : Hashes) (rule : Rule) (event : Event) (o : Options) where
    unfoldable pub finding_of : String → Match → Finding
    unfolding rule_name event_target mask fingerprint resolve_salt rule_severity
    finding_of key m = record {
      rule = rule_name rule;
      target = event_target target_keys event;
      field = key;
      type = m.type;
      offset = m.start;
      length = length m.value;
      preview = mask m.value m.type o.reveal_last;
      secret_sha256 = fingerprint h m.value (resolve_salt h o.salt).0;
      salt_id = (resolve_salt h o.salt).1;
      severity = rule_severity o.severity rule;
      evidence_ref = o.evidence_ref;
      decision_id = o.decision_id;
    }

    unfoldable pub findings_of : String → List Match → List Finding
    unfolding finding_of
    findings_of key [] = []
    findings_of key (m ∷ ms) = finding_of key m ∷ findings_of key ms

    -- The loop over the fields that are scanned.
    unfoldable pub capture_fields : List String → List Finding
    unfolding findings_of scan_value
    capture_fields [] = []
    capture_fields (key ∷ keys) =
        findings_of key (scan_value (lookup key event)) ++ capture_fields keys

    unfoldable pub capture_hit : List Finding
    unfolding capture_fields scan_fields
    capture_hit = capture_fields (elim o.fields [ none ↦ scan_fields event | some fs ↦ fs ])
