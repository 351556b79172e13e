-- ===== src/Detect/Redact/Findings/Sound.antt =====
-- What the findings of redact.py's `capture_hit` say, and of which values.
use eight_call.Prelude.{
  ℕ, String, ◌≡◌, ◌<◌, ◌⊎◌, inl, inr, refl, subst, List, [], ◌∷◌, Option, none, some, length, take,
  slice, take_idem, contains, true,
}
use eight_call.Detect.Redact.{Text, mask}
use eight_call.Detect.Redact.Scan.{Match, Scanner, max_scan_chars, scan_text, scan_bytes}
use eight_call.Detect.Redact.Scan.Kept.{All, All-append}
use eight_call.Detect.Redact.Scan.Found.{IsFound, scan-IsFound}
use eight_call.Detect.Redact.Findings.{
  Finding, Hashes, Value, Event, Rule, Options, str, bytes, other, resolve_salt, fingerprint,
  lookup, event_target, target_keys, either, rule_name, rule_severity, scan_value, finding_of,
  findings_of, capture_fields, capture_hit,
}

abbrev Holds : Option Value → Text → Type 0
Holds v text = (v ≡ some (str text)) ⊎ (v ≡ some (bytes text))

-- Empty, or the text of one of the fields that name a target, as it is, whatever it holds.
abbrev pub IsTarget : Event → Text → Type 0
IsTarget event target =
    (target ≡ [])
    ⊎ ((key : String) × (contains key target_keys ≡ true) × (lookup key event ≡ some (str target)))

either_inv : (t later : Text) → (either (some t) later ≡ t) ⊎ (either (some t) later ≡ later)
either_inv [] later = inr refl
either_inv (c ∷ cs) later = inl refl

event_step :
    (k : String) (event : Event) (later : Text) (v : Option Value)
    → contains k target_keys ≡ true
    → lookup k event ≡ v
    → IsTarget event later
    → IsTarget event (elim v [
      | none ↦ later
      | some v ↦ elim v [ str t ↦ either (some t) later | bytes t ↦ later | other ↦ later ]
    ])
event_step k event later none known e h = h
event_step k event later (some (bytes t)) known e h = h
event_step k event later (some other) known e h = h
event_step k event later (some (str t)) known e h = elim (either_inv t later) [
  | inl own ↦ inr (k, known, rw own e)
  | inr next ↦ rw next h
]

AllKnown : List String → Type 0
AllKnown [] = Unit
AllKnown (k ∷ ks) = (contains k target_keys ≡ true) × AllKnown ks

event_target-IsTarget :
    (event : Event) (ks : List String) → AllKnown ks → IsTarget event (event_target ks event)
unfolding event_target AllKnown
event_target-IsTarget event [] known = inl refl
event_target-IsTarget event (k ∷ ks) known =
    event_step k event (event_target ks event) (lookup k event) known.0 refl
      (event_target-IsTarget event ks known.1)

known_keys : AllKnown target_keys
unfolding AllKnown contains
known_keys = (refl, (refl, (refl, (refl, (refl, tt)))))

-- The finding is of `value`, which stands in the field of the event that it names, at the offset that
-- it names, and it tells the length, the masked preview and the salted hash of that value. Its target
-- is a text of the event as it stands there.
pub record IsOf (h : Hashes) (rule : Rule) (event : Event) (o : Options) (f : Finding)
    : Type 0 where
  pub text : Text
  pub value : Text
  pub end : ℕ
  pub held : Holds (lookup f.field event) text
  pub full : f.offset < end
  pub stands : value ≡ slice f.offset end (take max_scan_chars text)
  pub measured : f.length ≡ length value
  pub masked : f.preview ≡ mask value f.type o.reveal_last
  pub hashed : f.secret_sha256 ≡ fingerprint h value (resolve_salt h o.salt).0
  pub salted : f.salt_id ≡ (resolve_salt h o.salt).1
  pub referred : f.evidence_ref ≡ o.evidence_ref
  pub decided : f.decision_id ≡ o.decision_id
  pub ruled : f.rule ≡ rule_name rule
  pub rated : f.severity ≡ rule_severity o.severity rule
  pub aimed : IsTarget event f.target

scan_bytes-nil : (s : Scanner) → scan_bytes s [] ≡ []
unfolding scan_bytes
scan_bytes-nil s = refl

scan_bytes-cons :
    (s : Scanner) (b : ℕ) (bs : Text)
    → scan_bytes s (b ∷ bs) ≡ scan_text s (take max_scan_chars (b ∷ bs))
unfolding scan_bytes
scan_bytes-cons s b bs = refl

bytes-IsFound :
    (s : Scanner) (text : Text) → All (IsFound (take max_scan_chars text)) (scan_bytes s text)
bytes-IsFound s [] = rw scan_bytes-nil tt
bytes-IsFound s (b ∷ bs) =
    let t = take max_scan_chars (b ∷ bs) in
    rw scan_bytes-cons (
      subst (λ u. All (IsFound u) (scan_text s t)) (take_idem max_scan_chars (b ∷ bs))
        (scan-IsFound s t))

module _ (s : Scanner) (h : Hashes) (rule : Rule) (event : Event) (o : Options) where
  findings-IsOf :
      (key : String) (text : Text) (ms : List Match)
      → Holds (lookup key event) text
      → All (IsFound (take max_scan_chars text)) ms
      → All (IsOf h rule event o) (findings_of s h rule event o key ms)
  unfolding findings_of finding_of
  findings-IsOf key text [] held found = tt
  findings-IsOf key text (m ∷ ms) held found = (
    record {
      text = text;
      value = m.value;
      end = m.end;
      held = held;
      full = found.0.0;
      stands = found.0.1;
      measured = refl;
      masked = refl;
      hashed = refl;
      salted = refl;
      referred = refl;
      decided = refl;
      ruled = refl;
      rated = refl;
      aimed = event_target-IsTarget event target_keys known_keys;
    },
    findings-IsOf key text ms held found.1,
  )

  value-IsOf :
      (key : String) (v : Option Value)
      → lookup key event ≡ v
      → All (IsOf h rule event o) (findings_of s h rule event o key (scan_value s v))
  unfolding scan_value findings_of
  value-IsOf key none e = tt
  value-IsOf key (some (str t)) e = findings-IsOf key t (scan_text s t) (inl e) (scan-IsFound s t)
  value-IsOf key (some (bytes t)) e =
      findings-IsOf key t (scan_bytes s t) (inr e) (bytes-IsFound s t)
  value-IsOf key (some other) e = tt

  fields-IsOf :
      (keys : List String) → All (IsOf h rule event o) (capture_fields s h rule event o keys)
  unfolding capture_fields
  fields-IsOf [] = tt
  fields-IsOf (key ∷ keys) =
      All-append (IsOf h rule event o) _ _ (value-IsOf key (lookup key event) refl)
        (fields-IsOf keys)

  -- Every finding of `capture_hit` is of a value that stands in the event, in the field and at the
  -- offset that it names; of the value it tells the length, the masked preview and the salted hash.
  -- Its name and severity are those of the rule and the options. Its target is empty, or a whole text of
  -- the event's field "dst", "target", "host", "src" or "flow.id", which is not redacted.
  pub capture_hit-IsOf : All (IsOf h rule event o) (capture_hit s h rule event o)
  unfolding capture_hit
  capture_hit-IsOf = fields-IsOf _
