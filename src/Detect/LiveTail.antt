-- ===== src/Detect/LiveTail.antt =====
-- detect/livetail.py: the observation of approved log files. A text is the list of its code points; a
-- line is what one read of tail's output gives.
pub mod Safe
pub mod Budget
use Prim.Native.Nat.{max}
use eight_call.Prelude.{
  ℕ, suc, ◌+◌, ◌-◌, String, Bool, true, false, not, ◌&&◌, ◌||◌, List, [], ◌∷◌, ◌++◌, Option, none,
  some, nat_eq, ltb, leb, min, take, drop, slice, length, if◌then◌else◌,
}
use mathlib.Core.List.{reverse}
use eight_call.Broker.Registry.Params.{codes}
use eight_call.Detect.AuthzGate.Match.{starts_with}
use eight_call.Detect.Nodebox.Protocol.{same_bytes}
use eight_call.Detect.Redact.{Text, decimal}
use eight_call.Detect.Redact.Scan.{Scanner}
use eight_call.Detect.Redact.Rewrite.{redact_text}
use eight_call.Detect.Redact.Findings.{
  Finding, Hashes, Event, Rule, Options, str, name, absent, capture_hit,
}
use eight_call.Detect.Redact.Evidence.{EvidenceLog, Writer, emit_all, at_time}

-- A label of the allowlist and its path.
pub record Source : Type 0 where
  pub label : Text
  pub path : Text

unfoldable pub find_label : List Source → Text → Option Source
find_label [] l = none
find_label (s ∷ ss) l = if same_bytes s.label l then some s else find_label ss l

-- A label that is named twice is one key of the dict.
unfoldable pub add_source : Source → List Source → List Source
add_source s [] = s ∷ []
add_source s (t ∷ ts) = if same_bytes t.label s.label then t ∷ ts else t ∷ add_source s ts

-- The sources in the order of the labels, behind those so far; `none` is the ValueError of a label that
-- is not in the allowlist.
unfoldable pub resolve_labels : List Source → List Text → List Source → Option (List Source)
unfolding find_label add_source
resolve_labels allow [] sources = some sources
resolve_labels allow (l ∷ ls) sources = elim (find_label allow l) [
  | none ↦ none
  | some s ↦ resolve_labels allow ls (add_source s sources)
]

abbrev max_lines_cap : ℕ
max_lines_cap = 1000

abbrev pub max_line_chars : ℕ
max_line_chars = 8192

abbrev paths_of : List Source → List Text
paths_of [] = []
paths_of (s ∷ ss) = s.path ∷ paths_of ss

unfoldable pub tail_argv : List Source → ℕ → Bool → List Text
unfolding codes decimal
tail_argv sources lines follow =
    codes "tail"
    ∷ codes "-v"
    ∷ codes "-n"
    ∷ decimal (min (max 1 lines) max_lines_cap)
    ∷ (if follow then codes "-F" ∷ paths_of sources else paths_of sources)

-- A record of an observed line.
pub record Observed : Type 0 where
  pub ts : String
  pub trace_id : String
  pub source : Text
  pub line : Text
  pub findings : ℕ

-- `records` has the latest first.
pub record Session : Type 0 where
  pub sources : List Source
  pub evidence : Option EvidenceLog
  pub trace_id : String
  pub records : List Observed
  pub current : Option Text
  pub lineno : ℕ
  pub pending_blank : Bool

unfoldable pub new_session : List Source → Option EvidenceLog → String → Session
new_session sources evidence trace_id = record {
  sources = sources;
  evidence = evidence;
  trace_id = trace_id;
  records = [];
  current = none;
  lineno = 0;
  pending_blank = false;
}

abbrev header_pre : List ℕ
header_pre = b'=' ∷ b'=' ∷ b'>' ∷ b' ' ∷ []

abbrev header_post : List ℕ
header_post = b' ' ∷ b'<' ∷ b'=' ∷ b'=' ∷ []

unfoldable pub ends_with : Text → Text → Bool
unfolding starts_with
ends_with suffix line = starts_with (reverse suffix) (reverse line)

-- `line.rstrip("\n")`.
unfoldable pub strip_newlines : Text → Text
strip_newlines [] = []
strip_newlines (c ∷ cs) =
    let rest = strip_newlines cs in
    elim rest [ [] ↦ (if nat_eq c 10 then [] else c ∷ []) | ◌∷◌ d ds ↦ c ∷ d ∷ ds ]

-- Of two labels of one path the later one counts, as in the dict.
unfoldable pub label_in : Text → List Source → Text → Text
label_in label [] path = label
label_in label (s ∷ ss) path = label_in (if same_bytes s.path path then s.label else label) ss path

unfoldable pub label_of : List Source → Text → Text
unfolding label_in
label_of sources path = label_in path sources path

-- `line[4:-4]`.
unfoldable pub path_of : Text → Text
unfolding slice
path_of line = slice 4 (length line - 4) line

-- The scan, the hashes and the writer of the evidence log.
pub record Reader : Type 0 where
  pub scanner : Scanner
  pub hashes : Hashes
  pub writer : Writer

module _ (r : Reader) where
  abbrev event_of : Text → Text → Event
  event_of current raw = ("line", str raw) ∷ ("target", str (codes "log:" ++ current)) ∷ []

  abbrev options_of : Text → ℕ → Options
  options_of current lineno = record {
    fields = none;
    salt = absent;
    severity = none;
    evidence_ref =
        some (r.writer.string_of (codes "livetail:" ++ (current ++ (b':' ∷ decimal lineno))));
    decision_id = none;
    reveal_last = 0;
  }

  unfoldable pub findings_of_line : Text → ℕ → Text → List Finding
  findings_of_line current lineno raw =
      capture_hit r.scanner r.hashes (name (codes "livetail")) (event_of current raw)
        (options_of current lineno)

  abbrev pub logged : ℕ → List Finding → Option EvidenceLog → Option EvidenceLog
  logged now fs none = none
  logged now fs (some log) = some (emit_all r.writer (at_time now fs) log).1

  -- `_emit`; `now` is the reading of the clock.
  unfoldable pub emit_line : ℕ → Text → Text → Session → Session
  emit_line now current line s =
      let lineno = s.lineno + 1 in
      let raw = take max_line_chars line in
      let fs = findings_of_line current lineno raw in
      record s {
        lineno = lineno;
        evidence = logged now fs s.evidence;
        records =
            record {
              ts = r.writer.stamp now;
              trace_id = s.trace_id;
              source = current;
              line = redact_text r.scanner 0 raw;
              findings = length fs;
            }
            ∷ s.records;
      }

  abbrev pub is_header : Text → Bool
  is_header line = starts_with header_pre line && ends_with header_post line

  -- A line of a source, behind the blank one that was held back, if there is one.
  unfoldable pub feed_content : Bool → ℕ → Text → Text → Session → Session
  feed_content false now current line s = emit_line now current line s
  feed_content true now current line s =
      emit_line now current line (record (emit_line now current [] s) { pending_blank = false })

  -- A line that is no header; without a source it is noise.
  unfoldable pub feed_attributed : Option Text → ℕ → Text → Session → Session
  feed_attributed none now line s = s
  feed_attributed (some current) now [] s = record s { pending_blank = true }
  feed_attributed (some current) now (c ∷ cs) s =
      feed_content s.pending_blank now current (c ∷ cs) s

  unfoldable pub feed_text : ℕ → Text → Session → Session
  unfolding label_of path_of
  feed_text now line s =
      if is_header line
      then record s { current = some (label_of s.sources (path_of line)); pending_blank = false }
      else feed_attributed s.current now line s

  unfoldable pub feed : ℕ → Text → Session → Session
  feed now line s = feed_text now (strip_newlines line) s

  -- The loop of `snapshot`, and what it returns; each line has the reading of the clock.
  unfoldable pub feed_all : List (ℕ × Text) → Session → Session
  feed_all [] s = s
  feed_all ((now, line) ∷ rest) s = feed_all rest (feed now line s)

-- What one round of the loop of `follow` meets: the deadline, no line in time, the end of the output,
-- or a line.
pub data Round : Type 0 where
  expired idle ended : Round
  line : ℕ → Text → Round

pub record Budgets : Type 0 where
  pub max_lines : ℕ
  pub max_chars : ℕ

module _ (r : Reader) (b : Budgets) where
  -- The loop over the rounds that the clock and tail give, with the lines and characters so far. It
  -- sleeps to keep to its rate, which changes no state.
  unfoldable pub follow_loop : List Round → ℕ → ℕ → Session → Session × ℕ
  follow_loop [] seen_lines seen_chars s = (s, seen_lines)
  follow_loop (x ∷ xs) seen_lines seen_chars s =
      if leb b.max_lines seen_lines || leb b.max_chars seen_chars then (s, seen_lines) else elim x [
        | expired ↦ (s, seen_lines)
        | idle ↦ follow_loop xs seen_lines seen_chars s
        | ended ↦ (s, seen_lines)
        | line now t ↦ follow_loop xs (seen_lines + 1) (seen_chars + length t) (feed r now t s)
      ]

-- `snapshot` and `follow` behind the reading of the allowlist, with what tail gives: the command line
-- and the session at its end. `none` is a refusal, before any process is spawned.
unfoldable pub snapshot :
    Reader
    → List Source
    → List Text
    → ℕ
    → Option EvidenceLog
    → String
    → List (ℕ × Text)
    → Option (List Text × Session)
snapshot r allow labels lines evidence trace_id output = elim (resolve_labels allow labels []) [
  | none ↦ none
  | some sources ↦
      some
        (tail_argv sources lines false, feed_all r output (new_session sources evidence trace_id))
]

unfoldable pub follow :
    Reader
    → Budgets
    → List Source
    → List Text
    → ℕ
    → Option EvidenceLog
    → String
    → List Round
    → Option (List Text × Session)
follow r b allow labels lines evidence trace_id rounds = elim (resolve_labels allow labels []) [
  | none ↦ none
  | some sources ↦ some (
    tail_argv sources lines true,
    (follow_loop r b rounds 0 0 (new_session sources evidence trace_id)).0,
  )
]
