-- ===== src/Detect/LiveTail/Safe.antt =====
-- What a session of livetail.py keeps of the lines that it reads.
use eight_call.Prelude.{
  ◌⊎◌, inl, inr, Bool-cases, ℕ, ◌+◌, ◌≡◌, refl, ap, sym, ◌∙◌, append_assoc, Bool, true, false, List,
  [], ◌∷◌, ◌++◌, Option, none, some, arith, length, take,
}
use eight_call.Detect.Redact.{Text}
use eight_call.Detect.Redact.Rewrite.{redact_text}
use eight_call.Detect.Redact.Scan.Kept.{All, All-append}
use eight_call.Detect.Redact.Evidence.{EvidenceLog, emit_all, at_time}
use eight_call.Detect.Redact.Evidence.Chain.{IsChained, emit_all-IsChained}
use eight_call.Detect.LiveTail.{
  is_header, path_of, label_of, Observed, Session, Reader, max_line_chars, findings_of_line,
  emit_line, feed_content, feed_attributed, feed_text, feed, feed_all, strip_newlines,
}

abbrev found : List Observed → ℕ
found [] = 0
found (o ∷ os) = o.findings + found os

-- One of the lines.
unfoldable pub IsFed : List (ℕ × Text) → Text → Type 0
IsFed [] raw = ⊥
IsFed ((now, line) ∷ rest) raw = (line ≡ raw) ⊎ IsFed rest raw

found-append : (xs ys : List Observed) → found (xs ++ ys) ≡ found xs + found ys
found-append [] ys = omega arith
found-append (x ∷ xs) ys = omega (arith, found-append xs ys)

-- `P` holds of the lines that are fed.
module _ (r : Reader) (P : Text → Type 0) where
  -- A line that was fed, without its line feeds, or a blank one that was held back.
  abbrev pub IsLine : Text → Type 0
  IsLine line = (line ≡ []) ⊎ ((raw : Text) × P raw × (line ≡ strip_newlines raw))

  -- The source that the session had, or the one of a header that was fed: the label of its path, or
  -- the path as it stands there, if no label has it.
  abbrev pub IsSource : Session → Text → Type 0
  IsSource s source =
      (s.current ≡ some source)
      ⊎ ((raw : Text) × P raw
          × (is_header r (strip_newlines raw) ≡ true)
          × (source ≡ label_of s.sources (path_of (strip_newlines raw))))

  -- The line of the record is what `redact_text` leaves of the first characters of one that was fed.
  abbrev pub IsSafe : Session → Observed → Type 0
  IsSafe s o =
      ((line : Text) × IsLine line × (o.line ≡ redact_text r.scanner 0 (take max_line_chars line)))
      × IsSource s o.source

  -- What a session may become, by any number of lines: the records before stay, and those that are
  -- added are safe; the log of evidence stays a chain, and has one more record for each finding that
  -- the added records count.
  pub record IsExtended (s s' : Session) : Type 0 where
    pub added : List Observed
    pub grown : s'.records ≡ added ++ s.records
    pub safe : All (IsSafe s) added
    pub labels : s'.sources ≡ s.sources
    pub source : (source : Text) → s'.current ≡ some source → IsSource s source
    pub logged :
        (log : EvidenceLog)
        → s.evidence ≡ some log
        → IsChained r.writer log
        → (log' : EvidenceLog) × (s'.evidence ≡ some log')
          × IsChained r.writer log'
          × (log'.seq ≡ log.seq + found added)

  same-IsExtended :
      (s s' : Session)
      → s'.records ≡ s.records
      → s'.evidence ≡ s.evidence
      → s'.sources ≡ s.sources
      → ((source : Text) → s'.current ≡ some source → IsSource s source)
      → IsExtended s s'
  same-IsExtended s s' rs ev labels source = record {
    added = [];
    grown = rs;
    safe = tt;
    labels = labels;
    source = source;
    logged = λ log e chained. (log, cc (ev, e), chained, omega arith);
  }

  emit-IsExtended :
      (now : ℕ) (current line : Text) (s : Session)
      → IsLine line
      → s.current ≡ some current
      → IsExtended s (emit_line r now current line s)
  unfolding emit_line
  emit-IsExtended now current line s is_line is_current =
      let raw = take max_line_chars line in
      let fs = findings_of_line r current (s.lineno + 1) raw in
      record {
        added =
            record {
              ts = r.writer.stamp now;
              trace_id = s.trace_id;
              source = current;
              line = redact_text r.scanner 0 raw;
              findings = length fs;
            }
            ∷ [];
        grown = refl;
        safe = (((line, is_line, refl), inl is_current), tt);
        labels = refl;
        source = λ source e. inl e;
        logged = λ log e chained.
            let (kept, counted) = emit_all-IsChained r.writer now fs log chained in
            ((emit_all r.writer (at_time now fs) log).1, rw e refl, kept, omega (arith, counted));
      }

  back-IsSource :
      (s t : Session) (source : Text) → IsExtended s t → IsSource t source → IsSource s source
  back-IsSource s t source a (inl e) = a.source source e
  back-IsSource s t source a (inr (raw, fed, header, named)) =
      inr (raw, fed, header, cc (named, a.labels))

  back-IsSafe :
      (s t : Session) (os : List Observed) → IsExtended s t → All (IsSafe t) os → All (IsSafe s) os
  back-IsSafe s t [] a safe = tt
  back-IsSafe s t (o ∷ os) a safe =
      ((safe.0.0, back-IsSource s t o.source a safe.0.1), back-IsSafe s t os a safe.1)

  trans-IsExtended : (s t u : Session) → IsExtended s t → IsExtended t u → IsExtended s u
  trans-IsExtended s t u a b = record {
    added = b.added ++ a.added;
    grown = b.grown ∙ ap (◌++◌ b.added) a.grown ∙ sym (append_assoc b.added a.added s.records);
    safe = All-append (IsSafe s) b.added a.added (back-IsSafe s t b.added a b.safe) a.safe;
    labels = b.labels ∙ a.labels;
    source = λ source e. back-IsSource s t source a (b.source source e);
    logged = λ log e chained.
        let (mid, has_mid, mid_chained, mid_seq) = a.logged log e chained in
        let (last, has_last, last_chained, last_seq) = b.logged mid has_mid mid_chained in
        (
          last,
          has_last,
          last_chained,
          omega (arith, mid_seq, last_seq, found-append b.added a.added),
        );
  }

  content-IsExtended :
      (blank : Bool) (now : ℕ) (current line : Text) (s : Session)
      → IsLine line
      → s.current ≡ some current
      → IsExtended s (feed_content r blank now current line s)
  unfolding feed_content
  content-IsExtended false now current line s is_line e =
      emit-IsExtended now current line s is_line e
  content-IsExtended true now current line s is_line e =
      let held = emit_line r now current [] s in
      let cleared : Session = record held { pending_blank = false } in
      let same : held.current ≡ s.current = unfold emit_line in refl in
      trans-IsExtended s cleared (emit_line r now current line cleared)
        (trans-IsExtended s held cleared (emit-IsExtended now current [] s (inl refl) e)
          (same-IsExtended held cleared refl refl refl (λ source h. inl h)))
        (emit-IsExtended now current line cleared is_line (same ∙ e))

  attributed-IsExtended :
      (source : Option Text) (now : ℕ) (line : Text) (s : Session)
      → IsLine line
      → s.current ≡ source
      → IsExtended s (feed_attributed r source now line s)
  unfolding feed_attributed
  attributed-IsExtended none now line s is_line e =
      same-IsExtended s s refl refl refl (λ source h. inl h)
  attributed-IsExtended (some current) now [] s is_line e =
      same-IsExtended s _ refl refl refl (λ source h. inl h)
  attributed-IsExtended (some current) now (c ∷ cs) s is_line e =
      content-IsExtended s.pending_blank now current (c ∷ cs) s is_line e

  feed-IsExtended : (now : ℕ) (raw : Text) (s : Session) → P raw → IsExtended s (feed r now raw s)
  unfolding feed feed_text
  feed-IsExtended now raw s fed =
      let line = strip_newlines raw in
      elim (Bool-cases (is_header r line)) [
        | inl header ↦ rw header (
            same-IsExtended s _ refl refl refl
              (λ source e. inr (raw, fed, header, named source _ e)))
        | inr content ↦
            rw content (attributed-IsExtended s.current now line s (inr (raw, fed, refl)) refl)
      ]
    where
      named :
          (source label : Text) → ◌≡◌ {A = Option Text} (some label) (some source) → source ≡ label
      named source label e = cc

  all-IsExtended :
      (lines : List (ℕ × Text)) (s : Session)
      → ((raw : Text) → IsFed lines raw → P raw)
      → IsExtended s (feed_all r lines s)
  unfolding feed_all IsFed
  all-IsExtended [] s fed = same-IsExtended s s refl refl refl (λ source h. inl h)
  all-IsExtended ((now, line) ∷ rest) s fed =
      let next = feed r now line s in
      trans-IsExtended s next (feed_all r rest next)
        (feed-IsExtended now line s (fed line (inl refl)))
        (all-IsExtended rest next (λ raw h. fed raw (inr h)))

-- Whatever lines a session is fed, the text of each record that it adds is what `redact_text` leaves
-- of the first 8192 characters of one of these lines, or of a blank one; its source is the one that the
-- session had, or what a header among these lines names: the label of the header's path, or, where no
-- label has it, the path as it stands there, neither redacted nor cut. The log of evidence stays a chain
-- that verifies, with one more record for each finding that the new records count.
pub feed_all-IsExtended :
    (r : Reader) (lines : List (ℕ × Text)) (s : Session)
    → IsExtended r (IsFed lines) s (feed_all r lines s)
feed_all-IsExtended r lines s = all-IsExtended r (IsFed lines) lines s (λ raw h. h)
