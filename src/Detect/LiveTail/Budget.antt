-- ===== src/Detect/LiveTail/Budget.antt =====
-- The bounds of livetail.py: the lines that tail is asked for, and the budgets of `follow`.
use eight_call.Prelude.{
  ℕ, String, ◌+◌, ◌≤◌, ◌<◌, ◌≡◌, refl, ap, Bool, true, false, ◌||◌, List, [], ◌∷◌, Option, none,
  some, arith, length, leb, Bool-cases, inl, inr, if◌then◌else◌,
}
use eight_call.Detect.Redact.{Text}
use eight_call.Detect.Redact.Evidence.{EvidenceLog}
use eight_call.Detect.LiveTail.{
  Session, Source, Reader, Round, Budgets, expired, idle, ended, line, emit_line, feed_content,
  feed_attributed, feed_text, feed, strip_newlines, new_session, follow_loop, is_header,
}

abbrev held : Bool → ℕ
held true = 1
held false = 0

module _ (r : Reader) where
  -- A record for each line that was fed, at most, and a blank line that is held back has none yet.
  abbrev IsCounted : ℕ → Session → Type 0
  IsCounted n s = length s.records + held s.pending_blank ≤ n

  emit-counts :
      (now : ℕ) (current text : Text) (s : Session)
      → (length (emit_line r now current text s).records ≡ length s.records + 1)
        × ((emit_line r now current text s).pending_blank ≡ s.pending_blank)
  unfolding emit_line
  emit-counts now current text s = (omega arith, refl)

  content-IsCounted :
      (n : ℕ) (blank : Bool) (now : ℕ) (current text : Text) (s : Session)
      → s.pending_blank ≡ blank
      → IsCounted n s
      → IsCounted (n + 1) (feed_content r blank now current text s)
  unfolding feed_content
  content-IsCounted n false now current text s e h =
      let (one, same) = emit-counts now current text s in
      omega (arith, one, h, ap held same, ap held e)
  content-IsCounted n true now current text s e h =
      let first = emit_line r now current [] s in
      let cleared : Session = record first { pending_blank = false } in
      let (one, _) = emit-counts now current [] s in
      let (two, same) = emit-counts now current text cleared in
      omega (arith, one, two, h, ap held same, ap held e)

  attributed-IsCounted :
      (n : ℕ) (source : Option Text) (now : ℕ) (text : Text) (s : Session)
      → IsCounted n s
      → IsCounted (n + 1) (feed_attributed r source now text s)
  unfolding feed_attributed
  attributed-IsCounted n none now text s h = omega (arith, h)
  attributed-IsCounted n (some current) now [] s h = ground (arith, h)
  attributed-IsCounted n (some current) now (c ∷ cs) s h =
      content-IsCounted n s.pending_blank now current (c ∷ cs) s refl h

  if-IsCounted :
      (n : ℕ) (b : Bool) (t u : Session)
      → IsCounted n t
      → IsCounted n u
      → IsCounted n (if b then t else u)
  if-IsCounted n true t u h k = h
  if-IsCounted n false t u h k = k

  feed-IsCounted :
      (n now : ℕ) (text : Text) (s : Session)
      → IsCounted n s
      → IsCounted (n + 1) (feed r now text s)
  unfolding feed feed_text
  feed-IsCounted n now text s h =
      let t = strip_newlines text in
      if-IsCounted (n + 1) (is_header r t) _ (feed_attributed r s.current now t s)
        (omega (arith, h)) (attributed-IsCounted n s.current now t s h)

  -- A round is made only with a line left in the budget.
  stop-or :
      (b : Budgets) (lines chars : ℕ) (s : Session) (rest : Session × ℕ)
      → (lines ≤ b.max_lines) × IsCounted lines s
      → (lines < b.max_lines → (rest.1 ≤ b.max_lines) × IsCounted rest.1 rest.0)
      → let x = if leb b.max_lines lines || leb b.max_chars chars then (s, lines) else rest in
        (x.1 ≤ b.max_lines) × IsCounted x.1 x.0
  stop-or b lines chars s rest now later = elim (Bool-cases (leb b.max_lines lines)) [
    | inl full ↦ rw full now
    | inr room ↦ elim (Bool-cases (leb b.max_chars chars)) [
      | inl full ↦ rw (room, full) now
      | inr more ↦ rw (room, more) (later (ground arith))
    ]
  ]

  follow-counts :
      (b : Budgets) (rounds : List Round) (lines chars : ℕ) (s : Session)
      → lines ≤ b.max_lines
      → IsCounted lines s
      → let (s', n) = follow_loop r b rounds lines chars s in (n ≤ b.max_lines) × IsCounted n s'
  unfolding follow_loop
  follow-counts b [] lines chars s p h = (p, h)
  follow-counts b (expired ∷ xs) lines chars s p h = ground (arith, h)
  follow-counts b (ended ∷ xs) lines chars s p h = ground (arith, h)
  follow-counts b (idle ∷ xs) lines chars s p h =
      stop-or b lines chars s _ (p, h) (λ room. follow-counts b xs lines chars s p h)
  follow-counts b (line now t ∷ xs) lines chars s p h =
      stop-or b lines chars s _ (p, h)
        (λ room.
          follow-counts b xs (lines + 1) (chars + length t) (feed r now t s) (omega (arith, room))
            (feed-IsCounted lines now t s h))

  -- What `follow` makes of the output of tail is bounded, however much there is: it reads at most
  -- `max_lines` lines, and returns at most one record for each of them.
  pub follow-bounded :
      (b : Budgets) (rounds : List Round) (sources : List Source) (evidence : Option EvidenceLog)
      (trace_id : String)
      → let (s', n) = follow_loop r b rounds 0 0 (new_session sources evidence trace_id) in
        (n ≤ b.max_lines) × (length s'.records ≤ n)
  unfolding new_session
  follow-bounded b rounds sources evidence trace_id =
      let first = new_session sources evidence trace_id in
      let (few, counted) = follow-counts b rounds 0 0 first (omega arith) (omega arith) in
      (few, omega (arith, counted))
