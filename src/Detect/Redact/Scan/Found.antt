-- ===== src/Detect/Redact/Scan/Found.antt =====
-- What redact.py's `scan_text` returns, against what its patterns find.
use eight_call.Prelude.{
  ℕ, ◌<◌, ◌≡◌, refl, true, List, [], ◌∷◌, ◌++◌, arith, take, slice, slice-nil, slice_nil,
  Bool-cases, inl, inr,
}
use eight_call.Detect.Redact.{Text}
use eight_call.Detect.Redact.Scan.{
  Pattern, Match, Scanner, max_scan_chars, matches_of, raw_matches, sort_matches, overlaps_any,
  keep_apart, scan_text,
}
use eight_call.Detect.Redact.Scan.Kept.{
  All, IsLaid, All-append, All-sort, sort-All, All-keep, sort-IsSorted, keep-IsLaid,
}

-- The value is what stands at the span, which is not empty.
abbrev pub IsFound : Text → Match → Type 0
IsFound text m = (m.start < m.end) × (m.value ≡ slice m.start m.end text)

module _ (s : Scanner) where
  matches-IsFound :
      (p : Pattern) (text : Text) (spans : List (ℕ × ℕ))
      → All (IsFound text) (matches_of s p text spans)
  unfolding matches_of
  matches-IsFound p text [] = tt
  matches-IsFound p text (span ∷ spans) =
      ground (arith, slice-nil span.0 span.1 text, matches-IsFound p text spans)

  raw-IsFound : (ps : List Pattern) (text : Text) → All (IsFound text) (raw_matches s ps text)
  unfolding raw_matches
  raw-IsFound [] text = tt
  raw-IsFound (p ∷ ps) text =
      All-append (IsFound text) _ _ (matches-IsFound p text (p.finditer text)) (raw-IsFound ps text)

  pub scan-IsFound : (text : Text) → All (IsFound (take max_scan_chars text)) (scan_text s text)
  unfolding scan_text
  scan-IsFound [] = tt
  scan-IsFound (c ∷ cs) =
      let t = take max_scan_chars (c ∷ cs) in
      All-keep (IsFound t) _ [] (All-sort (IsFound t) _ (raw-IsFound s.patterns t)) tt

  IsFound-full :
      (text : Text) (ms : List Match) → All (IsFound text) ms → All (λ m. m.start < m.end) ms
  IsFound-full text [] h = tt
  IsFound-full text (m ∷ ms) h = (h.0.0, IsFound-full text ms h.1)

  -- The spans of the matches that are returned ascend, none is empty, and none reaches into the next.
  pub scan_text-IsLaid : (text : Text) → IsLaid 0 (scan_text s text)
  unfolding scan_text
  scan_text-IsLaid [] = tt
  scan_text-IsLaid (c ∷ cs) =
      let t = take max_scan_chars (c ∷ cs) in
      let raw = raw_matches s s.patterns t in
      keep-IsLaid 0 (sort_matches raw) [] (sort-IsSorted raw)
        (IsFound-full t _ (All-sort (IsFound t) raw (raw-IsFound s.patterns t))) tt tt

overlaps_any-append :
    (m : Match) (kept ms : List Match)
    → overlaps_any m kept ≡ true
    → overlaps_any m (kept ++ ms) ≡ true
unfolding overlaps_any
overlaps_any-append m [] ms h = ground arith
overlaps_any-append m (k ∷ ks) ms h = ground (arith, overlaps_any-append m ks ms)

overlaps_any-last :
    (m : Match) (kept : List Match) → m.start < m.end → overlaps_any m (kept ++ m ∷ []) ≡ true
unfolding overlaps_any
overlaps_any-last m [] h = ground arith
overlaps_any-last m (k ∷ ks) h = ground (arith, overlaps_any-last m ks h)

overlaps_any-keep :
    (m : Match) (ms kept : List Match)
    → overlaps_any m kept ≡ true
    → overlaps_any m (keep_apart ms kept) ≡ true
unfolding keep_apart
overlaps_any-keep m [] kept h = h
overlaps_any-keep m (k ∷ ks) kept h = elim (Bool-cases (overlaps_any k kept)) [
  | inl o ↦ rw o (overlaps_any-keep m ks kept h)
  | inr o ↦ rw o (overlaps_any-keep m ks (kept ++ k ∷ []) (overlaps_any-append m kept (k ∷ []) h))
]

-- `result` is what the loop returns.
keep-covers :
    (result ms kept : List Match)
    → keep_apart ms kept ≡ result
    → All (λ m. m.start < m.end) ms
    → All (λ m. overlaps_any m result ≡ true) ms
unfolding keep_apart
keep-covers result [] kept e h = tt
keep-covers result (m ∷ ms) kept e h = elim (Bool-cases (overlaps_any m kept)) [
  | inl o ↦
      let e' : keep_apart ms kept ≡ result = rw o at e in
      (rw (← e') (overlaps_any-keep m ms kept o), keep-covers result ms kept e' h.1)
  | inr o ↦
      let e' : keep_apart ms (kept ++ m ∷ []) ≡ result = rw o at e in
      (
        rw (← e') (overlaps_any-keep m ms (kept ++ m ∷ []) (overlaps_any-last m kept h.0)),
        keep-covers result ms (kept ++ m ∷ []) e' h.1,
      )
]

module _ (s : Scanner) where
  matches-nil : (p : Pattern) (spans : List (ℕ × ℕ)) → matches_of s p [] spans ≡ []
  unfolding matches_of
  matches-nil p [] = refl
  matches-nil p (span ∷ spans) = rw slice_nil (matches-nil p spans)

  raw-nil : (ps : List Pattern) → raw_matches s ps [] ≡ []
  unfolding raw_matches
  raw-nil [] = refl
  raw-nil (p ∷ ps) = rw (matches-nil p (p.finditer [])) (raw-nil ps)

  -- Nothing that the patterns find is lost: each match in the part of the text that is scanned overlaps
  -- a match that is returned.
  pub scan_text-covers :
      (text : Text)
      → All
          (λ m. overlaps_any m (scan_text s text) ≡ true)
          (raw_matches s s.patterns (take max_scan_chars text))
  unfolding scan_text
  scan_text-covers [] = rw raw-nil tt
  scan_text-covers (c ∷ cs) =
      let t = take max_scan_chars (c ∷ cs) in
      let raw = raw_matches s s.patterns t in
      sort-All (λ m. overlaps_any m (keep_apart (sort_matches raw) []) ≡ true) raw
        (keep-covers _ (sort_matches raw) [] refl
          (IsFound-full s t _ (All-sort (IsFound t) raw (raw-IsFound s s.patterns t))))
