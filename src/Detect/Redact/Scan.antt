-- ===== src/Detect/Redact/Scan.antt =====
-- redact.py: `scan_text` and `scan_bytes`. What a regular expression finds is a parameter.
pub mod Kept
pub mod Found
use eight_call.Prelude.{
  ℕ, ◌+◌, ◌-◌, Bool, true, false, not, ◌&&◌, ◌||◌, List, [], ◌∷◌, ◌++◌, Option, none, some, ltb,
  leb, nat_eq, take, slice, if◌then◌else◌,
}
use eight_call.Detect.Redact.{Text}

-- Where `finditer` finds the group of the pattern in a text, in order; the least entropy is in tenths
-- of a bit, and zero is off.
pub record Pattern : Type 0 where
  pub type : Text
  pub finditer : Text → List (ℕ × ℕ)
  pub min_entropy : ℕ
  pub validator : Option (Text → Bool)

pub record Match : Type 0 where
  pub type : Text
  pub value : Text
  pub start : ℕ
  pub end : ℕ

-- The patterns, and the test `_shannon_entropy(value) < least`, which computes with floats.
pub record Scanner : Type 0 where
  pub patterns : List Pattern
  pub entropy_below : Text → ℕ → Bool

abbrev pub max_scan_chars : ℕ
max_scan_chars = 1000000

abbrev is_empty : Text → Bool
is_empty [] = true
is_empty (c ∷ cs) = false

abbrev refuses : Option (Text → Bool) → Text → Bool
refuses none value = false
refuses (some test) value = not (test value)

module _ (s : Scanner) where
  abbrev is_skipped : Pattern → Text → Bool
  is_skipped p value =
      is_empty value
      || ltb 0 p.min_entropy && s.entropy_below value p.min_entropy
      || refuses p.validator value

  -- The inner loop: what one pattern adds.
  unfoldable pub matches_of : Pattern → Text → List (ℕ × ℕ) → List Match
  unfolding slice
  matches_of p text [] = []
  matches_of p text (span ∷ spans) =
      let value = slice span.0 span.1 text in
      let rest = matches_of p text spans in
      if is_skipped p value
      then rest
      else record { type = p.type; value = value; start = span.0; end = span.1 } ∷ rest

  -- The list `raw`, before it is sorted.
  unfoldable pub raw_matches : List Pattern → Text → List Match
  unfolding matches_of
  raw_matches [] text = []
  raw_matches (p ∷ ps) text = matches_of p text (p.finditer text) ++ raw_matches ps text

-- The key of the sort of `a` is at most that of `b`: the earlier start, then the longer span.
abbrev pub precedes : Match → Match → Bool
precedes a b =
    ltb a.start b.start || nat_eq a.start b.start && leb (b.end - b.start) (a.end - a.start)

unfoldable pub insert_match : Match → List Match → List Match
insert_match m [] = m ∷ []
insert_match m (k ∷ ks) = if precedes m k then m ∷ k ∷ ks else k ∷ insert_match m ks

-- `list.sort` is stable: a match goes before those with its key that come later.
unfoldable pub sort_matches : List Match → List Match
unfolding insert_match
sort_matches [] = []
sort_matches (m ∷ ms) = insert_match m (sort_matches ms)

abbrev pub overlaps : Match → Match → Bool
overlaps m k = ltb m.start k.end && ltb k.start m.end

unfoldable pub overlaps_any : Match → List Match → Bool
overlaps_any m [] = false
overlaps_any m (k ∷ ks) = overlaps m k || overlaps_any m ks

-- The last loop; `kept` is its list so far.
unfoldable pub keep_apart : List Match → List Match → List Match
unfolding overlaps_any
keep_apart [] kept = kept
keep_apart (m ∷ ms) kept = keep_apart ms (if overlaps_any m kept then kept else kept ++ m ∷ [])

unfoldable pub scan_text : Scanner → Text → List Match
unfolding raw_matches sort_matches keep_apart take
scan_text s [] = []
scan_text s (c ∷ cs) =
    keep_apart (sort_matches (raw_matches s s.patterns (take max_scan_chars (c ∷ cs)))) []

-- Latin-1 decodes each byte to the code point with its number.
unfoldable pub scan_bytes : Scanner → List ℕ → List Match
unfolding scan_text take
scan_bytes s [] = []
scan_bytes s (b ∷ bs) = scan_text s (take max_scan_chars (b ∷ bs))
