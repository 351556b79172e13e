-- ===== src/Detect/Redact/Rewrite.antt =====
-- redact.py: `redact_text`.
use eight_call.Prelude.{
  ℕ, ◌≤◌, ◌≡◌, refl, ap, ap₂, sym, ◌∙◌, List, [], ◌∷◌, ◌++◌, map, arith, length, take, drop, slice,
  slice-take, slice-drop,
}
use eight_call.Detect.Redact.{Text, mask}
use eight_call.Detect.Redact.Scan.{Match, Scanner, max_scan_chars, raw_matches, scan_text}
use eight_call.Detect.Redact.Scan.Kept.{All, IsLaid, All-sort, All-keep}
use eight_call.Detect.Redact.Scan.Found.{IsFound, scan-IsFound, scan_text-IsLaid}

abbrev preview : ℕ → Match → Text
preview reveal_last m = mask m.value m.type reveal_last

-- The loop from position `pos`, and the text behind the last span.
unfoldable pub redact_from : ℕ → ℕ → Text → List Match → Text
unfolding slice drop mask
redact_from reveal_last pos text [] = drop pos text
redact_from reveal_last pos text (m ∷ ms) =
    slice pos m.start text ++ (preview reveal_last m ++ redact_from reveal_last m.end text ms)

unfoldable pub redact_text : Scanner → ℕ → Text → Text
unfolding redact_from scan_text
redact_text s reveal_last text = elim (scan_text s text) [
  | [] ↦ text
  | ◌∷◌ m ms ↦ redact_from reveal_last 0 text (m ∷ ms)
]

-- Pieces of a text, each before a match, and the rest; `show` is what stands for the match.
abbrev pub weave : (Match → Text) → List (Text × Match) → Text → Text
weave show [] rest = rest
weave show (p ∷ ps) rest = p.0 ++ (show p.1 ++ weave show ps rest)

abbrev pieces : ℕ → Text → List Match → List (Text × Match)
pieces pos text [] = []
pieces pos text (m ∷ ms) = (slice pos m.start text, m) ∷ pieces m.end text ms

abbrev rest_of : ℕ → Text → List Match → Text
rest_of pos text [] = drop pos text
rest_of pos text (m ∷ ms) = rest_of m.end text ms

pieces-matches :
    (pos : ℕ) (text : Text) (ms : List Match) → map (λ p. p.1) (pieces pos text ms) ≡ ms
pieces-matches pos text [] = refl
pieces-matches pos text (m ∷ ms) = ap (◌∷◌ m) (pieces-matches m.end text ms)

redact-weave :
    (reveal_last pos : ℕ) (text : Text) (ms : List Match)
    → redact_from reveal_last pos text ms
      ≡ weave (preview reveal_last) (pieces pos text ms) (rest_of pos text ms)
unfolding redact_from
redact-weave reveal_last pos text [] = refl
redact-weave reveal_last pos text (m ∷ ms) =
    ap (λ behind. slice pos m.start text ++ (preview reveal_last m ++ behind))
      (redact-weave reveal_last m.end text ms)

value-weave :
    (pos : ℕ) (text : Text) (ms : List Match)
    → IsLaid pos ms
    → All (λ m. m.value ≡ slice m.start m.end text) ms
    → weave (λ m. m.value) (pieces pos text ms) (rest_of pos text ms) ≡ drop pos text
value-weave pos text [] laid h = refl
value-weave pos text (m ∷ ms) laid h =
    let behind = ap₂ ◌++◌ h.0 (value-weave m.end text ms laid.2 h.1) in
    ap (◌++◌ (slice pos m.start text))
      (behind ∙ slice-drop m.start m.end text (omega (arith, laid.1)))
    ∙ slice-drop pos m.start text laid.0

-- The spans that are found in a text lie within it.
abbrev pub IsInBounds : Scanner → Type 0
IsInBounds s = (text : Text) → All (λ m. m.end ≤ length text) (raw_matches s s.patterns text)

whole-values :
    (n : ℕ) (text : Text) (ms : List Match)
    → All (IsFound (take n text)) ms
    → All (λ m. m.end ≤ length (take n text)) ms
    → All (λ m. m.value ≡ slice m.start m.end text) ms
whole-values n text [] found bounds = tt
whole-values n text (m ∷ ms) found bounds =
    (found.0.1 ∙ slice-take m.start m.end n text bounds.0, whole-values n text ms found.1 bounds.1)

scan-InBounds :
    (s : Scanner) (text : Text)
    → IsInBounds s
    → All (λ m. m.end ≤ length (take max_scan_chars text)) (scan_text s text)
unfolding scan_text
scan-InBounds s [] within = tt
scan-InBounds s (c ∷ cs) within =
    let t = take max_scan_chars (c ∷ cs) in
    All-keep (λ m. m.end ≤ length t) _ [] (All-sort (λ m. m.end ≤ length t) _ (within t)) tt

-- `pieces` has one piece for each match of `ms`; with the values between them the pieces are the text,
-- with the previews they are the output.
pub record IsRedacted (reveal_last : ℕ) (text : Text) (ms : List Match) (output : Text)
    : Type 0 where
  pub before : List (Text × Match)
  pub rest : Text
  pub each : map (λ p. p.1) before ≡ ms
  pub input : weave (λ m. m.value) before rest ≡ text
  pub masked : weave (preview reveal_last) before rest ≡ output

from-IsRedacted :
    (s : Scanner) (reveal_last : ℕ) (text : Text)
    → IsInBounds s
    → IsRedacted reveal_last text
        (scan_text s text)
        (redact_from reveal_last 0 text (scan_text s text))
unfolding drop
from-IsRedacted s reveal_last text within =
    let ms = scan_text s text in
    let n = max_scan_chars in
    let values = whole-values n text ms (scan-IsFound s text) (scan-InBounds s text within) in
    record {
      before = pieces 0 text ms;
      rest = rest_of 0 text ms;
      each = pieces-matches 0 text ms;
      input = value-weave 0 text ms (scan_text-IsLaid s text) values;
      masked = sym (redact-weave reveal_last 0 text ms);
    }

redact-from :
    (s : Scanner) (reveal_last : ℕ) (text : Text)
    → redact_text s reveal_last text ≡ redact_from reveal_last 0 text (scan_text s text)
unfolding redact_text redact_from drop
redact-from s reveal_last text = go (scan_text s text)
  where
    go :
        (ms : List Match)
        → elim ms [ [] ↦ text | ◌∷◌ k ks ↦ redact_from reveal_last 0 text (k ∷ ks) ]
          ≡ redact_from reveal_last 0 text ms
    go [] = refl
    go (m ∷ ms) = refl

-- If the spans that the patterns find lie within the text, then the text is a sequence of pieces with
-- the values of the matches of `scan_text` between them, and the output of `redact_text` is the same
-- pieces with the masked previews in place of the values: nothing else is changed.
pub redact_text-IsRedacted :
    (s : Scanner) (reveal_last : ℕ) (text : Text)
    → IsInBounds s
    → IsRedacted reveal_last text (scan_text s text) (redact_text s reveal_last text)
redact_text-IsRedacted s reveal_last text within =
    rw redact-from (from-IsRedacted s reveal_last text within)
