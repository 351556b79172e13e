-- ===== src/Detect/Redact/Luhn.antt =====
-- redact.py: `_luhn_ok`, the checksum of a card number.
use eight_call.Prelude.{
  ℕ, ◌+◌, ◌-◌, ◌*◌, ◌%◌, ◌<◌, ◌≡◌, ◌≢◌, refl, Bool, true, false, not, ◌&&◌, List, [], ◌∷◌, ◌++◌,
  Option, none, some, ltb, leb, nat_eq, length, arith, if◌then◌else◌,
}
use eight_call.Detect.Redact.{Text}

-- `digit` is the value of a character that `isdigit` accepts; a character that `int` does not read
-- (a superscript) is not among what the pattern matches.
unfoldable pub digits_of : (ℕ → Option ℕ) → Text → List ℕ
digits_of digit [] = []
digits_of digit (c ∷ cs) =
    let rest = digits_of digit cs in elim (digit c) [ none ↦ rest | some d ↦ d ∷ rest ]

abbrev doubled : ℕ → ℕ
doubled d = if ltb 9 (d * 2) then d * 2 - 9 else d * 2

-- The loop from index `i` on.
unfoldable pub luhn_total : ℕ → ℕ → List ℕ → ℕ
luhn_total parity i [] = 0
luhn_total parity i (d ∷ ds) =
    (if nat_eq (i % 2) parity then doubled d else d) + luhn_total parity (i + 1) ds

unfoldable pub luhn_digits : List ℕ → Bool
unfolding luhn_total
luhn_digits ds =
    if not (leb 13 (length ds) && leb (length ds) 19)
    then false
    else nat_eq (luhn_total (length ds % 2) 0 ds % 10) 0

unfoldable pub luhn_ok : (ℕ → Option ℕ) → Text → Bool
unfolding digits_of luhn_digits
luhn_ok digit number = luhn_digits (digits_of digit number)

-- The standard's description: from the right, every second digit is doubled.
unfoldable pub luhn_from_right : List ℕ → ℕ
luhn_from_right [] = 0
luhn_from_right (d ∷ ds) = (if nat_eq (length ds % 2) 1 then doubled d else d) + luhn_from_right ds

total-from_right :
    (parity i : ℕ) (ds : List ℕ)
    → (i + length ds) % 2 ≡ parity
    → luhn_total parity i ds ≡ luhn_from_right ds
unfolding luhn_total luhn_from_right
total-from_right parity i [] h = refl
total-from_right parity i (d ∷ ds) h = ground (arith, total-from_right parity (i + 1) ds)

-- A number of 13 to 19 digits is accepted if and only if its sum from the right, with every second
-- digit doubled, is a multiple of ten; a shorter or a longer one is never accepted.
pub luhn_digits-from_right :
    (ds : List ℕ)
    → luhn_digits ds
      ≡ (leb 13 (length ds) && leb (length ds) 19 && nat_eq (luhn_from_right ds % 10) 0)
unfolding luhn_digits
luhn_digits-from_right ds = ground (arith, total-from_right (length ds % 2) 0 ds)

length-replace :
    (before after : List ℕ) (d e : ℕ) → length (before ++ d ∷ after) ≡ length (before ++ e ∷ after)
length-replace [] after d e = refl
length-replace (x ∷ xs) after d e = omega (arith, length-replace xs after d e)

total-replace :
    (parity i : ℕ) (before after : List ℕ) (d e : ℕ)
    → d < 10
    → e < 10
    → luhn_total parity i (before ++ d ∷ after) % 10
      ≡ luhn_total parity i (before ++ e ∷ after) % 10
    → d ≡ e
unfolding luhn_total
total-replace parity i [] after d e p q h = ground arith
total-replace parity i (x ∷ xs) after d e p q h =
    total-replace parity (i + 1) xs after d e p q (omega arith)

-- One wrong digit is always detected: a number that differs from an accepted one in exactly one digit
-- is not accepted.
pub luhn-detects :
    (before after : List ℕ) (d e : ℕ)
    → d < 10
    → e < 10
    → d ≢ e
    → luhn_digits (before ++ d ∷ after) ≡ true
    → luhn_digits (before ++ e ∷ after) ≡ false
unfolding luhn_digits
luhn-detects before after d e p q ne h = ground (
  arith,
  length-replace before after d e,
  total-replace (length (before ++ e ∷ after) % 2) 0 before after d e,
)
