-- ===== src/Detect/Redact/Mask.antt =====
-- What a preview of redact.py's `mask` shows of a value.
use eight_call.Prelude.{
  ℕ, zero, suc, ◌+◌, ◌-◌, ◌/◌, ◌%◌, ◌*◌, ◌<◌, ◌≡◌, true, ◌&&◌, [], ◌∷◌, ltb, length, drop, arith,
}
use eight_call.Detect.Redact.{Text, decimal, decimal_from, mask}

-- Values of one length have the same preview, whatever their characters, if nothing is to be revealed
-- or the value is not longer than what would be; else if their last characters agree.
pub mask-blind :
    (v w secret_type : Text) (reveal_last : ℕ)
    → length v ≡ length w
    → ((ltb 0 reveal_last && ltb reveal_last (length v)) ≡ true
        → drop (length v - reveal_last) v ≡ drop (length v - reveal_last) w)
    → mask v secret_type reveal_last ≡ mask w secret_type reveal_last
unfolding mask
mask-blind v w secret_type reveal_last same tail = ground (arith, same, tail)

-- What the digits of a text denote, behind `acc`.
unfoldable pub number_of : ℕ → Text → ℕ
number_of acc [] = acc
number_of acc (c ∷ cs) = number_of (acc * 10 + (c - b'0')) cs

unfoldable pub power : ℕ → ℕ
power zero = 1
power (suc n) = power n * 10

number-decimal_from :
    (fuel n : ℕ) (behind : Text)
    → n < fuel
    → number_of 0 (decimal_from fuel n behind) ≡ number_of n behind
unfolding decimal_from number_of
number-decimal_from zero n behind h = absurd (omega arith)
number-decimal_from (suc fuel) n behind h =
    ground (arith, number-decimal_from fuel (n / 10) ((b'0' + n % 10) ∷ behind))

-- The digits that `str` writes read back as the number: the fuel is enough.
pub number_of-decimal : (n : ℕ) → number_of 0 (decimal n) ≡ n
unfolding decimal number_of
number_of-decimal n = number-decimal_from (n + 1) n [] (omega arith)
