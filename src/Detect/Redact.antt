-- ===== src/Detect/Redact.antt =====
-- detect/redact.py: findings that are safe to keep. A text is the list of its code points, and what is
-- bytes is the list of them.
pub mod Luhn
pub mod Scan
pub mod Rewrite
pub mod Mask
pub mod Findings
pub mod Evidence
use eight_call.Prelude.{
  ℕ, zero, suc, ◌+◌, ◌-◌, ◌/◌, ◌%◌, Bool, ◌&&◌, List, [], ◌∷◌, ◌++◌, ltb, length, drop,
  if◌then◌else◌,
}
use eight_call.Broker.Registry.Params.{codes}

abbrev pub Text : Type 0
Text = List ℕ

-- The digits of a number before a text. The fuel bounds the number of digits; `n + 1` is enough.
unfoldable pub decimal_from : ℕ → ℕ → Text → Text
decimal_from zero n behind = behind
decimal_from (suc fuel) n behind =
    let digit = b'0' + n % 10 in
    let more = decimal_from fuel (n / 10) (digit ∷ behind) in
    if ltb n 10 then digit ∷ behind else more

-- `str(n)`.
unfoldable pub decimal : ℕ → Text
unfolding decimal_from
decimal n = decimal_from (n + 1) n []

abbrev stars : ℕ → Text
stars zero = []
stars (suc n) = b'*' ∷ stars n

-- A preview: the type and the length, and at most the last characters.
unfoldable pub mask : Text → Text → ℕ → Text
unfolding decimal drop
mask value secret_type reveal_last =
    let n = length value in
    let size = b'(' ∷ (decimal n ++ b')' ∷ []) in
    if ltb 0 reveal_last && ltb reveal_last n
    then secret_type ++ (b':' ∷ (stars 4 ++ (drop (n - reveal_last) value ++ size)))
    else secret_type ++ (b':' ∷ (stars 8 ++ size))
