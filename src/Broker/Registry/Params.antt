-- ===== src/Broker/Registry/Params.antt =====
-- registry.py: `validate_params`, and Python's `int` on what a parameter may be.
use Prim.Native.Char.{code}
use eight_call.Prelude.{
  ℕ, zero, suc, ◌+◌, ◌-◌, ◌*◌, String, Bool, true, false, not, ◌&&◌, ◌||◌, Option, none, some, List,
  [], ◌∷◌, ◌==◌, ℤ, pos, negsuc, ltb_ℤ, contains_ℤ, nat_eq, leb, is_some, if◌then◌else◌,
}
use mathlib.Core.List.{reverse}
use eight_call.Broker.Json
use eight_call.Broker.Json.{Json, Fields, null, bool, num, text, arr, obj, end, field}
use eight_call.Broker.Registry.{Rule, get, lookup}

unfoldable pub codes : String → List ℕ
codes String.[] = []
codes (String.◌∷◌ c s) = code c ∷ codes s

-- ASCII white space, which `int` strips from a text.
unfoldable pub is_space : ℕ → Bool
is_space c = nat_eq c 32 || leb 9 c && leb c 13 || leb 28 c && leb c 31

unfoldable pub strip_left : List ℕ → List ℕ
unfolding is_space
strip_left [] = []
strip_left (c ∷ cs) = if is_space c then strip_left cs else c ∷ cs

unfoldable pub is_digit : ℕ → Bool
is_digit c = leb b'0' c && leb c b'9'

-- Digits, with single underscores between them; `after` says that the last character was a digit.
unfoldable pub digits : List ℕ → ℕ → Bool → Option ℕ
unfolding is_digit
digits [] acc after = if after then some acc else none
digits (c ∷ cs) acc after =
    let rest = digits cs (if is_digit c then acc * 10 + (c - b'0') else acc) (is_digit c) in
    if is_digit c || nat_eq c b'_' && after then rest else none

abbrev negate : ℕ → ℤ
negate zero = pos 0
negate (suc n) = negsuc n

abbrev signed : Bool → Option ℕ → Option ℤ
signed minus none = none
signed true (some n) = some (negate n)
signed false (some n) = some (pos n)

unfoldable pub after_sign : List ℕ → Option ℤ
unfolding digits
after_sign [] = none
after_sign (c ∷ cs) =
    if nat_eq c b'-'
    then signed true (digits cs 0 false)
    else if nat_eq c b'+'
    then signed false (digits cs 0 false)
    else signed false (digits (c ∷ cs) 0 false)

-- `int(text)` on ASCII text; `none` is the ValueError.
unfoldable pub parse_int : String → Option ℤ
unfolding codes strip_left after_sign
parse_int t = after_sign (reverse (strip_left (reverse (strip_left (codes t)))))

-- `int(value)`; `none` is a TypeError or a ValueError. JSON's fractions are not modelled.
unfoldable pub int_of : Json → Option ℤ
unfolding parse_int
int_of (num n) = some n
int_of (bool b) = some (if b then pos 1 else pos 0)
int_of (text t) = parse_int t
int_of _ = none

pub data RegistryError : Type 0 where
  unknown_capability unexpected_params : RegistryError
  missing_param not_an_int not_allowed below_minimum above_maximum unsupported_type :
      String → RegistryError

pub data Checked : Type 0 where
  valid : Fields → Checked
  refused : RegistryError → Checked

abbrev pub in_allow_list : Option (List ℤ) → ℤ → Bool
in_allow_list none n = true
in_allow_list (some ns) n = contains_ℤ n ns

abbrev pub is_below : Option ℤ → ℤ → Bool
is_below none n = false
is_below (some m) n = ltb_ℤ n m

abbrev pub is_above : Option ℤ → ℤ → Bool
is_above none n = false
is_above (some m) n = ltb_ℤ m n

-- One value against its rule.
unfoldable pub check_value : String → Rule → Json → Option RegistryError × Option ℤ
unfolding int_of
check_value name rule value =
    if not (rule.type == "int") then (some (unsupported_type name), none) else elim (int_of value) [
      | none ↦ (some (not_an_int name), none)
      | some n ↦
          if not (in_allow_list rule.allow n)
          then (some (not_allowed name), none)
          else if is_below rule.min n
          then (some (below_minimum name), none)
          else if is_above rule.max n
          then (some (above_maximum name), none)
          else (none, some n)
    ]

abbrev store_value : String → Fields → Option RegistryError × Option ℤ → Checked
store_value name out (some e, _) = refused e
store_value name out (none, none) = valid out
store_value name out (none, some n) = valid (Json.put name (num n) out)

abbrev check_param : String → Rule → Option Json → Fields → Checked
check_param name rule none out = if rule.required then refused (missing_param name) else valid out
check_param name rule (some value) out = store_value name out (check_value name rule value)

-- The loop over the allowed parameters; `out` is what was accepted so far.
unfoldable pub check_rules : List (String × Rule) → Fields → Fields → Checked
unfolding check_value
check_rules [] params out = valid out
check_rules ((name, rule) ∷ rules) params out =
    elim (check_param name rule (Json.get name params) out) [
      | refused e ↦ refused e
      | valid out' ↦ check_rules rules params out'
    ]

-- `set(params) - set(allowed)` is not empty.
unfoldable pub has_extra : Fields → List (String × Rule) → Bool
has_extra end allowed = false
has_extra (field name v rest) allowed =
    not (is_some (lookup name allowed)) || has_extra rest allowed

unfoldable pub validate_params : String → Fields → Checked
unfolding get has_extra check_rules
validate_params action params = elim (get action) [
  | none ↦ refused unknown_capability
  | some spec ↦
      if has_extra params spec.params
      then refused unexpected_params
      else check_rules spec.params params end
]
