-- ===== src/Detect/AuthzGate/Match.antt =====
-- authz_gate.py: whether a grant covers a target and parameters.
pub mod Scope
use Prim.Native.Char.{code}
use eight_call.Prelude.{
  ℕ, zero, suc, ◌+◌, String, Bool, true, false, not, ◌&&◌, ◌||◌, List, [], ◌∷◌, Option, none, some,
  ◌==◌, ℤ, pos, eq_ℤ, nat_eq, ltb, if◌then◌else◌,
}
use eight_call.Prelude.Int.{eq_ℤ}
use eight_call.Broker.Json
use eight_call.Broker.Json.{
  Json, Items, Fields, null, bool, num, text, arr, obj, nil, item, end, field,
}
use eight_call.Broker.Registry.Params.{codes}
use eight_call.Detect.AuthzGate.{
  Grant, Mismatch, not_yet_valid, expired, out_of_scope, param_not_allowed, param_value,
}

-- `pattern[:-1]`, if the pattern ends with a star.
unfoldable pub before_star : List ℕ → Option (List ℕ)
before_star [] = none
before_star (c ∷ []) = if nat_eq c b'*' then some [] else none
before_star (c ∷ d ∷ cs) = elim (before_star (d ∷ cs)) [ none ↦ none | some p ↦ some (c ∷ p) ]

unfoldable pub starts_with : List ℕ → List ℕ → Bool
starts_with [] target = true
starts_with (c ∷ cs) [] = false
starts_with (c ∷ cs) (d ∷ ds) = nat_eq c d && starts_with cs ds

abbrev has_prefix : List ℕ → List ℕ → Bool
has_prefix [] target = false
has_prefix (c ∷ cs) target = starts_with (c ∷ cs) target

-- Exact, or a literal prefix before a single trailing star.
unfoldable pub target_matches : String → String → Bool
unfolding before_star starts_with codes
target_matches pattern target =
    if pattern == ""
    then false
    else if pattern == "*"
    then false
    else elim (before_star (codes pattern)) [
      | some prefix ↦ has_prefix prefix (codes target)
      | none ↦ pattern == target
    ]

abbrev number : Bool → ℤ
number true = pos 1
number false = pos 0

abbrev pub size : Fields → ℕ
size end = zero
size (field k v d) = suc (size d)

-- Python's `==`: a Boolean is a number, and a dict has no order.
unfoldable mutual
  pub equals : Json → Json → Bool
  equals null null = true
  equals (bool a) (bool b) = eq_ℤ (number a) (number b)
  equals (bool a) (num n) = eq_ℤ (number a) n
  equals (num m) (bool b) = eq_ℤ m (number b)
  equals (num m) (num n) = eq_ℤ m n
  equals (text t) (text u) = t == u
  equals (arr xs) (arr ys) = equal_items xs ys
  equals (obj d) (obj e) = within d e && nat_eq (size d) (size e)
  equals _ _ = false

  pub equal_items : Items → Items → Bool
  equal_items nil nil = true
  equal_items (item v vs) (item w ws) = equals v w && equal_items vs ws
  equal_items _ _ = false

  -- Every key of the first dict is in the second one, with an equal value.
  pub within : Fields → Fields → Bool
  within end e = true
  within (field k v d) e = elim (Json.get k e) [ none ↦ false | some w ↦ equals v w ] && within d e

-- The grant's parameters are the complete allow-list.
unfoldable pub params_within : Fields → Fields → Option Mismatch
unfolding equals Json.get
params_within allowed end = none
params_within allowed (field key value rest) =
    let others = params_within allowed rest in
    elim (Json.get key allowed) [
      | none ↦ some (param_not_allowed key)
      | some expected ↦ if not (equals expected value) then some (param_value key) else others
    ]

unfoldable pub any_matches : List String → String → Bool
unfolding target_matches
any_matches [] target = false
any_matches (p ∷ ps) target = target_matches p target || any_matches ps target

abbrev pub is_before : ℕ → Option ℕ → Bool
is_before now none = false
is_before now (some t) = ltb now t

abbrev pub is_after : ℕ → Option ℕ → Bool
is_after now none = false
is_after now (some t) = ltb t now

-- One pass of the loop over the grants; `none` is a match.
unfoldable pub try_grant : ℕ → String → Fields → Grant → Option Mismatch
unfolding any_matches params_within
try_grant now target params g =
    if is_before now g.not_before
    then some not_yet_valid
    else if is_after now g.not_after
    then some expired
    else if not (any_matches g.targets target)
    then some out_of_scope
    else params_within g.params params
