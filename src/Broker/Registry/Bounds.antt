-- ===== src/Broker/Registry/Bounds.antt =====
-- What registry.py's `validate_params` lets through.
use eight_call.Prelude.{
  String, ◌≡◌, true, ◌⊎◌, inl, inr, List, [], ◌∷◌, ◌==◌, arith, ℤ, pos, contains, contains_ℤ,
  Option-cases, Bool-cases, eq_iff, if◌then◌else◌, sym,
}
use eight_call.Broker.Json
use eight_call.Broker.Json.{Json, Fields, num, end, field}
use eight_call.Broker.Registry.{port_rule, capabilities, get, lookup}
use eight_call.Broker.Registry.Params.{
  valid, refused, unexpected_params, check_value, check_rules, has_extra, int_of, validate_params,
}

-- The ports that a probe may be sent to.
abbrev pub ports : List ℤ
ports = pos 80 ∷ pos 443 ∷ pos 8022 ∷ pos 5353 ∷ pos 62078 ∷ []

-- Parameters that a capability may be run with: a probe has exactly a port of the list, and the
-- others have none.
abbrev pub IsBounded : String → Fields → Type 0
IsBounded action out =
    ((action ≡ "tcp_probe")
      × (n : ℤ) × (out ≡ field "port" (num n) end)
      × (contains_ℤ n ports ≡ true))
    ⊎ ((contains action ("ping" ∷ "neigh" ∷ "inventory" ∷ []) ≡ true) × (out ≡ end))

port-checked :
    (params out : Fields)
    → check_rules (("port", port_rule) ∷ []) params end ≡ valid out
    → (n : ℤ) × (out ≡ field "port" (num n) end) × (contains_ℤ n ports ≡ true)
unfolding check_rules check_value Json.put
port-checked params out h = elim (Option-cases (Json.get "port" params)) [
  | inl missing ↦ absurd (ground arith)
  | inr (v, found) ↦ elim (Option-cases (int_of v)) [
    | inl bad ↦ absurd (ground arith)
    | inr (n, good) ↦ (n, ground arith, ground arith)
  ]
]

bare :
    (params out : Fields)
    → (if has_extra params [] then refused unexpected_params else check_rules [] params end)
      ≡ valid out
    → out ≡ end
unfolding check_rules
bare params out h = ground arith

probed :
    (params out : Fields)
    → (if has_extra params (("port", port_rule) ∷ [])
        then refused unexpected_params
        else check_rules (("port", port_rule) ∷ []) params end)
      ≡ valid out
    → check_rules (("port", port_rule) ∷ []) params end ≡ valid out
probed params out h = ground arith

-- Whatever action and parameters a request names, those that validate are bounded: the action is in
-- the table, and no parameter but a port of the allow-list is passed on.
pub validate_params-IsBounded :
    (action : String) (params out : Fields)
    → validate_params action params ≡ valid out
    → IsBounded action out
unfolding validate_params get lookup capabilities contains
validate_params-IsBounded action params out h = elim (Bool-cases ("ping" == action)) [
  | inl a ↦ inr (ground (arith, a), bare params out (rw (a, validate_params) at h))
  | inr a ↦ elim (Bool-cases ("neigh" == action)) [
    | inl b ↦ inr (ground (arith, b), bare params out (rw (a, b, validate_params) at h))
    | inr b ↦ elim (Bool-cases ("tcp_probe" == action)) [
      | inl d ↦
          let (n, same, allowed) =
            port-checked params out (probed params out (rw (a, b, d, validate_params) at h)) in
          inl (sym ((eq_iff "tcp_probe" action).0 d), n, same, allowed)
      | inr d ↦ elim (Bool-cases ("inventory" == action)) [
        | inl e ↦ inr (ground (arith, e), bare params out (rw (a, b, d, e, validate_params) at h))
        | inr e ↦ absurd (cc (rw (a, b, d, e, validate_params) at h))
      ]
    ]
  ]
]
