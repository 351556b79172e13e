-- ===== src/Broker/Examples/Registered.antt =====
-- Parameters against plasma/broker/broker/registry.py.
use eight_call.Prelude.{◌≡◌, refl, none, some, pos, contains_ℤ, negsuc}
use eight_call.Broker.Json
use eight_call.Broker.Json.{Fields, text, num, bool, null, end, field}
use eight_call.Broker.Registry.{get, lookup, capabilities}
use eight_call.Broker.Registry.Params.{
  valid, refused, unknown_capability, unexpected_params, missing_param, not_allowed, not_an_int,
  validate_params, has_extra, check_rules, check_value, int_of, parse_int, codes, strip_left,
  after_sign, digits, is_digit, is_space,
}
use eight_call.Broker.Registry.Bounds.{IsBounded, validate_params-IsBounded}

parsed :
    (parse_int " 8_022\n" ≡ some (pos 8022))
    × (parse_int "-5" ≡ some (negsuc 4))
    × (parse_int "8__0" ≡ none)
    × (parse_int "80.0" ≡ none)
    × (parse_int "" ≡ none)
unfolding parse_int codes strip_left after_sign digits is_digit is_space
parsed = (refl, refl, refl, refl, refl)

probe_lem :
    (validate_params "tcp_probe" (field "port" (text "443") end)
      ≡ valid (field "port" (num (pos 443)) end))
    × (validate_params "tcp_probe" (field "port" (num (pos 22)) end) ≡ refused (not_allowed "port"))
    × (validate_params "tcp_probe" (field "port" null end) ≡ refused (not_an_int "port"))
    × (validate_params "tcp_probe" end ≡ refused (missing_param "port"))
    × (validate_params "ping" (field "port" (num (pos 80)) end) ≡ refused unexpected_params)
    × (validate_params "shell" end ≡ refused unknown_capability)
unfolding validate_params get lookup capabilities has_extra check_rules check_value int_of parse_int
    codes strip_left after_sign digits is_digit is_space Json.get Json.put contains_ℤ
probe_lem = (refl, refl, refl, refl, refl, refl)

validate_params-IsBounded_example : IsBounded "tcp_probe" (field "port" (num (pos 443)) end)
validate_params-IsBounded_example =
    validate_params-IsBounded "tcp_probe" (field "port" (text "443") end)
      (field "port" (num (pos 443)) end) probe_lem.0
