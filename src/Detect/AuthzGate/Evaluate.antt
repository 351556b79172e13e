-- ===== src/Detect/AuthzGate/Evaluate.antt =====
-- authz_gate.py: `_evaluate`, whose early returns stand in four functions: the closed schema, the
-- caller's proof, freshness, and the grants.
use Prim.Native.String.{◌++◌ as concat}
use eight_call.Prelude.{
  ℕ, ◌+◌, ◌*◌, String, Bool, true, false, not, ◌||◌, List, [], ◌∷◌, Option, none, some, ◌==◌, ltb,
  contains, pos, negsuc, suc, zero, if◌then◌else◌,
}
use eight_call.Broker.Json
use eight_call.Broker.Json.{
  Json, Items, Fields, null, bool, num, text, arr, obj, nil, item, end, field,
}
use eight_call.Broker.Store.Enrollments.{sorted_set}
use eight_call.Broker.Gate.{difference}
use eight_call.Detect.AuthzGate.{
  Grant, Alg, hmac, ed25519, other, Caller, Reason, Mismatch, Gate, Host, allowed_keys,
  required_keys, signed_keys, not_an_object, params_not_object, nonce_not_text, bad_signature,
  stale, future, replay, bad_issued_at, unexpected_fields, missing_fields, not_a_text,
  unknown_caller, no_usable_key, action_not_permitted, no_match, granted,
}
use eight_call.Detect.AuthzGate.Match.{try_grant}

-- `set(request)`.
abbrev pub names : Fields → List String
names end = []
names (field k v d) = k ∷ names d

-- A non-empty text.
abbrev text_of : Option Json → Option String
text_of (some (text t)) = if t == "" then none else some t
text_of _ = none

-- `request.get("params") or {}`, `none` if that is no dict.
abbrev params_of : Option Json → Option Fields
params_of none = some end
params_of (some null) = some end
params_of (some (bool b)) = if b then none else some end
params_of (some (num (pos zero))) = some end
params_of (some (num (pos (suc n)))) = none
params_of (some (num (negsuc n))) = none
params_of (some (text t)) = if t == "" then some end else none
params_of (some (arr nil)) = some end
params_of (some (arr (item v vs))) = none
params_of (some (obj d)) = some d

-- A request of the closed schema.
pub record Shaped : Type 0 where
  pub fields : Fields
  pub caller : String
  pub action : String
  pub target : String
  pub params : Fields
  pub nonce : String

pub data Shape : Type 0 where
  malformed : Reason → Shape
  shaped : Shaped → Shape

abbrev with_nonce : Fields → String → String → String → Fields → Option String → Shape
with_nonce d caller action target params none = malformed nonce_not_text
with_nonce d caller action target params (some nonce) = shaped (record {
  fields = d;
  caller = caller;
  action = action;
  target = target;
  params = params;
  nonce = nonce;
})

abbrev with_params : Fields → String → String → String → Option Fields → Shape
with_params d caller action target none = malformed params_not_object
with_params d caller action target (some params) =
    with_nonce d caller action target params (text_of (Json.get "nonce" d))

-- The loop over "caller", "action" and "target".
abbrev with_texts : Fields → Option String → Option String → Option String → Shape
with_texts d none action target = malformed (not_a_text "caller")
with_texts d (some caller) none target = malformed (not_a_text "action")
with_texts d (some caller) (some action) none = malformed (not_a_text "target")
with_texts d (some caller) (some action) (some target) =
    with_params d caller action target (params_of (Json.get "params" d))

abbrev is_empty : List String → Bool
is_empty [] = true
is_empty (x ∷ xs) = false

unfoldable pub check_shape : Json → Shape
check_shape (obj d) =
    if not (is_empty (difference (names d) allowed_keys))
    then malformed (unexpected_fields (sorted_set (difference (names d) allowed_keys)))
    else if not (is_empty (difference required_keys (names d)))
    then malformed (missing_fields (sorted_set (difference required_keys (names d))))
    else with_texts d (text_of (Json.get "caller" d)) (text_of (Json.get "action" d))
        (text_of (Json.get "target" d))
check_shape _ = malformed not_an_object

unfoldable pub find_caller : String → List Caller → Option Caller
find_caller name [] = none
find_caller name (c ∷ cs) = if c.name == name then some c else find_caller name cs

-- The fields that are signed.
unfoldable pub signed_message : Fields → Fields
signed_message end = end
signed_message (field k v d) =
    let rest = signed_message d in if contains k signed_keys then field k v rest else rest

abbrev signature_of : Option Json → Option String
signature_of (some (text t)) = if t == "" then none else some t
signature_of _ = none

abbrev signed_by : Host → Caller → Alg → Fields → Option String → Bool
signed_by h c alg d none = false
signed_by h c hmac d (some sig) = h.hmac_hex c.key (signed_message d) == sig
signed_by h c ed25519 d (some sig) = h.verify_ed25519 c.key (signed_message d) sig
signed_by h c other d (some sig) = false

-- A signature of ASCII characters; with others `hmac.compare_digest` raises, which is not modelled.
unfoldable pub verify_signature : Host → Fields → Caller → Bool
unfolding signed_message Json.get
verify_signature h d c = signed_by h c c.alg d (signature_of (Json.get "sig" d))

-- `age > max_age` and `age < -skew`, in seconds.
abbrev pub is_stale : ℕ → ℕ → ℕ → Bool
is_stale max_age now issued = ltb (issued + max_age * 1000000) now

abbrev pub is_future : ℕ → ℕ → ℕ → Bool
is_future skew now issued = ltb (now + skew * 1000000) issued

abbrev fresh : Gate → ℕ → Option ℕ → Option Reason
fresh g now none = some bad_issued_at
fresh g now (some issued) =
    if is_stale g.max_age now issued
    then some stale
    else if is_future g.skew now issued
    then some future
    else none

unfoldable pub check_fresh : Host → Gate → ℕ → Fields → Option Reason
check_fresh h g now d =
    fresh g now (h.parse_ts (elim (Json.get "issued_at" d) [ none ↦ null | some v ↦ v ]))

-- The loop over the grants for the action, with the reasons so far.
unfoldable pub try_grants : ℕ → String → String → Fields → List Grant → Option (List Mismatch)
unfolding try_grant
try_grants now action target params [] = some []
try_grants now action target params (g ∷ gs) =
    let rest = try_grants now action target params gs in
    if not (g.action == action) then rest else elim (try_grant now target params g) [
      | none ↦ none
      | some why ↦ elim rest [ none ↦ none | some others ↦ some (why ∷ others) ]
    ]

unfoldable pub permits : String → List Grant → Bool
permits action [] = false
permits action (g ∷ gs) = g.action == action || permits action gs

-- The end of `_evaluate`, behind the nonce.
unfoldable pub match_grants : ℕ → Shaped → Caller → Bool × Reason
unfolding permits try_grants
match_grants now q c =
    if not (permits q.action c.grants)
    then (false, action_not_permitted q.action q.caller)
    else elim (try_grants now q.action q.target q.params c.grants) [
      | none ↦ (true, granted q.action q.target)
      | some why ↦ (false, no_match q.action q.target why)
    ]

abbrev pub nonce_key : Shaped → String
nonce_key q = concat q.caller (concat "\t" q.nonce)

-- The verdict, its reason, the fingerprint for the audit, and the gate as it is left.
abbrev pub Evaluated : Type 0
Evaluated = Bool × Reason × Option String × Gate

module _ (h : Host) (g : Gate) (now : ℕ) where
  -- Replay protection: the nonce is consumed whatever the grants say.
  unfoldable pub spend : Shaped → Caller → Evaluated
  unfolding match_grants
  spend q c =
      if contains (nonce_key q) g.seen_nonces
      then (false, replay, c.fingerprint, g)
      else let r = match_grants now q c in
        (r.0, r.1, c.fingerprint, record g { seen_nonces = nonce_key q ∷ g.seen_nonces })

  unfoldable pub prove : Shaped → Caller → Evaluated
  unfolding verify_signature check_fresh spend
  prove q c =
      if not (verify_signature h q.fields c)
      then (false, bad_signature, c.fingerprint, g)
      else elim (check_fresh h g now q.fields) [
        | some reason ↦ (false, reason, c.fingerprint, g)
        | none ↦ spend q c
      ]

  unfoldable pub identify : Shaped → Option Caller → Evaluated
  unfolding prove
  identify q none = (false, unknown_caller q.caller, none, g)
  identify q (some c) = elim c.key_error [
    | some error ↦ (false, no_usable_key q.caller error, none, g)
    | none ↦ prove q c
  ]

  unfoldable pub evaluate_shape : Shape → Evaluated
  unfolding identify find_caller
  evaluate_shape (malformed reason) = (false, reason, none, g)
  evaluate_shape (shaped q) = identify q (find_caller q.caller g.callers)

  unfoldable pub evaluate : Json → Evaluated
  unfolding check_shape evaluate_shape
  evaluate request = evaluate_shape (check_shape request)
