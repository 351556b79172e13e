-- ===== src/Skills/EvalPolicy.antt =====
-- skills/blue/authz-gate/scripts/eval_policy.py: the default-deny evaluator. A policy, an identity and
-- a request have the shapes that the file documents; values inside them are any JSON. Times are whole
-- seconds.
pub mod Permit
use eight_call.Prelude.{
  ℕ, String, Bool, true, false, not, ◌&&◌, ◌||◌, List, [], ◌∷◌, Option, none, some, ◌==◌, leb,
  contains, is_some, if◌then◌else◌,
}
use eight_call.Broker.Json
use eight_call.Broker.Json.{
  Json, Items, Fields, null, bool, num, text, arr, obj, nil, item, end, field,
}
use eight_call.Broker.Registry.{lookup}
use eight_call.Detect.AuthzGate.Match.{equals}

pub record ParamSpec : Type 0 where
  pub type : String
  pub required : Bool

pub record ActionSpec : Type 0 where
  pub resource_types : List String
  pub parameters : List (String × ParamSpec)

-- A role, with its constraints.
pub record Role : Type 0 where
  pub allow : List String
  pub environments : Option (List String)
  pub requires_approval : List String

-- `path` is the dotted field.
pub record Condition : Type 0 where
  pub path : List String
  pub op : String
  pub value : Json

pub record Rule : Type 0 where
  pub all : List Condition
  pub reason : String

pub record Policy : Type 0 where
  pub version : ℕ
  pub roles : List (String × Role)
  pub actions : List (String × ActionSpec)
  pub denials : List Rule

-- `whole` is the dict itself, for the rules.
pub record Identity : Type 0 where
  pub id : String
  pub authenticated : Bool
  pub session_expires_at : ℕ
  pub roles : List String
  pub whole : Fields

pub record Request : Type 0 where
  pub request_id : String
  pub action : String
  pub resource : Fields
  pub environment : String
  pub parameters : Fields

pub record Approval : Type 0 where
  pub valid : Bool
  pub approver : String

pub data Reason : Type 0 where
  not_authenticated session_expired action_not_listed role_not_authorized : Reason
  resource_not_permitted environment_out_of_scope approval_required permitted : Reason
  missing_parameter invalid_type unknown_parameter unknown_operator denied_by : String → Reason

pub record Decision : Type 0 where
  pub permit : Bool
  pub reason : Reason
  pub request_id : String
  pub actor : String
  pub action : String
  pub policy_version : ℕ
  pub timestamp : ℕ

abbrev param_matches_type : ParamSpec → Json → Bool
param_matches_type spec (bool b) = spec.type == "boolean"
param_matches_type spec (text t) = spec.type == "string"
param_matches_type spec (num n) = spec.type == "integer"
param_matches_type spec _ = false

abbrev check_spec : String → ParamSpec → Option Json → Option Reason
check_spec name spec none = if spec.required then some (missing_parameter name) else none
check_spec name spec (some value) =
    if not (param_matches_type spec value) then some (invalid_type name) else none

-- The loop over the schema.
unfoldable pub check_schema : List (String × ParamSpec) → Fields → Option Reason
check_schema [] params = none
check_schema ((name, spec) ∷ schema) params =
    let rest = check_schema schema params in
    elim (check_spec name spec (Json.get name params)) [ none ↦ rest | some why ↦ some why ]

-- The loop over the parameters.
unfoldable pub check_names : List (String × ParamSpec) → Fields → Option Reason
check_names schema end = none
check_names schema (field name value rest) =
    let others = check_names schema rest in
    if not (is_some (lookup name schema)) then some (unknown_parameter name) else others

unfoldable pub validate_parameters : ActionSpec → Fields → Option Reason
unfolding check_schema check_names
validate_parameters spec params = elim (check_schema spec.parameters params) [
  | some why ↦ some why
  | none ↦ check_names spec.parameters params
]

abbrev pub allows : String → Option Role → Bool
allows action none = false
allows action (some r) = contains action r.allow

-- The first of the identity's roles that allows the action.
unfoldable pub resolve_role : Policy → List String → String → Option Role
resolve_role policy [] action = none
resolve_role policy (name ∷ names) action =
    let rest = resolve_role policy names action in
    if allows action (lookup name policy.roles) then lookup name policy.roles else rest

-- Separation of duties: the approver is another one.
abbrev pub approval_ok : Option Approval → String → Bool
approval_ok none actor = false
approval_ok (some a) actor = a.valid && not (a.approver == actor)

unfoldable pub look : List String → Json → Json
unfolding Json.get
look [] v = v
look (part ∷ parts) (obj d) = elim (Json.get part d) [ none ↦ null | some v ↦ look parts v ]
look (part ∷ parts) _ = null

-- `actual in expected`, where the rule's value is a list.
unfoldable pub among : Json → Items → Bool
unfolding equals
among v nil = false
among v (item w ws) = equals w v || among v ws

abbrev items_of : Json → Items
items_of (arr xs) = xs
items_of _ = nil

-- What a condition or a rule says of a request; `unknown` is the PolicyError of an operator.
pub data Test : Type 0 where
  yes no : Test
  unknown : String → Test

abbrev test : Bool → Test
test true = yes
test false = no

unfoldable pub holds : Condition → Json → Test
unfolding among look
holds c ctx =
    let actual = look c.path ctx in
    if c.op == "eq"
    then test (equals actual c.value)
    else if c.op == "neq"
    then test (not (equals actual c.value))
    else if c.op == "in"
    then test (among actual (items_of c.value))
    else if c.op == "not_in"
    then test (not (among actual (items_of c.value)))
    else unknown c.op

-- The loop over the conditions, left at the first that fails.
unfoldable pub matches : List Condition → Json → Test
unfolding holds
matches [] ctx = yes
matches (c ∷ cs) ctx =
    let rest = matches cs ctx in
    elim (holds c ctx) [ unknown op ↦ unknown op | no ↦ no | yes ↦ rest ]

-- The loop over the denial rules.
unfoldable pub first_denial : List Rule → Json → Option Reason
unfolding matches
first_denial [] ctx = none
first_denial (r ∷ rules) ctx =
    let rest = first_denial rules ctx in
    elim (matches r.all ctx) [
      | unknown op ↦ some (unknown_operator op)
      | yes ↦ some (denied_by r.reason)
      | no ↦ rest
    ]

abbrev is_valid : Option Approval → Bool
is_valid none = false
is_valid (some a) = a.valid

unfoldable pub context : Request → Identity → Option Approval → Json
context q i approval = obj (
    field "environment" (text q.environment) (
      field "resource" (obj q.resource) (
        field "actor" (obj i.whole)
          (field "approval" (obj (field "valid" (bool (is_valid approval)) end)) end))))

abbrev pub resource_type : Option Json → Option String
resource_type (some (text t)) = some t
resource_type _ = none

abbrev pub is_listed : Option String → List String → Bool
is_listed none types = false
is_listed (some t) types = contains t types

abbrev pub in_scope : Option (List String) → String → Bool
in_scope none environment = true
in_scope (some environments) environment = contains environment environments

module _ (p : Policy) (q : Request) (approval : Option Approval) where
  -- 4. to 7.: scope, parameters, approval, denials; `none` permits.
  unfoldable pub refuse_scoped : Identity → ActionSpec → Role → Option Reason
  unfolding validate_parameters first_denial context
  refuse_scoped i spec role =
      if not (is_listed (resource_type (Json.get "type" q.resource)) spec.resource_types)
      then some resource_not_permitted
      else if not (in_scope role.environments q.environment)
      then some environment_out_of_scope
      else elim (validate_parameters spec q.parameters) [
        | some why ↦ some why
        | none ↦
            if contains q.action role.requires_approval && not (approval_ok approval i.id)
            then some approval_required
            else first_denial p.denials (context q i approval)
      ]

  abbrev refuse_role : Identity → ActionSpec → Option Role → Option Reason
  refuse_role i spec none = some role_not_authorized
  refuse_role i spec (some role) = refuse_scoped i spec role

  abbrev refuse_action : Identity → Option ActionSpec → Option Reason
  refuse_action i none = some action_not_listed
  refuse_action i (some spec) = refuse_role i spec (resolve_role p i.roles q.action)

  -- 1. to 3.: authenticated, in the catalogue, authorized by a role.
  unfoldable pub refuse : ℕ → Option Identity → Option Reason
  unfolding resolve_role refuse_scoped lookup
  refuse now none = some not_authenticated
  refuse now (some i) =
      if not i.authenticated
      then some not_authenticated
      else if leb i.session_expires_at now
      then some session_expired
      else refuse_action i (lookup q.action p.actions)

  abbrev actor_of : Option Identity → String
  actor_of none = "anonymous"
  actor_of (some i) = i.id

  abbrev conclude : ℕ → Option Identity → Option Reason → Decision
  conclude now o none = record {
    permit = true;
    reason = permitted;
    request_id = q.request_id;
    actor = actor_of o;
    action = q.action;
    policy_version = p.version;
    timestamp = now;
  }
  conclude now o (some why) = record {
    permit = false;
    reason = why;
    request_id = q.request_id;
    actor = actor_of o;
    action = q.action;
    policy_version = p.version;
    timestamp = now;
  }

  unfoldable pub evaluate : ℕ → Option Identity → Decision
  unfolding refuse
  evaluate now o = conclude now o (refuse now o)
