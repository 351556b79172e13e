-- ===== src/Skills/EvalPolicy/Permit.antt =====
-- When eval_policy.py's `evaluate` permits.
use eight_call.Prelude.{
  ◌≢◌, ◌⊎◌, false, ℕ, ◌<◌, String, ◌≡◌, true, inl, inr, List, [], ◌∷◌, Option, none, some, arith,
  contains, Bool-cases,
}
use eight_call.Broker.Json
use eight_call.Broker.Json.{Json, Fields}
use eight_call.Broker.Registry.{lookup}
use eight_call.Skills.EvalPolicy.{
  Policy, Request, Identity, Approval, ActionSpec, Role, resolve_role, allows, is_listed,
  resource_type, in_scope, context, validate_parameters, first_denial,
}

module _ (p : Policy) (q : Request) (approval : Option Approval) (now : ℕ) (i : Identity) where
  -- Authenticated, in the catalogue, authorized by a role that allows the action, within its scope,
  -- with parameters of the schema, not denied by a rule, and, if the role requires it for the action,
  -- with a valid approval by another one than the actor.
  pub record IsPermitted : Type 0 where
    pub spec : ActionSpec
    pub role : Role
    pub authenticated : i.authenticated ≡ true
    pub unexpired : now < i.session_expires_at
    pub listed : lookup q.action p.actions ≡ some spec
    pub authorized : resolve_role p i.roles q.action ≡ some role
    pub resource : is_listed (resource_type (Json.get "type" q.resource)) spec.resource_types ≡ true
    pub scope : in_scope role.environments q.environment ≡ true
    pub parameters : validate_parameters spec q.parameters ≡ none
    pub approved :
        (contains q.action role.requires_approval ≡ false)
        ⊎ ((a : Approval) × (approval ≡ some a) × (a.valid ≡ true) × (a.approver ≢ i.id))
    pub undenied : first_denial p.denials (context q i approval) ≡ none

-- The role that is found allows the action.
pub resolve_role-allows :
    (p : Policy) (names : List String) (action : String) (role : Role)
    → resolve_role p names action ≡ some role
    → contains action role.allow ≡ true
unfolding resolve_role
resolve_role-allows p [] action role h = absurd (cc)
resolve_role-allows p (n ∷ ns) action role h =
    elim (Bool-cases (allows action (lookup n p.roles))) [
      | inr other ↦ resolve_role-allows p ns action role (ground arith)
      | inl here ↦ ground arith
    ]
