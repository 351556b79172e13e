-- ===== src/Broker/Gate/Authorize/Sound.antt =====
-- What an allowance of gate.py's `authorize` rests on.
use eight_call.Prelude.{
  ℕ, ◌≤◌, String, ◌≡◌, refl, true, false, List, Option, none, some, ◌==◌, arith, contains, eq_iff,
  Option-cases, inl, inr, ◌⊎◌, ap, ◌∙◌,
}
use eight_call.Broker.Json.{Fields}
use eight_call.Broker.Store.{Store, Enrollment, Target, approved, is_set}
use eight_call.Broker.Store.Targets.{target}
use eight_call.Broker.Store.Enrollments.{enrollment_by_target}
use eight_call.Broker.Registry.Params.{Checked, RegistryError, valid, refused, validate_params}
use eight_call.Broker.Gate.{Request, TrustedKey, PolicyGrant, Policy, Host, request_keys, same_keys}
use eight_call.Broker.Gate.Trust.{public_for, grant_for}
use eight_call.Broker.Gate.Authorize.{
  passed, vetted, is_stale, screen_fresh, screen, vet_enrollment, vet,
}

Checked-cases :
    (x : Checked) → ((e : RegistryError) × (x ≡ refused e)) ⊎ ((p : Fields) × (x ≡ valid p))
Checked-cases (refused e) = inl (e, refl)
Checked-cases (valid p) = inr (p, refl)

-- An actionable target.
abbrev pub IsUsable : Option Target → Type 0
IsUsable none = ⊥
IsUsable (some t) =
    (t.state ≡ approved) × (is_set t.public_key ≡ true) × ((t.status == "enabled") ≡ true)

module _ (c : Host) (keys : List TrustedKey) (policy : Policy) (gate_key : Option String) where
  -- The request is of the schema, signed by the caller's enabled key, and fresh.
  pub record IsScreened (now : ℕ) (r : Request) (signature : String) : Type 0 where
    pub schema : same_keys r.keys request_keys ≡ true
    pub public : String
    pub known : public_for keys r.caller ≡ some public
    pub signed : c.verify_request public r signature ≡ some true
    pub fresh : is_stale policy now r ≡ false
    pub unexpired : now ≤ r.expiry

  fresh-passed :
      (now : ℕ) (r : Request)
      → screen_fresh c keys policy gate_key now r ≡ passed
      → (is_stale policy now r ≡ false) × (now ≤ r.expiry)
  unfolding screen_fresh
  fresh-passed now r h = ground arith

  pub screen-passed :
      (now : ℕ) (r : Request) (signature : String)
      → screen c keys policy gate_key now r signature ≡ passed
      → IsScreened now r signature
  unfolding screen
  screen-passed now r signature h = elim (Option-cases (public_for keys r.caller)) [
    | inl unknown ↦ absurd (ground arith)
    | inr (public, known) ↦ record {
      schema = ground arith;
      public = public;
      known = known;
      signed = ground arith;
      fresh = ground (arith, fresh-passed now r);
      unexpired = ground (arith, fresh-passed now r);
    }
  ]

  -- The request is bound to this policy and to the current enrollment of an actionable target, its
  -- capability and parameters are registered, and the policy grants it.
  pub record IsVetted (r : Request) (s : Store) (params : Fields) (g : PolicyGrant) (e : Enrollment)
      : Type 0 where
    pub bound : r.policy_digest ≡ c.policy_digest policy
    pub registered : validate_params r.action r.params ≡ valid params
    pub granted : grant_for policy r.caller r.action r.target_id ≡ some g
    pub enrolled : enrollment_by_target r.target_id s ≡ some e
    pub enabled : (e.status == "enabled") ≡ true
    pub capable : contains r.action e.caps ≡ true
    pub current : r.enrollment_revision ≡ e.revision
    pub usable : IsUsable (target r.target_id s)

  enrollment-vetted :
      (params params' : Fields) (g g' : PolicyGrant) (r : Request) (s : Store) (e : Enrollment)
      → vet_enrollment c keys policy gate_key params g r s ≡ vetted params' g' e
      → (params ≡ params')
        × (g ≡ g')
        × (enrollment_by_target r.target_id s ≡ some e)
        × ((e.status == "enabled") ≡ true)
        × (contains r.action e.caps ≡ true)
        × (r.enrollment_revision ≡ e.revision)
        × IsUsable (target r.target_id s)
  unfolding vet_enrollment
  enrollment-vetted params params' g g' r s e h = (
    ground arith,
    ground arith,
    ground arith,
    ground arith,
    ground arith,
    ground arith,
    ground arith,
  )

  pub vet-vetted :
      (r : Request) (s : Store) (params : Fields) (g : PolicyGrant) (e : Enrollment)
      → vet c keys policy gate_key r s ≡ vetted params g e
      → IsVetted r s params g e
  unfolding vet
  vet-vetted r s params g e h = elim (Checked-cases (validate_params r.action r.params)) [
    | inl (x, bad) ↦ absurd (ground arith)
    | inr (p, good) ↦ elim (Option-cases (grant_for policy r.caller r.action r.target_id)) [
      | inl no_grant ↦ absurd (ground arith)
      | inr (q, covered) ↦
          let rest : vet_enrollment c keys policy gate_key p q r s ≡ vetted params g e =
            ground arith in
          let (same_p, same_g, enrolled, enabled, capable, current, usable) =
            enrollment-vetted p params q g r s e rest in
          record {
            bound = ground (arith, eq_iff r.policy_digest (c.policy_digest policy));
            registered = good ∙ ap valid same_p;
            granted = covered ∙ ap some same_g;
            enrolled = enrolled;
            enabled = enabled;
            capable = capable;
            current = current;
            usable = usable;
          }
    ]
  ]
