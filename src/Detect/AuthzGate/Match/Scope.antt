-- ===== src/Detect/AuthzGate/Match/Scope.antt =====
-- What authz_gate.py's `_target_matches` and `_params_within` let through.
use eight_call.Prelude.{
  ℕ, String, ◌≡◌, ◌≢◌, refl, ap, sym, subst, ◌∙◌, true, ◌⊎◌, inl, inr, List, [], ◌∷◌, ◌++◌, Option,
  none, some, ◌==◌, arith, Bool-cases, Option-cases, eq_iff,
}
use eight_call.Broker.Json
use eight_call.Broker.Json.{Json, Fields, field, end}
use eight_call.Broker.Registry.Params.{codes}
use eight_call.Detect.AuthzGate.Match.{
  before_star, starts_with, target_matches, equals, params_within,
}

ends_in_star : (cs p : List ℕ) → before_star cs ≡ some p → cs ≡ p ++ b'*' ∷ []
unfolding before_star
ends_in_star [] p h = absurd (cc)
ends_in_star (c ∷ []) p h = ground arith
ends_in_star (c ∷ d ∷ cs) p h = elim (Option-cases (before_star (d ∷ cs))) [
  | inl missing ↦ absurd (ground arith)
  | inr (q, found) ↦
      let same : c ∷ q ≡ p = ground arith in
      ap (λ (xs : List ℕ). c ∷ xs) (ends_in_star (d ∷ cs) q found)
      ∙ ap (λ (xs : List ℕ). xs ++ b'*' ∷ []) same
]

rest_of : (p t : List ℕ) → starts_with p t ≡ true → (rest : List ℕ) × (t ≡ p ++ rest)
unfolding starts_with
rest_of [] t h = (t, refl)
rest_of (c ∷ cs) [] h = absurd (cc)
rest_of (c ∷ cs) (d ∷ ds) h =
    let (rest, same) = rest_of cs ds (ground arith) in
    let first : c ≡ d = ground arith in (rest, rw (first, same) refl)

-- A pattern covers a target only if it is the target, or is a literal text and a star where the target
-- begins with that text, which is not empty: a bare star covers nothing.
pub target_matches_inv :
    (pattern target : String)
    → target_matches pattern target ≡ true
    → (pattern ≡ target)
      ⊎ ((prefix rest : List ℕ) × (prefix ≢ [])
          × (codes pattern ≡ prefix ++ b'*' ∷ [])
          × (codes target ≡ prefix ++ rest))
unfolding target_matches
target_matches_inv pattern target h = elim (Option-cases (before_star (codes pattern))) [
  | inl exact ↦ inl (ground (arith, eq_iff pattern target))
  | inr ([], star) ↦ absurd (ground arith)
  | inr (c ∷ cs, star) ↦
      let (rest, same) = rest_of (c ∷ cs) (codes target) (ground arith) in
      inr (c ∷ cs, rest, λ e. cc, ends_in_star (codes pattern) (c ∷ cs) star, same)
]

-- What a grant's parameter must be for a requested one.
abbrev pub IsPermitted : Json → Option Json → Type 0
IsPermitted value none = ⊥
IsPermitted value (some expected) = equals expected value ≡ true

-- Requested parameters are within a grant only if each of them is one of the grant's, with an equal
-- value.
pub params_within_inv :
    (allowed requested : Fields) (key : String) (value : Json)
    → params_within allowed requested ≡ none
    → Json.get key requested ≡ some value
    → IsPermitted value (Json.get key allowed)
unfolding params_within Json.get
params_within_inv allowed end key value h found = absurd (cc)
params_within_inv allowed (field k v rest) key value h found =
    elim (Option-cases (Json.get k allowed)) [
      | inl missing ↦ absurd (ground arith)
      | inr (w, known) ↦ elim (Bool-cases (equals w v)) [
        | inr differs ↦ absurd (ground arith)
        | inl same ↦ elim (Bool-cases (k == key)) [
          | inl here ↦
              let one : v ≡ value = ground (arith, here) in
              subst (λ x. IsPermitted value (Json.get x allowed)) ((eq_iff k key).0 here)
                (subst (λ o. IsPermitted value o) (sym known)
                  (subst (λ x. equals w x ≡ true) one same))
          | inr other ↦ params_within_inv allowed rest key value (ground arith) (ground arith)
        ]
      ]
    ]
