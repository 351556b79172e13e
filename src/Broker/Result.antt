-- ===== src/Broker/Result.antt =====
-- What a call of the broker (plasma/broker/broker) returns or raises, with the state that it leaves.
use eight_call.Prelude.{String, ◌≡◌, refl, ◌⊎◌, inl, inr}

-- The reason strings of `Denied`.
pub data Reason : Type 0 where
  policy_rollback unknown_target malformed_public_key fingerprint_mismatch : Reason
  target_already_approved already_revoked target_not_approved : Reason
  enrollment_conflict_one_target_one_pod not_enrolled lease_held_by_other replay : Reason
  stale_fencing token_invalid_or_used : Reason
  no_trusted_keys malformed_trusted_keys malformed_policy_envelope policy_signer_unknown : Reason
  crypto_unavailable policy_signature_invalid malformed_request unknown_caller bad_signature :
      Reason
  gate_key_unavailable stale_request expired_request policy_digest_mismatch : Reason
  capability_refused not_granted target_not_enrolled enrollment_disabled : Reason
  capability_not_granted_to_pod enrollment_revision_mismatch target_disabled : Reason
  token_malformed bad_token_signature token_expired token_scope_mismatch : Reason
  chain_verification_failed witness_rollback witness_unavailable : Reason
  no_transport_endpoint gate_transport_identity_unavailable target_unreachable : Reason
  target_identity_mismatch target_identity_unverifiable : Reason

pub data Error : Type 0 where
  denied : Reason → Error
  -- sqlite3.IntegrityError, which the caller does not catch.
  integrity : Error
  -- grant.py's PermissionError.
  permission : String → Error
  -- An exception of a capability's implementation.
  action_failed : String → Error
  -- An OSError that nothing catches.
  os_error : Error
  -- The process was killed at this failpoint of failpoints.py.
  killed : String → Error

pub data Result {ℓ} (A : Type ℓ) : Type ℓ where
  ok : A → Result A
  err : Error → Result A

-- A method of an object with state `S`: what was written before a raise stays written.
abbrev pub Action {ℓ} : Type ℓ → Type ℓ → Type ℓ
Action S A = S → Result A × S

module _ {ℓ} {S A : Type ℓ} where
  abbrev pub pure : A → Action S A
  pure a s = (ok a, s)

  abbrev pub raise : Error → Action S A
  raise e s = (err e, s)

  abbrev pub deny : Reason → Action S A
  deny r s = (err (denied r), s)

  abbrev pub gets : (S → A) → Action S A
  gets f s = (ok (f s), s)

module _ {ℓ} {S A B : Type ℓ} where
  abbrev pub continue : (A → Action S B) → Result A × S → Result B × S
  continue f (ok a, s) = f a s
  continue f (err e, s) = (err e, s)

  infixl 5 ◌>>=◌ ◌>>◌
  abbrev pub ◌>>=◌ : Action S A → (A → Action S B) → Action S B
  ◌>>=◌ m f s = continue f (m s)

  abbrev pub ◌>>◌ : Action S A → Action S B → Action S B
  m >> n = m >>= λ _. n

-- To split on what a call returns or raises, with the state that it leaves.
pub Action-cases {ℓ} :
    {S A : Type ℓ} (x : Result A × S)
    → ((a : A) × (s : S) × (x ≡ (ok a, s))) ⊎ ((e : Error) × (s : S) × (x ≡ (err e, s)))
Action-cases (ok a, s) = inl (a, s, refl)
Action-cases (err e, s) = inr (e, s, refl)
