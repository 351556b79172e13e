-- ===== src/Broker/Store/Ops/Identity.antt =====
-- The pinned identity of a target over every history of store.py.
use eight_call.Prelude.{
  String, ◌≡◌, refl, Bool, true, not, ◌&&◌, List, [], ◌∷◌, Option, none, some, ◌==◌, arith, find,
  find-update, find-append, key-find, eq_iff, Option-cases, inl, inr,
}
use eight_call.Broker.Json.{Fields}
use eight_call.Broker.Store.{Store, Target, target_key, approved}
use eight_call.Broker.Store.Targets.{target}
use eight_call.Broker.Store.Ops.{
  Op, apply, run, accept_policy_version, add_target, approve_target, revoke_target,
  set_target_address, set_target_endpoint,
}

-- The target is approved, and `fingerprint` is pinned.
abbrev pub IsPinned : String → Option Target → Type 0
IsPinned fingerprint none = ⊥
IsPinned fingerprint (some r) = (r.state ≡ approved) × (r.key_fingerprint ≡ some fingerprint)

abbrev pub no_revocation : String → List Op → Bool
no_revocation id [] = true
no_revocation id (revoke_target t now ∷ ops) = not (t == id) && no_revocation id ops
no_revocation id (_ ∷ ops) = no_revocation id ops

split :
    (id : String) (op : Op) (ops : List Op)
    → no_revocation id (op ∷ ops) ≡ true
    → (no_revocation id (op ∷ []) ≡ true) × (no_revocation id ops ≡ true)
split id (revoke_target t now) ops h = ground arith
split id (accept_policy_version v) ops h = (refl, h)
split id _ ops h = (refl, h)

module _ (digest : Fields → String) (actual : String → Option String) where
  apply-IsPinned :
      (id fp : String) (op : Op) (s : Store)
      → IsPinned fp (target id s)
      → no_revocation id (op ∷ []) ≡ true
      → IsPinned fp (target id (apply digest actual op s))
  unfolding apply target
  apply-IsPinned id fp (add_target t a l k now) s h e = grind (arith, find-update, find-append)
  apply-IsPinned id fp (approve_target t k f d now) s h e =
      elim (Option-cases (find target_key id s.targets)) [
        | inl missing ↦ absurd (rw missing at h)
        | inr (r, found) ↦ grind (
          arith,
          find-update,
          eq_iff t id,
          eq_iff r.target_id t,
          eq_iff r.target_id id,
          key-find target_key id s.targets found,
          eq_iff fp f,
        )
      ]
  apply-IsPinned id fp (revoke_target t now) s h e =
      elim (Option-cases (find target_key id s.targets)) [
        | inl missing ↦ absurd (rw missing at h)
        | inr (r, found) ↦ grind (
          arith,
          find-update,
          eq_iff t id,
          eq_iff r.target_id t,
          eq_iff r.target_id id,
          key-find target_key id s.targets found,
        )
      ]
  apply-IsPinned id fp (set_target_address t a) s h e = grind (arith, find-update)
  apply-IsPinned id fp (set_target_endpoint t p) s h e = grind (arith, find-update)
  apply-IsPinned id fp _ s h e = grind (arith, find-update)

  -- Once a target is approved with a fingerprint, it stays approved with that fingerprint until it is
  -- revoked: no discovery, no change of address or port, and no second approval replaces the pin.
  pub run-IsPinned :
      (id fp : String) (ops : List Op) (s : Store)
      → IsPinned fp (target id s)
      → no_revocation id ops ≡ true
      → IsPinned fp (target id (run digest actual ops s))
  unfolding run
  run-IsPinned id fp [] s h e = h
  run-IsPinned id fp (op ∷ ops) s h e =
      let (now, later) = split id op ops e in
      run-IsPinned id fp ops (apply digest actual op s) (apply-IsPinned id fp op s h now) later
