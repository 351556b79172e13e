-- ===== src/Broker/Store/Ops/Policy.antt =====
-- Policy versions over every history of store.py.
use eight_call.Prelude.{
  refl, Bool, true, not, ◌&&◌, ◌==◌, ℕ, ◌≤◌, ◌<◌, String, ◌≡◌, List, [], ◌∷◌, Option, none, some,
  arith, find-upsert,
}
use eight_call.Broker.Json.{Fields}
use eight_call.Broker.Result.{ok, err, denied, policy_rollback}
use eight_call.Broker.Store.{Store}
use eight_call.Broker.Store.Meta
use eight_call.Broker.Store.Meta.{get_meta}
use eight_call.Broker.Store.Ops.{Op, apply, run, accept_policy_version, set_meta}

-- A version at least `v` is on record.
abbrev AtLeast : ℕ → Option ℕ → Type 0
AtLeast v none = ⊥
AtLeast v (some w) = v ≤ w

-- `set_meta` is called for other keys than the policy's version, as the gate calls it.
abbrev pub keeps_version : List Op → Bool
keeps_version [] = true
keeps_version (set_meta key v ∷ ops) = not (key == "policy_version") && keeps_version ops
keeps_version (_ ∷ ops) = keeps_version ops

split :
    (op : Op) (ops : List Op)
    → keeps_version (op ∷ ops) ≡ true
    → (keeps_version (op ∷ []) ≡ true) × (keeps_version ops ≡ true)
split (set_meta key v) ops h = ground arith
split _ ops h = (refl, h)

module _ (digest : Fields → String) (actual : String → Option String) where
  apply-AtLeast :
      (v : ℕ) (op : Op) (s : Store)
      → AtLeast v (get_meta "policy_version" s)
      → keeps_version (op ∷ []) ≡ true
      → AtLeast v (get_meta "policy_version" (apply digest actual op s))
  unfolding apply get_meta
  apply-AtLeast v (accept_policy_version w) s h e = grind (arith, find-upsert)
  apply-AtLeast v (set_meta key w) s h e = grind (
    arith,
    e,
    find-upsert Meta.entry_key "policy_version" (record { key = key; value = w }) s.meta,
  )
  apply-AtLeast v _ s h e = ground arith

  run-AtLeast :
      (v : ℕ) (ops : List Op) (s : Store)
      → AtLeast v (get_meta "policy_version" s)
      → keeps_version ops ≡ true
      → AtLeast v (get_meta "policy_version" (run digest actual ops s))
  unfolding run
  run-AtLeast v [] s h e = h
  run-AtLeast v (op ∷ ops) s h e =
      let (here, later) = split op ops e in
      run-AtLeast v ops (apply digest actual op s) (apply-AtLeast v op s h here) later

  accepted :
      (v : ℕ) (s : Store)
      → (Meta.accept_policy_version v s).0 ≡ ok tt
      → AtLeast v (get_meta "policy_version" (Meta.accept_policy_version v s).1)
  unfolding Meta.accept_policy_version get_meta
  accepted v s h = grind (arith, find-upsert)

  refused :
      (v w : ℕ) (s : Store)
      → AtLeast v (get_meta "policy_version" s)
      → w < v
      → Meta.accept_policy_version w s ≡ (err (denied policy_rollback), s)
  unfolding Meta.accept_policy_version
  refused v w s h lt = ground arith

  -- After a policy version was accepted, every lower version is refused as a rollback, whatever was
  -- done in between but setting the version by hand, and the refusal changes nothing.
  pub policy-rollback :
      (v w : ℕ) (s : Store) (ops : List Op)
      → (Meta.accept_policy_version v s).0 ≡ ok tt
      → w < v
      → keeps_version ops ≡ true
      → let s' = run digest actual ops (Meta.accept_policy_version v s).1 in
        Meta.accept_policy_version w s' ≡ (err (denied policy_rollback), s')
  policy-rollback v w s ops h lt kept =
      refused v w (run digest actual ops (Meta.accept_policy_version v s).1)
        (run-AtLeast v ops (Meta.accept_policy_version v s).1 (accepted v s h) kept) lt
