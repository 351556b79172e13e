-- ===== src/Broker/Store/Ops/Keys.antt =====
-- The keys of store.py's tables over every history.
use eight_call.Prelude.{
  not, ◌||◌, String, ◌≡◌, refl, true, List, [], ◌∷◌, Option, arith, is_some, find, is_distinct,
  is_distinct-update, is_distinct-append, is_distinct-upsert, find-update, find-append, key-find,
  eq_iff,
}
use eight_call.Broker.Json.{Fields}
use eight_call.Broker.Store.{
  Store, empty, target_key, pod_key, enrolled_key, lease_key, token_key, run_key, digest_key,
  nonce_key,
}
use eight_call.Broker.Store.Ops.{Op, apply, run, enroll, accept_policy_version}

-- The primary keys and UNIQUE columns.
pub record IsKeyed (s : Store) : Type 0 where
  pub targets : is_distinct target_key s.targets ≡ true
  pub pods : is_distinct pod_key s.enrollments ≡ true
  pub enrolled : is_distinct enrolled_key s.enrollments ≡ true
  pub leases : is_distinct lease_key s.leases ≡ true
  pub digests : is_distinct digest_key s.requests ≡ true
  pub nonces : is_distinct nonce_key s.requests ≡ true
  pub tokens : is_distinct token_key s.tokens ≡ true
  pub runs : is_distinct run_key s.runs ≡ true

-- The foreign key: an enrolled target is in the table of targets.
pub record IsReferenced (s : Store) : Type 0 where
  pub known :
      (id : String)
      → (not (is_some (find enrolled_key id s.enrollments))
          || is_some (find target_key id s.targets))
        ≡ true

ruleset distinct_rules = (is_distinct-update, is_distinct-append, is_distinct-upsert)

module _ (digest : Fields → String) (actual : String → Option String) where
  pub apply-IsKeyed : (op : Op) (s : Store) → IsKeyed s → IsKeyed (apply digest actual op s)
  unfolding apply
  apply-IsKeyed (accept_policy_version v) s h = grind (arith, distinct_rules)
  apply-IsKeyed _ s h = grind (arith, distinct_rules)

  pub run-IsKeyed : (ops : List Op) (s : Store) → IsKeyed s → IsKeyed (run digest actual ops s)
  unfolding run
  run-IsKeyed [] s h = h
  run-IsKeyed (op ∷ ops) s h = run-IsKeyed ops (apply digest actual op s) (apply-IsKeyed op s h)

  apply-IsReferenced :
      (op : Op) (s : Store) → IsReferenced s → IsReferenced (apply digest actual op s)
  unfolding apply
  apply-IsReferenced (accept_policy_version v) s h = record {
    known = λ id. grind (arith, h.known id, find-update, find-append);
  }
  apply-IsReferenced (enroll pod t caps now) s h = record {
    known = λ id. grind (arith, h.known id, find-append, key-find, eq_iff t id);
  }
  apply-IsReferenced _ s h = record {
    known = λ id. grind (arith, h.known id, find-update, find-append);
  }

  run-IsReferenced :
      (ops : List Op) (s : Store) → IsReferenced s → IsReferenced (run digest actual ops s)
  unfolding run
  run-IsReferenced [] s h = h
  run-IsReferenced (op ∷ ops) s h =
      run-IsReferenced ops (apply digest actual op s) (apply-IsReferenced op s h)

  -- Every history of the new database keeps the keys distinct in each table, so that no target is
  -- enrolled in two pods and no pod has two targets, and every enrolled target is in the table.
  pub keys_distinct :
      (ops : List Op)
      → IsKeyed (run digest actual ops empty) × IsReferenced (run digest actual ops empty)
  keys_distinct ops = (
    run-IsKeyed ops empty (
        unfold is_distinct in
        record {
          targets = refl;
          pods = refl;
          enrolled = refl;
          leases = refl;
          digests = refl;
          nonces = refl;
          tokens = refl;
          runs = refl;
        }),
    run-IsReferenced ops empty (record { known = λ id. unfold find in refl }),
  )
