-- ===== src/Broker/Store/Ops/Replay.antt =====
-- A request is accepted once, over every history of store.py.
use eight_call.Prelude.{
  ℕ, String, ◌≡◌, true, ◌⊎◌, inl, inr, List, [], ◌∷◌, Option, arith, is_some, find, find-update,
  find-append, eq_refl,
}
use eight_call.Broker.Json.{Fields}
use eight_call.Broker.Result.{ok, err, denied, replay}
use eight_call.Broker.Store.{Store, digest_key, nonce_key}
use eight_call.Broker.Store.Requests
use eight_call.Broker.Store.Requests.{is_recorded}
use eight_call.Broker.Store.Ops.{Op, apply, run, accept_policy_version}

module _ (digest : Fields → String) (actual : String → Option String) where
  apply-has_digest :
      (d : String) (op : Op) (s : Store)
      → is_some (find digest_key d s.requests) ≡ true
      → is_some (find digest_key d (apply digest actual op s).requests) ≡ true
  unfolding apply
  apply-has_digest d (accept_policy_version v) s h = grind (arith, find-update, find-append)
  apply-has_digest d _ s h = grind (arith, find-update, find-append)

  apply-has_nonce :
      (n : String) (op : Op) (s : Store)
      → is_some (find nonce_key n s.requests) ≡ true
      → is_some (find nonce_key n (apply digest actual op s).requests) ≡ true
  unfolding apply
  apply-has_nonce n (accept_policy_version v) s h = grind (arith, find-update, find-append)
  apply-has_nonce n _ s h = grind (arith, find-update, find-append)

  run-has_digest :
      (d : String) (ops : List Op) (s : Store)
      → is_some (find digest_key d s.requests) ≡ true
      → is_some (find digest_key d (run digest actual ops s).requests) ≡ true
  unfolding run
  run-has_digest d [] s h = h
  run-has_digest d (op ∷ ops) s h =
      run-has_digest d ops (apply digest actual op s) (apply-has_digest d op s h)

  pub run-has_nonce :
      (n : String) (ops : List Op) (s : Store)
      → is_some (find nonce_key n s.requests) ≡ true
      → is_some (find nonce_key n (run digest actual ops s).requests) ≡ true
  unfolding run
  run-has_nonce n [] s h = h
  run-has_nonce n (op ∷ ops) s h =
      run-has_nonce n ops (apply digest actual op s) (apply-has_nonce n op s h)

  recorded :
      (d n c a id : String) (now : ℕ) (s : Store)
      → (Requests.record_request d n c a id now s).0 ≡ ok tt
      → let s' = (Requests.record_request d n c a id now s).1 in
        (is_some (find digest_key d s'.requests) ≡ true)
        × (is_some (find nonce_key n s'.requests) ≡ true)
  unfolding Requests.record_request
  recorded d n c a id now s h = grind (arith, find-append, eq_refl d, eq_refl n)

  -- Once a request was recorded, then after whatever else is done, a request with the same digest or
  -- with the same nonce is refused as a replay and changes nothing.
  pub record-once :
      (d n c a id d' n' c' a' id' : String) (now now' : ℕ) (s : Store) (ops : List Op)
      → (Requests.record_request d n c a id now s).0 ≡ ok tt
      → (d' ≡ d) ⊎ (n' ≡ n)
      → let s' = run digest actual ops (Requests.record_request d n c a id now s).1 in
        Requests.record_request d' n' c' a' id' now' s' ≡ (err (denied replay), s')
  unfolding Requests.record_request
  record-once d n c a id d' n' c' a' id' now now' s ops h (inl same) = rw same (
      rw (
        run-has_digest d ops (Requests.record_request d n c a id now s).1
          (recorded d n c a id now s h).0))
  record-once d n c a id d' n' c' a' id' now now' s ops h (inr same) = ground (
    arith,
    run-has_nonce n ops (Requests.record_request d n c a id now s).1
        (recorded d n c a id now s h).1,
  )
