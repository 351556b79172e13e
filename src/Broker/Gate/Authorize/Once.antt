-- ===== src/Broker/Gate/Authorize/Once.antt =====
-- A nonce is allowed once by gate.py's `authorize`.
use eight_call.Prelude.{
  String, ◌≡◌, ◌≢◌, ap, ◌∙◌, subst, true, false, List, Option, arith, is_some, find, find-update,
}
use eight_call.Broker.Result.{ok}
use eight_call.Broker.Store.{Store, nonce_key}
use eight_call.Broker.Store.Requests.{settle_request, is_recorded}
use eight_call.Broker.Store.Ops.Replay.{run-has_nonce}
use eight_call.Broker.Store.Ops.History.{Reaches}
use eight_call.Broker.Gate.{Request, TrustedKey, Policy, Host}
use eight_call.Broker.Gate.Records.{Times, Allowed, allow, request_fields, record_nonce}
use eight_call.Broker.Gate.Authorize.{authorize}
use eight_call.Broker.Gate.Authorize.Steps.{IsIssued, authorize-inv}
use eight_call.Broker.Gate.Authorize.Frames.{record-frame}
use eight_call.Broker.Gate.Authorize.Issued.{leased, audited, minted_row, fresh_nonce}

module _ (c : Host) (keys : List TrustedKey) (policy : Policy) (gate_key : Option String) where
  nonce_kept :
      (now : Times) (owner : String) (r : Request) (signature : String) (s s' : Store) (a : Allowed)
      → IsIssued c keys policy gate_key now owner r signature s s' a
      → is_some (find nonce_key r.nonce s'.requests) ≡ true
  unfolding record_nonce settle_request
  nonce_kept now owner r signature s s' a h =
      let p =
        record-frame s h.recorded_store (c.digest (request_fields r)) r.nonce r.caller r.action
          r.target_id now.recorded h.recorded in
      let same : h.minted_store.requests ≡ h.recorded_store.requests =
        ap (λ (t : Store). t.requests)
          (minted_row c keys policy gate_key now owner r signature s s' a h).0
        ∙ ap (λ (t : Store). t.requests)
            (audited c keys policy gate_key now owner r signature s s' a h).0
        ∙ ap (λ (t : Store). t.requests)
            (leased c keys policy gate_key now owner r signature s s' a h).0 in
      rw h.left (grind (arith, find-update, same, p.1))

module _ (actual : String → Option String) (c : Host) (keys keys' : List TrustedKey)
    (policy policy' : Policy) (gate_key gate_key' : Option String) where
  -- One nonce, one allowance: after a call that allowed, whatever else is done to the store, no call
  -- under any keys and policy and at any time allows a request with the same nonce.
  pub authorize-once :
      (now now' : Times) (owner owner' : String) (r r' : Request) (signature signature' : String)
      (s s' t t' : Store) (a b : Allowed)
      → authorize c keys policy gate_key now owner r signature s ≡ (ok (allow a), s')
      → Reaches c.digest actual s' t
      → r'.nonce ≡ r.nonce
      → authorize c keys' policy' gate_key' now' owner' r' signature' t ≢ (ok (allow b), t')
  unfolding is_recorded
  authorize-once now now' owner owner' r r' signature signature' s s' t t' a b first reach same
        again =
      let h : IsIssued c keys policy gate_key now owner r signature s s' a =
        authorize-inv c keys policy gate_key now owner r signature s s' a first in
      let h' : IsIssued c keys' policy' gate_key' now' owner' r' signature' t t' b =
        authorize-inv c keys' policy' gate_key' now' owner' r' signature' t t' b again in
      let seen : is_some (find nonce_key r.nonce t.requests) ≡ true =
        subst (λ (u : Store). is_some (find nonce_key r.nonce u.requests) ≡ true) reach.leaves
          (run-has_nonce c.digest actual r.nonce reach.ops s'
            (nonce_kept c keys policy gate_key now owner r signature s s' a h)) in
      let new : is_recorded (c.digest (request_fields r')) r'.nonce t ≡ false =
        (fresh_nonce c keys' policy' gate_key' now' owner' r' signature' t t' b h').0 in
      ground (arith, new, seen, same)
