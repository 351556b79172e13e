-- ===== src/Broker/Gate/Authorize/Frames.antt =====
-- Which tables each step of gate.py's `authorize` writes.
use eight_call.Prelude.{
  ℕ, String, ◌≡◌, true, false, some, arith, is_some, find, find-append, find-upsert, eq_refl,
}
use eight_call.Broker.Json.{Fields}
use eight_call.Broker.Result.{ok}
use eight_call.Broker.Store.{Store, token_key, nonce_key}
use eight_call.Broker.Store.Leases.{Leased, acquire_lease, lease_of, current_fencing}
use eight_call.Broker.Store.Requests.{record_request, is_recorded}
use eight_call.Broker.Store.Decisions.{append_decision, last_id}
use eight_call.Broker.Store.Tokens.{mint_token, has_fence}

module _ (s t : Store) where
  pub record-frame :
      (d n c a id : String) (now : ℕ)
      → record_request d n c a id now s ≡ (ok tt, t)
      → (is_recorded d n s ≡ false)
        × (is_some (find nonce_key n t.requests) ≡ true)
        × (t ≡ record s { requests = t.requests })
  unfolding record_request is_recorded
  record-frame d n c a id now h = grind (arith, find-append, eq_refl n)

  pub lease-frame :
      (id o a : String) (ttl : ℕ) (k : String) (now : ℕ) (l : Leased)
      → acquire_lease id o a ttl k now s ≡ (ok l, t)
      → (t ≡ record s { leases = t.leases })
        × (l.fencing ≡ current_fencing id t)
        × (has_fence l.fencing (lease_of id t) ≡ true)
  unfolding acquire_lease current_fencing lease_of
  lease-frame id o a ttl k now l h = grind (arith, find-upsert, eq_refl id)

  pub audit-frame :
      (digest : Fields → String) (body : Fields) (now : ℕ) (id : String)
      → append_decision digest body now s ≡ (ok id, t)
      → (t ≡ record s { decisions = t.decisions; checkpoint = some id })
        × (last_id t.decisions ≡ id)
  unfolding append_decision
  audit-frame digest body now id h = ground arith

  pub mint-frame :
      (d i id a : String) (f e : ℕ)
      → mint_token d i id a f e s ≡ (ok tt, t)
      → (t ≡ record s { tokens = t.tokens })
        × (find token_key d t.tokens
            ≡ some (record {
              token_digest = d;
              decision_id = i;
              target_id = id;
              action = a;
              fencing = f;
              expires_ts = e;
              used = false;
            }))
  unfolding mint_token
  mint-frame d i id a f e h = grind (arith, find-append, eq_refl d)
