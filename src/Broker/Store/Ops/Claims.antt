-- ===== src/Broker/Store/Ops/Claims.antt =====
-- Tokens are consumed once, under the current fence, over every history of store.py.
use eight_call.Prelude.{
  refl, eq_iff, ℕ, ◌≤◌, ◌<◌, String, ◌≡◌, ◌↔◌, Bool, true, false, List, [], ◌∷◌, Option, none, some,
  arith, is_some, find, find-update, find-append, count_key, key-find, ◌⊎◌,
}
use eight_call.Broker.Json.{Fields}
use eight_call.Broker.Result.{ok, err, denied, stale_fencing, token_invalid_or_used}
use eight_call.Broker.Store.{Store, TokenRow, Lease, token_key, run_key}
use eight_call.Broker.Store.Leases
use eight_call.Broker.Store.Leases.{Leased, lease_of, current_fencing}
use eight_call.Broker.Store.Tokens
use eight_call.Broker.Store.Tokens.{has_fence, is_claimable}
use eight_call.Broker.Store.Ops.{Op, apply, run, accept_policy_version}
use eight_call.Broker.Store.Ops.Keys.{IsKeyed, run-IsKeyed, apply-IsKeyed}
use eight_call.Broker.Store.Ops.Fences.{run-fencing, acquire-fence}

abbrev pub is_used : Option TokenRow → Bool
is_used none = false
is_used (some r) = r.used

abbrev pub is_open : String → String → ℕ → ℕ → Option TokenRow → Bool
is_open id action fencing now none = false
is_open id action fencing now (some r) = is_claimable id action fencing now r

-- A claim succeeds exactly when the tests of the transaction do.
pub claim-is_open :
    (d id action : String) (fencing : ℕ) (run_id pod : String) (now : ℕ) (s : Store)
    → IsKeyed s
    → ((Tokens.claim_run d id action fencing run_id pod now s).0 ≡ ok tt) ↔ (
        (has_fence fencing (lease_of id s) ≡ true)
        × (is_open id action fencing now (find token_key d s.tokens) ≡ true)
        × (is_some (find run_key run_id s.runs) ≡ false))
unfolding Tokens.claim_run
claim-is_open d id action fencing run_id pod now s h = (
  λ e. ground (arith, count_key token_key d (is_claimable id action fencing now) s.tokens h.tokens),
  λ p. ground (arith, count_key token_key d (is_claimable id action fencing now) s.tokens h.tokens),
)

-- What a claim needs: the target's lease has the fence, and the token is on record, unused, not past
-- its expiry, and issued for this target, this action and this fence; and the run is new.
pub record IsClaim (d id action : String) (fencing : ℕ) (run_id : String) (now : ℕ) (s : Store)
    : Type 0 where
  pub lease : Lease
  pub held : lease_of id s ≡ some lease
  pub current : lease.fencing ≡ fencing
  pub token : TokenRow
  pub minted : find token_key d s.tokens ≡ some token
  pub unused : token.used ≡ false
  pub unexpired : now ≤ token.expires_ts
  pub for_target : token.target_id ≡ id
  pub for_action : token.action ≡ action
  pub for_fence : token.fencing ≡ fencing
  pub new : find run_key run_id s.runs ≡ none

has_fence_inv :
    (fencing : ℕ) (l : Option Lease)
    → has_fence fencing l ≡ true
    → (r : Lease) × (l ≡ some r) × (r.fencing ≡ fencing)
has_fence_inv fencing none h = absurd (cc)
has_fence_inv fencing (some r) h = (r, refl, ground arith)

is_open_inv :
    (id action : String) (fencing now : ℕ) (o : Option TokenRow)
    → is_open id action fencing now o ≡ true
    → (r : TokenRow) × (o ≡ some r)
      × (r.used ≡ false)
      × (now ≤ r.expires_ts)
      × (r.target_id ≡ id)
      × (r.action ≡ action)
      × (r.fencing ≡ fencing)
is_open_inv id action fencing now none h = absurd (cc)
is_open_inv id action fencing now (some r) h = (
  r,
  refl,
  ground arith,
  ground arith,
  ground (arith, eq_iff r.target_id id),
  ground (arith, eq_iff r.action action),
  ground arith,
)

is_some_inv : {A : Type 0} (o : Option A) → is_some o ≡ false → o ≡ none
is_some_inv none h = refl
is_some_inv (some x) h = absurd (cc)

IsClaim-is_open :
    (d id action : String) (fencing : ℕ) (run_id : String) (now : ℕ) (s : Store)
    (k : IsClaim d id action fencing run_id now s)
    → (has_fence fencing (lease_of id s) ≡ true)
      × (is_open id action fencing now (find token_key d s.tokens) ≡ true)
      × (is_some (find run_key run_id s.runs) ≡ false)
IsClaim-is_open d id action fencing run_id now s k = (
  rw k.held (ground (arith, k.current)),
  rw k.minted (
      ground (
        arith,
        k.unused,
        k.unexpired,
        eq_iff k.token.target_id id,
        eq_iff k.token.action action,
        k.for_target,
        k.for_action,
        k.for_fence,
      )),
  rw k.new refl,
)

-- A claim succeeds exactly when the target's lease has the fence, the token is on record, unused,
-- not past its expiry and issued for this target, this action and this fence, and the run is new.
-- The keys of the database's tables are distinct.
pub claim_run_iff :
    (d id action : String) (fencing : ℕ) (run_id pod : String) (now : ℕ) (s : Store)
    → IsKeyed s
    → ((Tokens.claim_run d id action fencing run_id pod now s).0 ≡ ok tt)
      ↔ IsClaim d id action fencing run_id now s
claim_run_iff d id action fencing run_id pod now s h = (
  λ e.
      let (fence, opened, new) = (claim-is_open d id action fencing run_id pod now s h).0 e in
      let (lease, held, current) = has_fence_inv fencing (lease_of id s) fence in
      let (token, minted, unused, unexpired, for_target, for_action, for_fence) =
        is_open_inv id action fencing now (find token_key d s.tokens) opened in
      record {
        lease = lease;
        held = held;
        current = current;
        token = token;
        minted = minted;
        unused = unused;
        unexpired = unexpired;
        for_target = for_target;
        for_action = for_action;
        for_fence = for_fence;
        new = is_some_inv (find run_key run_id s.runs) new;
      },
  λ k.
      (claim-is_open d id action fencing run_id pod now s h).1
        (IsClaim-is_open d id action fencing run_id now s k),
)

-- A successful claim uses the token up.
pub claim-is_used :
    (d id action : String) (fencing : ℕ) (run_id pod : String) (now : ℕ) (s : Store)
    → IsKeyed s
    → (Tokens.claim_run d id action fencing run_id pod now s).0 ≡ ok tt
    → is_used (find token_key d (Tokens.claim_run d id action fencing run_id pod now s).1.tokens)
      ≡ true
unfolding Tokens.claim_run
claim-is_used d id action fencing run_id pod now s h e = grind (
  arith,
  count_key token_key d (is_claimable id action fencing now) s.tokens h.tokens,
  find-update,
  key-find token_key d s.tokens,
)

-- A used token is refused, and the refusal changes nothing.
pub claim_used :
    (d id action : String) (fencing : ℕ) (run_id pod : String) (now : ℕ) (s : Store)
    → IsKeyed s
    → is_used (find token_key d s.tokens) ≡ true
    → let (r, s') = Tokens.claim_run d id action fencing run_id pod now s in
      ((r ≡ err (denied stale_fencing)) ⊎ (r ≡ err (denied token_invalid_or_used))) × (s' ≡ s)
unfolding Tokens.claim_run
claim_used d id action fencing run_id pod now s h used =
    ground (arith, count_key token_key d (is_claimable id action fencing now) s.tokens h.tokens)

module _ (digest : Fields → String) (actual : String → Option String) where
  apply-is_used :
      (d : String) (op : Op) (s : Store)
      → is_used (find token_key d s.tokens) ≡ true
      → is_used (find token_key d (apply digest actual op s).tokens) ≡ true
  unfolding apply
  apply-is_used d (accept_policy_version v) s h = grind (arith, find-update, find-append)
  apply-is_used d _ s h = grind (arith, find-update, find-append)

  pub run-is_used :
      (d : String) (ops : List Op) (s : Store)
      → is_used (find token_key d s.tokens) ≡ true
      → is_used (find token_key d (run digest actual ops s).tokens) ≡ true
  unfolding run
  run-is_used d [] s h = h
  run-is_used d (op ∷ ops) s h =
      run-is_used d ops (apply digest actual op s) (apply-is_used d op s h)

  apply_claim-IsKeyed :
      (d id action : String) (fencing : ℕ) (run_id pod : String) (now : ℕ) (s : Store)
      → IsKeyed s
      → IsKeyed (Tokens.claim_run d id action fencing run_id pod now s).1
  unfolding apply
  apply_claim-IsKeyed d id action fencing run_id pod now s h =
      apply-IsKeyed digest actual (Op.claim_run d id action fencing run_id pod now) s h

  -- A token is consumed at most once: after a successful claim, whatever else is done, every later
  -- claim of the same token, for any target, action, fence and run, is refused and changes nothing.
  -- The keys of the database's tables are distinct.
  pub claim-once :
      (d id action : String) (fencing : ℕ) (run_id pod : String) (now : ℕ) (s : Store)
      (ops : List Op) (id' action' : String) (fencing' : ℕ) (run_id' pod' : String) (now' : ℕ)
      → IsKeyed s
      → (Tokens.claim_run d id action fencing run_id pod now s).0 ≡ ok tt
      → let s' = run digest actual ops (Tokens.claim_run d id action fencing run_id pod now s).1 in
        let (r, s'') = Tokens.claim_run d id' action' fencing' run_id' pod' now' s' in
        ((r ≡ err (denied stale_fencing)) ⊎ (r ≡ err (denied token_invalid_or_used))) × (s'' ≡ s')
  claim-once d id action fencing run_id pod now s ops id' action' fencing' run_id' pod' now' h e =
      let s' = (Tokens.claim_run d id action fencing run_id pod now s).1 in
      claim_used d id' action' fencing' run_id' pod' now' (run digest actual ops s')
        (run-IsKeyed digest actual ops s'
          (apply_claim-IsKeyed d id action fencing run_id pod now s h))
        (run-is_used d ops s' (claim-is_used d id action fencing run_id pod now s h e))

  stale :
      (d id action : String) (fencing : ℕ) (run_id pod : String) (now : ℕ) (s : Store)
      → fencing < current_fencing id s
      → Tokens.claim_run d id action fencing run_id pod now s ≡ (err (denied stale_fencing), s)
  unfolding Tokens.claim_run current_fencing
  stale d id action fencing run_id pod now s lt = ground arith

  -- A token of an older lease cannot be consumed: once a lease was newly handed out, every claim under
  -- a fence that was current before is refused as stale and changes nothing, whatever was done since.
  pub claim-superseded :
      (id o a : String) (ttl : ℕ) (k : String) (now : ℕ) (s : Store) (l : Leased) (ops : List Op)
      (d action : String) (fencing : ℕ) (run_id pod : String) (t : ℕ)
      → (Leases.acquire_lease id o a ttl k now s).0 ≡ ok l
      → l.reused ≡ false
      → fencing ≤ current_fencing id s
      → let s' = run digest actual ops (Leases.acquire_lease id o a ttl k now s).1 in
        Tokens.claim_run d id action fencing run_id pod t s' ≡ (err (denied stale_fencing), s')
  claim-superseded id o a ttl k now s l ops d action fencing run_id pod t got fresh old =
      stale d id action fencing run_id pod t
        (run digest actual ops (Leases.acquire_lease id o a ttl k now s).1)
        (omega (
          arith,
          (acquire-fence id o a ttl k now s l got).0 fresh,
          (acquire-fence id o a ttl k now s l got).1,
          run-fencing digest actual id ops (Leases.acquire_lease id o a ttl k now s).1,
        ))
