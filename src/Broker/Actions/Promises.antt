-- ===== src/Broker/Actions/Promises.antt =====
-- What actions.py's `run_authorized` promises.
use eight_call.Prelude.{
  ℕ, ◌+◌, ◌<◌, String, ◌≡◌, refl, ap, sym, ◌∙◌, subst, true, false, inl, inr, List, Option, none,
  some, ◌==◌, arith, find, find-update, find-append, eq_refl,
}
use eight_call.Broker.Result.{Result, ok, err, killed}
use eight_call.Broker.Store.{
  Store, Target, Run, RunState, running, outcome_unknown, token_key, run_key,
}
use eight_call.Broker.Store.Targets.{target}
use eight_call.Broker.Store.Leases.{lease_of}
use eight_call.Broker.Store.Tokens.{claim_run, has_fence, new_run}
use eight_call.Broker.Store.Runs.{add_observation, reconcile_runs, finish_run}
use eight_call.Broker.Store.Ops.{Op, apply}
use eight_call.Broker.Store.Ops.Keys.{IsKeyed, apply-IsKeyed}
use eight_call.Broker.Store.Ops.Claims.{
  is_used, is_open, claim-is_used, claim_used, claim-is_open, run-is_used,
}
use eight_call.Broker.Store.Ops.History.{Reaches, Reaches-IsKeyed}
use eight_call.Broker.Gate.{Host, Payload, Token, TrustedKey}
use eight_call.Broker.Gate.Verify.{verify_token}
use eight_call.Broker.Possession.{verify_target, is_pinned}
use eight_call.Broker.Grant
use eight_call.Broker.Actions.{
  World, Times, Outcome, run, hit, conclude, after_claim, run_authorized,
}
use eight_call.Broker.Actions.History.{run_authorized-IsHistory}
use eight_call.Broker.Actions.Outcomes.{
  is_started, IsRun, digest_of, run_authorized-inv, late_after_claim, tokens_after_claim, met_pin,
}

module _ (c : Host) (w : World) (now : Times) (id action : String) where
  observed-IsKeyed :
      (s : Store) → IsKeyed s → IsKeyed (add_observation id "pop" "ok" now.observed s)
  unfolding apply
  observed-IsKeyed s h =
      apply-IsKeyed c.digest (λ x. none) (Op.add_observation id "pop" "ok" now.observed) s h

  module _ (keys : List TrustedKey) (x : Token) (pod run_id : String) (s : Store) where
    -- A call behind which a capability may have been performed.
    started :
        is_started (run_authorized c w now id action keys (some x) pod run_id s).0 ≡ true
        → IsRun c w now id action keys x pod run_id s
            (run_authorized c w now id action keys (some x) pod run_id s)
    started h = elim (run_authorized-inv c w now id action keys x pod run_id s) [
      | inl r ↦ r
      | inr (early, _, _) ↦ absurd (cc)
    ]

    -- A capability is performed only behind a token that verified at that time, on a target that is
    -- enabled, whose live peer held the pinned key, and under a claim that found the token open and
    -- the fence current.
    -- The keys of the database's tables are distinct.
    pub run_authorized_sound :
        IsKeyed s
        → is_started (run_authorized c w now id action keys (some x) pod run_id s).0 ≡ true
        → (p : Payload) × (t : Target) × (seen : String) × (verify_token c keys
              (some x)
              id
              action
              now.verified
              s
            ≡ ok p)
          × (target id s ≡ some t)
          × ((t.status == "enabled") ≡ true)
          × (verify_target w.network w.has_identity t.address t.transport_port t.key_fingerprint
              ≡ ok seen)
          × (is_pinned t.key_fingerprint seen ≡ true)
          × (has_fence p.fencing (lease_of id s) ≡ true)
          × (is_open id action p.fencing now.claimed
                (find token_key (digest_of c w now id action x) s.tokens)
              ≡ true)
    unfolding add_observation lease_of
    run_authorized_sound keyed h =
        let r = started h in
        let (fence, open', new) =
          (claim-is_open (digest_of c w now id action x) id action r.payload.fencing run_id pod
              now.claimed (add_observation id "pop" "ok" now.observed s)
              (observed-IsKeyed s keyed)).0
            (ap (λ (y : Result (Unit {0}) × Store). y.0) r.claimed) in
        (
          r.payload,
          r.row,
          r.seen,
          r.verified,
          ground (arith, r.enabled),
          ground (arith, r.enabled),
          r.possessed,
          met_pin w.network w.has_identity r.row.address r.row.transport_port r.row.key_fingerprint
              r.seen r.possessed,
          fence,
          open',
        )

    -- Every other end of the call, whichever test it failed at, leaves all tokens and runs as they
    -- were: the token is not spent.
    pub run_authorized-untouched :
        is_started (run_authorized c w now id action keys (some x) pod run_id s).0 ≡ false
        → let s' = (run_authorized c w now id action keys (some x) pod run_id s).1 in
          (s'.tokens ≡ s.tokens) × (s'.runs ≡ s.runs)
    run_authorized-untouched h = elim (run_authorized-inv c w now id action keys x pod run_id s) [
      | inl r ↦ absurd (
          cc (
            ap (λ (y : Result Outcome × Store). is_started y.0) r.left,
            late_after_claim c w now id action run_id r.payload r.row r.claimed_store,
          ))
      | inr (_, tokens, runs) ↦ (tokens, runs)
    ]

    spent :
        IsKeyed s
        → is_started (run_authorized c w now id action keys (some x) pod run_id s).0 ≡ true
        → is_used (
            find token_key
              (digest_of c w now id action x)
              (run_authorized c w now id action keys (some x) pod run_id s).1.tokens)
          ≡ true
    spent keyed h =
        let r = started h in
        let used =
          claim-is_used (digest_of c w now id action x) id action r.payload.fencing run_id pod
            now.claimed (add_observation id "pop" "ok" now.observed s) (observed-IsKeyed s keyed)
            (ap (λ (y : Result (Unit {0}) × Store). y.0) r.claimed) in
        let left =
          ap (λ (y : Result Outcome × Store). y.1.tokens) r.left
          ∙ tokens_after_claim c w now id action run_id r.payload r.row r.claimed_store
          ∙ sym (ap (λ (y : Result (Unit {0}) × Store). y.1.tokens) r.claimed) in
        subst (λ ts. is_used (find token_key (digest_of c w now id action x) ts) ≡ true) (sym left)
          used

module _ (actual : String → Option String) (c : Host) where
  -- Two calls with one token never both perform a capability: if the first may have performed it,
  -- then after whatever else is done to the store every later call, in any world and at any time, for
  -- any target, action and run, ends before its claim. The first call may have been killed.
  -- The keys of the database's tables are distinct.
  pub run_authorized-once :
      (w w' : World) (now now' : Times) (id action id' action' : String)
      (keys keys' : List TrustedKey) (x : Token) (pod run_id pod' run_id' : String) (s t : Store)
      → IsKeyed s
      → is_started (run_authorized c w now id action keys (some x) pod run_id s).0 ≡ true
      → Reaches c.digest actual (run_authorized c w now id action keys (some x) pod run_id s).1 t
      → is_started (run_authorized c w' now' id' action' keys' (some x) pod' run_id' t).0 ≡ false
  unfolding add_observation
  run_authorized-once w w' now now' id action id' action' keys keys' x pod run_id pod' run_id' s t
        keyed h reach =
      let keyed' : IsKeyed t = Reaches-IsKeyed c.digest actual reach (
        Reaches-IsKeyed c.digest actual
          ((run_authorized-IsHistory c actual w now id action keys (some x) pod run_id).at s)
          keyed) in
      let used : is_used (find token_key (digest_of c w now id action x) t.tokens) ≡ true =
        subst
          (λ (u : Store). is_used (find token_key (digest_of c w now id action x) u.tokens) ≡ true)
          reach.leaves
          (run-is_used c.digest actual (digest_of c w now id action x) reach.ops
            (run_authorized c w now id action keys (some x) pod run_id s).1
            (spent c w now id action keys x pod run_id s keyed h)) in
      elim (run_authorized-inv c w' now' id' action' keys' x pod' run_id' t) [
        | inr (early, _, _) ↦ early
        | inl r ↦
            let refused =
              claim_used (digest_of c w now id action x) id' action' r.payload.fencing run_id' pod'
                now'.claimed (add_observation id' "pop" "ok" now'.observed t)
                (observed-IsKeyed c w' now' id' action' t keyed') used in
            absurd (ground (arith, refused, ap (λ (y : Result (Unit {0}) × Store). y.0) r.claimed))
      ]

abbrev pub run_state : Option Run → Option RunState
run_state none = none
run_state (some r) = some r.state

claim_runs :
    (d id action : String) (f : ℕ) (run_id pod : String) (t : ℕ) (s u : Store)
    → claim_run d id action f run_id pod t s ≡ (ok tt, u)
    → find run_key run_id u.runs ≡ some (new_run run_id id action f pod t)
unfolding claim_run
claim_runs d id action f run_id pod t s u h = grind (arith, find-append, eq_refl run_id)

killed_runs :
    (c : Host) (w : World) (now : Times) (id action run_id : String) (p : Payload) (t : Target)
    (u : Store) (f : String)
    → (after_claim c w now id action run_id p t u).0 ≡ err (killed f)
    → (after_claim c w now id action run_id p t u).1.runs ≡ u.runs
unfolding after_claim hit conclude finish_run run Grant.mint Grant.check Grant.consume
killed_runs c w now id action run_id p t u f h = ground (arith, eq_refl action)

reconciled :
    (timeout now : ℕ) (run_id : String) (s : Store) (r : Run)
    → find run_key run_id s.runs ≡ some r
    → r.state ≡ running
    → r.started_ts + timeout < now
    → run_state (find run_key run_id (reconcile_runs timeout now s).1.runs) ≡ some outcome_unknown
unfolding reconcile_runs
reconciled timeout now run_id s r found open' late = grind (arith, find-update)

module _ (c : Host) (w : World) (now : Times) (id action : String) where
  -- A call that is killed behind its claim, before or after the capability, leaves its run on record
  -- as running, never as done; once the timeout has passed, reconciliation sets it to the outcome
  -- "unknown".
  pub run_authorized-killed :
      (keys : List TrustedKey) (x : Token) (pod run_id f : String) (s : Store) (timeout t : ℕ)
      → (run_authorized c w now id action keys (some x) pod run_id s).0 ≡ err (killed f)
      → now.claimed + timeout < t
      → let s' = (run_authorized c w now id action keys (some x) pod run_id s).1 in
        (run_state (find run_key run_id s'.runs) ≡ some running)
        × (run_state (find run_key run_id (reconcile_runs timeout t s').1.runs)
            ≡ some outcome_unknown)
  run_authorized-killed keys x pod run_id f s timeout t h late =
      let r = started c w now id action keys x pod run_id s (rw h) in
      let killed' : (after_claim c w now id action run_id r.payload r.row r.claimed_store).0
          ≡ err (killed f) =
        sym (ap (λ (y : Result Outcome × Store). y.0) r.left) ∙ h in
      let row =
        claim_runs (digest_of c w now id action x) id action r.payload.fencing run_id pod
          now.claimed (add_observation id "pop" "ok" now.observed s) r.claimed_store r.claimed in
      let s' = (run_authorized c w now id action keys (some x) pod run_id s).1 in
      let found : find run_key run_id s'.runs
          ≡ some (new_run run_id id action r.payload.fencing pod now.claimed) =
        ap (find run_key run_id) (
          ap (λ (y : Result Outcome × Store). y.1.runs) r.left
          ∙ killed_runs c w now id action run_id r.payload r.row r.claimed_store f killed')
        ∙ row in
      (
        ap run_state found,
        reconciled timeout t run_id s' (new_run run_id id action r.payload.fencing pod now.claimed)
            found refl late,
      )
