-- ===== src/Broker/Actions/Outcomes.antt =====
-- What actions.py's `run_authorized` leaves behind, by how it ends.
use eight_call.Prelude.{
  ℕ, String, ◌≡◌, refl, Bool, true, false, ◌⊎◌, inl, inr, List, Option, some, arith, eq_refl,
}
use eight_call.Broker.Json.{text, end, field}
use eight_call.Broker.Result.{Result, ok, err, Error, denied, killed, action_failed, Action-cases}
use eight_call.Broker.Store.{Store, Target}
use eight_call.Broker.Store.Targets.{target}
use eight_call.Broker.Store.Tokens.{claim_run}
use eight_call.Broker.Store.Runs.{finish_run, add_observation}
use eight_call.Broker.Gate.{Host, Payload, Token, TrustedKey}
use eight_call.Broker.Gate.Authorize.{token_text}
use eight_call.Broker.Gate.Verify.{verify_token, check_payload}
use eight_call.Broker.Gate.Reasons.{reason_text}
use eight_call.Broker.Grant
use eight_call.Broker.Grant.{Grant}
use eight_call.Broker.Possession.{Peer, verify_target, is_pinned}
use eight_call.Broker.Actions.{
  World, Times, Outcome, hit, run, conclude, after_claim, execute, possess, note_possession, run_on,
  run_verified, enabled_target, run_authorized,
}

-- The errors behind which a capability may have been performed: it raised, or the process was killed
-- at a failpoint after the claim.
abbrev pub is_late : Error → Bool
is_late (action_failed m) = true
is_late (killed f) = true
is_late e = false

abbrev pub is_started : Result Outcome → Bool
is_started (ok o) = true
is_started (err e) = is_late e

enabled-early : (o : Option Target) (e : Error) → enabled_target o ≡ err e → is_late e ≡ false
enabled-early o e h = ground arith

token-early :
    (c : Host) (keys : List TrustedKey) (x : Token) (id action : String) (now : ℕ) (s : Store)
    (e : Error)
    → verify_token c keys (some x) id action now s ≡ err e
    → is_late e ≡ false
unfolding verify_token check_payload
token-early c keys x id action now s e h = ground arith

module _ (c : Host) (w : World) (now : Times) (id action : String) where
  -- Possession is proved and observed, or fails before anything is claimed.
  note-inv :
      (x : Result String) (s : Store)
      → ((e : Error) → x ≡ err e → is_late e ≡ false)
      → ((seen : String) × (x ≡ ok seen)
          × (note_possession c w now id action x s
              ≡ (ok tt, add_observation id "pop" "ok" now.observed s)))
        ⊎ ((e : Error) × (u : Store) × (note_possession c w now id action x s ≡ (err e, u))
            × (is_late e ≡ false)
            × (u.tokens ≡ s.tokens)
            × (u.runs ≡ s.runs))
  unfolding note_possession add_observation
  note-inv (ok seen) s early = inl (seen, refl, refl)
  note-inv (err (denied x)) s early =
      inr
        (denied x, add_observation id "pop" (reason_text x) now.observed s, refl, refl, refl, refl)
  note-inv (err e) s early = inr (e, s, refl, early e refl, refl, refl)

  verify-early :
      (network : String → ℕ → Peer) (known : Bool) (address : String) (port : Option ℕ)
      (pin : Option String) (e : Error)
      → verify_target network known address port pin ≡ err e
      → is_late e ≡ false
  unfolding verify_target
  verify-early network known address port pin e h = ground arith

  claim-early :
      (d id action : String) (f : ℕ) (run_id pod : String) (t : ℕ) (s u : Store) (e : Error)
      → claim_run d id action f run_id pod t s ≡ (err e, u)
      → (is_late e ≡ false) × (u ≡ s)
  unfolding claim_run
  claim-early d id action f run_id pod t s u e h = ground arith

  abbrev pub digest_of : Token → String
  digest_of x = c.digest (field "tok" (text (token_text x)) end)

  -- A run whose capability may have been performed: the token verified, the target was enabled, the
  -- live peer held the pinned key, and the claim succeeded, all before the capability.
  pub record IsRun (keys : List TrustedKey) (x : Token) (pod run_id : String) (s : Store)
      (r : Result Outcome × Store) : Type 0 where
    pub payload : Payload
    pub row : Target
    pub seen : String
    pub claimed_store : Store
    pub verified : verify_token c keys (some x) id action now.verified s ≡ ok payload
    pub enabled : enabled_target (target id s) ≡ ok row
    pub possessed :
        verify_target w.network w.has_identity row.address row.transport_port row.key_fingerprint
        ≡ ok seen
    pub claimed :
        claim_run
          (digest_of x)
          id
          action
          payload.fencing
          run_id
          pod
          now.claimed
          (add_observation id "pop" "ok" now.observed s)
        ≡ (ok tt, claimed_store)
    pub left : r ≡ after_claim c w now id action run_id payload row claimed_store

  execute-inv :
      (run_id pod : String) (x : Token) (p : Payload) (t : Target) (s : Store)
      → ((u : Store) × (claim_run (digest_of x) id action p.fencing run_id pod now.claimed s
            ≡ (ok tt, u))
          × (execute c w now id action run_id pod x p t s
              ≡ after_claim c w now id action run_id p t u))
        ⊎ ((e : Error) × (execute c w now id action run_id pod x p t s ≡ (err e, s))
            × (is_late e ≡ false))
  unfolding execute
  execute-inv run_id pod x p t s =
      elim (Action-cases (claim_run (digest_of x) id action p.fencing run_id pod now.claimed s)) [
        | inl (_, u, h) ↦ inl (u, h, rw (h, execute))
        | inr (e, u, h) ↦
            let (early, same) =
              claim-early (digest_of x) id action p.fencing run_id pod now.claimed s u e h in
            inr (e, rw (h, execute) (rw same), early)
      ]

  -- The call went through all of that, or ended before the claim and left tokens and runs.
  abbrev pub Ends :
      List TrustedKey → Token → String → String → Store → Result Outcome × Store → Type 0
  Ends keys x pod run_id s r =
      IsRun keys x pod run_id s r
      ⊎ ((is_started r.0 ≡ false) × (r.1.tokens ≡ s.tokens) × (r.1.runs ≡ s.runs))

  module _ (keys : List TrustedKey) (x : Token) (pod run_id : String) (s : Store) where
    claimed-Ends :
        (p : Payload) (t : Target) (seen : String)
        → verify_token c keys (some x) id action now.verified s ≡ ok p
        → enabled_target (target id s) ≡ ok t
        → verify_target w.network w.has_identity t.address t.transport_port t.key_fingerprint
          ≡ ok seen
        → Ends keys x pod run_id s (
            execute c w now id action run_id pod x p t
              (add_observation id "pop" "ok" now.observed s))
    unfolding add_observation
    claimed-Ends p t seen v e h =
        elim (execute-inv run_id pod x p t (add_observation id "pop" "ok" now.observed s)) [
          | inl (u, claimed, same) ↦ inl (record {
            payload = p;
            row = t;
            seen = seen;
            claimed_store = u;
            verified = v;
            enabled = e;
            possessed = h;
            claimed = claimed;
            left = same;
          })
          | inr (x, same, early) ↦ inr (rw same early, rw same, rw same)
        ]

    on-Ends :
        (p : Payload) (o : Result Target)
        → verify_token c keys (some x) id action now.verified s ≡ ok p
        → enabled_target (target id s) ≡ o
        → ((e : Error) → o ≡ err e → is_late e ≡ false)
        → Ends keys x pod run_id s (run_on c w now id action pod run_id x p o s)
    unfolding run_on possess
    on-Ends p (err e) v h early = inr (early e refl, refl, refl)
    on-Ends p (ok t) v h early =
        let met =
          verify_target w.network w.has_identity t.address t.transport_port t.key_fingerprint in
        elim (note-inv met s
          (verify-early w.network w.has_identity t.address t.transport_port t.key_fingerprint)) [
            | inl (seen, good, noted) ↦ rw noted (claimed-Ends p t seen v h good)
            | inr (e, u, noted, late, tokens, runs) ↦ rw noted (inr (late, tokens, runs))
          ]

    verified-Ends :
        (v : Result Payload)
        → verify_token c keys (some x) id action now.verified s ≡ v
        → ((e : Error) → v ≡ err e → is_late e ≡ false)
        → Ends keys x pod run_id s (run_verified c w now id action pod run_id x v s)
    unfolding run_verified
    verified-Ends (err e) h early = inr (early e refl, refl, refl)
    verified-Ends (ok p) h early =
        on-Ends p (enabled_target (target id s)) h refl (enabled-early (target id s))

    pub run_authorized-inv :
        Ends keys x pod run_id s (run_authorized c w now id action keys (some x) pod run_id s)
    unfolding run_authorized
    run_authorized-inv =
        verified-Ends (verify_token c keys (some x) id action now.verified s) refl
          (token-early c keys x id action now.verified s)

-- A minted grant is not refused, so that after the claim the call returns, the capability raises, or
-- the process is killed.
pub late_after_claim :
    (c : Host) (w : World) (now : Times) (id action run_id : String) (p : Payload) (t : Target)
    (u : Store)
    → is_started (after_claim c w now id action run_id p t u).0 ≡ true
unfolding after_claim hit conclude run Grant.mint Grant.check Grant.consume
late_after_claim c w now id action run_id p t u = ground (arith, eq_refl action)

pub tokens_after_claim :
    (c : Host) (w : World) (now : Times) (id action run_id : String) (p : Payload) (t : Target)
    (u : Store)
    → (after_claim c w now id action run_id p t u).1.tokens ≡ u.tokens
unfolding after_claim hit conclude finish_run
tokens_after_claim c w now id action run_id p t u = ground arith

pub met_pin :
    (network : String → ℕ → Peer) (known : Bool) (address : String) (port : Option ℕ)
    (pin : Option String) (seen : String)
    → verify_target network known address port pin ≡ ok seen
    → is_pinned pin seen ≡ true
unfolding verify_target
met_pin network known address port pin seen h = ground arith
