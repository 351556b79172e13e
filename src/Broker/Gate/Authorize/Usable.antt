-- ===== src/Broker/Gate/Authorize/Usable.antt =====
-- A token that gate.py's `authorize` hands out is accepted by `verify_token` and consumed once.
use eight_call.Prelude.{
  ℕ, ◌≤◌, String, ◌≡◌, refl, ap, sym, ◌∙◌, subst, true, false, inl, inr, List, Option, none, some,
  ◌==◌, arith, find, contains, Option-cases, eq_refl, is_some,
}
use eight_call.Broker.Json.{text, end, field}
use eight_call.Broker.Result.{Result, ok}
use eight_call.Broker.Store.{
  Store, Enrollment, Lease, token_key, lease_key, run_key, target_key, enrolled_key,
}
use eight_call.Broker.Store.Targets.{target}
use eight_call.Broker.Store.Enrollments.{enrollment_by_target}
use eight_call.Broker.Store.Leases.{lease_of, current_fencing, fencing_of}
use eight_call.Broker.Store.Tokens.{claim_run, has_fence}
use eight_call.Broker.Store.Ops.Keys.{IsKeyed}
use eight_call.Broker.Store.Ops.Claims.{claim-is_open, is_open}
use eight_call.Broker.Store.Ops.History.{Reaches, Reaches-IsKeyed}
use eight_call.Broker.Gate.{
  Request, Payload, Token, TrustedKey, Policy, Host, token_keys, same_keys,
}
use eight_call.Broker.Gate.Trust.{public_for}
use eight_call.Broker.Gate.Records.{Times, Allowed, Verdict, allow}
use eight_call.Broker.Gate.Verify.{verify_token, check_payload}
use eight_call.Broker.Gate.Authorize.{
  authorize, gate_key_id, payload_of, token_text, screen, screen_fresh, passed, sign_with,
}
use eight_call.Broker.Gate.Authorize.Sound.{IsUsable}
use eight_call.Broker.Gate.Authorize.Issued.{
  left_store, leased, before, minted_row, token_row, token_digest,
}
use eight_call.Broker.Gate.Authorize.Steps.{IsIssued, authorize-inv, mint_of}
use eight_call.Broker.Gate.Authorize.History.{authorize-IsHistory}

-- What the token of an allowance stands for.
abbrev pub issued_payload : Host → Policy → Request → Allowed → Payload
issued_payload c policy r a = record {
  keys = token_keys;
  caller = r.caller;
  target_id = r.target_id;
  action = r.action;
  params = a.params;
  fencing = a.fencing;
  decision_id = a.decision_id;
  policy_digest = c.policy_digest policy;
  expiry = a.expires_ts;
}

-- The tests of a payload pass on an enrollment and a target that were vetted.
check_payload-ok :
    (p : Payload) (id action : String) (now : ℕ) (s : Store) (e : Enrollment)
    → now ≤ p.expiry
    → p.target_id ≡ id
    → p.action ≡ action
    → p.fencing ≡ current_fencing id s
    → enrollment_by_target id s ≡ some e
    → (e.status == "enabled") ≡ true
    → contains action e.caps ≡ true
    → IsUsable (target id s)
    → check_payload p id action now s ≡ ok p
unfolding check_payload
check_payload-ok p id action now s e fresh same_id same_action fence enrolled enabled capable
      usable =
    ground (arith, eq_refl id, eq_refl action, same_id, same_action)

verify_token-ok :
    (c : Host) (keys : List TrustedKey) (x : Token) (p : Payload) (public id action : String)
    (now : ℕ) (s : Store)
    → c.decode x.body ≡ some p
    → same_keys p.keys token_keys ≡ true
    → public_for keys gate_key_id ≡ some public
    → c.verify public x.body x.signature ≡ some true
    → check_payload p id action now s ≡ ok p
    → verify_token c keys (some x) id action now s ≡ ok p
unfolding verify_token
verify_token-ok c keys x p public id action now s decoded closed known good checks =
    rw (decoded, verify_token) (rw (closed, known, good) checks)

module _ (c : Host) (keys : List TrustedKey) (policy : Policy) (gate_key : Option String) where
  gate_ready :
      (now : ℕ) (r : Request) (signature : String)
      → screen c keys policy gate_key now r signature ≡ passed
      → ((public : String) × (public_for keys gate_key_id ≡ some public))
        × ((path : String) × (gate_key ≡ some path))
  unfolding screen screen_fresh
  gate_ready now r signature h = (
    elim (Option-cases (public_for keys gate_key_id)) [ inl e ↦ absurd (ground arith) | inr x ↦ x ],
    elim (Option-cases gate_key) [ inl e ↦ absurd (ground arith) | inr x ↦ x ],
  )

  module _
      (verifies : (public path body signature : String)
        → public_for keys gate_key_id ≡ some public
        → gate_key ≡ some path
        → c.sign path body ≡ some signature
        → c.verify public body signature ≡ some true)
      (now : Times) (owner : String) (r : Request) (signature : String) (s s' : Store)
      (a : Allowed) where
    module _ (h : IsIssued c keys policy gate_key now owner r signature s s' a)
        (decodes : c.decode (c.encode (issued_payload c policy r a))
          ≡ some (issued_payload c policy r a)) where
      payload : Payload
      payload = payload_of c keys policy gate_key r h.params h.lease h.decision_id

      same_fence : h.lease.fencing ≡ current_fencing r.target_id s'
      unfolding current_fencing lease_of
      same_fence =
          (leased c keys policy gate_key now owner r signature s s' a h).1
          ∙ ap (λ (x : List Lease). fencing_of (find lease_key r.target_id x))
              (sym (left_store c keys policy gate_key now owner r signature s s' a h).2)

      checked :
          (t : ℕ) → t ≤ a.expires_ts → check_payload payload r.target_id r.action t s' ≡ ok payload
      unfolding payload payload_of enrollment_by_target target
      checked t early =
          let v = before c keys policy gate_key now owner r signature s s' a h in
          let left = left_store c keys policy gate_key now owner r signature s s' a h in
          check_payload-ok payload r.target_id r.action t s' h.enrollment
            (subst (λ n. t ≤ n) (ap (λ (x : Allowed). x.expires_ts) h.result) early) refl refl
            same_fence (ap (find enrolled_key r.target_id) left.1 ∙ v.enrolled) v.enabled v.capable
            (subst (λ ts. IsUsable (find target_key r.target_id ts)) (sym left.0) v.usable)

      signature_good :
          (public : String)
          → public_for keys gate_key_id ≡ some public
          → c.verify public (c.encode payload) h.token_signature ≡ some true
      unfolding payload
      signature_good public known =
          let (path, here) = (gate_ready now.checked r signature h.screened).1 in
          verifies public path (c.encode payload) h.token_signature known here
            (sym (ap (λ g. sign_with c g (c.encode payload)) here) ∙ h.signed)

      token : Token
      token = mint_of c keys policy gate_key r h.params h.lease h.decision_id h.token_signature

      round_trip : c.decode (c.encode payload) ≡ some payload
      unfolding payload payload_of
      round_trip =
          subst
            (λ (b : Allowed).
              c.decode (c.encode (issued_payload c policy r b))
              ≡ some (issued_payload c policy r b))
            h.result decodes

      accepted :
          (t : ℕ)
          → t ≤ a.expires_ts
          → verify_token c keys (some token) r.target_id r.action t s' ≡ ok payload
      unfolding token payload payload_of contains
      accepted t early =
          let (public, known) = (gate_ready now.checked r signature h.screened).0 in
          verify_token-ok c keys token payload public r.target_id r.action t s' round_trip refl
            known (signature_good public known) (checked t early)

      fence_held : has_fence h.lease.fencing (lease_of r.target_id s') ≡ true
      unfolding lease_of
      fence_held =
          ap (λ (x : List Lease). has_fence h.lease.fencing (find lease_key r.target_id x))
            (left_store c keys policy gate_key now owner r signature s s' a h).2
          ∙ (leased c keys policy gate_key now owner r signature s s' a h).2

      row_open :
          (t : ℕ)
          → t ≤ a.expires_ts
          → find token_key
              (token_digest c keys policy gate_key now owner r signature s s' a h)
              h.minted_store.tokens
            ≡ some (
                token_row c keys policy gate_key now owner r signature s s' a h
                  (token_digest c keys policy gate_key now owner r signature s s' a h))
          → s'.tokens ≡ h.minted_store.tokens
          → is_open r.target_id r.action h.lease.fencing t (
              find token_key
                (token_digest c keys policy gate_key now owner r signature s s' a h)
                s'.tokens)
            ≡ true
      row_open t early found same = rw same (
          rw found (
            ground (
              arith,
              eq_refl r.target_id,
              eq_refl r.action,
              ap (λ (x : Allowed). x.expires_ts) h.result,
            )))

      claimed :
          (t : ℕ) (run_id pod : String)
          → IsKeyed s'
          → t ≤ a.expires_ts
          → is_some (find run_key run_id s'.runs) ≡ false
          → (claim_run
              (c.digest (field "tok" (text (token_text token)) end))
              r.target_id
              r.action
              h.lease.fencing
              run_id
              pod
              t
              s').0
            ≡ ok tt
      unfolding token
      claimed t run_id pod keyed early new =
          let row = minted_row c keys policy gate_key now owner r signature s s' a h in
          let left = left_store c keys policy gate_key now owner r signature s s' a h in
          (claim-is_open _ r.target_id r.action h.lease.fencing run_id pod t s' keyed).1
            (fence_held, row_open t early row.1 left.3, new)

    -- What `authorize` hands out works: if the payload that was issued decodes from its encoding, and
    -- what the gate's key signs is accepted under the gate's public key, then up to its expiry the
    -- token verifies for its target and action as a payload with the verdict's parameters and fence,
    -- and a claim of it for a new run succeeds.
    -- The keys of the database's tables are distinct.
    pub authorize-usable :
        (t : ℕ) (run_id pod : String)
        → IsKeyed s
        → authorize c keys policy gate_key now owner r signature s ≡ (ok (allow a), s')
        → c.decode (c.encode (issued_payload c policy r a)) ≡ some (issued_payload c policy r a)
        → t ≤ a.expires_ts
        → is_some (find run_key run_id s'.runs) ≡ false
        → ((p : Payload) × (verify_token c keys (some a.token) r.target_id r.action t s' ≡ ok p)
            × (p.params ≡ a.params)
            × (p.fencing ≡ a.fencing))
          × ((claim_run
                (c.digest (field "tok" (text (token_text a.token)) end))
                r.target_id
                r.action
                a.fencing
                run_id
                pod
                t
                s').0
              ≡ ok tt)
    authorize-usable t run_id pod keyed done decodes early new =
        let h : IsIssued c keys policy gate_key now owner r signature s s' a =
          authorize-inv c keys policy gate_key now owner r signature s s' a done in
        let keyed' : IsKeyed s' =
          Reaches-IsKeyed c.digest (λ x. none)
            (subst (λ (x : Result Verdict × Store). Reaches c.digest (λ y. none) s x.1) done
              ((authorize-IsHistory c (λ x. none) keys policy gate_key now owner r signature).at s))
            keyed in
        subst
          (λ (b : Allowed).
            ((p : Payload) × (verify_token c keys (some b.token) r.target_id r.action t s' ≡ ok p)
              × (p.params ≡ b.params)
              × (p.fencing ≡ b.fencing))
            × ((claim_run (c.digest (field "tok" (text (token_text b.token)) end)) r.target_id
                  r.action b.fencing run_id pod t s').0
                ≡ ok tt))
          (sym h.result)
          (unfold payload token payload_of in
            (
              (payload h decodes, accepted h decodes t early, refl, refl),
              claimed h decodes t run_id pod keyed' early new,
            ))
