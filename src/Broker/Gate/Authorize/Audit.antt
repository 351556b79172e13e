-- ===== src/Broker/Gate/Authorize/Audit.antt =====
-- How gate.py's `authorize` is audited.
use eight_call.Prelude.{
  ℕ, ◌+◌, ◌<◌, String, ◌≡◌, ◌↔◌, ◌⊎◌, inl, inr, true, false, List, Option, none, some, find, arith,
  Bool-cases, Option-cases, refl,
}
use eight_call.Broker.Result.{
  err, Reason, denied, replay, unknown_caller, bad_signature, stale_request, expired_request,
}
use eight_call.Broker.Store.{Store, RequestRow, digest_key, nonce_key}
use eight_call.Broker.Store.Requests.{is_recorded, record_request}
use eight_call.Broker.Store.Decisions.{append_decision}
use eight_call.Broker.Gate.{Request, TrustedKey, Policy, Host, request_keys, same_keys}
use eight_call.Broker.Gate.Trust.{public_for}
use eight_call.Broker.Gate.Records.{Times, request_fields, record_nonce, deny_settled, reject}
use eight_call.Broker.Gate.Authorize.{
  rejected, screen, screen_fresh, proceed, authorize, gate_key_id, or_else, distance, is_stale,
}

-- The digest of the request or its nonce is in the table of requests.
abbrev pub IsRecorded : String → String → Store → Type 0
IsRecorded digest nonce s =
    ((x : RequestRow) × (find digest_key digest s.requests ≡ some x))
    ⊎ ((x : RequestRow) × (find nonce_key nonce s.requests ≡ some x))

known_inv : (d n : String) (s : Store) → is_recorded d n s ≡ true → IsRecorded d n s
unfolding is_recorded
known_inv d n s h = elim (Option-cases (find digest_key d s.requests)) [
  | inr known ↦ inl known
  | inl missing ↦ elim (Option-cases (find nonce_key n s.requests)) [
    | inr known ↦ inr known
    | inl free ↦ absurd (ground (arith, missing, free))
  ]
]

known_if : (d n : String) (s : Store) → IsRecorded d n s → is_recorded d n s ≡ true
unfolding is_recorded
known_if d n s (inl (x, known)) = ground (arith, known)
known_if d n s (inr (x, known)) = ground (arith, known)

module _ (c : Host) (keys : List TrustedKey) (policy : Policy) (gate_key : Option String) where
  -- A request is not the caller's own or not of now: its caller has no enabled key, or the key did not
  -- sign it, or it did, the gate can sign, and the request is too old or too new, or has expired.
  abbrev pub IsForeign : ℕ → Request → String → Type 0
  IsForeign now r signature =
      (public_for keys r.caller ≡ none)
      ⊎ ((public : String) × (public_for keys r.caller ≡ some public)
          × ((c.verify_request public r signature ≡ some false)
              ⊎ ((c.verify_request public r signature ≡ some true)
                  × ((own : String) × (public_for keys gate_key_id ≡ some own))
                  × ((path : String) × (gate_key ≡ some path))
                  × ((or_else policy.max_request_age_s 60 + or_else policy.clock_skew_s 30
                        < distance now r.issued_at)
                      ⊎ (r.expiry < now)))))

  foreign-rejected :
      (now : ℕ) (r : Request) (signature : String)
      → same_keys r.keys request_keys ≡ true
      → IsForeign now r signature
      → (x : Reason) × (screen c keys policy gate_key now r signature ≡ rejected x)
  unfolding screen screen_fresh
  foreign-rejected now r signature shape (inl unknown) = (unknown_caller, rw (shape, unknown) refl)
  foreign-rejected now r signature shape (inr (public, known, inl forged)) =
      (bad_signature, rw (shape, known, forged) refl)
  foreign-rejected now r signature shape
        (inr (public, known, inr (signed, (own, has_own), (path, has_path), late))) =
      elim (Bool-cases (is_stale policy now r)) [
        | inl stale ↦ (stale_request, rw (shape, known, signed, has_own, has_path, stale) refl)
        | inr fresh ↦ elim late [
          | inl old ↦ absurd (ground (arith, old, fresh))
          | inr expired ↦ (
            expired_request,
            ground (arith, shape, known, signed, has_own, has_path, fresh, expired),
          )
        ]
      ]

  reject-fresh :
      (now : Times) (r : Request) (x : Reason) (s s' : Store)
      → is_recorded (c.digest (request_fields r)) r.nonce s ≡ false
      → reject c now r x s ≡ (err (denied replay), s')
      → ⊥
  unfolding reject record_nonce record_request deny_settled append_decision
  reject-fresh now r x s s' fresh e = ground (arith, fresh, e)

  -- What the log misses of early refusals: a request of the schema whose caller has no enabled key, or which the
  -- caller's key did not sign, or which is out of its time at a gate that can sign, makes `authorize`
  -- raise `replay` and leave the database as it was, with no decision logged, if and only if its digest
  -- or its nonce is on record already.
  pub authorize-unaudited :
      (now : Times) (owner : String) (r : Request) (signature : String) (s : Store)
      → same_keys r.keys request_keys ≡ true
      → IsForeign now.checked r signature
      → (authorize c keys policy gate_key now owner r signature s ≡ (err (denied replay), s))
        ↔ IsRecorded (c.digest (request_fields r)) r.nonce s
  unfolding authorize proceed
  authorize-unaudited now owner r signature s shape foreign =
      let (x, early) = foreign-rejected now.checked r signature shape foreign in
      (
        λ e. elim (Bool-cases (is_recorded (c.digest (request_fields r)) r.nonce s)) [
          | inl seen ↦ known_inv (c.digest (request_fields r)) r.nonce s seen
          | inr fresh ↦ absurd (reject-fresh now r x s s fresh (rw early at e))
        ],
        λ recorded.
            let seen = known_if (c.digest (request_fields r)) r.nonce s recorded in
            rw early (unfold reject record_nonce record_request in ground (arith, seen)),
      )
