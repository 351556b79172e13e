-- ===== src/Detect/AuthzGate/Audit/Allowed.antt =====
-- What an allowance of authz_gate.py's `authorize` rests on.
use eight_call.Prelude.{
  ℕ, ◌≡◌, refl, ap, true, false, ◌⊎◌, inl, inr, List, [], ◌∷◌, ◌++◌, Option, none, some, ◌==◌,
  arith, contains, Bool-cases, Option-cases,
}
use eight_call.Broker.Json.{Json}
use eight_call.Detect.AuthzGate.{Gate, Host, Caller, Grant, Reason}
use eight_call.Detect.AuthzGate.Match.{try_grant, is_before, is_after, any_matches, params_within}
use eight_call.Detect.AuthzGate.Evaluate.{
  Shaped, Shape, shaped, malformed, check_shape, nonce_key, find_caller, evaluate, evaluate_shape,
  identify, prove, spend, verify_signature, check_fresh, match_grants, try_grants,
}
use eight_call.Detect.AuthzGate.Audit.{authorize}

-- A grant among the caller's that covers the request at this time.
pub record IsCovered (now : ℕ) (q : Shaped) (gs : List Grant) : Type 0 where
  pub grant : Grant
  pub before : List Grant
  pub after : List Grant
  pub listed : gs ≡ before ++ grant ∷ after
  pub action : (grant.action == q.action) ≡ true
  pub begun : is_before now grant.not_before ≡ false
  pub lasting : is_after now grant.not_after ≡ false
  pub in_scope : any_matches grant.targets q.target ≡ true
  pub within : params_within grant.params q.params ≡ none

covers :
    (now : ℕ) (q : Shaped) (g : Grant) (ds es : List Grant)
    → (g.action == q.action) ≡ true
    → try_grant now q.target q.params g ≡ none
    → IsCovered now q (ds ++ g ∷ es)
unfolding try_grant
covers now q g ds es same h = record {
  grant = g;
  before = ds;
  after = es;
  listed = refl;
  action = same;
  begun = ground arith;
  lasting = ground arith;
  in_scope = ground arith;
  within = ground arith;
}

later :
    (now : ℕ) (q : Shaped) (g : Grant) (gs : List Grant)
    → IsCovered now q gs
    → IsCovered now q (g ∷ gs)
later now q g gs h = record {
  grant = h.grant;
  before = g ∷ h.before;
  after = h.after;
  listed = ap (λ (xs : List Grant). g ∷ xs) h.listed;
  action = h.action;
  begun = h.begun;
  lasting = h.lasting;
  in_scope = h.in_scope;
  within = h.within;
}

tried :
    (now : ℕ) (q : Shaped) (gs : List Grant)
    → try_grants now q.action q.target q.params gs ≡ none
    → IsCovered now q gs
unfolding try_grants
tried now q [] h = absurd (cc)
tried now q (g ∷ gs) h = elim (Bool-cases (g.action == q.action)) [
  | inr other ↦ later now q g gs (tried now q gs (ground arith))
  | inl same ↦ elim (Option-cases (try_grant now q.target q.params g)) [
    | inl match ↦ covers now q g [] gs same match
    | inr (why, missed) ↦ elim (Option-cases (try_grants now q.action q.target q.params gs)) [
      | inl more ↦ later now q g gs (tried now q gs more)
      | inr (others, rest) ↦ absurd (ground arith)
    ]
  ]
]

Shape-cases : (x : Shape) → ((r : Reason) × (x ≡ malformed r)) ⊎ ((q : Shaped) × (x ≡ shaped q))
Shape-cases (malformed r) = inl (r, refl)
Shape-cases (shaped q) = inr (q, refl)

module _ (h : Host) (g : Gate) (now : ℕ) where
  -- The request has the closed schema, and a caller with a usable key signed it just now, with a new
  -- nonce and under a grant.
  pub record IsAuthorized (request : Json) : Type 0 where
    pub asked : Shaped
    pub caller : Caller
    pub shape : check_shape request ≡ shaped asked
    pub known : find_caller asked.caller g.callers ≡ some caller
    pub usable : caller.key_error ≡ none
    pub signed : verify_signature h asked.fields caller ≡ true
    pub fresh : check_fresh h g now asked.fields ≡ none
    pub new : contains (nonce_key asked) g.seen_nonces ≡ false
    pub covered : IsCovered now asked caller.grants

  matched : (q : Shaped) (c : Caller) → (match_grants now q c).0 ≡ true → IsCovered now q c.grants
  unfolding match_grants
  matched q c e = tried now q c.grants (ground arith)

  proved :
      (q : Shaped) (c : Caller)
      → (prove h g now q c).0 ≡ true
      → (verify_signature h q.fields c ≡ true)
        × (check_fresh h g now q.fields ≡ none)
        × (contains (nonce_key q) g.seen_nonces ≡ false)
        × ((match_grants now q c).0 ≡ true)
  unfolding prove spend
  proved q c e = (ground arith, ground arith, ground arith, ground arith)

  identified :
      (q : Shaped) (request : Json) (o : Option Caller)
      → check_shape request ≡ shaped q
      → find_caller q.caller g.callers ≡ o
      → (identify h g now q o).0 ≡ true
      → IsAuthorized request
  unfolding identify
  identified q request none shape known e = absurd (cc)
  identified q request (some c) shape known e = elim (Option-cases c.key_error) [
    | inr (error, bad) ↦ absurd (ground arith)
    | inl usable ↦
        let (signed, fresh, new, match) = proved q c (ground arith) in
        record {
          asked = q;
          caller = c;
          shape = shape;
          known = known;
          usable = usable;
          signed = signed;
          fresh = fresh;
          new = new;
          covered = matched q c match;
        }
  ]

  evaluated : (request : Json) → (evaluate h g now request).0 ≡ true → IsAuthorized request
  unfolding evaluate evaluate_shape
  evaluated request e = elim (Shape-cases (check_shape request)) [
    | inl (r, bad) ↦ absurd (ground arith)
    | inr (q, shape) ↦
        identified q request (find_caller q.caller g.callers) shape refl (ground (arith, shape))
  ]

-- Denied by default: a call allows only a request of the closed schema, signed by a caller of the
-- policy whose key is usable, fresh, with a nonce that this caller has not used, and covered by one of
-- the caller's own grants: its action, its time, its targets, and every parameter with its value.
pub allow-IsAuthorized :
    (h : Host) (e t : ℕ) (request : Json) (g : Gate)
    → (authorize h e t request g).0.allow ≡ true
    → IsAuthorized h g e request
unfolding authorize
allow-IsAuthorized h e t request g allowed = evaluated h g e request allowed
