-- ===== src/Detect/AuthzGate/Policy/Vouched.antt =====
-- What a gate that was loaded from a policy allows, told in the terms of the policy.
use eight_call.Prelude.{
  ℕ, String, ◌≡◌, refl, ap, subst, ◌∙◌, ◌⊎◌, inl, inr, true, false, List, [], ◌∷◌, Option, none,
  some, ◌==◌, arith, nat_eq, Bool-cases, Option-cases, if◌then◌else◌,
}
use eight_call.Broker.Json.{Json, Fields}
use eight_call.Detect.AuthzGate.{Alg, hmac, ed25519, other, Grant, Caller, Gate, Host}
use eight_call.Detect.AuthzGate.Evaluate.{
  Shaped, shaped, check_shape, find_caller, verify_signature,
}
use eight_call.Detect.AuthzGate.Audit.{authorize}
use eight_call.Detect.AuthzGate.Audit.Allowed.{IsCovered, allow-IsAuthorized}
use eight_call.Detect.AuthzGate.Audit.Restart.{load_chain_tip}
use eight_call.Detect.AuthzGate.Policy.{
  KeyError, CallerSpec, NamedSpec, Policy, Keys, Resolved, by_hex, by_env, resolve_hmac, is_pin,
  by_pubkey, resolve_ed25519, alg_of, resolve_caller, caller_of, parse_grants, load_callers,
  from_policy,
}

-- The entry of a caller in the policy.
unfoldable pub find_spec : String → List NamedSpec → Option CallerSpec
find_spec name [] = none
find_spec name (n ∷ ns) = if n.name == name then some n.spec else find_spec name ns

module _ (k : Keys) where
  -- The shared secret is the one of the policy, or that of the environment, which is not empty.
  abbrev pub IsShared : CallerSpec → String → Type 0
  IsShared s key =
      ((hex : String) × (s.key_hex ≡ some hex) × (k.from_hex hex ≡ some key))
      ⊎ ((var : String) × (s.key_env ≡ some var)
          × (k.environ var ≡ some key)
          × ((key == "") ≡ false))

  -- The public key is the one of the policy, has 32 bytes, and matches the fingerprint that is pinned.
  abbrev pub IsPinned : CallerSpec → String → Type 0
  IsPinned s key =
      ((b : String) × (s.pubkey_b64 ≡ some b) × (k.b64decode b ≡ some key))
      × (k.byte_length key ≡ 32)
      × (is_pin k s.key_sha256 (k.fingerprint key) ≡ true)

  abbrev pub IsKey : CallerSpec → Alg → String → Type 0
  IsKey s hmac key = IsShared s key
  IsKey s ed25519 key = IsPinned s key
  IsKey s other key = ⊥

  abbrev Fits : CallerSpec → Alg → String → Option KeyError → Type 0
  Fits s a key none = IsKey s a key
  Fits s a key (some e) = Unit

  abbrev FitsAll : CallerSpec → Resolved → Type 0
  FitsAll s r = Fits s r.alg r.key r.error

  by_hex-Fits :
      (s : CallerSpec) (hex : String) (r : Option String)
      → s.key_hex ≡ some hex
      → k.from_hex hex ≡ r
      → FitsAll s (by_hex k r)
  by_hex-Fits s hex none given e = tt
  by_hex-Fits s hex (some key) given e = inl (hex, given, e)

  by_env-Fits :
      (s : CallerSpec) (var : String) (r : Option String)
      → s.key_env ≡ some var
      → k.environ var ≡ r
      → FitsAll s (by_env k var r)
  by_env-Fits s var none given e = tt
  by_env-Fits s var (some raw) given e = elim (Bool-cases (raw == "")) [
    | inl empty ↦ rw empty tt
    | inr full ↦ rw full (inr (var, given, e, full))
  ]

  hmac-Fits :
      (s : CallerSpec) (hex env : Option String)
      → s.key_hex ≡ hex
      → s.key_env ≡ env
      → FitsAll s (resolve_hmac k hex env)
  unfolding resolve_hmac
  hmac-Fits s (some hex) env h e = by_hex-Fits s hex (k.from_hex hex) h refl
  hmac-Fits s none (some var) h e = by_env-Fits s var (k.environ var) e refl
  hmac-Fits s none none h e = tt

  by_pubkey-Fits :
      (s : CallerSpec) (b : String) (r : Option String)
      → s.pubkey_b64 ≡ some b
      → k.b64decode b ≡ r
      → FitsAll s (by_pubkey k s.key_sha256 r)
  by_pubkey-Fits s b none given e = tt
  by_pubkey-Fits s b (some key) given e = elim (Bool-cases (nat_eq (k.byte_length key) 32)) [
    | inr short ↦ rw short tt
    | inl long ↦ elim (Bool-cases (is_pin k s.key_sha256 (k.fingerprint key))) [
      | inr unpinned ↦ rw (long, unpinned) tt
      | inl pinned ↦ rw (long, pinned) ((b, given, e), ground (arith, long), pinned)
    ]
  ]

  ed25519-Fits :
      (s : CallerSpec) (b : Option String)
      → s.pubkey_b64 ≡ b
      → FitsAll s (resolve_ed25519 k s.key_sha256 b)
  unfolding resolve_ed25519
  ed25519-Fits s none given = tt
  ed25519-Fits s (some b) given = by_pubkey-Fits s b (k.b64decode b) given refl

  resolve_caller-Fits : (s : CallerSpec) → FitsAll s (resolve_caller k s)
  unfolding resolve_caller
  resolve_caller-Fits s = elim (Bool-cases (alg_of k s.alg == "hmac")) [
    | inl shared ↦ rw shared (hmac-Fits s s.key_hex s.key_env refl refl)
    | inr unshared ↦ elim (Bool-cases (alg_of k s.alg == "ed25519")) [
      | inl public ↦ rw (unshared, public) (ed25519-Fits s s.pubkey_b64 refl)
      | inr neither ↦ rw (unshared, neither) tt
    ]
  ]

  -- The caller that the gate keeps of an entry.
  abbrev IsLoaded : NamedSpec → Host → Caller → Type 0
  IsLoaded n h c =
      (grants : List Grant) × (parse_grants h n.spec.grants ≡ some grants)
      × (c ≡ caller_of k n.name (resolve_caller k n.spec) grants)

  Fits-usable :
      (s : CallerSpec) (r : Resolved) (name : String) (grants : List Grant)
      → FitsAll s r
      → (caller_of k name r grants).key_error ≡ none
      → IsKey s r.alg r.key
  Fits-usable s r name grants fit usable = elim (Option-cases r.error) [
    | inl fine ↦ rw fine at fit
    | inr (e, bad) ↦ absurd (ground (arith, bad))
  ]

  -- What the gate finds of a caller is what the policy says of it.
  loaded-find :
      (h : Host) (name : String) (ns : List NamedSpec) (cs : List Caller) (c : Caller)
      → load_callers h k ns ≡ some cs
      → find_caller name cs ≡ some c
      → c.key_error ≡ none
      → (s : CallerSpec) × (find_spec name ns ≡ some s)
        × IsKey s c.alg c.key
        × (parse_grants h s.grants ≡ some c.grants)
  unfolding load_callers find_caller find_spec
  loaded-find h name [] cs c e found usable = absurd (ground arith)
  loaded-find h name (n ∷ ns) cs c e found usable =
      elim (Option-cases (parse_grants h n.spec.grants)) [
        | inl bad ↦ absurd (ground (arith, bad))
        | inr (grants, parsed) ↦ elim (Option-cases (load_callers h k ns)) [
          | inl bad ↦ absurd (ground (arith, bad, parsed))
          | inr (rest, loaded) ↦ elim (Bool-cases (n.name == name)) [
            | inl here ↦
                let same : caller_of k n.name (resolve_caller k n.spec) grants ≡ c =
                  ground (arith, here, parsed, loaded) in
                let fit =
                  Fits-usable n.spec (resolve_caller k n.spec) n.name grants
                    (resolve_caller-Fits n.spec) (ap Caller.key_error same ∙ usable) in
                (
                  n.spec,
                  rw here refl,
                  subst (λ x. IsKey n.spec x.alg x.key) same fit,
                  parsed ∙ ap (λ x. some (x.grants)) same,
                )
            | inr there ↦
                let (s, named, key, kept) =
                  loaded-find h name ns rest c loaded (ground (arith, there, parsed, loaded))
                    usable in
                (s, ground (arith, named, there), key, kept)
          ]
        ]
      ]

  -- What a policy says of a request: the caller that it names is in the policy with a key of its own,
  -- which signed the request, and one of the grants of its entry covers it.
  pub record IsVouched (h : Host) (p : Policy) (now : ℕ) (request : Json) : Type 0 where
    pub asked : Shaped
    pub caller : Caller
    pub spec : CallerSpec
    pub shape : check_shape request ≡ shaped asked
    pub named : find_spec asked.caller p.callers ≡ some spec
    pub key : IsKey spec caller.alg caller.key
    pub signed : verify_signature h asked.fields caller ≡ true
    pub grants : parse_grants h spec.grants ≡ some caller.grants
    pub covered : IsCovered now asked caller.grants

  callers_of :
      (h : Host) (p : Policy) (seen : List String) (audit : List Fields) (g : Gate)
      → from_policy h k p seen audit ≡ some g
      → load_callers h k p.callers ≡ some g.callers
  unfolding from_policy
  callers_of h p seen audit g e = elim (Option-cases (load_callers h k p.callers)) [
    | inl bad ↦ absurd (ground (arith, bad))
    | inr (cs, loaded) ↦ elim (Option-cases (load_chain_tip audit)) [
      | inl bad ↦ absurd (ground (arith, bad, loaded))
      | inr (tip, fine) ↦ ground (arith, fine, loaded)
    ]
  ]

  -- If a gate that `from_policy` made allows a request, then the policy has an entry for the caller
  -- that the request names; the key that verified the request is the entry's own: the secret that it
  -- or the environment gives, or the public key of 32 bytes that it gives, with the fingerprint that it
  -- pins, if it does; and a grant of that entry covers the request.
  pub allow-IsVouched :
      (h : Host) (p : Policy) (seen : List String) (audit : List Fields) (g : Gate) (e t : ℕ)
      (request : Json)
      → from_policy h k p seen audit ≡ some g
      → (authorize h e t request g).0.allow ≡ true
      → IsVouched h p e request
  allow-IsVouched h p seen audit g e t request made allowed =
      let a = allow-IsAuthorized h e t request g allowed in
      let (spec, named, key, grants) =
        loaded-find h a.asked.caller p.callers g.callers a.caller (callers_of h p seen audit g made)
          a.known a.usable in
      record {
        asked = a.asked;
        caller = a.caller;
        spec = spec;
        shape = a.shape;
        named = named;
        key = key;
        signed = a.signed;
        grants = grants;
        covered = a.covered;
      }
