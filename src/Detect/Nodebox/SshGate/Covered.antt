-- ===== src/Detect/Nodebox/SshGate/Covered.antt =====
-- What an allowance of nodebox_sshgate.py's `authorize` rests on, and what a policy without issues adds.
use eight_call.Prelude.{
  ℕ, String, ◌≡◌, ◌≢◌, refl, ◌⊎◌, inl, inr, true, false, not, ◌&&◌, List, [], ◌∷◌, ◌++◌, none, some,
  ◌==◌, arith, eq_iff, nat_eq, contains, Bool-cases, Option-cases, if◌then◌else◌,
}
use eight_call.Detect.Nodebox.SshGate.{
  Grant, Principal, Policy, Asked, Matchers, within, contains_port, allowed_ports, is_login,
  forward_refusal, login_refusal, any_target, source_ok, refusal, first_grant, decide,
  find_principal, authorize,
}
use eight_call.Detect.Nodebox.SshGate.Validate.{
  Issue, duplicate_fingerprint, wrong_key, no_forcecommand, no_permitopen, wildcard_permitopen,
  no_port, grants_root, when, is_other_key, login_issues, any_wildcard, is_nil, is_none,
  target_issues, port_issues, user_issues, by_user, grant_issues, grants_issues, principal_issues,
  validate_policy,
}

-- A login names a port that the target allows, which is the grant's if the grant has one, and root only
-- under a grant of root.
pub record IsLogin (p : Policy) (g : Grant) (q : Asked) : Type 0 where
  pub port : ℕ
  pub named : q.port ≡ some port
  pub allowed : contains_port port (allowed_ports p q.target) ≡ true
  pub bound : (g.port ≡ none) ⊎ (g.port ≡ some port)
  pub rooted : q.as_root ≡ true → g.allow_root ≡ true

-- The key's own principal has a grant for the action and the target, in its time and from its sources,
-- with the forwarding that is asked for.
pub record IsCovered (m : Matchers) (p : Policy) (q : Asked) : Type 0 where
  pub principal : Principal
  pub grant : Grant
  pub known : find_principal m q.fingerprint p.principals ≡ some principal
  pub fingerprint : (principal.fingerprint == q.fingerprint) ≡ true
  pub granted : first_grant m principal.grants q ≡ some grant
  pub action : (grant.action == q.action) ≡ true
  pub target : any_target m grant.targets q.target ≡ true
  pub timely : within grant q.now ≡ true
  pub source : source_ok m grant.source_cidrs q.source_ip ≡ true
  pub forward : forward_refusal grant q ≡ none
  pub login : is_login q.action ≡ true → IsLogin p grant q

same_port : (a b : ℕ) → nat_eq a b ≡ true → a ≡ b
same_port a b h = ground arith

login-IsLogin : (p : Policy) (g : Grant) (q : Asked) → login_refusal p g q ≡ none → IsLogin p g q
unfolding login_refusal
login-IsLogin p g q h = elim (Option-cases q.port) [
  | inl missing ↦ absurd (ground arith)
  | inr (port, named) ↦ record {
    port = port;
    named = named;
    allowed = ground arith;
    bound = elim (Option-cases g.port) [
      | inl free ↦ inl free
      | inr (own, bound) ↦
          let e : own ≡ port = same_port own port (ground arith) in inr (cc (bound, e))
    ];
    rooted = λ asked. ground arith;
  }
]

module _ (m : Matchers) where
  found :
      (fingerprint : String) (xs : List Principal) (x : Principal)
      → find_principal m fingerprint xs ≡ some x
      → (x.fingerprint == fingerprint) ≡ true
  unfolding find_principal
  found fingerprint [] x h = absurd (ground arith)
  found fingerprint (y ∷ ys) x h = ground (arith, found fingerprint ys x)

  covering :
      (gs : List Grant) (q : Asked) (g : Grant)
      → first_grant m gs q ≡ some g
      → ((g.action == q.action) ≡ true) × (any_target m g.targets q.target ≡ true)
  unfolding first_grant
  covering [] q g h = absurd (ground arith)
  covering (x ∷ xs) q g h = ground (arith, covering xs q g)

  granted-IsCovered :
      (p : Policy) (id : String) (x : Principal) (g : Grant) (q : Asked)
      → find_principal m q.fingerprint p.principals ≡ some x
      → first_grant m x.grants q ≡ some g
      → refusal m p x.name g q ≡ none
      → IsCovered m p q
  unfolding refusal
  granted-IsCovered p id x g q known granted h = record {
    principal = x;
    grant = g;
    known = known;
    fingerprint = found q.fingerprint p.principals x known;
    granted = granted;
    action = (covering x.grants q g granted).0;
    target = (covering x.grants q g granted).1;
    timely = ground arith;
    source = ground arith;
    forward = ground arith;
    login = λ login. login-IsLogin p g q (ground arith);
  }

  -- Denied by default: an allowance is always covered by a grant of the principal whose fingerprint
  -- the key has, for this action on this target, now, from this source, with this forwarding; and a
  -- shell or a task has an explicit port that the target allows, and root only if the grant says so.
  pub authorize-IsCovered :
      (p : Policy) (id : String) (q : Asked) → (authorize m p id q).allow ≡ true → IsCovered m p q
  unfolding authorize decide
  authorize-IsCovered p id q h = elim (Option-cases (find_principal m q.fingerprint p.principals)) [
    | inl unknown ↦ absurd (ground arith)
    | inr (x, known) ↦ elim (Option-cases (first_grant m x.grants q)) [
      | inl missing ↦ absurd (ground arith)
      | inr (g, granted) ↦ granted-IsCovered p id x g q known granted (ground arith)
    ]
  ]

append-nil_inv : (xs ys : List Issue) → xs ++ ys ≡ [] → (xs ≡ []) × (ys ≡ [])
append-nil_inv [] ys h = (refl, h)
append-nil_inv (x ∷ xs) ys h = absurd (ground arith)

-- The third and the fifth of five lists that make an empty one.
third_inv : (a b c d e : List Issue) → a ++ (b ++ (c ++ (d ++ e))) ≡ [] → (c ≡ []) × (e ≡ [])
third_inv a b c d e h =
    let (_, bcde) = append-nil_inv a (b ++ (c ++ (d ++ e))) h in
    let (_, cde) = append-nil_inv b (c ++ (d ++ e)) bcde in
    let (third, de) = append-nil_inv c (d ++ e) cde in
    let (_, fifth) = append-nil_inv d e de in (third, fifth)

first-clean :
    (m : Matchers) (p : Policy) (name : String) (gs : List Grant) (q : Asked) (g : Grant)
    → first_grant m gs q ≡ some g
    → grants_issues p name gs ≡ []
    → grant_issues p name g ≡ []
unfolding first_grant grants_issues
first-clean m p name [] q g h clean = absurd (ground arith)
first-clean m p name (x ∷ xs) q g h clean =
    let (one, rest) = append-nil_inv (grant_issues p name x) (grants_issues p name xs) clean in
    elim (Bool-cases (x.action == q.action && any_target m x.targets q.target)) [
      | inl this ↦ let e : x ≡ g = ground arith in rw e at one
      | inr other ↦ first-clean m p name xs q g (ground arith) rest
    ]

principal-clean :
    (m : Matchers) (fp : String → String) (p : Policy) (seen : List String) (fingerprint : String)
    (xs : List Principal) (x : Principal)
    → find_principal m fingerprint xs ≡ some x
    → principal_issues fp p seen xs ≡ []
    → grants_issues p x.name x.grants ≡ []
unfolding find_principal principal_issues
principal-clean m fp p seen fingerprint [] x h clean = absurd (ground arith)
principal-clean m fp p seen fingerprint (y ∷ ys) x h clean =
    let (grants, rest) =
      third_inv (when (contains y.fingerprint seen) (duplicate_fingerprint y.name))
        (when (is_other_key fp y) (wrong_key y.name)) (grants_issues p y.name y.grants)
        (user_issues y.name (by_user y y.grants []))
        (principal_issues fp p (y.fingerprint ∷ seen) ys) clean in
    elim (Bool-cases (not (y.fingerprint == "") && y.fingerprint == fingerprint)) [
      | inl this ↦ let e : y ≡ x = ground arith in rw e at grants
      | inr other ↦
          principal-clean m fp p (y.fingerprint ∷ seen) fingerprint ys x (ground arith) rest
    ]

login-clean :
    (p : Policy) (name : String) (g : Grant)
    → is_login g.action ≡ true
    → grant_issues p name g ≡ []
    → (g.allow_root ≡ false) × (g.port ≢ none)
unfolding grant_issues
login-clean p name g login clean =
    let (_, logins) =
      third_inv (target_issues p name g.targets)
        (when (g.action == "task" && g.forcecommand == "") (no_forcecommand name))
        (when (g.action == "forward" && is_nil g.permitopen) (no_permitopen name))
        (when (g.action == "forward" && any_wildcard g.permitopen) (wildcard_permitopen name))
        (if is_login g.action then login_issues p name g else []) clean in
    let all : login_issues p name g ≡ [] = rw login at logins in
    let (port, more) = append-nil_inv (when (is_none g.port) (no_port name g.action)) _ all in
    let (_, root) =
      append-nil_inv (port_issues p name g.port g.targets)
        (when g.allow_root (grants_root name g.targets)) more in
    (ground arith, λ missing. ground arith)

-- Under a policy in which `validate_policy` finds no issue, no shell or task is ever allowed as root,
-- and one that is allowed uses exactly the port that its grant names.
pub validated-login :
    (m : Matchers) (fp : String → String) (p : Policy) (id : String) (q : Asked)
    → validate_policy fp p ≡ []
    → is_login q.action ≡ true
    → (authorize m p id q).allow ≡ true
    → (q.as_root ≡ false) × ((g : Grant) × (port : ℕ) × (g.port ≡ some port) × (q.port ≡ some port))
unfolding validate_policy
validated-login m fp p id q clean login allowed =
    let c = authorize-IsCovered m p id q allowed in
    let grants = principal-clean m fp p [] q.fingerprint p.principals c.principal c.known clean in
    let grant = first-clean m p c.principal.name c.principal.grants q c.grant c.granted grants in
    let same : c.grant.action ≡ q.action = (eq_iff c.grant.action q.action).0 c.action in
    let (unrooted, ported) = login-clean p c.principal.name c.grant (rw same login) grant in
    let l = c.login login in
    (
      ground arith,
      (c.grant, l.port, elim l.bound [ inl free ↦ absurd (ported free) | inr own ↦ own ], l.named),
    )
