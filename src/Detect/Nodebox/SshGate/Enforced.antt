-- ===== src/Detect/Nodebox/SshGate/Enforced.antt =====
-- What nodebox_sshgate.py's `render_authorized_keys` lets sshd enforce, against what `authorize` allows.
use eight_call.Prelude.{
  String, ◌≡◌, refl, ◌∙◌, inl, inr, true, false, not, ◌&&◌, List, [], ◌∷◌, ◌++◌, none, some, ◌==◌,
  arith, eq_iff, eq_refl, contains, Bool-cases,
}
use eight_call.Detect.Nodebox.SshGate.{
  Grant, Principal, Policy, Asked, Matchers, forward_refusal, first_grant, find_principal,
  authorize, any_target,
}
use eight_call.Detect.Nodebox.SshGate.Render.{
  quoted, each_option, from_option, action_options, grant_options, key_line, key_lines,
  render_principals, render_authorized_keys,
}
use eight_call.Detect.Nodebox.SshGate.Covered.{authorize-IsCovered}

contains-left :
    (t : String) (xs ys : List String) → contains t xs ≡ true → contains t (xs ++ ys) ≡ true
unfolding contains
contains-left t [] ys h = absurd (ground arith)
contains-left t (x ∷ xs) ys h = ground (arith, contains-left t xs ys)

contains-right :
    (t : String) (xs ys : List String) → contains t ys ≡ true → contains t (xs ++ ys) ≡ true
unfolding contains
contains-right t [] ys h = h
contains-right t (x ∷ xs) ys h = ground (arith, contains-right t xs ys h)

each_option-contains :
    (name value : String) (vs : List String)
    → contains value vs ≡ true
    → contains (quoted name value) (each_option name vs) ≡ true
unfolding contains each_option
each_option-contains name value [] h = absurd (ground arith)
each_option-contains name value (v ∷ vs) h =
    ground (arith, eq_iff v value, eq_refl (quoted name value), each_option-contains name value vs)

line-contains :
    (x : Principal) (gs : List Grant) (m : Matchers) (q : Asked) (g : Grant)
    → first_grant m gs q ≡ some g
    → contains (key_line x g) (key_lines x gs) ≡ true
unfolding first_grant key_lines contains
line-contains x [] m q g h = absurd (ground arith)
line-contains x (y ∷ ys) m q g h =
    elim (Bool-cases (y.action == q.action && any_target m y.targets q.target)) [
      | inl this ↦ let e : y ≡ g = ground arith in rw e (ground (arith, eq_refl (key_line x g)))
      | inr other ↦ let rest = line-contains x ys m q g (ground arith) in ground (arith, rest)
    ]

principal-contains :
    (m : Matchers) (fingerprint line : String) (xs : List Principal) (x : Principal)
    → find_principal m fingerprint xs ≡ some x
    → (x.key == "") ≡ false
    → contains line (key_lines x x.grants) ≡ true
    → contains line (render_principals xs x.name) ≡ true
unfolding find_principal render_principals
principal-contains m fingerprint line [] x h keyed there = absurd (ground arith)
principal-contains m fingerprint line (y ∷ ys) x h keyed there =
    elim (Bool-cases (not (y.fingerprint == "") && y.fingerprint == fingerprint)) [
      | inl this ↦
          let e : y ≡ x = ground arith in
          rw e (
            rw (eq_refl x.name, keyed)
              (contains-left line (key_lines x x.grants) (render_principals ys x.name) there))
      | inr other ↦
          let rest = principal-contains m fingerprint line ys x (ground arith) keyed there in
          ground
            (arith, contains-right line (key_lines y y.grants) (render_principals ys x.name) rest)
    ]

forward-listed :
    (g : Grant) (q : Asked) (f : String)
    → q.forward ≡ some f
    → (f == "") ≡ false
    → forward_refusal g q ≡ none
    → contains f g.permitopen ≡ true
unfolding forward_refusal
forward-listed g q f asked full h = ground arith

contains-cons :
    (t u : String) (xs : List String) → contains t xs ≡ true → contains t (u ∷ xs) ≡ true
unfolding contains
contains-cons t u xs h = ground arith

options-contain :
    (g : Grant) (f : String)
    → g.action ≡ "forward"
    → contains f g.permitopen ≡ true
    → (contains "restrict" (grant_options g) ≡ true)
      × (contains "port-forwarding" (grant_options g) ≡ true)
      × (contains (quoted "permitopen" f) (grant_options g) ≡ true)
unfolding grant_options contains
options-contain g f forward listed =
    let from = from_option g.source_cidrs in
    let opens = each_option "permitopen" g.permitopen in
    let listens = each_option "permitlisten" g.permitlisten in
    let behind = opens ++ (listens ++ "no-pty" ∷ []) in
    let actions : action_options g ≡ "port-forwarding" ∷ behind = rw forward in
    (
      refl,
      rw actions (
          contains-right "port-forwarding" from ("port-forwarding" ∷ behind)
            (ground (arith, eq_refl "port-forwarding"))),
      contains-cons (quoted "permitopen" f) "restrict" (from ++ action_options g) (
          rw actions (
            contains-right (quoted "permitopen" f) from ("port-forwarding" ∷ behind) (
              contains-cons (quoted "permitopen" f) "port-forwarding" behind (
                contains-left (quoted "permitopen" f) opens (listens ++ "no-pty" ∷ [])
                  (each_option-contains "permitopen" f g.permitopen listed))))),
    )

-- The line of the grant is among those that are rendered for the principal; it restricts, and it opens
-- the forwarding `f`.
pub record IsEnforced (p : Policy) (x : Principal) (g : Grant) (f : String) : Type 0 where
  pub rendered : contains (key_line x g) (render_authorized_keys p x.name) ≡ true
  pub restricted : contains "restrict" (grant_options g) ≡ true
  pub forwards : contains "port-forwarding" (grant_options g) ≡ true
  pub opened : contains (quoted "permitopen" f) (grant_options g) ≡ true

-- What the gate allows as a forwarding, sshd is told to permit: if `authorize` allows a forwarding to
-- `f` to a principal of the policy that has a key, then the keys that are rendered for it have a line
-- of the grant that decided, which restricts everything and opens that forwarding.
pub authorize-IsEnforced :
    (m : Matchers) (p : Policy) (id : String) (q : Asked) (f : String) (x : Principal)
    → find_principal m q.fingerprint p.principals ≡ some x
    → (x.key == "") ≡ false
    → q.action ≡ "forward"
    → q.forward ≡ some f
    → (f == "") ≡ false
    → (authorize m p id q).allow ≡ true
    → (g : Grant) × (first_grant m x.grants q ≡ some g) × IsEnforced p x g f
unfolding render_authorized_keys
authorize-IsEnforced m p id q f x known keyed action asked full allowed =
    let c = authorize-IsCovered m p id q allowed in
    let e : c.principal ≡ x = cc (c.known, known) in
    let granted : first_grant m x.grants q ≡ some c.grant = rw e at c.granted in
    let line = line-contains x x.grants m q c.grant granted in
    let forward : c.grant.action ≡ "forward" =
      (eq_iff c.grant.action q.action).0 c.action ∙ action in
    let listed = forward-listed c.grant q f asked full c.forward in
    let options = options-contain c.grant f forward listed in
    (
      c.grant,
      granted,
      record {
        rendered =
            principal-contains m q.fingerprint (key_line x c.grant) p.principals x known keyed line;
        restricted = options.0;
        forwards = options.1;
        opened = options.2;
      },
    )
