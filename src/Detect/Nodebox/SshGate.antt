-- ===== src/Detect/Nodebox/SshGate.antt =====
-- nodebox_sshgate.py: the policy of the SSH gate and its decision. A field that the policy leaves out
-- is empty, and a port of zero is none.
pub mod Render
pub mod Validate
pub mod Covered
pub mod Enforced
use eight_call.Prelude.{
  ℕ, String, Bool, true, false, not, ◌&&◌, ◌||◌, List, [], ◌∷◌, Option, none, some, ◌==◌, ltb,
  nat_eq, contains, if◌then◌else◌,
}
use eight_call.Broker.Registry.Params.{codes}

-- Times count microseconds.
pub record Grant : Type 0 where
  pub action : String
  pub targets : List String
  pub not_before : Option ℕ
  pub not_after : Option ℕ
  pub source_cidrs : List String
  pub permitopen : List String
  pub permitlisten : List String
  pub port : Option ℕ
  pub allow_root : Bool
  pub sshd_user : String
  pub forcecommand : String

pub record Principal : Type 0 where
  pub name : String
  pub fingerprint : String
  pub key : String
  pub sshd_user : String
  pub grants : List Grant

-- An entry of "hosts" under its name.
pub record HostEntry : Type 0 where
  pub name : String
  pub sshd : Bool
  pub sshd_ports : List ℕ

pub record Policy : Type 0 where
  pub schema : String
  pub hosts : List HostEntry
  pub gate_ports : List ℕ
  pub principals : List Principal

pub data Reason : Type 0 where
  unknown_schema unknown_principal : Reason
  outside_window : String → Reason
  source_refused : Option String → Reason
  permitopen_refused permitlisten_refused : String → Reason
  port_required : String → Reason
  port_refused : ℕ → Reason
  bound_to_port : ℕ → ℕ → Reason
  root_refused : Reason
  no_grant : String → String → Reason
  matched : String → Reason

pub record Decision : Type 0 where
  pub allow : Bool
  pub reason : Reason
  pub decision_id : String
  pub principal : Option String
  pub grant : Option Grant

-- The arguments of `authorize`, with the time that it reads.
pub record Asked : Type 0 where
  pub fingerprint : String
  pub action : String
  pub target : String
  pub forward : Option String
  pub listen : Option String
  pub port : Option ℕ
  pub as_root : Bool
  pub source_ip : Option String
  pub now : ℕ

-- `fnmatchcase` on a name and a pattern, and whether an address is in a network; an address or a network
-- that does not parse raises, and is not modelled.
pub record Matchers : Type 0 where
  pub fnmatch : String → String → Bool
  pub in_network : String → String → Bool

abbrev is_before : Option ℕ → ℕ → Bool
is_before none now = false
is_before (some t) now = ltb now t

abbrev is_after : Option ℕ → ℕ → Bool
is_after none now = false
is_after (some t) now = ltb t now

unfoldable pub within : Grant → ℕ → Bool
within g now = if is_before g.not_before now then false else not (is_after g.not_after now)

abbrev has_star : List ℕ → Bool
has_star [] = false
has_star (c ∷ cs) = nat_eq c b'*' || has_star cs

-- `a or none`, for a text.
abbrev pub given : Option String → Option String
given none = none
given (some t) = if t == "" then none else some t

unfoldable pub contains_port : ℕ → List ℕ → Bool
contains_port p [] = false
contains_port p (q ∷ qs) = nat_eq q p || contains_port p qs

abbrev or_ports : List ℕ → List ℕ → List ℕ
or_ports [] behind = behind
or_ports (p ∷ ps) behind = p ∷ ps

abbrev ports_in : List HostEntry → String → List ℕ
ports_in [] target = []
ports_in (h ∷ hs) target = if h.name == target then h.sshd_ports else ports_in hs target

-- The ports of the target, those of the gate, or 22.
unfoldable pub allowed_ports : Policy → String → List ℕ
allowed_ports p target = or_ports (ports_in p.hosts target) (or_ports p.gate_ports (22 ∷ []))

abbrev pub is_login : String → Bool
is_login action = action == "shell" || action == "task"

-- "permitopen" before "permitlisten"; `none` is permitted.
unfoldable pub forward_refusal : Grant → Asked → Option Reason
forward_refusal g q = elim (given q.forward) [
  | some f ↦ if contains f g.permitopen then none else some (permitopen_refused f)
  | none ↦ elim (given q.listen) [
    | some l ↦ if contains l g.permitlisten then none else some (permitlisten_refused l)
    | none ↦ none
  ]
]

abbrev bound_elsewhere : Option ℕ → ℕ → Option Reason
bound_elsewhere none port = none
bound_elsewhere (some p) port = if nat_eq p port then none else some (bound_to_port p port)

-- No random shells: the port is explicit and allowed, and root is granted.
unfoldable pub login_refusal : Policy → Grant → Asked → Option Reason
login_refusal p g q = elim q.port [
  | none ↦ some (port_required q.action)
  | some port ↦
      if not (contains_port port (allowed_ports p q.target))
      then some (port_refused port)
      else elim (bound_elsewhere g.port port) [
        | some r ↦ some r
        | none ↦ if q.as_root && not g.allow_root then some root_refused else none
      ]
]

module _ (m : Matchers) where
  unfoldable pub target_match : String → String → Bool
  unfolding codes
  target_match pattern target =
      if has_star (codes pattern) then m.fnmatch target pattern else pattern == target

  unfoldable pub any_target : List String → String → Bool
  unfolding target_match
  any_target [] target = false
  any_target (t ∷ ts) target = target_match t target || any_target ts target

  unfoldable pub in_any : String → List String → Bool
  in_any ip [] = false
  in_any ip (c ∷ cs) = m.in_network ip c || in_any ip cs

  unfoldable pub source_ok : List String → Option String → Bool
  unfolding in_any
  source_ok [] ip = true
  source_ok (c ∷ cs) ip = elim (given ip) [ none ↦ false | some a ↦ in_any a (c ∷ cs) ]

  -- What the grant that matches says; `none` is an allowance.
  unfoldable pub refusal : Policy → String → Grant → Asked → Option Reason
  refusal p name g q =
      if not (within g q.now)
      then some (outside_window name)
      else if not (source_ok g.source_cidrs q.source_ip)
      then some (source_refused q.source_ip)
      else elim (forward_refusal g q) [
        | some r ↦ some r
        | none ↦ if is_login q.action then login_refusal p g q else none
      ]

  abbrev covers : Grant → Asked → Bool
  covers g q = g.action == q.action && any_target g.targets q.target

  -- The loop over the grants: the first one for the action and the target decides.
  unfoldable pub first_grant : List Grant → Asked → Option Grant
  first_grant [] q = none
  first_grant (g ∷ gs) q = if covers g q then some g else first_grant gs q

  abbrev conclude : String → String → Grant → Option Reason → Decision
  conclude id name g none = record {
    allow = true;
    reason = matched name;
    decision_id = id;
    principal = some name;
    grant = some g;
  }
  conclude id name g (some r) = record {
    allow = false;
    reason = r;
    decision_id = id;
    principal = some name;
    grant = some g;
  }

  unfoldable pub decide : Policy → String → Principal → Asked → Decision
  decide p id x q = elim (first_grant x.grants q) [
    | none ↦ record {
      allow = false;
      reason = no_grant q.action q.target;
      decision_id = id;
      principal = some x.name;
      grant = none;
    }
    | some g ↦ conclude id x.name g (refusal p x.name g q)
  ]

  unfoldable pub find_principal : String → List Principal → Option Principal
  find_principal fingerprint [] = none
  find_principal fingerprint (x ∷ xs) =
      if not (x.fingerprint == "") && x.fingerprint == fingerprint
      then some x
      else find_principal fingerprint xs

  abbrev refuse : String → Reason → Decision
  refuse id r = record {
    allow = false;
    reason = r;
    decision_id = id;
    principal = none;
    grant = none;
  }

  -- `id` is drawn at random.
  unfoldable pub authorize : Policy → String → Asked → Decision
  authorize p id q =
      if not (p.schema == "nodebox.sshgate/v1")
      then refuse id unknown_schema
      else elim (find_principal q.fingerprint p.principals) [
        | none ↦ refuse id unknown_principal
        | some x ↦ decide p id x q
      ]
