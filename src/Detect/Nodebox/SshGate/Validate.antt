-- ===== src/Detect/Nodebox/SshGate/Validate.antt =====
-- nodebox_sshgate.py: `validate_policy`. An issue is kept before it is formatted.
use eight_call.Prelude.{
  ℕ, String, Bool, true, false, not, ◌&&◌, ◌||◌, List, [], ◌∷◌, ◌++◌, Option, none, some, ◌==◌,
  nat_eq, contains, if◌then◌else◌,
}
use eight_call.Broker.Registry.Params.{codes}
use eight_call.Detect.Nodebox.SshGate.{
  Grant, Principal, HostEntry, Policy, is_login, contains_port, allowed_ports,
}

pub data Issue : Type 0 where
  duplicate_fingerprint wrong_key no_forcecommand no_permitopen wildcard_permitopen : String → Issue
  no_sshd : String → String → Issue
  no_port : String → String → Issue
  port_not_allowed : String → ℕ → String → Issue
  grants_root : String → List String → Issue
  mixed_actions : String → String → List String → Issue

-- An issue, if the test says so.
abbrev pub when : Bool → Issue → List Issue
when true i = i ∷ []
when false i = []

abbrev runs_sshd : List HostEntry → String → Bool
runs_sshd [] target = true
runs_sshd (h ∷ hs) target = if h.name == target then h.sshd else runs_sshd hs target

unfoldable pub target_issues : Policy → String → List String → List Issue
target_issues p name [] = []
target_issues p name (t ∷ ts) =
    when (not (runs_sshd p.hosts t)) (no_sshd name t) ++ target_issues p name ts

abbrev has_wildcard : List ℕ → Bool
has_wildcard [] = false
has_wildcard (c ∷ cs) = nat_eq c b'*' || has_wildcard cs

abbrev pub any_wildcard : List String → Bool
any_wildcard [] = false
any_wildcard (t ∷ ts) = has_wildcard (codes t) || any_wildcard ts

abbrev pub is_none : Option ℕ → Bool
is_none none = true
is_none (some p) = false

abbrev pub is_nil : List String → Bool
is_nil [] = true
is_nil (t ∷ ts) = false

abbrev off_port : Policy → String → Option ℕ → String → List Issue
off_port p name none t = []
off_port p name (some port) t =
    when (not (contains_port port (allowed_ports p t))) (port_not_allowed name port t)

unfoldable pub port_issues : Policy → String → Option ℕ → List String → List Issue
unfolding contains_port allowed_ports
port_issues p name port [] = []
port_issues p name port (t ∷ ts) = off_port p name port t ++ port_issues p name port ts

abbrev pub login_issues : Policy → String → Grant → List Issue
login_issues p name g =
    when (is_none g.port) (no_port name g.action)
    ++ (port_issues p name g.port g.targets ++ when g.allow_root (grants_root name g.targets))

unfoldable pub grant_issues : Policy → String → Grant → List Issue
grant_issues p name g =
    target_issues p name g.targets
    ++ (when (g.action == "task" && g.forcecommand == "") (no_forcecommand name)
        ++ (when (g.action == "forward" && is_nil g.permitopen) (no_permitopen name)
            ++ (when (g.action == "forward" && any_wildcard g.permitopen) (wildcard_permitopen name)
                ++ (if is_login g.action then login_issues p name g else []))))

unfoldable pub grants_issues : Policy → String → List Grant → List Issue
grants_issues p name [] = []
grants_issues p name (g ∷ gs) = grant_issues p name g ++ grants_issues p name gs

-- The actions of each user, in the order in which they appear.
pub record UserActions : Type 0 where
  pub user : String
  pub actions : List String

unfoldable pub add_action : String → String → List UserActions → List UserActions
unfolding contains
add_action user action [] = record { user = user; actions = action ∷ [] } ∷ []
add_action user action (u ∷ us) =
    if u.user == user
    then (if contains action u.actions then u else record u { actions = action ∷ u.actions }) ∷ us
    else u ∷ add_action user action us

abbrev user_of : Principal → Grant → String
user_of x g = if g.sshd_user == "" then x.sshd_user else g.sshd_user

unfoldable pub by_user : Principal → List Grant → List UserActions → List UserActions
unfolding add_action
by_user x [] us = us
by_user x (g ∷ gs) us = by_user x gs (add_action (user_of x g) g.action us)

abbrev is_mixed : List String → Bool
is_mixed [] = false
is_mixed (a ∷ []) = false
is_mixed (a ∷ b ∷ as') = true

unfoldable pub user_issues : String → List UserActions → List Issue
user_issues name [] = []
user_issues name (u ∷ us) =
    when (is_mixed u.actions) (mixed_actions name u.user u.actions) ++ user_issues name us

-- `fingerprint_of` is OpenSSH's fingerprint of a line with a public key.
module _ (fingerprint_of : String → String) where
  abbrev pub is_other_key : Principal → Bool
  is_other_key x =
      not (x.key == "") && not (x.fingerprint == "") && not (fingerprint_of x.key == x.fingerprint)

  -- The loop over the principals; `seen` are the fingerprints so far.
  unfoldable pub principal_issues : Policy → List String → List Principal → List Issue
  principal_issues p seen [] = []
  principal_issues p seen (x ∷ xs) =
      when (contains x.fingerprint seen) (duplicate_fingerprint x.name)
      ++ (when (is_other_key x) (wrong_key x.name)
          ++ (grants_issues p x.name x.grants
              ++ (user_issues x.name (by_user x x.grants [])
                  ++ principal_issues p (x.fingerprint ∷ seen) xs)))

  unfoldable pub validate_policy : Policy → List Issue
  validate_policy p = principal_issues p [] p.principals
