-- ===== src/Detect/Examples/Gated.antt =====
-- The SSH gate of detect/nodebox_sshgate.py on a small policy.
use eight_call.Prelude.{ℕ, String, ◌≡◌, refl, true, false, [], ◌∷◌, none, some, contains}
use eight_call.Broker.Registry.Params.{codes}
use eight_call.Detect.Nodebox.SshGate.{
  Grant, Principal, Policy, Asked, Matchers, within, contains_port, allowed_ports, forward_refusal,
  login_refusal, target_match, any_target, in_any, source_ok, refusal, first_grant, decide,
  find_principal, authorize,
}
use eight_call.Detect.Nodebox.SshGate.Validate.{
  target_issues, port_issues, grant_issues, grants_issues, add_action, by_user, user_issues,
  principal_issues, validate_policy,
}
use eight_call.Detect.Nodebox.SshGate.Covered.{IsCovered, authorize-IsCovered, validated-login}
use eight_call.Detect.Nodebox.SshGate.Enforced.{IsEnforced, authorize-IsEnforced}

abbrev matchers : Matchers
matchers = record { fnmatch = λ target pattern. false; in_network = λ ip cidr. true }

abbrev shell : Grant
shell = record {
  action = "shell";
  targets = "gw" ∷ [];
  not_before = none;
  not_after = none;
  source_cidrs = "10.0.0.0/8" ∷ [];
  permitopen = [];
  permitlisten = [];
  port = some 2222;
  allow_root = false;
  sshd_user = "gw-shell";
  forcecommand = "";
}

abbrev forward : Grant
forward = record shell {
  action = "forward";
  permitopen = "127.0.0.1:80" ∷ [];
  port = none;
  sshd_user = "gw-fwd";
}

abbrev operator : Principal
operator = record {
  name = "op";
  fingerprint = "SHA256:op";
  key = "ssh-ed25519 AAAA";
  sshd_user = "";
  grants = shell ∷ forward ∷ [];
}

abbrev policy : Policy
policy = record {
  schema = "nodebox.sshgate/v1";
  hosts = record { name = "gw"; sshd = true; sshd_ports = 2222 ∷ [] } ∷ [];
  gate_ports = [];
  principals = operator ∷ [];
}

abbrev login : Asked
login = record {
  fingerprint = "SHA256:op";
  action = "shell";
  target = "gw";
  forward = none;
  listen = none;
  port = some 2222;
  as_root = false;
  source_ip = some "10.1.1.1";
  now = 5;
}

abbrev tunnel : Asked
tunnel = record login { action = "forward"; forward = some "127.0.0.1:80"; port = none }

abbrev print : String → String
print key = "SHA256:op"

ran :
    ((authorize matchers policy "d1" login).allow ≡ true)
    × ((authorize matchers policy "d2" tunnel).allow ≡ true)
    × (validate_policy print policy ≡ [])
    × (find_principal matchers "SHA256:op" policy.principals ≡ some operator)
unfolding authorize find_principal decide first_grant any_target target_match codes refusal within
    source_ok in_any forward_refusal login_refusal allowed_ports contains_port contains
    validate_policy principal_issues grants_issues grant_issues target_issues port_issues by_user
    add_action user_issues
ran = (refl, refl, refl, refl)

authorize-IsCovered_example : IsCovered matchers policy login
authorize-IsCovered_example = authorize-IsCovered matchers policy "d1" login ran.0

validated-login_example :
    (login.as_root ≡ false)
    × ((g : Grant) × (port : ℕ) × (g.port ≡ some port) × (login.port ≡ some port))
validated-login_example = validated-login matchers print policy "d1" login ran.2 refl ran.0

authorize-IsEnforced_example :
    (g : Grant) × (first_grant matchers operator.grants tunnel ≡ some g)
    × IsEnforced policy operator g "127.0.0.1:80"
authorize-IsEnforced_example =
    authorize-IsEnforced matchers policy "d2" tunnel "127.0.0.1:80" operator ran.3 refl refl refl
      refl ran.1
