-- ===== src/Detect/Nodebox/SshGate/Render.antt =====
-- nodebox_sshgate.py: `render_authorized_keys`, the lines that sshd enforces.
use Prim.Native.String.{◌++◌ as concat}
use eight_call.Prelude.{String, List, [], ◌∷◌, ◌++◌, ◌==◌, if◌then◌else◌}
use eight_call.Detect.Nodebox.SshGate.{Grant, Principal, Policy}

-- `between.join(words)`.
unfoldable pub join : String → List String → String
join between [] = ""
join between (w ∷ []) = w
join between (w ∷ v ∷ ws) = concat w (concat between (join between (v ∷ ws)))

abbrev pub quoted : String → String → String
quoted name value = concat name (concat "=\"" (concat value "\""))

unfoldable pub each_option : String → List String → List String
each_option name [] = []
each_option name (v ∷ vs) = quoted name v ∷ each_option name vs

abbrev pub from_option : List String → List String
from_option [] = []
from_option (c ∷ cs) = quoted "from" (join "," (c ∷ cs)) ∷ []

abbrev pub action_options : Grant → List String
action_options g =
    if g.action == "forward"
    then "port-forwarding"
      ∷ (each_option "permitopen" g.permitopen
          ++ (each_option "permitlisten" g.permitlisten ++ "no-pty" ∷ []))
    else if g.action == "task"
    then quoted "command" g.forcecommand ∷ []
    else if g.action == "shell"
    then "pty" ∷ []
    else []

unfoldable pub grant_options : Grant → List String
unfolding join each_option
grant_options g = "restrict" ∷ (from_option g.source_cidrs ++ action_options g)

unfoldable pub key_line : Principal → Grant → String
unfolding grant_options join
key_line x g = concat (join "," (grant_options g)) (concat " " x.key)

unfoldable pub key_lines : Principal → List Grant → List String
unfolding key_line
key_lines x [] = []
key_lines x (g ∷ gs) = key_line x g ∷ key_lines x gs

unfoldable pub render_principals : List Principal → String → List String
unfolding key_lines
render_principals [] name = []
render_principals (x ∷ xs) name =
    let rest = render_principals xs name in
    if x.name == name then (if x.key == "" then rest else key_lines x x.grants ++ rest) else rest

unfoldable pub render_authorized_keys : Policy → String → List String
unfolding render_principals
render_authorized_keys p name = render_principals p.principals name
