-- ===== src/Detect/Examples/Connected.antt =====
-- A session of detect/nodebox_broker.py over an inventory with one node and one task.
use eight_call.Prelude.{◌≡◌, refl, [], ◌∷◌, List, some, none, Option}
use eight_call.Broker.Json
use eight_call.Broker.Json.{text, num, arr, nil, item, end, field}
use eight_call.Prelude.{pos}
use eight_call.Broker.Registry.Params.{codes}
use eight_call.Detect.Redact.{Text}
use eight_call.Detect.Nodebox.Ssh.{Node, Process, Result, Requested, argv_for, ssh_session}
use eight_call.Detect.Nodebox.Ssh.Words.{
  CommandLine, SshOption, with_argument, read_words, read_options, read_letters, takes_argument,
}

abbrev process : Process
process = record {
  show = λ v. codes "shown";
  home_known_hosts = "/home/op/.ssh/known_hosts";
  control_path = codes "/run/user/1000/nodebox/cm-%C";
}

abbrev node : Node
node = record {
  key = "node-0";
  fields = field "alias" (text "vm") (
      field "address" (text "10.0.0.2")
        (field "user" (text "admin") (field "port" (num (pos 2222)) end)));
  tasks = record { name = "uptime"; remote_command = some (arr (item (text "uptime") nil)) } ∷ [];
}

abbrev nodes : List Node
nodes = node ∷ []

abbrev argv : List Text
argv =
    argv_for process node (codes "-p" ∷ codes "2222" ∷ []) (codes "admin") (codes "10.0.0.2")
      (codes "uptime" ∷ [])

abbrev session : Result (List Text) × List Requested
session = ssh_session process nodes "vm" "scheduled_task" (some "uptime") "s1" []

abbrev options_of : Option CommandLine → List SshOption
options_of none = []
options_of (some l) = l.options

-- A task that begins with an option gives ssh that option, behind its destination.
injected :
    options_of
      (read_words (codes "admin@10.0.0.2" ∷ codes "-oProxyCommand=evil" ∷ codes "uptime" ∷ []))
    ≡ with_argument b'o' (codes "ProxyCommand=evil") ∷ []
unfolding read_words read_options read_letters takes_argument codes
injected = refl
