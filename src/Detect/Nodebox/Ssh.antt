-- ===== src/Detect/Nodebox/Ssh.antt =====
-- nodebox_broker.py: the SSH admin plane. A word of the command line is the list of its code points. A
-- node's "tasks" are a dict of dicts.
pub mod Words
pub mod Reviewed
use eight_call.Prelude.{
  ℕ, suc, ◌+◌, String, Bool, true, false, not, ◌&&◌, ◌||◌, List, [], ◌∷◌, ◌++◌, Option, none, some,
  ◌==◌, ◌≡◌, refl, ◌⊎◌, inl, inr, ℤ, pos, negsuc, nat_eq, is_some, if◌then◌else◌,
}
use eight_call.Broker.Json
use eight_call.Broker.Json.{
  Json, Items, Fields, null, bool, num, text, arr, obj, nil, item, end, field,
}
use eight_call.Broker.Registry.Params.{codes, int_of}
use eight_call.Detect.Redact.{Text, decimal}

-- A task under its name, with its "remote_command".
pub record Task : Type 0 where
  pub name : String
  pub remote_command : Option Json

-- An entry of "nodes": its key, its fields, and its tasks.
pub record Node : Type 0 where
  pub key : String
  pub fields : Fields
  pub tasks : List Task

-- The messages of `BrokerError`, before they are formatted.
pub data BrokerError : Type 0 where
  unknown_node : String → BrokerError
  no_sshd : String → Json → BrokerError
  unknown_task no_remote_command : String → BrokerError
  invalid_field : String → BrokerError
  missing_address missing_task arbitrary_command : BrokerError
  bad_port : BrokerError
  unknown_kind : String → BrokerError

pub data Result (A : Type 0) : Type 0 where
  ok : A → Result A
  error : BrokerError → Result A

pub Result-cases :
    {A : Type 0} (r : Result A) → ((e : BrokerError) × (r ≡ error e)) ⊎ ((a : A) × (r ≡ ok a))
Result-cases (error e) = inl (e, refl)
Result-cases (ok a) = inr (a, refl)

-- `f"{value}"` of what is no text, and the paths that the process finds.
pub record Process : Type 0 where
  pub show : Json → Text
  pub home_known_hosts : String
  pub control_path : Text

unfoldable pub with_key : List Node → String → Option Node
with_key [] selector = none
with_key (n ∷ ns) selector = if n.key == selector then some n else with_key ns selector

abbrev is_text : Option Json → String → Bool
is_text (some (text t)) u = t == u
is_text _ u = false

unfoldable pub with_alias : List Node → String → Option Node
unfolding Json.get
with_alias [] selector = none
with_alias (n ∷ ns) selector =
    if is_text (Json.get "alias" n.fields) selector then some n else with_alias ns selector

abbrev is_false : Option Json → Bool
is_false (some (bool b)) = not b
is_false _ = false

abbrev note_of : Option Json → Json
note_of none = text "host does not run sshd"
note_of (some v) = v

abbrev reachable : String → Option Node → Result Node
reachable selector none = error (unknown_node selector)
reachable selector (some n) =
    if is_false (Json.get "sshd" n.fields)
    then error (no_sshd selector (note_of (Json.get "note" n.fields)))
    else ok n

unfoldable pub resolve_node : List Node → String → Result Node
unfolding with_key with_alias Json.get
resolve_node nodes selector =
    reachable selector
      (elim (with_key nodes selector) [ none ↦ with_alias nodes selector | some n ↦ some n ])

unfoldable pub find_task : List Task → String → Option Task
find_task [] id = none
find_task (t ∷ ts) id = if t.name == id then some t else find_task ts id

-- The words of a list of texts.
abbrev words_of : Items → Option (List Text)
words_of nil = some []
words_of (item (text t) vs) = elim (words_of vs) [ none ↦ none | some ws ↦ some (codes t ∷ ws) ]
words_of (item _ vs) = none

abbrev pub command_of : Option Json → Option (List Text)
command_of (some (arr (item v vs))) = words_of (item v vs)
command_of _ = none

unfoldable pub resolve_task : Node → String → Result (List Text)
unfolding find_task
resolve_task node id = elim (find_task node.tasks id) [
  | none ↦ error (unknown_task id)
  | some t ↦ elim (command_of t.remote_command) [
    | none ↦ error (no_remote_command id)
    | some ws ↦ ok ws
  ]
]

abbrev pub starts_with_dash : Text → Bool
starts_with_dash [] = false
starts_with_dash (c ∷ cs) = nat_eq c b'-'

unfoldable pub safe_token : String → Json → Result Text
safe_token name (text t) =
    if t == "" || starts_with_dash (codes t) then error (invalid_field name) else ok (codes t)
safe_token name _ = error (invalid_field name)

-- `str(n)`.
abbrev pub decimal_ℤ : ℤ → Text
decimal_ℤ (pos n) = decimal n
decimal_ℤ (negsuc n) = b'-' ∷ decimal (suc n)

unfoldable pub port_words : Option Json → Result (List Text)
unfolding int_of decimal
port_words none = ok []
port_words (some null) = ok []
port_words (some v) = elim (int_of v) [
  | none ↦ error bad_port
  | some n ↦ ok (codes "-p" ∷ decimal_ℤ n ∷ [])
]

unfoldable pub with_options : List Text → List Text → List Text
with_options [] behind = behind
with_options (o ∷ os) behind = codes "-o" ∷ o ∷ with_options os behind

-- What the event of a session tells.
pub record Requested : Type 0 where
  pub node : Node
  pub request_kind : String
  pub session_id : String
  pub task_id : Option String
  pub is_allowlisted : Bool

abbrev pub is_command : List Text → Bool
is_command [] = false
is_command (w ∷ ws) = true

abbrev pub command_for : Node → String → Option String → Result (List Text)
command_for node kind task =
    if kind == "interactive_shell"
    then ok []
    else if kind == "scheduled_task"
    then elim task [
      | none ↦ error missing_task
      | some id ↦ if id == "" then error missing_task else resolve_task node id
    ]
    else error (unknown_kind kind)

module _ (p : Process) where
  abbrev shown : Json → Text
  shown (text t) = codes t
  shown v = p.show v

  -- `node.get("known_hosts") or ...`.
  abbrev known_hosts : Option Json → Text
  known_hosts none = codes p.home_known_hosts
  known_hosts (some null) = codes p.home_known_hosts
  known_hosts (some (bool b)) = if b then p.show (bool b) else codes p.home_known_hosts
  known_hosts (some (num n)) = elim n [
    | pos m ↦ if nat_eq m 0 then codes p.home_known_hosts else p.show (num (pos m))
    | negsuc m ↦ p.show (num (negsuc m))
  ]
  known_hosts (some (text t)) = if t == "" then codes p.home_known_hosts else codes t
  known_hosts (some (arr vs)) = elim vs [
    | nil ↦ codes p.home_known_hosts
    | item w ws ↦ p.show (arr (item w ws))
  ]
  known_hosts (some (obj d)) = elim d [
    | end ↦ codes p.home_known_hosts
    | field k w e ↦ p.show (obj (field k w e))
  ]

  abbrev key_alias : Node → Option Json → Text
  key_alias node none = codes node.key
  key_alias node (some v) = shown v

  -- The values of the hardened options, each behind "-o".
  unfoldable pub hardened : Node → List Text
  unfolding codes Json.get
  hardened node =
      codes "StrictHostKeyChecking=yes"
      ∷ (codes "UserKnownHostsFile=" ++ known_hosts (Json.get "known_hosts" node.fields))
      ∷ codes "GlobalKnownHostsFile=/dev/null"
      ∷ (codes "HostKeyAlias=" ++ key_alias node (Json.get "host_key_alias" node.fields))
      ∷ codes "ForwardAgent=no"
      ∷ codes "ClearAllForwardings=yes"
      ∷ codes "ControlMaster=auto"
      ∷ (codes "ControlPath=" ++ p.control_path)
      ∷ codes "ControlPersist=5m"
      ∷ []

  unfoldable pub argv_for : Node → List Text → Text → Text → List Text → List Text
  unfolding hardened with_options
  argv_for node port user address command =
      codes "ssh" ∷ with_options (hardened node) (port ++ ((user ++ (b'@' ∷ address)) ∷ command))

  abbrev pub with_address : Node → List Text → Result Text → Result Text → Result (List Text)
  with_address node command (error e) address = error e
  with_address node command (ok user) (error e) = error e
  with_address node command (ok user) (ok address) =
      elim (port_words (Json.get "port" node.fields)) [
        | error e ↦ error e
        | ok port ↦ ok (argv_for node port user address command)
      ]

  -- No command is the empty list, which Python's test does not tell from None.
  unfoldable pub build_ssh_argv : Node → List Text → Result (List Text)
  unfolding safe_token port_words argv_for Json.get
  build_ssh_argv node command = elim (Json.get "address" node.fields) [
    | none ↦ error missing_address
    | some address ↦ elim (Json.get "user" node.fields) [
      | none ↦ error missing_address
      | some user ↦
          with_address node command (safe_token "user" user) (safe_token "address" address)
    ]
  ]

  -- The command line, with the events so far, the latest first.
  unfoldable pub ssh_session :
      List Node
      → String
      → String
      → Option String
      → String
      → List Requested
      → Result (List Text) × List Requested
  unfolding resolve_node resolve_task build_ssh_argv
  ssh_session nodes selector kind task session_id events = elim (resolve_node nodes selector) [
    | error e ↦ (error e, events)
    | ok node ↦ elim (command_for node kind task) [
      | error e ↦ (error e, events)
      | ok command ↦ elim (build_ssh_argv node command) [
        | error e ↦ (error e, events)
        | ok argv ↦ (
          ok argv,
          record {
            node = node;
            request_kind = kind;
            session_id = session_id;
            task_id = task;
            is_allowlisted = is_command command;
          }
              ∷ events,
        )
      ]
    ]
  ]

unfoldable pub reject_arbitrary : Option String → Option BrokerError
reject_arbitrary none = none
reject_arbitrary (some command) = if command == "" then none else some arbitrary_command
