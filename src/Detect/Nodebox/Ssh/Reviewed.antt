-- ===== src/Detect/Nodebox/Ssh/Reviewed.antt =====
-- What a session of nodebox_broker.py's `ssh_session` may run, and what it leaves behind.
use eight_call.Prelude.{String, ◌≡◌, ◌⊎◌, true, List, [], ◌∷◌, Option, some, ◌==◌}
use eight_call.Detect.Redact.{Text}
use eight_call.Detect.Nodebox.Ssh.{
  Node, Task, Process, Requested, ok, resolve_node, find_task, command_of, is_command,
}
use eight_call.Detect.Nodebox.Ssh.Words.{IsHardened}

-- The command of a session: none for a shell, or the whole reviewed command of a task of the node.
abbrev IsReviewed : Node → String → Option String → List Text → Type 0
IsReviewed node kind task command =
    (((kind == "interactive_shell") ≡ true) × (command ≡ []))
    ⊎ ((id : String) × (t : Task) × ((kind == "scheduled_task") ≡ true)
        × (task ≡ some id)
        × (find_task node.tasks id ≡ some t)
        × (command_of t.remote_command ≡ some command))

-- A session that is built: the node that is found for the selector, a command that was reviewed, the
-- command line of both, and one event that tells of them.
pub record IsBuilt (p : Process) (nodes : List Node) (selector kind : String) (task : Option String)
    (session_id : String) (events : List Requested) (argv : List Text) (events' : List Requested)
    : Type 0 where
  pub node : Node
  pub command : List Text
  pub found : resolve_node nodes selector ≡ ok node
  pub reviewed : IsReviewed node kind task command
  pub hardened : IsHardened p node command argv
  pub told :
      events'
      ≡ record {
        node = node;
        request_kind = kind;
        session_id = session_id;
        task_id = task;
        is_allowlisted = is_command command;
      }
        ∷ events
