-- ===== src/Detect/Nodebox/Ssh/Words.antt =====
-- How ssh reads the command line that nodebox_broker.py builds.
use eight_call.Prelude.{
  ℕ, ◌⊎◌, true, not, ◌||◌, nat_eq, Bool, String, ◌≡◌, false, List, [], ◌∷◌, ◌++◌, Option, none,
  some, ℤ, if◌then◌else◌,
}
use eight_call.Broker.Json
use eight_call.Broker.Json.{Json, Fields, text}
use eight_call.Broker.Registry.Params.{codes}
use eight_call.Detect.Redact.{Text}
use eight_call.Detect.Nodebox.Ssh.{Node, Process, hardened, decimal_ℤ}

-- An option of ssh, by its letter.
pub data SshOption : Type 0 where
  flag : ℕ → SshOption
  with_argument : ℕ → Text → SshOption

-- The options that ssh's manual gives an argument.
abbrev pub letters_with_argument : Text
letters_with_argument = codes "BbcDEeFIiJLlmOoPpQRSWw"

unfoldable pub takes_argument : ℕ → Text → Bool
takes_argument c [] = false
takes_argument c (x ∷ xs) = nat_eq x c || takes_argument c xs

-- The argument is the rest of the word, or else the next word.
abbrev attached : ℕ → Text → List SshOption × Option ℕ
attached c [] = ([], some c)
attached c (d ∷ ds) = (with_argument c (d ∷ ds) ∷ [], none)

-- The options in one word, and the letter whose argument is the next word.
unfoldable pub read_letters : Text → List SshOption × Option ℕ
unfolding takes_argument codes
read_letters [] = ([], none)
read_letters (c ∷ cs) =
    let r = read_letters cs in
    if takes_argument c letters_with_argument then attached c cs else (flag c ∷ r.0, r.1)

-- A word that begins with a dash and is more than one.
abbrev pub is_option : Text → Bool
is_option [] = false
is_option (c ∷ []) = false
is_option (c ∷ d ∷ cs) = nat_eq c b'-'

abbrev is_dash : Text → Bool
is_dash [] = false
is_dash (c ∷ []) = nat_eq c b'-'
is_dash (c ∷ d ∷ cs) = false

abbrev behind_dash : Text → Text
behind_dash [] = []
behind_dash (c ∷ cs) = cs

-- getopt: the options up to the first word that is none, or up to "--", and the words that are left;
-- these are `none` if an argument is missing.
unfoldable pub read_options : Option ℕ → List Text → List SshOption × Option (List Text)
unfolding read_letters
read_options none [] = ([], some [])
read_options (some c) [] = ([], none)
read_options (some c) (w ∷ ws) = let r = read_options none ws in (with_argument c w ∷ r.0, r.1)
read_options none (w ∷ ws) =
    let l = read_letters (behind_dash w) in
    let r = read_options l.1 ws in
    if not (is_option w)
    then ([], some (w ∷ ws))
    else if is_dash (behind_dash w)
    then ([], some ws)
    else (l.0 ++ r.0, r.1)

-- Options with their arguments, the destination, and the words of the command.
pub record CommandLine : Type 0 where
  pub options : List SshOption
  pub destination : Text
  pub command : List Text

abbrev pub command_line :
    List SshOption → Text → List SshOption × Option (List Text) → Option CommandLine
command_line options destination (more, none) = none
command_line options destination (more, some command) =
    some (record { options = options ++ more; destination = destination; command = command })

abbrev with_destination : List SshOption → Option (List Text) → Option CommandLine
with_destination options none = none
with_destination options (some []) = none
with_destination options (some (w ∷ ws)) = command_line options w (read_options none ws)

-- The words behind "ssh": options, the destination, and options again, up to the command.
unfoldable pub read_words : List Text → Option CommandLine
unfolding read_options
read_words words = let r = read_options none words in with_destination r.0 r.1

abbrev pub hard_options : List Text → List SshOption → List SshOption
hard_options [] behind = behind
hard_options (o ∷ os) behind = with_argument b'o' o ∷ hard_options os behind

-- No port, or one with a number.
abbrev pub port_options : Option ℤ → List SshOption
port_options none = []
port_options (some n) = with_argument b'p' (decimal_ℤ n) ∷ []

abbrev port_of : Option ℤ → List Text
port_of none = []
port_of (some n) = codes "-p" ∷ decimal_ℤ n ∷ []

abbrev pub begins_with_option : List Text → Bool
begins_with_option [] = false
begins_with_option (w ∷ ws) = is_option w

-- What a command line reads as: the hardened options, and perhaps a port, before anything else; the
-- node's user and address as the destination; and behind it what is read from `command`, which is
-- the command itself if it does not begin with an option.
pub record IsHardened (p : Process) (node : Node) (command argv : List Text) : Type 0 where
  pub words : List Text
  pub program : argv ≡ codes "ssh" ∷ words
  pub user : String
  pub address : String
  pub named : Json.get "user" node.fields ≡ some (text user)
  pub reached : Json.get "address" node.fields ≡ some (text address)
  pub port : Option ℤ
  pub reads :
      read_words words
      ≡ command_line
          (hard_options (hardened p node) (port_options port))
          (codes user ++ (b'@' ∷ codes address))
          (read_options none command)
  pub plain : (begins_with_option command ≡ true) ⊎ (read_options none command ≡ ([], some command))
