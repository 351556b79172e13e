-- ===== src/Detect/Nodebox/Agent/Allowed.antt =====
-- What the commands of nodebox_agent.py may do to a node.
use eight_call.Prelude.{
  ◌+◌, ◌-◌, ◌≤◌, String, ◌≡◌, refl, ◌⊎◌, inl, inr, Bool, true, false, not, ◌&&◌, List, [], ◌∷◌,
  Option, none, some, ◌==◌, arith, ℤ, contains, length, Bool-cases, length-drop, if◌then◌else◌,
}
use eight_call.Broker.Json
use eight_call.Broker.Json.{Json, Fields, text, field, end}
use eight_call.Detect.Nodebox.Agent.{
  Node, Agent, Answer, capabilities, last_fifty, emit, execute, decide, started, finish,
  handle_command, sync_config, update_ruleset, fetch_from, capture,
}

abbrev pub permits : Node → List String → String → Bool
permits n policy_caps cap =
    contains cap capabilities && (contains cap n.allowed && contains cap policy_caps)

-- Rules that the controller signed.
abbrev IsSigned : Node → String → Type 0
IsSigned n rules = (sig : String) × (n.verify_controller rules sig ≡ true)

-- Only the node's configuration and its rules may change, and new rules are signed.
record IsTyped (n : Node) (a a' : Agent) : Type 0 where
  pub commands : a'.commands ≡ a.commands
  pub denied : a'.denied ≡ a.denied
  pub ring : a'.ring ≡ a.ring
  pub rules : (rules : String) → a'.rules ≡ some rules → (a.rules ≡ some rules) ⊎ IsSigned n rules

same-IsTyped :
    (n : Node) (a a' : Agent)
    → a'.commands ≡ a.commands
    → a'.denied ≡ a.denied
    → a'.ring ≡ a.ring
    → a'.rules ≡ a.rules
    → IsTyped n a a'
same-IsTyped n a a' c d r s = record {
  commands = c;
  denied = d;
  ring = r;
  rules = λ rules h. inl (cc (h, s));
}

abbrev IsTypedAnswer : Node → Agent → Answer → Type 0
IsTypedAnswer n a none = Unit
IsTypedAnswer n a (some (is_ok, payload, a')) = IsTyped n a a'

if-IsTyped :
    (n : Node) (a : Agent) (b : Bool) (x y : Answer)
    → IsTypedAnswer n a x
    → IsTypedAnswer n a y
    → IsTypedAnswer n a (if b then x else y)
if-IsTyped n a true x y h k = h
if-IsTyped n a false x y h k = k

update-IsTyped :
    (n : Node) (a : Agent) (rules sig : Option String)
    → IsTypedAnswer n a (update_ruleset n rules sig a)
update-IsTyped n a (some rules) (some sig) = elim (Bool-cases (n.verify_controller rules sig)) [
  | inr bad ↦ rw bad (same-IsTyped n a a refl refl refl refl)
  | inl good ↦ rw good (record {
    commands = refl;
    denied = refl;
    ring = refl;
    rules = λ r h. inr (sig, ground (arith, good, h));
  })
]
update-IsTyped n a (some rules) none = same-IsTyped n a a refl refl refl refl
update-IsTyped n a none sig = same-IsTyped n a a refl refl refl refl

sync-IsTyped :
    (n : Node) (a : Agent) (config : Option Json) → IsTypedAnswer n a (sync_config n config a)
sync-IsTyped n a none = same-IsTyped n a a refl refl refl refl
sync-IsTyped n a (some config) = same-IsTyped n a _ refl refl refl refl

fetch-IsTyped :
    (n : Node) (a : Agent) (ds : List Fields) (k : Option ℤ)
    → IsTypedAnswer n a (fetch_from n ds k a)
fetch-IsTyped n a [] k = same-IsTyped n a a refl refl refl refl
fetch-IsTyped n a (d ∷ ds) none = tt
fetch-IsTyped n a (d ∷ ds) (some k) = same-IsTyped n a a refl refl refl refl

capture-IsTyped : (n : Node) (a : Agent) (k : Option ℤ) → IsTypedAnswer n a (capture n k a)
capture-IsTyped n a none = tt
capture-IsTyped n a (some k) = same-IsTyped n a a refl refl refl refl

execute-IsTyped :
    (n : Node) (cap : String) (params : Fields) (a : Agent)
    → IsTypedAnswer n a (execute n cap params a)
unfolding execute
execute-IsTyped n cap params a =
    let same = same-IsTyped n a a refl refl refl refl in
    if-IsTyped n a (cap == "PING") _ _ same (
      if-IsTyped n a (cap == "INFO") _ _ same (
        if-IsTyped n a (cap == "STATUS") _ _ same (
          if-IsTyped n a (cap == "SYNC_CONFIG") _ _ (sync-IsTyped n a _) (
            if-IsTyped n a (cap == "UPDATE_RULESET") _ _ (update-IsTyped n a _ _) (
              if-IsTyped n a (cap == "FETCH_LOGS") _ _ (fetch-IsTyped n a a.telemetry _) (
                if-IsTyped n a (cap == "CAPTURE_TELEMETRY") _ _ (capture-IsTyped n a _) (
                  if-IsTyped n a (cap == "RESTART_SERVICE") _ _
                    (if-IsTyped n a n.allow_restart _ _ same same)
                    (if-IsTyped n a (cap == "DISCONNECT") _ _ same same))))))))

decide-IsTyped :
    (n : Node) (policy_caps : List String) (cap : String) (params : Fields) (a : Agent)
    → IsTypedAnswer n a (decide n policy_caps cap params a)
unfolding decide
decide-IsTyped n policy_caps cap params a =
    let same = same-IsTyped n a a refl refl refl refl in
    if-IsTyped n a (not (contains cap capabilities)) _ _ same (
      if-IsTyped n a (not (contains cap n.allowed && contains cap policy_caps)) _ _ same
        (execute-IsTyped n cap params a))

decide-refused :
    (n : Node) (policy_caps : List String) (cap : String) (params : Fields) (a : Agent)
    → permits n policy_caps cap ≡ false
    → (payload : Fields) × (decide n policy_caps cap params a ≡ some (false, payload, a))
unfolding decide
decide-refused n policy_caps cap params a h = elim (Bool-cases (contains cap capabilities)) [
  | inr unknown ↦ (field "reason" (text "unknown_capability") end, rw unknown refl)
  | inl known ↦
      let e : (contains cap n.allowed && contains cap policy_caps) ≡ false = rw known at h in
      (
        field "reason" (text "not_authorized") (field "capability" (text cap) end),
        rw (known, e) refl,
      )
]

-- A command that is not a capability of the node, that the node is not configured for, or that the
-- controller's policy does not have is answered with "denied", is counted, and changes neither the
-- configuration nor the rules.
pub handle_command-refused :
    (n : Node) (policy_caps : List String) (id : Json) (cap : String) (params : Fields) (a : Agent)
    → permits n policy_caps cap ≡ false
    → (m : Fields) × (a' : Agent) × (handle_command n policy_caps id cap params a ≡ some (m, a'))
      × (Json.get "outcome" m ≡ some (text "denied"))
      × (a'.config ≡ a.config)
      × (a'.rules ≡ a.rules)
      × (a'.denied ≡ a.denied + 1)
      × (a'.commands ≡ a.commands + 1)
unfolding handle_command finish emit Json.get
handle_command-refused n policy_caps id cap params a h =
    let first = started n id a in
    let (payload, e) = decide-refused n policy_caps cap params first h in
    (
      (finish n id cap (false, payload, first)).0,
      (finish n id cap (false, payload, first)).1,
      rw (handle_command, e) refl,
      refl,
      refl,
      refl,
      refl,
      refl,
    )

-- Whatever rules the node has, the controller signed them; the ring is bounded; and no more commands
-- were denied than there were.
pub record IsSound (n : Node) (a : Agent) : Type 0 where
  pub signed : (rules : String) → a.rules ≡ some rules → IsSigned n rules
  pub bounded : length a.ring ≤ 50
  pub counted : a.denied ≤ a.commands

fifty : (xs : List Fields) → length (last_fifty xs) ≤ 50
unfolding last_fifty
fifty xs = grind (arith, length-drop (length xs - 50) xs)

finish-IsSound :
    (n : Node) (id : Json) (cap : String) (is_ok : Bool) (payload : Fields) (a : Agent)
    → ((rules : String) → a.rules ≡ some rules → IsSigned n rules)
    → a.denied + 1 ≤ a.commands
    → IsSound n (finish n id cap (is_ok, payload, a)).1
unfolding finish emit
finish-IsSound n id cap is_ok payload a signed counted = record {
  signed = signed;
  bounded = search fifty;
  counted = ground (arith, counted);
}

-- A command of the controller.
pub record Command : Type 0 where
  pub id : Json
  pub capability : String
  pub params : Fields

-- The commands of a session in the order in which they arrive; an exception ends it.
unfoldable pub serve : Node → List String → List Command → Agent → Agent
serve n policy_caps [] a = a
serve n policy_caps (c ∷ cs) a = elim (handle_command n policy_caps c.id c.capability c.params a) [
  | none ↦ started n c.id a
  | some r ↦ serve n policy_caps cs r.1
]

IsSoundAfter : Node → Option (Fields × Agent) → Type 0
IsSoundAfter n none = Unit
IsSoundAfter n (some r) = IsSound n r.1

answered-IsSound :
    (n : Node) (id : Json) (cap : String) (a : Agent) (answer : Answer)
    → IsSound n a
    → IsTypedAnswer n (started n id a) answer
    → IsSoundAfter n (elim answer [ none ↦ none | some r ↦ some (finish n id cap r) ])
unfolding IsSoundAfter
answered-IsSound n id cap a none s t = tt
answered-IsSound n id cap a (some (is_ok, payload, a')) s t =
    let counted : a'.denied + 1 ≤ a'.commands = ground (arith, t.commands, t.denied, s.counted) in
    let signed : (rules : String) → a'.rules ≡ some rules → IsSigned n rules =
      λ rules h. elim (t.rules rules h) [ inl old ↦ s.signed rules old | inr new ↦ new ] in
    finish-IsSound n id cap is_ok payload a' signed counted

handle_command-IsSound :
    (n : Node) (policy_caps : List String) (c : Command) (a : Agent)
    → IsSound n a
    → IsSoundAfter n (handle_command n policy_caps c.id c.capability c.params a)
unfolding handle_command
handle_command-IsSound n policy_caps c a s =
    answered-IsSound n c.id c.capability a
      (decide n policy_caps c.capability c.params (started n c.id a)) s
      (decide-IsTyped n policy_caps c.capability c.params (started n c.id a))

served-IsSound :
    (n : Node) (policy_caps : List String) (c : Command) (cs : List Command) (a : Agent)
    (r : Option (Fields × Agent))
    → IsSound n a
    → IsSoundAfter n r
    → ((a' : Agent) → IsSound n a' → IsSound n (serve n policy_caps cs a'))
    → IsSound n (elim r [ none ↦ started n c.id a | some r ↦ serve n policy_caps cs r.1 ])
unfolding IsSoundAfter
served-IsSound n policy_caps c cs a none s t go = record {
  signed = s.signed;
  bounded = s.bounded;
  counted = ground (arith, s.counted);
}
served-IsSound n policy_caps c cs a (some r) s t go = go r.1 t

-- Over every sequence of commands, whatever rules a node holds were signed by its controller, its ring
-- of events has at most fifty, and it has counted no more denials than commands, if so at the start.
pub serve-IsSound :
    (n : Node) (policy_caps : List String) (cs : List Command) (a : Agent)
    → IsSound n a
    → IsSound n (serve n policy_caps cs a)
unfolding serve
serve-IsSound n policy_caps [] a s = s
serve-IsSound n policy_caps (c ∷ cs) a s =
    served-IsSound n policy_caps c cs a (handle_command n policy_caps c.id c.capability c.params a)
      s (handle_command-IsSound n policy_caps c a s) (λ a' s'. serve-IsSound n policy_caps cs a' s')
