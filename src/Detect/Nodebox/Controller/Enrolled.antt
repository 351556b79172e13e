-- ===== src/Detect/Nodebox/Controller/Enrolled.antt =====
-- What stays true of the sessions of nodebox_controller.py's controller, and what a dispatch therefore
-- rests on.
use eight_call.Prelude.{
  subst, ℕ, String, Bool, ◌≡◌, refl, true, false, List, [], ◌∷◌, Option, none, some, ◌==◌, arith,
  contains, find, find-upsert, is_distinct, is_distinct-upsert, eq_iff, upsert, Bool-cases, ◌⊎◌,
  Option-cases, inl, inr, if◌then◌else◌, ap, ◌∙◌, not,
}
use eight_call.Broker.Json
use eight_call.Broker.Json.{Json, Fields, obj, text}
use eight_call.Detect.AuthzGate.{Host, Gate}
use eight_call.Detect.AuthzGate.Match.{equals}
use eight_call.Detect.Nodebox.{Bytes, Crypto, Outcome, done, failed}
use eight_call.Detect.Nodebox.Channel.{Frame}
use eight_call.Detect.Nodebox.Protocol.{node_id_for, Auth, Session, server_handshake}
use eight_call.Detect.Nodebox.Protocol.Handshake.{server_handshake_inv}
use eight_call.Detect.Nodebox.Controller.{
  NodeRecord, SessionHandle, Controller, new_controller, enroll, sorted, session_key, node_key,
  emit, resolve_node, policy_caps,
}
use eight_call.Detect.Nodebox.Controller.Sessions.{
  attach, welcome, receive, disconnect, open_session, flag_clone, flag_binding, answer, or_null,
}
use eight_call.Detect.Nodebox.Controller.Dispatch.{
  Draw, dispatched, apply_start, apply_finish, apply_gated, apply_allowed, dispatch,
}
use eight_call.Detect.Nodebox.Controller.Permitted.{apply-IsPermitted}
use eight_call.Detect.Nodebox.Controller.Life.{
  Event, enrolled, begin, message, lost, start, finish, step, run, begun, is_distinct-drop,
  find-drop_inv,
}

-- `P` is what a node may have for its capabilities. No node has two sessions, and the inventory and the
-- sessions have only such capabilities.
pub record IsTable (P : String → List String → Type 0) (k : Controller) : Type 0 where
  pub inventory :
      (node : String) (r : NodeRecord)
      → find node_key node k.nodes ≡ some r
      → P node r.allowed_capabilities
  pub distinct : is_distinct session_key k.sessions ≡ true
  pub synced :
      (node : String) (s : SessionHandle)
      → find session_key node k.sessions ≡ some s
      → P node s.policy_caps

same-IsTable :
    (P : String → List String → Type 0) (k k' : Controller)
    → k'.nodes ≡ k.nodes
    → k'.sessions ≡ k.sessions
    → IsTable P k
    → IsTable P k'
same-IsTable P k k' n s t = record {
  inventory = λ node r found. t.inventory node r (cc (n, found));
  distinct = rw s t.distinct;
  synced = λ node x found. t.synced node x (cc (s, found));
}

disconnect-IsTable :
    (P : String → List String → Type 0) (node : String) (id : ℕ) (reason : String) (k : Controller)
    → IsTable P k
    → IsTable P (disconnect node id reason k)
unfolding disconnect emit
disconnect-IsTable P node id reason k t = record {
  inventory = t.inventory;
  distinct = is_distinct-drop node id k.sessions t.distinct;
  synced =
      λ other s found. t.synced other s (find-drop_inv other node id s k.sessions t.distinct found);
}

receive-same :
    (node : String) (msg : Fields) (k : Controller)
    → ((receive node msg k).1.nodes ≡ k.nodes) × ((receive node msg k).1.sessions ≡ k.sessions)
unfolding receive answer emit
receive-same node msg k = (ground arith, ground arith)

start-same :
    (h : Host) (w : Draw) (node capability : String) (params : Fields) (ref : Option String)
    (k : Controller)
    → ((apply_start h w node capability params ref k).1.nodes ≡ k.nodes)
      × ((apply_start h w node capability params ref k).1.sessions ≡ k.sessions)
unfolding apply_start apply_allowed apply_gated dispatch emit
start-same h w node capability params ref k = (ground arith, ground arith)

finish-same :
    (got : Bool) (id : String) (decision : Option String) (k : Controller)
    → ((apply_finish got id decision k).1.nodes ≡ k.nodes)
      × ((apply_finish got id decision k).1.sessions ≡ k.sessions)
unfolding apply_finish
finish-same got id decision k = (refl, refl)

abbrev IsSame : Controller → Controller → Type 0
IsSame k k' = (k'.nodes ≡ k.nodes) × (k'.sessions ≡ k.sessions)

if-IsSame : (b : Bool) (k k' : Controller) → IsSame k k' → IsSame k (if b then k' else k)
if-IsSame true k k' h = h
if-IsSame false k k' h = (refl, refl)

flag_clone-IsSame :
    (prior : Option SessionHandle) (x : SessionHandle) (k : Controller)
    → IsSame k (flag_clone prior x k)
unfolding flag_clone
flag_clone-IsSame none x k = (refl, refl)
flag_clone-IsSame (some prior) x k = if-IsSame _ k _ (refl, refl)

flag_binding-IsSame : (x : SessionHandle) (k : Controller) → IsSame k (flag_binding x k)
unfolding flag_binding
flag_binding-IsSame x k = if-IsSame _ k _ (refl, refl)

open_session-same :
    (session_id peer : String) (a : Fields) (x : SessionHandle) (k : Controller)
    → ((open_session session_id peer a x k).nodes ≡ k.nodes)
      × ((open_session session_id peer a x k).sessions ≡ upsert session_key x k.sessions)
unfolding open_session
open_session-same session_id peer a x k =
    let flagged = flag_clone (find session_key x.node_id k.sessions) x k in
    let opened = record flagged { sessions = upsert session_key x flagged.sessions } in
    let one = flag_clone-IsSame (find session_key x.node_id k.sessions) x k in
    let two = flag_binding-IsSame x opened in
    (two.0 ∙ one.0, two.1 ∙ ap (upsert session_key x) one.1)

-- The table is as it was, or it has a session with the node's capabilities.
abbrev IsAttached : String → Controller → Controller → Type 0
IsAttached node k k' =
    (k' ≡ k)
    ⊎ ((x : SessionHandle) × (x.node_id ≡ node)
        × (x.policy_caps ≡ policy_caps k node)
        × (k'.nodes ≡ k.nodes)
        × (k'.sessions ≡ upsert session_key x k.sessions))

welcome-IsAttached :
    (digest : List String → String) (id : ℕ) (node session_id peer : String) (k : Controller)
    (v : Option Json)
    → IsAttached node k (welcome digest id node session_id peer k v).1
unfolding welcome
welcome-IsAttached digest id node session_id peer k (some (obj a)) =
    let (n, s) = open_session-same session_id peer a _ k in inr (_, refl, refl, n, s)
welcome-IsAttached digest id node session_id peer k _ = inl refl

attach-IsAttached :
    (digest : List String → String) (id : ℕ) (node session_id peer : String) (att : Fields)
    (k : Controller)
    → IsAttached node k (attach digest id node session_id peer att k).1
unfolding attach
attach-IsAttached digest id node session_id peer att k =
    go (equals (or_null (Json.get "type" att)) (text "ATTEST"))
  where
    go :
        (is_attest : Bool)
        → IsAttached node k
            (if not is_attest
              then (none, k)
              else welcome digest id node session_id peer k (Json.get "attestation" att)).1
    go true = welcome-IsAttached digest id node session_id peer k (Json.get "attestation" att)
    go false = inl refl

upsert-IsTable :
    (P : String → List String → Type 0) (x : SessionHandle) (k k' : Controller)
    → P x.node_id x.policy_caps
    → k'.nodes ≡ k.nodes
    → k'.sessions ≡ upsert session_key x k.sessions
    → IsTable P k
    → IsTable P k'
upsert-IsTable P x k k' holds n s t = record {
  inventory = λ node r found. t.inventory node r (cc (n, found));
  distinct = rw s (is_distinct-upsert session_key x k.sessions t.distinct);
  synced = λ node y found. added node y (cc (s, found));
}
  where
    added :
        (node : String) (y : SessionHandle)
        → find session_key node (upsert session_key x k.sessions) ≡ some y
        → P node y.policy_caps
    added node y found = elim (Bool-cases (x.node_id == node)) [
      | inl same ↦
          let e : x ≡ y = ground (arith, find-upsert session_key node x k.sessions) in
          let here : x.node_id ≡ node = (eq_iff x.node_id node).0 same in
          subst (λ z. P node z.policy_caps) e (subst (λ n. P n x.policy_caps) here holds)
      | inr other ↦ t.synced node y (ground (arith, find-upsert session_key node x k.sessions))
    ]

resolved :
    {C : Type 0} (c : Crypto C) (k : Controller) (node : String) (key : Bytes)
    → resolve_node c k node ≡ some key
    → (r : NodeRecord) × (find node_key node k.nodes ≡ some r)
      × (policy_caps k node ≡ r.allowed_capabilities)
unfolding resolve_node policy_caps
resolved c k node key e = elim (Option-cases (find node_key node k.nodes)) [
  | inl missing ↦ absurd (ground arith)
  | inr (r, found) ↦ (r, found, ground arith)
]

-- The handshake admits only an enrolled node, so the session that it begins is in step.
begin-IsTable :
    {C : Type 0} (c : Crypto C) (identity : Bytes) (controller_id : String)
    (digest : List String → String) (h : Host) (P : String → List String → Type 0) (t1 eph : Bytes)
    (a : Auth) (att : Fields) (id : ℕ) (session_id peer : String) (k : Controller)
    (o : Outcome (Session × Frame C))
    → server_handshake c identity t1 eph controller_id (resolve_node c k) a ≡ o
    → IsTable P k
    → IsTable P (begun c identity controller_id digest h o att id session_id peer k)
begin-IsTable c identity controller_id digest h P t1 eph a att id session_id peer k (failed e) ran
      t =
    t
begin-IsTable c identity controller_id digest h P t1 eph a att id session_id peer k (done (s, f))
      ran t =
    let inv = server_handshake_inv c identity t1 eph controller_id (resolve_node c k) a s f ran in
    elim (attach-IsAttached digest id s.node_id session_id peer att k) [
      | inl same ↦ rw same t
      | inr (x, named, caps, n, table) ↦
          let (r, found, allowed) = resolved c k a.node_id inv.1.0 inv.1.1 in
          let here : a.node_id ≡ x.node_id = cc (named, inv.3) in
          let same : r.allowed_capabilities ≡ x.policy_caps = cc (caps, allowed, inv.3) in
          upsert-IsTable P x k (attach digest id s.node_id session_id peer att k).1
            (subst (P x.node_id) same
              (subst (λ n. P n r.allowed_capabilities) here (t.inventory a.node_id r found)))
            n table t
    ]

enroll-IsTable :
    {C : Type 0} (c : Crypto C) (P : String → List String → Type 0)
    (alias pubkey device_type : String) (allowed : List String) (binding : String) (now : ℕ)
    (k : Controller)
    → P (node_id_for c (c.b64d pubkey)) (sorted allowed)
    → IsTable P k
    → IsTable P
        (record k { nodes = (enroll c alias pubkey device_type allowed binding now k.nodes).1 })
unfolding enroll
enroll-IsTable c P alias pubkey device_type allowed binding now k holds t = record {
  inventory = λ node r found. kept node r found;
  distinct = t.distinct;
  synced = t.synced;
}
  where
    kept :
        (node : String) (r : NodeRecord)
        → find node_key node (enroll c alias pubkey device_type allowed binding now k.nodes).1
          ≡ some r
        → P node r.allowed_capabilities
    kept node r found =
        let x : NodeRecord = record {
          node_id = node_id_for c (c.b64d pubkey);
          alias = alias;
          device_type = device_type;
          pubkey_b64 = pubkey;
          machine_binding = binding;
          allowed_capabilities = sorted allowed;
          enrolled_at = now;
        } in
        elim (Bool-cases (x.node_id == node)) [
          | inl same ↦
              let e : x ≡ r = ground (arith, found, find-upsert node_key node x k.nodes) in
              let here : x.node_id ≡ node = (eq_iff x.node_id node).0 same in
              subst (λ z. P node z.allowed_capabilities) e
                (subst (λ n. P n (sorted allowed)) here holds)
          | inr other ↦
              t.inventory node r (ground (arith, found, find-upsert node_key node x k.nodes))
        ]

-- An enrollment of the node with these capabilities.
unfoldable pub HasEnrolled : {C : Type 0} → Crypto C → List Event → String → List String → Type 0
HasEnrolled c [] node caps = ⊥
HasEnrolled c (enrolled alias pubkey device_type allowed binding now ∷ es) node caps =
    ((node_id_for c (c.b64d pubkey) ≡ node) × (sorted allowed ≡ caps)) ⊎ HasEnrolled c es node caps
HasEnrolled c (begin t1 eph a att id session_id peer ∷ es) node caps = HasEnrolled c es node caps
HasEnrolled c (message other msg ∷ es) node caps = HasEnrolled c es node caps
HasEnrolled c (lost other id reason ∷ es) node caps = HasEnrolled c es node caps
HasEnrolled c (start w other capability params ref ∷ es) node caps = HasEnrolled c es node caps
HasEnrolled c (finish got id decision ∷ es) node caps = HasEnrolled c es node caps

-- The capabilities are those of the node in the inventory at first, or of an enrollment of it since.
abbrev pub WasAllowed :
    {C : Type 0} → Crypto C → List NodeRecord → List Event → String → List String → Type 0
WasAllowed c nodes es node caps =
    ((r : NodeRecord) × (find node_key node nodes ≡ some r) × (r.allowed_capabilities ≡ caps))
    ⊎ HasEnrolled c es node caps

module _ {C : Type 0} (c : Crypto C) (identity : Bytes) (controller_id : String)
    (digest : List String → String) (h : Host) where
  module _ (P : String → List String → Type 0) where
    step-IsTable :
        (e : Event) (es : List Event) (k : Controller)
        → ((node : String) (caps : List String) → HasEnrolled c (e ∷ es) node caps → P node caps)
        → IsTable P k
        → IsTable P (step c identity controller_id digest h e k)
          × ((node : String) (caps : List String) → HasEnrolled c es node caps → P node caps)
    unfolding step HasEnrolled
    step-IsTable (enrolled alias pubkey device_type allowed binding now) es k has t = (
      enroll-IsTable c P alias pubkey device_type allowed binding now k
          (has (node_id_for c (c.b64d pubkey)) (sorted allowed) (inl (refl, refl))) t,
      λ node caps later. has node caps (inr later),
    )
    step-IsTable (begin t1 eph a att id session_id peer) es k has t = (
      begin-IsTable c identity controller_id digest h P t1 eph a att id session_id peer k _ refl t,
      has,
    )
    step-IsTable (message node msg) es k has t =
        let (n, s) = receive-same node msg k in (same-IsTable P k (receive node msg k).1 n s t, has)
    step-IsTable (lost node id reason) es k has t = (disconnect-IsTable P node id reason k t, has)
    step-IsTable (start w node capability params ref) es k has t =
        let (n, s) = start-same h w node capability params ref k in
        (same-IsTable P k (apply_start h w node capability params ref k).1 n s t, has)
    step-IsTable (finish got id decision) es k has t =
        let (n, s) = finish-same got id decision k in
        (same-IsTable P k (apply_finish got id decision k).1 n s t, has)

    -- Whatever happens to a controller, in whatever order: no node has two sessions, and the inventory
    -- and the sessions have only capabilities that were there at first or that an enrollment gave.
    pub run-IsTable :
        (es : List Event) (k : Controller)
        → ((node : String) (caps : List String) → HasEnrolled c es node caps → P node caps)
        → IsTable P k
        → IsTable P (run c identity controller_id digest h es k)
    unfolding run
    run-IsTable [] k has t = t
    run-IsTable (e ∷ es) k has t =
        let (next, later) = step-IsTable e es k has t in
        run-IsTable es (step c identity controller_id digest h e k) later next

  new-IsTable :
      (nodes : List NodeRecord) (es : List Event) (gate : Option Gate) (caller key : String)
      (k : Controller)
      → new_controller nodes gate caller key ≡ some k
      → IsTable (WasAllowed c nodes es) k
  unfolding new_controller
  new-IsTable nodes es gate caller key k e =
      let n : k.nodes ≡ nodes = ground (arith, e) in
      let s : k.sessions ≡ [] = ground (arith, e) in
      record {
        inventory = λ node r found. inl (r, cc (n, found), refl);
        distinct = rw s (unfold is_distinct in refl);
        synced = λ node x found. absurd (unfold find in ground (arith, s, found));
      }

  -- From a new controller, whatever has happened to it, enrollments included: a command is sent to a
  -- node only with a capability that the inventory allowed that node when the controller began, or that
  -- one of the enrollments of the node since has allowed, which need not be the last.
  pub run-dispatch :
      (nodes : List NodeRecord) (gate : Option Gate) (caller key : String) (es : List Event)
      (k : Controller) (w : Draw) (node capability : String) (params : Fields) (ref : Option String)
      (id : String) (decision : Option String) (msg : Fields) (k' : Controller)
      → new_controller nodes gate caller key ≡ some k
      → apply_start h w node capability params ref (run c identity controller_id digest h es k)
        ≡ (dispatched id decision msg, k')
      → (caps : List String) × WasAllowed c nodes es node caps × (contains capability caps ≡ true)
  run-dispatch nodes gate caller key es k w node capability params ref id decision msg k' began
        sent =
      let last = run c identity controller_id digest h es k in
      let p = apply-IsPermitted h last w node capability params ref id decision msg k' sent in
      let t =
        run-IsTable (WasAllowed c nodes es) es k (λ node caps has. inr has)
          (new-IsTable nodes es gate caller key k began) in
      (p.session.policy_caps, t.synced node p.session p.live, p.synced)
