-- ===== src/Broker/Store/Decisions.antt =====
-- store.py: the hash chain of decisions, its verification, and revocation, which is audited in it.
use eight_call.Prelude.{
  ℕ, suc, ◌+◌, String, Bool, true, false, not, ◌&&◌, ◌||◌, Option, none, some, List, [], ◌∷◌, ◌==◌,
  nat_eq, is_some, pos, find, update, count, if◌then◌else◌,
}
use eight_call.Broker.Json
use eight_call.Broker.Json.{Json, Fields, null, bool, num, text, obj, end, field}
use eight_call.Broker.Result.{
  ok, err, Action, denied, integrity, unknown_target, already_revoked, ◌>>=◌, pure,
}
use eight_call.Broker.Store.{Store, Decision, Target, revoked, decision_key, is_revoked}
use eight_call.Broker.Store.Targets.{target}

abbrev pub genesis : String
genesis = "0000000000000000000000000000000000000000000000000000000000000000"

abbrev pub last_id : List Decision → String
last_id [] = genesis
last_id (d ∷ older) = d.decision_id

-- `digest` is sha256 over the canonical encoding.
module _ (digest : Fields → String) where
  -- `decision_id` is UNIQUE.
  unfoldable pub append_decision : Fields → ℕ → Action Store String
  append_decision body now s =
      let prev = last_id s.decisions in
      let linked = Json.put "prev" (text prev) body in
      let id = digest linked in
      if is_some (find decision_key id s.decisions)
      then (err integrity, s)
      else let row : Decision = record {
        decision_id = id;
        prev = prev;
        logged = Json.put "decision_id" (text id) linked;
        ts = now;
      } in
        (ok id, record s { decisions = row ∷ s.decisions; checkpoint = some id })

  abbrev pub is_text : String → Option Json → Bool
  is_text t (some (text u)) = u == t
  is_text t _ = false

  -- Popping a missing "decision_id" is a KeyError in the program, which here fails the link.
  unfoldable pub is_linked : String → Fields → Option String
  is_linked prev logged = elim (Json.get "decision_id" logged) [
    | some (text id) ↦
        let rest = Json.remove "decision_id" logged in
        if not (is_text prev (Json.get "prev" rest)) || not (digest rest == id)
        then none
        else some id
    | _ ↦ none
  ]

  abbrev pub extend : Fields → Bool × String × ℕ → Bool × String × ℕ
  extend logged (false, prev, n) = (false, prev, n)
  extend logged (true, prev, n) = elim (is_linked prev logged) [
    | none ↦ (false, prev, n)
    | some id ↦ (true, id, suc n)
  ]

  -- The loop from the oldest row, left at the first row that does not fit.
  unfoldable pub verify_rows : List Decision → Bool × String × ℕ
  unfolding is_linked
  verify_rows [] = (true, genesis, 0)
  verify_rows (d ∷ older) = extend d.logged (verify_rows older)

  unfoldable pub verify_chain : Store → Bool × String × ℕ
  unfolding verify_rows
  verify_chain s = verify_rows s.decisions

  unfoldable pub head : Store → String
  unfolding verify_chain
  head s = let r = verify_chain s in if r.0 then r.1 else ""

  abbrev nullable : Option String → Json
  nullable none = null
  nullable (some t) = text t

  abbrev fingerprint_of : Option Target → Json
  fingerprint_of none = text ""
  fingerprint_of (some r) = nullable r.key_fingerprint

  -- The audit record of a revocation.
  abbrev pub revocation : String → Option Target → Fields
  revocation id row = field "allow" (bool false) (
      field "reason" (text "target_revoked") (
        field "caller" (text "operator") (
          field "action" (text "") (
            field "target_id" (text id) (
              field "params" (obj end) (
                field "policy_digest" (text "") (
                  field "enrollment_revision" (num (pos 0)) (
                    field "nonce" (text "")
                      (field "key_fingerprint" (fingerprint_of row) end)))))))))

  -- The transaction: state, revision, lease and unused tokens together.
  unfoldable pub revoke_rows : String → Store → Store
  revoke_rows id s = record s {
    targets =
        update (λ r. r.target_id == id && not (is_revoked r.state))
          (λ r. record r { state = revoked }) s.targets;
    enrollments =
        update (λ r. r.target_id == id) (λ r. record r { revision = r.revision + 1 }) s.enrollments;
    leases = update (λ r. r.target_id == id) (λ r. record r { expires_ts = 0 }) s.leases;
    tokens = update (λ r. r.target_id == id && not r.used) (λ r. record r { used = true }) s.tokens;
  }

  unfoldable pub revoke_target : String → ℕ → Action Store Unit
  unfolding append_decision revoke_rows target
  revoke_target id now s =
      if not (nat_eq (count (λ r. r.target_id == id && not (is_revoked r.state)) s.targets) 1)
      then (err (denied (if is_some (target id s) then already_revoked else unknown_target)), s)
      else let s' = revoke_rows id s in
        (append_decision (revocation id (target id s')) now >>= λ _. pure tt) s'
