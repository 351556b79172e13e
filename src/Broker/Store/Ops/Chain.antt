-- ===== src/Broker/Store/Ops/Chain.antt =====
-- The hash chain of decisions over every history of store.py.
use eight_call.Prelude.{
  ℕ, String, ◌≡◌, refl, true, List, [], ◌∷◌, Option, none, some, arith, length, eq_refl,
}
use eight_call.Broker.Json
use eight_call.Broker.Json.{Json, Fields, text, get-put, remove-put}
use eight_call.Broker.Store.{Store, empty}
use eight_call.Broker.Store.Decisions.{
  last_id, append_decision, is_linked, verify_rows, verify_chain, head, revocation, revoke_rows,
}
use eight_call.Broker.Store.Targets.{target}
use eight_call.Broker.Store.Ops.{Op, apply, run, accept_policy_version}

-- No record that is handed in holds a "decision_id".
abbrev pub AllPlain : List Op → Type 0
AllPlain [] = Unit
AllPlain (Op.append_decision body now ∷ ops) = (Json.get "decision_id" body ≡ none) × AllPlain ops
AllPlain (_ ∷ ops) = AllPlain ops

module _ (digest : Fields → String) where
  -- The row that `append_decision` writes fits.
  is_linked-put :
      (prev : String) (body : Fields)
      → Json.get "decision_id" body ≡ none
      → let linked = Json.put "prev" (text prev) body in
        is_linked digest prev (Json.put "decision_id" (text (digest linked)) linked)
        ≡ some (digest linked)
  unfolding is_linked
  is_linked-put prev body plain =
      let linked : Fields = Json.put "prev" (text prev) body in
      let absent : Json.get "decision_id" linked ≡ none = rw get-put plain in
      ground (
        arith,
        absent,
        get-put "decision_id" "decision_id" (text (digest linked)) linked,
        remove-put "decision_id" (text (digest linked)) linked,
        get-put "prev" "prev" (text prev) body,
        eq_refl (digest linked),
        eq_refl prev,
        eq_refl "prev",
        eq_refl "decision_id",
      )

  -- The rows verify, up to the last decision, and all of them are counted.
  pub IsChained : Store → Type 0
  IsChained s = verify_rows digest s.decisions ≡ (true, last_id s.decisions, length s.decisions)

  append-IsChained :
      (body : Fields) (now : ℕ) (s : Store)
      → Json.get "decision_id" body ≡ none
      → IsChained s
      → IsChained (append_decision digest body now s).1
  unfolding append_decision verify_rows IsChained
  append-IsChained body now s plain h =
      ground (arith, is_linked-put (last_id s.decisions) body plain)

module _ (digest : Fields → String) (actual : String → Option String) where
  apply-IsChained :
      (op : Op) (s : Store)
      → AllPlain (op ∷ [])
      → IsChained digest s
      → IsChained digest (apply digest actual op s)
  unfolding apply verify_rows IsChained Json.get
  apply-IsChained (Op.append_decision body now) s plain h =
      ground (arith, is_linked-put digest (last_id s.decisions) body plain.0)
  apply-IsChained (Op.revoke_target id now) s plain h = ground (
    arith,
    is_linked-put digest (last_id s.decisions)
        (revocation digest id (target id (revoke_rows digest id s))),
  )
  apply-IsChained (accept_policy_version v) s plain h = ground arith
  apply-IsChained _ s plain h = ground arith

  pub AllPlain-split :
      (op : Op) (ops : List Op) → AllPlain (op ∷ ops) → AllPlain (op ∷ []) × AllPlain ops
  AllPlain-split (Op.append_decision body now) ops h = ((h.0, tt), h.1)
  AllPlain-split (accept_policy_version v) ops h = (tt, h)
  AllPlain-split _ ops h = (tt, h)

  run-IsChained :
      (ops : List Op) (s : Store)
      → AllPlain ops
      → IsChained digest s
      → IsChained digest (run digest actual ops s)
  unfolding run
  run-IsChained [] s plain h = h
  run-IsChained (op ∷ ops) s plain h =
      let (now, later) = AllPlain-split op ops plain in
      run-IsChained ops (apply digest actual op s) later (apply-IsChained op s now h)

  -- Whatever is done to a new database, if no record that is handed in has a "decision_id" of its own,
  -- the chain verifies, its head is the identifier of the last decision, and every decision is
  -- counted.
  pub run-chain :
      (ops : List Op)
      → AllPlain ops
      → let s = run digest actual ops empty in
        (verify_chain digest s ≡ (true, last_id s.decisions, length s.decisions))
        × (head digest s ≡ last_id s.decisions)
  unfolding verify_chain head IsChained
  run-chain ops plain =
      let h = run-IsChained ops empty plain (unfold verify_rows in refl) in (h, rw h refl)
