-- ===== src/Broker/Examples/Ledger.antt =====
-- Hash chains of decisions, from plasma/broker/broker/store.py.
use eight_call.Prelude.{
  String, ◌≡◌, ◌≢◌, refl, Bool, true, false, List, [], ◌∷◌, map, Option, some, ◌==◌, if◌then◌else◌,
  Bool-cases, inl, inr, length,
}
use eight_call.Broker.Json
use eight_call.Broker.Json.{Json, Fields, text, end, field}
use eight_call.Broker.Store.{Decision, empty}
use eight_call.Broker.Store.Decisions.{genesis, last_id, verify_chain, head, is_linked, verify_rows}
use eight_call.Broker.Store.Ops.{Op, run}
use eight_call.Broker.Store.Ops.Chain.{run-chain}
use eight_call.Broker.Store.Ops.Tamper.{content, CollisionFree, tamper_evident}
use eight_call.Broker.Examples.{digest, actual}

abbrev entries : List Op
entries =
    Op.append_decision (field "reason" (text "allow") end) 1
    ∷ Op.append_decision (field "reason" (text "replay") end) 2
    ∷ []

run-chain_example :
    let s = run digest actual entries empty in
    (verify_chain digest s ≡ (true, last_id s.decisions, length s.decisions))
    × (head digest s ≡ last_id s.decisions)
unfolding Json.get
run-chain_example = run-chain digest actual entries (refl, (refl, tt))

abbrev is_first : Option Json → Bool
is_first (some (text t)) = t == genesis
is_first _ = false

-- Tells a chain's first record from the later ones.
unfoldable rank : Fields → String
rank d = if is_first (Json.get "prev" d) then "first" else "second"

rank-genesis : (d : Fields) → rank d ≢ genesis
unfolding rank
rank-genesis d h = elim (Bool-cases (is_first (Json.get "prev" d))) [
  | inl e ↦ cc (rw (e, rank) at h)
  | inr e ↦ cc (rw (e, rank) at h)
]

abbrev row : String → String → Decision
row id prev = record {
  decision_id = id;
  prev = prev;
  logged = field "decision_id" (text id) (field "prev" (text prev) end);
  ts = 1;
}

abbrev two : List Decision
two = row "second" "first" ∷ row "first" genesis ∷ []

two-CollisionFree : CollisionFree rank two two
unfolding rank Json.get Json.remove
two-CollisionFree = ((λ e. refl, (λ e. absurd (cc), tt)), ((λ e. absurd (cc), (λ e. refl, tt)), tt))

two_lem : verify_rows rank two ≡ (true, "second", 2)
unfolding verify_rows is_linked rank Json.get Json.remove
two_lem = refl

tamper_evident_example : map content two ≡ map content two
tamper_evident_example =
    tamper_evident rank two two "second" 2 2 two-CollisionFree rank-genesis two_lem two_lem
