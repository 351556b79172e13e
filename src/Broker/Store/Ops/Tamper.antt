-- ===== src/Broker/Store/Ops/Tamper.antt =====
-- What the head of store.py's hash chain says about the whole log.
use eight_call.Prelude.{
  ℕ, String, ◌≡◌, ◌≢◌, refl, ap, ap₂, sym, ◌∙◌, Bool, true, false, List, [], ◌∷◌, map, some, arith,
  eq_iff,
}
use eight_call.Broker.Json
use eight_call.Broker.Json.{Json, Fields, text}
use eight_call.Broker.Store.{Decision}
use eight_call.Broker.Store.Decisions.{genesis, extend, is_linked, verify_rows}

-- What a row's digest is taken over.
abbrev pub content : Decision → Fields
content d = Json.remove "decision_id" d.logged

texts-injective : {x y : String} → some (text x) ≡ some (text y) → x ≡ y
texts-injective e = cc

module _ (digest : Fields → String) where
  abbrev pub NoCollision : Fields → List Decision → Type 0
  NoCollision a [] = Unit
  NoCollision a (e ∷ es) = (digest a ≡ digest (content e) → a ≡ content e) × NoCollision a es

  -- No record of the first log collides with another one of the second.
  abbrev pub CollisionFree : List Decision → List Decision → Type 0
  CollisionFree [] es = Unit
  CollisionFree (d ∷ ds) es = NoCollision (content d) es × CollisionFree ds es

  CollisionFree-tail :
      (e : Decision) (ds es : List Decision) → CollisionFree ds (e ∷ es) → CollisionFree ds es
  CollisionFree-tail e [] es h = tt
  CollisionFree-tail e (d ∷ ds) es h = (h.0.1, CollisionFree-tail e ds es h.1)

  is_linked-inv :
      (prev : String) (d : Decision) (id : String)
      → is_linked digest prev d.logged ≡ some id
      → (digest (content d) ≡ id) × (Json.get "prev" (content d) ≡ some (text prev))
  unfolding is_linked
  is_linked-inv prev d id h = grind (arith, eq_iff)

  -- A row extends only a log that verifies, and is linked to its end.
  extend-inv :
      (d : Decision) (r : Bool × String × ℕ) (h : String) (n : ℕ)
      → extend digest d.logged r ≡ (true, h, n)
      → (r.0 ≡ true) × (is_linked digest r.1 d.logged ≡ some h)
  extend-inv d (false, prev, m) h n e = ground arith
  extend-inv d (true, prev, m) h n e = ground arith

  -- A log that verifies is a row that is linked to a shorter log that verifies.
  verify_rows-inv :
      (d : Decision) (ds : List Decision) (h : String) (n : ℕ)
      → verify_rows digest (d ∷ ds) ≡ (true, h, n)
      → (prev : String) × (m : ℕ) × (verify_rows digest ds ≡ (true, prev, m))
        × (digest (content d) ≡ h)
        × (Json.get "prev" (content d) ≡ some (text prev))
  unfolding verify_rows
  verify_rows-inv d ds h n e =
      let r : Bool × String × ℕ = verify_rows digest ds in
      let (good, link) = extend-inv d r h n e in
      let (same, prev) = is_linked-inv r.1 d h link in (r.1, r.2, ground arith, same, prev)

  nothing : (h : String) (n : ℕ) → verify_rows digest [] ≡ (true, h, n) → genesis ≡ h
  unfolding verify_rows
  nothing h n e = cc

  -- Two logs that both verify up to the same head hold the same records in the same order, if no two
  -- different records of theirs have the same digest and no digest is the genesis value: a record
  -- cannot be changed, dropped, added or moved without changing the head.
  pub tamper_evident :
      (ds es : List Decision) (h : String) (n m : ℕ)
      → CollisionFree ds es
      → ((a : Fields) → digest a ≢ genesis)
      → verify_rows digest ds ≡ (true, h, n)
      → verify_rows digest es ≡ (true, h, m)
      → map content ds ≡ map content es
  tamper_evident [] [] h n m free fresh p q = refl
  tamper_evident [] (e ∷ es) h n m free fresh p q =
      let (_, _, _, same, _) = verify_rows-inv e es h m q in
      absurd (fresh (content e) (same ∙ sym (nothing h n p)))
  tamper_evident (d ∷ ds) [] h n m free fresh p q =
      let (_, _, _, same, _) = verify_rows-inv d ds h n p in
      absurd (fresh (content d) (same ∙ sym (nothing h m q)))
  tamper_evident (d ∷ ds) (e ∷ es) h n m free fresh p q =
      let (x, n', p', dh, dx) = verify_rows-inv d ds h n p in
      let (y, m', q', eh, ey) = verify_rows-inv e es h m q in
      let same : content d ≡ content e = free.0.0 (dh ∙ sym eh) in
      let prev : x ≡ y = texts-injective (sym dx ∙ ap (Json.get "prev") same ∙ ey) in
      ap₂ ◌∷◌ same
        (tamper_evident ds es x n' m' (CollisionFree-tail e ds es free.1) fresh p' (rw prev q'))
