-- ===== src/Broker/Store/Ops/History.antt =====
-- A call whose effect on store.py's database is that of a list of its operations, so that what holds
-- over every history holds across the call.
use eight_call.Prelude.{String, ◌≡◌, refl, ap, ◌∙◌, subst, List, [], ◌∷◌, ◌++◌, Option}
use eight_call.Broker.Json.{Fields}
use eight_call.Broker.Result.{Result, ok, err, Action, ◌>>=◌, continue}
use eight_call.Broker.Store.{Store}
use eight_call.Broker.Store.Ops.{Op, apply, run, accept_policy_version}
use eight_call.Broker.Store.Ops.Chain.{AllPlain}
use eight_call.Broker.Store.Ops.Keys.{IsKeyed, run-IsKeyed}

AllPlain-append : (xs ys : List Op) → AllPlain xs → AllPlain ys → AllPlain (xs ++ ys)
AllPlain-append [] ys hx hy = hy
AllPlain-append (Op.append_decision body now ∷ xs) ys hx hy = (hx.0, AllPlain-append xs ys hx.1 hy)
AllPlain-append (accept_policy_version v ∷ xs) ys hx hy = AllPlain-append xs ys hx hy
AllPlain-append (_ ∷ xs) ys hx hy = AllPlain-append xs ys hx hy

module _ (digest : Fields → String) (actual : String → Option String) where
  -- The database `t` is left by some operations on `s`, and no audit record among them has a
  -- "decision_id" of its own.
  pub record Reaches (s t : Store) : Type 0 where
    pub ops : List Op
    pub plain : AllPlain ops
    pub leaves : run digest actual ops s ≡ t

  run-append :
      (xs ys : List Op) (s : Store)
      → run digest actual (xs ++ ys) s ≡ run digest actual ys (run digest actual xs s)
  unfolding run
  run-append [] ys s = refl
  run-append (x ∷ xs) ys s = run-append xs ys (apply digest actual x s)

  pub Reaches-refl : (s : Store) → Reaches s s
  unfolding run
  Reaches-refl s = record { ops = []; plain = tt; leaves = refl }

  pub Reaches-op : (op : Op) (s : Store) → AllPlain (op ∷ []) → Reaches s (apply digest actual op s)
  unfolding run
  Reaches-op op s plain = record { ops = op ∷ []; plain = plain; leaves = refl }

  pub Reaches-trans : {s t u : Store} → Reaches s t → Reaches t u → Reaches s u
  Reaches-trans {s} f g = record {
    ops = f.ops ++ g.ops;
    plain = AllPlain-append f.ops g.ops f.plain g.plain;
    leaves = run-append f.ops g.ops s ∙ ap (run digest actual g.ops) f.leaves ∙ g.leaves;
  }

  -- Every outcome of the call leaves a database that is reached.
  pub record IsHistory {A : Type 0} (m : Action Store A) : Type 0 where
    pub at : (s : Store) → Reaches s (m s).1

  pub IsHistory-bind :
      {A B : Type 0} (m : Action Store A) (f : A → Action Store B)
      → IsHistory m
      → ((a : A) → IsHistory (f a))
      → IsHistory (m >>= f)
  IsHistory-bind {A} m f hm hf = record { at = λ s. rest s (m s) (hm.at s) }
    where
      rest : (s : Store) (x : Result A × Store) → Reaches s x.1 → Reaches s (continue f x).1
      rest s (ok a, t) h = Reaches-trans h ((hf a).at t)
      rest s (err e, t) h = h

  pub Reaches-IsKeyed : {s t : Store} → Reaches s t → IsKeyed s → IsKeyed t
  Reaches-IsKeyed {s} f h = subst IsKeyed f.leaves (run-IsKeyed digest actual f.ops s h)
