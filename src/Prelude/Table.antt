-- ===== src/Prelude/Table.antt =====
-- A database table as its rows in the order of insertion, each under the text that `key` reads.
use Prim.Native.Nat.{ℕ, ◌+◌}
use Prim.Native.String.{String}
use mathlib.Core.Path.{◌≡◌, refl}
use mathlib.Core.Bool.{Bool, true, not, ◌&&◌}
use mathlib.Core.Option.{Option, none, some}
use mathlib.Core.List.{List, [], ◌∷◌, ◌++◌}
use native.Mathlib.Omega.{arith}
use text.Mathlib.Text.{◌==◌}
use text.Mathlib.TextEquality.{eq_iff}
use eight_call.Prelude.Tests.{if◌then◌else◌, is_some}

module _ {R : Type 0} (key : R → String) where
  -- SELECT ... WHERE key=?, the first row.
  unfoldable pub find : String → List R → Option R
  find k [] = none
  find k (r ∷ rs) = if key r == k then some r else find k rs

module _ {R : Type 0} where
  -- UPDATE ... SET change WHERE test.
  unfoldable pub update : (R → Bool) → (R → R) → List R → List R
  update test change [] = []
  update test change (r ∷ rs) = (if test r then change r else r) ∷ update test change rs

  -- The row count of such an UPDATE.
  unfoldable pub count : (R → Bool) → List R → ℕ
  count test [] = 0
  count test (r ∷ rs) = (if test r then 1 else 0) + count test rs

  -- INSERT appends a row.
  unfoldable pub append : List R → R → List R
  append rs r = rs ++ r ∷ []

module _ {R : Type 0} (key : R → String) where
  -- A row that is found has the key.
  pub key-find : (k : String) (rs : List R) {r : R} → find key k rs ≡ some r → (key r == k) ≡ true
  unfolding find
  key-find k [] h = ground arith
  key-find k (x ∷ rs) {r} h = ground (arith, key-find k rs {r = r})

  -- An UPDATE that keeps keys changes the row that is found, or leaves it.
  pub find-update :
      (k : String) (test : R → Bool) (change : R → R) (rs : List R)
      → ((r : R) → key (change r) ≡ key r)
      → find key k (update test change rs)
        ≡ elim (find key k rs) [ none ↦ none | some r ↦ some (if test r then change r else r) ]
  unfolding find update
  find-update k test change [] keeps = refl
  find-update k test change (x ∷ rs) keeps =
      ground (arith, keeps x, find-update k test change rs keeps)

  pub find-append :
      (k : String) (rs : List R) (r : R)
      → find key k (append rs r)
        ≡ elim (find key k rs) [ none ↦ (if key r == k then some r else none) | some x ↦ some x ]
  unfolding find append
  find-append k [] r = refl
  find-append k (x ∷ rs) r = ground (arith, find-append k rs r)

  -- INSERT ... ON CONFLICT(key) DO UPDATE: the row takes the place of the one with its key.
  unfoldable pub upsert : R → List R → List R
  upsert r [] = r ∷ []
  upsert r (x ∷ rs) = if key x == key r then r ∷ rs else x ∷ upsert r rs

  pub find-upsert :
      (k : String) (r : R) (rs : List R)
      → find key k (upsert r rs) ≡ (if key r == k then some r else find key k rs)
  unfolding find upsert
  find-upsert k r [] = refl
  find-upsert k r (x ∷ rs) =
      ground (arith, eq_iff (key x) (key r), eq_iff (key r) k, eq_iff (key x) k, find-upsert k r rs)

  -- PRIMARY KEY: no two rows share a key.
  unfoldable pub is_distinct : List R → Bool
  is_distinct [] = true
  is_distinct (r ∷ rs) = not (is_some (find key (key r) rs)) && is_distinct rs

  count-none :
      (k : String) (test : R → Bool) (rs : List R)
      → find key k rs ≡ none
      → count (λ r. key r == k && test r) rs ≡ 0
  unfolding find count
  count-none k test [] h = refl
  count-none k test (x ∷ rs) h = ground (arith, count-none k test rs)

  -- Under a primary key an UPDATE of one key changes the row that is found, if the test passes.
  pub count_key :
      (k : String) (test : R → Bool) (rs : List R)
      → is_distinct rs ≡ true
      → count (λ r. key r == k && test r) rs
        ≡ elim (find key k rs) [ none ↦ 0 | some r ↦ (if test r then 1 else 0) ]
  unfolding find count is_distinct
  count_key k test [] h = refl
  count_key k test (x ∷ rs) h =
      ground (arith, eq_iff (key x) k, count_key k test rs, count-none k test rs)

  pub is_distinct-update :
      (test : R → Bool) (change : R → R) (rs : List R)
      → ((r : R) → key (change r) ≡ key r)
      → is_distinct rs ≡ true
      → is_distinct (update test change rs) ≡ true
  unfolding is_distinct update
  is_distinct-update test change [] keeps h = refl
  is_distinct-update test change (x ∷ rs) keeps h = ground (
    arith,
    keeps x,
    find-update (key x) test change rs keeps,
    is_distinct-update test change rs keeps,
  )

  pub is_distinct-append :
      (rs : List R) (r : R)
      → find key (key r) rs ≡ none
      → is_distinct rs ≡ true
      → is_distinct (append rs r) ≡ true
  unfolding is_distinct append find
  is_distinct-append [] r new h = refl
  is_distinct-append (x ∷ rs) r new h = ground (
    arith,
    find-append (key x) rs r,
    eq_iff (key x) (key r),
    eq_iff (key r) (key x),
    is_distinct-append rs r,
  )

  pub is_distinct-upsert :
      (r : R) (rs : List R) → is_distinct rs ≡ true → is_distinct (upsert r rs) ≡ true
  unfolding is_distinct upsert find
  is_distinct-upsert r [] h = refl
  is_distinct-upsert r (x ∷ rs) h = ground (
    arith,
    find-upsert (key x) r rs,
    eq_iff (key x) (key r),
    eq_iff (key r) (key x),
    is_distinct-upsert r rs,
  )
