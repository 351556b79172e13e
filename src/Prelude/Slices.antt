-- ===== src/Prelude/Slices.antt =====
-- Python's slices of a sequence, over the native numbers.
use Prim.Native.Nat.{ℕ, zero, suc, ◌+◌, ◌≤◌, min}
use mathlib.Core.Path.{◌≡◌, refl, ap}
use mathlib.Core.List.{List, [], ◌∷◌, ◌++◌}
use native.Mathlib.Omega.{arith}
use eight_call.Prelude.Tests.{length}

module _ {ℓ} {A : Type ℓ} where
  -- `xs[:n]`.
  unfoldable pub take : ℕ → List A → List A
  take zero xs = []
  take (suc n) [] = []
  take (suc n) (x ∷ xs) = x ∷ take n xs

  pub take_idem : (n : ℕ) (xs : List A) → take n (take n xs) ≡ take n xs
  unfolding take
  take_idem zero xs = refl
  take_idem (suc n) [] = refl
  take_idem (suc n) (x ∷ xs) = ap (◌∷◌ x) (take_idem n xs)

  pub length-take : (n : ℕ) (xs : List A) → length (take n xs) ≤ n
  unfolding take
  length-take zero xs = omega arith
  length-take (suc n) [] = omega arith
  length-take (suc n) (x ∷ xs) = omega (arith, length-take n xs)

  -- `xs[n:]`.
  unfoldable pub drop : ℕ → List A → List A
  drop zero xs = xs
  drop (suc n) [] = []
  drop (suc n) (x ∷ xs) = drop n xs

  pub length-drop : (n : ℕ) (xs : List A) → length (drop n xs) + min n (length xs) ≡ length xs
  unfolding drop
  length-drop zero xs = omega arith
  length-drop (suc n) [] = omega arith
  length-drop (suc n) (x ∷ xs) = omega (arith, length-drop n xs)

  -- `xs[i:j]`, for indices that are not negative.
  unfoldable pub slice : ℕ → ℕ → List A → List A
  unfolding take drop
  slice i j xs = drop i (take j xs)

  drop-nil : (n : ℕ) → drop n [] ≡ []
  unfolding drop
  drop-nil zero = refl
  drop-nil (suc n) = refl

  pub slice_nil : (i j : ℕ) → slice i j [] ≡ []
  unfolding slice take
  slice_nil i zero = drop-nil i
  slice_nil i (suc j) = drop-nil i

  -- A slice and what is behind it.
  pub slice-drop : (i j : ℕ) (xs : List A) → i ≤ j → slice i j xs ++ drop j xs ≡ drop i xs
  unfolding slice take drop
  slice-drop zero zero xs h = refl
  slice-drop zero (suc j) [] h = refl
  slice-drop zero (suc j) (x ∷ xs) h = ap (◌∷◌ x) (slice-drop zero j xs (omega arith))
  slice-drop (suc i) zero xs h = absurd (omega arith)
  slice-drop (suc i) (suc j) [] h = refl
  slice-drop (suc i) (suc j) (x ∷ xs) h = slice-drop i j xs (omega arith)

  -- A slice of a prefix is that of the whole, if it ends within the prefix.
  pub slice-take :
      (i j n : ℕ) (xs : List A) → j ≤ length (take n xs) → slice i j (take n xs) ≡ slice i j xs
  unfolding slice take drop
  slice-take i zero n xs h = refl
  slice-take i (suc j) zero xs h = absurd (omega arith)
  slice-take i (suc j) (suc n) [] h = refl
  slice-take zero (suc j) (suc n) (x ∷ xs) h = ap (◌∷◌ x) (slice-take zero j n xs (omega arith))
  slice-take (suc i) (suc j) (suc n) (x ∷ xs) h = slice-take i j n xs (omega arith)

  -- A slice that does not end behind its start is empty.
  pub slice-nil : (i j : ℕ) (xs : List A) → j ≤ i → slice i j xs ≡ []
  unfolding slice take drop
  slice-nil i zero xs h = drop-nil i
  slice-nil zero (suc j) xs h = absurd (omega arith)
  slice-nil (suc i) (suc j) [] h = refl
  slice-nil (suc i) (suc j) (x ∷ xs) h = slice-nil i j xs (omega arith)

  pub length-slice : (i j : ℕ) (xs : List A) → i ≤ j → j ≤ length xs → i + length (slice i j xs) ≡ j
  unfolding slice take drop
  length-slice zero zero xs p h = refl
  length-slice (suc i) zero xs p h = absurd (omega arith)
  length-slice i (suc j) [] p h = absurd (omega arith)
  length-slice zero (suc j) (x ∷ xs) p h =
      omega (arith, length-slice zero j xs (omega arith) (omega arith))
  length-slice (suc i) (suc j) (x ∷ xs) p h =
      omega (arith, length-slice i j xs (omega arith) (omega arith))
