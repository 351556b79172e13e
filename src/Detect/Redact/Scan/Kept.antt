-- ===== src/Detect/Redact/Scan/Kept.antt =====
-- What redact.py's `scan_text` keeps: spans in order that do not overlap, and for each span that was
-- found one that covers some of it.
use eight_call.Prelude.{ℕ, ◌≤◌, ◌<◌, ◌≡◌, false, List, [], ◌∷◌, ◌++◌, arith, Bool-cases, inl, inr}
use eight_call.Detect.Redact.Scan.{Match, insert_match, sort_matches, overlaps_any, keep_apart}

abbrev pub All : {A : Type 0} → (A → Type 0) → List A → Type 0
All P [] = Unit
All P (m ∷ ms) = P m × All P ms

-- The spans lie one behind the other, from `pos` on, and none is empty.
abbrev pub IsLaid : ℕ → List Match → Type 0
IsLaid pos [] = Unit
IsLaid pos (m ∷ ms) = (pos ≤ m.start) × (m.start < m.end) × IsLaid m.end ms

-- The starts ascend from `pos`.
abbrev pub IsSorted : ℕ → List Match → Type 0
IsSorted pos [] = Unit
IsSorted pos (m ∷ ms) = (pos ≤ m.start) × IsSorted m.start ms

pub All-append :
    {A : Type 0} (P : A → Type 0) (xs ys : List A) → All P xs → All P ys → All P (xs ++ ys)
All-append P [] ys h k = k
All-append P (x ∷ xs) ys h k = (h.0, All-append P xs ys h.1 k)

All-insert :
    (P : Match → Type 0) (m : Match) (ms : List Match) → P m → All P ms → All P (insert_match m ms)
unfolding insert_match
All-insert P m [] p h = (p, tt)
All-insert P m (k ∷ ks) p h = ground (arith, All-insert P m ks p h.1)

pub All-sort : (P : Match → Type 0) (ms : List Match) → All P ms → All P (sort_matches ms)
unfolding sort_matches
All-sort P [] h = tt
All-sort P (m ∷ ms) h = All-insert P m (sort_matches ms) h.0 (All-sort P ms h.1)

insert-All :
    (P : Match → Type 0) (m : Match) (ms : List Match) → All P (insert_match m ms) → P m × All P ms
unfolding insert_match
insert-All P m [] h = h
insert-All P m (k ∷ ks) h = ground (arith, insert-All P m ks)

pub sort-All : (P : Match → Type 0) (ms : List Match) → All P (sort_matches ms) → All P ms
unfolding sort_matches
sort-All P [] h = tt
sort-All P (m ∷ ms) h = let s = insert-All P m (sort_matches ms) h in (s.0, sort-All P ms s.1)

insert-IsSorted :
    (pos : ℕ) (m : Match) (ms : List Match)
    → pos ≤ m.start
    → IsSorted pos ms
    → IsSorted pos (insert_match m ms)
unfolding insert_match
insert-IsSorted pos m [] p h = (p, tt)
insert-IsSorted pos m (k ∷ ks) p h = ground (arith, insert-IsSorted k.start m ks)

pub sort-IsSorted : (ms : List Match) → IsSorted 0 (sort_matches ms)
unfolding sort_matches
sort-IsSorted [] = tt
sort-IsSorted (m ∷ ms) = insert-IsSorted 0 m (sort_matches ms) (omega arith) (sort-IsSorted ms)

pub All-keep :
    (P : Match → Type 0) (ms kept : List Match) → All P ms → All P kept → All P (keep_apart ms kept)
unfolding keep_apart
All-keep P [] kept h k = k
All-keep P (m ∷ ms) kept h k = elim (Bool-cases (overlaps_any m kept)) [
  | inl o ↦ rw o (All-keep P ms kept h.1 k)
  | inr o ↦ rw o (All-keep P ms (kept ++ m ∷ []) h.1 (All-append P kept (m ∷ []) k (h.0, tt)))
]

-- A span that starts at or behind all that is kept and overlaps none of it fits at its end.
append-IsLaid :
    (pos : ℕ) (m : Match) (kept : List Match)
    → pos ≤ m.start
    → m.start < m.end
    → All (λ k. k.start ≤ m.start) kept
    → overlaps_any m kept ≡ false
    → IsLaid pos kept
    → IsLaid pos (kept ++ m ∷ [])
unfolding overlaps_any
append-IsLaid pos m [] p q before o h = (p, q, tt)
append-IsLaid pos m (k ∷ ks) p q before o h = ground (arith, append-IsLaid k.end m ks)

All-before :
    (a b : ℕ) (kept : List Match)
    → a ≤ b
    → All (λ k. k.start ≤ a) kept
    → All (λ k. k.start ≤ b) kept
All-before a b [] p h = tt
All-before a b (k ∷ ks) p h = (omega arith, All-before a b ks p h.1)

pub keep-IsLaid :
    (pos : ℕ) (ms kept : List Match)
    → IsSorted pos ms
    → All (λ m. m.start < m.end) ms
    → All (λ k. k.start ≤ pos) kept
    → IsLaid 0 kept
    → IsLaid 0 (keep_apart ms kept)
unfolding keep_apart
keep-IsLaid pos [] kept sorted full before h = h
keep-IsLaid pos (m ∷ ms) kept sorted full before h =
    let early = All-before pos m.start kept sorted.0 before in
    elim (Bool-cases (overlaps_any m kept)) [
      | inl o ↦ rw o (keep-IsLaid m.start ms kept sorted.1 full.1 early h)
      | inr o ↦ rw o (
          keep-IsLaid m.start ms (kept ++ m ∷ []) sorted.1 full.1
            (All-append (λ k. k.start ≤ m.start) kept (m ∷ []) early (omega arith, tt))
            (append-IsLaid 0 m kept (omega arith) full.0 early o h))
    ]
