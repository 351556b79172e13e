-- ===== src/Detect/AuthzGate/Audit/Restart.antt =====
-- authz_gate.py: what a gate reads back from its files, the tip of the chain and the spent nonces. A
-- file of nonces is the list of its code points.
use eight_call.Prelude.{
  ℕ, ◌+◌, String, ◌≡◌, refl, ap, sym, ◌∙◌, Bool, true, not, ◌&&◌, ◌||◌, List, [], ◌∷◌, ◌++◌, Option,
  none, some, pos, zero, nat_eq, arith, append-nil, append_assoc, if◌then◌else◌,
}
use eight_call.Broker.Json
use eight_call.Broker.Json.{Json, Fields, num, text}
use eight_call.Detect.AuthzGate.Audit.{genesis_hash}

abbrev tip_of : Option Json → Option Json → Option (String × ℕ)
tip_of (some (text hash)) (some (num (pos n))) = some (hash, n + 1)
tip_of _ _ = none

-- The records with the latest first; `none` is a record that lacks its hash or its number.
unfoldable pub load_chain_tip : List Fields → Option (String × ℕ)
unfolding Json.get
load_chain_tip [] = some (genesis_hash, zero)
load_chain_tip (d ∷ older) = elim (load_chain_tip older) [
  | none ↦ none
  | some _ ↦ tip_of (Json.get "record_hash" d) (Json.get "seq" d)
]

-- A line of the file, unless it is empty.
abbrev add_line : List ℕ → List (List ℕ) → List (List ℕ)
add_line [] lines = lines
add_line (c ∷ cs) lines = (c ∷ cs) ∷ lines

-- The lines of a file that are not empty; `line` is what the current line has so far.
unfoldable pub load_lines : List ℕ → List ℕ → List (List ℕ)
load_lines line [] = add_line line []
load_lines line (c ∷ cs) =
    let ended = load_lines [] cs in
    let longer = load_lines (line ++ c ∷ []) cs in
    if nat_eq c 10 || nat_eq c 13 then add_line line ended else longer

unfoldable pub load_nonces : List ℕ → List (List ℕ)
unfolding load_lines
load_nonces file = load_lines [] file

-- `_consume_nonce` on the file.
unfoldable pub append_nonce : List ℕ → List ℕ → List ℕ
append_nonce file key = file ++ (key ++ 10 ∷ [])

-- The file after keys, the first one first.
unfoldable pub write_nonces : List ℕ → List (List ℕ) → List ℕ
unfolding append_nonce
write_nonces file [] = file
write_nonces file (k ∷ ks) = write_nonces (append_nonce file k) ks

-- No character of the key ends a line.
abbrev pub is_one_line : List ℕ → Bool
is_one_line [] = true
is_one_line (c ∷ cs) = not (nat_eq c 10 || nat_eq c 13) && is_one_line cs

abbrev pub AllOneLine : List (List ℕ) → Type 0
AllOneLine [] = Unit
AllOneLine ([] ∷ ks) = ⊥
AllOneLine ((c ∷ cs) ∷ ks) = (is_one_line (c ∷ cs) ≡ true) × AllOneLine ks

load_lines-key :
    (line key rest : List ℕ)
    → is_one_line key ≡ true
    → load_lines line (key ++ 10 ∷ rest) ≡ add_line (line ++ key) (load_lines [] rest)
unfolding load_lines
load_lines-key line [] rest h = rw append-nil
load_lines-key line (c ∷ cs) rest h =
    grind (arith, load_lines-key (line ++ c ∷ []) cs rest, append_assoc line (c ∷ []) cs)

load_nonces-nil : load_nonces (write_nonces [] []) ≡ []
unfolding load_nonces write_nonces
load_nonces-nil = refl

load_lines-behind :
    (key rest : List ℕ)
    → is_one_line key ≡ true
    → load_nonces (append_nonce [] key ++ rest) ≡ add_line key (load_nonces rest)
unfolding load_nonces append_nonce
load_lines-behind key rest h = rw (append_assoc key (10 ∷ []) rest) (load_lines-key [] key rest h)

write-append :
    (file : List ℕ) (ks : List (List ℕ)) → write_nonces file ks ≡ file ++ write_nonces [] ks
unfolding write_nonces append_nonce
write-append file [] = sym (append-nil file)
write-append file (k ∷ ks) =
    write-append (file ++ (k ++ 10 ∷ [])) ks
    ∙ append_assoc file (k ++ 10 ∷ []) (write_nonces [] ks)
    ∙ ap (◌++◌ file) (sym (write-append (k ++ 10 ∷ []) ks))

write-cons :
    (k : List ℕ) (ks : List (List ℕ))
    → write_nonces [] (k ∷ ks) ≡ append_nonce [] k ++ write_nonces [] ks
unfolding write_nonces append_nonce
write-cons k ks = write-append (k ++ 10 ∷ []) ks

-- The keys that were spent are what a gate reads back after a restart, in their order and nothing
-- else, if none is empty and none has a line feed or a carriage return.
pub load_nonces-write : (ks : List (List ℕ)) → AllOneLine ks → load_nonces (write_nonces [] ks) ≡ ks
load_nonces-write [] h = load_nonces-nil
load_nonces-write ([] ∷ ks) h = absurd h
load_nonces-write ((c ∷ cs) ∷ ks) h =
    ap load_nonces (write-cons (c ∷ cs) ks)
    ∙ load_lines-behind (c ∷ cs) (write_nonces [] ks) h.0
    ∙ ap (◌∷◌ (c ∷ cs)) (load_nonces-write ks h.1)
