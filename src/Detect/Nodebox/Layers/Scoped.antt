-- ===== src/Detect/Nodebox/Layers/Scoped.antt =====
-- What the attestation scope of nodebox_layers.py claims.
use eight_call.Prelude.{
  ℕ, ◌||◌, ◌≤◌, ◌≡◌, refl, ap, ◌⊎◌, ◌∙◌, eq_iff, String, true, false, not, ◌&&◌, List, [], ◌∷◌,
  ◌==◌, arith, contains, nat_eq, ltb, Bool-cases, inl, inr,
}
use eight_call.Detect.Nodebox.Layers.{
  Layer, hardware, host_kernel, hypervisor, guest_kernel, guest_userspace, process, level, stack,
  anchors, known_anchors, has_layer, attested_layers, layers_without, deepest, attestation_scope,
}

known-contains :
    (a : String) (given : List String)
    → contains a anchors ≡ true
    → contains a (known_anchors given) ≡ contains a given
unfolding known_anchors
known-contains a [] h = refl
known-contains a (x ∷ xs) h = elim (Bool-cases (contains x anchors)) [
  | inl known ↦ rw known (ground (arith, known-contains a xs h))
  | inr unknown ↦ elim (Bool-cases (x == a)) [
    | inl same ↦
        let e : x ≡ a = (eq_iff x a).0 same in
        absurd (cc (ap (λ t. contains t anchors) e, h, unknown))
    | inr other ↦ rw unknown (ground (arith, known-contains a xs h, other))
  ]
]

-- The anchor that a layer needs; the process attests itself.
abbrev pub anchor_of : Layer → String
anchor_of hardware = "hardware_root"
anchor_of host_kernel = "host_attestation"
anchor_of hypervisor = "attestation_service"
anchor_of guest_kernel = "measured_boot"
anchor_of guest_userspace = "supervisor"
anchor_of process = ""

attested_iff :
    (have : List String) (l : Layer)
    → has_layer l (attested_layers have) ≡ (nat_eq (level l) 5 || contains (anchor_of l) have)
unfolding attested_layers has_layer
attested_iff have hardware = ground arith
attested_iff have host_kernel = ground arith
attested_iff have hypervisor = ground arith
attested_iff have guest_kernel = ground arith
attested_iff have guest_userspace = ground arith
attested_iff have process = refl

has_layer-level :
    (a b : Layer) (xs : List Layer) → level a ≡ level b → has_layer a xs ≡ has_layer b xs
unfolding has_layer
has_layer-level a b [] e = refl
has_layer-level a b (x ∷ xs) e = cc (ap (λ n. nat_eq (level x) n) e, has_layer-level a b xs e)

same_level : (m n : ℕ) → nat_eq m n ≡ true → m ≡ n
same_level m n h = ground arith

without_iff :
    (attested ls : List Layer) (l : Layer)
    → has_layer l (layers_without attested ls) ≡ (has_layer l ls && not (has_layer l attested))
unfolding layers_without has_layer
without_iff attested [] l = refl
without_iff attested (x ∷ xs) l = elim (Bool-cases (nat_eq (level x) (level l))) [
  | inl same ↦
      let e : has_layer x attested ≡ has_layer l attested =
        has_layer-level x l attested (same_level (level x) (level l) same) in
      ground (arith, without_iff attested xs l, e, same)
  | inr other ↦ ground (arith, without_iff attested xs l, other)
]

stack-has : (l : Layer) → has_layer l stack ≡ true
unfolding has_layer
stack-has hardware = refl
stack-has host_kernel = refl
stack-has hypervisor = refl
stack-has guest_kernel = refl
stack-has guest_userspace = refl
stack-has process = refl

-- A level that is at most that of `x` and of each of the others.
deep-cases :
    (x l : Layer) (xs : List Layer) (n : ℕ)
    → n ≤ level x
    → (has_layer l xs ≡ true → n ≤ level l)
    → (nat_eq (level x) (level l) || has_layer l xs) ≡ true
    → n ≤ level l
deep-cases x l xs n top rest h = elim (Bool-cases (nat_eq (level x) (level l))) [
  | inl same ↦ omega (arith, top, same_level (level x) (level l) same)
  | inr other ↦ rest (rw other at h)
]

deepest-le :
    (first : Layer) (xs : List Layer)
    → (level (deepest first xs) ≤ level first)
      × ((l : Layer) → has_layer l xs ≡ true → level (deepest first xs) ≤ level l)
unfolding deepest has_layer
deepest-le first [] = (omega arith, λ l h. absurd (cc h))
deepest-le first (x ∷ xs) = elim (Bool-cases (ltb (level x) (level first))) [
  | inl deeper ↦
      let (top, each) = deepest-le x xs in
      rw deeper (ground (arith, top), λ l h. deep-cases x l xs _ top (each l) h)
  | inr other ↦
      let (top, each) = deepest-le first xs in
      rw other (top, λ l h. deep-cases x l xs _ (ground (arith, top, other)) (each l) h)
]

known_or :
    (l : Layer) (given : List String)
    → (nat_eq (level l) 5 || contains (anchor_of l) (known_anchors given))
      ≡ (nat_eq (level l) 5 || contains (anchor_of l) given)
known_or process given = refl
known_or hardware given = known-contains "hardware_root" given (unfold contains in refl)
known_or host_kernel given = known-contains "host_attestation" given (unfold contains in refl)
known_or hypervisor given = known-contains "attestation_service" given (unfold contains in refl)
known_or guest_kernel given = known-contains "measured_boot" given (unfold contains in refl)
known_or guest_userspace given = known-contains "supervisor" given (unfold contains in refl)

-- A layer is attested if and only if it is the process or its own anchor was given, every layer is on
-- exactly one of the two lists, and no layer that is attested lies below the depth that is claimed.
pub attestation_scope_iff :
    (given : List String) (l : Layer)
    → let s = attestation_scope given in
      (has_layer l s.attested ≡ (nat_eq (level l) 5 || contains (anchor_of l) given))
      × (has_layer l s.not_attested ≡ not (has_layer l s.attested))
      × ((level s.depth ≤ level l) ⊎ (has_layer l s.attested ≡ false))
unfolding attestation_scope
attestation_scope_iff given l =
    let have = known_anchors given in
    let attested = attested_layers have in
    (
      attested_iff have l ∙ known_or l given,
      cc (without_iff attested stack l, stack-has l),
      elim (Bool-cases (has_layer l attested)) [
        | inl on ↦ inl ((deepest-le process attested).1 l on)
        | inr off ↦ inr off
      ],
    )
