-- ===== src/Detect/Nodebox/Layers.antt =====
-- nodebox_layers.py: the scope of a node's attestation.
pub mod Scoped
use eight_call.Prelude.{
  ℕ, ◌||◌, ◌≤◌, ◌<◌, ◌≡◌, refl, ap, ◌∙◌, eq_iff, String, Bool, true, false, not, ◌&&◌, List, [],
  ◌∷◌, ◌++◌, ◌==◌, arith, contains, nat_eq, ltb, Bool-cases, inl, inr, if◌then◌else◌,
}
use eight_call.Broker.Store.Enrollments.{sorted_set}

pub data Layer : Type 0 where
  hardware host_kernel hypervisor guest_kernel guest_userspace process : Layer

abbrev pub level : Layer → ℕ
level hardware = 0
level host_kernel = 1
level hypervisor = 2
level guest_kernel = 3
level guest_userspace = 4
level process = 5

abbrev pub stack : List Layer
stack = hardware ∷ host_kernel ∷ hypervisor ∷ guest_kernel ∷ guest_userspace ∷ process ∷ []

abbrev pub anchors : List String
anchors =
    "supervisor" ∷ "measured_boot" ∷ "attestation_service" ∷ "host_attestation" ∷ "hardware_root"
    ∷ []

unfoldable pub known_anchors : List String → List String
unfolding contains
known_anchors [] = []
known_anchors (a ∷ rest) =
    let known = known_anchors rest in if contains a anchors then a ∷ known else known

unfoldable pub has_layer : Layer → List Layer → Bool
has_layer l [] = false
has_layer l (x ∷ xs) = nat_eq (level x) (level l) || has_layer l xs

-- The anchor that a layer below the process needs.
abbrev when_has : String → List String → Layer → List Layer
when_has anchor have l = if contains anchor have then l ∷ [] else []

unfoldable pub attested_layers : List String → List Layer
unfolding contains
attested_layers have =
    process
    ∷ (when_has "supervisor" have guest_userspace
        ++ (when_has "measured_boot" have guest_kernel
            ++ (when_has "attestation_service" have hypervisor
                ++ (when_has "host_attestation" have host_kernel
                    ++ when_has "hardware_root" have hardware))))

unfoldable pub layers_without : List Layer → List Layer → List Layer
unfolding has_layer
layers_without attested [] = []
layers_without attested (l ∷ ls) =
    let rest = layers_without attested ls in if has_layer l attested then rest else l ∷ rest

-- `min`.
unfoldable pub deepest : Layer → List Layer → Layer
deepest l [] = l
deepest l (x ∷ xs) = deepest (if ltb (level x) (level l) then x else l) xs

pub record Scope : Type 0 where
  pub depth : Layer
  pub attested : List Layer
  pub not_attested : List Layer
  pub anchors : List String

unfoldable pub attestation_scope : List String → Scope
attestation_scope given =
    let have = known_anchors given in
    let attested = attested_layers have in
    record {
      depth = deepest process attested;
      attested = attested;
      not_attested = layers_without attested stack;
      anchors = sorted_set have;
    }
