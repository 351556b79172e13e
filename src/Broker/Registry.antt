-- ===== src/Broker/Registry.antt =====
-- plasma/broker/broker/registry.py: the fixed capabilities and their bounded parameters.
pub mod Params
pub mod Bounds
use eight_call.Prelude.{
  ℕ, String, Bool, true, Option, none, some, List, [], ◌∷◌, ℤ, pos, ◌==◌, if◌then◌else◌,
}

pub record Rule : Type 0 where
  pub type : String
  pub allow : Option (List ℤ)
  pub min : Option ℤ
  pub max : Option ℤ
  pub required : Bool

pub record Spec : Type 0 where
  pub desc : String
  pub params : List (String × Rule)
  pub ttl_s : ℕ
  pub read_only : Bool

abbrev pub port_rule : Rule
port_rule = record {
  type = "int";
  allow = some (pos 80 ∷ pos 443 ∷ pos 8022 ∷ pos 5353 ∷ pos 62078 ∷ []);
  min = none;
  max = none;
  required = true;
}

-- The table `CAPABILITIES`.
unfoldable pub capabilities : List (String × Spec)
capabilities =
    (
      "ping",
      record { desc = "ICMP reachability, one echo"; params = []; ttl_s = 30; read_only = true },
    )
    ∷ (
      "neigh",
      record {
        desc = "ARP/neighbour-table lookup for the target address";
        params = [];
        ttl_s = 60;
        read_only = true;
      },
    )
    ∷ (
      "tcp_probe",
      record {
        desc = "TCP connect probe to an allow-listed port";
        params = ("port", port_rule) ∷ [];
        ttl_s = 30;
        read_only = true;
      },
    )
    ∷ (
      "inventory",
      record {
        desc = "ping + neighbour summary for one target";
        params = [];
        ttl_s = 60;
        read_only = true;
      },
    )
    ∷ []

module _ {V : Type 0} where
  unfoldable pub lookup : String → List (String × V) → Option V
  lookup k [] = none
  lookup k ((j, v) ∷ m) = if j == k then some v else lookup k m

-- `get`, where `none` is the RegistryError of an unknown capability.
unfoldable pub get : String → Option Spec
unfolding capabilities lookup
get action = lookup action capabilities
