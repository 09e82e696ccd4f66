-- ===== src/Scaler/NodeTypes.antt =====
-- The smallest and the largest configured node type, of pkg/resource/scaler.go, and
-- `NodeResources` of pkg/resource/provider.go.
pub mod Extremes
use serverless_flux.Base.{String, Bool, ◌&&◌, ◌||◌, List, [], ◌∷◌, if◌then◌else◌}
use serverless_flux.Base.Select.{best_from}
use serverless_flux.Base.Int.{ℤ, pos, int_ltb, int_eqb}
use serverless_flux.Floats.{Floats}
use serverless_flux.Config.{NodeTypeConfig}

pub record NodeResources (F : Type 0) : Type 0 where
  pub vcpus : ℤ
  pub memory_gb : F

module _ {F : Type 0} ⦃o : Floats F⦄ where
  -- the test of `smallestNodeResources`
  pub smaller : NodeTypeConfig F → NodeTypeConfig F → Bool
  smaller nt best =
      int_ltb nt.vcpus best.vcpus
      || (int_eqb nt.vcpus best.vcpus && o.flt nt.memory_gb best.memory_gb)

  -- the test of `largestNodeResources`; `a > b` is `b < a`
  pub larger : NodeTypeConfig F → NodeTypeConfig F → Bool
  larger nt best =
      int_ltb best.vcpus nt.vcpus
      || (int_eqb nt.vcpus best.vcpus && o.flt best.memory_gb nt.memory_gb)

  abbrev pub resources_of : NodeTypeConfig F → NodeResources F
  resources_of nt = record { vcpus = nt.vcpus; memory_gb = nt.memory_gb }

  unfoldable pub smallest_node_resources : List (NodeTypeConfig F) → NodeResources F
  unfolding smaller best_from
  smallest_node_resources [] = record { vcpus = pos 1; memory_gb = o.of_ℕ 1 }
  smallest_node_resources (nt ∷ types) = resources_of (best_from smaller nt types)

  unfoldable pub largest_node_resources : List (NodeTypeConfig F) → NodeResources F
  unfolding larger best_from
  largest_node_resources [] = record { vcpus = pos 1; memory_gb = o.of_ℕ 1 }
  largest_node_resources (nt ∷ types) = resources_of (best_from larger nt types)

  -- the loop of `largestInstanceType`: the first entry with these resources
  pub type_with : NodeResources F → List (NodeTypeConfig F) → String
  type_with r [] = ""
  type_with r (nt ∷ types) =
      if int_eqb nt.vcpus r.vcpus && o.feq nt.memory_gb r.memory_gb
      then nt.instance_type
      else type_with r types

  unfoldable pub largest_instance_type : List (NodeTypeConfig F) → String
  unfolding type_with largest_node_resources
  largest_instance_type types = type_with (largest_node_resources types) types
