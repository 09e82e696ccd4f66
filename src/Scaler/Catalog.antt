-- ===== src/Scaler/Catalog.antt =====
-- pkg/resource/instance_catalog.go: the tightest fit among the configured node types. The sort is
-- Go's `sort.Slice`, which need not be stable. An error is its message up to the values in it.
pub mod TightestFit
use serverless_flux.Base.{String, Bool, ◌||◌, List, [], ◌∷◌, if◌then◌else◌}
use serverless_flux.Base.Int.{ℤ, pos, int_ltb, int_leb, sub64}
use serverless_flux.Base.Result.{Result, ok, err}
use serverless_flux.Floats.{Floats}
use serverless_flux.Config.{NodeTypeConfig}
use serverless_flux.Scaler.NodeTypes.{NodeResources}

pub record Candidate (F : Type 0) : Type 0 where
  pub instance_type : String
  pub score : F

-- `sort.Slice`, on its less function and the candidates
abbrev pub Sort : Type 0 → Type 0
Sort F = (Candidate F → Candidate F → Bool) → List (Candidate F) → List (Candidate F)

module _ {F : Type 0} ⦃o : Floats F⦄ where
  -- the test that skips a node type
  abbrev pub too_small : NodeTypeConfig F → NodeResources F → Bool
  too_small nt required = int_ltb nt.vcpus required.vcpus || o.flt nt.memory_gb required.memory_gb

  unfoldable pub candidate_of : NodeResources F → NodeTypeConfig F → Candidate F
  unfolding sub64
  candidate_of required nt =
      let excess_cpu = o.of_ℤ (sub64 nt.vcpus required.vcpus) in
      let excess_mem = o.fsub nt.memory_gb required.memory_gb in
      record {
        instance_type = nt.instance_type;
        score = o.fsqrt (o.fadd (o.fmul excess_cpu excess_cpu) (o.fmul excess_mem excess_mem));
      }

  unfoldable pub candidates : NodeResources F → List (NodeTypeConfig F) → List (Candidate F)
  candidates required [] = []
  candidates required (nt ∷ types) =
      let rest = candidates required types in
      if too_small nt required then rest else candidate_of required nt ∷ rest

  abbrev pub invalid : NodeResources F → Bool
  invalid required = int_leb required.vcpus (pos 0) || o.fle required.memory_gb (o.of_ℕ 0)

  -- the less function
  abbrev pub nearer : Candidate F → Candidate F → Bool
  nearer x y = o.flt x.score y.score

  first_of_sorted : List (Candidate F) → Result String
  first_of_sorted [] = err "no configured node_type meets requirements"
  first_of_sorted (c ∷ cs) = ok c.instance_type

  pick : Sort F → List (Candidate F) → Result String
  unfolding first_of_sorted
  pick sort [] = err "no configured node_type meets requirements"
  pick sort (c ∷ cs) = first_of_sorted (sort nearer (c ∷ cs))

  choose_type : Sort F → List (NodeTypeConfig F) → NodeResources F → Result String
  unfolding pick candidates candidate_of
  choose_type sort [] required = err "no node_types configured"
  choose_type sort (nt ∷ types) required = pick sort (candidates required (nt ∷ types))

  unfoldable pub select_instance_type :
      Sort F → List (NodeTypeConfig F) → NodeResources F → Result String
  unfolding choose_type
  select_instance_type sort types required =
      if invalid required
      then err "invalid resource requirements"
      else choose_type sort types required
