-- ===== src/Scaler/NodeTypes/Extremes.antt =====
-- The smallest and the largest node type are entries that no other entry passes.
use serverless_flux.Base.{
  ◌≡◌, refl, inl, inr, Bool, true, false, ◌&&◌, List, [], ◌∷◌, arith, Bool-cases, All, All-mem, ap,
}
use serverless_flux.Base.Select.{best_from, best_from-mem, best_from-Unbeaten}
use mathlib.Core.List.{Memᴰ}
use serverless_flux.Base.Int.{ℤ, pos, negsuc, int_eqb}
use serverless_flux.Floats.{Floats, FloatLaws, IsNumber}
use serverless_flux.Config.{NodeTypeConfig}
use serverless_flux.Scaler.NodeTypes.{
  NodeResources, smaller, larger, resources_of, smallest_node_resources, type_with,
  largest_instance_type,
}

int_eqb→eq : (a b : ℤ) → int_eqb a b ≡ true → a ≡ b
int_eqb→eq a b h = ground arith

module _ {F : Type 0} ⦃o : Floats F⦄ where
  -- the configured memory is not a NaN
  abbrev pub HasMemory : NodeTypeConfig F → Type 0
  HasMemory x = IsNumber x.memory_gb

module _ {F : Type 0} ⦃o : Floats F⦄ (L : FloatLaws F o) where
  smaller_irrefl : (x : NodeTypeConfig F) → smaller x x ≡ false
  unfolding smaller
  smaller_irrefl x = ground (arith, L.flt_irrefl x.memory_gb)

  smaller_asymm : (x y : NodeTypeConfig F) → smaller x y ≡ true → smaller y x ≡ false
  unfolding smaller
  smaller_asymm x y h = ground (arith, L.flt_asymm x.memory_gb y.memory_gb)

  larger-eq-smaller : (x y : NodeTypeConfig F) → larger x y ≡ smaller y x
  unfolding larger smaller
  larger-eq-smaller x y = ground arith

  -- "not smaller" is transitive among entries whose memory is a number
  not_smaller_trans :
      (x y z : NodeTypeConfig F)
      → HasMemory x
      → HasMemory y
      → HasMemory z
      → smaller x y ≡ false
      → smaller y z ≡ false
      → smaller x z ≡ false
  unfolding smaller
  not_smaller_trans x y z p q r h k =
      ground (arith, L.not_flt_trans x.memory_gb y.memory_gb z.memory_gb p q r)

  -- Where the memory of every entry is a number, the smallest resources are those of a configured
  -- entry, and no entry is smaller: none has fewer vCPUs, or as many and less memory.
  pub smallest_node_resources_least :
      (nt : NodeTypeConfig F) (types : List (NodeTypeConfig F))
      → All HasMemory (nt ∷ types)
      → (s : NodeTypeConfig F) × Memᴰ s (nt ∷ types)
        × (smallest_node_resources (nt ∷ types) ≡ resources_of s)
        × All (λ x. smaller x s ≡ false) (nt ∷ types)
  unfolding smallest_node_resources
  smallest_node_resources_least nt types (p, h) = (
    best_from smaller nt types,
    best_from-mem smaller nt types,
    refl,
    best_from-Unbeaten smaller HasMemory smaller_asymm smaller_irrefl not_smaller_trans nt types p
        h,
  )

  larger_asymm : (x y : NodeTypeConfig F) → larger x y ≡ true → larger y x ≡ false
  larger_asymm x y h = rw larger-eq-smaller (smaller_asymm y x (rw larger-eq-smaller at h))

  larger_irrefl : (x : NodeTypeConfig F) → larger x x ≡ false
  larger_irrefl x = rw larger-eq-smaller (smaller_irrefl x)

  not_larger_trans :
      (x y z : NodeTypeConfig F)
      → HasMemory x
      → HasMemory y
      → HasMemory z
      → larger x y ≡ false
      → larger y z ≡ false
      → larger x z ≡ false
  not_larger_trans x y z p q r h k =
      rw larger-eq-smaller
        (not_smaller_trans z y x r q p (rw larger-eq-smaller at k) (rw larger-eq-smaller at h))

  -- An entry with the resources of another is beaten by the same entries.
  larger_of_same :
      (x y z : NodeTypeConfig F)
      → (int_eqb y.vcpus z.vcpus && o.feq y.memory_gb z.memory_gb) ≡ true
      → larger x z ≡ false
      → larger x y ≡ false
  unfolding larger
  larger_of_same x y z e h = ground (arith, L.feq_flt y.memory_gb z.memory_gb x.memory_gb)

  int_eqb_refl : (a : ℤ) → int_eqb a a ≡ true
  int_eqb_refl (pos n) = ground arith
  int_eqb_refl (negsuc n) = ground arith

  abbrev same_resources : NodeTypeConfig F → NodeResources F → Bool
  same_resources e r = int_eqb e.vcpus r.vcpus && o.feq e.memory_gb r.memory_gb

  type_with-found :
      (r : NodeResources F) (types : List (NodeTypeConfig F)) (big : NodeTypeConfig F)
      → Memᴰ big types
      → same_resources big r ≡ true
      → (e : NodeTypeConfig F) × Memᴰ e types
        × (same_resources e r ≡ true)
        × (type_with r types ≡ e.instance_type)
  unfolding type_with
  type_with-found r [] big m h = elim m [ ]
  type_with-found r (nt ∷ types) big m h = elim (Bool-cases (same_resources nt r)) [
    | inl yes_nt ↦ (nt, Memᴰ.head refl, yes_nt, rw yes_nt)
    | inr no_nt ↦
        let (e, there, same, eq) = type_with-found r types big (below m no_nt) h in
        (e, Memᴰ.tail there, same, rw no_nt eq)
  ]
    where
      below : Memᴰ big (nt ∷ types) → same_resources nt r ≡ false → Memᴰ big types
      below (Memᴰ.head p) n = cc (ap (λ x. same_resources x r) p)
      below (Memᴰ.tail t) n = t

  All-larger :
      (s e : NodeTypeConfig F) (xs : List (NodeTypeConfig F))
      → same_resources e (resources_of s) ≡ true
      → All (λ x. larger x s ≡ false) xs
      → All (λ x. larger x e ≡ false) xs
  All-larger s e [] same h = tt
  All-larger s e (x ∷ xs) same (p, h) = (larger_of_same x e s same p, All-larger s e xs same h)

  -- Where the memory of every entry is a number, `largestInstanceType` names a configured entry,
  -- and no entry is larger than that one: none has more vCPUs, or as many and more memory.
  pub largest_instance_type_greatest :
      (nt : NodeTypeConfig F) (types : List (NodeTypeConfig F))
      → All HasMemory (nt ∷ types)
      → (e : NodeTypeConfig F) × Memᴰ e (nt ∷ types)
        × (largest_instance_type (nt ∷ types) ≡ e.instance_type)
        × All (λ x. larger x e ≡ false) (nt ∷ types)
  unfolding largest_instance_type
  largest_instance_type_greatest nt types (p, h) =
      let big = best_from larger nt types in
      let there : Memᴰ big (nt ∷ types) = best_from-mem larger nt types in
      let number : HasMemory big = All-mem HasMemory (nt ∷ types) there (p, h) in
      let self : same_resources big (resources_of big) ≡ true =
        rw (int_eqb_refl big.vcpus) number in
      let (e, m, same, eq) = type_with-found (resources_of big) (nt ∷ types) big there self in
      (
        e,
        m,
        eq,
        All-larger big e (nt ∷ types) same (
            best_from-Unbeaten larger HasMemory larger_asymm larger_irrefl not_larger_trans nt types
              p h),
      )
