-- ===== src/Scaler/Catalog/TightestFit.antt =====
-- What `selectInstanceType` of pkg/resource/instance_catalog.go returns.
use mathlib.Core.List.{Memᴰ}
use serverless_flux.Base.{
  String, ◌≡◌, refl, sym, ap, ◌∙◌, inl, inr, Bool, true, false, List, [], ◌∷◌, arith, Bool-cases,
  List-cases, All, All-mem, subst, mem-cons_cases,
}
use serverless_flux.Base.Result.{ok, ok-injective}
use serverless_flux.Floats.{Floats, FloatLaws, IsNumber}
use serverless_flux.Config.{NodeTypeConfig}
use serverless_flux.Scaler.NodeTypes.{NodeResources, resources_of, smallest_node_resources}
use serverless_flux.Scaler.NodeTypes.Extremes.{HasMemory, smallest_node_resources_least}
use serverless_flux.Scaler.Catalog.{
  Sort, Candidate, too_small, candidate_of, candidates, nearer, invalid, first_of_sorted, pick,
  select_instance_type,
}

-- `less` is a strict weak order on the candidates of a kind.
pub record IsOrder {F : Type 0} (P : Candidate F → Type 0) (less : Candidate F → Candidate F → Bool)
    : Type 0 where
  pub asymm : (x y : Candidate F) → P x → P y → less x y ≡ true → less y x ≡ false
  pub not_trans :
      (x y z : Candidate F)
      → P x
      → P y
      → P z
      → less x y ≡ false
      → less y z ≡ false
      → less x z ≡ false

-- What `sort.Slice` documents: the result has the same entries, and if the less function is a strict
-- weak order on the entries, no later one is less than the first.
pub record SortLaws {F : Type 0} (sort : Sort F) : Type 1 where
  pub mem_sort :
      (less : Candidate F → Candidate F → Bool) (l : List (Candidate F)) (c : Candidate F)
      → Memᴰ c (sort less l)
      → Memᴰ c l
  pub sort_mem :
      (less : Candidate F → Candidate F → Bool) (l : List (Candidate F)) (c : Candidate F)
      → Memᴰ c l
      → Memᴰ c (sort less l)
  pub ordered :
      (P : Candidate F → Type 0) (less : Candidate F → Candidate F → Bool) (l : List (Candidate F))
      (c : Candidate F) (cs : List (Candidate F))
      → IsOrder P less
      → All P l
      → sort less l ≡ c ∷ cs
      → All (λ x. less x c ≡ false) cs

module _ {F : Type 0} ⦃o : Floats F⦄ (required : NodeResources F) where
  candidates-mem :
      (types : List (NodeTypeConfig F)) (c : Candidate F)
      → Memᴰ c (candidates required types)
      → (e : NodeTypeConfig F) × Memᴰ e types
        × (too_small e required ≡ false)
        × (c ≡ candidate_of required e)
  unfolding candidates
  candidates-mem [] c m = elim m [ ]
  candidates-mem (nt ∷ types) c m = elim (Bool-cases (too_small nt required)) [
    | inl e ↦
        let (x, there, fit, eq) = candidates-mem types c (rw e at m) in
        (x, Memᴰ.tail there, fit, eq)
    | inr e ↦ elim (mem-cons_cases (rw e at m)) [
      | inl p ↦ (nt, Memᴰ.head refl, e, p)
      | inr n ↦ let (x, there, fit, eq) = candidates-mem types c n in (x, Memᴰ.tail there, fit, eq)
    ]
  ]

  mem-candidates :
      (types : List (NodeTypeConfig F)) (e : NodeTypeConfig F)
      → Memᴰ e types
      → too_small e required ≡ false
      → Memᴰ (candidate_of required e) (candidates required types)
  unfolding candidates
  mem-candidates [] e m h = elim m [ ]
  mem-candidates (nt ∷ types) e m h = elim (mem-cons_cases m) [
    | inl p ↦ rw (← p) (rw h (Memᴰ.head refl))
    | inr n ↦ elim (Bool-cases (too_small nt required)) [
      | inl t ↦ rw t (mem-candidates types e n h)
      | inr t ↦ rw t (Memᴰ.tail (mem-candidates types e n h))
    ]
  ]

  -- The first of the sorted candidates.
  module _ (sort : Sort F) where
    pick-eq :
        (c : Candidate F) (cs : List (Candidate F))
        → pick sort (c ∷ cs) ≡ first_of_sorted (sort nearer (c ∷ cs))
    unfolding pick
    pick-eq c cs = refl

    pick-ok :
        (l : List (Candidate F)) (name : String)
        → pick sort l ≡ ok name
        → (c : Candidate F) × (cs : List (Candidate F)) × (sort nearer l ≡ c ∷ cs)
          × (c.instance_type ≡ name)
    unfolding pick first_of_sorted
    pick-ok [] name h = cc
    pick-ok (a ∷ l) name h = elim (List-cases (sort nearer (a ∷ l))) [
      | inl e ↦ cc (sym (ap first_of_sorted e) ∙ h)
      | inr (c, cs, e) ↦ (c, cs, e, ok-injective (sym (ap first_of_sorted e) ∙ h))
    ]

    pick-total :
        (S : SortLaws sort) (l : List (Candidate F)) (c : Candidate F)
        → Memᴰ c l
        → (name : String) × (pick sort l ≡ ok name)
    unfolding first_of_sorted
    pick-total S [] c m = elim m [ ]
    pick-total S (a ∷ l) c m = elim (List-cases (sort nearer (a ∷ l))) [
      | inl e ↦ elim (subst (Memᴰ c) e (S.sort_mem nearer (a ∷ l) c m)) [ ]
      | inr (b, bs, e) ↦ (b.instance_type, pick-eq a l ∙ ap first_of_sorted e)
    ]

module _ {F : Type 0} ⦃o : Floats F⦄ (L : FloatLaws F o) (sort : Sort F) (S : SortLaws sort) where
  -- The scores that are numbers are ordered.
  nearer-IsOrder : IsOrder (λ (a : Candidate F). IsNumber a.score) nearer
  nearer-IsOrder = record {
    asymm = λ x y p q h. L.flt_asymm x.score y.score h;
    not_trans = λ x y z p q s h k. L.not_flt_trans x.score y.score z.score p q s h k;
  }

  -- A candidate does not stay behind the first of the sorted ones.
  first_least :
      (l : List (Candidate F)) (c x : Candidate F) (cs : List (Candidate F))
      → All (λ a. IsNumber a.score) l
      → sort nearer l ≡ c ∷ cs
      → Memᴰ x l
      → o.flt x.score c.score ≡ false
  first_least l c x cs n e m = elim (mem-cons_cases (subst (Memᴰ x) e (S.sort_mem nearer l x m))) [
    | inl p ↦ rw p (L.flt_irrefl c.score)
    | inr t ↦
        All-mem (λ a. o.flt a.score c.score ≡ false) cs t
          (S.ordered (λ a. IsNumber a.score) nearer l c cs nearer-IsOrder n e)
  ]

  select-pick :
      (types : List (NodeTypeConfig F)) (required : NodeResources F) (name : String)
      → select_instance_type sort types required ≡ ok name
      → (invalid required ≡ false) × (pick sort (candidates required types) ≡ ok name)
  unfolding select_instance_type
  select-pick [] required name h = ground arith
  select-pick (nt ∷ types) required name h = ground arith

  -- Where the scores of the candidates are numbers, a chosen name is that of a configured type
  -- that has the vCPUs and the memory required, and no other configured type that has them is
  -- nearer to the requirement by the score. The requirement was positive.
  pub select_instance_type_tightest :
      (types : List (NodeTypeConfig F)) (required : NodeResources F) (name : String)
      → All (λ a. IsNumber a.score) (candidates required types)
      → select_instance_type sort types required ≡ ok name
      → (invalid required ≡ false)
        × ((e : NodeTypeConfig F) × Memᴰ e types
            × (e.instance_type ≡ name)
            × (too_small e required ≡ false)
            × ((x : NodeTypeConfig F)
                → Memᴰ x types
                → too_small x required ≡ false
                → o.flt (candidate_of required x).score (candidate_of required e).score ≡ false))
  select_instance_type_tightest types required name n h =
      let (valid, picked) = select-pick types required name h in
      let l = candidates required types in
      let (c, cs, e, named) = pick-ok required sort l name picked in
      let in_l : Memᴰ c l = S.mem_sort nearer l c (subst (Memᴰ c) (sym e) (Memᴰ.head refl)) in
      let (t, there, fit, eq) = candidates-mem required types c in_l in
      (
        valid,
        (
          t,
          there,
          name_of required t c eq ∙ named,
          fit,
          λ x m f.
              subst (λ a. o.flt (candidate_of required x).score a.score ≡ false) eq
                (first_least l c _ cs n e (mem-candidates required types x m f)),
        ),
      )
    where
      name_of :
          (required : NodeResources F) (t : NodeTypeConfig F) (c : Candidate F)
          → c ≡ candidate_of required t
          → t.instance_type ≡ c.instance_type
      name_of required t c eq =
          unfold candidate_of in ap (λ (a : Candidate F). a.instance_type) (sym eq)

  -- If the requirement is positive and some configured type meets it, a type is chosen.
  select_instance_type_total :
      (types : List (NodeTypeConfig F)) (required : NodeResources F) (e : NodeTypeConfig F)
      → invalid required ≡ false
      → Memᴰ e types
      → too_small e required ≡ false
      → (name : String) × (select_instance_type sort types required ≡ ok name)
  unfolding select_instance_type
  select_instance_type_total [] required e v m f = elim m [ ]
  select_instance_type_total (nt ∷ types) required e v m f =
      rw v (pick-total required sort S _ _ (mem-candidates required (nt ∷ types) e m f))

  -- A scale-up asks for the smallest configured type: where the memory of every entry is a number
  -- and the smallest resources are positive, the selection does not fail.
  select_instance_type-smallest :
      (nt : NodeTypeConfig F) (types : List (NodeTypeConfig F))
      → All HasMemory (nt ∷ types)
      → invalid (smallest_node_resources (nt ∷ types)) ≡ false
      → (name : String) × (select_instance_type sort
            (nt ∷ types)
            (smallest_node_resources (nt ∷ types))
          ≡ ok name)
  select_instance_type-smallest nt types n v =
      let (s, there, eq, _) = smallest_node_resources_least L nt types n in
      select_instance_type_total (nt ∷ types) _ s v there (rw eq (not_too_small s))
    where
      not_too_small : (s : NodeTypeConfig F) → too_small s (resources_of s) ≡ false
      not_too_small s = ground (arith, L.flt_irrefl s.memory_gb)
