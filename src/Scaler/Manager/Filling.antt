-- ===== src/Scaler/Manager/Filling.antt =====
-- `InitializeNodes` of pkg/resource/providers_manager.go under every schedule of its goroutines.
use serverless_flux.Base.{
  ℕ, ◌+◌, ◌^◌, ◌<◌, ◌≤◌, All, sym, ◌∙◌, String, ◌≡◌, Option, some, List, [], ◌∷◌, length, keep,
  length-replicate, length-append, length-keep, arith, inl, inr, Bool-cases,
}
use serverless_flux.Base.Int.{ℤ, pos, negsuc, int_leb, sub64, count32}
use serverless_flux.Base.Jobs.{length-poke}
use serverless_flux.Floats.{Floats}
use serverless_flux.Scaler.NodeTypes.{smallest_node_resources}
use serverless_flux.Memory.{Memory}
use serverless_flux.Registry
use serverless_flux.Scaler.Manager.{
  ProviderEntry, spawning, Fill, Event, loop, run, other, rounds, is_empty, launch, launches_for,
  fill_event, fill_events, start_next, is_launched, has_succeeded, all_of, initialized,
}

-- The minimums of the entries together.
abbrev pub wanted : {F W : Type 0} → List (ProviderEntry F W) → ℕ
wanted [] = 0
wanted (e ∷ entries) = rounds e.min_nodes + wanted entries

-- A minimum that is not negative.
abbrev pub IsCount : ℤ → Type 0
IsCount (pos n) = n < 2 ^ 63
IsCount (negsuc n) = ⊥

need-le : (m : ℤ) (k : ℕ) → IsCount m → k < 2 ^ 63 → rounds (sub64 m (pos k)) ≤ rounds m
unfolding sub64
need-le (pos n) k h j = ground arith
need-le (negsuc n) k h j = elim h [ ]

count32_lem : (n : ℕ) → n < 2 ^ 31 → count32 n ≡ pos n
count32_lem n h = ground arith

module _ {F W : Type 0} ⦃o : Floats F⦄ (M : Memory F W) (port : String) (clock : W → ℕ)
    (few : (w : W) → length (Registry.get_all_agents M w) < 2 ^ 63) where
  -- the goroutines that were started, and those that the entries may still ask for
  abbrev committed : Fill F W → ℕ
  committed f = length f.launches + wanted f.entries

  length-launches_for :
      (e : ProviderEntry F W) (w : W)
      → IsCount e.min_nodes
      → length (launches_for M port clock e w) ≤ rounds e.min_nodes
  unfolding launches_for
  length-launches_for e w m =
      elim (Bool-cases
        (int_leb (sub64 e.min_nodes (pos (length (Registry.get_all_agents M w)))) (pos 0))) [
          | inl a ↦ rw a (omega arith)
          | inr a ↦ rw a (elim (Bool-cases (is_empty e.node_types)) [
            | inl b ↦ rw b (omega arith)
            | inr b ↦ rw b (
                omega (
                  arith,
                  length-replicate {0}
                      (rounds (sub64 e.min_nodes (pos (length (Registry.get_all_agents M w)))))
                      (spawning e.provider (smallest_node_resources e.node_types)),
                  need-le e.min_nodes (length (Registry.get_all_agents M w)) m (few w),
                ))
          ])
        ]

  event-committed :
      (e : Event W) (f : Fill F W) (w : W)
      → All (λ e. IsCount e.min_nodes) f.entries
      → (committed (fill_event M port clock e f w).0 ≤ committed f)
        × All (λ e. IsCount e.min_nodes) (fill_event M port clock e f w).0.entries
  unfolding fill_event
  event-committed loop f w m = next f.entries m
    where
      next :
          (entries : List (ProviderEntry F W))
          → All (λ e. IsCount e.min_nodes) entries
          → (committed (start_next M port clock entries f.launches w)
              ≤ length f.launches + wanted entries)
            × All (λ e. IsCount e.min_nodes) (start_next M port clock entries f.launches w).entries
      next [] k = unfold start_next in (omega arith, tt)
      next (e ∷ entries) (h, k) =
          unfold start_next in
          (
            omega (
              arith,
              length-append {0} f.launches (launches_for M port clock e w),
              length-launches_for e w h,
            ),
            k,
          )
  event-committed (run i) f w m =
      (omega (arith, length-poke (launch M port clock) i f.launches w), m)
  event-committed (other step) f w m = (omega arith, m)

  events-committed :
      (es : List (Event W)) (f : Fill F W) (w : W)
      → All (λ e. IsCount e.min_nodes) f.entries
      → committed (fill_events M port clock es f w).0 ≤ committed f
  unfolding fill_events
  events-committed [] f w m = omega arith
  events-committed (e ∷ es) f w m =
      let (f', w') = fill_event M port clock e f w in
      let (le, k) = event-committed e f w m in omega (arith, events-committed es f' w' k, le)

  -- Where the minimums are not negative and add up to less than 2^31, and the agents are fewer than
  -- 2^63: under every schedule the numbers that `InitializeNodes` returns are in order, no more
  -- nodes succeed than are attempted, and no more are attempted than the minimums of the entries add
  -- up to.
  pub initialized_bounds :
      (es : List (Event W)) (entries : List (ProviderEntry F W)) (w : W) (s t : ℤ)
      → All (λ e. IsCount e.min_nodes) entries
      → wanted entries < 2 ^ 31
      → initialized (fill_events M port clock es (record { entries = entries; launches = [] }) w).0
        ≡ some (s, t)
      → (n : ℕ) × (k : ℕ) × (s ≡ pos n) × (t ≡ pos k) × (n ≤ k) × (k ≤ wanted entries)
  initialized_bounds es entries w s t m small h =
      returned (fill_events M port clock es (record { entries = entries; launches = [] }) w).0
        (events-committed es (record { entries = entries; launches = [] }) w m) h
    where
      returned :
          (f : Fill F W)
          → committed f ≤ committed (record { entries = entries; launches = [] })
          → initialized f ≡ some (s, t)
          → (n : ℕ) × (k : ℕ) × (s ≡ pos n) × (t ≡ pos k) × (n ≤ k) × (k ≤ wanted entries)
      returned f c k = elim (Bool-cases (is_empty f.entries)) [
        | inr e ↦ unfold initialized in cc
        | inl e ↦ elim (Bool-cases (all_of is_launched f.launches)) [
          | inr a ↦ unfold initialized in cc
          | inl a ↦
              let good = length (keep has_succeeded f.launches) in
              let p : Path (Option (ℤ × ℤ)) (some (count32 good, count32 (length f.launches)))
                  (some (s, t)) =
                unfold initialized in (rw (e, a) at k) in
              let q : count32 good ≡ s = cc in
              let r : count32 (length f.launches) ≡ t = cc in
              let le = length-keep has_succeeded f.launches in
              (
                good,
                length f.launches,
                sym q ∙ count32_lem good (omega arith),
                sym r ∙ count32_lem (length f.launches) (omega arith),
                omega arith,
                omega arith,
              )
        ]
      ]
