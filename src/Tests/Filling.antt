-- ===== src/Tests/Filling.antt =====
-- The theorems on the providers manager at a fleet of one provider with a minimum of one node.
use mathlib.Core.List.{Memᴰ}
use serverless_flux.Base.{
  mem-cons_cases, inl, inr, ◌==◌, false, ℕ, ◌≤◌, ◌<◌, ◌^◌, suc, zero, ◌≡◌, ◌≢◌, refl, some, none,
  List, [], ◌∷◌, length, arith,
}
use serverless_flux.Base.Int.{pos}
use serverless_flux.Base.Jobs.{poke}
use serverless_flux.Floats.{whole_floats}
use serverless_flux.Base.Result.{err}
use serverless_flux.Models.{Agent}
use serverless_flux.Memory.{Memory}
use serverless_flux.Memory.Redis.{redis_memory}
use serverless_flux.Registry
use serverless_flux.Scaler.Manager.{
  ProviderEntry, Fill, Event, loop, run, launch, launches_for, fill_events, initialized, removals,
  empty_events,
}
use serverless_flux.Scaler.Manager.Filling.{wanted, initialized_bounds}
use serverless_flux.Scaler.Manager.Progress.{runs, initialized-returns}
use serverless_flux.Scaler.Manager.Emptying.{empty_events-keeps}
use serverless_flux.Tests.Server.{Server, agent_cell, server, store, contents, store_laws}
use serverless_flux.Tests.Fleet.{idle, leaving, small, provider}

abbrev entry : ProviderEntry ℕ Server
entry = record { provider = provider; min_nodes = pos 1; node_types = small ∷ [] }

abbrev schedule : List (Event Server)
schedule = run 0 ∷ run 0 ∷ run 0 ∷ []

abbrev empty : Fill ℕ Server
empty = record { entries = entry ∷ []; launches = [] }

-- A store that does not list its agents.
abbrev unlisted : Memory ℕ Server
unlisted = record store { get_all_agents = λ w. err "timeout" }

filled_ok :
    initialized (fill_events unlisted "50052" (λ w. 0) (loop ∷ schedule) empty []).0
    ≡ some (pos 1, pos 1)
unfolding poke initialized fill_events launch launches_for Registry.get_all_agents
    Registry.register_offline_agent redis_memory server
filled_ok = refl

few : (w : Server) → length (Registry.get_all_agents unlisted w) < 2 ^ 63
unfolding Registry.get_all_agents
few w = omega arith

initialized_bounds_example :
    (n : ℕ) × (k : ℕ) × (pos 1 ≡ pos n) × (pos 1 ≡ pos k) × (n ≤ k) × (k ≤ wanted (entry ∷ []))
initialized_bounds_example =
    initialized_bounds unlisted "50052" (λ w. 0) few (loop ∷ schedule) (entry ∷ []) [] (pos 1)
      (pos 1) (omega arith) (omega arith) filled_ok

abbrev started : (Fill ℕ Server) × Server
started = fill_events store "50052" (λ w. 0) (loop ∷ []) empty []

one_launch : length started.0.launches ≡ 1
unfolding fill_events launches_for Registry.get_all_agents redis_memory server
one_launch = refl

three_runs : (i : ℕ) → i < 1 → 3 ≤ runs i schedule
three_runs zero h = omega arith
three_runs (suc i) h = absurd (omega arith)

initialized-returns_example :
    initialized (fill_events store "50052" (λ w. 0) schedule started.0 started.1).0 ≢ none
initialized-returns_example =
    initialized-returns store "50052" (λ w. 0) (loop ∷ []) schedule (entry ∷ []) [] (omega arith)
      (λ i h. three_runs i (rw one_launch at h))

-- an agent of the provider, and one of which the listing did not tell
abbrev fleet : Server
fleet = ("flux:agents:a1", agent_cell idle) ∷ ("flux:agents:b1", agent_cell leaving) ∷ []

idle-other : (a : Agent ℕ) → Memᴰ a (idle ∷ []) → (a.id == "b1") ≡ false
idle-other a m = elim (mem-cons_cases m) [ inl p ↦ rw p refl | inr n ↦ elim n [ ] ]

empty_events-keeps_example :
    contents.agents
      (empty_events store (run 0 ∷ run 0 ∷ []) (removals store (entry ∷ []) (idle ∷ [])) fleet).1
      "b1"
    ≡ contents.agents fleet "b1"
empty_events-keeps_example =
    empty_events-keeps store contents store_laws "b1" (run 0 ∷ run 0 ∷ []) (entry ∷ []) (idle ∷ [])
      fleet (tt, (tt, tt)) (λ id w. refl, tt) (λ a e m n h. idle-other a m)
