-- ===== src/Tests/Racing.antt =====
-- The theorems on interleaved updates at a fleet of one agent.
use serverless_flux.Base.{ℕ, ◌≡◌, refl, some, List, [], ◌∷◌, ◌++◌}
use serverless_flux.Base.Dict
use serverless_flux.Base.Int.{pos}
use serverless_flux.Floats.{whole_floats}
use serverless_flux.Memory.{IsKeyed}
use serverless_flux.Memory.Redis.{redis_memory}
use serverless_flux.Models.{Agent}
use serverless_flux.Registry.{get_agent, with_metrics}
use serverless_flux.Registry.Draining.{
  metrics, heartbeat, drain, HealthEvent, save-IsKeyed, IsDraining,
}
use serverless_flux.Registry.Updates.{UpdateEvent, called, stepped, deregistered, reading, updated}
use serverless_flux.Registry.Updates.Races.{updated-IsDraining, updated-stale}
use serverless_flux.Tests.Server.{Server, server, codec, store, contents, store_laws}
use serverless_flux.Tests.Fleet.{leaving, idle}
use serverless_flux.Tests.Fleet as Fleet

abbrev fleet_of : Agent ℕ → Server
fleet_of a = (store.save_agent a []).1

empty-IsKeyed : IsKeyed contents []
unfolding Dict.get
empty-IsKeyed k a h = cc

leaving-IsKeyed : IsKeyed contents (fleet_of leaving)
leaving-IsKeyed = save-IsKeyed store contents store_laws leaving [] empty-IsKeyed

leaving-IsDraining : IsDraining store contents store_laws "a1" (fleet_of leaving)
unfolding server codec Dict.put redis_memory
leaving-IsDraining = (leaving, store_laws.save_agent_ok leaving [] refl, refl)

-- Two updates of the draining agent overlap, while another agent goes.
abbrev overlap : List (UpdateEvent ℕ)
overlap =
    stepped 0
    ∷ called (metrics "a1" (Fleet.metrics 5 1000 200))
    ∷ stepped 1
    ∷ deregistered "a2"
    ∷ stepped 0
    ∷ stepped 1
    ∷ []

updated-IsDraining_example :
    IsDraining store contents store_laws "a1"
      (updated store overlap (reading (heartbeat "a1" (pos 0) 200) ∷ []) (fleet_of leaving)).1
updated-IsDraining_example =
    updated-IsDraining store contents store_laws "a1" overlap
      (reading (heartbeat "a1" (pos 0) 200) ∷ []) (fleet_of leaving) leaving-IsKeyed
      leaving-IsDraining (tt, tt) (tt, (tt, (tt, (refl, (tt, (tt, tt))))))

-- A drain order is written between the read and the write of an update.
abbrev drained : List (UpdateEvent ℕ)
drained = called (drain "a1") ∷ stepped 1 ∷ stepped 1 ∷ []

abbrev report : HealthEvent ℕ
report = metrics "a1" (Fleet.metrics 50 1000 400)

updated-stale_example :
    contents.agents
      (updated store (called report ∷ stepped 0 ∷ (drained ++ stepped 0 ∷ [])) [] (fleet_of idle)).1
      "a1"
    ≡ some (with_metrics (Fleet.metrics 50 1000 400) idle)
unfolding server codec Dict.put Dict.get redis_memory get_agent
updated-stale_example =
    updated-stale store contents store_laws report idle
      (with_metrics (Fleet.metrics 50 1000 400) idle) drained (fleet_of idle) (λ c v. refl) refl
      refl (tt, (tt, (tt, tt)))
