-- ===== src/Tests/Store.antt =====
-- The theorems on models, store, registry and cleanup at concrete data.
use serverless_flux.Base.{ℕ, ◌≡◌, refl, true, false, List, [], ◌∷◌, arith}
use serverless_flux.Base.Dict
use serverless_flux.Base.Int.{pos}
use serverless_flux.Base.Result.{ok}
use serverless_flux.Floats.{whole_floats}
use serverless_flux.Models.{online, can_fit}
use serverless_flux.Models.Fit.{can_fit_wraps}
use serverless_flux.Memory.{AgentLaws, IsKeyed}
use serverless_flux.Memory.Redis.{redis_memory}
use serverless_flux.Memory.Redis.Laws.{redis_memory-AgentLaws}
use serverless_flux.Registry.Draining.{
  HealthEvent, unreachable, heartbeat, drain, handle_all, IsDraining, save-IsKeyed,
  handle_all-IsDraining,
}
use serverless_flux.Registry.Draining
use serverless_flux.Api.Agents.{Initializer, handle_cleanup_nodes}
use serverless_flux.Api.Agents.Cleanup.{KnowsNothing, handle_cleanup_nodes-KnowsNothing}
use serverless_flux.Tests.Server.{
  Server, server, codec, entry, server_laws, codec_laws, store, contents, store_laws,
}
use serverless_flux.Tests.Fleet.{metrics, agent, leaving, idle, function}

can_fit_wraps_example : can_fit (agent "a1" online (metrics 5 1000 1001)) (function 0 512) ≡ true
can_fit_wraps_example =
    can_fit_wraps (agent "a1" online (metrics 5 1000 1001)) (function 0 512) (metrics 5 1000 1001)
      512 refl (omega arith) (omega arith) refl (omega arith) refl

can_fit_tests :
    (can_fit idle (function 100 801) ≡ false)
    × (can_fit (agent "a1" online (metrics 90 1000 200)) (function 100 1) ≡ false)
unfolding can_fit
can_fit_tests = (refl, refl)

redis_memory-AgentLaws_example : AgentLaws store contents
redis_memory-AgentLaws_example = redis_memory-AgentLaws server codec entry server_laws codec_laws

empty : Server
empty = []

empty-IsKeyed : IsKeyed contents empty
unfolding empty Dict.get
empty-IsKeyed k a h = cc

fleet : Server
fleet = (store.save_agent leaving empty).1

fleet-IsKeyed : IsKeyed contents fleet
unfolding fleet
fleet-IsKeyed = save-IsKeyed store contents store_laws leaving empty empty-IsKeyed

fleet-IsDraining : Draining.IsDraining store contents store_laws "a1" fleet
unfolding fleet empty server codec Dict.put redis_memory
fleet-IsDraining = (leaving, store_laws.save_agent_ok leaving empty refl, refl)

abbrev events : List (HealthEvent ℕ)
events = unreachable "a1" ∷ heartbeat "a1" (pos 0) 200 ∷ drain "a2" ∷ []

handle_all-IsDraining_example :
    Draining.IsDraining store contents store_laws "a1" (handle_all store events fleet)
handle_all-IsDraining_example =
    handle_all-IsDraining store contents store_laws "a1" events fleet fleet-IsKeyed fleet-IsDraining

abbrev stopping : Initializer Server
stopping = record { initialize_nodes = λ w. ((pos 0, pos 0), w); terminate_nodes = λ w. (pos 1, w) }

flush_ok : ((redis_memory server codec).flush (stopping.terminate_nodes fleet).1).0 ≡ ok tt
unfolding fleet empty server codec Dict.put redis_memory
flush_ok = refl

handle_cleanup_nodes-KnowsNothing_example :
    KnowsNothing
      (redis_memory server codec)
      (handle_cleanup_nodes (redis_memory server codec) stopping fleet).1
handle_cleanup_nodes-KnowsNothing_example =
    handle_cleanup_nodes-KnowsNothing server codec entry server_laws stopping fleet flush_ok
