-- ===== src/Tests/Autoscaling.antt =====
-- The theorems on the autoscaler and its goroutines at concrete data.
use mathlib.Core.List.{Memᴰ}
use serverless_flux.Base.{
  ℕ, ◌+◌, arith, ◌≡◌, refl, ap, ◌⊎◌, ◌≢◌, Bool, true, false, some, List, [], ◌∷◌, All,
}
use mathlib.Core.Bool.{false≢true}
use serverless_flux.Base.Int.{seconds, time_sub}
use serverless_flux.Base.Select.{choose}
use serverless_flux.Floats.{whole_floats, whole_floats-FloatLaws}
use serverless_flux.Models.{pressure}
use serverless_flux.Client.{AgentClient}
use serverless_flux.Base.Dict
use serverless_flux.Base.Result.{ok}
use serverless_flux.Scaler.Pressure.{should_scale, record_sample}
use serverless_flux.Memory.Redis.{redis_memory}
use serverless_flux.Registry
use serverless_flux.Scaler.NodeTypes.{largest_instance_type}
use serverless_flux.Scaler.Autoscaler.{
  Autoscaler, cooling, managed_agents, try_scale_up, scale_down, check_and_trigger_scale, poll,
  poll_agents, poll_agent, spawn_node,
}
use serverless_flux.Scaler.Autoscaler.Limits.{IsRemoval, scale_down-IsRemoval}
use serverless_flux.Scaler.Autoscaler.Monitor.{
  Beat, stopped, ticked, grows, instants, Spaced, scale_ups-Spaced,
}
use serverless_flux.Scaler.Autoscaler.Monitor.Falls.{shrinks, scale_downs-Spaced}
use serverless_flux.Scaler.Autoscaler.Growth.{IsLaunch, IsReplacement, try_scale_up_cases}
use serverless_flux.Scaler.Autoscaler.Drain.{
  DrainEvent, tick, done, aborted, drained, timed_out, first_done, probe, ShowsNoTask, drain,
  run_drain_and_terminate, run_drain_and_terminate_cases,
}
use serverless_flux.Tests.Server.{Server, server, codec, agent_cell, store}
use serverless_flux.Tests.Fleet.{metrics, idle, config, client, provider}

abbrev is_nil : {A : Type 0} → List A → Bool
is_nil [] = true
is_nil (x ∷ xs) = false

abbrev fleet : Server
fleet = ("flux:agents:a1", agent_cell idle) ∷ []

abbrev scaler : Autoscaler ℕ
scaler = record { history = []; last_scale_up = 500; last_scale_down = 700 }

-- later than both cooldowns
abbrev late : ℕ
late = 400000000000

abbrev hot : AgentClient ℕ Server
hot = record client { get_node_status = λ a w. (ok (metrics 95 1000 200), w) }

-- Two rounds, an evaluation window apart.
abbrev rounds : List (Beat Server)
rounds =
    ticked (λ w. w) late late late late
    ∷ ticked (λ w. w) (late + 60000000000) (late + 60000000000) (late + 60000000000)
        (late + 60000000000)
    ∷ stopped
    ∷ []

rounds_grow :
    instants store hot provider (config 3 0) "50052" grows rounds scaler fleet
    ≡ (late + 60000000000) ∷ []
unfolding instants poll poll_agents poll_agent check_and_trigger_scale try_scale_up spawn_node
    managed_agents Registry.get_all_agents Registry.get_online_agents Registry.update_node_status
    server codec redis_memory seconds time_sub should_scale record_sample Dict.get Dict.put
rounds_grow = refl

scale_ups-Spaced_example :
    Spaced store hot provider
      (config 3 0)
      "50052"
      500
      (instants store hot provider (config 3 0) "50052" grows rounds scaler fleet)
scale_ups-Spaced_example =
    scale_ups-Spaced store hot provider (config 3 0) "50052" rounds late scaler fleet (omega arith)
      (omega arith)

abbrev cool : AgentClient ℕ Server
cool = record client { get_node_status = λ a w. (ok (metrics 5 1000 200), w) }

rounds_shrink :
    instants store cool provider (config 3 0) "50052" shrinks rounds scaler fleet
    ≡ (late + 60000000000) ∷ []
unfolding instants poll poll_agents poll_agent check_and_trigger_scale scale_down managed_agents
    Registry.get_all_agents Registry.get_online_agents Registry.update_node_status
    Registry.set_draining server codec redis_memory seconds time_sub should_scale record_sample
    Dict.get Dict.put choose
rounds_shrink = refl

scale_downs-Spaced_example :
    Spaced store cool provider
      (config 3 0)
      "50052"
      700
      (instants store cool provider (config 3 0) "50052" shrinks rounds scaler fleet)
scale_downs-Spaced_example =
    scale_downs-Spaced store cool provider (config 3 0) "50052" rounds late scaler fleet
      (omega arith) (omega arith)

fleet-pressures :
    All
      (λ a. whole_floats.feq (pressure a) (pressure a) ≡ true)
      (managed_agents store provider (config 3 0) "50052" fleet)
unfolding managed_agents Registry.get_all_agents server codec redis_memory pressure
fleet-pressures = (refl, tt)

fleet_shrinks : (scale_down store provider (config 3 0) "50052" scaler late late fleet).2 ≢ []
unfolding scale_down managed_agents Registry.get_all_agents server codec redis_memory seconds
    time_sub choose
fleet_shrinks e = false≢true (ap is_nil e)

scale_down-IsRemoval_example :
    IsRemoval store provider
      (config 3 0)
      "50052"
      scaler
      late
      late
      fleet
      (scale_down store provider (config 3 0) "50052" scaler late late fleet)
scale_down-IsRemoval_example =
    scale_down-IsRemoval store provider (config 3 0) "50052" scaler whole_floats-FloatLaws late late
      fleet fleet-pressures fleet_shrinks

fleet_grows : (try_scale_up store provider (config 1 0) "50052" scaler late late fleet).2 ≢ []
unfolding try_scale_up managed_agents Registry.get_all_agents server codec redis_memory seconds
    time_sub largest_instance_type
fleet_grows e = false≢true (ap is_nil e)

try_scale_up_cases_example :
    (cooling (config 1 0) late 500 ≡ false)
    × (IsLaunch store provider
          (config 1 0)
          "50052"
          scaler
          late
          fleet
          (try_scale_up store provider (config 1 0) "50052" scaler late late fleet)
        ⊎ IsReplacement store provider
            (config 1 0)
            "50052"
            scaler
            late
            fleet
            (try_scale_up store provider (config 1 0) "50052" scaler late late fleet))
try_scale_up_cases_example =
    try_scale_up_cases store provider (config 1 0) "50052" scaler late late fleet fleet_grows

abbrev stop : List (DrainEvent Server)
stop = tick ∷ done false ∷ []

run_drain_and_terminate_cases_example :
    let r = run_drain_and_terminate store client provider "a1" "10.0.0.1:50052" "i-1" stop fleet in
    let v = (drain client "10.0.0.1:50052" stop fleet).1 in
    let ended = (provider.terminate_node "i-1" (Registry.deregister_agent store "a1" v)).1 in
    ((r.0 ≡ aborted) × (r.1 ≡ v) × (first_done stop ≡ some true))
    ⊎ ((r.0 ≡ timed_out) × (r.1 ≡ ended) × (first_done stop ≡ some false))
    ⊎ ((r.0 ≡ drained)
        × (r.1 ≡ ended)
        × ((u : Server) × ShowsNoTask client
              (client.get_node_status (probe client "10.0.0.1:50052") u).0
            × (v ≡ (client.get_node_status (probe client "10.0.0.1:50052") u).1)))
run_drain_and_terminate_cases_example =
    run_drain_and_terminate_cases store client provider "a1" "10.0.0.1:50052" "i-1" false stop fleet
      (Memᴰ.tail (Memᴰ.head refl))
