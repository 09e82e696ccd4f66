-- ===== src/Tests/Running.antt =====
-- The theorems on running functions at concrete data.
use mathlib.Core.List.{Memᴰ}
use serverless_flux.Base.{◌≡◌, refl, true, false, some, List, [], ◌∷◌, String, ℕ}
use serverless_flux.Base.Dict
use serverless_flux.Base.Int.{pos}
use serverless_flux.Base.Result.{Result, ok}
use serverless_flux.Base.Select.{choose}
use serverless_flux.Floats.{whole_floats, whole_floats-FloatLaws}
use serverless_flux.Models.{online, Agent, available_score, can_fit}
use serverless_flux.Memory.Redis.{redis_memory}
use serverless_flux.Registry
use serverless_flux.Api.Reply.{sent}
use serverless_flux.Api.Execute.{
  ExecuteResponse, Pause, cancelled, elapsed, reply, attempt, pick_agent, execute_loop,
  handle_async_execute,
}
use serverless_flux.Api.Execute.Runs.{pick_agent_best, IsRun, execute_loop-IsRun}
use serverless_flux.Api.Execute.Submission.{IsAccepted, handle_async_execute-IsAccepted}
use serverless_flux.Tests.Server.{Server, server, codec, store}
use serverless_flux.Tests.Fleet.{agent, idle, metrics, function, client}

abbrev busy_agent : Agent ℕ
busy_agent = agent "a2" online (metrics 60 1000 200)

abbrev agents : List (Agent ℕ)
agents = busy_agent ∷ idle ∷ []

agents-picked : pick_agent (function 100 512) agents ≡ some idle
unfolding pick_agent available_score can_fit choose
agents-picked = refl

pick_agent_best_example :
    Memᴰ idle agents
    × (can_fit idle (function 100 512) ≡ true)
    × ((x : Agent ℕ)
        → Memᴰ x agents
        → can_fit x (function 100 512) ≡ true
        → whole_floats.flt (available_score idle) (available_score x) ≡ false)
pick_agent_best_example =
    pick_agent_best whole_floats-FloatLaws (function 100 512) agents idle
      (unfold available_score in (refl, (refl, tt))) agents-picked

-- a server with one agent and one function
fleet : Server
fleet = Registry.register_function store (function 100 512) ((store.save_agent idle []).1)

response : ExecuteResponse
response = record {
  status = "success";
  output = "done";
  error = "";
  duration_ms = pos 7;
  agent_id = "a1";
  execution_id = "exc-1";
}

execute_run :
    execute_loop store client (function 100 512) "resize" [] "exc-1" [] fleet
    ≡ (reply (sent 200 response), fleet)
unfolding execute_loop attempt fleet response Registry.get_available_agents
    Registry.register_function server codec redis_memory pick_agent available_score can_fit choose
    Dict.get Dict.put
execute_run = refl

execute_loop-IsRun_example :
    IsRun store client (function 100 512) "resize" [] "exc-1" 200 response fleet
execute_loop-IsRun_example =
    execute_loop-IsRun store client (function 100 512) "resize" [] "exc-1" [] fleet 200 response
      fleet execute_run

abbrev pauses : List (Pause Server)
pauses = elapsed (λ w. w) ∷ cancelled ∷ []

after : Server
after = Registry.save_execution_to_agent_map store "exc-1" "a1" fleet

async_run :
    handle_async_execute store client (ok []) "resize" "exc-1" fleet ≡ (sent 202 "exc-1", after)
unfolding handle_async_execute after fleet Registry.get_function Registry.get_available_agents
    Registry.register_function server codec redis_memory pick_agent available_score can_fit choose
    Dict.get Dict.put
async_run = refl

handle_async_execute-IsAccepted_example :
    (args : List String) × (Path (Result (List String)) (ok []) (ok args))
    × IsAccepted store client "resize" args "exc-1" fleet 202 "exc-1" after
handle_async_execute-IsAccepted_example =
    handle_async_execute-IsAccepted store client (ok []) "resize" "exc-1" fleet 202 "exc-1" after
      async_run
