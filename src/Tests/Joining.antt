-- ===== src/Tests/Joining.antt =====
-- The theorems on requests and on the registration of agents at concrete data.
use serverless_flux.Base.{ℕ, ◌≡◌, refl, true, false, Option, none, some, [], ◌∷◌, ◌==◌}
use serverless_flux.Base.Result.{ok, err}
use serverless_flux.Models.{Agent}
use serverless_flux.Memory.{Memory}
use serverless_flux.Client.{AgentClient}
use serverless_flux.Registry
use serverless_flux.Api.Reply.{sent}
use serverless_flux.Api.Agents.{RegisteredAgent, handle_register_agent}
use serverless_flux.Api.Agents.Registration.{
  joined_agent, IsRegistered, handle_register_agent-IsRegistered,
}
use serverless_flux.Api.Routing.{handled, unauthorized, async_execute, execute, authenticate, route}
use serverless_flux.Tests.Fleet.{metrics}

route_tests :
    (route true "/execute/resize/async" "POST" ≡ handled (async_execute "resize"))
    × (route true "/execute/resize" "POST" ≡ handled (execute "resize"))
    × (route false "/nodes" "DELETE" ≡ unauthorized)
    × (authenticate "k" "" "Bearer k" ≡ true)
unfolding route authenticate
route_tests = (refl, refl, refl, refl)

abbrev body : RegisteredAgent ℕ
body = record { id = "a1"; address = "10.0.0.1:50052"; node = metrics 5 1000 200 }

-- A store of one agent.
abbrev slot : Memory ℕ (Option (Agent ℕ))
slot = record {
  save_function = λ f w. (ok tt, w);
  get_function = λ name w. ok none;
  get_all_functions = λ w. ok [];
  save_code_archive = λ name b w. (ok tt, w);
  get_code_archive = λ name w. ok none;
  save_agent = λ a w. (ok tt, some a);
  get_agent = λ id w. ok w;
  get_all_agents = λ w. ok [];
  delete_agent = λ id w. (ok tt, none);
  save_execution_to_agent_map = λ id agent w. (ok tt, w);
  get_execution_to_agent_map = λ id w. ok "";
  flush = λ w. (ok tt, none);
}

abbrev reporting : AgentClient ℕ (Option (Agent ℕ))
reporting = record {
  register_function = λ a fn w. (ok tt, w);
  deploy_function = λ a name code w. (ok tt, w);
  execute_function = λ a name args id async w. (err "no", w);
  cancel_execution = λ a id w. (ok tt, w);
  get_execution = λ a id w. (ok none, w);
  health_check = λ a w. (ok tt, w);
  get_node_status = λ a w. (ok (metrics 5 1000 200), w);
}

joined : Option (Agent ℕ)
joined = some (joined_agent "10.0.0.1:50052" (metrics 5 1000 200))

register_run :
    handle_register_agent slot reporting (ok "10.0.0.1:50052") 9 none
    ≡ (sent 201 body, joined, "a1" ∷ [])
unfolding handle_register_agent joined Registry.get_agent Registry.register_agent
    Registry.update_node_status
register_run = refl

handle_register_agent-IsRegistered_example :
    (("10.0.0.1:50052" == "") ≡ false)
    × IsRegistered slot reporting (λ a v. refl) "10.0.0.1:50052" 9 none 201 body joined ("a1" ∷ [])
handle_register_agent-IsRegistered_example =
    handle_register_agent-IsRegistered slot reporting (λ a v. refl) "10.0.0.1:50052" 9 none 201 body
      joined ("a1" ∷ []) register_run
