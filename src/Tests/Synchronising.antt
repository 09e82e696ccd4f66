-- ===== src/Tests/Synchronising.antt =====
-- The theorem on what a recovered agent is sent, over a store that has one agent and two functions,
-- of which one has code. The world is the list of the calls.
use serverless_flux.Base.{ℕ, refl, ◌==◌, true, none, some, List, [], ◌∷◌, ◌++◌, if◌then◌else◌}
use serverless_flux.Base.Result.{ok, err}
use serverless_flux.Memory.{Memory}
use serverless_flux.Client.{AgentClient}
use serverless_flux.Client.Grpc.{config_of}
use serverless_flux.Registry
use serverless_flux.Api.Functions.{sync_functions_to_agent}
use serverless_flux.Api.Functions.Synchronised.{
  Call, registering, deploying, CallLaws, IsSynchronised, sync_functions_to_agent-IsSynchronised,
}
use serverless_flux.Tests.Fleet.{idle, function}

abbrev Calls : Type 0
Calls = List Call

abbrev shelf : Memory ℕ Calls
shelf = record {
  save_function = λ f w. (ok tt, w);
  get_function = λ name w. ok none;
  get_all_functions = λ w. ok (function 100 512 ∷ record (function 0 64) { name = "bare" } ∷ []);
  save_code_archive = λ name b w. (ok tt, w);
  get_code_archive = λ name w. ok (if name == "bare" then none else some "zip");
  save_agent = λ a w. (ok tt, w);
  get_agent = λ id w. ok (some idle);
  get_all_agents = λ w. ok (idle ∷ []);
  delete_agent = λ id w. (ok tt, w);
  save_execution_to_agent_map = λ id agent w. (ok tt, w);
  get_execution_to_agent_map = λ id w. ok "";
  flush = λ w. (ok tt, w);
}

abbrev noting : AgentClient ℕ Calls
noting = record {
  register_function = λ a fn w. (ok tt, w ++ (registering a.address (config_of fn) true ∷ []));
  deploy_function = λ a name code w. (ok tt, w ++ (deploying a.address name code ∷ []));
  execute_function = λ a name args id async w. (err "no", w);
  cancel_execution = λ a id w. (ok tt, w);
  get_execution = λ a id w. (ok none, w);
  health_check = λ a w. (ok tt, w);
  get_node_status = λ a w. (err "no", w);
}

noting-CallLaws : CallLaws shelf noting (λ w. w) (λ w address. Unit {0})
unfolding Registry.get_code_archive
noting-CallLaws = record {
  register_calls = λ a fn w y. refl;
  deploy_calls = λ a name code w y. refl;
  register_reaches = λ a fn w y. y;
  deploy_reaches = λ a name code w y. y;
  register_archive = λ a fn w name. refl;
  deploy_archive = λ a of code w name. refl;
}

sync_functions_to_agent-IsSynchronised_example :
    IsSynchronised shelf (λ w. w) "a1" [] (sync_functions_to_agent shelf noting "a1" [])
sync_functions_to_agent-IsSynchronised_example =
    sync_functions_to_agent-IsSynchronised shelf noting (λ w. w) (λ w address. Unit {0})
      noting-CallLaws "a1" [] (λ a e. tt)
