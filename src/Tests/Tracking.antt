-- ===== src/Tests/Tracking.antt =====
-- The theorem on cancelled executions, on a server on which entries expire, with one agent.
use serverless_flux.Base.{ℕ, String, ◌≡◌, refl, none, List, [], ◌∷◌, arith}
use serverless_flux.Base.Dict
use serverless_flux.Base.Int.{pos}
use serverless_flux.Base.Result.{ok}
use serverless_flux.Base.Select.{choose}
use serverless_flux.Floats.{whole_floats}
use serverless_flux.Models.{available_score, can_fit}
use serverless_flux.Memory.{Memory}
use serverless_flux.Memory.Redis.{redis_memory}
use serverless_flux.Memory.Redis.Expiry.{
  StoreEvent, agent_saved, execution_saved, passed, happen, happen_all,
}
use serverless_flux.Client.{AgentClient}
use serverless_flux.Registry
use serverless_flux.Api.Reply.{sent}
use serverless_flux.Api.Execute.{pick_agent, handle_async_execute}
use serverless_flux.Api.Execute.Submission.{IsAccepted}
use serverless_flux.Api.Executions.Cancelled.{CancelsAt, cancel-async}
use serverless_flux.Tests.Server.{codec, codec_laws}
use serverless_flux.Tests.Expiring.{
  Timed, timed_server, timed_laws, timed_expiry, entry, left, pass, start,
}
use serverless_flux.Tests.Fleet.{idle, metrics, function}

abbrev store : Memory ℕ Timed
store = redis_memory timed_server codec

abbrev client : AgentClient ℕ Timed
client = record {
  register_function = λ a fn w. (ok tt, w);
  deploy_function = λ a name archive w. (ok tt, w);
  execute_function =
      λ a name args id async w. (ok (record { output = ""; error = ""; duration_ms = pos 0 }), w);
  cancel_execution = λ a id w. (ok tt, w);
  get_execution = λ a id w. (ok none, w);
  health_check = λ a w. (ok tt, w);
  get_node_status = λ a w. (ok (metrics 5 1000 200), w);
}

ready : Timed
ready = Registry.register_function store (function 100 512) ((store.save_agent idle start).1)

submitted : Timed
submitted = Registry.save_execution_to_agent_map store "exc-1" "a1" ready

abbrev meanwhile : List (StoreEvent ℕ)
meanwhile = passed 3600000000000 ∷ execution_saved "exc-2" "a2" ∷ agent_saved idle ∷ []

submits :
    handle_async_execute store client (ok []) "resize" "exc-1" ready ≡ (sent 202 "exc-1", submitted)
unfolding handle_async_execute ready submitted Registry.get_available_agents Registry.get_function
    Registry.register_function Registry.save_execution_to_agent_map codec redis_memory pick_agent
    available_score can_fit choose Dict.get Dict.put
submits = refl

cancel-async_example :
    (args : List String) × (accepted : IsAccepted store client "resize" args "exc-1" ready 202
      "exc-1" submitted)
    × CancelsAt store client "exc-1" accepted.agent.id (happen_all store pass meanwhile submitted)
unfolding ready submitted Registry.get_all_agents Registry.register_function
    Registry.save_execution_to_agent_map codec redis_memory happen_all happen Dict.get Dict.put
cancel-async_example =
    cancel-async timed_server codec client entry left pass timed_laws timed_expiry codec_laws
      (ok []) "resize" "exc-1" ready 202 "exc-1" submitted meanwhile "a1" submits (λ a v. refl)
      (refl, tt) (tt, (refl, (tt, tt))) (omega arith) refl
