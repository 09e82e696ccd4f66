-- ===== src/Tests/Deploying.antt =====
-- The theorems on registering and deploying functions at concrete data.
use serverless_flux.Base.{◌≡◌, refl, inl, inr, [], ◌∷◌, String}
use serverless_flux.Base.Dict
use serverless_flux.Base.Int.{pos}
use serverless_flux.Base.Result.{Result, ok}
use serverless_flux.Memory.{Bytes}
use serverless_flux.Memory.Redis.{redis_memory}
use serverless_flux.Registry
use serverless_flux.Api.Reply.{fail, sent}
use serverless_flux.Api.Functions.{
  FunctionYaml, Distribution, function_of, validate, distribute, handle_register_function,
  handle_deploy,
}
use serverless_flux.Api.Functions.Counts.{IsCounted, handle_register_function-IsCounted}
use serverless_flux.Api.Functions.Rejection.{handle_register_function-refused}
use serverless_flux.Tests.Server.{Server, server, codec, store, agent_cell, function_cell}
use serverless_flux.Tests.Fleet.{idle, function, client}

-- a file with the given behaviour at full concurrency, and no other
abbrev file : String → FunctionYaml
file behavior = record {
  name = "resize";
  handler = "main";
  resources = record { cpu = pos 100; memory = pos 512 };
  timeout = pos 30;
  max_concurrency = pos 0;
  max_concurrency_behavior = behavior;
  resource_pressure_behavior = "";
  env = [];
}

abbrev decode : String → Bytes → Result FunctionYaml
decode behavior text = ok (file behavior)

abbrev fleet : Server
fleet = ("flux:agents:a1", agent_cell idle) ∷ []

abbrev ready : Server
ready =
    ("flux:agents:a1", agent_cell idle)
    ∷ ("flux:functions:resize", function_cell (function 100 512))
    ∷ []

abbrev one : Distribution
one = record {
  count = 1;
  total_agents = 1;
  agents = record { agent_id = "a1"; status = "success"; message = "" } ∷ [];
}

file-function : validate (file "wait") ≡ inr (function_of (file "wait"))
unfolding validate
file-function = refl

registered : Server
registered = Registry.register_function store (function_of (file "wait")) fleet

register_run :
    handle_register_function store client (ok "name: resize") (decode "wait") fleet
    ≡ (sent 201 one, registered)
unfolding handle_register_function registered validate distribute Registry.register_function
    Registry.get_all_agents server codec redis_memory Dict.put
register_run = refl

handle_register_function-IsCounted_example : IsCounted 201 one
handle_register_function-IsCounted_example =
    handle_register_function-IsCounted store client (ok "name: resize") (decode "wait") fleet 201
      one registered register_run

wrong_run :
    handle_register_function store client (ok "name: resize") (decode "retry") fleet
    ≡ (fail 400 "max_concurrency_behavior must be 'wait' or 'exit'", fleet)
unfolding handle_register_function validate
wrong_run = refl

handle_register_function-refused_example : fleet ≡ fleet
handle_register_function-refused_example =
    handle_register_function-refused store client (ok "name: resize") (decode "retry") fleet 400
      "max_concurrency_behavior must be 'wait' or 'exit'" fleet (inl refl) wrong_run

deployed : Server
deployed = Registry.save_code_archive store "resize" "zip" ready

deploy_run : handle_deploy store client "resize" (ok "zip") ready ≡ (sent 201 one, deployed)
unfolding handle_deploy deployed distribute Registry.get_function Registry.save_code_archive
    Registry.get_available_agents server codec redis_memory Dict.get Dict.put
deploy_run = refl

unknown_run :
    handle_deploy store client "crop" (ok "zip") ready ≡ (fail 404 "function not registered", ready)
unfolding handle_deploy Registry.get_function server codec redis_memory Dict.get
unknown_run = refl
