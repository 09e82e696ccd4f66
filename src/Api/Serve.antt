-- ===== src/Api/Serve.antt =====
-- A whole request: `ServeHTTP` of pkg/api/handlers.go with the handlers that it calls, under
-- `withCORS` of main.go. The headers of a reply are not modelled.
pub mod Unauthenticated
use serverless_flux.Base.{ℕ, String, ◌<>◌, ◌==◌, Option, none, some, List, [], ◌∷◌, if◌then◌else◌}
use serverless_flux.Base.Int.{ℤ}
use serverless_flux.Base.Result.{Result}
use serverless_flux.Floats.{Floats}
use serverless_flux.Models.{ExecutionRecord}
use serverless_flux.Memory.{Memory, Bytes}
use serverless_flux.Client.{AgentClient}
use serverless_flux.Api.Reply.{Reply}
use serverless_flux.Api.Routing.{
  Endpoint, Routed, handled, unauthorized, not_found, health, agents, initialize, register_agent,
  register_function, deploy, get_execution, cancel_execution, async_execute, execute, cleanup_nodes,
  resources, authenticate, route,
}
use serverless_flux.Api.Listing.{
  AgentInfo, ResourcesResponse, Host, handle_get_agents, handle_resources,
}
use serverless_flux.Api.Agents.{
  RegisteredAgent, Registered, Initializer, handle_register_agent, handle_initialize,
  handle_cleanup_nodes,
}
use serverless_flux.Api.Functions.{
  FunctionYaml, Distribution, handle_register_function, handle_deploy,
}
use serverless_flux.Api.Execute.{Pause, ExecuteEnd, handle_execute, handle_async_execute}
use serverless_flux.Api.Executions.{handle_get_execution, handle_cancel_execution}

-- A request: its method, path and headers, its body as each handler reads it, and what its
-- handling meets: the time, a new UUID, and the pauses between the rounds of an execution.
pub record Request (W : Type 0) : Type 0 where
  pub method : String
  pub path : String
  pub api_key : String
  pub authorization : String
  pub args : Result (List String)
  pub address : Result String
  pub function_file : Result Bytes
  pub archive : Result Bytes
  pub now : ℕ
  pub uuid : String
  pub pauses : List (Pause W)

-- What is sent back: a bare status, or what the handler replies.
pub data Answer (F : Type 0) : Type 0 where
  preflight denied missing healthy panicked : Answer F
  agent_list : List (AgentInfo F) → Answer F
  initialized : Reply (ℤ × ℤ) → Answer F
  joined : Reply (RegisteredAgent F) → Answer F
  distributed : Reply Distribution → Answer F
  record_of : Reply ExecutionRecord → Answer F
  identified : Reply String → Answer F
  executed : ExecuteEnd → Answer F
  removed : Reply ℤ → Answer F
  resource_list : ResourcesResponse F → Answer F

-- What the server is put together from.
pub record Service (F W : Type 0) : Type 0 where
  pub memory : Memory F W
  pub client : AgentClient F W
  pub initializer : Option (Initializer W)
  pub host : Host F W
  pub key : String
  pub decode_yaml : Bytes → Result FunctionYaml
  pub rfc3339 : ℕ → String

-- The answer, the world, and the agents whose functions a goroutine will synchronise.
abbrev pub Served : Type 0 → Type 0 → Type 0
Served F W = Answer F × W × List String

module _ {F W : Type 0} where
  -- a handler that starts no goroutine
  abbrev pub quietly : {A : Type 0} → (A → Answer F) → A × W → Served F W
  quietly kind (a, w) = (kind a, w, [])

  abbrev pub joining : Registered F W → Served F W
  joining (r, w, syncs) = (joined r, w, syncs)

module _ {F W : Type 0} ⦃o : Floats F⦄ (S : Service F W) where
  -- the initializer is called without a test for nil
  abbrev pub clean_up : Option (Initializer W) → W → Served F W
  clean_up none w = (panicked, w, [])
  clean_up (some i) w = quietly removed (handle_cleanup_nodes S.memory i w)

  -- the handler of an endpoint
  unfoldable pub handle : Endpoint → Request W → W → Served F W
  handle health r w = (healthy, w, [])
  handle agents r w = (agent_list (handle_get_agents S.rfc3339 S.memory w), w, [])
  handle initialize r w = quietly initialized (handle_initialize S.initializer w)
  handle register_agent r w = joining (handle_register_agent S.memory S.client r.address r.now w)
  handle register_function r w =
      quietly distributed
        (handle_register_function S.memory S.client r.function_file S.decode_yaml w)
  handle (deploy name) r w = quietly distributed (handle_deploy S.memory S.client name r.archive w)
  handle (get_execution id) r w = quietly record_of (handle_get_execution S.memory S.client id w)
  handle (cancel_execution id) r w =
      quietly identified (handle_cancel_execution S.memory S.client id w)
  handle (async_execute name) r w =
      quietly identified (handle_async_execute S.memory S.client r.args name ("exc-" <> r.uuid) w)
  handle (execute name) r w =
      quietly executed (handle_execute S.memory S.client r.args name ("exc-" <> r.uuid) r.pauses w)
  handle cleanup_nodes r w = clean_up S.initializer w
  handle resources r w = (resource_list (handle_resources S.rfc3339 S.memory S.host r.now w), w, [])

  unfoldable pub dispatch : Routed → Request W → W → Served F W
  dispatch unauthorized r w = (denied, w, [])
  dispatch not_found r w = (missing, w, [])
  dispatch (handled e) r w = handle e r w

  unfoldable pub serve_http : Request W → W → Served F W
  serve_http r w =
      dispatch (route (authenticate S.key r.api_key r.authorization) r.path r.method) r w

  -- `withCORS(apiServer)`
  unfoldable pub serve : Request W → W → Served F W
  serve r w = if r.method == "OPTIONS" then (preflight, w, []) else serve_http r w
