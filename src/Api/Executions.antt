-- ===== src/Api/Executions.antt =====
-- Executions under way, of pkg/api/handlers.go: `handleCancelExecution` and `handleGetExecution`.
pub mod Cancelled
use serverless_flux.Base.{String, ◌<>◌, Option, none, some}
use serverless_flux.Base.Result.{Result, ok, err}
use serverless_flux.Models.{Agent, ExecutionRecord}
use serverless_flux.Memory.{Memory}
use serverless_flux.Client.{AgentClient}
use serverless_flux.Registry
use serverless_flux.Api.Reply.{Reply, fail, sent}

module _ {F W : Type 0} (M : Memory F W) (C : AgentClient F W) where
  -- The body of a cancelled execution is its identifier.
  cancelled : String → Result (Unit {0}) × W → Reply String × W
  cancelled id (err e, w) = (fail 500 ("failed to cancel execution: " <> e), w)
  cancelled id (ok _, w) = (sent 200 id, w)

  pub cancel_on : Option (Agent F) → String → W → Reply String × W
  unfolding cancelled
  cancel_on none id w = (fail 500 "agent not found", w)
  cancel_on (some a) id w = cancelled id (C.cancel_execution a id w)

  cancel_owned : Option String → String → W → Reply String × W
  unfolding cancel_on
  cancel_owned none id w = (fail 404 "execution not found", w)
  cancel_owned (some agent_id) id w = cancel_on (Registry.get_agent M agent_id w) id w

  unfoldable pub handle_cancel_execution : String → W → Reply String × W
  unfolding cancel_owned
  handle_cancel_execution id w = cancel_owned (Registry.get_execution_to_agent_map M id w) id w

  retrieved : Result (Option ExecutionRecord) × W → Reply ExecutionRecord × W
  retrieved (err e, w) = (fail 500 ("failed to retrieve execution: " <> e), w)
  retrieved (ok none, w) = (fail 404 "execution not found on agent", w)
  retrieved (ok (some r), w) = (sent 200 r, w)

  get_on : Option (Agent F) → String → W → Reply ExecutionRecord × W
  unfolding retrieved
  get_on none id w = (fail 500 "agent not found", w)
  get_on (some a) id w = retrieved (C.get_execution a id w)

  get_owned : Option String → String → W → Reply ExecutionRecord × W
  unfolding get_on
  get_owned none id w = (fail 404 "execution not found", w)
  get_owned (some agent_id) id w = get_on (Registry.get_agent M agent_id w) id w

  unfoldable pub handle_get_execution : String → W → Reply ExecutionRecord × W
  unfolding get_owned
  handle_get_execution id w = get_owned (Registry.get_execution_to_agent_map M id w) id w
