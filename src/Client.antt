-- ===== src/Client.antt =====
-- The calls of pkg/client/agent.go that the other parts make, over a world `W` in which the agents
-- live. A call may change the world, on an error too.
pub mod Grpc
use serverless_flux.Base.{String, Bool, Option, List}
use serverless_flux.Base.Int.{ℤ}
use serverless_flux.Base.Result.{Result}
use serverless_flux.Models.{NodeStatus, Agent, Function, ExecutionRecord}
use serverless_flux.Memory.{Bytes}

-- `pb.ExecutionResponse` of proto/flux.proto
pub record ExecutionResponse : Type 0 where
  pub output : Bytes
  pub error : String
  pub duration_ms : ℤ

pub record AgentClient (F W : Type 0) : Type 0 where
  pub register_function : Agent F → Function → W → Result (Unit {0}) × W
  pub deploy_function : Agent F → String → Bytes → W → Result (Unit {0}) × W
  -- function, arguments, execution identifier, async
  pub execute_function :
      Agent F → String → List String → String → Bool → W → Result ExecutionResponse × W
  pub cancel_execution : Agent F → String → W → Result (Unit {0}) × W
  pub get_execution : Agent F → String → W → Result (Option ExecutionRecord) × W
  pub health_check : Agent F → W → Result (Unit {0}) × W
  pub get_node_status : Agent F → W → Result (NodeStatus F) × W
