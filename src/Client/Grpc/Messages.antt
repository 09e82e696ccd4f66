-- ===== src/Client/Grpc/Messages.antt =====
-- The messages of proto/flux.proto, and what pkg/client/agent.go takes from packages.
use serverless_flux.Base.{ℕ, String, Bool, Option, List}
use serverless_flux.Base.Int.{ℤ}
use serverless_flux.Base.Result.{Result}
use serverless_flux.Base.Action.{Action}
use serverless_flux.Models.{ExecutionRecord}
use serverless_flux.Memory.{Bytes}
use serverless_flux.Client.{ExecutionResponse}

pub record FunctionConfig : Type 0 where
  pub name : String
  pub handler : String
  pub cpu_millicores : ℤ
  pub memory_mb : ℤ
  pub timeout_seconds : ℤ
  pub env : List (String × String)
  pub max_concurrency : ℤ
  pub max_concurrency_behavior : String

-- `FunctionAck`, `DeploymentAck` and `CancelExecutionResponse`
pub record Ack : Type 0 where
  pub success : Bool
  pub message : String

pub record ExecutionRequest : Type 0 where
  pub function_name : String
  pub args : List String
  pub execution_id : String
  pub async : Bool

pub record GetExecutionResponse : Type 0 where
  pub found : Bool
  pub body : Bytes

pub record NodeStatusResponse (F : Type 0) : Type 0 where
  pub agent_id : String
  pub cpu_percent : F
  pub memory_percent : F
  pub memory_total_mb : ℕ
  pub memory_used_mb : ℕ
  pub active_tasks : ℤ
  pub max_tasks : ℤ
  pub uptime_seconds : ℤ

-- What the client takes from packages: `crypto/tls` and `crypto/x509` on the files of the PKI, the
-- generated client of gRPC, the JSON decoder and the clock. A call's number is its time limit in
-- seconds.
pub record Grpc (F Creds Conn W : Type 0) : Type 1 where
  pub Cert : Type 0
  pub Pool : Type 0
  pub load_key_pair : String → String → Action W Cert
  pub read_file : String → Action W Bytes
  pub pool_of_pem : Bytes → Option Pool
  pub new_tls : Cert → Pool → String → Creds
  pub insecure : Creds
  pub new_client : String → Creds → Action W Conn
  pub register_function : Conn → ℕ → FunctionConfig → Action W Ack
  pub deploy_function : Conn → ℕ → String → Bytes → Action W Ack
  pub execute_function : Conn → ExecutionRequest → Action W ExecutionResponse
  pub cancel_execution : Conn → ℕ → String → Action W Ack
  pub get_execution : Conn → ℕ → String → Action W GetExecutionResponse
  pub health_check : Conn → ℕ → Action W Bool
  pub report_node_status : Conn → ℕ → Action W (NodeStatusResponse F)
  pub decode_record : Bytes → Result ExecutionRecord
  pub clock : W → ℕ
