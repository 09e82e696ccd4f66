-- ===== src/Client/Grpc.antt =====
-- pkg/client/agent.go over gRPC, which the program takes from a package: the cache of connections
-- and the calls. The messages are those of proto/flux.proto.
mod Messages
pub mod Connections
pub mod Calls
use serverless_flux.Base.{
  ℕ, String, ◌<>◌, Bool, not, if◌then◌else◌, true, false, Option, none, some, List, [], ◌∷◌,
}
use serverless_flux.Base.Dict
use serverless_flux.Base.Dict.{Dict}
use serverless_flux.Base.Int.{ℤ}
use serverless_flux.Base.Result.{Result, ok, err}
use serverless_flux.Base.Action.{Action, proceed, ◌>>=◌, return, of_result, labelled, ◌>>◌}
use serverless_flux.Models.{NodeStatus, Agent, Function, ExecutionRecord}
use serverless_flux.Memory.{Bytes}
pub use Messages.*
use serverless_flux.Client.{ExecutionResponse, AgentClient}

-- The paths that the client asks of the PKI.
pub record CertPaths : Type 0 where
  pub ca_cert_path : String
  pub flux_cert_path : String
  pub flux_key_path : String

-- The connections by address, and the world.
pub record Clients (Conn W : Type 0) : Type 0 where
  pub clients : Dict Conn
  pub outside : W

module _ {Conn W : Type 0} where
  -- an operation of the world, which leaves the connections alone
  abbrev pub settle : {A : Type 0} → Clients Conn W → Result A × W → Result A × Clients Conn W
  settle s (r, w) = (r, record s { outside = w })

  abbrev pub outside_of : {A : Type 0} → Action W A → Action (Clients Conn W) A
  outside_of m s = settle s (m s.outside)

-- `&pb.FunctionConfig{…}`
abbrev pub config_of : Function → FunctionConfig
config_of fn = record {
  name = fn.name;
  handler = fn.handler;
  cpu_millicores = fn.cpu_millicores;
  memory_mb = fn.memory_mb;
  timeout_seconds = fn.timeout_sec;
  env = fn.env;
  max_concurrency = fn.max_concurrency;
  max_concurrency_behavior = fn.max_concurrency_behavior;
}

-- `if !resp.Success { return … }`
abbrev pub acknowledged : {S : Type 0} → String → Ack → Action S (Unit {0})
acknowledged label r s = (if r.success then ok tt else err (label <> r.message), s)

-- `&models.NodeStatus{…}`
abbrev pub status_of : {F : Type 0} → NodeStatusResponse F → ℕ → NodeStatus F
status_of r now = record {
  agent_id = r.agent_id;
  cpu_percent = r.cpu_percent;
  mem_percent = r.memory_percent;
  mem_total_mb = r.memory_total_mb;
  mem_used_mb = r.memory_used_mb;
  active_tasks = r.active_tasks;
  uptime_sec = r.uptime_seconds;
  collected_at = now;
}

module _ {F Creds Conn W : Type 0} (G : Grpc F Creds Conn W) where
  -- `AppendCertsFromPEM` and what follows it
  with_pool : G.Cert → Option G.Pool → Action W Creds
  with_pool cert none w = (err "failed to parse CA certificate", w)
  with_pool cert (some pool) w = (ok (G.new_tls cert pool "flux-agent"), w)

  load_tls_credentials : CertPaths → Action W Creds
  unfolding with_pool
  load_tls_credentials p = do
    cert ←
        labelled
          ("load flux cert/key (cert="
            <> (p.flux_cert_path <> (" key=" <> (p.flux_key_path <> "): "))))
          (G.load_key_pair p.flux_cert_path p.flux_key_path)
    ca ← labelled ("read CA cert (" <> (p.ca_cert_path <> "): ")) (G.read_file p.ca_cert_path)
    with_pool cert (G.pool_of_pem ca)

  credentials : Option CertPaths → Action W Creds
  unfolding load_tls_credentials
  credentials none w = (ok G.insecure, w)
  credentials (some p) w = labelled "load mTLS credentials: " (load_tls_credentials p) w

  connect : Option CertPaths → String → Action W Conn
  unfolding credentials
  connect pki address = do creds ← credentials pki; G.new_client address creds

  -- the new connection is cached
  keep_client : String → Result Conn × Clients Conn W → Result Conn × Clients Conn W
  keep_client address (err e, s) = (err e, s)
  keep_client address (ok c, s) = (ok c, record s { clients = Dict.put address c s.clients })

  -- the part of `get` under the write lock, from its lookup
  open_client : Option CertPaths → String → Option Conn → Action (Clients Conn W) Conn
  unfolding connect keep_client
  open_client pki address (some c) s = (ok c, s)
  open_client pki address none s = keep_client address (outside_of (connect pki address) s)

  unfoldable pub locked_get : Option CertPaths → String → Action (Clients Conn W) Conn
  unfolding open_client Dict.get
  locked_get pki address s = open_client pki address (Dict.get address s.clients) s

  -- from the lookup under the read lock
  get_cached : Option CertPaths → String → Option Conn → Action (Clients Conn W) Conn
  unfolding locked_get
  get_cached pki address (some c) s = (ok c, s)
  get_cached pki address none s = locked_get pki address s

  unfoldable pub get : Option CertPaths → String → Action (Clients Conn W) Conn
  unfolding get_cached Dict.get
  get pki address s = get_cached pki address (Dict.get address s.clients) s

  call_register_function :
      Option CertPaths → Agent F → Function → Action (Clients Conn W) (Unit {0})
  unfolding get
  call_register_function pki a fn = do
    cl ← get pki a.address
    r ← outside_of (G.register_function cl 10 (config_of fn))
    acknowledged "registration failed: " r

  call_deploy_function :
      Option CertPaths → Agent F → String → Bytes → Action (Clients Conn W) (Unit {0})
  unfolding get
  call_deploy_function pki a name archive = do
    cl ← get pki a.address
    r ← outside_of (G.deploy_function cl 30 name archive)
    acknowledged "deployment failed: " r

  call_execute_function :
      Option CertPaths
      → Agent F
      → String
      → List String
      → String
      → Bool
      → Action (Clients Conn W) ExecutionResponse
  unfolding get
  call_execute_function pki a name args id async = do
    cl ← get pki a.address
    outside_of (
        G.execute_function cl
          (record { function_name = name; args = args; execution_id = id; async = async }))

  call_cancel_execution : Option CertPaths → Agent F → String → Action (Clients Conn W) (Unit {0})
  unfolding get
  call_cancel_execution pki a id = do
    cl ← get pki a.address
    r ← outside_of (G.cancel_execution cl 5 id)
    acknowledged "cancel failed: " r

  decoded_record : Result ExecutionRecord → Result (Option ExecutionRecord)
  decoded_record (err e) = err ("decode execution record: " <> e)
  decoded_record (ok r) = ok (some r)

  call_get_execution :
      Option CertPaths → Agent F → String → Action (Clients Conn W) (Option ExecutionRecord)
  unfolding get decoded_record
  call_get_execution pki a id = do
    cl ← get pki a.address
    r ← outside_of (G.get_execution cl 5 id)
    of_result (if not r.found then ok none else decoded_record (G.decode_record r.body))

  call_health_check : Option CertPaths → Agent F → Action (Clients Conn W) (Unit {0})
  unfolding get
  call_health_check pki a = do cl ← get pki a.address; outside_of (G.health_check cl 3); return tt

  call_get_node_status : Option CertPaths → Agent F → Action (Clients Conn W) (NodeStatus F)
  unfolding get
  call_get_node_status pki a = do
    cl ← get pki a.address
    r ← outside_of (G.report_node_status cl 5)
    λ s. (ok (status_of r (G.clock s.outside)), s)

  -- `AgentClient`, as the interface that the other parts use
  unfoldable pub grpc_client : Option CertPaths → AgentClient F (Clients Conn W)
  unfolding call_register_function call_deploy_function call_execute_function call_cancel_execution
      call_get_execution call_health_check call_get_node_status
  grpc_client pki = record {
    register_function = call_register_function pki;
    deploy_function = call_deploy_function pki;
    execute_function = call_execute_function pki;
    cancel_execution = call_cancel_execution pki;
    get_execution = call_get_execution pki;
    health_check = call_health_check pki;
    get_node_status = call_get_node_status pki;
  }
