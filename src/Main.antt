-- ===== src/Main.antt =====
-- `main` of main.go, up to the server that listens: the configuration, the PKI, the store, the
-- client of the agents, the providers and their autoscalers, each from the ones before. The world
-- holds the connections of that client. The program that then runs is in Main/Process.
pub mod Steps
pub mod Guarded
pub mod Refusals
pub mod Process
pub mod Unnoticed
use serverless_flux.Base.{
  ℕ, String, ◌==◌, Option, none, some, List, [], ◌∷◌, if◌then◌else◌, Bool, true, false,
}
use serverless_flux.Base.Int.{ℤ}
use serverless_flux.Base.Result.{Result, ok, err}
use serverless_flux.Base.Action.{Action, ◌>>=◌, ◌>>◌, return, labelled}
use serverless_flux.Base.Startup.{Startup, going, dereferenced, proceed, continue, or_exit}
use serverless_flux.Floats.{Floats}
use serverless_flux.Config.{FluxConfig, AwsProviderConfig, GcpProviderConfig, ProvidersConfig}
use serverless_flux.Config.Parse.{Parsed, parse, or_text, default_certs_dir}
use serverless_flux.Config.Global
use serverless_flux.Memory.{Memory, Bytes}
use serverless_flux.Memory.Redis.{Redis, Codec}
use serverless_flux.Memory.Redis.Connection.{RedisPackage, new_redis_memory}
use serverless_flux.Pki.{
  Disk, Crypto, Pki, path, ca_cert_file, flux_cert_file, flux_key_file, new_pki,
}
use serverless_flux.Client.Grpc.{Grpc, CertPaths, Clients, grpc_client}
use serverless_flux.Api.Agents.{Initializer}
use serverless_flux.Api.Functions.{FunctionYaml}
use serverless_flux.Api.Listing.{Host}
use serverless_flux.Api.Serve.{Service}
use serverless_flux.Scaler.Catalog.{Sort, Candidate}
use serverless_flux.Scaler.Provider.{ProvisionedNode, CloudProvider}
use serverless_flux.Scaler.Bootstrap.{BootstrapConfig}
use serverless_flux.Scaler.Aws.{
  Ec2, static_credentials, import_ssh_key, aws_provider, new_aws_provider,
}
use serverless_flux.Scaler.Gcp.{Gce, open_service, new_gcp_provider}
use serverless_flux.Scaler.Manager.Providers.{
  Scaler, ProvidersManager, no_providers, with_provider, add_gcp, start, assemble_manager,
}

-- What the program takes from its environment and from packages. `boot` is the SSH bootstrapper,
-- `fleet` the two operations of the manager under some scheduler, and `gcp_without_pki` the GCP
-- provider of a program that has no PKI, whose SpawnNode panics.
pub record Packages (F Serial Cert Key Options V Creds Conn AwsConn GcpConn W : Type 0)
    : Type 1 where
  pub read_config : String → Clients Conn W → Result (FluxConfig F)
  pub windows : Bool
  pub program_data : String
  pub join : String → String → String → String
  pub disk : Disk (Clients Conn W)
  pub crypto : Crypto Serial Cert Key (Clients Conn W)
  pub redis : RedisPackage Options V (Clients Conn W)
  pub codec : Codec F V
  pub grpc : Grpc F Creds Conn W
  pub ec2 : Ec2 AwsConn (Clients Conn W)
  pub gce : Gce GcpConn (Clients Conn W)
  pub sort : Sort F
  pub boot : BootstrapConfig Cert Key → ProvisionedNode → Action (Clients Conn W) (Unit {0})
  pub gcp_without_pki : GcpProviderConfig F → ℤ → GcpConn → CloudProvider F (Clients Conn W)
  pub fleet : ProvidersManager F (Clients Conn W) → Initializer (Clients Conn W)
  pub host : Host F (Clients Conn W)
  pub decode_yaml : Bytes → Result FunctionYaml
  pub rfc3339 : ℕ → String

-- A program that has started: the service behind its server, the autoscalers that run, and the
-- manager without them.
pub record Running (F S : Type 0) : Type 0 where
  pub service : Service F S
  pub scalers : List (Scaler F S)
  pub manager : ProvidersManager F S

-- `os.Getenv("FLUX_CONFIG")` and its default
abbrev pub config_path : String → String
config_path variable = or_text "flux.yaml" variable

module _ {F Serial Cert Key Options V Creds Conn AwsConn GcpConn W : Type 0} ⦃o : Floats F⦄
    (P : Packages F Serial Cert Key Options V Creds Conn AwsConn GcpConn W) where
  abbrev pub State : Type 0
  State = Clients Conn W

  -- the configuration file, read and parsed
  abbrev pub config_file : String → State → Parsed F
  config_file variable s =
      parse (default_certs_dir P.windows P.program_data P.join)
        (P.read_config (config_path variable) s)

  loaded : String → State → Startup (FluxConfig F) × State
  loaded variable s = (Global.configured (Global.load (config_file variable s) none), s)

  abbrev pub some_pki : Result (Pki Cert Key) × State → Result (Option (Pki Cert Key)) × State
  some_pki (err e, s) = (err e, s)
  some_pki (ok p, s) = (ok (some p), s)

  -- `pkiMgr`, nil without TLS
  unfoldable pub open_pki : FluxConfig F → State → Startup (Option (Pki Cert Key)) × State
  open_pki cfg s =
      if cfg.disable_grpc_tls
      then (going none, s)
      else or_exit "Failed to initialize PKI: " (some_pki (new_pki P.disk P.crypto cfg.certs_dir s))

  pub open_memory : FluxConfig F → State → Startup (Memory F State) × State
  open_memory cfg s = (new_redis_memory P.redis P.codec cfg.redis_addr, s)

  -- what the client asks of the PKI
  abbrev pub cert_paths : Option (Pki Cert Key) → Option CertPaths
  cert_paths none = none
  cert_paths (some p) = some (record {
    ca_cert_path = path P.disk P.crypto p.certs_dir ca_cert_file;
    flux_cert_path = path P.disk P.crypto p.certs_dir flux_cert_file;
    flux_key_path = path P.disk P.crypto p.certs_dir flux_key_file;
  })

  -- the part of `NewProvidersManager` for GCP, with `NewGCPProvider(nil)`
  gcp_of_nil : ℤ → Option (GcpProviderConfig F) → Action State (ProvidersManager F State)
  gcp_of_nil agent_port none = return no_providers
  gcp_of_nil agent_port (some cfg) = do
    client ← labelled "gcp provider: " (open_service P.gce cfg)
    return (with_provider no_providers cfg.autoscaling (P.gcp_without_pki cfg agent_port client))

  -- the rest of `NewProvidersManager` from `importSSHKey` on, which reads the key of the PKI
  with_key :
      ℤ
      → AwsProviderConfig F
      → Option (GcpProviderConfig F)
      → AwsConn
      → Pki Cert Key
      → Action State (ProvidersManager F State)
  with_key agent_port aws gcp client pki = do
    labelled "aws provider: import SSH key pair: " (import_ssh_key P.ec2 client pki.ssh_public_key)
    add_gcp (λ c. new_aws_provider P.ec2 P.sort P.boot c agent_port pki)
        (λ c. new_gcp_provider P.gce P.sort P.boot c agent_port pki) gcp
        (with_provider no_providers aws.autoscaling
          (aws_provider P.ec2 P.sort P.boot aws agent_port pki client))

  -- `NewAWSProvider`, from the loaded configuration on; `importSSHKey` calls a method of the PKI
  with_client :
      ℤ
      → AwsProviderConfig F
      → Option (GcpProviderConfig F)
      → Option (Pki Cert Key)
      → Result AwsConn × State
      → Startup (ProvidersManager F State) × State
  unfolding with_key
  with_client agent_port aws gcp pki (err e, s) =
      or_exit "Failed to initialize providers: aws provider: failed to load AWS config: " (err e, s)
  with_client agent_port aws gcp pki (ok client, s) =
      proceed (dereferenced pki, s)
        (λ p s'.
          or_exit "Failed to initialize providers: " (with_key agent_port aws gcp client p s'))

  -- `NewProvidersManager` with a nil PKI, on the two sections
  without_pki :
      ℤ
      → Option (AwsProviderConfig F)
      → Option (GcpProviderConfig F)
      → State
      → Startup (ProvidersManager F State) × State
  unfolding with_client gcp_of_nil
  without_pki agent_port (some aws) gcp s =
      with_client agent_port aws gcp none
        (P.ec2.load_default_config aws.region (static_credentials aws) s)
  without_pki agent_port none gcp s =
      or_exit "Failed to initialize providers: " (gcp_of_nil agent_port gcp s)

  unmanaged : ℤ → Option (ProvidersConfig F) → State → Startup (ProvidersManager F State) × State
  unfolding without_pki
  unmanaged agent_port none s = (going no_providers, s)
  unmanaged agent_port (some c) s = without_pki agent_port c.aws c.gcp s

  pub new_manager :
      Option (Pki Cert Key) → FluxConfig F → State → Startup (ProvidersManager F State) × State
  unfolding unmanaged
  new_manager (some p) cfg s =
      or_exit "Failed to initialize providers: "
        (assemble_manager P.ec2 P.gce P.sort P.boot cfg.agent_port p cfg.providers s)
  new_manager none cfg s = unmanaged cfg.agent_port cfg.providers s

  -- `provMgr.Start()`, and the server
  pub run_with :
      FluxConfig F
      → Option (Pki Cert Key)
      → Memory F State
      → ProvidersManager F State
      → Running F State
  run_with cfg pki mem m =
      let (scalers, m') = start m in
      record {
        service = record {
          memory = mem;
          client = grpc_client P.grpc (cert_paths pki);
          initializer = some (P.fleet m');
          host = P.host;
          key = cfg.api_key;
          decode_yaml = P.decode_yaml;
          rfc3339 = P.rfc3339;
        };
        scalers = scalers;
        manager = m';
      }

  -- the rest of `main` from each of its steps on
  from_store :
      FluxConfig F
      → Option (Pki Cert Key)
      → Memory F State
      → State
      → Startup (Running F State) × State
  from_store cfg pki mem s =
      proceed (new_manager pki cfg s) (λ m s'. continue (run_with cfg pki mem m) s')

  from_pki : FluxConfig F → Option (Pki Cert Key) → State → Startup (Running F State) × State
  from_pki cfg pki s = proceed (open_memory cfg s) (from_store cfg pki)

  from_config : FluxConfig F → State → Startup (Running F State) × State
  from_config cfg s = proceed (open_pki cfg s) (from_pki cfg)

  -- `main`, on the value of FLUX_CONFIG
  unfoldable pub main : String → State → Startup (Running F State) × State
  unfolding loaded open_memory new_manager run_with from_store from_pki from_config
  main variable s = proceed (loaded variable s) from_config
