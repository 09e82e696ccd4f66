-- ===== src/Config.antt =====
-- pkg/config/config.go: the configuration records.
pub mod Parse
pub mod Global
use serverless_flux.Base.{String, Bool, Option, List}
use serverless_flux.Base.Int.{ℤ}

-- `int` fields are signed; `memory_gb` and the thresholds are floats.
pub record NodeTypeConfig (F : Type 0) : Type 0 where
  pub instance_type : String
  pub vcpus : ℤ
  pub memory_gb : F

pub record AutoscaleConfig (F : Type 0) : Type 0 where
  pub enabled : Bool
  pub name : String
  pub cpu_upper_threshold : F
  pub cpu_lower_threshold : F
  pub mem_upper_threshold : F
  pub mem_lower_threshold : F
  pub evaluation_window_sec : ℤ
  pub poll_interval_sec : ℤ
  pub cooldown_sec : ℤ
  pub max_nodes : ℤ
  pub min_nodes : ℤ
  pub node_types : List (NodeTypeConfig F)

pub record AwsProviderConfig (F : Type 0) : Type 0 where
  pub region : String
  pub ami : String
  pub security_group_id : String
  pub access_key_id : String
  pub secret_access_key : String
  pub ssh_user : String
  pub agent_version : String
  pub tags : List (String × String)
  pub agent_setup_commands : List String
  pub autoscaling : Option (AutoscaleConfig F)

pub record GcpProviderConfig (F : Type 0) : Type 0 where
  pub project_id : String
  pub zone : String
  pub image : String
  pub credentials_file : String
  pub service_account_email : String
  pub ssh_user : String
  pub agent_version : String
  pub labels : List (String × String)
  pub agent_setup_commands : List String
  pub autoscaling : Option (AutoscaleConfig F)

pub record ProvidersConfig (F : Type 0) : Type 0 where
  pub aws : Option (AwsProviderConfig F)
  pub gcp : Option (GcpProviderConfig F)

pub record FluxConfig (F : Type 0) : Type 0 where
  pub api_key : String
  pub redis_addr : String
  pub agent_port : ℤ
  pub certs_dir : String
  pub disable_grpc_tls : Bool
  pub providers : Option (ProvidersConfig F)
