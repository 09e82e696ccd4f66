-- ===== src/Scaler/Aws.antt =====
-- pkg/resource/aws.go: the provider of Amazon, over the EC2 client of its SDK, which the program
-- takes from packages.
pub mod Spawned
use Prim.Native.String.{slice}
use serverless_flux.Base.{
  ℕ, String, ◌<>◌, ◌==◌, Bool, true, false, ◌||◌, Option, none, some, List, [], ◌∷◌, if◌then◌else◌,
}
use serverless_flux.Base.Int.{ℤ}
use serverless_flux.Base.Result.{Result, ok, err}
use serverless_flux.Base.Action.{Action, proceed, ◌>>=◌, ◌>>◌, return, of_result, labelled}
use serverless_flux.Floats.{Floats}
use serverless_flux.Memory.{Bytes}
use serverless_flux.Config.{AwsProviderConfig}
use serverless_flux.Pki.{Pki}
use serverless_flux.Scaler.NodeTypes.{NodeResources}
use serverless_flux.Scaler.Catalog.{Sort, Candidate, select_instance_type}
use serverless_flux.Scaler.Provider.{ProvisionedNode, CloudProvider}
use serverless_flux.Scaler.Bootstrap.{BootstrapConfig}
use serverless_flux.Scaler.Polling.{
  Wait, wait_for_ips, or_else, both_known, node_types_of, configured,
}

pub data HttpTokens : Type 0 where
  tokens_optional tokens_required : HttpTokens

pub data HttpEndpoint : Type 0 where
  endpoint_disabled endpoint_enabled : HttpEndpoint

-- The fields of `ec2.RunInstancesInput` that the program sets; the tags are those of the instance.
pub record RunInstancesInput : Type 0 where
  pub image_id : String
  pub instance_type : String
  pub min_count : ℕ
  pub max_count : ℕ
  pub key_name : String
  pub security_group_ids : List String
  pub instance_tags : List (String × String)
  pub http_tokens : HttpTokens
  pub http_endpoint : HttpEndpoint

-- The addresses of an instance; a pointer may be nil.
pub record Instance : Type 0 where
  pub public_ip_address : Option String
  pub private_ip_address : Option String

-- An error of the API, with its code where it has one.
pub record ApiError : Type 0 where
  pub text : String
  pub error_code : Option String

-- The SDK. A launch answers with the ids of the instances, a description with the instances of
-- each reservation; `wait` is how the wait for addresses goes on.
pub record Ec2 (Conn W : Type 0) : Type 0 where
  pub load_default_config : String → Option (String × String) → Action W Conn
  pub run_instances : Conn → RunInstancesInput → Action W (List (Option String))
  pub describe_instances : Conn → String → Action W (List (List Instance))
  pub terminate_instances : Conn → String → Action W (Unit {0})
  pub import_key_pair : Conn → String → Bytes → W → Option ApiError × W
  pub new_uuid : W → String × W
  pub wait : W → Wait W

abbrev pub ec2_key_pair_name : String
ec2_key_pair_name = "flux-agent"

-- `aws.ToString`
abbrev pub to_string : Option String → String
to_string none = ""
to_string (some s) = s

abbrev pub ips_of : Instance → Option (String × String)
ips_of inst = both_known (to_string inst.public_ip_address) (to_string inst.private_ip_address)

unfoldable pub first_of_instances : List Instance → Option (String × String)
first_of_instances [] = none
first_of_instances (inst ∷ rest) = or_else (ips_of inst) (first_of_instances rest)

unfoldable pub first_ips : List (List Instance) → Option (String × String)
unfolding first_of_instances
first_ips [] = none
first_ips (r ∷ rest) = or_else (first_of_instances r) (first_ips rest)

abbrev pub is_duplicate : Option String → Bool
is_duplicate none = false
is_duplicate (some code) = code == "InvalidKeyPair.Duplicate"

unfoldable pub imported : Option ApiError → Result (Unit {0})
imported none = ok tt
imported (some e) = if is_duplicate e.error_code then ok tt else err e.text

unfoldable pub first_instance : List (Option String) → Result String
first_instance [] = err "RunInstances returned no instances"
first_instance (id ∷ rest) = ok (to_string id)

-- `input`, for the agent and the type
abbrev pub launch_input : {F : Type 0} → AwsProviderConfig F → String → String → RunInstancesInput
launch_input cfg agent_id instance_type = record {
  image_id = cfg.ami;
  instance_type = instance_type;
  min_count = 1;
  max_count = 1;
  key_name = ec2_key_pair_name;
  security_group_ids = cfg.security_group_id ∷ [];
  instance_tags =
      ("Name", "flux-agent-" <> agent_id)
      ∷ ("flux:role", "agent")
      ∷ ("flux:agent-id", agent_id)
      ∷ [];
  http_tokens = tokens_required;
  http_endpoint = endpoint_enabled;
}

abbrev pub static_credentials : {F : Type 0} → AwsProviderConfig F → Option (String × String)
static_credentials cfg =
    if cfg.access_key_id == "" || cfg.secret_access_key == ""
    then none
    else some (cfg.access_key_id, cfg.secret_access_key)

module _ {Conn W : Type 0} (E : Ec2 Conn W) where
  -- `"auto-agent-" + uuid.NewString()[:8]`
  unfoldable pub new_agent_id : Action W String
  new_agent_id w = let (id, v) = E.new_uuid w in (ok ("auto-agent-" <> slice id 0 8), v)

  unfoldable pub ask_ips : Conn → String → Action W (Option (String × String))
  ask_ips client id = do
    reservations ← E.describe_instances client id
    return (first_ips reservations)

  unfoldable pub terminate_node : Conn → String → Action W (Unit {0})
  terminate_node client id =
      labelled ("TerminateInstances " <> (id <> ": ")) (E.terminate_instances client id)

  unfoldable pub import_ssh_key : Conn → Bytes → Action W (Unit {0})
  unfolding imported
  import_ssh_key client public w =
      let (e, v) = E.import_key_pair client ec2_key_pair_name public w in (imported e, v)

  module _ {F : Type 0} ⦃o : Floats F⦄ where
    unfoldable pub spawn_node :
        Sort F → AwsProviderConfig F → Conn → NodeResources F → Action W ProvisionedNode
    spawn_node sort cfg client resources = do
      types ← of_result (configured (node_types_of cfg.autoscaling))
      instance_type ←
          labelled "instance selection failed: "
            (of_result (select_instance_type sort types resources))
      agent_id ← new_agent_id
      instances ←
          labelled "RunInstances: "
            (E.run_instances client (launch_input cfg agent_id instance_type))
      id ← of_result (first_instance instances)
      ips ←
          labelled ("instance " <> (id <> " launched but IP wait failed: "))
            (λ w. wait_for_ips (ask_ips client id) id (E.wait w) w)
      return (record {
        provider_id = id;
        agent_id = agent_id;
        instance_type = instance_type;
        public_ip = ips.0;
        private_ip = ips.1;
      })

    -- the provider of a client
    abbrev pub aws_provider :
        {Cert Key : Type 0}
        → Sort F
        → (BootstrapConfig Cert Key → ProvisionedNode → Action W (Unit {0}))
        → AwsProviderConfig F
        → ℤ
        → Pki Cert Key
        → Conn
        → CloudProvider F W
    aws_provider sort boot cfg agent_port pki client = record {
      name = "aws";
      spawn_node = spawn_node sort cfg client;
      bootstrap = boot (record {
        pki = pki;
        ssh_user = cfg.ssh_user;
        agent_port = agent_port;
        agent_version = cfg.agent_version;
        agent_setup_commands = cfg.agent_setup_commands;
      });
      terminate_node = terminate_node client;
    }

    -- `NewAWSProvider`; `boot` is the SSH bootstrapper.
    unfoldable pub new_aws_provider :
        {Cert Key : Type 0}
        → Sort F
        → (BootstrapConfig Cert Key → ProvisionedNode → Action W (Unit {0}))
        → AwsProviderConfig F
        → ℤ
        → Pki Cert Key
        → Action W (CloudProvider F W)
    new_aws_provider sort boot cfg agent_port pki = do
      client ←
          labelled "failed to load AWS config: "
            (E.load_default_config cfg.region (static_credentials cfg))
      labelled "import SSH key pair: " (import_ssh_key client pki.ssh_public_key)
      return (aws_provider sort boot cfg agent_port pki client)
