-- ===== src/Scaler/Gcp.antt =====
-- pkg/resource/gcp.go: the provider of Google, over the Compute Engine client of its SDK, which
-- the program takes from packages.
pub mod Spawned
use Prim.Native.String.{slice}
use Prim.Native.Char.{code}
use serverless_flux.Base.{
  ℕ, String, ◌<>◌, ◌==◌, eqb, leb, Bool, ◌||◌, ◌&&◌, Option, none, some, List, [], ◌∷◌,
  if◌then◌else◌,
}
use serverless_flux.Base.Dict
use serverless_flux.Base.Dict.{Dict}
use serverless_flux.Base.Int.{ℤ}
use serverless_flux.Base.Result.{Result, ok, err}
use serverless_flux.Base.Action.{Action, ◌>>=◌, ◌>>◌, return, of_result, labelled}
use serverless_flux.Floats.{Floats}
use serverless_flux.Memory.{Bytes}
use serverless_flux.Config.{GcpProviderConfig}
use serverless_flux.Pki.{Pki}
use serverless_flux.Scaler.NodeTypes.{NodeResources}
use serverless_flux.Scaler.Catalog.{Sort, Candidate, select_instance_type}
use serverless_flux.Scaler.Provider.{ProvisionedNode, CloudProvider}
use serverless_flux.Scaler.Bootstrap.{BootstrapConfig}
use serverless_flux.Scaler.Polling.{
  Wait, wait_for_ips, or_else, both_known, node_types_of, configured,
}

-- The fields of `compute.Instance` that the program sets. The one disk is a boot disk that goes
-- with the instance, and the one network interface has the external NAT named "External NAT".
pub record NewInstance : Type 0 where
  pub name : String
  pub machine_type : String
  pub source_image : String
  pub labels : Dict String
  pub ssh_keys : String
  -- the e-mail and the scopes of each service account
  pub service_accounts : List (String × List String)

-- An interface of an instance: its own address, and the NAT address of each access configuration.
pub record NetworkInterface : Type 0 where
  pub network_ip : String
  pub nat_ips : List String

-- The answers to repeated `Wait` requests on an operation: an error of the request, the operation
-- done, with its first error if it has errors, or not done yet.
pub data OpWait (W : Type 0) : Type 0 where
  failed : String → OpWait W
  done : Option String → OpWait W
  pending : (W → W) → OpWait W → OpWait W

-- The SDK. The strings of an operation on instances are the project and the zone, and those that
-- start one answer with its name.
pub record Gce (Conn W : Type 0) : Type 0 where
  pub new_service : Option String → Action W Conn
  pub insert : Conn → String → String → NewInstance → Action W String
  pub delete : Conn → String → String → String → Action W String
  pub get : Conn → String → String → String → Action W (List NetworkInterface)
  pub op_wait : Conn → String → String → String → W → OpWait W
  pub new_uuid : W → String × W
  pub wait : W → Wait W

-- `strings.TrimSpace`, on Latin-1
abbrev pub is_space : ℕ → Bool
is_space c = (leb 9 c && leb c 13) || eqb c 32 || eqb c 0x85 || eqb c 0xA0

unfoldable pub trim_left : String → String
trim_left String.[] = ""
trim_left (String.◌∷◌ c s) = if is_space (code c) then trim_left s else String.◌∷◌ c s

unfoldable pub trim_right : String → String
trim_right String.[] = ""
trim_right (String.◌∷◌ c s) =
    let rest = trim_right s in if is_space (code c) && rest == "" then "" else String.◌∷◌ c rest

-- the labels of an instance; those of the configuration win
unfoldable pub with_labels : List (String × String) → Dict String → Dict String
with_labels [] labels = labels
with_labels ((k, v) ∷ rest) labels = with_labels rest (Dict.put k v labels)

unfoldable pub service_accounts_of : String → List (String × List String)
service_accounts_of email =
    if email == "" then [] else (email, "https://www.googleapis.com/auth/cloud-platform" ∷ []) ∷ []

-- `instance`, for the agent, the type and the SSH public key
unfoldable pub new_instance :
    {F : Type 0} → GcpProviderConfig F → String → String → String → NewInstance
unfolding trim_left trim_right with_labels service_accounts_of
new_instance cfg public agent_id machine_type = record {
  name = "flux-agent-" <> agent_id;
  machine_type = "zones/" <> (cfg.zone <> ("/machineTypes/" <> machine_type));
  source_image = cfg.image;
  labels = with_labels cfg.labels (("flux-role", "agent") ∷ ("flux-agent-id", agent_id) ∷ []);
  ssh_keys = cfg.ssh_user <> (":" <> trim_left (trim_right public));
  service_accounts = service_accounts_of cfg.service_account_email;
}

unfoldable pub first_nat : String → List String → Option (String × String)
first_nat private [] = none
first_nat private (nat ∷ rest) = or_else (both_known nat private) (first_nat private rest)

unfoldable pub first_address : List NetworkInterface → Option (String × String)
unfolding first_nat
first_address [] = none
first_address (iface ∷ rest) =
    or_else (first_nat iface.network_ip iface.nat_ips) (first_address rest)

abbrev pub done_result : String → Option String → Result (Unit {0})
done_result op none = ok tt
done_result op (some message) = err ("operation " <> (op <> (" failed: " <> message)))

module _ {Conn W : Type 0} (E : Gce Conn W) where
  -- the `for` of `waitForOp`
  unfoldable pub op_loop : String → OpWait W → Action W (Unit {0})
  op_loop op (failed e) w = (err ("operation " <> (op <> (": " <> e))), w)
  op_loop op (done e) w = (done_result op e, w)
  op_loop op (pending step rest) w = op_loop op rest (step w)

  -- `"auto-agent-" + uuid.NewString()[:8]`
  unfoldable pub new_agent_id : Action W String
  new_agent_id w = let (id, v) = E.new_uuid w in (ok ("auto-agent-" <> slice id 0 8), v)

  module _ {F : Type 0} where
    unfoldable pub wait_for_op : GcpProviderConfig F → Conn → String → Action W (Unit {0})
    unfolding op_loop
    wait_for_op cfg client op w = op_loop op (E.op_wait client cfg.project_id cfg.zone op w) w

    unfoldable pub ask_address :
        GcpProviderConfig F → Conn → String → Action W (Option (String × String))
    ask_address cfg client name = do
      interfaces ← E.get client cfg.project_id cfg.zone name
      return (first_address interfaces)

    unfoldable pub terminate_node : GcpProviderConfig F → Conn → String → Action W (Unit {0})
    terminate_node cfg client name = do
      op ← labelled ("Delete " <> (name <> ": ")) (E.delete client cfg.project_id cfg.zone name)
      labelled ("delete " <> (name <> ": ")) (wait_for_op cfg client op)

    -- from the request to launch on
    unfoldable pub launch_instance :
        GcpProviderConfig F → Conn → NewInstance → Action W (String × String)
    launch_instance cfg client instance_spec = do
      op ← labelled "Insert: " (E.insert client cfg.project_id cfg.zone instance_spec)
      labelled ("insert " <> (instance_spec.name <> ": ")) (wait_for_op cfg client op)
      labelled ("instance " <> (instance_spec.name <> " launched but IP wait failed: ")) (λ w.
          wait_for_ips (ask_address cfg client instance_spec.name) instance_spec.name (E.wait w) w)

    unfoldable pub spawn_node :
        ⦃o : Floats F⦄
        → Sort F
        → GcpProviderConfig F
        → Bytes
        → Conn
        → NodeResources F
        → Action W ProvisionedNode
    spawn_node sort cfg public client resources = do
      types ← of_result (configured (node_types_of cfg.autoscaling))
      machine_type ←
          labelled "instance selection failed: "
            (of_result (select_instance_type sort types resources))
      agent_id ← new_agent_id
      ips ← launch_instance cfg client (new_instance cfg public agent_id machine_type)
      return (record {
        provider_id = "flux-agent-" <> agent_id;
        agent_id = agent_id;
        instance_type = machine_type;
        public_ip = ips.0;
        private_ip = ips.1;
      })

    -- the provider of a client
    abbrev pub gcp_provider :
        ⦃o : Floats F⦄
        → {Cert Key : Type 0} → Sort F
        → (BootstrapConfig Cert Key → ProvisionedNode → Action W (Unit {0}))
        → GcpProviderConfig F
        → ℤ
        → Pki Cert Key
        → Conn
        → CloudProvider F W
    gcp_provider sort boot cfg agent_port pki client = record {
      name = "gcp";
      spawn_node = spawn_node sort cfg pki.ssh_public_key client;
      bootstrap = boot (record {
        pki = pki;
        ssh_user = cfg.ssh_user;
        agent_port = agent_port;
        agent_version = cfg.agent_version;
        agent_setup_commands = cfg.agent_setup_commands;
      });
      terminate_node = terminate_node cfg client;
    }

    -- the client of `NewGCPProvider`
    abbrev pub open_service : GcpProviderConfig F → Action W Conn
    open_service cfg =
        labelled "failed to create GCE service: "
          (E.new_service (if cfg.credentials_file == "" then none else some cfg.credentials_file))

    -- `NewGCPProvider`; `boot` is the SSH bootstrapper.
    unfoldable pub new_gcp_provider :
        ⦃o : Floats F⦄
        → {Cert Key : Type 0} → Sort F
        → (BootstrapConfig Cert Key → ProvisionedNode → Action W (Unit {0}))
        → GcpProviderConfig F
        → ℤ
        → Pki Cert Key
        → Action W (CloudProvider F W)
    new_gcp_provider sort boot cfg agent_port pki = do
      client ← open_service cfg
      return (gcp_provider sort boot cfg agent_port pki client)
