-- ===== src/Scaler/Manager/Providers.antt =====
-- `NewProvidersManager` and `Start` of pkg/resource/providers_manager.go: the fleet's providers and
-- autoscalers, from the configuration.
use serverless_flux.Base.{Option, none, some, List, [], ◌∷◌, ◌++◌}
use serverless_flux.Base.Int.{ℤ, pos}
use serverless_flux.Base.Action.{Action, ◌>>=◌, return, labelled}
use serverless_flux.Floats.{Floats}
use serverless_flux.Config.{AutoscaleConfig, AwsProviderConfig, GcpProviderConfig, ProvidersConfig}
use serverless_flux.Pki.{Pki}
use serverless_flux.Scaler.Catalog.{Sort}
use serverless_flux.Scaler.Provider.{ProvisionedNode, CloudProvider}
use serverless_flux.Scaler.Autoscaler.{Autoscaler, new_autoscaler}
use serverless_flux.Scaler.Bootstrap.{BootstrapConfig}
use serverless_flux.Scaler.Aws.{Ec2, new_aws_provider}
use serverless_flux.Scaler.Gcp.{Gce, new_gcp_provider}
use serverless_flux.Scaler.Manager.{ProviderEntry}

-- An autoscaler with what it holds on to: its provider and its configuration.
pub record Scaler (F W : Type 0) : Type 0 where
  pub provider : CloudProvider F W
  pub cfg : AutoscaleConfig F
  pub state : Autoscaler F

pub record ProvidersManager (F W : Type 0) : Type 0 where
  pub entries : List (ProviderEntry F W)
  pub scalers : List (Scaler F W)

module _ {F W : Type 0} where
  abbrev pub entry_of : CloudProvider F W → Option (AutoscaleConfig F) → ProviderEntry F W
  entry_of p none = record { provider = p; min_nodes = pos 0; node_types = [] }
  entry_of p (some scaling) = record {
    provider = p;
    min_nodes = scaling.min_nodes;
    node_types = scaling.node_types;
  }

  -- `if a != nil { m.scalers = append(m.scalers, a) }`
  abbrev pub made_scaler :
      CloudProvider F W → AutoscaleConfig F → Option (Autoscaler F) → List (Scaler F W)
  made_scaler p scaling none = []
  made_scaler p scaling (some a) = record { provider = p; cfg = scaling; state = a } ∷ []

  abbrev pub scalers_of : CloudProvider F W → Option (AutoscaleConfig F) → List (Scaler F W)
  scalers_of p none = []
  scalers_of p (some scaling) = made_scaler p scaling (new_autoscaler (some scaling))

  abbrev pub with_provider :
      ProvidersManager F W → Option (AutoscaleConfig F) → CloudProvider F W → ProvidersManager F W
  with_provider m scaling p = record {
    entries = m.entries ++ entry_of p scaling ∷ [];
    scalers = m.scalers ++ scalers_of p scaling;
  }

  abbrev pub no_providers : ProvidersManager F W
  no_providers = record { entries = []; scalers = [] }

  -- `Start`: the autoscalers that it starts, and the manager without them
  abbrev pub start : ProvidersManager F W → List (Scaler F W) × ProvidersManager F W
  start m = (m.scalers, record m { scalers = [] })

  -- `new_aws` and `new_gcp` make the providers.
  module _ (new_aws : AwsProviderConfig F → Action W (CloudProvider F W))
      (new_gcp : GcpProviderConfig F → Action W (CloudProvider F W)) where
    unfoldable pub add_aws :
        Option (AwsProviderConfig F) → ProvidersManager F W → Action W (ProvidersManager F W)
    add_aws none m = return m
    add_aws (some cfg) m = do
      p ← labelled "aws provider: " (new_aws cfg)
      return (with_provider m cfg.autoscaling p)

    unfoldable pub add_gcp :
        Option (GcpProviderConfig F) → ProvidersManager F W → Action W (ProvidersManager F W)
    add_gcp none m = return m
    add_gcp (some cfg) m = do
      p ← labelled "gcp provider: " (new_gcp cfg)
      return (with_provider m cfg.autoscaling p)

    unfoldable pub new_providers_manager :
        Option (ProvidersConfig F) → Action W (ProvidersManager F W)
    new_providers_manager none = return no_providers
    new_providers_manager (some cfg) = do m ← add_aws cfg.aws no_providers; add_gcp cfg.gcp m

-- The manager over the two providers, as the program puts it together.
unfoldable pub assemble_manager :
    {F Cert Key AwsConn GcpConn W : Type 0} ⦃o : Floats F⦄
    → Ec2 AwsConn W
    → Gce GcpConn W
    → Sort F
    → (BootstrapConfig Cert Key → ProvisionedNode → Action W (Unit {0}))
    → ℤ
    → Pki Cert Key
    → Option (ProvidersConfig F)
    → Action W (ProvidersManager F W)
assemble_manager E G sort boot agent_port pki =
    new_providers_manager (λ c. new_aws_provider E sort boot c agent_port pki)
      (λ c. new_gcp_provider G sort boot c agent_port pki)
