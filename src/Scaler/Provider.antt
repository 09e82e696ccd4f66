-- ===== src/Scaler/Provider.antt =====
-- pkg/resource/provider.go: a launched node, and the interface of a cloud provider.
use serverless_flux.Base.{String}
use serverless_flux.Base.Result.{Result}
use serverless_flux.Scaler.NodeTypes.{NodeResources}

pub record ProvisionedNode : Type 0 where
  pub provider_id : String
  pub agent_id : String
  pub instance_type : String
  pub public_ip : String
  pub private_ip : String

pub record CloudProvider (F W : Type 0) : Type 0 where
  pub name : String
  pub spawn_node : NodeResources F → W → Result ProvisionedNode × W
  pub bootstrap : ProvisionedNode → W → Result (Unit {0}) × W
  pub terminate_node : String → W → Result (Unit {0}) × W
