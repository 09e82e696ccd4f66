-- ===== src/Tests/Launching.antt =====
-- The theorems on the providers, over a cloud that gives one node.
use serverless_flux.Base.{ℕ, String, ◌≡◌, refl, Option, none, some, [], ◌∷◌, ◌++◌}
use serverless_flux.Base.Int.{pos}
use serverless_flux.Base.Result.{Result, ok}
use serverless_flux.Base.Jobs.{poke}
use serverless_flux.Floats.{whole_floats}
use serverless_flux.Memory.Redis.{redis_memory}
use serverless_flux.Registry
use serverless_flux.Config.{ProvidersConfig}
use serverless_flux.Scaler.NodeTypes.{NodeResources}
use serverless_flux.Scaler.Provider.{ProvisionedNode}
use serverless_flux.Scaler.Catalog.{select_instance_type}
use serverless_flux.Scaler.Polling.{AreKnown, timed_out, ticked, wait_for_ips}
use serverless_flux.Scaler.Bootstrap.{BootstrapConfig}
use serverless_flux.Scaler.Aws.{
  Ec2, spawn_node, new_agent_id, first_instance, ask_ips, first_ips, new_aws_provider, aws_provider,
  terminate_node, import_ssh_key, imported,
}
use serverless_flux.Scaler.Aws.Spawned.{IsLaunched, IsDescribed, spawn_node-IsSound}
use serverless_flux.Scaler.Gcp.{Gce, done, new_gcp_provider, gcp_provider}
use serverless_flux.Scaler.Manager.{run, removals, remove, empty_events, emptied}
use serverless_flux.Scaler.Manager.Providers.{
  ProvidersManager, entry_of, scalers_of, add_aws, add_gcp, new_providers_manager, assemble_manager,
}
use serverless_flux.Tests.Server.{Server, server, store}
use serverless_flux.Tests.Fleet.{idle, config}
use serverless_flux.Tests.Sort.{sort}
use serverless_flux.Tests.Configured.{aws, gcp}
use serverless_flux.Tests.Certified.{prepared_pki}

-- One tick, after which the instance has its addresses.
abbrev ec2 : Ec2 String Server
ec2 = record {
  load_default_config = λ region credentials w. (ok region, w);
  run_instances = λ c input w. (ok (some "i-9" ∷ []), w);
  describe_instances = λ c id w. (
    ok (
        (record { public_ip_address = some "1.2.3.4"; private_ip_address = some "10.0.0.2" } ∷ [])
        ∷ []),
    w,
  );
  terminate_instances = λ c id w. (ok tt, w);
  import_key_pair = λ c name key w. (none, w);
  new_uuid = λ w. ("0123456789", w);
  wait = λ w. ticked (λ v. v) timed_out;
}

abbrev gce : Gce String Server
gce = record {
  new_service = λ file w. (ok "gce", w);
  insert = λ c project zone instance_spec w. (ok "op", w);
  delete = λ c project zone name w. (ok "op", w);
  get = λ c project zone name w. (ok [], w);
  op_wait = λ c project zone op w. done none;
  new_uuid = λ w. ("0123456789", w);
  wait = λ w. timed_out;
}

abbrev need : NodeResources ℕ
need = record { vcpus = pos 1; memory_gb = 3 }

abbrev spawned : ProvisionedNode
spawned = record {
  provider_id = "i-9";
  agent_id = "auto-agent-01234567";
  instance_type = "small";
  public_ip = "1.2.3.4";
  private_ip = "10.0.0.2";
}

spawned_ok : spawn_node ec2 sort (aws "u" (config 3 1)) "eu" need [] ≡ (ok spawned, [])
unfolding spawn_node new_agent_id first_instance ask_ips first_ips wait_for_ips select_instance_type
    sort
spawned_ok = refl

spawn_node-IsSound_example :
    (select_instance_type sort (config 3 1).node_types need ≡ ok "small")
    × IsLaunched ec2 "eu" spawned
    × IsDescribed ec2 "eu" spawned
    × AreKnown ("1.2.3.4", "10.0.0.2")
spawn_node-IsSound_example =
    spawn_node-IsSound ec2 sort (aws "u" (config 3 1)) "eu" need [] spawned [] spawned_ok

abbrev both : Option (ProvidersConfig ℕ)
both = some (record { aws = some (aws "u" (config 3 1)); gcp = some (gcp "u") })

abbrev boot : BootstrapConfig String String → ProvisionedNode → Server → Result (Unit {0}) × Server
boot cfg n w = (ok tt, w)

manager : ProvidersManager ℕ Server
manager = record {
  entries =
      entry_of
        (aws_provider ec2 sort boot (aws "u" (config 3 1)) (pos 50052) prepared_pki "eu-west-1")
        (some (config 3 1))
      ∷ entry_of (gcp_provider gce sort boot (gcp "u") (pos 50052) prepared_pki "gce")
          (gcp "u").autoscaling
      ∷ [];
  scalers =
      scalers_of
        (aws_provider ec2 sort boot (aws "u" (config 3 1)) (pos 50052) prepared_pki "eu-west-1")
        (some (config 3 1))
      ++ scalers_of (gcp_provider gce sort boot (gcp "u") (pos 50052) prepared_pki "gce")
          (gcp "u").autoscaling;
}

assembled_ok :
    assemble_manager ec2 gce sort boot (pos 50052) prepared_pki both [] ≡ (ok manager, [])
unfolding assemble_manager manager new_providers_manager add_aws add_gcp new_aws_provider
    new_gcp_provider import_ssh_key imported
assembled_ok = refl

one_terminated :
    emptied
      (empty_events store (run 0 ∷ run 0 ∷ []) (removals store manager.entries (idle ∷ [])) []).0
    ≡ some (pos 1)
unfolding manager emptied empty_events removals remove poke Registry.deregister_agent redis_memory
    server terminate_node
one_terminated = refl
