-- ===== src/Tests/Spawning.antt =====
-- The theorem on nodes of Google, over a cloud whose operation is done at the second answer.
use serverless_flux.Base.{ℕ, String, ◌<>◌, ◌≡◌, refl, none, some, [], ◌∷◌}
use serverless_flux.Base.Int.{pos}
use serverless_flux.Base.Result.{ok}
use serverless_flux.Floats.{whole_floats}
use serverless_flux.Config.{GcpProviderConfig}
use serverless_flux.Scaler.NodeTypes.{NodeResources}
use serverless_flux.Scaler.Provider.{ProvisionedNode}
use serverless_flux.Scaler.Catalog.{select_instance_type}
use serverless_flux.Scaler.Polling.{AreKnown, timed_out, ticked, wait_for_ips, node_types_of}
use serverless_flux.Scaler.Gcp.{
  Gce, NewInstance, done, pending, new_instance, spawn_node, new_agent_id, launch_instance,
  wait_for_op, op_loop, ask_address, first_address, first_nat,
}
use serverless_flux.Scaler.Gcp.Spawned.{IsInserted, IsRequest, IsDescribed, spawn_node-IsReady}
use serverless_flux.Tests.Fleet.{config}
use serverless_flux.Tests.Sort.{sort}
use serverless_flux.Tests.Configured.{gcp}

-- One tick, after which the instance has its addresses.
abbrev cloud : Gce String ℕ
cloud = record {
  new_service = λ file w. (ok "gce", w);
  insert = λ c project zone instance_spec w. (ok "op", w);
  delete = λ c project zone name w. (ok "op", w);
  get = λ c project zone name w.
      (ok ((record { network_ip = "10.0.0.2"; nat_ips = "" ∷ "1.2.3.4" ∷ [] }) ∷ []), w);
  op_wait = λ c project zone op w. pending (λ v. v) (done none);
  new_uuid = λ w. ("0123456789", w);
  wait = λ w. ticked (λ v. v) timed_out;
}

abbrev settings : GcpProviderConfig ℕ
settings = record (gcp "ubuntu") { autoscaling = some (config 3 1) }

abbrev need : NodeResources ℕ
need = record { vcpus = pos 1; memory_gb = 3 }

abbrev spawned : ProvisionedNode
spawned = record {
  provider_id = "flux-agent-auto-agent-01234567";
  agent_id = "auto-agent-01234567";
  instance_type = "small";
  public_ip = "1.2.3.4";
  private_ip = "10.0.0.2";
}

spawned_ok : spawn_node cloud sort settings "ssh-key" "gce" need 0 ≡ (ok spawned, 0)
unfolding spawn_node new_agent_id launch_instance wait_for_op op_loop ask_address first_address
    wait_for_ips select_instance_type sort new_instance first_nat
spawned_ok = refl

spawn_node-IsReady_example :
    (select_instance_type sort (node_types_of settings.autoscaling) need ≡ ok "small")
    × (spawned.provider_id ≡ "flux-agent-" <> spawned.agent_id)
    × ((spec : NewInstance) × IsRequest cloud settings "gce" spec spawned
        × IsInserted cloud settings "gce" spec)
    × IsDescribed cloud settings "gce" spawned.provider_id ("1.2.3.4", "10.0.0.2")
    × AreKnown ("1.2.3.4", "10.0.0.2")
spawn_node-IsReady_example =
    spawn_node-IsReady cloud settings "gce" sort "ssh-key" need 0 spawned 0 spawned_ok
