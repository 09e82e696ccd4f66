-- ===== src/Tests/Fleet.antt =====
-- The data of the tests: agents, a configuration, and the outside world.
use serverless_flux.Base.{ℕ, String, true, none, some, [], ◌∷◌}
use serverless_flux.Base.Int.{pos}
use serverless_flux.Base.Result.{ok}
use serverless_flux.Floats.{whole_floats}
use serverless_flux.Models.{AgentStatus, online, draining, NodeStatus, Agent, Function}
use serverless_flux.Config.{NodeTypeConfig, AutoscaleConfig}
use serverless_flux.Client.{AgentClient}
use serverless_flux.Scaler.Provider.{ProvisionedNode, CloudProvider}
use serverless_flux.Tests.Server.{Server}

abbrev pub metrics : ℕ → ℕ → ℕ → NodeStatus ℕ
metrics cpu total used = record {
  agent_id = "a1";
  cpu_percent = cpu;
  mem_percent = 10;
  mem_total_mb = total;
  mem_used_mb = used;
  active_tasks = pos 0;
  uptime_sec = pos 60;
  collected_at = 100;
}

abbrev pub agent : String → AgentStatus → NodeStatus ℕ → Agent ℕ
agent id status ns = record {
  id = id;
  address = "10.0.0.1:50052";
  active_count = pos 0;
  last_heartbeat = 0;
  status = status;
  provider_id = "i-1";
  instance_type = "small";
  provider = "aws";
  node_status = some ns;
}

abbrev pub leaving : Agent ℕ
leaving = agent "a1" draining (metrics 5 1000 200)

abbrev pub idle : Agent ℕ
idle = agent "a1" online (metrics 5 1000 200)

abbrev pub function : ℕ → ℕ → Function
function cpu memory = record {
  name = "resize";
  handler = "main";
  cpu_millicores = pos cpu;
  memory_mb = pos memory;
  timeout_sec = pos 30;
  max_concurrency = pos 5;
  max_concurrency_behavior = "exit";
  resource_pressure_behavior = "exit";
  code_path = "";
  env = [];
}

abbrev pub node_type : String → ℕ → ℕ → NodeTypeConfig ℕ
node_type name vcpus memory = record { instance_type = name; vcpus = pos vcpus; memory_gb = memory }

abbrev pub small : NodeTypeConfig ℕ
small = node_type "small" 2 4

abbrev pub large : NodeTypeConfig ℕ
large = node_type "large" 4 8

-- with `max` and `min` nodes
abbrev pub config : ℕ → ℕ → AutoscaleConfig ℕ
config max min = record {
  enabled = true;
  name = "fleet";
  cpu_upper_threshold = 80;
  cpu_lower_threshold = 20;
  mem_upper_threshold = 80;
  mem_lower_threshold = 20;
  evaluation_window_sec = pos 60;
  poll_interval_sec = pos 10;
  cooldown_sec = pos 300;
  max_nodes = pos max;
  min_nodes = pos min;
  node_types = large ∷ small ∷ [];
}

abbrev pub node : ProvisionedNode
node = record {
  provider_id = "i-2";
  agent_id = "a2";
  instance_type = "small";
  public_ip = "1.2.3.4";
  private_ip = "10.0.0.2";
}

-- Every agent is idle and does what it is told.
abbrev pub client : AgentClient ℕ Server
client = record {
  register_function = λ a fn w. (ok tt, w);
  deploy_function = λ a name archive w. (ok tt, w);
  execute_function = λ a name args id async w.
      (ok (record { output = "done"; error = ""; duration_ms = pos 7 }), w);
  cancel_execution = λ a id w. (ok tt, w);
  get_execution = λ a id w. (ok none, w);
  health_check = λ a w. (ok tt, w);
  get_node_status = λ a w. (ok (metrics 5 1000 200), w);
}

abbrev pub provider : CloudProvider ℕ Server
provider = record {
  name = "aws";
  spawn_node = λ resources w. (ok node, w);
  bootstrap = λ n w. (ok tt, w);
  terminate_node = λ id w. (ok tt, w);
}
