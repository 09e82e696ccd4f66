-- ===== src/Api/Listing.antt =====
-- The handlers of pkg/api/handlers.go that only report: `handleHealth`, `handleGetAgents` and
-- `handleResources`. An instant is printed by a parameter, and the host reports through another.
use mathlib.Core.Option
use serverless_flux.Base.{ℕ, ◌/◌, String, Option, none, some, List, [], ◌∷◌, map}
use serverless_flux.Base.Int.{ℤ, pos, unsigned64}
use serverless_flux.Floats.{Floats}
use serverless_flux.Models.{AgentStatus, online, offline, busy, draining, NodeStatus, Agent}
use serverless_flux.Memory.{Memory}
use serverless_flux.Registry

pub record NodeStatusInfo (F : Type 0) : Type 0 where
  pub cpu_percent : F
  pub mem_percent : F
  pub mem_total_mb : ℕ
  pub mem_used_mb : ℕ
  pub active_tasks : ℤ
  pub uptime_sec : ℤ
  pub collected_at : String

pub record AgentInfo (F : Type 0) : Type 0 where
  pub id : String
  pub address : String
  pub active_count : ℤ
  pub status : String
  pub last_heartbeat : String
  pub provider_id : String
  pub instance_type : String
  pub provider : String
  pub node_status : Option (NodeStatusInfo F)

pub record NodeStats (F : Type 0) : Type 0 where
  pub cpu_percent : F
  pub mem_percent : F
  pub mem_total_mb : ℕ
  pub mem_used_mb : ℕ
  pub active_tasks : ℤ
  pub uptime_sec : ℕ
  pub collected_at : String

pub record AgentResourceInfo (F : Type 0) : Type 0 where
  pub id : String
  pub status : String
  pub instance_type : String
  pub node : Option (NodeStats F)

-- `ResourcesResponse`: the node of Flux, and the agents
pub record ResourcesResponse (F : Type 0) : Type 0 where
  pub flux : NodeStats F
  pub agents : List (AgentResourceInfo F)

-- The total and used bytes of the memory, and its use in percent.
pub record VirtualMemory (F : Type 0) : Type 0 where
  pub total : ℕ
  pub used : ℕ
  pub used_percent : F

-- What `gopsutil` reports of the host. An error leaves the zero value: no reading of the processor
-- or the memory, or an uptime of 0.
pub record Host (F W : Type 0) : Type 0 where
  pub cpu_percents : W → List F
  pub virtual_memory : W → Option (VirtualMemory F)
  pub uptime : W → ℕ

abbrev pub status_text : AgentStatus → String
status_text online = "online"
status_text offline = "offline"
status_text busy = "busy"
status_text draining = "draining"

-- of bytes
abbrev pub megabytes : ℕ → ℕ
megabytes n = n / 1024 / 1024

module _ (rfc3339 : ℕ → String) {F : Type 0} where
  abbrev pub node_status_info : NodeStatus F → NodeStatusInfo F
  node_status_info s = record {
    cpu_percent = s.cpu_percent;
    mem_percent = s.mem_percent;
    mem_total_mb = s.mem_total_mb;
    mem_used_mb = s.mem_used_mb;
    active_tasks = s.active_tasks;
    uptime_sec = s.uptime_sec;
    collected_at = rfc3339 s.collected_at;
  }

  abbrev pub agent_info : Agent F → AgentInfo F
  agent_info a = record {
    id = a.id;
    address = a.address;
    active_count = a.active_count;
    status = status_text a.status;
    last_heartbeat = rfc3339 a.last_heartbeat;
    provider_id = a.provider_id;
    instance_type = a.instance_type;
    provider = a.provider;
    node_status = Option.map node_status_info a.node_status;
  }

  abbrev pub node_stats : NodeStatus F → NodeStats F
  node_stats s = record {
    cpu_percent = s.cpu_percent;
    mem_percent = s.mem_percent;
    mem_total_mb = s.mem_total_mb;
    mem_used_mb = s.mem_used_mb;
    active_tasks = s.active_tasks;
    uptime_sec = unsigned64 s.uptime_sec;
    collected_at = rfc3339 s.collected_at;
  }

  abbrev pub agent_resource_info : Agent F → AgentResourceInfo F
  agent_resource_info a = record {
    id = a.id;
    status = status_text a.status;
    instance_type = a.instance_type;
    node = Option.map node_stats a.node_status;
  }

  unfoldable pub handle_get_agents : {W : Type 0} → Memory F W → W → List (AgentInfo F)
  handle_get_agents M w = map agent_info (Registry.get_all_agents M w)

  module _ ⦃o : Floats F⦄ where
    abbrev pub first_percent : List F → F
    first_percent [] = o.of_ℕ 0
    first_percent (p ∷ rest) = p

    abbrev pub memory_or_zero : Option (VirtualMemory F) → VirtualMemory F
    memory_or_zero none = record { total = 0; used = 0; used_percent = o.of_ℕ 0 }
    memory_or_zero (some v) = v

    -- the node of Flux itself, at an instant
    abbrev pub flux_stats : {W : Type 0} → Host F W → ℕ → W → NodeStats F
    flux_stats H now w =
        let v = memory_or_zero (H.virtual_memory w) in
        record {
          cpu_percent = first_percent (H.cpu_percents w);
          mem_percent = v.used_percent;
          mem_total_mb = megabytes v.total;
          mem_used_mb = megabytes v.used;
          active_tasks = pos 0;
          uptime_sec = H.uptime w;
          collected_at = rfc3339 now;
        }

    unfoldable pub handle_resources :
        {W : Type 0} → Memory F W → Host F W → ℕ → W → ResourcesResponse F
    handle_resources M H now w = record {
      flux = flux_stats H now w;
      agents = map agent_resource_info (Registry.get_all_agents M w);
    }
