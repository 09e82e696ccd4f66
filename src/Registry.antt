-- ===== src/Registry.antt =====
-- pkg/registry/registry.go: the registry over a store. An error of the store is logged and
-- dropped, so an operation returns the new world alone. `now` is the reading of the clock.
pub mod Draining
pub mod Updates
use serverless_flux.Base.{ℕ, String, Bool, Option, none, some, List, [], ◌==◌, keep, if◌then◌else◌}
use serverless_flux.Base.Int.{ℤ, pos}
use serverless_flux.Base.Result.{Result, ok, err}
use serverless_flux.Models.{
  AgentStatus, online, offline, draining, status_eq, NodeStatus, Agent, Function,
}
use serverless_flux.Memory.{Bytes, Memory}

-- `nil, err` and `nil, nil` are both "not found" to the registry
abbrev pub found {ℓ} : {A : Type ℓ} → Result (Option A) → Option A
found (ok o) = o
found (err e) = none

-- a failed list is nil
abbrev pub listed {ℓ} : {A : Type ℓ} → Result (List A) → List A
listed (ok l) = l
listed (err e) = []

abbrev pub is_draining : AgentStatus → Bool
is_draining s = status_eq s draining

-- an offline agent that was heard of is online again
abbrev pub revived : AgentStatus → AgentStatus
revived offline = online
revived s = s

-- `agentID, agentID != ""`
abbrev pub owner_of : Result String → Option String
owner_of (err e) = none
owner_of (ok agent_id) = if agent_id == "" then none else some agent_id

abbrev pub is_online : {F : Type 0} → Agent F → Bool
is_online a = status_eq a.status online

module _ {F : Type 0} where
  -- the fields that `UpdateHeartbeat` writes
  abbrev pub with_heartbeat : ℤ → ℕ → Agent F → Agent F
  with_heartbeat count now a = record a {
    last_heartbeat = now;
    active_count = count;
    status = revived a.status;
  }

  -- the fields that `UpdateNodeStatus` writes
  abbrev pub with_metrics : NodeStatus F → Agent F → Agent F
  with_metrics status a = record a {
    node_status = some status;
    active_count = status.active_tasks;
    last_heartbeat = status.collected_at;
    status = revived a.status;
  }

  abbrev pub with_status : AgentStatus → Agent F → Agent F
  with_status status a = record a { status = status }

module _ {F W : Type 0} (M : Memory F W) where
  new_agent : String → String → String → String → String → AgentStatus → ℕ → Agent F
  new_agent id address provider_id instance_type provider status now = record {
    id = id;
    address = address;
    active_count = pos 0;
    last_heartbeat = now;
    status = status;
    provider_id = provider_id;
    instance_type = instance_type;
    provider = provider;
    node_status = none;
  }

  unfoldable pub register_agent : String → String → String → String → String → ℕ → W → W
  unfolding new_agent
  register_agent id address provider_id instance_type provider now w =
      (M.save_agent (new_agent id address provider_id instance_type provider online now) w).1

  unfoldable pub register_offline_agent : String → String → String → String → String → ℕ → W → W
  unfolding new_agent
  register_offline_agent id address provider_id instance_type provider now w =
      (M.save_agent (new_agent id address provider_id instance_type provider offline now) w).1

  unfoldable pub deregister_agent : String → W → W
  deregister_agent id w = (M.delete_agent id w).1

  unfoldable pub flush : W → W
  flush w = (M.flush w).1

  -- `GetAgent`, which the operations below repeat in their first lines
  unfoldable pub get_agent : String → W → Option (Agent F)
  get_agent id w = found (M.get_agent id w)

  mark_offline : Option (Agent F) → W → W
  mark_offline none w = w
  mark_offline (some a) w =
      if is_draining a.status then w else (M.save_agent (with_status offline a) w).1

  unfoldable pub set_offline : String → W → W
  unfolding get_agent mark_offline
  set_offline id w = mark_offline (get_agent id w) w

  mark_draining : Option (Agent F) → W → W
  mark_draining none w = w
  mark_draining (some a) w = (M.save_agent (with_status draining a) w).1

  unfoldable pub set_draining : String → W → W
  unfolding get_agent mark_draining
  set_draining id w = mark_draining (get_agent id w) w

  beat : Option (Agent F) → ℤ → ℕ → W → W
  beat none count now w = w
  beat (some a) count now w = (M.save_agent (with_heartbeat count now a) w).1

  unfoldable pub update_heartbeat : String → ℤ → ℕ → W → W
  unfolding get_agent beat
  update_heartbeat id count now w = beat (get_agent id w) count now w

  refresh : Option (Agent F) → NodeStatus F → W → W
  refresh none status w = w
  refresh (some a) status w = (M.save_agent (with_metrics status a) w).1

  unfoldable pub update_node_status : String → NodeStatus F → W → W
  unfolding get_agent refresh
  update_node_status id status w = refresh (get_agent id w) status w

  unfoldable pub get_all_agents : W → List (Agent F)
  get_all_agents w = listed (M.get_all_agents w)

  unfoldable pub get_available_agents : W → List (Agent F)
  get_available_agents w = keep is_online (listed (M.get_all_agents w))

  unfoldable pub get_online_agents : W → List (Agent F)
  get_online_agents w = keep is_online (listed (M.get_all_agents w))

  unfoldable pub register_function : Function → W → W
  register_function fn w = (M.save_function fn w).1

  unfoldable pub get_function : String → W → Option Function
  get_function name w = found (M.get_function name w)

  unfoldable pub get_all_functions : W → List Function
  get_all_functions w = listed (M.get_all_functions w)

  unfoldable pub save_code_archive : String → Bytes → W → W
  save_code_archive name archive w = (M.save_code_archive name archive w).1

  unfoldable pub get_code_archive : String → W → Option Bytes
  get_code_archive name w = found (M.get_code_archive name w)

  unfoldable pub save_execution_to_agent_map : String → String → W → W
  save_execution_to_agent_map execution_id agent_id w =
      (M.save_execution_to_agent_map execution_id agent_id w).1

  unfoldable pub get_execution_to_agent_map : String → W → Option String
  get_execution_to_agent_map execution_id w = owner_of (M.get_execution_to_agent_map execution_id w)
