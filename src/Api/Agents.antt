-- ===== src/Api/Agents.antt =====
-- The fleet as the API sees it, of pkg/api/handlers.go: `handleRegisterAgent`,
-- `handleInitialize` and `handleCleanupNodes`. A goroutine that is started is returned.
pub mod Registration
pub mod Cleanup
use serverless_flux.Base.{
  ℕ, String, ◌<>◌, Bool, true, false, not, Option, none, some, List, [], ◌∷◌, ◌==◌, if◌then◌else◌,
}
use serverless_flux.Base.Int.{ℤ, pos, sub64}
use serverless_flux.Base.Result.{Result, ok, err}
use serverless_flux.Models.{online, NodeStatus, Agent}
use serverless_flux.Memory.{Memory}
use serverless_flux.Client.{AgentClient}
use serverless_flux.Registry
use serverless_flux.Api.Reply.{Reply, fail, sent}

-- The body of the reply to a registration.
pub record RegisteredAgent (F : Type 0) : Type 0 where
  pub id : String
  pub address : String
  pub node : NodeStatus F

-- A reply, the world, and the agents whose functions a goroutine will synchronise.
abbrev pub Registered : Type 0 → Type 0 → Type 0
Registered F W = Reply (RegisteredAgent F) × W × List String

module _ {F : Type 0} where
  -- `&models.Agent{Address: req.Address}`
  abbrev pub at_address : String → Agent F
  at_address address = record {
    id = "";
    address = address;
    active_count = pos 0;
    last_heartbeat = 0;
    status = online;
    provider_id = "";
    instance_type = "";
    provider = "";
    node_status = none;
  }

  -- another address is registered for the agent
  abbrev pub conflicts : String → Option (Agent F) → Bool
  conflicts address none = false
  conflicts address (some a) = not (a.address == address)

module _ {F W : Type 0} (M : Memory F W) (C : AgentClient F W) where
  register_probed : String → ℕ → Result (NodeStatus F) × W → Registered F W
  register_probed address now (err e, w) = (fail 502 ("failed to reach agent: " <> e), w, [])
  register_probed address now (ok status, w) =
      if status.agent_id == ""
      then (fail 502 "agent returned empty ID", w, [])
      else if conflicts address (Registry.get_agent M status.agent_id w)
      then (fail 409 "agent already registered at a different address", w, [])
      else (
        sent 201 (record { id = status.agent_id; address = address; node = status }),
        Registry.update_node_status M status.agent_id status
            (Registry.register_agent M status.agent_id address "" "" "" now w),
        status.agent_id ∷ [],
      )

  -- of the decoded request, its address
  unfoldable pub handle_register_agent : Result String → ℕ → W → Registered F W
  unfolding register_probed
  handle_register_agent (err e) now w = (fail 400 ("invalid JSON: " <> e), w, [])
  handle_register_agent (ok address) now w =
      if address == ""
      then (fail 400 "address is required", w, [])
      else register_probed address now (C.get_node_status (at_address address) w)

-- `Initializer`
pub record Initializer (W : Type 0) : Type 0 where
  pub initialize_nodes : W → (ℤ × ℤ) × W
  pub terminate_nodes : W → ℤ × W

-- The body of a reply to an initialisation: the nodes spawned and failed.
unfoldable pub handle_initialize : {W : Type 0} → Option (Initializer W) → W → Reply (ℤ × ℤ) × W
unfolding sub64
handle_initialize none w = (fail 503 "no providers configured", w)
handle_initialize (some i) w =
    let ((spawned, attempted), w') = i.initialize_nodes w in
    (sent 200 (spawned, sub64 attempted spawned), w')

-- The number of nodes removed; the source calls the initializer without a test for nil.
unfoldable pub handle_cleanup_nodes : {F W : Type 0} → Memory F W → Initializer W → W → Reply ℤ × W
handle_cleanup_nodes M i w =
    let (count, w') = i.terminate_nodes w in (sent 200 count, Registry.flush M w')
