-- ===== src/Health.antt =====
-- The health poller of main.go: `checkAgentHealth`, over an agent as the registry listed it. A
-- goroutine that synchronises an agent is returned by its identifier.
pub mod Recovery
pub mod Polling
use serverless_flux.Base.{String, Bool, List, [], ◌∷◌, if◌then◌else◌}
use serverless_flux.Base.Result.{Result, ok, err}
use serverless_flux.Models.{offline, status_eq, NodeStatus, Agent}
use serverless_flux.Memory.{Memory}
use serverless_flux.Client.{AgentClient}
use serverless_flux.Registry

module _ {F W : Type 0} (M : Memory F W) (C : AgentClient F W) where
  revive : Agent F → Result (NodeStatus F) × W → W × List String
  revive a (err e, w) = (w, [])
  revive a (ok status, w) = (Registry.update_node_status M a.id status w, a.id ∷ [])

  checked : Agent F → Result (Unit {0}) × W → W × List String
  unfolding revive
  checked a (err e, w) = (w, [])
  checked a (ok _, w) =
      if status_eq a.status offline then revive a (C.get_node_status a w) else (w, [])

  unfoldable pub check_agent_health : Agent F → W → W × List String
  unfolding checked
  check_agent_health a w = checked a (C.health_check a w)
