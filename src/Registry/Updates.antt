-- ===== src/Registry/Updates.antt =====
-- The updates of pkg/registry/registry.go as goroutines make them: SetOffline, SetDraining,
-- UpdateHeartbeat and UpdateNodeStatus read an agent and write it back, with no lock, so others may
-- write between the two.
pub mod Serial
pub mod Races
use serverless_flux.Base.{ℕ, String, Option, none, some, List, [], ◌∷◌, ◌++◌, if◌then◌else◌}
use serverless_flux.Base.Jobs.{poke}
use serverless_flux.Models.{offline, draining, Agent}
use serverless_flux.Memory.{Memory}
use serverless_flux.Registry.{
  get_agent, deregister_agent, is_draining, with_heartbeat, with_metrics, with_status,
}
use serverless_flux.Registry.Draining.{HealthEvent, unreachable, heartbeat, metrics, drain}

-- A goroutine in one of the four operations, by the call of the store that it makes next.
pub data Update (F : Type 0) : Type 0 where
  reading : HealthEvent F → Update F
  saving : Agent F → Update F
  settled : Update F

-- What happens next: a goroutine calls an operation, the i-th one makes a call of the store, or
-- an agent is deregistered.
pub data UpdateEvent (F : Type 0) : Type 0 where
  called : HealthEvent F → UpdateEvent F
  stepped : ℕ → UpdateEvent F
  deregistered : String → UpdateEvent F

module _ {F : Type 0} where
  abbrev pub subject : HealthEvent F → String
  subject (unreachable id) = id
  subject (heartbeat id count now) = id
  subject (metrics id status) = id
  subject (drain id) = id

  -- what an operation does to the agent that it read
  abbrev pub amended : HealthEvent F → Agent F → Update F
  amended (unreachable id) a =
      if is_draining a.status then settled else saving (with_status offline a)
  amended (heartbeat id count now) a = saving (with_heartbeat count now a)
  amended (metrics id status) a = saving (with_metrics status a)
  amended (drain id) a = saving (with_status draining a)

  -- `if err != nil || agent == nil { return }`
  abbrev pub after_read : HealthEvent F → Option (Agent F) → Update F
  after_read e none = settled
  after_read e (some a) = amended e a

module _ {F W : Type 0} (M : Memory F W) where
  -- one call of the store
  unfoldable pub advance : Update F → W → Update F × W
  advance (reading e) w = (after_read e (get_agent M (subject e) w), w)
  advance (saving a) w = (settled, (M.save_agent a w).1)
  advance settled w = (settled, w)

  -- the goroutines, and the world, after a schedule
  unfoldable pub updated : List (UpdateEvent F) → List (Update F) → W → List (Update F) × W
  unfolding advance
  updated [] us w = (us, w)
  updated (called e ∷ es) us w = updated es (us ++ reading e ∷ []) w
  updated (stepped i ∷ es) us w = let (us', w') = poke advance i us w in updated es us' w'
  updated (deregistered id ∷ es) us w = updated es us (deregister_agent M id w)
