-- ===== src/Models.antt =====
-- pkg/models/models.go: the records that the parts share, and the fit and the scores of an agent.
pub mod Fit
use serverless_flux.Base.{
  ℕ, ◌+◌, ◌-◌, ◌%◌, ◌^◌, String, Bool, true, false, ◌&&◌, Option, none, some, List, ltb,
  if◌then◌else◌,
}
use serverless_flux.Base.Int.{ℤ, pos, int_ltb}
use serverless_flux.Floats.{Floats}

pub data AgentStatus : Type 0 where
  online offline busy draining : AgentStatus

-- `==` on `AgentStatus`
abbrev pub status_eq : AgentStatus → AgentStatus → Bool
status_eq online online = true
status_eq offline offline = true
status_eq busy busy = true
status_eq draining draining = true
status_eq _ _ = false

-- The latest metrics of a node. `collected_at` is in nanoseconds, as every instant is.
pub record NodeStatus (F : Type 0) : Type 0 where
  pub agent_id : String
  pub cpu_percent : F
  pub mem_percent : F
  pub mem_total_mb : ℕ  -- uint64
  pub mem_used_mb : ℕ  -- uint64
  pub active_tasks : ℤ  -- int32
  pub uptime_sec : ℤ  -- int64
  pub collected_at : ℕ

pub record Agent (F : Type 0) : Type 0 where
  pub id : String
  pub address : String
  pub active_count : ℤ  -- int32
  pub last_heartbeat : ℕ
  pub status : AgentStatus
  pub provider_id : String
  pub instance_type : String
  pub provider : String
  pub node_status : Option (NodeStatus F)

-- The behaviours are strings in the source: "wait" or "exit" once a function is registered.
pub record Function : Type 0 where
  pub name : String
  pub handler : String
  pub cpu_millicores : ℤ  -- int32
  pub memory_mb : ℤ  -- int64
  pub timeout_sec : ℤ  -- int32
  pub max_concurrency : ℤ  -- int32
  pub max_concurrency_behavior : String
  pub resource_pressure_behavior : String
  pub code_path : String
  pub env : List (String × String)

abbrev pub behavior_wait : String
behavior_wait = "wait"

abbrev pub behavior_exit : String
behavior_exit = "exit"

pub record ExecutionRecord : Type 0 where
  pub execution_id : String
  pub agent_id : String
  pub function_name : String
  pub status : String
  pub output : String
  pub error : String
  pub duration_ms : ℤ
  pub started_at : ℕ
  pub status_at : Option ℕ

-- `a - b` on uint64, which wraps below 0
unfoldable pub sub_u64 : ℕ → ℕ → ℕ
sub_u64 a b = (a + 2 ^ 64 - b) % 2 ^ 64

-- `uint64(n)` of an int64
abbrev pub u64_of_int : ℤ → ℕ
u64_of_int (ℤ.pos n) = n
u64_of_int (ℤ.negsuc n) = 2 ^ 64 - 1 - n

module _ {F : Type 0} ⦃o : Floats F⦄ where
  pressure_of : Option (NodeStatus F) → F
  pressure_of none = o.of_ℕ 0
  pressure_of (some ns) = o.fadd ns.cpu_percent ns.mem_percent

  -- `Agent.Pressure`
  unfoldable pub pressure : Agent F → F
  unfolding pressure_of
  pressure a = pressure_of a.node_status

  -- the two tests of `CanFit` on a node with a status
  memory_short : NodeStatus F → Function → Bool
  unfolding sub_u64
  memory_short ns fn =
      int_ltb (pos 0) fn.memory_mb
      && ltb 0 ns.mem_total_mb
      && ltb (sub_u64 ns.mem_total_mb ns.mem_used_mb) (u64_of_int fn.memory_mb)

  cpu_saturated : NodeStatus F → Function → Bool
  cpu_saturated ns fn = int_ltb (pos 0) fn.cpu_millicores && o.fle (o.of_ℕ 90) ns.cpu_percent

  fits : Option (NodeStatus F) → Function → Bool
  unfolding memory_short cpu_saturated
  fits none fn = true
  fits (some ns) fn =
      if memory_short ns fn then false else if cpu_saturated ns fn then false else true

  -- `Agent.CanFit`
  unfoldable pub can_fit : Agent F → Function → Bool
  unfolding fits
  can_fit a fn = fits a.node_status fn

  mem_avail : NodeStatus F → F
  unfolding sub_u64
  mem_avail ns =
      if ltb 0 ns.mem_total_mb
      then o.fmul
          (o.fdiv (o.of_ℕ (sub_u64 ns.mem_total_mb ns.mem_used_mb)) (o.of_ℕ ns.mem_total_mb))
          (o.of_ℕ 100)
      else o.of_ℕ 0

  score_of : Option (NodeStatus F) → F
  unfolding mem_avail
  score_of none = o.of_ℕ 50
  score_of (some ns) = o.fadd (o.fsub (o.of_ℕ 100) ns.cpu_percent) (mem_avail ns)

  -- `Agent.AvailableScore`
  unfoldable pub available_score : Agent F → F
  unfolding score_of
  available_score a = score_of a.node_status
