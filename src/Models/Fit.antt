-- ===== src/Models/Fit.antt =====
-- What `CanFit` of pkg/models/models.go decides.
use serverless_flux.Base.{ℕ, ◌+◌, ◌-◌, ◌^◌, ◌≤◌, ◌<◌, ◌≡◌, ◌↔◌, ◌⊎◌, true, false, some, arith}
use serverless_flux.Base.Int.{ℤ, pos, negsuc, int_ltb}
use serverless_flux.Floats.{Floats}
use serverless_flux.Models.{
  NodeStatus, Agent, Function, u64_of_int, memory_short, cpu_saturated, can_fit,
}

module _ {F : Type 0} ⦃o : Floats F⦄ where
  -- The node has the memory that the function asks for, or one of the two is not stated.
  abbrev MemoryFits : NodeStatus F → Function → Type 0
  MemoryFits ns fn =
      (int_ltb (pos 0) fn.memory_mb ≡ false)
      ⊎ (ns.mem_total_mb ≡ 0)
      ⊎ (ns.mem_used_mb + u64_of_int fn.memory_mb ≤ ns.mem_total_mb)

  abbrev CpuFits : NodeStatus F → Function → Type 0
  CpuFits ns fn =
      (int_ltb (pos 0) fn.cpu_millicores ≡ false) ⊎ (o.fle (o.of_ℕ 90) ns.cpu_percent ≡ false)

  memory_short_iff :
      (ns : NodeStatus F) (fn : Function) (z : ℤ)
      → fn.memory_mb ≡ z
      → ns.mem_used_mb ≤ ns.mem_total_mb
      → ns.mem_total_mb < 2 ^ 64
      → (memory_short ns fn ≡ false) ↔ MemoryFits ns fn
  unfolding memory_short
  memory_short_iff ns fn (pos m) e h k = rw e (ground arith)
  memory_short_iff ns fn (negsuc m) e h k = rw e (ground arith)

  cpu_saturated_iff :
      (ns : NodeStatus F) (fn : Function) → (cpu_saturated ns fn ≡ false) ↔ CpuFits ns fn
  unfolding cpu_saturated
  cpu_saturated_iff ns fn = ground arith

  -- For an agent with a status whose used memory is at most its total: the function fits exactly
  -- when its memory, if asked for and if the total is known, is free on the node, and the CPU is
  -- below 90 % if the function asks for CPU.
  can_fit_iff :
      (a : Agent F) (fn : Function) (ns : NodeStatus F)
      → a.node_status ≡ some ns
      → ns.mem_used_mb ≤ ns.mem_total_mb
      → ns.mem_total_mb < 2 ^ 64
      → (can_fit a fn ≡ true) ↔ (MemoryFits ns fn × CpuFits ns fn)
  unfolding can_fit
  can_fit_iff a fn ns e h k =
      ground (arith, memory_short_iff ns fn fn.memory_mb, cpu_saturated_iff ns fn)

  -- An agent that reports more memory used than it has, by at most 2^63 MB, fits every function
  -- that asks for memory below 2^63 MB and for no CPU: the difference wraps.
  pub can_fit_wraps :
      (a : Agent F) (fn : Function) (ns : NodeStatus F) (m : ℕ)
      → a.node_status ≡ some ns
      → ns.mem_total_mb < ns.mem_used_mb
      → ns.mem_used_mb - ns.mem_total_mb ≤ 2 ^ 63
      → fn.memory_mb ≡ pos m
      → m < 2 ^ 63
      → int_ltb (pos 0) fn.cpu_millicores ≡ false
      → can_fit a fn ≡ true
  unfolding can_fit
  can_fit_wraps a fn ns m e h k p l c = rw e (ground arith)
