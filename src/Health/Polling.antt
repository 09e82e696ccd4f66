-- ===== src/Health/Polling.antt =====
-- `startHealthPolling` of main.go: a goroutine for each listed agent at every tick, all of which
-- run at once. `Health` has one check as a whole; here it goes one operation at a time.
use mathlib.Core.List.{Memᴰ}
use serverless_flux.Base.{
  ℕ, ◌≡◌, refl, true, Bool-cases, List, [], ◌∷◌, ◌++◌, map, All, All-append, All-mem, inl, inr,
  if◌then◌else◌,
}
use serverless_flux.Base.Jobs.{poke, All-poke}
use serverless_flux.Base.Result.{Result, ok, err}
use serverless_flux.Models.{offline, status_eq, NodeStatus, Agent}
use serverless_flux.Memory.{Memory}
use serverless_flux.Client.{AgentClient}
use serverless_flux.Registry

-- A goroutine of `checkAgentHealth`, by the operation that it makes next. The last two have ended,
-- the second of them after it started the synchronisation of the agent.
pub data Check (F : Type 0) : Type 0 where
  probing : Agent F → Check F
  asking : Agent F → Check F
  writing : Agent F → NodeStatus F → Check F
  over : Check F
  synchronised : Agent F → Check F

-- What happens next: the ticker ticks, the i-th goroutine makes a step, or the rest of the system
-- changes the world.
pub data PollEvent (W : Type 0) : Type 0 where
  ticked : PollEvent W
  ran : ℕ → PollEvent W
  elsewhere : (W → W) → PollEvent W

module _ {F W : Type 0} (M : Memory F W) (C : AgentClient F W) where
  -- after the health check: an agent that was listed as offline is asked for its status
  probed : Agent F → Result (Unit {0}) × W → Check F × W
  probed a (err e, w) = (over, w)
  probed a (ok _, w) = (if status_eq a.status offline then asking a else over, w)

  asked : Agent F → Result (NodeStatus F) × W → Check F × W
  asked a (err e, w) = (over, w)
  asked a (ok status, w) = (writing a status, w)

  -- one operation of a goroutine
  unfoldable pub check : Check F → W → Check F × W
  unfolding probed asked
  check (probing a) w = probed a (C.health_check a w)
  check (asking a) w = asked a (C.get_node_status a w)
  check (writing a status) w = (synchronised a, Registry.update_node_status M a.id status w)
  check over w = (over, w)
  check (synchronised a) w = (synchronised a, w)

  -- the goroutines, and the world, after a schedule
  unfoldable pub polled : List (PollEvent W) → List (Check F) → W → List (Check F) × W
  unfolding check
  polled [] checks w = (checks, w)
  polled (ticked ∷ es) checks w = polled es (checks ++ map probing (Registry.get_all_agents M w)) w
  polled (ran i ∷ es) checks w = let (checks', w') = poke check i checks w in polled es checks' w'
  polled (elsewhere step ∷ es) checks w = polled es checks (step w)

  -- The agent was listed at some time.
  abbrev pub WasListed : Agent F → Type 0
  WasListed a = (u : W) × Memᴰ a (Registry.get_all_agents M u)

  -- It was listed as offline, and answered a health check.
  abbrev pub CameBack : Agent F → Type 0
  CameBack a =
      WasListed a
      × (status_eq a.status offline ≡ true)
      × ((u : W) × ((C.health_check a u).0 ≡ ok tt))

  -- It also gave the status.
  abbrev pub Gave : Agent F → NodeStatus F → Type 0
  Gave a status = CameBack a × ((u : W) × ((C.get_node_status a u).0 ≡ ok status))

  abbrev pub IsJustified : Check F → Type 0
  IsJustified (probing a) = WasListed a
  IsJustified (asking a) = CameBack a
  IsJustified (writing a status) = Gave a status
  IsJustified over = Unit {0}
  IsJustified (synchronised a) = (status : NodeStatus F) × Gave a status

  probed-IsJustified :
      (a : Agent F) (u : W) (r : Result (Unit {0}) × W)
      → WasListed a
      → (C.health_check a u).0 ≡ r.0
      → IsJustified (probed a r).0
  unfolding probed
  probed-IsJustified a u (err e, w) h p = tt
  probed-IsJustified a u (ok t, w) h p = elim (Bool-cases (status_eq a.status offline)) [
    | inl e ↦ rw e (h, e, (u, p))
    | inr e ↦ rw e tt
  ]

  asked-IsJustified :
      (a : Agent F) (u : W) (r : Result (NodeStatus F) × W)
      → CameBack a
      → (C.get_node_status a u).0 ≡ r.0
      → IsJustified (asked a r).0
  unfolding asked
  asked-IsJustified a u (err e, w) h p = tt
  asked-IsJustified a u (ok status, w) h p = (h, (u, p))

  check-IsJustified : (c : Check F) (w : W) → IsJustified c → IsJustified (check c w).0
  unfolding check
  check-IsJustified (probing a) w h = probed-IsJustified a w (C.health_check a w) h refl
  check-IsJustified (asking a) w h = asked-IsJustified a w (C.get_node_status a w) h refl
  check-IsJustified (writing a status) w h = (status, h)
  check-IsJustified over w h = tt
  check-IsJustified (synchronised a) w h = h

  probing-IsJustified :
      (w : W) (agents : List (Agent F))
      → ((a : Agent F) → Memᴰ a agents → Memᴰ a (Registry.get_all_agents M w))
      → All IsJustified (map probing agents)
  probing-IsJustified w [] h = tt
  probing-IsJustified w (a ∷ agents) h =
      ((w, h a (Memᴰ.head refl)), probing-IsJustified w agents (λ b m. h b (Memᴰ.tail m)))

  polled-IsJustified :
      (es : List (PollEvent W)) (checks : List (Check F)) (w : W)
      → All IsJustified checks
      → All IsJustified (polled es checks w).0
  unfolding polled
  polled-IsJustified [] checks w h = h
  polled-IsJustified (ticked ∷ es) checks w h = polled-IsJustified es _ w (
      All-append IsJustified checks _ h
        (probing-IsJustified w (Registry.get_all_agents M w) (λ a m. m)))
  polled-IsJustified (ran i ∷ es) checks w h =
      polled-IsJustified es _ _ (All-poke check IsJustified check-IsJustified i checks w h)
  polled-IsJustified (elsewhere step ∷ es) checks w h = polled-IsJustified es checks (step w) h

  -- However the ticks, the goroutines and the rest of the system take turns, an agent whose
  -- functions the health poller synchronises was listed as offline, and has answered a health
  -- check and given its status.
  pub polled-Gave :
      (es : List (PollEvent W)) (w : W) (a : Agent F)
      → Memᴰ (synchronised a) (polled es [] w).0
      → (status : NodeStatus F) × Gave a status
  polled-Gave es w a m = All-mem IsJustified (polled es [] w).0 m (polled-IsJustified es [] w tt)
