-- ===== src/Scaler/Autoscaler.antt =====
pub mod Limits
pub mod Growth
pub mod Drain
pub mod Monitor
-- The autoscaler of pkg/resource/scaler.go over a store, the agents and one cloud provider. A
-- goroutine that an operation starts is returned as a task. `now` is the reading of the clock for
-- a cooldown, `stamp` a later one that is recorded. The logging of average pressure is left out.
use serverless_flux.Base.{
  ℕ, String, ◌<>◌, Bool, ◌&&◌, ◌||◌, not, Option, none, some, List, [], ◌∷◌, keep, find, length,
  ◌==◌, if◌then◌else◌,
}
use serverless_flux.Base.Select.{choose}
use serverless_flux.Base.Int.{ℤ, pos, int_ltb, int_leb, int_eqb, seconds, time_sub}
use serverless_flux.Base.Result.{Result, ok, err}
use serverless_flux.Floats.{Floats}
use serverless_flux.Models.{NodeStatus, Agent, pressure}
use serverless_flux.Config.{AutoscaleConfig}
use serverless_flux.Memory.{Memory}
use serverless_flux.Client.{AgentClient}
use serverless_flux.Registry
use serverless_flux.Registry.{is_draining}
use serverless_flux.Scaler.NodeTypes.{
  NodeResources, smallest_node_resources, largest_node_resources, largest_instance_type,
}
use serverless_flux.Scaler.Provider.{ProvisionedNode, CloudProvider}
use serverless_flux.Scaler.Pressure.{
  ScaleDirection, up, neutral, down, History, record_sample, should_scale,
}

-- the fields of `Autoscaler` that change
pub record Autoscaler (F : Type 0) : Type 0 where
  pub history : History F
  pub last_scale_up : ℕ
  pub last_scale_down : ℕ

-- A started goroutine: an agent's identifier, address and provider's identifier, and what follows.
pub data Task (F : Type 0) : Type 0 where
  drain_and_terminate : String → String → String → Task F
  drain_and_replace : String → String → String → NodeResources F → Task F
  bootstrap : ProvisionedNode → Task F

-- The autoscaler, the world, and the tasks started.
abbrev pub Outcome : Type 0 → Type 0 → Type 0
Outcome F W = Autoscaler F × W × List (Task F)

-- `newAutoscaler`: nothing without an enabled configuration
unfoldable pub new_autoscaler : {F : Type 0} → Option (AutoscaleConfig F) → Option (Autoscaler F)
new_autoscaler none = none
new_autoscaler (some cfg) =
    if not cfg.enabled
    then none
    else some (record { history = []; last_scale_up = 0; last_scale_down = 0 })

module _ {F : Type 0} (cfg : AutoscaleConfig F) where
  abbrev pub window : ℤ
  window = seconds cfg.evaluation_window_sec

  -- `time.Since(last) < cooldown`
  abbrev pub cooling : ℕ → ℕ → Bool
  cooling now last = int_ltb (time_sub now last) (seconds cfg.cooldown_sec)

module _ {F : Type 0} ⦃o : Floats F⦄ where
  -- the node that is replaced at the limit: idle, and not of the largest type
  abbrev pub upgradable : AutoscaleConfig F → Agent F → Bool
  upgradable cfg a =
      not (a.instance_type == largest_instance_type cfg.node_types)
      && int_eqb a.active_count (pos 0)

  -- the test that skips a node of the scale-down loop
  abbrev pub removable : Agent F → Bool
  removable a = not (int_ltb (pos 0) a.active_count || is_draining a.status)

  abbrev pub less_pressed : Agent F → Agent F → Bool
  less_pressed x b = o.flt (pressure x) (pressure b)

  -- the least-pressured idle node
  unfoldable pub target : List (Agent F) → Option (Agent F)
  target agents = choose less_pressed removable none agents

module _ {F W : Type 0} ⦃o : Floats F⦄ (M : Memory F W) (P : CloudProvider F W)
    (cfg : AutoscaleConfig F) (port : String) where
  unfoldable pub managed_agents : W → List (Agent F)
  managed_agents w = keep (λ a. a.provider == P.name) (Registry.get_all_agents M w)

  -- the rest of `spawnNode`, from the provider's answer
  register_spawned : Autoscaler F → ℕ → Result ProvisionedNode × W → Outcome F W
  register_spawned a stamp (err e, w) = (a, w, [])
  register_spawned a stamp (ok node, w) = (
    record a { history = [] },
    Registry.register_offline_agent M node.agent_id (node.public_ip <> (":" <> port))
        node.provider_id node.instance_type P.name stamp w,
    bootstrap node ∷ [],
  )

  unfoldable pub spawn_node : Autoscaler F → NodeResources F → ℕ → W → Outcome F W
  unfolding register_spawned
  spawn_node a resources stamp w = register_spawned a stamp (P.spawn_node resources w)

  upgrade : Autoscaler F → Option (Agent F) → ℕ → W → Outcome F W
  upgrade a none stamp w = (a, w, [])
  upgrade a (some c) stamp w = (
    record a { last_scale_up = stamp },
    Registry.set_draining M c.id w,
    drain_and_replace c.id c.address c.provider_id (largest_node_resources cfg.node_types) ∷ [],
  )

  unfoldable pub try_scale_up : Autoscaler F → ℕ → ℕ → W → Outcome F W
  unfolding spawn_node upgrade
  try_scale_up a now stamp w =
      if cooling cfg now a.last_scale_up
      then (a, w, [])
      else if int_ltb (pos (length (managed_agents w))) cfg.max_nodes
      then spawn_node (record a { last_scale_up = stamp }) (smallest_node_resources cfg.node_types)
          stamp w
      else upgrade a (find (upgradable cfg) (managed_agents w)) stamp w

  decommission : Autoscaler F → Option (Agent F) → ℕ → W → Outcome F W
  decommission a none stamp w = (a, w, [])
  decommission a (some t) stamp w = (
    record a { last_scale_down = stamp; history = [] },
    Registry.set_draining M t.id w,
    drain_and_terminate t.id t.address t.provider_id ∷ [],
  )

  -- the second half of `checkAndTriggerScale`
  unfoldable pub scale_down : Autoscaler F → ℕ → ℕ → W → Outcome F W
  unfolding decommission target
  scale_down a now stamp w =
      if cooling cfg now a.last_scale_down
      then (a, w, [])
      else if int_leb (pos (length (managed_agents w))) cfg.min_nodes
      then (a, w, [])
      else decommission a (target (managed_agents w)) stamp w

  trigger : ScaleDirection → Autoscaler F → ℕ → ℕ → W → Outcome F W
  trigger neutral a now stamp w = (a, w, [])
  trigger up a now stamp w = try_scale_up a now stamp w
  trigger down a now stamp w = scale_down a now stamp w

  -- `checkAndTriggerScale`; `at` is the reading of the clock in `shouldScale`
  unfoldable pub check_and_trigger_scale : Autoscaler F → ℕ → ℕ → ℕ → W → Outcome F W
  unfolding trigger
  check_and_trigger_scale a at now stamp w =
      trigger (should_scale cfg P.name at (window cfg) a.history (Registry.get_online_agents M w)) a
        now stamp w

module _ {F W : Type 0} ⦃o : Floats F⦄ (M : Memory F W) (C : AgentClient F W)
    (P : CloudProvider F W) (cfg : AutoscaleConfig F) (port : String) where
  -- one round of the loop of `poll` over an agent, from the answer of the agent
  observe : ℕ → Agent F → History F → Result (NodeStatus F) × W → History F × W
  observe now ag history (err e, w) = (history, Registry.set_offline M ag.id w)
  observe now ag history (ok status, w) = (
    if ag.provider == P.name
        then record_sample now (window cfg) ag.id
            (record {
              cpu_percent = status.cpu_percent;
              mem_percent = status.mem_percent;
              at = now;
            })
            history
        else history,
    Registry.update_node_status M ag.id status w,
  )

  unfoldable pub poll_agent : ℕ → Agent F → History F → W → History F × W
  unfolding observe
  poll_agent now ag history w =
      if is_draining ag.status
      then (history, w)
      else observe now ag history (C.get_node_status ag w)

  unfoldable pub poll_agents : ℕ → List (Agent F) → History F → W → History F × W
  unfolding poll_agent
  poll_agents now [] history w = (history, w)
  poll_agents now (ag ∷ agents) history w =
      let (history', w') = poll_agent now ag history w in poll_agents now agents history' w'

  -- `poll`: `start` is its reading of the clock
  unfoldable pub poll : Autoscaler F → ℕ → ℕ → ℕ → ℕ → W → Outcome F W
  unfolding poll_agents check_and_trigger_scale
  poll a start at now stamp w =
      let (history, w') = poll_agents start (Registry.get_all_agents M w) a.history w in
      check_and_trigger_scale M P cfg port (record a { history = history }) at now stamp w'
