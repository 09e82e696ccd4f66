-- ===== src/Scaler/Autoscaler/Monitor/Falls.antt =====
-- How far apart the rounds are in which the loop of `Start` removes a node, in
-- pkg/resource/scaler.go.
use serverless_flux.Base.{
  ℕ, ◌≤◌, String, ◌≡◌, refl, inl, inr, Bool, true, false, Option, none, some, List, [],
  if◌then◌else◌, length, find,
}
use serverless_flux.Base.Int.{pos, int_ltb, int_leb}
use serverless_flux.Base.Result.{Result, ok, err}
use serverless_flux.Floats.{Floats}
use serverless_flux.Models.{Agent}
use serverless_flux.Config.{AutoscaleConfig}
use serverless_flux.Memory.{Memory}
use serverless_flux.Client.{AgentClient}
use serverless_flux.Registry
use serverless_flux.Scaler.NodeTypes.{smallest_node_resources}
use serverless_flux.Scaler.Provider.{ProvisionedNode, CloudProvider}
use serverless_flux.Scaler.Pressure.{ScaleDirection, up, neutral, down}
use serverless_flux.Scaler.Autoscaler.{
  Autoscaler, Outcome, Task, bootstrap, drain_and_replace, drain_and_terminate, cooling, upgradable,
  target, managed_agents, register_spawned, spawn_node, upgrade, try_scale_up, decommission,
  scale_down, trigger, check_and_trigger_scale, poll_agents, poll,
}
use serverless_flux.Scaler.Autoscaler.Monitor.{
  Beat, InOrder, Spaced, Moves, instants, instants-Spaced,
}

-- the task that takes a node away
abbrev pub shrinks : {F : Type 0} → Task F → Bool
shrinks (bootstrap node) = false
shrinks (drain_and_replace id address provider_id resources) = false
shrinks (drain_and_terminate id address provider_id) = true

module _ {F W : Type 0} ⦃o : Floats F⦄ (M : Memory F W) (C : AgentClient F W)
    (P : CloudProvider F W) (cfg : AutoscaleConfig F) (port : String) where
  abbrev Fall : ℕ → ℕ → Autoscaler F → Outcome F W → Type 0
  Fall = Moves M C P cfg port (λ a. a.last_scale_down) shrinks

  register_spawned-leaves :
      (a : Autoscaler F) (now stamp : ℕ) (r : Result ProvisionedNode × W)
      → Fall now stamp a (register_spawned M P cfg port a stamp r)
  unfolding register_spawned
  register_spawned-leaves a now stamp (err e, w) = inl (refl, refl)
  register_spawned-leaves a now stamp (ok node, w) = inl (refl, refl)

  upgrade-leaves :
      (a : Autoscaler F) (c : Option (Agent F)) (now stamp : ℕ) (w : W)
      → Fall now stamp a (upgrade M P cfg port a c stamp w)
  unfolding upgrade
  upgrade-leaves a none now stamp w = inl (refl, refl)
  upgrade-leaves a (some c) now stamp w = inl (refl, refl)

  try_scale_up-leaves :
      (a : Autoscaler F) (now stamp : ℕ) (w : W)
      → Fall now stamp a (try_scale_up M P cfg port a now stamp w)
  unfolding try_scale_up spawn_node
  try_scale_up-leaves a now stamp w =
      by (cooling cfg now a.last_scale_up)
        (int_ltb (pos (length (managed_agents M P cfg port w))) cfg.max_nodes)
    where
      by :
          (b c : Bool)
          → Fall now stamp a (
              if b
              then (a, w, [])
              else if c
              then spawn_node M P cfg port
                  (record a { last_scale_up = stamp })
                  (smallest_node_resources cfg.node_types)
                  stamp
                  w
              else upgrade M P cfg port a
                  (find (upgradable cfg) (managed_agents M P cfg port w))
                  stamp
                  w)
      by true c = inl (refl, refl)
      by false true =
          register_spawned-leaves (record a { last_scale_up = stamp }) now stamp
            (P.spawn_node (smallest_node_resources cfg.node_types) w)
      by false false =
          upgrade-leaves a (find (upgradable cfg) (managed_agents M P cfg port w)) now stamp w

  decommission-Fall :
      (a : Autoscaler F) (t : Option (Agent F)) (now stamp : ℕ) (w : W)
      → cooling cfg now a.last_scale_down ≡ false
      → Fall now stamp a (decommission M P cfg port a t stamp w)
  unfolding decommission
  decommission-Fall a none now stamp w h = inl (refl, refl)
  decommission-Fall a (some t) now stamp w h = inr (refl, h)

  scale_down-Fall :
      (a : Autoscaler F) (now stamp : ℕ) (w : W)
      → Fall now stamp a (scale_down M P cfg port a now stamp w)
  unfolding scale_down
  scale_down-Fall a now stamp w =
      by (cooling cfg now a.last_scale_down)
        (int_leb (pos (length (managed_agents M P cfg port w))) cfg.min_nodes) refl
    where
      by :
          (b c : Bool)
          → cooling cfg now a.last_scale_down ≡ b
          → Fall now stamp a (
              if b
              then (a, w, [])
              else if c
              then (a, w, [])
              else decommission M P cfg port a (target (managed_agents M P cfg port w)) stamp w)
      by true c h = inl (refl, refl)
      by false true h = inl (refl, refl)
      by false false h = decommission-Fall a (target (managed_agents M P cfg port w)) now stamp w h

  trigger-Fall :
      (d : ScaleDirection) (a : Autoscaler F) (now stamp : ℕ) (w : W)
      → Fall now stamp a (trigger M P cfg port d a now stamp w)
  unfolding trigger
  trigger-Fall neutral a now stamp w = inl (refl, refl)
  trigger-Fall up a now stamp w = try_scale_up-leaves a now stamp w
  trigger-Fall down a now stamp w = scale_down-Fall a now stamp w

  poll-Fall :
      (a : Autoscaler F) (start at now stamp : ℕ) (w : W)
      → Fall now stamp a (poll M C P cfg port a start at now stamp w)
  unfolding poll check_and_trigger_scale
  poll-Fall a start at now stamp w =
      let (history, v) =
        poll_agents M C P cfg port start (Registry.get_all_agents M w) a.history w in
      trigger-Fall _ (record a { history = history }) now stamp v

  -- Where the clock does not run back, the rounds in which an autoscaler removes a node, the first
  -- one counted from its last scale-down before, are never closer to one another than the cooldown,
  -- whatever the agents report, the provider answers and the rest of the system does.
  pub scale_downs-Spaced :
      (beats : List (Beat W)) (t : ℕ) (a : Autoscaler F) (w : W)
      → a.last_scale_down ≤ t
      → InOrder M C P cfg port t beats
      → Spaced M C P cfg port a.last_scale_down (instants M C P cfg port shrinks beats a w)
  scale_downs-Spaced beats t a w k h =
      instants-Spaced M C P cfg port (λ b. b.last_scale_down) shrinks (λ b. refl) poll-Fall beats t
        a w k h
