-- ===== src/Scaler/Autoscaler/Monitor.antt =====
-- `Start` of pkg/resource/scaler.go: the loop that polls at each tick until its context ends, and
-- how far apart the rounds are in which it launches a node.
pub mod Falls
use serverless_flux.Base.{
  ℕ, ◌≤◌, String, ◌≡◌, refl, sym, subst, ◌⊎◌, inl, inr, Bool, true, false, Bool-cases, Option, none,
  some, List, [], ◌∷◌, ◌++◌, any, if◌then◌else◌, arith, length, find,
}
use serverless_flux.Base.Int.{ℤ, pos, negsuc, int_ltb, int_leb, time_sub, seconds}
use serverless_flux.Base.Result.{Result, ok, err}
use serverless_flux.Floats.{Floats}
use serverless_flux.Models.{Agent}
use serverless_flux.Config.{AutoscaleConfig}
use serverless_flux.Memory.{Memory}
use serverless_flux.Client.{AgentClient}
use serverless_flux.Registry
use serverless_flux.Scaler.NodeTypes.{smallest_node_resources}
use serverless_flux.Scaler.Provider.{ProvisionedNode, CloudProvider}
use serverless_flux.Scaler.Pressure.{ScaleDirection, up, neutral, down}
use serverless_flux.Scaler.Autoscaler.{
  Autoscaler, Task, bootstrap, drain_and_replace, drain_and_terminate, Outcome, cooling, upgradable,
  target, managed_agents, register_spawned, spawn_node, upgrade, try_scale_up, decommission,
  scale_down, trigger, check_and_trigger_scale, poll_agents, poll,
}

-- What the `select` of the loop receives: the end of the context, or a tick, before which the rest
-- of the system changed the world, with the four readings of the clock that `poll` makes. Between
-- them, `spawnNode` in the goroutine of `tryScaleUp` clears the history of the loop.
pub data Beat (W : Type 0) : Type 0 where
  stopped cleared : Beat W
  ticked : (W → W) → ℕ → ℕ → ℕ → ℕ → Beat W

-- the tasks that bring a node
abbrev pub grows : {F : Type 0} → Task F → Bool
grows (bootstrap node) = true
grows (drain_and_replace id address provider_id resources) = true
grows (drain_and_terminate id address provider_id) = false

module _ {F W : Type 0} ⦃o : Floats F⦄ (M : Memory F W) (C : AgentClient F W)
    (P : CloudProvider F W) (cfg : AutoscaleConfig F) (port : String) where
  -- the tasks of a round, and those of the later ones
  abbrev pub also : List (Task F) → Outcome F W → Outcome F W
  also tasks (a, w, later) = (a, w, tasks ++ later)

  -- the goroutine of `Start`, with the tasks that it starts
  unfoldable pub monitor : List (Beat W) → Autoscaler F → W → Outcome F W
  monitor [] a w = (a, w, [])
  monitor (stopped ∷ beats) a w = (a, w, [])
  monitor (cleared ∷ beats) a w = monitor beats (record a { history = [] }) w
  monitor (ticked step start at now stamp ∷ beats) a w =
      let (a', w', tasks) = poll M C P cfg port a start at now stamp (step w) in
      also tasks (monitor beats a' w')

  -- the instants of the rounds of the loop that start a task of the given kind, one after the
  -- other
  unfoldable pub instants : (Task F → Bool) → List (Beat W) → Autoscaler F → W → List ℕ
  instants kind [] a w = []
  instants kind (stopped ∷ beats) a w = []
  instants kind (cleared ∷ beats) a w = instants kind beats (record a { history = [] }) w
  instants kind (ticked step start at now stamp ∷ beats) a w =
      let (a', w', tasks) = poll M C P cfg port a start at now stamp (step w) in
      let rest = instants kind beats a' w' in if any kind tasks then stamp ∷ rest else rest

  -- the clock does not run back, from the given instant on
  abbrev pub InOrder : ℕ → List (Beat W) → Type 0
  InOrder t [] = Unit {0}
  InOrder t (stopped ∷ beats) = Unit {0}
  InOrder t (cleared ∷ beats) = InOrder t beats
  InOrder t (ticked step start at now stamp ∷ beats) =
      (t ≤ now) × (now ≤ stamp) × InOrder stamp beats

  -- no instant is closer to the one before it than the cooldown
  abbrev pub Spaced : ℕ → List ℕ → Type 0
  Spaced last [] = Unit {0}
  Spaced last (t ∷ ts) =
      (int_ltb (time_sub t last) (seconds cfg.cooldown_sec) ≡ false) × Spaced t ts

  -- A step of a round leaves an instant as it was and starts no task of the kind, or, the cooldown
  -- since that instant being over, moves it to the present.
  abbrev pub Moves :
      (Autoscaler F → ℕ) → (Task F → Bool) → ℕ → ℕ → Autoscaler F → Outcome F W → Type 0
  Moves last kind now stamp a r =
      ((last r.0 ≡ last a) × (any kind r.2 ≡ false))
      ⊎ ((last r.0 ≡ stamp) × (cooling cfg now (last a) ≡ false))

  -- what was over since an instant is over at a later one, and since an earlier one
  rested-later :
      (now stamp last l : ℕ) (d : ℤ)
      → now ≤ stamp
      → l ≤ last
      → int_ltb (time_sub now last) d ≡ false
      → int_ltb (time_sub stamp l) d ≡ false
  unfolding time_sub
  rested-later now stamp last l (pos d) h m k = ground arith
  rested-later now stamp last l (negsuc d) h m k = ground arith

  Spaced-earlier : (last l : ℕ) (ts : List ℕ) → l ≤ last → Spaced last ts → Spaced l ts
  Spaced-earlier last l [] m s = tt
  Spaced-earlier last l (t ∷ ts) m (s, rest) =
      (rested-later t t last l (seconds cfg.cooldown_sec) (omega arith) m s, rest)

  Spaced-step :
      (last now stamp next : ℕ) (b : Bool) (ts : List ℕ)
      → last ≤ now
      → now ≤ stamp
      → ((next ≡ last) × (b ≡ false)) ⊎ ((next ≡ stamp) × (cooling cfg now last ≡ false))
      → Spaced next ts
      → Spaced last (if b then stamp ∷ ts else ts)
  Spaced-step last now stamp next b ts k h (inl (e, q)) s = rw q (subst (λ x. Spaced x ts) e s)
  Spaced-step last now stamp next true ts k h (inr (e, c)) s = (
    rested-later now stamp last last (seconds cfg.cooldown_sec) h (omega arith) c,
    subst (λ x. Spaced x ts) e s,
  )
  Spaced-step last now stamp next false ts k h (inr (e, c)) s =
      Spaced-earlier stamp last ts (omega arith) (subst (λ x. Spaced x ts) e s)

  next-le :
      (last now stamp next : ℕ) (b : Bool)
      → last ≤ now
      → now ≤ stamp
      → ((next ≡ last) × (b ≡ false)) ⊎ ((next ≡ stamp) × (cooling cfg now last ≡ false))
      → next ≤ stamp
  next-le last now stamp next b k h (inl (e, q)) = omega arith
  next-le last now stamp next b k h (inr (e, c)) = omega arith

  -- Where a round moves an instant as above, and the clearing of the history leaves it, the rounds
  -- that start a task of the kind are spaced.
  pub instants-Spaced :
      (last : Autoscaler F → ℕ) (kind : Task F → Bool)
      → ((a : Autoscaler F) → last (record a { history = [] }) ≡ last a)
      → ((a : Autoscaler F) (start at now stamp : ℕ) (w : W)
          → Moves last kind now stamp a (poll M C P cfg port a start at now stamp w))
      → (beats : List (Beat W)) (t : ℕ) (a : Autoscaler F) (w : W) → last a ≤ t
      → InOrder t beats
      → Spaced (last a) (instants kind beats a w)
  unfolding instants
  instants-Spaced last kind keeps moves [] t a w k h = tt
  instants-Spaced last kind keeps moves (stopped ∷ beats) t a w k h = tt
  instants-Spaced last kind keeps moves (cleared ∷ beats) t a w k h =
      let e = keeps a in
      let b = record a { history = [] } in
      subst (λ x. Spaced x (instants kind beats b w)) e
        (instants-Spaced last kind keeps moves beats t b w (subst (λ x. x ≤ t) (sym e) k) h)
  instants-Spaced last kind keeps moves (ticked step start at now stamp ∷ beats) t a w k
        (g, h, hs) =
      let (a', w', tasks) = poll M C P cfg port a start at now stamp (step w) in
      let m = moves a start at now stamp (step w) in
      let l : last a ≤ now = omega arith in
      Spaced-step (last a) now stamp (last a') (any kind tasks) (instants kind beats a' w') l h m (
        instants-Spaced last kind keeps moves beats stamp a' w'
          (next-le (last a) now stamp (last a') (any kind tasks) l h m) hs)

  abbrev Rise : ℕ → ℕ → Autoscaler F → Outcome F W → Type 0
  Rise = Moves (λ a. a.last_scale_up) grows

  register_spawned-keeps :
      (a : Autoscaler F) (stamp : ℕ) (r : Result ProvisionedNode × W)
      → (register_spawned M P cfg port a stamp r).0.last_scale_up ≡ a.last_scale_up
  unfolding register_spawned
  register_spawned-keeps a stamp (err e, w) = refl
  register_spawned-keeps a stamp (ok node, w) = refl

  upgrade-Rise :
      (a : Autoscaler F) (c : Option (Agent F)) (now stamp : ℕ) (w : W)
      → cooling cfg now a.last_scale_up ≡ false
      → Rise now stamp a (upgrade M P cfg port a c stamp w)
  unfolding upgrade
  upgrade-Rise a none now stamp w h = inl (refl, refl)
  upgrade-Rise a (some c) now stamp w h = inr (refl, h)

  try_scale_up-Rise :
      (a : Autoscaler F) (now stamp : ℕ) (w : W)
      → Rise now stamp a (try_scale_up M P cfg port a now stamp w)
  unfolding try_scale_up spawn_node
  try_scale_up-Rise a now stamp w =
      by (cooling cfg now a.last_scale_up)
        (int_ltb (pos (length (managed_agents M P cfg port w))) cfg.max_nodes) refl
    where
      by :
          (b c : Bool)
          → cooling cfg now a.last_scale_up ≡ b
          → Rise now stamp a (
              if b
              then (a, w, [])
              else if c
              then spawn_node M P cfg port
                  (record a { last_scale_up = stamp })
                  (smallest_node_resources cfg.node_types)
                  stamp
                  w
              else upgrade M P cfg port a
                  (find (upgradable cfg) (managed_agents M P cfg port w))
                  stamp
                  w)
      by true c h = inl (refl, refl)
      by false true h = inr (
        register_spawned-keeps (record a { last_scale_up = stamp }) stamp
            (P.spawn_node (smallest_node_resources cfg.node_types) w),
        h,
      )
      by false false h =
          upgrade-Rise a (find (upgradable cfg) (managed_agents M P cfg port w)) now stamp w h

  decommission-keeps :
      (a : Autoscaler F) (t : Option (Agent F)) (now stamp : ℕ) (w : W)
      → Rise now stamp a (decommission M P cfg port a t stamp w)
  unfolding decommission
  decommission-keeps a none now stamp w = inl (refl, refl)
  decommission-keeps a (some t) now stamp w = inl (refl, refl)

  scale_down-keeps :
      (a : Autoscaler F) (now stamp : ℕ) (w : W)
      → Rise now stamp a (scale_down M P cfg port a now stamp w)
  unfolding scale_down
  scale_down-keeps a now stamp w =
      by (cooling cfg now a.last_scale_down)
        (int_leb (pos (length (managed_agents M P cfg port w))) cfg.min_nodes)
    where
      by :
          (b c : Bool)
          → Rise now stamp a (
              if b
              then (a, w, [])
              else if c
              then (a, w, [])
              else decommission M P cfg port a (target (managed_agents M P cfg port w)) stamp w)
      by true c = inl (refl, refl)
      by false true = inl (refl, refl)
      by false false = decommission-keeps a (target (managed_agents M P cfg port w)) now stamp w

  trigger-Rise :
      (d : ScaleDirection) (a : Autoscaler F) (now stamp : ℕ) (w : W)
      → Rise now stamp a (trigger M P cfg port d a now stamp w)
  unfolding trigger
  trigger-Rise neutral a now stamp w = inl (refl, refl)
  trigger-Rise up a now stamp w = try_scale_up-Rise a now stamp w
  trigger-Rise down a now stamp w = scale_down-keeps a now stamp w

  poll-Rise :
      (a : Autoscaler F) (start at now stamp : ℕ) (w : W)
      → Rise now stamp a (poll M C P cfg port a start at now stamp w)
  unfolding poll check_and_trigger_scale
  poll-Rise a start at now stamp w =
      let (history, v) =
        poll_agents M C P cfg port start (Registry.get_all_agents M w) a.history w in
      trigger-Rise _ (record a { history = history }) now stamp v

  -- Where the clock does not run back, the rounds in which an autoscaler launches or replaces a
  -- node, the first one counted from its last scale-up before, are never closer to one another than
  -- the cooldown, whatever the agents report, the provider answers and the rest of the system does.
  pub scale_ups-Spaced :
      (beats : List (Beat W)) (t : ℕ) (a : Autoscaler F) (w : W)
      → a.last_scale_up ≤ t
      → InOrder t beats
      → Spaced a.last_scale_up (instants grows beats a w)
  scale_ups-Spaced beats t a w k h =
      instants-Spaced (λ b. b.last_scale_up) grows (λ b. refl) poll-Rise beats t a w k h
