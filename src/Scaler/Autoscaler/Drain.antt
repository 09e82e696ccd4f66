-- ===== src/Scaler/Autoscaler/Drain.antt =====
-- The goroutines of pkg/resource/scaler.go: draining and terminating a node, and bootstrapping one.
use serverless_flux.Base.{
  String, ◌≡◌, refl, ◌≢◌, ◌⊎◌, inl, inr, Bool, true, false, Option, none, some, List, [], ◌∷◌,
  Bool-cases, if◌then◌else◌, ℕ, arith,
}
use serverless_flux.Base.Int.{ℤ, pos, negsuc, int_eqb}
use serverless_flux.Base.Result.{Result, ok, err}
use serverless_flux.Models.{Agent, NodeStatus, online}
use serverless_flux.Client.{AgentClient}
use mathlib.Core.List.{Memᴰ}
use serverless_flux.Memory.{Memory}
use serverless_flux.Registry
use serverless_flux.Scaler.Provider.{ProvisionedNode, CloudProvider}
use serverless_flux.Scaler.NodeTypes.{NodeResources}
use serverless_flux.Floats.{Floats}
use serverless_flux.Config.{AutoscaleConfig}
use serverless_flux.Scaler.Autoscaler.{Autoscaler, Outcome, spawn_node}

-- What the `select` of `drainAndTerminate` receives: a tick, or the end of the drain context,
-- with whether the parent context was cancelled. `other` lets the rest of the system act.
pub data DrainEvent (W : Type 0) : Type 0 where
  tick : DrainEvent W
  done : Bool → DrainEvent W
  other : (W → W) → DrainEvent W

-- Of the first end of the drain context among the events, whether the parent was cancelled.
abbrev pub first_done : {W : Type 0} → List (DrainEvent W) → Option Bool
first_done [] = none
first_done (done b ∷ events) = some b
first_done (tick ∷ events) = first_done events
first_done (other step ∷ events) = first_done events

-- How the loop ends: not yet, by a return, or by `break loop`.
pub data DrainEnd : Type 0 where
  waiting aborted drained timed_out : DrainEnd

int_eqb_zero : (n : ℤ) → int_eqb n (pos 0) ≡ true → n ≡ pos 0
int_eqb_zero (pos n) h = ground arith
int_eqb_zero (negsuc n) h = ground arith

module _ {F W : Type 0} (C : AgentClient F W) where
  -- `&models.Agent{Address: agentAddr}`
  unfoldable pub probe : String → Agent F
  probe address = record {
    id = "";
    address = address;
    active_count = pos 0;
    last_heartbeat = 0;
    status = online;
    provider_id = "";
    instance_type = "";
    provider = "";
    node_status = none;
  }

  -- the answer to a probe shows no active task
  abbrev pub is_idle : Result (NodeStatus F) → Bool
  is_idle (err e) = false
  is_idle (ok status) = int_eqb status.active_tasks (pos 0)

  -- The answer is a status with no active task.
  abbrev pub ShowsNoTask : Result (NodeStatus F) → Type 0
  ShowsNoTask r = (status : NodeStatus F) × (r ≡ ok status) × (status.active_tasks ≡ pos 0)

  is_idle-ShowsNoTask : (r : Result (NodeStatus F)) → is_idle r ≡ true → ShowsNoTask r
  is_idle-ShowsNoTask (err e) h = cc
  is_idle-ShowsNoTask (ok status) h = (status, refl, int_eqb_zero status.active_tasks h)

  unfoldable pub drain : String → List (DrainEvent W) → W → DrainEnd × W
  drain address [] w = (waiting, w)
  drain address (done true ∷ events) w = (aborted, w)
  drain address (done false ∷ events) w = (timed_out, w)
  drain address (other step ∷ events) w = drain address events (step w)
  drain address (tick ∷ events) w =
      let (r, w') = C.get_node_status (probe address) w in
      let rest = drain address events w' in if is_idle r then (drained, w') else rest

  -- A loop whose events end the drain context does not go on waiting.
  pub drain-ne-waiting :
      (address : String) (b : Bool) (events : List (DrainEvent W)) (w : W)
      → Memᴰ (done b) events
      → (drain address events w).0 ≢ waiting
  unfolding drain
  drain-ne-waiting address b [] w m = elim m [ ]
  drain-ne-waiting address b (done true ∷ events) w m = cc
  drain-ne-waiting address b (done false ∷ events) w m = cc
  drain-ne-waiting address b (other step ∷ events) w m =
      drain-ne-waiting address b events (step w) (later m)
    where
      later : Memᴰ (done b) (other step ∷ events) → Memᴰ (done b) events
      later (Memᴰ.head p) = cc
      later (Memᴰ.tail n) = n
  drain-ne-waiting address b (tick ∷ events) w m =
      elim (Bool-cases (is_idle (C.get_node_status (probe address) w).0)) [
        | inl e ↦ rw e (λ p. cc)
        | inr e ↦ rw e (drain-ne-waiting address b events _ (later m))
      ]
    where
      later : Memᴰ (done b) (tick ∷ events) → Memᴰ (done b) events
      later (Memᴰ.head p) = cc
      later (Memᴰ.tail n) = n

  -- The end that the loop reports for the end of the drain context.
  abbrev End : Bool → DrainEnd
  End true = aborted
  End false = timed_out

  drain-ended :
      (b : Bool) (address : String) (events : List (DrainEvent W)) (w : W)
      → (drain address events w).0 ≡ End b
      → first_done events ≡ some b
  unfolding drain
  drain-ended true address [] w e = cc
  drain-ended false address [] w e = cc
  drain-ended true address (done true ∷ events) w e = refl
  drain-ended false address (done true ∷ events) w e = cc
  drain-ended true address (done false ∷ events) w e = cc
  drain-ended false address (done false ∷ events) w e = refl
  drain-ended b address (other step ∷ events) w e = drain-ended b address events (step w) e
  drain-ended true address (tick ∷ events) w e =
      elim (Bool-cases (is_idle (C.get_node_status (probe address) w).0)) [
        | inl t ↦ cc (rw t at e)
        | inr f ↦ drain-ended true address events _ (rw f at e)
      ]
  drain-ended false address (tick ∷ events) w e =
      elim (Bool-cases (is_idle (C.get_node_status (probe address) w).0)) [
        | inl t ↦ cc (rw t at e)
        | inr f ↦ drain-ended false address events _ (rw f at e)
      ]

  -- The loop reports a drained node only after a probe that showed no active task, and leaves the
  -- world as that probe left it.
  drain-drained :
      (address : String) (events : List (DrainEvent W)) (w : W)
      → (drain address events w).0 ≡ drained
      → (v : W) × ShowsNoTask (C.get_node_status (probe address) v).0
        × ((drain address events w).1 ≡ (C.get_node_status (probe address) v).1)
  unfolding drain
  drain-drained address [] w e = cc
  drain-drained address (done true ∷ events) w e = cc
  drain-drained address (done false ∷ events) w e = cc
  drain-drained address (other step ∷ events) w e = drain-drained address events (step w) e
  drain-drained address (tick ∷ events) w e =
      elim (Bool-cases (is_idle (C.get_node_status (probe address) w).0)) [
        | inl t ↦ (w, is_idle-ShowsNoTask _ t, rw t)
        | inr f ↦ rw f (drain-drained address events _ (rw f at e))
      ]

module _ {F W : Type 0} (M : Memory F W) (C : AgentClient F W) (P : CloudProvider F W) where
  -- what follows the loop: deregister, then terminate
  finish : String → String → DrainEnd → W → W
  finish id provider_id waiting w = w
  finish id provider_id aborted w = w
  finish id provider_id _ w = (P.terminate_node provider_id (Registry.deregister_agent M id w)).1

  -- `drainAndTerminate`, as far as the events lead
  unfoldable pub run_drain_and_terminate :
      String → String → String → List (DrainEvent W) → W → DrainEnd × W
  unfolding finish
  run_drain_and_terminate id address provider_id events w =
      let (end, w') = drain C address events w in (end, finish id provider_id end w')

  -- Draining and terminating a node, once the drain context has ended, comes to one of three ends.
  -- The first end of the context was a cancellation of the parent, and nothing was deregistered or
  -- terminated; or it was not, and the time was up; or a probe showed no active task. In the last
  -- two cases the agent is deregistered first and then terminated.
  pub run_drain_and_terminate_cases :
      (id address provider_id : String) (b : Bool) (events : List (DrainEvent W)) (w : W)
      → Memᴰ (done b) events
      → let r = run_drain_and_terminate id address provider_id events w in
        let v = (drain C address events w).1 in
        let ended = (P.terminate_node provider_id (Registry.deregister_agent M id v)).1 in
        ((r.0 ≡ aborted) × (r.1 ≡ v) × (first_done events ≡ some true))
        ⊎ ((r.0 ≡ timed_out) × (r.1 ≡ ended) × (first_done events ≡ some false))
        ⊎ ((r.0 ≡ drained)
            × (r.1 ≡ ended)
            × ((u : W) × ShowsNoTask C (C.get_node_status (probe C address) u).0
                × (v ≡ (C.get_node_status (probe C address) u).1)))
  unfolding run_drain_and_terminate
  run_drain_and_terminate_cases id address provider_id b events w m =
      by (drain C address events w).0 refl
    where
      by :
          (d : DrainEnd)
          → (drain C address events w).0 ≡ d
          → let r = run_drain_and_terminate id address provider_id events w in
            let v = (drain C address events w).1 in
            let ended = (P.terminate_node provider_id (Registry.deregister_agent M id v)).1 in
            ((r.0 ≡ aborted) × (r.1 ≡ v) × (first_done events ≡ some true))
            ⊎ ((r.0 ≡ timed_out) × (r.1 ≡ ended) × (first_done events ≡ some false))
            ⊎ ((r.0 ≡ drained)
                × (r.1 ≡ ended)
                × ((u : W) × ShowsNoTask C (C.get_node_status (probe C address) u).0
                    × (v ≡ (C.get_node_status (probe C address) u).1)))
      by waiting e = absurd (drain-ne-waiting C address b events w m e)
      by aborted e = inl (e, rw (e, finish), drain-ended C true address events w e)
      by timed_out e = inr (inl (e, rw (e, finish), drain-ended C false address events w e))
      by drained e = inr (inr (e, rw (e, finish), drain-drained C address events w e))

  -- the goroutine of `spawnNode`: a node that cannot be bootstrapped is deregistered and terminated
  unwind : ProvisionedNode → Result (Unit {0}) × W → W
  unwind node (ok _, w) = w
  unwind node (err e, w) =
      (P.terminate_node node.provider_id (Registry.deregister_agent M node.agent_id w)).1

  unfoldable pub run_bootstrap : ProvisionedNode → W → W
  unfolding unwind
  run_bootstrap node w = unwind node (P.bootstrap node w)

module _ {F W : Type 0} ⦃o : Floats F⦄ (M : Memory F W) (C : AgentClient F W)
    (P : CloudProvider F W) (cfg : AutoscaleConfig F) (port : String) where
  spawn_after : Autoscaler F → NodeResources F → ℕ → DrainEnd × W → Outcome F W
  spawn_after a resources stamp (waiting, w) = (a, w, [])
  spawn_after a resources stamp (_, w) = spawn_node M P cfg port a resources stamp w

  -- the goroutine of `tryScaleUp`: the new node is spawned however the draining ended
  unfoldable pub run_drain_and_replace :
      Autoscaler F
      → String
      → String
      → String
      → NodeResources F
      → List (DrainEvent W)
      → ℕ
      → W
      → Outcome F W
  unfolding spawn_after
  run_drain_and_replace a id address provider_id resources events stamp w =
      spawn_after a resources stamp (run_drain_and_terminate M C P id address provider_id events w)
