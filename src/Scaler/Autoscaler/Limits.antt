-- ===== src/Scaler/Autoscaler/Limits.antt =====
-- When the autoscaler of pkg/resource/scaler.go acts, and on which node.
use mathlib.Core.List.{Memᴰ}
use serverless_flux.Base.{
  ℕ, String, ◌≡◌, ◌↔◌, arith, refl, ◌≢◌, inl, inr, true, false, some, List, [], ◌∷◌, length, ◌==◌,
  Bool-cases, Option-cases, All, mem-keep,
}
use serverless_flux.Base.Select.{choose_lem}
use serverless_flux.Base.Int.{pos, int_ltb, int_leb}
use serverless_flux.Floats.{Floats, FloatLaws, IsNumber}
use serverless_flux.Models.{draining, status_eq, Agent, pressure}
use serverless_flux.Config.{AutoscaleConfig}
use serverless_flux.Memory.{Memory}
use serverless_flux.Registry
use serverless_flux.Registry.{is_draining}
use serverless_flux.Scaler.Provider.{CloudProvider}
use serverless_flux.Scaler.Pressure.{ScaleDirection, up, neutral, down, should_scale}
use serverless_flux.Scaler.Autoscaler.{
  Autoscaler, drain_and_terminate, Outcome, window, cooling, removable, less_pressed, target,
  managed_agents, try_scale_up, decommission, scale_down, trigger, check_and_trigger_scale,
}

module _ {F : Type 0} ⦃o : Floats F⦄ where
  -- The pressure of the agent is a number.
  abbrev pub HasPressure : Agent F → Type 0
  HasPressure a = IsNumber (pressure a)

-- The agent has no active task and is not draining.
abbrev pub IsIdle : {F : Type 0} → Agent F → Type 0
IsIdle a = (int_ltb (pos 0) a.active_count ≡ false) × (status_eq a.status draining ≡ false)

removable_iff : {F : Type 0} ⦃o : Floats F⦄ → (a : Agent F) → (removable a ≡ true) ↔ IsIdle a
removable_iff a = ground arith

module _ {F : Type 0} ⦃o : Floats F⦄ (L : FloatLaws F o) where
  -- The node that a scale-down removes is idle and not draining, and no such node has a lower
  -- pressure.
  target_least :
      (agents : List (Agent F)) (t : Agent F)
      → All HasPressure agents
      → target agents ≡ some t
      → Memᴰ t agents
        × IsIdle t
        × ((x : Agent F) → Memᴰ x agents → IsIdle x → o.flt (pressure x) (pressure t) ≡ false)
  unfolding target
  target_least agents t n e =
      let (m, r, least) =
        choose_lem less_pressed HasPressure (λ x y. L.flt_asymm (pressure x) (pressure y))
          (λ x. L.flt_irrefl (pressure x))
          (λ x y z. L.not_flt_trans (pressure x) (pressure y) (pressure z)) removable agents t n
          e in
      (m, (removable_iff t).0 r, λ x there i. least x there ((removable_iff x).1 i))

module _ {F W : Type 0} ⦃o : Floats F⦄ (M : Memory F W) (P : CloudProvider F W)
    (cfg : AutoscaleConfig F) (port : String) (a : Autoscaler F) where
  -- While both cooldowns run, a check changes neither the autoscaler nor the world and starts
  -- nothing, whatever the metrics say.
  pub check_and_trigger_scale-cooling :
      (at now stamp : ℕ) (w : W)
      → cooling cfg now a.last_scale_up ≡ true
      → cooling cfg now a.last_scale_down ≡ true
      → check_and_trigger_scale M P cfg port a at now stamp w ≡ (a, w, [])
  unfolding check_and_trigger_scale try_scale_up scale_down
  check_and_trigger_scale-cooling at now stamp w u d =
      split (should_scale cfg P.name at (window cfg) a.history (Registry.get_online_agents M w))
    where
      split : (s : ScaleDirection) → trigger M P cfg port s a now stamp w ≡ (a, w, [])
      split neutral = unfold trigger in refl
      split up = unfold trigger in rw u
      split down = unfold trigger in rw d

  pub managed-provider :
      (w : W) (x : Agent F)
      → Memᴰ x (managed_agents M P cfg port w)
      → Memᴰ x (Registry.get_all_agents M w) × ((x.provider == P.name) ≡ true)
  unfolding managed_agents
  managed-provider w x m = mem-keep (λ y. y.provider == P.name) x _ m

  -- A removal: its node belongs to the provider, is idle and not draining, and has no higher
  -- pressure than any other such node; there were more nodes than the minimum, and the cooldown
  -- was over. The node is set to draining, and one goroutine is started, which terminates it.
  pub record IsRemoval (now stamp : ℕ) (w : W) (r : Outcome F W) : Type 0 where
    pub node : Agent F
    pub listed : Memᴰ node (Registry.get_all_agents M w)
    pub own : (node.provider == P.name) ≡ true
    pub idle : IsIdle node
    pub least :
        (x : Agent F)
        → Memᴰ x (managed_agents M P cfg port w)
        → IsIdle x
        → o.flt (pressure x) (pressure node) ≡ false
    pub above_min : int_leb (pos (length (managed_agents M P cfg port w))) cfg.min_nodes ≡ false
    pub rested : cooling cfg now a.last_scale_down ≡ false
    pub result : r ≡ (
      record a { last_scale_down = stamp; history = [] },
      Registry.set_draining M node.id w,
      drain_and_terminate node.id node.address node.provider_id ∷ [],
    )

  -- If the pressures of the managed nodes are numbers, a scale-down that starts a goroutine is a
  -- removal.
  pub scale_down-IsRemoval :
      FloatLaws F o
      → (now stamp : ℕ) (w : W) → All HasPressure (managed_agents M P cfg port w)
      → (scale_down M P cfg port a now stamp w).2 ≢ []
      → IsRemoval now stamp w (scale_down M P cfg port a now stamp w)
  unfolding scale_down
  scale_down-IsRemoval L now stamp w n h = elim (Bool-cases (cooling cfg now a.last_scale_down)) [
    | inl c ↦ absurd (h (rw c))
    | inr c ↦
        elim (Bool-cases (int_leb (pos (length (managed_agents M P cfg port w))) cfg.min_nodes)) [
          | inl m ↦ absurd (h (rw (c, m)))
          | inr m ↦ elim (Option-cases (target (managed_agents M P cfg port w))) [
            | inl e ↦ absurd (h (rw (c, m, e, decommission)))
            | inr (t, e) ↦
                let (there, fit, least) = target_least L (managed_agents M P cfg port w) t n e in
                let (listed, own) = managed-provider w t there in
                record {
                  node = t;
                  listed = listed;
                  own = own;
                  idle = fit;
                  least = least;
                  above_min = m;
                  rested = c;
                  result = rw (c, m, e, decommission);
                }
          ]
        ]
  ]
