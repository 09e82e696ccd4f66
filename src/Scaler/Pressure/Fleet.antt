-- ===== src/Scaler/Pressure/Fleet.antt =====
-- The fleet that `shouldScale` in pkg/resource/scaler.go decides about: the agents that the store
-- lists as online, without the order in which it does.
use mathlib.Core.Equiv.{IsContr}
use mathlib.Core.HLevel.{Σ_prop_path, Π_prop}
use mathlib.Core.Path.{fun_ext}
use mathlib.Core.Quot
use mathlib.Core.Quot.{Quot}
use serverless_flux.Base.{ℕ, String, ◌≡◌, refl, List}
use serverless_flux.Base.Int.{ℤ}
use serverless_flux.Floats.{Floats}
use serverless_flux.Models.{Agent}
use serverless_flux.Config.{AutoscaleConfig}
use serverless_flux.Scaler.Pressure.{ScaleDirection, History, should_scale}
use serverless_flux.Scaler.Pressure.Order.{SameEntries, should_scale-same}

abbrev pub Fleet : Type 0 → Type 0
Fleet F = Quot (SameEntries {A = Agent F})

ScaleDirection-set : IsSet ScaleDirection
ScaleDirection-set = hlevel

module _ {F : Type 0} ⦃o : Floats F⦄ (cfg : AutoscaleConfig F) (provider : String) (now : ℕ)
    (window : ℤ) (history : History F) where
  -- A function of fleets that says of each listing what the code does.
  abbrev pub Decides : (Fleet F → ScaleDirection) → Type 0
  Decides d = (l : List (Agent F)) → d (Quot.mk l) ≡ should_scale cfg provider now window history l

  decide_fleet : Fleet F → ScaleDirection
  decide_fleet =
      Quot.lift ScaleDirection-set (should_scale cfg provider now window history)
        (should_scale-same cfg provider now window history)

  Decides-eq : (d : Fleet F → ScaleDirection) → Decides d → d ≡ decide_fleet
  unfolding decide_fleet
  Decides-eq d h = fun_ext (Quot.ind (λ q. ScaleDirection-set (d q) (decide_fleet q)) (λ l. h l))

  -- The decision is about the fleet: exactly one function of the set of agents, without an order
  -- and without repetitions, says of each listing of the online agents what the autoscaler decides.
  pub Decides-IsContr : IsContr ((d : Fleet F → ScaleDirection) × Decides d)
  unfolding decide_fleet
  Decides-IsContr = (
    (decide_fleet, λ l. refl),
    λ (d, h). Σ_prop_path (λ e. Π_prop (λ l. ScaleDirection-set _ _)) (Decides-eq d h),
  )
