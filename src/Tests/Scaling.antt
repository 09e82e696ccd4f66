-- ===== src/Tests/Scaling.antt =====
-- The theorems on node types, the autoscaler and its goroutines at concrete data.
use mathlib.Core.List.{Memᴰ}
use serverless_flux.Base.{ℕ, ◌≡◌, refl, ◌↔◌, ◌≢◌, false, [], ◌∷◌, arith, All}
use serverless_flux.Base.Dict
use serverless_flux.Base.Int.{pos, time_sub}
use serverless_flux.Base.Result.{ok}
use serverless_flux.Floats.{whole_floats, whole_floats-FloatLaws}
use serverless_flux.Config.{NodeTypeConfig}
use serverless_flux.Scaler.NodeTypes.{NodeResources}
use serverless_flux.Scaler.Catalog.{
  too_small, invalid, candidate_of, candidates, select_instance_type,
}
use serverless_flux.Scaler.Catalog.TightestFit.{select_instance_type_tightest}
use serverless_flux.Scaler.Pressure.{
  ScaleDirection, up, down, neutral, Sample, History, trim, record_sample, should_scale,
}
use serverless_flux.Scaler.Pressure.Decision.{
  managed, Ready, IsHot, IsCold, should_scale-up_iff, should_scale-down_iff,
}
use mathlib.Core.Equiv.{IsContr}
use serverless_flux.Scaler.Pressure.Fleet.{Fleet, Decides, Decides-IsContr}
use serverless_flux.Models.{Agent}
use serverless_flux.Scaler.Pressure.Window.{HasBoundarySample, should_scale-HasBoundarySample}
use serverless_flux.Tests.Sort.{sort, sort_laws}
use serverless_flux.Tests.Fleet.{idle, small, large, config}

abbrev need : NodeResources ℕ
need = record { vcpus = pos 1; memory_gb = 3 }

selected : select_instance_type sort (large ∷ small ∷ []) need ≡ ok "small"
unfolding select_instance_type sort
selected = refl

select_instance_type_tightest_example :
    (invalid need ≡ false)
    × ((e : NodeTypeConfig ℕ) × Memᴰ e (large ∷ small ∷ [])
        × (e.instance_type ≡ "small")
        × (too_small e need ≡ false)
        × ((x : NodeTypeConfig ℕ)
            → Memᴰ x (large ∷ small ∷ [])
            → too_small x need ≡ false
            → whole_floats.flt (candidate_of need x).score (candidate_of need e).score ≡ false))
unfolding candidates
select_instance_type_tightest_example =
    select_instance_type_tightest whole_floats-FloatLaws sort sort_laws (large ∷ small ∷ []) need
      "small" (ground arith) selected

abbrev sample : ℕ → ℕ → Sample ℕ
sample load at = record { cpu_percent = load; mem_percent = load; at = at }

-- one busy agent, with samples that are 60 and 10 old at 100
abbrev busy_history : History ℕ
busy_history = ("a1", sample 95 40 ∷ sample 90 90 ∷ []) ∷ []

should_scale-up_iff_example :
    (should_scale (config 3 1) "aws" 100 (pos 60) busy_history (idle ∷ []) ≡ up) ↔ (
      (managed "aws" (idle ∷ []) ≢ [])
      × All (Ready 100 (pos 60) busy_history) (managed "aws" (idle ∷ []))
      × All (IsHot (config 3 1) 100 (pos 60) busy_history) (managed "aws" (idle ∷ [])))
should_scale-up_iff_example =
    should_scale-up_iff (config 3 1) "aws" 100 (pos 60) busy_history (idle ∷ [])

should_scale-down_iff_example :
    (should_scale (config 3 1) "aws" 100 (pos 60) busy_history (idle ∷ []) ≡ down) ↔ (
      (managed "aws" (idle ∷ []) ≢ [])
      × All (Ready 100 (pos 60) busy_history) (managed "aws" (idle ∷ []))
      × All (IsCold (config 3 1) 100 (pos 60) busy_history) (managed "aws" (idle ∷ []))
      × ¬ All (IsHot (config 3 1) 100 (pos 60) busy_history) (managed "aws" (idle ∷ [])))
should_scale-down_iff_example =
    should_scale-down_iff (config 3 1) "aws" 100 (pos 60) busy_history (idle ∷ [])

abbrev second : Agent ℕ
second = record idle { id = "a2" }

abbrev two_histories : History ℕ
two_histories = ("a2", sample 10 40 ∷ []) ∷ busy_history

Decides-IsContr_example :
    IsContr
      ((d : Fleet ℕ → ScaleDirection) × Decides (config 3 1) "aws" 100 (pos 60) two_histories d)
Decides-IsContr_example = Decides-IsContr (config 3 1) "aws" 100 (pos 60) two_histories

-- A sample one unit past the window is dropped, and then no decision is made before the next poll.
scale_tests :
    (should_scale (config 3 1) "aws" 100 (pos 60) busy_history (idle ∷ []) ≡ up)
    × (should_scale
          (config 3 1)
          "aws"
          101
          (pos 60)
          (record_sample 101 (pos 60) "a1" (sample 95 101) busy_history)
          (idle ∷ [])
        ≡ neutral)
unfolding should_scale record_sample time_sub
scale_tests = (refl, refl)

should_scale-HasBoundarySample_example :
    All (HasBoundarySample 100 60 busy_history 100) (managed "aws" (idle ∷ []))
unfolding should_scale time_sub trim Dict.get
should_scale-HasBoundarySample_example =
    should_scale-HasBoundarySample (config 3 1) "aws" busy_history (idle ∷ []) 100 100 60
      (omega arith) ((sample 95 40 ∷ sample 90 90 ∷ [], refl), tt) (λ e. cc)
