-- ===== src/Scaler/Pressure.antt =====
-- The pressure history of pkg/resource/scaler.go and the decision whether to scale.
pub mod Decision
pub mod Order
pub mod Fleet
pub mod Window
use serverless_flux.Base.{
  ℕ, String, Bool, true, false, ◌&&◌, ◌||◌, Option, none, some, List, [], ◌∷◌, ◌++◌, keep, ◌==◌,
  if◌then◌else◌,
}
use serverless_flux.Base.Dict
use serverless_flux.Base.Dict.{Dict}
use serverless_flux.Base.Int.{ℤ, int_ltb, int_leb, time_sub}
use serverless_flux.Floats.{Floats}
use serverless_flux.Models.{Agent}
use serverless_flux.Config.{AutoscaleConfig}

pub data ScaleDirection : Type 0 where
  up neutral down : ScaleDirection

-- `pressureSample`; `at` is in nanoseconds
pub record Sample (F : Type 0) : Type 0 where
  pub cpu_percent : F
  pub mem_percent : F
  pub at : ℕ

-- `map[string][]pressureSample`
abbrev pub History : Type 0 → Type 0
History F = Dict (List (Sample F))

module _ {F : Type 0} where
  -- a missing key of the map reads as an empty slice
  abbrev pub samples_of : Option (List (Sample F)) → List (Sample F)
  samples_of none = []
  samples_of (some l) = l

  -- the samples that are at most the window old
  unfoldable pub trim : ℕ → ℤ → List (Sample F) → List (Sample F)
  trim now window samples = keep (λ s. int_leb (time_sub now s.at) window) samples

  -- the locked block of `poll`
  unfoldable pub record_sample : ℕ → ℤ → String → Sample F → History F → History F
  unfolding trim Dict.get Dict.put
  record_sample now window id sample history =
      let appended = Dict.put id (samples_of (Dict.get id history) ++ sample ∷ []) history in
      Dict.put id (trim now window (samples_of (Dict.get id appended))) appended

-- `agentHigh` and `agentLow`, or `allHigh` and `allLow`
pub record Flags : Type 0 where
  pub high : Bool
  pub low : Bool

abbrev pub all_set : Flags
all_set = record { high = true; low = true }

abbrev pub merge : Flags → Flags → Flags
merge agent all = record {
  high = if agent.high then all.high else false;
  low = if agent.low then all.low else false;
}

abbrev pub direction : Option Flags → ScaleDirection
direction none = neutral
direction (some f) = if f.high then up else if f.low then down else neutral

module _ {F : Type 0} ⦃o : Floats F⦄ (cfg : AutoscaleConfig F) where
  -- the sample clears `agentHigh`
  abbrev pub below_upper : Sample F → Bool
  below_upper s =
      o.flt s.cpu_percent cfg.cpu_upper_threshold && o.flt s.mem_percent cfg.mem_upper_threshold

  -- the sample clears `agentLow`
  abbrev pub above_lower : Sample F → Bool
  above_lower s =
      o.flt cfg.cpu_lower_threshold s.cpu_percent || o.flt cfg.mem_lower_threshold s.mem_percent

  -- one round of the loop over the samples of an agent
  abbrev pub clear : Sample F → Flags → Flags
  clear s f = record {
    high = if below_upper s then false else f.high;
    low = if above_lower s then false else f.low;
  }

  scan_samples : Flags → List (Sample F) → Flags
  scan_samples f [] = f
  scan_samples f (s ∷ ss) = scan_samples (clear s f) ss

  -- one round of the loop over the agents; `none` is the early return of `ScaleDirectionNeutral`
  scan_agent : ℕ → ℤ → Option (List (Sample F)) → Flags → Option Flags
  unfolding scan_samples
  scan_agent now window none f = none
  scan_agent now window (some []) f = none
  scan_agent now window (some (s ∷ ss)) f =
      if int_ltb (time_sub now s.at) window
      then none
      else some (merge (scan_samples all_set (s ∷ ss)) f)

  scan_agents : ℕ → ℤ → History F → List (Agent F) → Flags → Option Flags
  unfolding scan_agent Dict.get
  scan_agents now window history [] f = some f
  scan_agents now window history (a ∷ agents) f =
      elim (scan_agent now window (Dict.get a.id history) f) [
        | none ↦ none
        | some g ↦ scan_agents now window history agents g
      ]

  decide : ℕ → ℤ → History F → List (Agent F) → ScaleDirection
  unfolding scan_agents
  decide now window history [] = neutral
  decide now window history (a ∷ agents) =
      direction (scan_agents now window history (a ∷ agents) all_set)

  -- `shouldScale`, from the online agents of the registry; `window` is the evaluation window
  unfoldable pub should_scale : String → ℕ → ℤ → History F → List (Agent F) → ScaleDirection
  unfolding decide
  should_scale provider now window history online =
      decide now window history (keep (λ a. a.provider == provider) online)
