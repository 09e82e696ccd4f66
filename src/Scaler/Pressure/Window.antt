-- ===== src/Scaler/Pressure/Window.antt =====
-- The sliding window of pkg/resource/scaler.go: what a poll leaves in the history, and how narrow
-- a moment it leaves for a decision.
use mathlib.Core.List.{Memᴰ}
use serverless_flux.Base.{
  ℕ, ◌-◌, ◌^◌, ◌≤◌, ◌<◌, String, ◌≡◌, refl, subst, ◌≢◌, true, false, Option, none, some, List, [],
  ◌∷◌, ◌++◌, arith, ◌==◌, eq_refl, All, mem-keep, if◌then◌else◌,
}
use serverless_flux.Base.Dict
use serverless_flux.Base.Dict.{get-put}
use serverless_flux.Base.Int.{ℤ, pos, int_ltb, int_leb, time_sub}
use serverless_flux.Floats.{Floats}
use serverless_flux.Models.{Agent}
use serverless_flux.Config.{AutoscaleConfig}
use serverless_flux.Scaler.Pressure.{
  ScaleDirection, up, neutral, down, Sample, History, samples_of, trim, record_sample, should_scale,
}
use serverless_flux.Scaler.Pressure.Decision.{
  IsReady, Ready, managed, should_scale-up_iff, should_scale-down_iff,
}

in_window : (t u w : ℕ) → w < 2 ^ 63 - 1 → int_leb (time_sub t u) (pos w) ≡ true → t - u ≤ w
unfolding time_sub
in_window t u w b h = ground arith

past_window : (t u w : ℕ) → int_ltb (time_sub t u) (pos w) ≡ false → w ≤ t - u
unfolding time_sub
past_window t u w h = ground arith

module _ {F : Type 0} where
  -- After a poll of one agent the map holds, under the agent, its old samples and the new one
  -- less those older than the window, in order, and every other agent's samples as before.
  get-record_sample :
      (now : ℕ) (window : ℤ) (id k : String) (sample : Sample F) (history : History F)
      → Dict.get k (record_sample now window id sample history) ≡ (
          if id == k
          then some (trim now window (samples_of (Dict.get id history) ++ sample ∷ []))
          else Dict.get k history)
  unfolding record_sample
  get-record_sample now window id k sample history = simp (get-put, eq_refl) (ground arith)

  mem-trim :
      (now : ℕ) (window : ℤ) (l : List (Sample F)) (s : Sample F)
      → Memᴰ s (trim now window l)
      → Memᴰ s l × (int_leb (time_sub now s.at) window ≡ true)
  unfolding trim
  mem-trim now window l s m = mem-keep (λ x. int_leb (time_sub now x.at) window) s l m

module _ {F : Type 0} (poll : ℕ) (w : ℕ) (history : History F) where
  -- The history of an agent is what a poll at `poll` leaves.
  abbrev pub IsTrimmed : Agent F → Type 0
  IsTrimmed a = (l : List (Sample F)) × (Dict.get a.id history ≡ some (trim poll (pos w) l))

  -- The agent has a sample that was at most the window old at the poll, and is at least the
  -- window old at `now`.
  abbrev pub HasBoundarySample : ℕ → Agent F → Type 0
  HasBoundarySample now a =
      (s : Sample F) × Memᴰ s (samples_of (Dict.get a.id history))
      × (poll - s.at ≤ w)
      × (w ≤ now - s.at)

  ready_first :
      (now : ℕ) (h : Option (List (Sample F)))
      → IsReady now (pos w) h
      → (s : Sample F) × Memᴰ s (samples_of h) × (w ≤ now - s.at)
  ready_first now none r = absurd r
  ready_first now (some []) r = absurd r
  ready_first now (some (s ∷ ss)) r = (s, Memᴰ.head refl, past_window now s.at w r)

  boundary :
      (now : ℕ)
      → w < 2 ^ 63 - 1
      → (l : List (Agent F)) → All IsTrimmed l
      → All (Ready now (pos w) history) l
      → All (HasBoundarySample now) l
  boundary now b [] t r = tt
  boundary now b (a ∷ l) ((kept, e), t) (r, rs) =
      let (s, there, late) = ready_first now (Dict.get a.id history) r in
      let in_trim : Memᴰ s (trim poll (pos w) kept) = subst (λ h. Memᴰ s (samples_of h)) e there in
      let (_, early) = mem-trim poll (pos w) kept s in_trim in
      ((s, there, in_window poll s.at w b early, late), boundary now b l t rs)

module _ {F : Type 0} ⦃o : Floats F⦄ (cfg : AutoscaleConfig F) (provider : String)
    (history : History F) (online : List (Agent F)) where
  direction-Ready :
      (now : ℕ) (window : ℤ) (d : ScaleDirection)
      → should_scale cfg provider now window history online ≡ d
      → d ≢ neutral
      → All (Ready now window history) (managed provider online)
  direction-Ready now window up e h =
      ((should_scale-up_iff cfg provider now window history online).0 e).1
  direction-Ready now window down e h =
      ((should_scale-down_iff cfg provider now window history online).0 e).1
  direction-Ready now window neutral e h = absurd (h refl)

  -- A decision at `now` after a poll that trimmed the histories at `poll` asks for a change only
  -- if every online agent of the provider has a sample whose age reached the window between these
  -- two moments: at most the window at the poll, at least the window at the decision. The window
  -- is below the longest `time.Duration`.
  pub should_scale-HasBoundarySample :
      (poll now w : ℕ)
      → w < 2 ^ 63 - 1
      → All (IsTrimmed poll w history) (managed provider online)
      → should_scale cfg provider now (pos w) history online ≢ neutral
      → All (HasBoundarySample poll w history now) (managed provider online)
  should_scale-HasBoundarySample poll now w b t h =
      boundary poll w history now b (managed provider online) t
        (direction-Ready now (pos w) _ refl h)
