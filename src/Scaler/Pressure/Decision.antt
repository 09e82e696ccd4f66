-- ===== src/Scaler/Pressure/Decision.antt =====
-- When `shouldScale` of pkg/resource/scaler.go asks for more nodes and when for fewer.
use serverless_flux.Base.{
  ℕ, String, ◌≡◌, refl, ◌≢◌, ◌↔◌, ◌⊎◌, inl, inr, true, false, Option, none, some, List, [], ◌∷◌,
  arith, keep, ◌==◌, Bool-cases, Option-cases, All,
}
use serverless_flux.Base.Dict
use serverless_flux.Base.Int.{ℤ, int_ltb, time_sub}
use serverless_flux.Floats.{Floats}
use serverless_flux.Models.{Agent}
use serverless_flux.Config.{AutoscaleConfig}
use serverless_flux.Scaler.Pressure.{
  up, down, Sample, History, Flags, clear, scan_samples, all_set, merge, scan_agent, scan_agents,
  direction, decide, should_scale,
}

-- the online agents of a provider
abbrev pub managed : {F : Type 0} → String → List (Agent F) → List (Agent F)
managed provider online = keep (λ a. a.provider == provider) online

module _ {F : Type 0} (now : ℕ) (window : ℤ) where
  -- The agent has samples, the oldest of them at least the window old.
  abbrev pub IsReady : Option (List (Sample F)) → Type 0
  IsReady none = ⊥
  IsReady (some []) = ⊥
  IsReady (some (s ∷ ss)) = int_ltb (time_sub now s.at) window ≡ false

  abbrev pub Ready : History F → Agent F → Type 0
  Ready history a = IsReady (Dict.get a.id history)

module _ {F : Type 0} ⦃o : Floats F⦄ (cfg : AutoscaleConfig F) (now : ℕ) (window : ℤ)
    (history : History F) where
  abbrev pub SamplesHave : (Sample F → Type 0) → Option (List (Sample F)) → Type 0
  SamplesHave P none = Unit
  SamplesHave P (some l) = All P l

  -- The CPU or the memory of the sample is not below its upper threshold.
  abbrev pub HotSample : Sample F → Type 0
  HotSample s =
      (o.flt s.cpu_percent cfg.cpu_upper_threshold ≡ false)
      ⊎ (o.flt s.mem_percent cfg.mem_upper_threshold ≡ false)

  -- Neither the CPU nor the memory of the sample is above its lower threshold.
  abbrev pub ColdSample : Sample F → Type 0
  ColdSample s =
      (o.flt cfg.cpu_lower_threshold s.cpu_percent ≡ false)
      × (o.flt cfg.mem_lower_threshold s.mem_percent ≡ false)

  -- No sample has both CPU and memory below the upper thresholds.
  abbrev pub IsHot : Agent F → Type 0
  IsHot a = SamplesHave HotSample (Dict.get a.id history)

  -- No sample has CPU or memory above the lower threshold.
  abbrev pub IsCold : Agent F → Type 0
  IsCold a = SamplesHave ColdSample (Dict.get a.id history)

  scan_samples_high :
      (f : Flags) (l : List (Sample F))
      → ((scan_samples cfg f l).high ≡ true) ↔ ((f.high ≡ true) × All HotSample l)
  unfolding scan_samples
  scan_samples_high f [] = ground arith
  scan_samples_high f (s ∷ ss) = ground (arith, scan_samples_high (clear cfg s f) ss)

  scan_samples_low :
      (f : Flags) (l : List (Sample F))
      → ((scan_samples cfg f l).low ≡ true) ↔ ((f.low ≡ true) × All ColdSample l)
  unfolding scan_samples
  scan_samples_low f [] = ground arith
  scan_samples_low f (s ∷ ss) = ground (arith, scan_samples_low (clear cfg s f) ss)

  -- One agent: the scan goes on exactly if it is ready, and keeps a flag exactly if the samples do.
  scan_agent_lem :
      (h : Option (List (Sample F))) (f g : Flags)
      → scan_agent cfg now window h f ≡ some g
      → IsReady now window h
        × ((g.high ≡ true) ↔ ((f.high ≡ true) × SamplesHave HotSample h))
        × ((g.low ≡ true) ↔ ((f.low ≡ true) × SamplesHave ColdSample h))
  unfolding scan_agent
  scan_agent_lem none f g e = cc
  scan_agent_lem (some []) f g e = cc
  scan_agent_lem (some (s ∷ ss)) f g e =
      ground (arith, scan_samples_high all_set (s ∷ ss), scan_samples_low all_set (s ∷ ss))

  scan_agent_ready :
      (h : Option (List (Sample F))) (f : Flags)
      → IsReady now window h
      → (g : Flags) × (scan_agent cfg now window h f ≡ some g)
  unfolding scan_agent
  scan_agent_ready none f r = absurd r
  scan_agent_ready (some []) f r = absurd r
  scan_agent_ready (some (s ∷ ss)) f r = (merge (scan_samples cfg all_set (s ∷ ss)) f, rw r)

  scan_agents_lem :
      (l : List (Agent F)) (f g : Flags)
      → scan_agents cfg now window history l f ≡ some g
      → All (Ready now window history) l
        × ((g.high ≡ true) ↔ ((f.high ≡ true) × All IsHot l))
        × ((g.low ≡ true) ↔ ((f.low ≡ true) × All IsCold l))
  unfolding scan_agents
  scan_agents_lem [] f g e = ground arith
  scan_agents_lem (a ∷ l) f g e =
      elim (Option-cases (scan_agent cfg now window (Dict.get a.id history) f)) [
        | inl stop ↦ cc (rw (stop, scan_agents) at e)
        | inr (k, step) ↦
            let (r, h, c) = scan_agent_lem (Dict.get a.id history) f k step in
            let (rs, hs, cs) = scan_agents_lem l k g (rw (step, scan_agents) at e) in
            ((r, rs), ground arith, ground arith)
      ]

  scan_agents-Ready :
      (l : List (Agent F)) (f : Flags)
      → All (Ready now window history) l
      → (g : Flags) × (scan_agents cfg now window history l f ≡ some g)
  unfolding scan_agents
  scan_agents-Ready [] f r = (f, refl)
  scan_agents-Ready (a ∷ l) f (r, rs) =
      let (k, step) = scan_agent_ready (Dict.get a.id history) f r in
      let (g, rest) = scan_agents-Ready l k rs in (g, rw (step, scan_agents) rest)

  decide_up :
      (l : List (Agent F))
      → (decide cfg now window history l ≡ up)
        ↔ ((l ≢ []) × All (Ready now window history) l × All IsHot l)
  unfolding decide
  decide_up [] = (λ e. cc, λ h. absurd (h.0 refl))
  decide_up (a ∷ l) = (
    λ e. elim (Option-cases (scan_agents cfg now window history (a ∷ l) all_set)) [
      | inl stop ↦ cc (rw stop at e)
      | inr (g, step) ↦
          let (r, h, c) = scan_agents_lem (a ∷ l) all_set g step in
          (λ p. cc, r, (h.0 (high_of_up g (rw step at e))).1)
    ],
    λ (_, r, hot).
        let (g, step) = scan_agents-Ready (a ∷ l) all_set r in
        let (_, h, c) = scan_agents_lem (a ∷ l) all_set g step in
        rw step (up_of_high g (h.1 (refl, hot))),
  )
    where
      high_of_up : (g : Flags) → direction (some g) ≡ up → g.high ≡ true
      high_of_up g e = ground arith

      up_of_high : (g : Flags) → g.high ≡ true → direction (some g) ≡ up
      up_of_high g e = ground arith

  decide_down :
      (l : List (Agent F))
      → (decide cfg now window history l ≡ down)
        ↔ ((l ≢ []) × All (Ready now window history) l × All IsCold l × ¬ All IsHot l)
  unfolding decide
  decide_down [] = (λ e. cc, λ h. absurd (h.0 refl))
  decide_down (a ∷ l) = (
    λ e. elim (Option-cases (scan_agents cfg now window history (a ∷ l) all_set)) [
      | inl stop ↦ cc (rw stop at e)
      | inr (g, step) ↦
          let (r, h, c) = scan_agents_lem (a ∷ l) all_set g step in
          let (low, high) = flags_of_down g (rw step at e) in
          (λ p. cc, r, (c.0 low).1, λ hot. cc (h.1 (refl, hot)))
    ],
    λ (_, r, cold, not_hot).
        let (g, step) = scan_agents-Ready (a ∷ l) all_set r in
        let (_, h, c) = scan_agents_lem (a ∷ l) all_set g step in
        rw step (elim (Bool-cases g.high) [
          | inl e ↦ absurd (not_hot (h.0 e).1)
          | inr e ↦ down_of_flags g e (c.1 (refl, cold))
        ]),
  )
    where
      flags_of_down : (g : Flags) → direction (some g) ≡ down → (g.low ≡ true) × (g.high ≡ false)
      flags_of_down g e = ground arith

      down_of_flags : (g : Flags) → g.high ≡ false → g.low ≡ true → direction (some g) ≡ down
      down_of_flags g e h = ground arith

module _ {F : Type 0} ⦃o : Floats F⦄ (cfg : AutoscaleConfig F) (provider : String) (now : ℕ)
    (window : ℤ) (history : History F) (online : List (Agent F)) where
  -- The autoscaler asks for more nodes exactly when its provider has an online agent, every one
  -- of them has a history whose oldest sample is at least the window old, and no sample of any of
  -- them has both CPU and memory below the upper thresholds.
  pub should_scale-up_iff : (should_scale cfg provider now window history online ≡ up) ↔ (
      (managed provider online ≢ [])
      × All (Ready now window history) (managed provider online)
      × All (IsHot cfg now window history) (managed provider online))
  unfolding should_scale
  should_scale-up_iff = decide_up cfg now window history (managed provider online)

  -- The autoscaler asks for fewer nodes exactly when its provider has an online agent, every one
  -- of them has a history whose oldest sample is at least the window old, no sample of any of
  -- them has CPU or memory above its lower threshold, and some sample of one of them has both
  -- below the upper thresholds.
  pub should_scale-down_iff : (should_scale cfg provider now window history online ≡ down) ↔ (
      (managed provider online ≢ [])
      × All (Ready now window history) (managed provider online)
      × All (IsCold cfg now window history) (managed provider online)
      × ¬ All (IsHot cfg now window history) (managed provider online))
  unfolding should_scale
  should_scale-down_iff = decide_down cfg now window history (managed provider online)
