-- ===== src/Scaler/Manager/Progress.antt =====
-- `InitializeNodes` of pkg/resource/providers_manager.go returns under every fair schedule.
use serverless_flux.Base.{
  ℕ, suc, ◌+◌, ◌-◌, ◌≤◌, ◌<◌, String, ◌≡◌, ◌≢◌, refl, sym, ◌∙◌, Bool, true, none, some, List, [],
  ◌∷◌, length, keep, get_elem?, get_elem?-append, get_elem?-some, get_elem?-lt, arith, eqb, inl,
  inr, Bool-cases, if◌then◌else◌, subst,
}
use mathlib.Core.Option.{some-injective}
use serverless_flux.Base.Result.{Result, ok, err}
use serverless_flux.Base.Jobs.{length-poke, get_elem?-poke_self, get_elem?-poke_other}
use serverless_flux.Floats.{Floats}
use serverless_flux.Scaler.Provider.{ProvisionedNode}
use serverless_flux.Base.Int.{ℤ, count32}
use serverless_flux.Memory.{Memory}
use serverless_flux.Scaler.Manager.{
  ProviderEntry, Launch, spawning, bootstrapping, discarding, registering, launched, Fill, Event,
  loop, run, other, launch, fill_event, fill_events, start_next, spawn_done, bootstrap_done,
  is_launched, has_succeeded, all_of, initialized,
}

-- How often the schedule runs the i-th goroutine, and the loop.
abbrev pub runs : {W : Type 0} → ℕ → List (Event W) → ℕ
runs i [] = 0
runs i (loop ∷ es) = runs i es
runs i (run k ∷ es) = (if eqb k i then 1 else 0) + runs i es
runs i (other step ∷ es) = runs i es

abbrev pub loops : {W : Type 0} → List (Event W) → ℕ
loops [] = 0
loops (loop ∷ es) = suc (loops es)
loops (run k ∷ es) = loops es
loops (other step ∷ es) = loops es

all_of-get_elem? :
    {A : Type 0} (p : A → Bool) (l : List A)
    → ((i : ℕ) (x : A) → get_elem? l i ≡ some x → p x ≡ true)
    → all_of p l ≡ true
all_of-get_elem? p [] h = refl
all_of-get_elem? p (x ∷ l) h = rw (h 0 x refl) (all_of-get_elem? p l (λ i y e. h (suc i) y e))

module _ {F W : Type 0} ⦃o : Floats F⦄ (M : Memory F W) (port : String) (clock : W → ℕ) where
  -- Running the loop once for each entry leaves it none.
  entries-done :
      (es : List (Event W)) (f : Fill F W) (w : W)
      → length f.entries ≤ loops es
      → (fill_events M port clock es f w).0.entries ≡ []
  unfolding fill_events fill_event start_next
  entries-done [] f w h = by f.entries h
    where
      by : (l : List (ProviderEntry F W)) → length l ≤ 0 → l ≡ []
      by [] h = refl
      by (e ∷ l) h = absurd (omega arith)
  entries-done (loop ∷ es) f w h = entries-done es _ w (shorter f.entries h)
    where
      shorter :
          (l : List (ProviderEntry F W))
          → length l ≤ suc (loops es)
          → length (start_next M port clock l f.launches w).entries ≤ loops es
      shorter [] h = omega arith
      shorter (e ∷ l) h = omega arith
  entries-done (run i ∷ es) f w h = entries-done es _ _ h
  entries-done (other step ∷ es) f w h = entries-done es f (step w) h

  -- how many steps the goroutine has left, at most
  abbrev left : Launch F W → ℕ
  left (spawning p resources) = 3
  left (bootstrapping p node) = 2
  left (discarding p node) = 1
  left (registering p node) = 1
  left (launched b) = 0

  launch-left : (l : Launch F W) (w : W) → left (launch M port clock l w).0 ≤ left l - 1
  unfolding launch
  launch-left (spawning p resources) w = by (p.spawn_node resources w)
    where
      by : (r : Result ProvisionedNode × W) → left (spawn_done M port clock p r).0 ≤ 2
      by (err e, v) = unfold spawn_done in omega arith
      by (ok node, v) = unfold spawn_done in omega arith
  launch-left (bootstrapping p node) w = by (p.bootstrap node w)
    where
      by : (r : Result (Unit {0}) × W) → left (bootstrap_done M port clock p node r).0 ≤ 1
      by (err e, v) = unfold bootstrap_done in omega arith
      by (ok _, v) = unfold bootstrap_done in omega arith
  launch-left (discarding p node) w = omega arith
  launch-left (registering p node) w = omega arith
  launch-left (launched b) w = omega arith

  left-le : (l : Launch F W) → left l ≤ 3
  left-le (spawning p resources) = omega arith
  left-le (bootstrapping p node) = omega arith
  left-le (discarding p node) = omega arith
  left-le (registering p node) = omega arith
  left-le (launched b) = omega arith

  left-launched : (l : Launch F W) → left l ≡ 0 → is_launched l ≡ true
  left-launched (spawning p resources) h = absurd (omega arith)
  left-launched (bootstrapping p node) h = absurd (omega arith)
  left-launched (discarding p node) h = absurd (omega arith)
  left-launched (registering p node) h = absurd (omega arith)
  left-launched (launched b) h = refl

  -- A goroutine that is run as often as it has steps left has ended.
  launch-ends :
      (es : List (Event W)) (f : Fill F W) (w : W) (i : ℕ) (l : Launch F W)
      → get_elem? f.launches i ≡ some l
      → left l ≤ runs i es
      → (m : Launch F W) × (get_elem? (fill_events M port clock es f w).0.launches i ≡ some m)
        × (is_launched m ≡ true)
  unfolding fill_events fill_event
  launch-ends [] f w i l e h = (l, e, left-launched l (omega arith))
  launch-ends (loop ∷ es) f w i l e h = launch-ends es _ w i l (appended f.entries) h
    where
      appended :
          (entries : List (ProviderEntry F W))
          → get_elem? (start_next M port clock entries f.launches w).launches i ≡ some l
      appended [] = unfold start_next in e
      appended (x ∷ entries) = unfold start_next in get_elem?-append f.launches _ i e
  launch-ends (run k ∷ es) f w i l e h = elim (Bool-cases (eqb k i)) [
    | inl same ↦
        let p : k ≡ i = ground arith in
        launch-ends es _ _ i (launch M port clock l w).0
          (rw p (get_elem?-poke_self (launch M port clock) i f.launches w e))
          (let q = launch-left l w in ground arith)
    | inr apart ↦
        launch-ends es _ _ i l
          (get_elem?-poke_other (launch M port clock) i k f.launches w apart ∙ e)
          (let h' = rw apart at h in omega arith)
  ]
  launch-ends (other step ∷ es) f w i l e h = launch-ends es f (step w) i l e h

  no_entries :
      (es : List (Event W)) (f : Fill F W) (w : W)
      → f.entries ≡ []
      → ((fill_events M port clock es f w).0.entries ≡ [])
        × (length (fill_events M port clock es f w).0.launches ≡ length f.launches)
  unfolding fill_events fill_event
  no_entries [] f w h = (h, refl)
  no_entries (loop ∷ es) f w h =
      let (p, q) = no_entries es (start_next M port clock f.entries f.launches w) w idle.0 in
      (p, q ∙ idle.1)
    where
      idle :
          let g = start_next M port clock f.entries f.launches w in
          (g.entries ≡ []) × (length g.launches ≡ length f.launches)
      idle = unfold start_next in rw h (refl, refl)
  no_entries (run i ∷ es) f w h =
      let (p, q) = no_entries es _ _ h in (p, q ∙ length-poke (launch M port clock) i f.launches w)
  no_entries (other step ∷ es) f w h = no_entries es f (step w) h

  -- `InitializeNodes` returns: once its loop was run for each entry, it does after any schedule that
  -- runs each of the goroutines started so far at least three times, in whatever order and with
  -- whatever else in between.
  pub initialized-returns :
      (before after : List (Event W)) (entries : List (ProviderEntry F W)) (w : W)
      → length entries ≤ loops before
      → let (f, v) =
          fill_events M port clock before (record { entries = entries; launches = [] }) w in
        ((i : ℕ) → i < length f.launches → 3 ≤ runs i after)
        → initialized (fill_events M port clock after f v).0 ≢ none
  initialized-returns before after entries w h runs_all =
      let start : Fill F W = record { entries = entries; launches = [] } in
      let (f, v) = fill_events M port clock before start w in
      let (p, q) = no_entries after f v (entries-done before start w h) in
      returns (fill_events M port clock after f v).0 p
        (all_of-get_elem? is_launched _ (λ i x e. ended f v i x runs_all e q))
    where
      returns :
          (g : Fill F W)
          → g.entries ≡ []
          → all_of is_launched g.launches ≡ true
          → initialized g ≢ none
      returns g p a e =
          some_ne_none
            {n = (count32 (length (keep has_succeeded g.launches)), count32 (length g.launches))}
            (unfold initialized in (rw (p, a) at e))
        where
          some_ne_none : {n : ℤ × ℤ} → some n ≢ none
          some_ne_none q = cc

      ended :
          (f : Fill F W) (v : W) (i : ℕ) (x : Launch F W)
          → ((k : ℕ) → k < length f.launches → 3 ≤ runs k after)
          → get_elem? (fill_events M port clock after f v).0.launches i ≡ some x
          → length (fill_events M port clock after f v).0.launches ≡ length f.launches
          → is_launched x ≡ true
      ended f v i x runs_all e q =
          let lt : i < length f.launches = rw (← q) (get_elem?-lt _ i e) in
          let (l, m) = get_elem?-some f.launches i lt in
          let (y, r, done) =
            launch-ends after f v i l m
              ((let h = left-le l in let k = runs_all i lt in omega arith)) in
          subst (λ z. is_launched z ≡ true) (some-injective _ _ (sym r ∙ e)) done
