-- ===== src/Main/Unnoticed.antt =====
-- What the running program of main.go makes of requests that show no key: nothing.
use mathlib.Core.List.{append-nil}
use serverless_flux.Base.{
  ℕ, String, ◌≡◌, refl, ap, subst, Bool, true, false, Bool-cases, inl, inr, List, [], ◌∷◌, ◌++◌,
  keep,
}
use serverless_flux.Base.Result.{ok}
use serverless_flux.Base.Startup.{going}
use serverless_flux.Floats.{Floats}
use serverless_flux.Config.{FluxConfig}
use serverless_flux.Api.Routing.{authenticate}
use serverless_flux.Api.Serve.{Request, Answer, Service, Served, serve}
use serverless_flux.Api.Serve.Unauthenticated.{IsHarmless, serve-IsHarmless}
use serverless_flux.Main.{Packages, Running, State, config_path, main}
use serverless_flux.Main.Guarded.{service-key}
use serverless_flux.Main.Steps.{main-IsAssembled}
use serverless_flux.Main.Process.{
  Job, ProcessEvent, requested, ticked, ran, elsewhere, signalled, serve_failed, Process, serving,
  ended, served, occur, answer_to, run,
}

abbrev pub has_key : {W : Type 0} → String → Request W → Bool
has_key key r = authenticate key r.api_key r.authorization

-- The event is no request without the key.
abbrev pub counts : {W : Type 0} → String → ProcessEvent W → Bool
counts key (requested r) = has_key key r
counts key _ = true

module _ {F W : Type 0} where
  -- The two runs end in the same state, and give the same answers to requests with the key.
  abbrev pub Agree :
      String
      → List (Request W × Answer F) × Process F W
      → List (Request W × Answer F) × Process F W
      → Type 0
  Agree key (answers, p) (answers', p') =
      (keep (λ x. has_key key x.0) answers ≡ answers') × (p ≡ p')

module _ {F W : Type 0} ⦃o : Floats F⦄ (S : Service F W) where
  served-harmless :
      (jobs : List (Job F)) (w : W) (s : Served F W)
      → IsHarmless S w s
      → served jobs s ≡ serving jobs w
  served-harmless jobs w (a, v, ids) (same, nothing, _) =
      rw (same, nothing) (ap (λ js. serving js w) (append-nil jobs))

  run-ended : (es : List (ProcessEvent W)) (n : ℕ) (w : W) → run S es (ended n w) ≡ ([], ended n w)
  unfolding run
  run-ended [] n w = refl
  run-ended (e ∷ es) n w = refl

  -- an event of which the two runs make the same
  counted-Agree :
      (key : String) (e : ProcessEvent W) (w : W) (x y : List (Request W × Answer F) × Process F W)
      → counts key e ≡ true
      → Agree key x y
      → Agree key (answer_to S e w ++ x.0, x.1) (answer_to S e w ++ y.0, y.1)
  counted-Agree key (requested r) w x y h (p, q) = (rw h (ap (λ l. (r, (serve S r w).0) ∷ l) p), q)
  counted-Agree key ticked w x y h k = k
  counted-Agree key (ran i) w x y h k = k
  counted-Agree key (elsewhere step) w x y h k = k
  counted-Agree key signalled w x y h k = k
  counted-Agree key serve_failed w x y h k = k

  -- an event of which the second run is not told
  uncounted-Agree :
      (key : String) (e : ProcessEvent W) (w : W) (x y : List (Request W × Answer F) × Process F W)
      → counts key e ≡ false
      → Agree key x y
      → Agree key (answer_to S e w ++ x.0, x.1) y
  uncounted-Agree key (requested r) w x y h (p, q) = (rw h p, q)
  uncounted-Agree key ticked w x y h k = k
  uncounted-Agree key (ran i) w x y h k = k
  uncounted-Agree key (elsewhere step) w x y h k = k
  uncounted-Agree key signalled w x y h k = k
  uncounted-Agree key serve_failed w x y h k = k

  uncounted-eq :
      (e : ProcessEvent W) (jobs : List (Job F)) (w : W)
      → counts S.key e ≡ false
      → occur S e jobs w ≡ serving jobs w
  unfolding occur
  uncounted-eq (requested r) jobs w h =
      served-harmless jobs w (serve S r w) (serve-IsHarmless S r w h)
  uncounted-eq ticked jobs w h = cc
  uncounted-eq (ran i) jobs w h = cc
  uncounted-eq (elsewhere step) jobs w h = cc
  uncounted-eq signalled jobs w h = cc
  uncounted-eq serve_failed jobs w h = cc

  pub run-Agree :
      (es : List (ProcessEvent W)) (p : Process F W)
      → Agree S.key (run S es p) (run S (keep (counts S.key) es) p)
  unfolding run
  run-Agree [] p = (refl, refl)
  run-Agree (e ∷ es) (ended n w) = rw (run-ended (keep (counts S.key) (e ∷ es)) n w) (refl, refl)
  run-Agree (e ∷ es) (serving jobs w) = elim (Bool-cases (counts S.key e)) [
    | inl h ↦ rw h (counted-Agree S.key e w _ _ h (run-Agree es (occur S e jobs w)))
    | inr h ↦
        rw (h, uncounted-eq e jobs w h)
          (uncounted-Agree S.key e w _ _ h (run-Agree es (serving jobs w)))
  ]

module _ {F Serial Cert Key Options V Creds Conn AwsConn GcpConn W : Type 0} ⦃o : Floats F⦄
    (P : Packages F Serial Cert Key Options V Creds Conn AwsConn GcpConn W) where
  -- Where the program runs: whatever requests come in, and however they take turns with the health
  -- poller, the goroutines, the rest of the system, a signal and a failure of the server, the
  -- requests that do not show the key of the configuration file change nothing. Without them the
  -- program comes to the same state, or to the same end, and gives the others the same answers.
  pub main-Agree :
      (variable : String) (s : State P) (x : Running F (State P)) (s' : State P) (c : FluxConfig F)
      (es : List (ProcessEvent (State P)))
      → main P variable s ≡ (going x, s')
      → P.read_config (config_path variable) s ≡ ok c
      → Agree c.api_key
          (run x.service es (serving [] s'))
          (run x.service (keep (counts c.api_key) es) (serving [] s'))
  main-Agree variable s x s' c es h file =
      let (_, same) = service-key P variable s x c (main-IsAssembled P variable s h) file in
      subst
        (λ k.
          Agree k (run x.service es (serving [] s'))
            (run x.service (keep (counts k) es) (serving [] s')))
        same (run-Agree x.service es (serving [] s'))
