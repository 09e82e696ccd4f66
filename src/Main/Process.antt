-- ===== src/Main/Process.antt =====
-- The running program of main.go: the server under withCORS, the health poller, the goroutines that
-- both start, and the two ways to its end. An autoscaler and all else that works at the same time
-- is a change of the world.
use serverless_flux.Base.{String, ℕ, List, [], ◌∷◌, ◌++◌, map}
use serverless_flux.Base.Jobs.{poke}
use serverless_flux.Floats.{Floats}
use serverless_flux.Registry
use serverless_flux.Health.Polling.{Check, probing, synchronised, check}
use serverless_flux.Api.Functions.{sync_functions_to_agent}
use serverless_flux.Api.Serve.{Request, Answer, Service, Served, serve}

-- A goroutine: a health check, or `syncFunctionsToAgent` before and after it ran.
pub data Job (F : Type 0) : Type 0 where
  checking : Check F → Job F
  syncing : String → Job F
  done : Job F

-- What happens next: a request comes in, the ticker of the health poller ticks, the i-th goroutine
-- makes a step, something else changes the world, a signal comes in, or the server fails.
pub data ProcessEvent (W : Type 0) : Type 0 where
  requested : Request W → ProcessEvent W
  ticked : ProcessEvent W
  ran : ℕ → ProcessEvent W
  elsewhere : (W → W) → ProcessEvent W
  signalled serve_failed : ProcessEvent W

-- The program serves, with its goroutines, or has ended with a status.
pub data Process (F W : Type 0) : Type 0 where
  serving : List (Job F) → W → Process F W
  ended : ℕ → W → Process F W

module _ {F W : Type 0} where
  abbrev of_check : Check F × W → Job F × W
  of_check (c, w) = (checking c, w)

  abbrev advanced : List (Job F) × W → Process F W
  advanced (jobs, w) = serving jobs w

  -- the goroutine for each agent to synchronise
  abbrev pub served : List (Job F) → Served F W → Process F W
  served jobs (a, w, ids) = serving (jobs ++ map syncing ids) w

module _ {F W : Type 0} ⦃o : Floats F⦄ (S : Service F W) where
  -- one step of a goroutine
  unfoldable pub progress : Job F → W → Job F × W
  progress (checking (synchronised a)) w = (done, sync_functions_to_agent S.memory S.client a.id w)
  progress (checking c) w = of_check (check S.memory S.client c w)
  progress (syncing id) w = (done, sync_functions_to_agent S.memory S.client id w)
  progress done w = (done, w)

  -- one event while the program serves
  unfoldable pub occur : ProcessEvent W → List (Job F) → W → Process F W
  occur (requested r) jobs w = served jobs (serve S r w)
  occur ticked jobs w =
      serving (jobs ++ map (λ a. checking (probing a)) (Registry.get_all_agents S.memory w)) w
  occur (ran i) jobs w = advanced (poke progress i jobs w)
  occur (elsewhere step) jobs w = serving jobs (step w)
  occur signalled jobs w = ended 0 w
  occur serve_failed jobs w = ended 1 w

  abbrev pub answer_to : ProcessEvent W → W → List (Request W × Answer F)
  answer_to (requested r) w = (r, (serve S r w).0) ∷ []
  answer_to _ w = []

  -- The requests that were answered, with their answers, and the program at the end.
  unfoldable pub run :
      List (ProcessEvent W) → Process F W → List (Request W × Answer F) × Process F W
  run [] p = ([], p)
  run (e ∷ es) (ended n w) = ([], ended n w)
  run (e ∷ es) (serving jobs w) =
      let (answers, p) = run es (occur e jobs w) in (answer_to e w ++ answers, p)
