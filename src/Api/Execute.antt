-- ===== src/Api/Execute.antt =====
-- Running a function, of pkg/api/handlers.go: `handleExecute` with its retries, and
-- `handleAsyncExecute`. A request body is what the decoder makes of it, and a new execution
-- identifier is an argument.
pub mod Runs
pub mod Submission
use serverless_flux.Base.{
  String, ◌<>◌, ◌==◌, Bool, true, false, ◌&&◌, not, Option, none, some, List, [], ◌∷◌,
  if◌then◌else◌,
}
use serverless_flux.Base.Int.{ℤ}
use serverless_flux.Base.Select.{choose}
use serverless_flux.Base.Result.{Result, ok, err}
use serverless_flux.Floats.{Floats}
use serverless_flux.Models.{Agent, Function, behavior_exit, can_fit, available_score}
use serverless_flux.Memory.{Memory}
use serverless_flux.Client.{ExecutionResponse, AgentClient}
use serverless_flux.Registry
use serverless_flux.Api.Reply.{Reply, fail, sent, contains}

pub record ExecuteResponse : Type 0 where
  pub status : String
  pub output : String
  pub error : String
  pub duration_ms : ℤ
  pub agent_id : String
  pub execution_id : String

-- What the `select` between two rounds receives: the end of the request, or the timer, during
-- which the rest of the system changed the world.
pub data Pause (W : Type 0) : Type 0 where
  cancelled : Pause W
  elapsed : (W → W) → Pause W

-- How a synchronous execution ends: with a reply, without one, or not yet.
pub data ExecuteEnd : Type 0 where
  reply : Reply ExecuteResponse → ExecuteEnd
  closed : ExecuteEnd
  waiting : ExecuteEnd

module _ {F : Type 0} ⦃o : Floats F⦄ where
  -- `a.AvailableScore() > best.AvailableScore()`
  abbrev pub more_headroom : Agent F → Agent F → Bool
  more_headroom a best = o.flt (available_score best) (available_score a)

  -- the loop that picks the agent
  unfoldable pub pick_agent : Function → List (Agent F) → Option (Agent F)
  unfolding choose
  pick_agent fn agents = choose more_headroom (λ a. can_fit a fn) none agents

abbrev pub at_capacity : ExecutionResponse → Bool
at_capacity result = not (result.error == "") && contains result.error "at capacity"

module _ {F W : Type 0} ⦃o : Floats F⦄ (M : Memory F W) (C : AgentClient F W) where
  abbrev pub answer : Agent F → String → ExecutionResponse → Reply ExecuteResponse
  answer best id result =
      let failed = not (result.error == "") in
      sent (if failed then 500 else 200) (record {
        status = if failed then "failed" else "success";
        output = result.output;
        error = result.error;
        duration_ms = result.duration_ms;
        agent_id = best.id;
        execution_id = id;
      })

  -- the rest of a round, from the answer of the agent; `none` is another round
  judge :
      Function
      → String
      → Agent F
      → Result ExecutionResponse × W
      → Option (Reply ExecuteResponse) × W
  judge fn id best (err e, w) = (some (fail 500 ("agent communication error: " <> e)), w)
  judge fn id best (ok result, w) =
      if at_capacity result
      then (if fn.max_concurrency_behavior == behavior_exit
          then (some (fail 503 result.error), w)
          else (none, w))
      else (some (answer best id result), w)

  dispatch :
      Function
      → String
      → List String
      → String
      → Option (Agent F)
      → W
      → Option (Reply ExecuteResponse) × W
  unfolding judge
  dispatch fn name args id none w =
      if fn.resource_pressure_behavior == behavior_exit
      then (some (fail 429 "no agents available with sufficient resources"), w)
      else (none, w)
  dispatch fn name args id (some best) w =
      judge fn id best (C.execute_function best name args id false w)

  -- one round of the loop
  unfoldable pub attempt :
      Function → String → List String → String → W → Option (Reply ExecuteResponse) × W
  unfolding dispatch pick_agent
  attempt fn name args id w =
      dispatch fn name args id (pick_agent fn (Registry.get_available_agents M w)) w

  next :
      Function
      → String
      → List String
      → String
      → Option (Reply ExecuteResponse) × W
      → List (Pause W)
      → ExecuteEnd × W
  unfolding attempt
  next fn name args id (some r, w) events = (reply r, w)
  next fn name args id (none, w) [] = (waiting, w)
  next fn name args id (none, w) (cancelled ∷ events) = (closed, w)
  next fn name args id (none, w) (elapsed step ∷ events) =
      next fn name args id (attempt fn name args id (step w)) events

  unfoldable pub execute_loop :
      Function → String → List String → String → List (Pause W) → W → ExecuteEnd × W
  unfolding next
  execute_loop fn name args id events w = next fn name args id (attempt fn name args id w) events

  execute_found :
      Option Function → String → List String → String → List (Pause W) → W → ExecuteEnd × W
  unfolding execute_loop
  execute_found none name args id events w = (reply (fail 404 "function not found"), w)
  execute_found (some fn) name args id events w = execute_loop fn name args id events w

  unfoldable pub handle_execute :
      Result (List String) → String → String → List (Pause W) → W → ExecuteEnd × W
  unfolding execute_found
  handle_execute (err e) name id events w = (reply (fail 400 e), w)
  handle_execute (ok args) name id events w =
      execute_found (Registry.get_function M name w) name args id events w

  -- the end of `handleAsyncExecute`, from the answer of the agent
  accept : String → Agent F → Result ExecutionResponse × W → Reply String × W
  accept id best (err e, w) = (fail 500 ("failed to submit async execution: " <> e), w)
  accept id best (ok result, w) = (sent 202 id, Registry.save_execution_to_agent_map M id best.id w)

  submit : String → List String → String → Option (Agent F) → W → Reply String × W
  unfolding accept
  submit name args id none w = (fail 429 "no agents available with sufficient resources", w)
  submit name args id (some best) w = accept id best (C.execute_function best name args id true w)

  submit_found : Option Function → String → List String → String → W → Reply String × W
  unfolding submit pick_agent
  submit_found none name args id w = (fail 404 "function not found", w)
  submit_found (some fn) name args id w =
      submit name args id (pick_agent fn (Registry.get_available_agents M w)) w

  -- The body of an accepted execution is its identifier.
  unfoldable pub handle_async_execute :
      Result (List String) → String → String → W → Reply String × W
  unfolding submit_found
  handle_async_execute (err e) name id w = (fail 400 e, w)
  handle_async_execute (ok args) name id w =
      submit_found (Registry.get_function M name w) name args id w
