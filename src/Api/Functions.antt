-- ===== src/Api/Functions.antt =====
-- Functions and their code, of pkg/api/handlers.go: `handleRegisterFunction`, `handleDeploy` and
-- `syncFunctionsToAgent`. A request body is what reading it gives, and what the YAML decoder
-- makes of it.
pub mod Counts
pub mod Rejection
pub mod Synchronised
use serverless_flux.Base.{
  ℕ, String, ◌==◌, Bool, ◌&&◌, ◌||◌, not, Option, none, some, List, [], ◌∷◌, if◌then◌else◌, length,
  suc, zero, inl, inr, ◌⊎◌, ◌<>◌, true, false,
}
use serverless_flux.Base.Int.{ℤ, pos, int_eqb}
use serverless_flux.Base.Result.{Result, ok, err}
use serverless_flux.Models.{Agent, Function, behavior_wait, behavior_exit}
use serverless_flux.Memory.{Bytes, Memory}
use serverless_flux.Client.{AgentClient}
use serverless_flux.Registry
use serverless_flux.Api.Reply.{Reply, fail, sent}

pub record ResourceLimits : Type 0 where
  pub cpu : ℤ
  pub memory : ℤ

pub record FunctionYaml : Type 0 where
  pub name : String
  pub handler : String
  pub resources : ResourceLimits
  pub timeout : ℤ
  pub max_concurrency : ℤ
  pub max_concurrency_behavior : String
  pub resource_pressure_behavior : String
  pub env : List (String × String)

pub record AgentOperationStatus : Type 0 where
  pub agent_id : String
  pub status : String
  pub message : String

-- The body of a reply: the number of agents that took the operation, of agents, and the statuses.
pub record Distribution : Type 0 where
  pub count : ℕ
  pub total_agents : ℕ
  pub agents : List AgentOperationStatus

-- the behaviour that is meant: "exit" if none is given
abbrev pub or_exit : String → String
or_exit behavior = if behavior == "" then behavior_exit else behavior

abbrev pub is_behavior : String → Bool
is_behavior behavior = not (not (behavior == behavior_wait) && not (behavior == behavior_exit))

abbrev pub or_five : ℤ → ℤ
or_five n = if int_eqb n (pos 0) then pos 5 else n

abbrev pub function_of : FunctionYaml → Function
function_of y = record {
  name = y.name;
  handler = y.handler;
  cpu_millicores = y.resources.cpu;
  memory_mb = y.resources.memory;
  timeout_sec = y.timeout;
  max_concurrency = or_five y.max_concurrency;
  max_concurrency_behavior = or_exit y.max_concurrency_behavior;
  resource_pressure_behavior = or_exit y.resource_pressure_behavior;
  code_path = "";
  env = y.env;
}

-- the checks of `handleRegisterFunction` on the decoded file
unfoldable pub validate : FunctionYaml → Reply Distribution ⊎ Function
validate y =
    if y.name == "" || y.handler == ""
    then inl (fail 400 "name and handler are required")
    else if not (is_behavior (or_exit y.max_concurrency_behavior))
    then inl (fail 400 "max_concurrency_behavior must be 'wait' or 'exit'")
    else if not (is_behavior (or_exit y.resource_pressure_behavior))
    then inl (fail 400 "resource_pressure_behavior must be 'wait' or 'exit'")
    else inr (function_of y)

abbrev pub outcome_of : {F : Type 0} → Agent F → Result (Unit {0}) → AgentOperationStatus
outcome_of a (err e) = record { agent_id = a.id; status = "failed"; message = e }
outcome_of a (ok _) = record { agent_id = a.id; status = "success"; message = "" }

abbrev pub counted : Result (Unit {0}) → ℕ → ℕ
counted (err e) n = n
counted (ok _) n = suc n

abbrev pub summary :
    {W : Type 0} → String → ℕ → (ℕ × List AgentOperationStatus) × W → Reply Distribution × W
summary failure total ((zero, statuses), w) = (fail 500 failure, w)
summary failure total ((suc n, statuses), w) =
    (sent 201 (record { count = suc n; total_agents = total; agents = statuses }), w)

module _ {F W : Type 0} where
  -- the loop over the agents: the count and the statuses so far
  unfoldable pub distribute :
      (Agent F → W → Result (Unit {0}) × W)
      → List (Agent F)
      → W
      → (ℕ × List AgentOperationStatus) × W
  distribute call [] w = ((0, []), w)
  distribute call (a ∷ agents) w =
      let (r, w') = call a w in
      let ((n, statuses), w'') = distribute call agents w' in
      ((counted r n, outcome_of a r ∷ statuses), w'')

module _ {F W : Type 0} (M : Memory F W) (C : AgentClient F W) where
  register_valid : Reply Distribution ⊎ Function → W → Reply Distribution × W
  unfolding distribute
  register_valid (inl r) w = (r, w)
  register_valid (inr fn) w =
      let w' = Registry.register_function M fn w in
      let agents = Registry.get_all_agents M w' in
      summary "failed to register function on any agent" (length agents)
        (distribute (λ a. C.register_function a fn) agents w')

  -- `empty` tells whether the file was, `decoded` is what the decoder makes of it
  register_decoded : Bool → Result FunctionYaml → W → Reply Distribution × W
  unfolding register_valid validate
  register_decoded true decoded w = (fail 400 "empty YAML file", w)
  register_decoded false (err e) w = (fail 400 ("invalid YAML format: " <> e), w)
  register_decoded false (ok y) w = register_valid (validate y) w

  unfoldable pub handle_register_function :
      Result Bytes → (Bytes → Result FunctionYaml) → W → Reply Distribution × W
  unfolding register_decoded
  handle_register_function (err e) decode w = (fail 400 "failed to read YAML file", w)
  handle_register_function (ok text) decode w = register_decoded (text == "") (decode text) w

  deploy_to : String → Bytes → List (Agent F) → W → Reply Distribution × W
  unfolding distribute
  deploy_to name archive [] w = (fail 503 "no agents available", w)
  deploy_to name archive (a ∷ agents) w =
      summary "failed to deploy to any agent" (length (a ∷ agents))
        (distribute (λ b. C.deploy_function b name archive) (a ∷ agents) w)

  deploy_read : String → Result Bytes → W → Reply Distribution × W
  unfolding deploy_to
  deploy_read name (err e) w = (fail 400 "failed to read zip file", w)
  deploy_read name (ok archive) w =
      if archive == ""
      then (fail 400 "empty zip file", w)
      else (let w' = Registry.save_code_archive M name archive w in
          deploy_to name archive (Registry.get_available_agents M w') w')

  deploy_found : Option Function → String → Result Bytes → W → Reply Distribution × W
  unfolding deploy_read
  deploy_found none name body w = (fail 404 "function not registered", w)
  deploy_found (some fn) name body w = deploy_read name body w

  unfoldable pub handle_deploy : String → Result Bytes → W → Reply Distribution × W
  unfolding deploy_found
  handle_deploy name body w = deploy_found (Registry.get_function M name w) name body w

  -- the rest of a round of `syncFunctionsToAgent`: the code of a function that was registered
  push_code : Agent F → String → Option Bytes → W → W
  push_code a name none w = w
  push_code a name (some archive) w = (C.deploy_function a name archive w).1

  push : Agent F → Function → Result (Unit {0}) × W → W
  unfolding push_code
  push a fn (err e, w) = w
  push a fn (ok _, w) = push_code a fn.name (Registry.get_code_archive M fn.name w) w

  unfoldable pub sync_functions : Agent F → List Function → W → W
  unfolding push
  sync_functions a [] w = w
  sync_functions a (fn ∷ fns) w = sync_functions a fns (push a fn (C.register_function a fn w))

  sync_agent : Option (Agent F) → W → W
  unfolding sync_functions
  sync_agent none w = w
  sync_agent (some a) w = sync_functions a (Registry.get_all_functions M w) w

  unfoldable pub sync_functions_to_agent : String → W → W
  unfolding sync_agent
  sync_functions_to_agent id w = sync_agent (Registry.get_agent M id w) w
