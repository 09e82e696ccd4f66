-- ===== src/Api/Agents/Cleanup.antt =====
-- `handleCleanupNodes` of pkg/api/handlers.go, over the registry and the Redis store: what the
-- registry knows afterwards.
use serverless_flux.Base.{String, ◌≡◌, refl, ap, Option, none, List, [], keep}
use serverless_flux.Base.Result.{Result, ok, err}
use serverless_flux.Memory.{Memory}
use serverless_flux.Memory.Redis.{Redis, Codec, redis_memory}
use serverless_flux.Memory.Redis.Laws.{RedisLaws}
use serverless_flux.Memory.Redis.Blank.{IsBlank, flush-IsBlank}
use serverless_flux.Registry
use serverless_flux.Registry.{found, listed, owner_of, is_online}
use serverless_flux.Api.Agents.{Initializer, handle_cleanup_nodes}

-- Whatever the registry is asked for, it knows of nothing.
pub record KnowsNothing {F W : Type 0} (M : Memory F W) (w : W) : Type 0 where
  pub agent : (id : String) → Registry.get_agent M id w ≡ none
  pub all_agents : Registry.get_all_agents M w ≡ []
  pub available_agents : Registry.get_available_agents M w ≡ []
  pub function : (name : String) → Registry.get_function M name w ≡ none
  pub all_functions : Registry.get_all_functions M w ≡ []
  pub archive : (name : String) → Registry.get_code_archive M name w ≡ none
  pub execution : (id : String) → Registry.get_execution_to_agent_map M id w ≡ none

found-none :
    {A : Type 0} (r : Result (Option A)) → ((o : Option A) → r ≡ ok o → o ≡ none) → found r ≡ none
found-none (err e) h = refl
found-none (ok o) h = h o refl

listed-nil : {A : Type 0} (r : Result (List A)) → ((l : List A) → r ≡ ok l → l ≡ []) → listed r ≡ []
listed-nil (err e) h = refl
listed-nil (ok l) h = h l refl

owner_of-none : (r : Result String) → ((s : String) → r ≡ ok s → s ≡ "") → owner_of r ≡ none
owner_of-none (err e) h = refl
owner_of-none (ok s) h = rw (h s refl) refl

IsBlank-KnowsNothing : {F W : Type 0} (M : Memory F W) (w : W) → IsBlank M w → KnowsNothing M w
unfolding Registry.get_agent Registry.get_all_agents Registry.get_available_agents
    Registry.get_function Registry.get_all_functions Registry.get_code_archive
    Registry.get_execution_to_agent_map
IsBlank-KnowsNothing M w b = record {
  agent = λ id. found-none (M.get_agent id w) (b.agent id);
  all_agents = listed-nil (M.get_all_agents w) b.all_agents;
  available_agents = ap (keep is_online) (listed-nil (M.get_all_agents w) b.all_agents);
  function = λ name. found-none (M.get_function name w) (b.function name);
  all_functions = listed-nil (M.get_all_functions w) b.all_functions;
  archive = λ name. found-none (M.get_code_archive name w) (b.archive name);
  execution = λ id. owner_of-none (M.get_execution_to_agent_map id w) (b.execution id);
}

-- After a cleanup of the nodes, if the store reports no error to its flush, the registry knows of no
-- agent, function, code archive or execution, whatever the termination of the nodes did.
pub handle_cleanup_nodes-KnowsNothing :
    {F V W : Type 0} (R : Redis V W) (J : Codec F V) (entry : W → String → Option V)
    (L : RedisLaws R entry) (i : Initializer W) (w : W)
    → ((redis_memory R J).flush (i.terminate_nodes w).1).0 ≡ ok tt
    → KnowsNothing (redis_memory R J) (handle_cleanup_nodes (redis_memory R J) i w).1
unfolding handle_cleanup_nodes Registry.flush
handle_cleanup_nodes-KnowsNothing R J entry L i w h =
    IsBlank-KnowsNothing (redis_memory R J) _ (flush-IsBlank R entry L J (i.terminate_nodes w).1 h)
