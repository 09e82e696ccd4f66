-- ===== src/Memory/Redis.antt =====
pub mod Keys
pub mod Laws
pub mod Connection
pub mod Expiry
pub mod Flushing
pub mod Blank
-- pkg/memory/redis.go over a Redis client and a JSON codec, which the program takes from packages.
-- `V` is what Redis stores under a key; every call may fail with an error. The world `W` is what
-- the server holds at that moment: that an entry written with a time to live is dropped later is
-- not modelled.
use serverless_flux.Base.{ℕ, ◌*◌, String, ◌<>◌, Option, none, some, List, [], ◌∷◌}
use serverless_flux.Base.Result.{Result, ok, err, ◌>>=◌}
use serverless_flux.Base.Action.{proceed}
use serverless_flux.Models.{Agent, Function}
use serverless_flux.Memory.{Bytes, Memory}

-- `redis.Client`. A missing key (`redis.Nil`) is `ok none`.
pub record Redis (V W : Type 0) : Type 0 where
  pub keys : String → W → Result (List String)
  pub get : String → W → Result (Option V)
  pub mget : List String → W → Result (List (Option V))
  -- with a time to live in nanoseconds, 0 for none
  pub set : String → V → ℕ → W → Result (Unit {0}) × W
  pub del : List String → W → Result (Unit {0}) × W

-- `encoding/json`, and the conversions between a value of Redis and `[]byte` or `string`.
pub record Codec (F V : Type 0) : Type 0 where
  pub marshal_agent : Agent F → Result V
  pub unmarshal_agent : V → Result (Agent F)
  pub marshal_function : Function → Result V
  pub unmarshal_function : V → Result Function
  pub of_bytes : Bytes → V
  pub to_bytes : V → Bytes

abbrev pub agents_prefix : String
agents_prefix = "flux:agents:"

abbrev pub functions_prefix : String
functions_prefix = "flux:functions:"

abbrev pub code_prefix : String
code_prefix = "flux:code:"

abbrev pub execmap_prefix : String
execmap_prefix = "flux:execmap:"

-- `2*time.Hour`
abbrev pub execmap_ttl : ℕ
execmap_ttl = 2 * 3600 * 1000000000

-- the entries of a decoded list: nil values and those that do not decode are skipped
decoded {ℓ κ} : {V : Type ℓ} {A : Type κ} → (V → Result A) → List (Option V) → List A
decoded read [] = []
decoded read (none ∷ vs) = decoded read vs
decoded read (some v ∷ vs) =
    let rest = decoded read vs in elim (read v) [ ok a ↦ a ∷ rest | err e ↦ rest ]

decode_found {ℓ κ} : {V : Type ℓ} {A : Type κ} → (V → Result A) → Option V → Result (Option A)
decode_found read none = ok none
decode_found read (some v) = do a ← read v; ok (some a)

module _ {V W : Type 0} (R : Redis V W) where
  -- `json.Marshal` and, if that succeeds, `Set` with no expiry
  store : String → Result V → W → Result (Unit {0}) × W
  store key (err e) w = (err e, w)
  store key (ok v) w = R.set key v 0 w

  fetch {ℓ} : {A : Type ℓ} → (V → Result A) → String → W → Result (Option A)
  unfolding decode_found
  fetch read key w = do found ← R.get key w; decode_found read found

  -- the common body of `GetAllFunctions` and `GetAllAgents`
  fetch_listed {ℓ} : {A : Type ℓ} → (V → Result A) → List String → W → Result (List A)
  unfolding decoded
  fetch_listed read [] w = ok []
  fetch_listed read (k ∷ ks) w = do values ← R.mget (k ∷ ks) w; ok (decoded read values)

  fetch_all {ℓ} : {A : Type ℓ} → (V → Result A) → String → W → Result (List A)
  unfolding fetch_listed
  fetch_all read pattern w = do keys ← R.keys pattern w; fetch_listed read keys w

  -- `Del` for the keys of one pattern, if there are any
  delete_keys : List String → W → Result (Unit {0}) × W
  delete_keys [] w = (ok tt, w)
  delete_keys (k ∷ ks) w = R.del (k ∷ ks) w

  delete_matching : Result (List String) → W → Result (Unit {0}) × W
  unfolding delete_keys
  delete_matching (err e) w = (err e, w)
  delete_matching (ok ks) w = delete_keys ks w

  -- the loop of `Flush`, which stops at the first error
  flush_patterns : List String → W → Result (Unit {0}) × W
  unfolding delete_matching
  flush_patterns [] w = (ok tt, w)
  flush_patterns (p ∷ ps) w = proceed (λ _. flush_patterns ps) (delete_matching (R.keys p w) w)

module _ {F V W : Type 0} (R : Redis V W) (J : Codec F V) where
  redis_save_function : Function → W → Result (Unit {0}) × W
  unfolding store
  redis_save_function fn w = store R (functions_prefix <> fn.name) (J.marshal_function fn) w

  redis_get_function : String → W → Result (Option Function)
  unfolding fetch
  redis_get_function name w = fetch R J.unmarshal_function (functions_prefix <> name) w

  redis_get_all_functions : W → Result (List Function)
  unfolding fetch_all
  redis_get_all_functions w = fetch_all R J.unmarshal_function (functions_prefix <> "*") w

  redis_save_code_archive : String → Bytes → W → Result (Unit {0}) × W
  redis_save_code_archive name archive w = R.set (code_prefix <> name) (J.of_bytes archive) 0 w

  redis_get_code_archive : String → W → Result (Option Bytes)
  unfolding fetch
  redis_get_code_archive name w = fetch R (λ v. ok (J.to_bytes v)) (code_prefix <> name) w

  redis_save_agent : Agent F → W → Result (Unit {0}) × W
  unfolding store
  redis_save_agent a w = store R (agents_prefix <> a.id) (J.marshal_agent a) w

  redis_get_agent : String → W → Result (Option (Agent F))
  unfolding fetch
  redis_get_agent id w = fetch R J.unmarshal_agent (agents_prefix <> id) w

  redis_get_all_agents : W → Result (List (Agent F))
  unfolding fetch_all
  redis_get_all_agents w = fetch_all R J.unmarshal_agent (agents_prefix <> "*") w

  redis_delete_agent : String → W → Result (Unit {0}) × W
  redis_delete_agent id w = R.del ((agents_prefix <> id) ∷ []) w

  redis_save_execution_to_agent_map : String → String → W → Result (Unit {0}) × W
  redis_save_execution_to_agent_map execution_id agent_id w =
      R.set (execmap_prefix <> execution_id) (J.of_bytes agent_id) execmap_ttl w

  text_or_empty : Option V → Result String
  text_or_empty none = ok ""
  text_or_empty (some v) = ok (J.to_bytes v)

  redis_get_execution_to_agent_map : String → W → Result String
  unfolding text_or_empty
  redis_get_execution_to_agent_map execution_id w = do
    found ← R.get (execmap_prefix <> execution_id) w
    text_or_empty found

  redis_flush : W → Result (Unit {0}) × W
  unfolding flush_patterns
  redis_flush w =
      flush_patterns R
        ((agents_prefix <> "*")
          ∷ (execmap_prefix <> "*")
          ∷ (functions_prefix <> "*")
          ∷ (code_prefix <> "*")
          ∷ [])
        w

  -- `RedisMemory`, as the interface that the registry uses
  unfoldable pub redis_memory : Memory F W
  unfolding redis_save_function redis_get_function redis_get_all_functions redis_save_code_archive
      redis_get_code_archive redis_save_agent redis_get_agent redis_get_all_agents
      redis_delete_agent redis_save_execution_to_agent_map redis_get_execution_to_agent_map
      redis_flush
  redis_memory = record {
    save_function = redis_save_function;
    get_function = redis_get_function;
    get_all_functions = redis_get_all_functions;
    save_code_archive = redis_save_code_archive;
    get_code_archive = redis_get_code_archive;
    save_agent = redis_save_agent;
    get_agent = redis_get_agent;
    get_all_agents = redis_get_all_agents;
    delete_agent = redis_delete_agent;
    save_execution_to_agent_map = redis_save_execution_to_agent_map;
    get_execution_to_agent_map = redis_get_execution_to_agent_map;
    flush = redis_flush;
  }
