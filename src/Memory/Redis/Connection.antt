-- ===== src/Memory/Redis/Connection.antt =====
-- `NewRedisMemory` and `Close` of pkg/memory/redis.go: the client that the store works over.
use serverless_flux.Base.{String, ◌≡◌, refl}
use serverless_flux.Base.Result.{Result, ok, err}
use serverless_flux.Base.Startup.{Startup, going, panicked}
use serverless_flux.Memory.{Memory}
use serverless_flux.Memory.Redis.{Redis, Codec, redis_memory}

-- `redis.ParseURL`, `redis.NewClient` and the client's `Close`.
pub record RedisPackage (Options V W : Type 0) : Type 0 where
  pub parse_url : String → Result Options
  pub new_client : Options → Redis V W
  pub close_client : Options → W → Result (Unit {0}) × W

module _ {F Options V W : Type 0} (P : RedisPackage Options V W) (J : Codec F V) where
  memory_of : Result Options → Startup (Memory F W)
  memory_of (err e) = panicked e
  memory_of (ok options) = going (redis_memory (P.new_client options) J)

  -- for the configured address
  unfoldable pub new_redis_memory : String → Startup (Memory F W)
  unfolding memory_of
  new_redis_memory addr = memory_of (P.parse_url addr)

  memory_of-eq-going :
      (r : Result Options) (m : Memory F W)
      → memory_of r ≡ going m
      → (options : Options) × (r ≡ ok options) × (m ≡ redis_memory (P.new_client options) J)
  unfolding memory_of
  memory_of-eq-going (err e) m h = cc
  memory_of-eq-going (ok options) m h = (options, refl, cc)

  -- A store that was made works over a client for its address.
  pub new_redis_memory-eq-going :
      (addr : String) (m : Memory F W)
      → new_redis_memory addr ≡ going m
      → (options : Options) × (P.parse_url addr ≡ ok options)
        × (m ≡ redis_memory (P.new_client options) J)
  unfolding new_redis_memory
  new_redis_memory-eq-going addr m h = memory_of-eq-going (P.parse_url addr) m h

  -- of the store that was made with the options
  unfoldable pub close : Options → W → Result (Unit {0}) × W
  close options w = P.close_client options w
