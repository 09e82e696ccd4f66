-- ===== src/Memory/Redis/Expiry.antt =====
-- The entries of pkg/memory/redis.go that expire: the map from executions to agents, over a Redis
-- that drops an entry with a time to live once that has passed.
use serverless_flux.Base.{
  ℕ, ◌+◌, ◌-◌, ◌*◌, ◌<◌, String, ◌<>◌, ◌≡◌, refl, sym, ap, ◌∙◌, false, Option, some, List, [], ◌∷◌,
  All, ◌==◌, arith,
}
use mathlib.Core.List.{Memᴰ}
use serverless_flux.Base.Result.{Result, ok, err, >>=-eq-ok, ok-injective}
use serverless_flux.Models.{Agent, Function}
use serverless_flux.Memory.{Bytes, Memory}
use serverless_flux.Memory.Redis.{
  Redis, Codec, execmap_ttl, execmap_prefix, redis_save_agent, redis_save_function, store,
  redis_save_execution_to_agent_map, redis_get_execution_to_agent_map, text_or_empty, redis_memory,
}
use serverless_flux.Memory.Redis.Keys.{agents, functions, code, execmap, prefix, key-other, key-eq}
use serverless_flux.Memory.Redis.Laws.{RedisLaws, CodecLaws, not-mem-key}

-- What Redis documents of expiry. `left w k` is how long the entry under `k` has to live, for one
-- with a time to live, and `pass t` lets `t` nanoseconds go by.
pub record ExpiryLaws {V W : Type 0} (R : Redis V W) (entry : W → String → Option V)
    (left : W → String → ℕ) (pass : ℕ → W → W) : Type 0 where
  pub set_left :
      (k : String) (v : V) (ttl : ℕ) (w : W)
      → 0 < ttl
      → (R.set k v ttl w).0 ≡ ok tt
      → left (R.set k v ttl w).1 k ≡ ttl
  pub set_left_other :
      (k : String) (v : V) (ttl : ℕ) (w : W) (j : String)
      → (k == j) ≡ false
      → left (R.set k v ttl w).1 j ≡ left w j
  pub del_left_other :
      (ks : List String) (w : W) (k : String) → (Memᴰ k ks → ⊥) → left (R.del ks w).1 k ≡ left w k
  pub pass_entry : (t : ℕ) (w : W) (k : String) → t < left w k → entry (pass t w) k ≡ entry w k
  pub pass_left : (t : ℕ) (w : W) (k : String) → t < left w k → left (pass t w) k ≡ left w k - t

-- What may happen to the store: the writes of the program other than Flush, and time.
pub data StoreEvent (F : Type 0) : Type 0 where
  agent_saved : Agent F → StoreEvent F
  agent_deleted : String → StoreEvent F
  function_saved : Function → StoreEvent F
  archive_saved : String → Bytes → StoreEvent F
  execution_saved : String → String → StoreEvent F
  passed : ℕ → StoreEvent F

abbrev pub lasts : {F : Type 0} → StoreEvent F → ℕ
lasts (passed t) = t
lasts _ = 0

abbrev pub elapsed : {F : Type 0} → List (StoreEvent F) → ℕ
elapsed [] = 0
elapsed (e ∷ es) = lasts e + elapsed es

-- The event is not a write for the execution `id`.
abbrev pub Leaves : {F : Type 0} → String → StoreEvent F → Type 0
Leaves id (execution_saved j agent) = (j == id) ≡ false
Leaves id _ = Unit {0}

module _ {F W : Type 0} (M : Memory F W) (pass : ℕ → W → W) where
  unfoldable pub happen : StoreEvent F → W → W
  happen (agent_saved a) w = (M.save_agent a w).1
  happen (agent_deleted id) w = (M.delete_agent id w).1
  happen (function_saved f) w = (M.save_function f w).1
  happen (archive_saved name b) w = (M.save_code_archive name b w).1
  happen (execution_saved id agent) w = (M.save_execution_to_agent_map id agent w).1
  happen (passed t) w = pass t w

  unfoldable pub happen_all : List (StoreEvent F) → W → W
  unfolding happen
  happen_all [] w = w
  happen_all (e ∷ es) w = happen_all es (happen e w)

module _ {F V W : Type 0} (R : Redis V W) (J : Codec F V) (entry : W → String → Option V)
    (left : W → String → ℕ) (pass : ℕ → W → W) (L : RedisLaws R entry)
    (X : ExpiryLaws R entry left pass) where
  -- The entry of an execution has a value, and more than `t` nanoseconds to live.
  record Lives (id : String) (v : V) (t : ℕ) (w : W) : Type 0 where
    there : entry w (prefix execmap <> id) ≡ some v
    long : t < left w (prefix execmap <> id)

  -- a write under another key
  set-Lives :
      (id : String) (v : V) (t : ℕ) (w : W) (k : String) (u : V) (ttl : ℕ)
      → (k == prefix execmap <> id) ≡ false
      → Lives id v t w
      → Lives id v t (R.set k u ttl w).1
  set-Lives id v t w k u ttl other h = record {
    there = L.set_other k u ttl w _ other ∙ h.there;
    long = rw (X.set_left_other k u ttl w _ other) h.long;
  }

  store-Lives :
      (id : String) (v : V) (t : ℕ) (w : W) (k : String) (r : Result V)
      → (k == prefix execmap <> id) ≡ false
      → Lives id v t w
      → Lives id v t (store R k r w).1
  unfolding store
  store-Lives id v t w k (err e) other h = h
  store-Lives id v t w k (ok u) other h = set-Lives id v t w k u 0 other h

  eased : {id : String} {v : V} {t : ℕ} {w : W} → Lives id v (0 + t) w → Lives id v t w
  eased h = record { there = h.there; long = omega (arith, h.long) }

  -- Each event leaves the entry as much time as it has, less what went by.
  happen-Lives :
      (id : String) (v : V) (e : StoreEvent F) (t : ℕ) (w : W)
      → Leaves id e
      → Lives id v (lasts e + t) w
      → Lives id v t (happen (redis_memory R J) pass e w)
  unfolding happen redis_memory redis_save_agent redis_save_function
  happen-Lives id v (agent_saved a) t w u h =
      store-Lives id v t w _ (J.marshal_agent a) (key-other agents execmap a.id id refl) (eased h)
  happen-Lives id v (agent_deleted j) t w u h = record {
    there = L.del_other _ w _ (not-mem-key _ _ (key-other agents execmap j id refl)) ∙ h.there;
    long =
        rw (X.del_left_other _ w _ (not-mem-key _ _ (key-other agents execmap j id refl)))
          (eased h).long;
  }
  happen-Lives id v (function_saved f) t w u h =
      store-Lives id v t w _ (J.marshal_function f) (key-other functions execmap f.name id refl)
        (eased h)
  happen-Lives id v (archive_saved name b) t w u h =
      set-Lives id v t w _ _ 0 (key-other code execmap name id refl) (eased h)
  happen-Lives id v (execution_saved j agent) t w u h =
      set-Lives id v t w _ _ execmap_ttl (key-eq execmap j id u) (eased h)
  happen-Lives id v (passed d) t w u h = record {
    there = X.pass_entry d w _ (omega (arith, h.long)) ∙ h.there;
    long = omega (arith, X.pass_left d w (prefix execmap <> id), h.long);
  }

  happen_all-Lives :
      (id : String) (v : V) (es : List (StoreEvent F)) (w : W)
      → All (Leaves id) es
      → Lives id v (elapsed es) w
      → Lives id v 0 (happen_all (redis_memory R J) pass es w)
  unfolding happen_all
  happen_all-Lives id v [] w u h = h
  happen_all-Lives id v (e ∷ es) w (u, us) h =
      happen_all-Lives id v es _ us (happen-Lives id v e (elapsed es) w u h)

  text_of :
      (id agent : String) (w : W) (s : String)
      → entry w (prefix execmap <> id) ≡ some (J.of_bytes agent)
      → (redis_memory R J).get_execution_to_agent_map id w ≡ ok s
      → s ≡ J.to_bytes (J.of_bytes agent)
  unfolding redis_memory redis_get_execution_to_agent_map text_or_empty
  text_of id agent w s h e =
      let (found, p, q) = >>=-eq-ok (R.get (execmap_prefix <> id) w) _ e in
      let same : found ≡ some (J.of_bytes agent) = L.get_ok _ w found p ∙ h in
      sym (ok-injective (ap (text_or_empty R J) (sym same) ∙ q))

  -- Once an execution was recorded with its agent, every read of it that succeeds within two hours
  -- answers with that agent, whatever else is written in between, for other executions, agents and
  -- functions, and whichever of those writes fail.
  pub get-save_execution :
      (K : CodecLaws J) (id agent : String) (es : List (StoreEvent F)) (w : W) (s : String)
      → ((redis_memory R J).save_execution_to_agent_map id agent w).0 ≡ ok tt
      → All (Leaves id) es
      → elapsed es < 2 * 3600 * 1000000000
      → (redis_memory R J).get_execution_to_agent_map id (
          happen_all
            (redis_memory R J)
            pass
            es
            ((redis_memory R J).save_execution_to_agent_map id agent w).1)
        ≡ ok s
      → s ≡ agent
  unfolding redis_memory redis_save_execution_to_agent_map
  get-save_execution K id agent es w s saved us short read =
      let lives =
        happen_all-Lives id (J.of_bytes agent) es
          (R.set (prefix execmap <> id) (J.of_bytes agent) execmap_ttl w).1 us
          (record {
            there = L.set_ok _ _ execmap_ttl w saved;
            long = rw (X.set_left _ _ execmap_ttl w (omega arith) saved) short;
          }) in
      text_of id agent _ s lives.there read ∙ K.bytes_back agent
