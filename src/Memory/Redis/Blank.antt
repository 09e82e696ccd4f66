-- ===== src/Memory/Redis/Blank.antt =====
-- The reads of pkg/memory/redis.go from a Redis that holds nothing of the program.
use mathlib.Core.List.{Memᴰ}
use serverless_flux.Base.{String, ◌<>◌, ◌≡◌, refl, sym, ◌∙◌, ap, Option, none, List, [], ◌∷◌, map}
use serverless_flux.Base.Result.{Result, ok, >>=-eq-ok, ok-injective}
use serverless_flux.Models.{Agent, Function}
use serverless_flux.Memory.{Bytes, Memory}
use serverless_flux.Memory.Redis.{
  Redis, Codec, decoded, decode_found, fetch, fetch_listed, fetch_all, text_or_empty, redis_memory,
  redis_get_agent, redis_get_all_agents, redis_get_function, redis_get_all_functions,
  redis_get_code_archive, redis_get_execution_to_agent_map,
}
use serverless_flux.Memory.Redis.Keys.{Namespace, agents, functions, code, execmap, prefix}
use serverless_flux.Memory.Redis.Laws.{RedisLaws}
use serverless_flux.Memory.Redis.Flushing.{flush-IsEmpty}

-- A read of the store that succeeds finds nothing.
pub record IsBlank {F W : Type 0} (M : Memory F W) (w : W) : Type 0 where
  pub agent : (id : String) (o : Option (Agent F)) → M.get_agent id w ≡ ok o → o ≡ none
  pub all_agents : (l : List (Agent F)) → M.get_all_agents w ≡ ok l → l ≡ []
  pub function : (name : String) (o : Option Function) → M.get_function name w ≡ ok o → o ≡ none
  pub all_functions : (l : List Function) → M.get_all_functions w ≡ ok l → l ≡ []
  pub archive : (name : String) (o : Option Bytes) → M.get_code_archive name w ≡ ok o → o ≡ none
  pub execution : (id : String) (s : String) → M.get_execution_to_agent_map id w ≡ ok s → s ≡ ""

-- Nothing is decoded from keys without an entry.
decoded-nil :
    {V A : Type 0} (read : V → Result A) (at : String → Option V) (ks : List String)
    → ((k : String) → Memᴰ k ks → at k ≡ none)
    → decoded read (map at ks) ≡ []
unfolding decoded
decoded-nil read at [] h = refl
decoded-nil read at (k ∷ ks) h =
    rw (h k (Memᴰ.head refl)) (decoded-nil read at ks λ j m. h j (Memᴰ.tail m))

module _ {V W : Type 0} (R : Redis V W) (entry : W → String → Option V)
    (L : RedisLaws R entry) where
  get-none : (k : String) (w : W) (o : Option V) → entry w k ≡ none → R.get k w ≡ ok o → o ≡ none
  get-none k w o h e = L.get_ok k w o e ∙ h

  fetch-none :
      {A : Type 0} (read : V → Result A) (k : String) (w : W) (o : Option A)
      → entry w k ≡ none
      → fetch R read k w ≡ ok o
      → o ≡ none
  unfolding fetch decode_found
  fetch-none read k w o h e =
      let (found, p, q) = >>=-eq-ok (R.get k w) _ e in
      sym (ok-injective (ap (decode_found read) (sym (get-none k w found h p)) ∙ q))

  fetch_listed-nil :
      {A : Type 0} (read : V → Result A) (ks : List String) (w : W) (l : List A)
      → ((k : String) → Memᴰ k ks → entry w k ≡ none)
      → fetch_listed R read ks w ≡ ok l
      → l ≡ []
  unfolding fetch_listed
  fetch_listed-nil read [] w l h e = sym (ok-injective e)
  fetch_listed-nil read (k ∷ ks) w l h e =
      let (vs, p, q) = >>=-eq-ok (R.mget (k ∷ ks) w) _ e in
      sym (ok-injective q)
      ∙ ap (decoded read) (L.mget_ok (k ∷ ks) w vs p)
      ∙ decoded-nil read (entry w) (k ∷ ks) h

  fetch_all-nil :
      {A : Type 0} (read : V → Result A) (n : Namespace) (w : W) (l : List A)
      → ((i : String) → entry w (prefix n <> i) ≡ none)
      → fetch_all R read (prefix n <> "*") w ≡ ok l
      → l ≡ []
  unfolding fetch_all
  fetch_all-nil read n w l h e =
      let (ks, p, q) = >>=-eq-ok (R.keys (prefix n <> "*") w) _ e in
      fetch_listed-nil read ks w l
        (λ k m. let (i, same) = L.keys_ok n w ks k p m in ap (entry w) same ∙ h i) q

  module _ {F : Type 0} (J : Codec F V) where
    empty-IsBlank :
        (w : W)
        → ((n : Namespace) (i : String) → entry w (prefix n <> i) ≡ none)
        → IsBlank (redis_memory R J) w
    unfolding redis_memory redis_get_agent redis_get_all_agents redis_get_function
        redis_get_all_functions redis_get_code_archive redis_get_execution_to_agent_map
        text_or_empty
    empty-IsBlank w h = record {
      agent = λ id o. fetch-none J.unmarshal_agent _ w o (h agents id);
      all_agents = λ l. fetch_all-nil J.unmarshal_agent agents w l (h agents);
      function = λ name o. fetch-none J.unmarshal_function _ w o (h functions name);
      all_functions = λ l. fetch_all-nil J.unmarshal_function functions w l (h functions);
      archive = λ name o. fetch-none (λ v. ok (J.to_bytes v)) _ w o (h code name);
      execution = λ id s e.
          let (found, p, q) = >>=-eq-ok (R.get (prefix execmap <> id) w) _ e in
          sym
            (ok-injective (ap (text_or_empty R J) (sym (get-none _ w found (h execmap id) p)) ∙ q));
    }

    -- If `Flush` reports no error, a read that succeeds finds nothing.
    pub flush-IsBlank :
        (w : W)
        → ((redis_memory R J).flush w).0 ≡ ok tt
        → IsBlank (redis_memory R J) ((redis_memory R J).flush w).1
    flush-IsBlank w h = empty-IsBlank _ (flush-IsEmpty R entry L J w h)
