-- ===== src/Tests/Server.antt =====
-- A Redis server as a list of entries, with a codec that keeps the records as they are.
use mathlib.Core.List.{Memᴰ}
use text.Mathlib.TextEquality.{starts_with_iff}
use text.Mathlib.TextPositions.{starts_with-append}
use serverless_flux.Base.{
  ℕ, String, ◌<>◌, ◌≡◌, refl, sym, ◌∙◌, subst, ◌⊎◌, inl, inr, Bool, ◌&&◌, ◌||◌, Option, none, some,
  List, [], ◌∷◌, map, arith, keep, mem-keep, keep-mem, ◌==◌, eq_iff, eq_refl, starts_with,
  Bool-cases, mem-cons_cases,
}
use serverless_flux.Base.Dict
use serverless_flux.Base.Dict.{Dict, get-put, get-remove}
use serverless_flux.Base.Result.{Result, ok, err, ok-injective}
use serverless_flux.Models.{Agent, Function}
use serverless_flux.Memory.{Memory, Contents, AgentLaws}
use serverless_flux.Memory.Redis.{Redis, Codec, redis_memory}
use serverless_flux.Memory.Redis.Keys.{Namespace, agents, functions, code, execmap, prefix}
use serverless_flux.Memory.Redis.Laws.{RedisLaws, CodecLaws, redis_contents, redis_memory-AgentLaws}

pub data Cell : Type 0 where
  agent_cell : Agent ℕ → Cell
  function_cell : Function → Cell
  text_cell : String → Cell

abbrev pub Server : Type 0
Server = Dict Cell

abbrev pub names : Server → List String
names [] = []
names ((k, _) ∷ w) = k ∷ names w

abbrev pub matches : String → String → Bool
matches pattern k =
    (pattern == "flux:agents:*" && starts_with k "flux:agents:")
    || (pattern == "flux:functions:*" && starts_with k "flux:functions:")
    || (pattern == "flux:code:*" && starts_with k "flux:code:")
    || (pattern == "flux:execmap:*" && starts_with k "flux:execmap:")

unfoldable pub remove_all : List String → Server → Server
remove_all [] w = w
remove_all (k ∷ ks) w = Dict.remove k (remove_all ks w)

unfoldable pub server : Redis Cell Server
unfolding remove_all Dict.get Dict.put Dict.remove
server = record {
  keys = λ pattern w. ok (keep (matches pattern) (names w));
  get = λ k w. ok (Dict.get k w);
  mget = λ ks w. ok (map (λ k. Dict.get k w) ks);
  set = λ k v ttl w. (ok tt, Dict.put k v w);
  del = λ ks w. (ok tt, remove_all ks w);
}

abbrev agent_of : Cell → Result (Agent ℕ)
agent_of (agent_cell a) = ok a
agent_of _ = err "not an agent"

abbrev function_of : Cell → Result Function
function_of (function_cell f) = ok f
function_of _ = err "not a function"

abbrev text_of : Cell → String
text_of (text_cell s) = s
text_of _ = ""

unfoldable pub codec : Codec ℕ Cell
codec = record {
  marshal_agent = λ a. ok (agent_cell a);
  unmarshal_agent = agent_of;
  marshal_function = λ f. ok (function_cell f);
  unmarshal_function = function_of;
  of_bytes = text_cell;
  to_bytes = text_of;
}

abbrev pub entry : Server → String → Option Cell
entry w k = Dict.get k w

pub codec_laws : CodecLaws codec
unfolding codec
codec_laws = record {
  agent_back = λ a v h. rw (← ok-injective h);
  function_back = λ f v h. rw (← ok-injective h);
  bytes_back = λ b. refl;
}

pub matches-prefix :
    (n : Namespace) (k : String) → matches (prefix n <> "*") k ≡ starts_with k (prefix n)
matches-prefix agents k = ground arith
matches-prefix functions k = ground arith
matches-prefix code k = ground arith
matches-prefix execmap k = ground arith

pub mem-names : (w : Server) (k : String) (v : Cell) → Dict.get k w ≡ some v → Memᴰ k (names w)
unfolding Dict.get
mem-names [] k v h = cc
mem-names ((j, u) ∷ w) k v h = elim (Bool-cases (j == k)) [
  | inl e ↦ Memᴰ.head (sym ((eq_iff j k).0 e))
  | inr e ↦ Memᴰ.tail (mem-names w k v (rw e at h))
]

pub get-remove_all_mem :
    (ks : List String) (w : Server) (k : String) → Memᴰ k ks → Dict.get k (remove_all ks w) ≡ none
unfolding remove_all
get-remove_all_mem [] w k m = elim m [ ]
get-remove_all_mem (j ∷ ks) w k m = rw get-remove (elim (Bool-cases (j == k)) [
  | inl e ↦ rw e
  | inr e ↦ rw e (elim (mem-cons_cases m) [
    | inl p ↦ cc ((eq_iff j k).1 (sym p))
    | inr n ↦ get-remove_all_mem ks w k n
  ])
])

pub get-remove_all_any :
    (ks : List String) (w : Server) (k : String)
    → (Dict.get k (remove_all ks w) ≡ none) ⊎ (Dict.get k (remove_all ks w) ≡ Dict.get k w)
unfolding remove_all
get-remove_all_any [] w k = inr refl
get-remove_all_any (j ∷ ks) w k = rw get-remove (elim (Bool-cases (j == k)) [
  | inl e ↦ rw e (inl refl)
  | inr e ↦ rw e (get-remove_all_any ks w k)
])

pub get-remove_all_other :
    (ks : List String) (w : Server) (k : String)
    → (Memᴰ k ks → ⊥)
    → Dict.get k (remove_all ks w) ≡ Dict.get k w
unfolding remove_all
get-remove_all_other [] w k h = refl
get-remove_all_other (j ∷ ks) w k h = rw get-remove (elim (Bool-cases (j == k)) [
  | inl e ↦ absurd (h (Memᴰ.head (sym ((eq_iff j k).0 e))))
  | inr e ↦ rw e (get-remove_all_other ks w k (λ m. h (Memᴰ.tail m)))
])

pub server_laws : RedisLaws server entry
unfolding server
server_laws = record {
  get_ok = λ k w o h. sym (ok-injective h);
  mget_ok = λ ks w vs h. sym (ok-injective h);
  keys_ok = λ n w ks k h m.
      let in_keep = subst (Memᴰ k) (sym (ok-injective h)) m in
      let (i, e) =
        (starts_with_iff k (prefix n)).0 (
          sym (matches-prefix n k)
          ∙ (mem-keep (matches (prefix n <> "*")) k (names w) in_keep).1) in
      (i, sym e);
  keys_all = λ n w ks i v h e. subst (Memᴰ (prefix n <> i)) (ok-injective h) (
      keep-mem (matches (prefix n <> "*")) (prefix n <> i) (names w)
        (mem-names w (prefix n <> i) v e)
        (matches-prefix n (prefix n <> i) ∙ starts_with-append (prefix n) i));
  set_ok = λ k v ttl w h. simp (get-put, eq_refl);
  set_any = λ k v ttl w. inl (simp (get-put, eq_refl));
  set_other = λ k v ttl w j h. simp (get-put, h);
  del_ok = λ ks w k h m. get-remove_all_mem ks w k m;
  del_any = λ ks w k. get-remove_all_any ks w k;
  del_other = λ ks w k h. get-remove_all_other ks w k h;
}

-- The store of the tests, and what it holds.
abbrev pub store : Memory ℕ Server
store = redis_memory server codec

abbrev pub contents : Contents ℕ Server
contents = redis_contents codec entry

pub store_laws : AgentLaws store contents
store_laws = redis_memory-AgentLaws server codec entry server_laws codec_laws
