-- ===== src/Memory/Redis/Flushing.antt =====
-- `Flush` of pkg/memory/redis.go: what is left of what the program stores.
use mathlib.Core.List.{Memᴰ}
use serverless_flux.Base.{
  String, ◌<>◌, ◌≡◌, refl, ◌∙◌, inl, inr, Option, Option-cases, none, List, [], ◌∷◌, All,
}
use serverless_flux.Base.Result.{Result, ok, err}
use serverless_flux.Base.Action.{proceed}
use serverless_flux.Memory.Redis.{
  Redis, Codec, delete_keys, delete_matching, flush_patterns, redis_flush, redis_memory,
}
use serverless_flux.Memory.Redis.Keys.{Namespace, agents, functions, code, execmap, prefix}
use serverless_flux.Memory.Redis.Laws.{RedisLaws}

module _ {V W : Type 0} (R : Redis V W) (entry : W → String → Option V)
    (L : RedisLaws R entry) where
  -- Nothing is stored under the prefix.
  abbrev pub IsEmpty : Namespace → W → Type 0
  IsEmpty n w = (i : String) → entry w (prefix n <> i) ≡ none

  -- What is not there does not come back.
  gone-delete_keys :
      (ks : List String) (w : W) (k : String)
      → entry w k ≡ none
      → entry (delete_keys R ks w).1 k ≡ none
  unfolding delete_keys
  gone-delete_keys [] w k h = h
  gone-delete_keys (j ∷ ks) w k h = elim (L.del_any (j ∷ ks) w k) [ inl e ↦ e | inr e ↦ e ∙ h ]

  gone-delete_matching :
      (r : Result (List String)) (w : W) (k : String)
      → entry w k ≡ none
      → entry (delete_matching R r w).1 k ≡ none
  unfolding delete_matching
  gone-delete_matching (err e) w k h = h
  gone-delete_matching (ok ks) w k h = gone-delete_keys ks w k h

  listed-delete_keys :
      (ks : List String) (w : W) (k : String)
      → (delete_keys R ks w).0 ≡ ok tt
      → Memᴰ k ks
      → entry (delete_keys R ks w).1 k ≡ none
  unfolding delete_keys
  listed-delete_keys [] w k h m = elim m [ ]
  listed-delete_keys (j ∷ ks) w k h m = L.del_ok (j ∷ ks) w k h m

  delete_matching-IsEmpty :
      (n : Namespace) (w : W)
      → (delete_matching R (R.keys (prefix n <> "*") w) w).0 ≡ ok tt
      → IsEmpty n (delete_matching R (R.keys (prefix n <> "*") w) w).1
  unfolding delete_matching
  delete_matching-IsEmpty n w h i = from (R.keys (prefix n <> "*") w) refl h
    where
      from :
          (r : Result (List String))
          → R.keys (prefix n <> "*") w ≡ r
          → (delete_matching R r w).0 ≡ ok tt
          → entry (delete_matching R r w).1 (prefix n <> i) ≡ none
      from (err e) q h = cc
      from (ok ks) q h = elim (Option-cases (entry w (prefix n <> i))) [
        | inl e ↦ gone-delete_keys ks w _ e
        | inr (v, e) ↦ listed-delete_keys ks w _ h (L.keys_all n w ks i v q e)
      ]

  abbrev patterns : List Namespace → List String
  patterns [] = []
  patterns (n ∷ ns) = (prefix n <> "*") ∷ patterns ns

  gone-flush_patterns :
      (ps : List String) (w : W) (k : String)
      → entry w k ≡ none
      → entry (flush_patterns R ps w).1 k ≡ none
  unfolding flush_patterns
  gone-flush_patterns [] w k h = h
  gone-flush_patterns (p ∷ ps) w k h =
      from (delete_matching R (R.keys p w) w) (gone-delete_matching (R.keys p w) w k h)
        (λ v. gone-flush_patterns ps v k)
    where
      from :
          (r : Result (Unit {0}) × W)
          → entry r.1 k ≡ none
          → ((v : W) → entry v k ≡ none → entry (flush_patterns R ps v).1 k ≡ none)
          → entry (proceed (λ _. flush_patterns R ps) r).1 k ≡ none
      from (err e, v) g rest = g
      from (ok _, v) g rest = rest v g

  flush_patterns-IsEmpty :
      (ns : List Namespace) (w : W)
      → (flush_patterns R (patterns ns) w).0 ≡ ok tt
      → All (λ n. IsEmpty n (flush_patterns R (patterns ns) w).1) ns
  unfolding flush_patterns
  flush_patterns-IsEmpty [] w h = tt
  flush_patterns-IsEmpty (n ∷ ns) w h =
      from (delete_matching R (R.keys (prefix n <> "*") w) w) (delete_matching-IsEmpty n w) h
        (flush_patterns-IsEmpty ns)
    where
      from :
          (r : Result (Unit {0}) × W)
          → (r.0 ≡ ok tt → IsEmpty n r.1)
          → (proceed (λ _. flush_patterns R (patterns ns)) r).0 ≡ ok tt
          → ((v : W)
              → (flush_patterns R (patterns ns) v).0 ≡ ok tt
              → All (λ m. IsEmpty m (flush_patterns R (patterns ns) v).1) ns)
          → All (λ m. IsEmpty m (proceed (λ _. flush_patterns R (patterns ns)) r).1) (n ∷ ns)
      from (err e, v) g h rest = cc
      from (ok _, v) g h rest = (λ i. gone-flush_patterns (patterns ns) v _ (g refl i), rest v h)

  -- If `Flush` reports no error, nothing that the program stores is left: no agent, no execution,
  -- no function and no code archive.
  pub flush-IsEmpty :
      {F : Type 0} (J : Codec F V) (w : W)
      → ((redis_memory R J).flush w).0 ≡ ok tt
      → (n : Namespace) (i : String) → entry ((redis_memory R J).flush w).1 (prefix n <> i) ≡ none
  unfolding redis_memory redis_flush
  flush-IsEmpty J w h n i = at n i
    where
      all :
          All
            (λ m.
              IsEmpty m
                (flush_patterns R (patterns (agents ∷ execmap ∷ functions ∷ code ∷ [])) w).1)
            (agents ∷ execmap ∷ functions ∷ code ∷ [])
      all = flush_patterns-IsEmpty (agents ∷ execmap ∷ functions ∷ code ∷ []) w h

      at :
          (m : Namespace)
          → IsEmpty m (flush_patterns R (patterns (agents ∷ execmap ∷ functions ∷ code ∷ [])) w).1
      at agents = all.0
      at execmap = all.1.0
      at functions = all.1.1.0
      at code = all.1.1.1.0
