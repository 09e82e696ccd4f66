-- ===== src/Memory/Redis/Laws.antt =====
-- pkg/memory/redis.go implements what the registry relies on, given what Redis and the JSON codec
-- document.
use serverless_flux.Base.{
  String, ◌<>◌, ◌≡◌, refl, sym, ◌∙◌, subst, ap, ◌⊎◌, inl, inr, false, Option, none, some, List, [],
  ◌∷◌, ◌==◌, eq_iff, map,
}
use mathlib.Core.List.{Memᴰ}
use serverless_flux.Base.Result.{Result, ok, err, >>=-eq-ok, ok-injective}
use serverless_flux.Models.{Agent, Function}
use serverless_flux.Memory.{Bytes, Contents, SameButAgents, AgentLaws}
use serverless_flux.Memory.Redis.{
  Redis, Codec, decoded, decode_found, store, fetch, fetch_listed, fetch_all, redis_get_all_agents,
  redis_memory, agents_prefix,
}
use serverless_flux.Memory.Redis.Keys.{
  Namespace, agents, functions, code, execmap, prefix, same, key-other, key-eq,
}

-- What the commands of Redis do to the value under each key, `entry w`. A command that fails has
-- taken effect or not.
pub record RedisLaws {V W : Type 0} (R : Redis V W) (entry : W → String → Option V) : Type 0 where
  pub get_ok : (k : String) (w : W) (o : Option V) → R.get k w ≡ ok o → o ≡ entry w k
  pub mget_ok :
      (ks : List String) (w : W) (vs : List (Option V))
      → R.mget ks w ≡ ok vs
      → vs ≡ map (entry w) ks
  -- the pattern of a namespace matches the stored keys that begin with its prefix
  pub keys_ok :
      (n : Namespace) (w : W) (ks : List String) (k : String)
      → R.keys (prefix n <> "*") w ≡ ok ks
      → Memᴰ k ks
      → (i : String) × (k ≡ prefix n <> i)
  pub keys_all :
      (n : Namespace) (w : W) (ks : List String) (i : String) (v : V)
      → R.keys (prefix n <> "*") w ≡ ok ks
      → entry w (prefix n <> i) ≡ some v
      → Memᴰ (prefix n <> i) ks
  pub set_ok :
      (k : String) (v : V) (ttl : _) (w : W)
      → (R.set k v ttl w).0 ≡ ok tt
      → entry (R.set k v ttl w).1 k ≡ some v
  pub set_any :
      (k : String) (v : V) (ttl : _) (w : W)
      → (entry (R.set k v ttl w).1 k ≡ some v) ⊎ (entry (R.set k v ttl w).1 k ≡ entry w k)
  pub set_other :
      (k : String) (v : V) (ttl : _) (w : W) (j : String)
      → (k == j) ≡ false
      → entry (R.set k v ttl w).1 j ≡ entry w j
  pub del_ok :
      (ks : List String) (w : W) (k : String)
      → (R.del ks w).0 ≡ ok tt
      → Memᴰ k ks
      → entry (R.del ks w).1 k ≡ none
  pub del_any :
      (ks : List String) (w : W) (k : String)
      → (entry (R.del ks w).1 k ≡ none) ⊎ (entry (R.del ks w).1 k ≡ entry w k)
  pub del_other :
      (ks : List String) (w : W) (k : String) → (Memᴰ k ks → ⊥) → entry (R.del ks w).1 k ≡ entry w k

-- What is written is read back.
pub record CodecLaws {F V : Type 0} (J : Codec F V) : Type 0 where
  pub agent_back : (a : Agent F) (v : V) → J.marshal_agent a ≡ ok v → J.unmarshal_agent v ≡ ok a
  pub function_back :
      (f : Function) (v : V) → J.marshal_function f ≡ ok v → J.unmarshal_function v ≡ ok f
  pub bytes_back : (b : Bytes) → J.to_bytes (J.of_bytes b) ≡ b

abbrev value_of {ℓ} : {A : Type ℓ} → Result A → Option A
value_of (ok a) = some a
value_of (err e) = none

abbrev then_read {ℓ κ} : {V : Type ℓ} {A : Type κ} → (V → Result A) → Option V → Option A
then_read read none = none
then_read read (some v) = value_of (read v)

-- The store as the registry sees it.
abbrev pub redis_contents : {F V W : Type 0} → Codec F V → (W → String → Option V) → Contents F W
redis_contents J entry = record {
  agents = λ w k. then_read J.unmarshal_agent (entry w (prefix agents <> k));
  functions = λ w k. then_read J.unmarshal_function (entry w (prefix functions <> k));
  archives = λ w k. then_read (λ v. ok (J.to_bytes v)) (entry w (prefix code <> k));
  executions = λ w k. then_read (λ v. ok (J.to_bytes v)) (entry w (prefix execmap <> k));
}

-- A value that stands in a decoded list was read from one of the values.
decoded-cons :
    {V A : Type 0} (read : V → Result A) (o : Option V) (os : List (Option V)) (a : A)
    → Memᴰ a (decoded read (o ∷ os))
    → (then_read read o ≡ some a) ⊎ Memᴰ a (decoded read os)
unfolding decoded
decoded-cons read none os a m = inr m
decoded-cons {A} read (some v) os a m = from (read v) refl m
  where
    from :
        (r : Result A)
        → read v ≡ r
        → Memᴰ a (elim r [ ok b ↦ b ∷ decoded read os | err e ↦ decoded read os ])
        → (value_of (read v) ≡ some a) ⊎ Memᴰ a (decoded read os)
    from (ok b) e (Memᴰ.head p) = inl (rw (e, p))
    from (ok b) e (Memᴰ.tail n) = inr n
    from (err x) e n = inr n

decoded-mem :
    {V A : Type 0} (read : V → Result A) (at : String → Option V) (ks : List String) (a : A)
    → Memᴰ a (decoded read (map at ks))
    → (k : String) × Memᴰ k ks × (then_read read (at k) ≡ some a)
unfolding decoded
decoded-mem read at [] a m = elim m [ ]
decoded-mem read at (k ∷ ks) a m = elim (decoded-cons read (at k) (map at ks) a m) [
  | inl e ↦ (k, Memᴰ.head refl, e)
  | inr n ↦ let (j, there, e) = decoded-mem read at ks a n in (j, Memᴰ.tail there, e)
]

decode_found-eq :
    {V A : Type 0} (read : V → Result A) (o : Option V) (p : Option A)
    → decode_found read o ≡ ok p
    → p ≡ then_read read o
unfolding decode_found
decode_found-eq read none p h = cc
decode_found-eq read (some v) p h =
    let (a, e, e') = >>=-eq-ok (read v) _ h in rw (e, then_read) (sym (ok-injective e'))

-- A value of the result stands in the list that the keys of a pattern were read to.
mem-fetch_listed :
    {V W A : Type 0} (R : Redis V W) (entry : W → String → Option V) (L : RedisLaws R entry)
    (read : V → Result A) (ks : List String) (w : W) (l : List A) (a : A)
    → fetch_listed R read ks w ≡ ok l
    → Memᴰ a l
    → (k : String) × Memᴰ k ks × (then_read read (entry w k) ≡ some a)
unfolding fetch_listed
mem-fetch_listed R entry L read [] w l a h m = elim (subst (Memᴰ a) (sym (ok-injective h)) m) [ ]
mem-fetch_listed R entry L read (k ∷ ks) w l a h m =
    let (vs, e, e') = >>=-eq-ok (R.mget (k ∷ ks) w) _ h in
    decoded-mem read (entry w) (k ∷ ks) a (
      subst (λ x. Memᴰ a (decoded read x)) (L.mget_ok (k ∷ ks) w vs e)
        (subst (Memᴰ a) (sym (ok-injective e')) m))

-- A list of one key has no other.
pub not-mem-key : (k j : String) → (k == j) ≡ false → Memᴰ j (k ∷ []) → ⊥
not-mem-key k j h (Memᴰ.head p) = cc ((eq_iff k j).1 (sym p))
not-mem-key k j h (Memᴰ.tail m) = elim m [ ]

module _ {F V W : Type 0} (R : Redis V W) (J : Codec F V) (entry : W → String → Option V)
    (L : RedisLaws R entry) (K : CodecLaws J) where
  abbrev C : Contents F W
  C = redis_contents J entry

  fetch_ok :
      {A : Type 0} (read : V → Result A) (k : String) (w : W) (o : Option A)
      → fetch R read k w ≡ ok o
      → o ≡ then_read read (entry w k)
  unfolding fetch
  fetch_ok read k w o h =
      let (found, e, e') = >>=-eq-ok (R.get k w) _ h in
      decode_found-eq read found o e' ∙ ap (then_read read) (L.get_ok k w found e)

  get_all_agents_mem :
      (w : W) (l : List (Agent F)) (a : Agent F)
      → redis_get_all_agents R J w ≡ ok l
      → Memᴰ a l
      → (k : String) × (C.agents w k ≡ some a)
  unfolding redis_get_all_agents fetch_all
  get_all_agents_mem w l a h m =
      let (ks, e, e') = >>=-eq-ok (R.keys (agents_prefix <> "*") w) _ h in
      let (k, there, at) = mem-fetch_listed R entry L J.unmarshal_agent ks w l a e' m in
      let (i, p) = L.keys_ok agents w ks k e there in (i, rw (← p) at)

  store_ok :
      {A : Type 0} (read : V → Result A) (r : Result V) (k : String) (w : W) (a : A)
      → ((v : V) → r ≡ ok v → read v ≡ ok a)
      → (store R k r w).0 ≡ ok tt
      → then_read read (entry (store R k r w).1 k) ≡ some a
  unfolding store
  store_ok read (ok v) k w a h e = rw (L.set_ok k v 0 w e) (rw (h v refl))
  store_ok read (err x) k w a h e = cc

  store_any :
      {A : Type 0} (read : V → Result A) (r : Result V) (k : String) (w : W) (a : A)
      → ((v : V) → r ≡ ok v → read v ≡ ok a)
      → (then_read read (entry (store R k r w).1 k) ≡ some a)
        ⊎ (then_read read (entry (store R k r w).1 k) ≡ then_read read (entry w k))
  unfolding store
  store_any read (err x) k w a h = inr refl
  store_any read (ok v) k w a h = elim (L.set_any k v 0 w) [
    | inl e ↦ inl (rw e (rw (h v refl)))
    | inr e ↦ inr (rw e)
  ]

  store_other :
      (r : Result V) (k j : String) (w : W)
      → (k == j) ≡ false
      → entry (store R k r w).1 j ≡ entry w j
  unfolding store
  store_other (err x) k j w h = refl
  store_other (ok v) k j w h = L.set_other k v 0 w j h

  only_agents :
      (w w' : W)
      → ((n : Namespace) (k : String)
          → same agents n ≡ false
          → entry w' (prefix n <> k) ≡ entry w (prefix n <> k))
      → SameButAgents C w w'
  only_agents w w' h = record {
    functions = λ k. ap (then_read J.unmarshal_function) (h functions k refl);
    archives = λ k. ap (then_read (λ v. ok (J.to_bytes v))) (h code k refl);
    executions = λ k. ap (then_read (λ v. ok (J.to_bytes v))) (h execmap k refl);
  }

  -- If Redis and the codec do what they document, `RedisMemory` keeps agents as the registry
  -- relies on: reads show what is stored, writes reach their own key alone, and one that reports
  -- an error has happened or not.
  pub redis_memory-AgentLaws : AgentLaws (redis_memory R J) C
  unfolding redis_memory
  redis_memory-AgentLaws = record {
    get_agent_ok = λ k w o h. fetch_ok J.unmarshal_agent (prefix agents <> k) w o h;
    get_all_agents_ok = get_all_agents_mem;
    save_agent_ok = λ a w h.
        store_ok J.unmarshal_agent (J.marshal_agent a) (prefix agents <> a.id) w a (K.agent_back a)
          h;
    save_agent_any = λ a w.
        store_any J.unmarshal_agent (J.marshal_agent a) (prefix agents <> a.id) w a
          (K.agent_back a);
    save_agent_other = λ a w k h.
        ap (then_read J.unmarshal_agent)
          (store_other (J.marshal_agent a) _ _ w (key-eq agents a.id k h));
    save_agent_frame = λ a w.
        only_agents w _
          λ n k h. store_other (J.marshal_agent a) _ _ w (key-other agents n a.id k h);
    delete_agent_ok = λ k w h. ap (then_read J.unmarshal_agent) (L.del_ok _ w _ h (Memᴰ.head refl));
    delete_agent_any = λ k w. elim (L.del_any ((prefix agents <> k) ∷ []) w (prefix agents <> k)) [
      | inl e ↦ inl (ap (then_read J.unmarshal_agent) e)
      | inr e ↦ inr (ap (then_read J.unmarshal_agent) e)
    ];
    delete_agent_other = λ k j w h.
        ap (then_read J.unmarshal_agent)
          (L.del_other _ w _ (not-mem-key _ _ (key-eq agents k j h)));
    delete_agent_frame = λ k w.
        only_agents w _ λ n j h. L.del_other _ w _ (not-mem-key _ _ (key-other agents n k j h));
  }
