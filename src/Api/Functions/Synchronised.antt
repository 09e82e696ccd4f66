-- ===== src/Api/Functions/Synchronised.antt =====
-- `syncFunctionsToAgent` of pkg/api/handlers.go: what an agent that joined or came back is sent.
pub mod Connected
use mathlib.Core.List.{append_assoc, append-nil}
use serverless_flux.Base.{
  String, ◌≡◌, refl, sym, ap, ◌∙◌, ◌⊎◌, inl, inr, Bool, true, false, Option, Option-cases, none,
  some, List, [], ◌∷◌, ◌++◌,
}
use serverless_flux.Base.Result.{Result, ok, err}
use serverless_flux.Models.{Agent, Function}
use serverless_flux.Memory.{Bytes, Memory}
use serverless_flux.Client.{AgentClient}
use serverless_flux.Client.Grpc.{FunctionConfig, config_of}
use serverless_flux.Registry
use serverless_flux.Api.Functions.{
  push, push_code, sync_functions, sync_agent, sync_functions_to_agent,
}

-- A call to the agent at an address: to register a function, by the message that it gets, with
-- whether it took it, and to deploy code.
pub data Call : Type 0 where
  registering : String → FunctionConfig → Bool → Call
  deploying : String → String → Bytes → Call

abbrev pub accepted : Result (Unit {0}) → Bool
accepted (err e) = false
accepted (ok _) = true

module _ {F : Type 0} (a : Agent F) (archive : String → Option Bytes) where
  -- The calls for one function: it is registered, and if the agent takes it and there is code, the
  -- code follows.
  abbrev IsPushed : Function → List Call → Type 0
  IsPushed fn calls =
      (calls ≡ registering a.address (config_of fn) false ∷ [])
      ⊎ ((archive fn.name ≡ none) × (calls ≡ registering a.address (config_of fn) true ∷ []))
      ⊎ ((code : Bytes) × (archive fn.name ≡ some code)
          × (calls
              ≡ registering a.address (config_of fn) true ∷ deploying a.address fn.name code ∷ []))

  -- The calls for each of the functions, in their order.
  abbrev pub ArePushed : List Function → List Call → Type 0
  ArePushed [] calls = calls ≡ []
  ArePushed (fn ∷ fns) calls =
      (first : List Call) × (rest : List Call) × IsPushed fn first
      × ArePushed fns rest
      × (calls ≡ first ++ rest)

-- `calls w` is what the agents were called for up to `w`, and `Reaches w` the addresses to which the
-- client has a connection. A call over a connection is recorded, leaves the connection, and leaves
-- the code archives of the store.
pub record CallLaws {F W : Type 0} (M : Memory F W) (C : AgentClient F W) (calls : W → List Call)
    (Reaches : W → String → Type 0) : Type 0 where
  pub register_calls :
      (a : Agent F) (fn : Function) (w : W)
      → Reaches w a.address
      → calls (C.register_function a fn w).1
        ≡ calls w
          ++ (registering a.address (config_of fn) (accepted (C.register_function a fn w).0) ∷ [])
  pub deploy_calls :
      (a : Agent F) (name : String) (code : Bytes) (w : W)
      → Reaches w a.address
      → calls (C.deploy_function a name code w).1 ≡ calls w ++ (deploying a.address name code ∷ [])
  pub register_reaches :
      (a : Agent F) (fn : Function) (w : W)
      → Reaches w a.address
      → Reaches (C.register_function a fn w).1 a.address
  pub deploy_reaches :
      (a : Agent F) (name : String) (code : Bytes) (w : W)
      → Reaches w a.address
      → Reaches (C.deploy_function a name code w).1 a.address
  pub register_archive :
      (a : Agent F) (fn : Function) (w : W) (name : String)
      → Registry.get_code_archive M name (C.register_function a fn w).1
        ≡ Registry.get_code_archive M name w
  pub deploy_archive :
      (a : Agent F) (of : String) (code : Bytes) (w : W) (name : String)
      → Registry.get_code_archive M name (C.deploy_function a of code w).1
        ≡ Registry.get_code_archive M name w

module _ {F W : Type 0} (M : Memory F W) (calls : W → List Call) where
  -- The agent is not stored and nothing happened, or the calls were made to it for each function
  -- that the registry lists.
  abbrev pub IsSynchronised : String → W → W → Type 0
  IsSynchronised id w v =
      ((Registry.get_agent M id w ≡ none) × (v ≡ w))
      ⊎ ((a : Agent F) × (Registry.get_agent M id w ≡ some a)
          × (made : List Call) × ArePushed a (λ name. Registry.get_code_archive M name w)
              (Registry.get_all_functions M w) made
          × (calls v ≡ calls w ++ made))

module _ {F W : Type 0} (M : Memory F W) (C : AgentClient F W) (calls : W → List Call)
    (Reaches : W → String → Type 0) (L : CallLaws M C calls Reaches) where
  abbrev archives : W → String → Option Bytes
  archives w name = Registry.get_code_archive M name w

  -- From `w` on, the calls were made, the archives are the given ones, and there is a connection.
  abbrev Made : (String → Option Bytes) → String → W → List Call → W → Type 0
  Made archive address w made v =
      (calls v ≡ calls w ++ made)
      × ((name : String) → archives v name ≡ archive name)
      × Reaches v address

  push_code-Made :
      (archive : String → Option Bytes) (a : Agent F) (name : String) (o : Option Bytes) (w : W)
      → ((n : String) → archives w n ≡ archive n)
      → Reaches w a.address
      → ((o ≡ none) × Made archive a.address w [] (push_code M C a name o w))
        ⊎ ((code : Bytes) × (o ≡ some code)
            × Made archive a.address w
                (deploying a.address name code ∷ [])
                (push_code M C a name o w))
  unfolding push_code
  push_code-Made archive a name none w k ρ = inl (refl, (sym (append-nil (calls w)), k, ρ))
  push_code-Made archive a name (some code) w k ρ = inr (
    code,
    refl,
    (
      L.deploy_calls a name code w ρ,
      λ n. L.deploy_archive a name code w n ∙ k n,
      L.deploy_reaches a name code w ρ,
    ),
  )

  push-Made :
      (archive : String → Option Bytes) (a : Agent F) (fn : Function) (w : W)
      (r : Result (Unit {0}) × W)
      → calls r.1 ≡ calls w ++ (registering a.address (config_of fn) (accepted r.0) ∷ [])
      → ((n : String) → archives r.1 n ≡ archive n)
      → Reaches r.1 a.address
      → (made : List Call) × IsPushed a archive fn made
        × Made archive a.address w made (push M C a fn r)
  unfolding push
  push-Made archive a fn w (err e, v) h k ρ =
      (registering a.address (config_of fn) false ∷ [], inl refl, (h, k, ρ))
  push-Made archive a fn w (ok _, v) h k ρ =
      elim (push_code-Made archive a fn.name (archives v fn.name) v k ρ) [
        | inl (nothing, (c, l, y)) ↦ (
          registering a.address (config_of fn) true ∷ [],
          inr (inl (sym (k fn.name) ∙ nothing, refl)),
          (c ∙ append-nil (calls v) ∙ h, l, y),
        )
        | inr (code, there, (c, l, y)) ↦ (
          registering a.address (config_of fn) true ∷ deploying a.address fn.name code ∷ [],
          inr (inr (code, sym (k fn.name) ∙ there, refl)),
          (
            c
                ∙ ap (λ x. x ++ (deploying a.address fn.name code ∷ [])) h
                ∙ append_assoc (calls w) (registering a.address (config_of fn) true ∷ [])
                    (deploying a.address fn.name code ∷ []),
            l,
            y,
          ),
        )
      ]

  sync_functions-ArePushed :
      (archive : String → Option Bytes) (a : Agent F) (fns : List Function) (w : W)
      → ((n : String) → archives w n ≡ archive n)
      → Reaches w a.address
      → (made : List Call) × ArePushed a archive fns made
        × (calls (sync_functions M C a fns w) ≡ calls w ++ made)
  unfolding sync_functions
  sync_functions-ArePushed archive a [] w k ρ = ([], refl, sym (append-nil (calls w)))
  sync_functions-ArePushed archive a (fn ∷ fns) w k ρ =
      let (first, p, (c, l, y)) =
        push-Made archive a fn w (C.register_function a fn w) (L.register_calls a fn w ρ)
          (λ n. L.register_archive a fn w n ∙ k n) (L.register_reaches a fn w ρ) in
      let (rest, q, d) =
        sync_functions-ArePushed archive a fns (push M C a fn (C.register_function a fn w)) l y in
      (
        first ++ rest,
        (first, rest, p, q, refl),
        d ∙ ap (λ x. x ++ rest) c ∙ append_assoc (calls w) first rest,
      )

  -- An agent to which the client has a connection, and that is synchronised, is sent, at its address,
  -- the configuration of every function that the registry lists, in that order, and after each one that it takes the
  -- stored code of that function, if there is any; a refusal of one leaves the others to be sent. For
  -- an agent that is not stored, nothing happens.
  pub sync_functions_to_agent-IsSynchronised :
      (id : String) (w : W)
      → ((a : Agent F) → Registry.get_agent M id w ≡ some a → Reaches w a.address)
      → IsSynchronised M calls id w (sync_functions_to_agent M C id w)
  unfolding sync_functions_to_agent sync_agent
  sync_functions_to_agent-IsSynchronised id w reach =
      elim (Option-cases (Registry.get_agent M id w)) [
        | inl e ↦ inl (e, rw e refl)
        | inr (a, e) ↦
            let (made, p, q) =
              sync_functions-ArePushed (archives w) a (Registry.get_all_functions M w) w (λ n. refl)
                (reach a e) in
            inr (a, e, made, p, rw e q)
      ]
