-- ===== src/Api/Functions/Counts.antt =====
-- The counts in the replies of `handleRegisterFunction` and `handleDeploy` of pkg/api/handlers.go.
use serverless_flux.Base.{
  ℕ, ◌||◌, subst, zero, suc, ◌<◌, String, ◌==◌, ◌≡◌, refl, sym, ap, inl, inr, ◌⊎◌, true, false,
  Bool, none, some, List, [], ◌∷◌, Option, keep, length, arith, Bool-cases,
}
use serverless_flux.Base.Result.{Result, ok, err}
use serverless_flux.Models.{Agent, Function}
use serverless_flux.Memory.{Bytes, Memory}
use serverless_flux.Client.{AgentClient}
use serverless_flux.Registry
use serverless_flux.Api.Reply.{Reply, fail, sent}
use serverless_flux.Api.Functions.{
  FunctionYaml, AgentOperationStatus, Distribution, summary, counted, outcome_of, function_of,
  is_behavior, or_exit, distribute, validate, register_valid, register_decoded,
  handle_register_function, deploy_to, deploy_read, deploy_found, handle_deploy,
}

abbrev pub is_success : AgentOperationStatus → Bool
is_success s = s.status == "success"

-- The code is 201; there is a status for each agent counted in the total, and as many of them, at
-- least one, are successes as the count says.
abbrev pub IsCounted : ℕ → Distribution → Type 0
IsCounted code d =
    (code ≡ 201)
    × (0 < d.count)
    × (d.count ≡ length (keep is_success d.agents))
    × (d.total_agents ≡ length d.agents)

counted-eq :
    {F : Type 0}
    → (a : Agent F) (r : Result (Unit {0})) (n : ℕ) (l : List AgentOperationStatus)
    → n ≡ length (keep is_success l)
    → counted r n ≡ length (keep is_success (outcome_of a r ∷ l))
counted-eq a (err e) n l h = h
counted-eq a (ok _) n l h = ap suc h

sent_injective :
    {A W : Type 0} {c d : ℕ} {a b : A} {v w : W}
    → Path (Reply A × W) (sent c a, v) (sent d b, w)
    → (c ≡ d) × (a ≡ b)
sent_injective h = (cc, cc)

summary-IsCounted :
    {W : Type 0} (failure : String) (total : ℕ) (r : (ℕ × List AgentOperationStatus) × W) (code : ℕ)
    (d : Distribution) (w' : W)
    → r.0.0 ≡ length (keep is_success r.0.1)
    → total ≡ length r.0.1
    → summary failure total r ≡ (sent code d, w')
    → IsCounted code d
summary-IsCounted failure total ((zero, statuses), w) code d w' n t h = cc
summary-IsCounted failure total ((suc k, statuses), w) code d w' n t h =
    let (p, q) = sent_injective h in
    let (_, more, successes, all) = subst (IsCounted 201) q (refl, omega arith, n, t) in
    (sym p, more, successes, all)

-- A file is refused with a message, or describes a function.
pub validate-cases :
    (y : FunctionYaml)
    → ((c : ℕ) × (m : String) × (validate y ≡ inl (fail c m))) ⊎ (validate y ≡ inr (function_of y))
unfolding validate
validate-cases y = elim (Bool-cases (y.name == "" || y.handler == "")) [
  | inl e ↦ inl (400, "name and handler are required", rw e)
  | inr e ↦ elim (Bool-cases (is_behavior (or_exit y.max_concurrency_behavior))) [
    | inr f ↦ inl (400, "max_concurrency_behavior must be 'wait' or 'exit'", rw (e, f))
    | inl f ↦ elim (Bool-cases (is_behavior (or_exit y.resource_pressure_behavior))) [
      | inr g ↦ inl (400, "resource_pressure_behavior must be 'wait' or 'exit'", rw (e, f, g))
      | inl g ↦ inr (rw (e, f, g))
    ]
  ]
]

module _ {F W : Type 0} (call : Agent F → W → Result (Unit {0}) × W) where
  distribute_lem :
      (agents : List (Agent F)) (w : W)
      → let d = (distribute call agents w).0 in
        (d.0 ≡ length (keep is_success d.1)) × (length agents ≡ length d.1)
  unfolding distribute
  distribute_lem [] w = (refl, refl)
  distribute_lem (a ∷ agents) w =
      let (n, l) = distribute_lem agents (call a w).1 in
      (counted-eq a (call a w).0 _ (distribute call agents (call a w).1).0.1 n, ap suc l)

  distribute-IsCounted :
      (failure : String) (agents : List (Agent F)) (w : W) (code : ℕ) (d : Distribution) (w' : W)
      → summary failure (length agents) (distribute call agents w) ≡ (sent code d, w')
      → IsCounted code d
  distribute-IsCounted failure agents w code d w' h =
      let (n, l) = distribute_lem agents w in
      summary-IsCounted failure (length agents) (distribute call agents w) code d w' n l h

module _ {F W : Type 0} (M : Memory F W) (C : AgentClient F W) where
  -- A registration whose reply has a body is counted.
  pub handle_register_function-IsCounted :
      (body : Result Bytes) (decode : Bytes → Result FunctionYaml) (w : W) (code : ℕ)
      (d : Distribution) (w' : W)
      → handle_register_function M C body decode w ≡ (sent code d, w')
      → IsCounted code d
  unfolding handle_register_function register_decoded
  handle_register_function-IsCounted (err e) decode w code d w' h = cc
  handle_register_function-IsCounted (ok text) decode w code d w' h =
      decoded (text == "") (decode text) h
    where
      decoded :
          (b : Bool) (y : Result FunctionYaml)
          → register_decoded M C b y w ≡ (sent code d, w')
          → IsCounted code d
      decoded true y h = cc
      decoded false (err e) h = cc
      decoded false (ok y) h = elim (validate-cases y) [
        | inl (c, m, e) ↦ unfold register_valid in cc
        | inr e ↦
            distribute-IsCounted (λ a. C.register_function a (function_of y)) _ _ _ code d w'
              (unfold register_valid in (rw e at h))
      ]

  -- A deployment whose reply has a body is counted.
  handle_deploy-IsCounted :
      (name : String) (body : Result Bytes) (w : W) (code : ℕ) (d : Distribution) (w' : W)
      → handle_deploy M C name body w ≡ (sent code d, w')
      → IsCounted code d
  unfolding handle_deploy deploy_found
  handle_deploy-IsCounted name body w code d w' h = found (Registry.get_function M name w) body h
    where
      sent_to :
          (archive : Bytes) (agents : List (Agent F)) (v : W)
          → deploy_to M C name archive agents v ≡ (sent code d, w')
          → IsCounted code d
      sent_to archive [] v h = unfold deploy_to in cc
      sent_to archive (a ∷ agents) v h =
          distribute-IsCounted (λ b. C.deploy_function b name archive) _ (a ∷ agents) v code d w'
            (unfold deploy_to in h)

      found :
          (f : Option Function) (body : Result Bytes)
          → deploy_found M C f name body w ≡ (sent code d, w')
          → IsCounted code d
      found none body h = cc
      found (some fn) (err e) h = unfold deploy_read in cc
      found (some fn) (ok archive) h = elim (Bool-cases (archive == "")) [
        | inl e ↦ unfold deploy_read in cc
        | inr e ↦ sent_to archive _ _ (unfold deploy_read in (rw e at h))
      ]
