-- ===== src/Api/Functions/Rejection.antt =====
-- What the checks of pkg/api/handlers.go on functions and code refuse, and that a refusal changes
-- nothing.
use serverless_flux.Base.{
  ℕ, ◌+◌, zero, suc, String, ◌==◌, ◌≡◌, ◌≢◌, sym, ap, inl, inr, ◌⊎◌, true, false, Bool, none, some,
  List, [], ◌∷◌, Option, arith, Bool-cases, ◌||◌, eq_iff, subst,
}
use serverless_flux.Base.Int.{pos, int_eqb}
use serverless_flux.Base.Result.{Result, ok, err}
use serverless_flux.Models.{Agent, Function, behavior_wait, behavior_exit}
use serverless_flux.Memory.{Bytes, Memory}
use serverless_flux.Client.{AgentClient}
use serverless_flux.Registry
use serverless_flux.Api.Reply.{Reply, fail}
use serverless_flux.Api.Functions.{
  FunctionYaml, AgentOperationStatus, Distribution, summary, validate, register_valid,
  register_decoded, handle_register_function, deploy_to, deploy_read, deploy_found, handle_deploy,
  is_behavior, or_exit,
}
use serverless_flux.Api.Functions.Counts.{validate-cases}

-- What the agents and the API rely on in a stored function.
pub record IsValid (fn : Function) : Type 0 where
  pub named : (fn.name == "") ≡ false
  pub handled : (fn.handler == "") ≡ false
  pub bounded : int_eqb fn.max_concurrency (pos 0) ≡ false
  pub full :
      (fn.max_concurrency_behavior ≡ behavior_wait) ⊎ (fn.max_concurrency_behavior ≡ behavior_exit)
  pub pressed :
      (fn.resource_pressure_behavior ≡ behavior_wait)
      ⊎ (fn.resource_pressure_behavior ≡ behavior_exit)

is_behavior_cases : (b : String) → is_behavior b ≡ true → (b ≡ behavior_wait) ⊎ (b ≡ behavior_exit)
is_behavior_cases b h = elim (Bool-cases (b == behavior_wait)) [
  | inl e ↦ inl ((eq_iff b behavior_wait).0 e)
  | inr e ↦ inr ((eq_iff b behavior_exit).0 (ground arith))
]

-- A function that passes the checks is valid: it has a name and a handler, a concurrency limit
-- that is not 0, and each behaviour is "wait" or "exit".
validate-IsValid : (y : FunctionYaml) (fn : Function) → validate y ≡ inr fn → IsValid fn
unfolding validate
validate-IsValid y fn h = elim (Bool-cases (y.name == "" || y.handler == "")) [
  | inl e ↦ absurd (inl_ne_inr (rw e at h))
  | inr e ↦ elim (Bool-cases (is_behavior (or_exit y.max_concurrency_behavior))) [
    | inr f ↦ absurd (inl_ne_inr (rw (e, f) at h))
    | inl f ↦ elim (Bool-cases (is_behavior (or_exit y.resource_pressure_behavior))) [
      | inr g ↦ absurd (inl_ne_inr (rw (e, f, g) at h))
      | inl g ↦ subst IsValid (inr-injective (rw (e, f, g) at h)) (record {
        named = ground arith;
        handled = ground arith;
        bounded = ground arith;
        full = is_behavior_cases _ f;
        pressed = is_behavior_cases _ g;
      })
    ]
  ]
]
  where
    inl_ne_inr : {r : Reply Distribution} {f : Function} → inl r ≢ inr f
    inl_ne_inr p = cc

    inr-injective : {f g : Function} → Path (Reply Distribution ⊎ Function) (inr f) (inr g) → f ≡ g
    inr-injective p = cc

-- The code is that of a request that was wrong.
abbrev pub IsRefusal : ℕ → Type 0
IsRefusal code = (code ≡ 400) ⊎ (code ≡ 404)

fail-injective :
    {A W : Type 0} {c d : ℕ} {s t : String} {v w : W}
    → Path (Reply A × W) (fail c s, v) (fail d t, w)
    → c ≡ d
fail-injective p = cc

refusal_lt_500 : (code n : ℕ) → IsRefusal code → 500 + n ≢ code
refusal_lt_500 code n (inl p) q = omega arith
refusal_lt_500 code n (inr p) q = omega arith

summary-Refusal :
    {W : Type 0} (failure : String) (total : ℕ) (r : (ℕ × List AgentOperationStatus) × W) (code : ℕ)
    (m : String) (w' : W)
    → IsRefusal code
    → summary failure total r ≢ (fail code m, w')
summary-Refusal failure total ((zero, l), w) code m w' i h =
    refusal_lt_500 code 0 i (fail-injective h)
summary-Refusal failure total ((suc k, l), w) code m w' i h = cc

module _ {F W : Type 0} (M : Memory F W) (C : AgentClient F W) where
  -- A registration that is answered with 400 has changed nothing: neither the store nor an agent.
  pub handle_register_function-refused :
      (body : Result Bytes) (decode : Bytes → Result FunctionYaml) (w : W) (code : ℕ) (m : String)
      (w' : W)
      → IsRefusal code
      → handle_register_function M C body decode w ≡ (fail code m, w')
      → w' ≡ w
  unfolding handle_register_function
  handle_register_function-refused (err e) decode w code m w' i h = sym (ap (λ x. x.1) h)
  handle_register_function-refused (ok text) decode w code m w' i h =
      decoded (text == "") (decode text) h
    where
      decoded :
          (b : Bool) (y : Result FunctionYaml)
          → register_decoded M C b y w ≡ (fail code m, w')
          → w' ≡ w
      decoded true y h = unfold register_decoded in sym (ap (λ x. x.1) h)
      decoded false (err e) h = unfold register_decoded in sym (ap (λ x. x.1) h)
      decoded false (ok y) h = elim (validate-cases y) [
        | inl (c, s, e) ↦ unfold register_decoded register_valid in sym (ap (λ x. x.1) (rw e at h))
        | inr e ↦ absurd (
            summary-Refusal _ _ _ code m w' i
              (unfold register_decoded register_valid in (rw e at h)))
      ]

  deploy_to-served :
      (name : String) (archive : Bytes) (agents : List (Agent F)) (v : W) (code : ℕ) (m : String)
      (w' : W)
      → IsRefusal code
      → deploy_to M C name archive agents v ≢ (fail code m, w')
  unfolding deploy_to
  deploy_to-served name archive [] v code m w' i h = refusal_lt_500 code 3 i (fail-injective h)
  deploy_to-served name archive (a ∷ agents) v code m w' i h = summary-Refusal _ _ _ code m w' i h

  -- A deployment that is answered with 400 or 404 has changed nothing.
  handle_deploy-refused :
      (name : String) (body : Result Bytes) (w : W) (code : ℕ) (m : String) (w' : W)
      → IsRefusal code
      → handle_deploy M C name body w ≡ (fail code m, w')
      → w' ≡ w
  unfolding handle_deploy
  handle_deploy-refused name body w code m w' i h = found (Registry.get_function M name w) body h
    where
      found :
          (f : Option Function) (body : Result Bytes)
          → deploy_found M C f name body w ≡ (fail code m, w')
          → w' ≡ w
      found none body h = unfold deploy_found in sym (ap (λ x. x.1) h)
      found (some fn) (err e) h = unfold deploy_found deploy_read in sym (ap (λ x. x.1) h)
      found (some fn) (ok archive) h = elim (Bool-cases (archive == "")) [
        | inl e ↦ unfold deploy_found deploy_read in sym (ap (λ x. x.1) (rw e at h))
        | inr e ↦ absurd (
            deploy_to-served name archive _ _ code m w' i
              (unfold deploy_found deploy_read in (rw e at h)))
      ]
