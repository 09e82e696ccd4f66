-- ===== src/Api/Execute/Submission.antt =====
-- What an accepted `handleAsyncExecute` of pkg/api/handlers.go stands for.
use mathlib.Core.List.{Memᴰ}
use serverless_flux.Base.{
  ℕ, String, ◌≡◌, refl, sym, ap, inl, inr, true, none, some, List, Option, Option-cases, mem-keep,
}
use serverless_flux.Base.Result.{Result, ok, err}
use serverless_flux.Floats.{Floats}
use serverless_flux.Models.{Agent, Function, can_fit}
use serverless_flux.Memory.{Memory}
use serverless_flux.Client.{ExecutionResponse, AgentClient}
use serverless_flux.Registry
use serverless_flux.Registry.{is_online}
use serverless_flux.Api.Reply.{sent}
use serverless_flux.Api.Execute.{pick_agent, accept, submit, submit_found, handle_async_execute}
use serverless_flux.Api.Execute.Runs.{picked}

module _ {F W : Type 0} ⦃o : Floats F⦄ (M : Memory F W) (C : AgentClient F W) where
  -- The function was registered, an online agent that can fit it took the execution, and the
  -- registry then recorded under its identifier which agent that is.
  pub record IsAccepted (name : String) (args : List String) (id : String) (w : W) (code : ℕ)
      (body : String) (w' : W) : Type 0 where
    pub fn : Function
    pub registered : Registry.get_function M name w ≡ some fn
    pub agent : Agent F
    pub listed : Memᴰ agent (Registry.get_all_agents M w)
    pub up : is_online agent ≡ true
    pub fit : can_fit agent fn ≡ true
    pub result : ExecutionResponse
    pub submitted : (C.execute_function agent name args id true w).0 ≡ ok result
    pub recorded :
        w'
        ≡ Registry.save_execution_to_agent_map M id agent.id
            (C.execute_function agent name args id true w).1
    pub code_eq : code ≡ 202
    pub body_eq : body ≡ id

  -- A request whose reply has a body was accepted.
  pub handle_async_execute-IsAccepted :
      (request : Result (List String)) (name : String) (id : String) (w : W) (code : ℕ)
      (body : String) (w' : W)
      → handle_async_execute M C request name id w ≡ (sent code body, w')
      → (args : List String) × (request ≡ ok args) × IsAccepted name args id w code body w'
  unfolding handle_async_execute
  handle_async_execute-IsAccepted (err e) name id w code body w' h = cc
  handle_async_execute-IsAccepted (ok args) name id w code body w' h =
      (args, refl, found (Registry.get_function M name w) refl h)
    where
      taken :
          (fn : Function) (best : Agent F) (r : Result ExecutionResponse × W)
          → Registry.get_function M name w ≡ some fn
          → pick_agent fn (Registry.get_available_agents M w) ≡ some best
          → C.execute_function best name args id true w ≡ r
          → accept M C id best r ≡ (sent code body, w')
          → IsAccepted name args id w code body w'
      taken fn best (err e, v) f p c h = unfold accept in cc
      taken fn best (ok result, v) f p c h =
          let (m, fit) = picked fn (Registry.get_available_agents M w) best p in
          unfold accept Registry.get_available_agents Registry.get_all_agents in
          let (listed, up) = mem-keep is_online best _ m in
          record {
            fn = fn;
            registered = f;
            agent = best;
            listed = listed;
            up = up;
            fit = fit;
            result = result;
            submitted = ap (λ x. x.0) c;
            recorded = rw c (sym (ap (λ x. x.1) h));
            code_eq = cc;
            body_eq = cc;
          }

      found :
          (f : Option Function)
          → Registry.get_function M name w ≡ f
          → submit_found M C f name args id w ≡ (sent code body, w')
          → IsAccepted name args id w code body w'
      found none e h = unfold submit_found in cc
      found (some fn) e h =
          elim (Option-cases (pick_agent fn (Registry.get_available_agents M w))) [
            | inl p ↦ unfold submit_found submit in cc
            | inr (best, p) ↦ taken fn best _ e p refl (unfold submit_found submit in (rw p at h))
          ]
