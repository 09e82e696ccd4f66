-- ===== src/Api/Executions/Cancelled.antt =====
-- An execution from its submission to its cancellation, through pkg/api/handlers.go and the store
-- of pkg/memory/redis.go.
use serverless_flux.Base.{
  ℕ, ◌*◌, ◌<◌, String, ◌≡◌, ap, ◌∙◌, subst, true, false, Option, List, All, All-mem, ◌==◌, ◌<>◌,
  ◌⊎◌, inl, inr, refl, sym, none, some,
}
use serverless_flux.Base.Result.{Result, ok, err}
use serverless_flux.Floats.{Floats}
use serverless_flux.Memory.{Memory}
use serverless_flux.Memory.Redis.{Redis, Codec, redis_memory}
use serverless_flux.Memory.Redis.Laws.{RedisLaws, CodecLaws}
use serverless_flux.Memory.Redis.Expiry.{
  ExpiryLaws, StoreEvent, Leaves, elapsed, happen_all, get-save_execution,
}
use serverless_flux.Client.{AgentClient}
use serverless_flux.Models.{Agent}
use serverless_flux.Registry
use serverless_flux.Registry.{owner_of}
use serverless_flux.Api.Reply.{Reply, fail, sent}
use serverless_flux.Api.Execute.{handle_async_execute}
use serverless_flux.Api.Execute.Submission.{IsAccepted, handle_async_execute-IsAccepted}
use serverless_flux.Api.Executions.{cancelled, cancel_on, cancel_owned, handle_cancel_execution}

module _ {F W : Type 0} (M : Memory F W) (C : AgentClient F W) where
  -- The answer to a request to cancel, from the agent's.
  abbrev IsAnswer : String → Result (Unit {0}) → Reply String → Type 0
  IsAnswer id (ok _) r = r ≡ sent 200 id
  IsAnswer id (err e) r = r ≡ fail 500 ("failed to cancel execution: " <> e)

  -- What the cancellation does: the registry has no agent of this identifier, the answer is 500, and
  -- nothing happened; or that agent is asked to cancel the execution, nothing else happens, and the
  -- answer says whether it did.
  abbrev pub CancelsAt : String → String → W → Type 0
  CancelsAt id agent_id u =
      ((Registry.get_agent M agent_id u ≡ none)
        × (handle_cancel_execution M C id u ≡ (fail 500 "agent not found", u)))
      ⊎ ((a : Agent F) × (Registry.get_agent M agent_id u ≡ some a)
          × ((handle_cancel_execution M C id u).1 ≡ (C.cancel_execution a id u).1)
          × IsAnswer id (C.cancel_execution a id u).0 (handle_cancel_execution M C id u).0)

  cancelled-IsAnswer :
      (id : String) (r : Result (Unit {0}) × W)
      → ((cancelled M C id r).1 ≡ r.1) × IsAnswer id r.0 (cancelled M C id r).0
  unfolding cancelled
  cancelled-IsAnswer id (err e, w) = (refl, refl)
  cancelled-IsAnswer id (ok _, w) = (refl, refl)

  cancels_on :
      (id agent_id : String) (o : Option (Agent F)) (u : W)
      → Registry.get_agent M agent_id u ≡ o
      → handle_cancel_execution M C id u ≡ cancel_on M C o id u
      → CancelsAt id agent_id u
  unfolding cancel_on
  cancels_on id agent_id none u p q = inl (p, q)
  cancels_on id agent_id (some a) u p q =
      let (same, answer) = cancelled-IsAnswer id (C.cancel_execution a id u) in
      inr (
        a,
        p,
        ap (λ x. x.1) q ∙ same,
        subst (λ x. IsAnswer id (C.cancel_execution a id u).0 x) (sym (ap (λ x. x.0) q)) answer,
      )

  cancels :
      (id agent_id : String) (u : W)
      → M.get_execution_to_agent_map id u ≡ ok agent_id
      → (agent_id == "") ≡ false
      → CancelsAt id agent_id u
  unfolding handle_cancel_execution Registry.get_execution_to_agent_map cancel_owned
  cancels id agent_id u h named =
      cancels_on id agent_id (Registry.get_agent M agent_id u) u refl
        (ap (λ r. cancel_owned M C (owner_of r) id u) h ∙ (rw named))

module _ {F V W : Type 0} ⦃o : Floats F⦄ (R : Redis V W) (J : Codec F V) (C : AgentClient F W)
    (entry : W → String → Option V) (left : W → String → ℕ) (pass : ℕ → W → W)
    (L : RedisLaws R entry) (X : ExpiryLaws R entry left pass) (K : CodecLaws J) where
  abbrev M : Memory F W
  M = redis_memory R J

  -- Where the store takes the record of executions and the listed agents have identifiers: an
  -- asynchronous execution that was answered with a body was accepted by an agent, and for two
  -- hours, if the store answers and whatever else is written in between, a cancellation asks that
  -- agent to cancel it, and the reply is 200 with its identifier or 500 with the agent's error; or the
  -- registry does not find that agent, and the reply is 500.
  pub cancel-async :
      (request : Result (List String)) (name id : String) (w : W) (code : ℕ) (body : String)
      (w' : W) (es : List (StoreEvent F)) (s : String)
      → handle_async_execute M C request name id w ≡ (sent code body, w')
      → ((a : String) (v : W) → (M.save_execution_to_agent_map id a v).0 ≡ ok tt)
      → All (λ a. (a.id == "") ≡ false) (Registry.get_all_agents M w)
      → All (Leaves id) es
      → elapsed es < 2 * 3600 * 1000000000
      → M.get_execution_to_agent_map id (happen_all M pass es w') ≡ ok s
      → (args : List String) × (accepted : IsAccepted M C name args id w code body w') × CancelsAt M
          C id accepted.agent.id
          (happen_all M pass es w')
  cancel-async request name id w code body w' es s h works named leaves short read =
      let (args, _, acc) = handle_async_execute-IsAccepted M C request name id w code body w' h in
      let found =
        get-save_execution R J entry left pass L X K id acc.agent.id es _ s (works acc.agent.id _)
          leaves short
          (subst (λ v. M.get_execution_to_agent_map id (happen_all M pass es v) ≡ ok s)
            (recorded acc) read) in
      (
        args,
        acc,
        cancels M C id acc.agent.id _ (read ∙ ap ok found)
            (All-mem (λ a. (a.id == "") ≡ false) (Registry.get_all_agents M w) acc.listed named),
      )
    where
      recorded :
          {args : List String} (acc : IsAccepted M C name args id w code body w')
          → w'
            ≡ (M.save_execution_to_agent_map id acc.agent.id
                (C.execute_function acc.agent name args id true w).1).1
      recorded acc = unfold Registry.save_execution_to_agent_map in acc.recorded
