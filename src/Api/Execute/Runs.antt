-- ===== src/Api/Execute/Runs.antt =====
-- What the replies of `handleExecute` and `handleAsyncExecute` of pkg/api/handlers.go stand for.
use mathlib.Core.List.{Memᴰ}
use serverless_flux.Base.{
  ℕ, String, ◌≡◌, refl, sym, ap, ◌∙◌, ◌≢◌, inl, inr, Bool, true, false, Option, none, some, List,
  [], ◌∷◌, ◌==◌, Bool-cases, Option-cases, All, mem-keep, if◌then◌else◌, not,
}
use serverless_flux.Base.Select.{choose_lem, choose-mem}
use serverless_flux.Base.Result.{Result, ok, err}
use serverless_flux.Floats.{Floats, FloatLaws, IsNumber}
use serverless_flux.Models.{Agent, Function, behavior_exit, can_fit, available_score}
use serverless_flux.Memory.{Memory}
use serverless_flux.Client.{ExecutionResponse, AgentClient}
use serverless_flux.Registry
use serverless_flux.Registry.{is_online}
use serverless_flux.Api.Reply.{Reply, fail, sent}
use serverless_flux.Api.Execute.{
  ExecuteResponse, Pause, cancelled, elapsed, ExecuteEnd, reply, waiting, more_headroom, pick_agent,
  at_capacity, judge, dispatch, attempt, next, execute_loop,
}

module _ {F : Type 0} ⦃o : Floats F⦄ (L : FloatLaws F o) where
  -- If the scores of the agents are numbers, the agent that is picked for a function is one of
  -- them, can fit the function, and no other that can has a higher score.
  pub pick_agent_best :
      (fn : Function) (agents : List (Agent F)) (a : Agent F)
      → All (λ x. IsNumber (available_score x)) agents
      → pick_agent fn agents ≡ some a
      → Memᴰ a agents
        × (can_fit a fn ≡ true)
        × ((x : Agent F)
            → Memᴰ x agents
            → can_fit x fn ≡ true
            → o.flt (available_score a) (available_score x) ≡ false)
  unfolding pick_agent
  pick_agent_best fn agents a n e =
      choose_lem more_headroom (λ x. IsNumber (available_score x))
        (λ x y. L.flt_asymm (available_score y) (available_score x))
        (λ x. L.flt_irrefl (available_score x))
        (λ x y z p q r h k.
          L.not_flt_trans (available_score z) (available_score y) (available_score x) r q p k h)
        (λ x. can_fit x fn) agents a n e

sent-injective :
    {A : Type 0} {c d : ℕ} {a b : A} → some (sent c a) ≡ some (sent d b) → (c ≡ d) × (a ≡ b)
sent-injective h = (cc, cc)

some_reply :
    {W : Type 0} {r s : Reply ExecuteResponse} {v w : W}
    → Path (ExecuteEnd × W) (reply r, v) (reply s, w)
    → Path (Option (Reply ExecuteResponse) × W) (some r, v) (some s, w)
some_reply h = cc

pub picked :
    {F : Type 0} ⦃o : Floats F⦄
    → (fn : Function) (agents : List (Agent F)) (a : Agent F) → pick_agent fn agents ≡ some a
    → Memᴰ a agents × (can_fit a fn ≡ true)
unfolding pick_agent
picked fn agents a e = choose-mem more_headroom (λ x. can_fit x fn) agents a e

module _ {F W : Type 0} ⦃o : Floats F⦄ (M : Memory F W) (C : AgentClient F W) (fn : Function)
    (name : String) (args : List String) (id : String) where
  -- An agent ran the function: in the world `world` it was listed, online and fit for it, it
  -- answered `result`, and the reply with the code and the body passes that on.
  pub record IsRun (code : ℕ) (body : ExecuteResponse) (w' : W) : Type 0 where
    pub world : W
    pub agent : Agent F
    pub listed : Memᴰ agent (Registry.get_all_agents M world)
    pub up : is_online agent ≡ true
    pub fit : can_fit agent fn ≡ true
    pub result : ExecutionResponse
    pub answered : C.execute_function agent name args id false world ≡ (ok result, w')
    pub free : at_capacity result ≡ false
    pub code_eq : code ≡ (if result.error == "" then 200 else 500)
    pub same_output : body.output ≡ result.output
    pub same_error : body.error ≡ result.error
    pub same_agent : body.agent_id ≡ agent.id
    pub same_id : body.execution_id ≡ id

  code_lem : (b : Bool) → Path ℕ (if not b then 500 else 200) (if b then 200 else 500)
  code_lem true = refl
  code_lem false = refl

  judge-IsRun :
      (best : Agent F) (v : W) (r : Result ExecutionResponse × W) (code : ℕ)
      (body : ExecuteResponse) (w' : W)
      → Memᴰ best (Registry.get_available_agents M v)
      → can_fit best fn ≡ true
      → C.execute_function best name args id false v ≡ r
      → judge M C fn id best r ≡ (some (sent code body), w')
      → IsRun code body w'
  unfolding judge Registry.get_available_agents Registry.get_all_agents
  judge-IsRun best v (err e, w) code body w' m f c h = cc
  judge-IsRun best v (ok result, w) code body w' m f c h = elim (Bool-cases (at_capacity result)) [
    | inl full ↦ elim (Bool-cases (fn.max_concurrency_behavior == behavior_exit)) [
      | inl exit ↦ cc
      | inr stay ↦ cc
    ]
    | inr free ↦
        let p = rw free at h in
        let (q, s) = sent-injective (ap (λ x. x.0) p) in
        let (listed, up) = mem-keep is_online best _ m in
        record {
          world = v;
          agent = best;
          listed = listed;
          up = up;
          fit = f;
          result = result;
          answered = c ∙ ap (λ x. (ok result, x.1)) p;
          free = free;
          code_eq = sym q ∙ code_lem (result.error == "");
          same_output = sym (ap (λ b. b.output) s);
          same_error = sym (ap (λ b. b.error) s);
          same_agent = sym (ap (λ b. b.agent_id) s);
          same_id = sym (ap (λ b. b.execution_id) s);
        }
  ]

  attempt-IsRun :
      (v : W) (code : ℕ) (body : ExecuteResponse) (w' : W)
      → attempt M C fn name args id v ≡ (some (sent code body), w')
      → IsRun code body w'
  unfolding attempt
  attempt-IsRun v code body w' h =
      elim (Option-cases (pick_agent fn (Registry.get_available_agents M v))) [
        | inl e ↦ elim (Bool-cases (fn.resource_pressure_behavior == behavior_exit)) [
          | inl exit ↦ cc
          | inr stay ↦ cc
        ]
        | inr (best, e) ↦
            let (m, f) = picked fn (Registry.get_available_agents M v) best e in
            judge-IsRun best v _ code body w' m f refl (unfold dispatch in (rw e at h))
      ]

  next-IsRun :
      (r : Option (Reply ExecuteResponse) × W) (v : W) (events : List (Pause W)) (code : ℕ)
      (body : ExecuteResponse) (w' : W)
      → attempt M C fn name args id v ≡ r
      → next M C fn name args id r events ≡ (reply (sent code body), w')
      → IsRun code body w'
  unfolding next
  next-IsRun (some r, w) v events code body w' e h = attempt-IsRun v code body w' (e ∙ some_reply h)
  next-IsRun (none, w) v [] code body w' e h = cc
  next-IsRun (none, w) v (cancelled ∷ events) code body w' e h = cc
  next-IsRun (none, w) v (elapsed step ∷ events) code body w' e h =
      next-IsRun (attempt M C fn name args id (step w)) (step w) events code body w' refl h

  -- A reply with a body, however often the loop tried, stands for a run of the function by an agent.
  pub execute_loop-IsRun :
      (events : List (Pause W)) (w : W) (code : ℕ) (body : ExecuteResponse) (w' : W)
      → execute_loop M C fn name args id events w ≡ (reply (sent code body), w')
      → IsRun code body w'
  unfolding execute_loop
  execute_loop-IsRun events w code body w' h =
      next-IsRun (attempt M C fn name args id w) w events code body w' refl h

  -- A loop whose events include the end of the request does not go on waiting.
  execute_loop-closes :
      (events : List (Pause W)) (w : W)
      → Memᴰ cancelled events
      → (execute_loop M C fn name args id events w).0 ≢ waiting
  unfolding execute_loop
  execute_loop-closes events w m = ends (attempt M C fn name args id w) events m
    where
      ends :
          (r : Option (Reply ExecuteResponse) × W) (events : List (Pause W))
          → Memᴰ cancelled events
          → (next M C fn name args id r events).0 ≢ waiting
      ends (some r, w) events m = unfold next in (λ p. cc)
      ends (none, w) [] m = elim m [ ]
      ends (none, w) (cancelled ∷ events) m = unfold next in (λ p. cc)
      ends (none, w) (elapsed step ∷ events) m =
          unfold next in ends (attempt M C fn name args id (step w)) events (later m)
        where
          later : Memᴰ cancelled (elapsed step ∷ events) → Memᴰ cancelled events
          later (Memᴰ.head p) = cc
          later (Memᴰ.tail n) = n

  -- A function whose two behaviours are "exit" gets its reply in the first round.
  execute_loop-exit :
      (events : List (Pause W)) (w : W)
      → (fn.max_concurrency_behavior == behavior_exit) ≡ true
      → (fn.resource_pressure_behavior == behavior_exit) ≡ true
      → (r : Reply ExecuteResponse) × (execute_loop M C fn name args id events w
          ≡ (reply r, (attempt M C fn name args id w).1))
  unfolding execute_loop attempt dispatch next
  execute_loop-exit events w c p =
      elim (Option-cases (pick_agent fn (Registry.get_available_agents M w))) [
        | inl e ↦ rw e (rw p (fail 429 "no agents available with sufficient resources", refl))
        | inr (best, e) ↦ rw e (
            let (x, q) = judged best (C.execute_function best name args id false w) in
            (x, ap (λ z. next M C fn name args id z events) q))
      ]
    where
      judged :
          (best : Agent F) (r : Result ExecutionResponse × W)
          → (x : Reply ExecuteResponse) × (judge M C fn id best r
              ≡ (some x, (judge M C fn id best r).1))
      judged best (err e, v) = unfold judge in (_, refl)
      judged best (ok result, v) =
          unfold judge in
          elim (Bool-cases (at_capacity result)) [
            | inl full ↦ rw (full, c) (_, refl)
            | inr free ↦ rw free (_, refl)
          ]
