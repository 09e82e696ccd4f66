-- ===== src/Api/Agents/Registration.antt =====
-- What a registration of an agent in pkg/api/handlers.go stands for.
use serverless_flux.Base.{
  ℕ, String, ◌≡◌, refl, sym, ap, false, ◌∷◌, [], ◌==◌, ◌∙◌, Option, none, some, arith, subst,
  eq_iff, Bool-cases, inl, inr, List,
}
use serverless_flux.Base.Int.{pos}
use serverless_flux.Base.Result.{Result, ok, err}
use serverless_flux.Models.{NodeStatus, Agent, online}
use serverless_flux.Memory.{Memory}
use serverless_flux.Client.{AgentClient}
use serverless_flux.Registry
use serverless_flux.Registry.{found, with_metrics}
use serverless_flux.Api.Reply.{fail, sent}
use serverless_flux.Api.Agents.{
  RegisteredAgent, Registered, at_address, conflicts, register_probed, handle_register_agent,
}

-- The agent that is stored: at the address, of no provider, online, with the metrics of its answer.
abbrev pub joined_agent : {F : Type 0} → String → NodeStatus F → Agent F
joined_agent address status = record {
  id = status.agent_id;
  address = address;
  active_count = status.active_tasks;
  last_heartbeat = status.collected_at;
  status = online;
  provider_id = "";
  instance_type = "";
  provider = "";
  node_status = some status;
}

module _ {F W : Type 0} (M : Memory F W) (C : AgentClient F W)
    (back : (a : Agent F) (v : W) → M.get_agent a.id (M.save_agent a v).1 ≡ ok (some a)) where
  -- The agent at the address answered with an identifier. An agent that the registry had under it
  -- was at that address. It is then stored, with its metrics, and its functions are synchronised.
  pub record IsRegistered (address : String) (now : ℕ) (w : W) (code : ℕ) (body : RegisteredAgent F)
      (w' : W) (started : List String) : Type 0 where
    pub status : NodeStatus F
    pub probed : W
    pub answered : C.get_node_status (at_address address) w ≡ (ok status, probed)
    pub named : (status.agent_id == "") ≡ false
    pub unique :
        (b : Agent F) → Registry.get_agent M status.agent_id probed ≡ some b → b.address ≡ address
    pub stored : Registry.get_agent M status.agent_id w' ≡ some (joined_agent address status)
    pub syncs : started ≡ status.agent_id ∷ []
    pub code_eq : code ≡ 201
    pub body_eq : body ≡ record { id = status.agent_id; address = address; node = status }

  same_address :
      (address : String) (o : Option (Agent F))
      → conflicts address o ≡ false
      → (b : Agent F) → o ≡ some b
      → b.address ≡ address
  same_address address o f b q = elim (Bool-cases (b.address == address)) [
    | inl t ↦ (eq_iff b.address address).0 t
    | inr u ↦ let k = ap (conflicts address) (sym q) ∙ f in absurd (ground arith)
  ]

  -- What is read after the two writes.
  refreshed :
      (status : NodeStatus F) (a : Agent F) (v : W)
      → Registry.get_agent M a.id (Registry.update_node_status M a.id status (M.save_agent a v).1)
        ≡ some (with_metrics status a)
  unfolding Registry.get_agent Registry.update_node_status
  refreshed status a v =
      rw (back a v) (ap found (back (with_metrics status a) (M.save_agent a v).1))

  stores :
      (address : String) (now : ℕ) (status : NodeStatus F) (v : W)
      → Registry.get_agent M status.agent_id (
          Registry.update_node_status M status.agent_id status
            (Registry.register_agent M status.agent_id address "" "" "" now v))
        ≡ some (joined_agent address status)
  unfolding Registry.register_agent
  stores address now status v =
      refreshed status
        (record {
          id = status.agent_id;
          address = address;
          active_count = pos 0;
          last_heartbeat = now;
          status = online;
          provider_id = "";
          instance_type = "";
          provider = "";
          node_status = none;
        })
        v

  probed-IsRegistered :
      (address : String) (now : ℕ) (w : W) (r : Result (NodeStatus F) × W) (code : ℕ)
      (body : RegisteredAgent F) (w' : W) (started : List String)
      → C.get_node_status (at_address address) w ≡ r
      → register_probed M C address now r ≡ (sent code body, w', started)
      → IsRegistered address now w code body w' started
  unfolding register_probed
  probed-IsRegistered address now w (err e, v) code body w' started c h = cc
  probed-IsRegistered address now w (ok status, v) code body w' started c h =
      elim (Bool-cases (status.agent_id == "")) [
        | inl e ↦ absurd (fail_ne_sent (rw e at h))
        | inr e ↦ elim (Bool-cases (conflicts address (Registry.get_agent M status.agent_id v))) [
          | inl f ↦ absurd (fail_ne_sent (rw (e, f) at h))
          | inr f ↦
              let p = rw (e, f) at h in
              record {
                status = status;
                probed = v;
                answered = c;
                named = e;
                unique = same_address address (Registry.get_agent M status.agent_id v) f;
                stored =
                    subst
                      (λ x.
                        Registry.get_agent M status.agent_id x ≡ some (joined_agent address status))
                      (ap (λ x. x.1) p) (stores address now status v);
                syncs = sym (ap (λ x. x.2) p);
                code_eq = sym (sent-code (ap (λ x. x.0) p));
                body_eq = sym (sent-body (ap (λ x. x.0) p));
              }
        ]
      ]
    where
      fail_ne_sent :
          {n c : ℕ} {m : String} {b : RegisteredAgent F} {u v : W} {k l : List String}
          → Path (Registered F W) (fail n m, u, k) (sent c b, v, l)
          → ⊥
      fail_ne_sent q = cc

      sent-code : {n c : ℕ} {a b : RegisteredAgent F} → sent n a ≡ sent c b → n ≡ c
      sent-code q = cc

      sent-body : {n c : ℕ} {a b : RegisteredAgent F} → sent n a ≡ sent c b → a ≡ b
      sent-body q = cc

  -- Where the store gives back what was written last: a request whose reply has a body names an
  -- address that is not empty, and the agent there answered with an identifier. If the registry had
  -- an agent under it, that one was at the same address. The agent is then stored at the address,
  -- online, of no provider, with the metrics of its answer, and the reply is 201 with them.
  pub handle_register_agent-IsRegistered :
      (address : String) (now : ℕ) (w : W) (code : ℕ) (body : RegisteredAgent F) (w' : W)
      (started : List String)
      → handle_register_agent M C (ok address) now w ≡ (sent code body, w', started)
      → ((address == "") ≡ false) × IsRegistered address now w code body w' started
  unfolding handle_register_agent
  handle_register_agent-IsRegistered address now w code body w' started h =
      elim (Bool-cases (address == "")) [
        | inl e ↦ absurd (refused (rw e at h))
        | inr e ↦ (e, probed-IsRegistered address now w _ code body w' started refl (rw e at h))
      ]
    where
      refused :
          {n c : ℕ} {m : String} {b : RegisteredAgent F} {u v : W} {k l : List String}
          → Path (Registered F W) (fail n m, u, k) (sent c b, v, l)
          → ⊥
      refused q = cc
