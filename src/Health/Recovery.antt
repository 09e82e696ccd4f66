-- ===== src/Health/Recovery.antt =====
-- When the health poller of main.go brings an agent back.
use serverless_flux.Base.{
  String, ◌≡◌, ◌≢◌, refl, ap, true, List, [], ◌∷◌, Bool-cases, inl, inr, subst,
}
use serverless_flux.Base.Result.{Result, ok, err}
use serverless_flux.Models.{
  AgentStatus, online, offline, busy, draining, status_eq, NodeStatus, Agent,
}
use serverless_flux.Memory.{Memory}
use serverless_flux.Client.{AgentClient}
use serverless_flux.Registry
use serverless_flux.Health.{revive, checked, check_agent_health}

module _ {F W : Type 0} (M : Memory F W) (C : AgentClient F W) (a : Agent F) where
  -- The agent was listed as offline, answered the health check and then gave its status, which
  -- was written into the registry; its functions are synchronised.
  pub record IsRecovery (w : W) (r : W × List String) : Type 0 where
    pub down : a.status ≡ offline
    pub healthy : (C.health_check a w).0 ≡ ok tt
    pub status : NodeStatus F
    pub told : (C.get_node_status a (C.health_check a w).1).0 ≡ ok status
    pub result : r ≡ (
      Registry.update_node_status M a.id status (C.get_node_status a (C.health_check a w).1).1,
      a.id ∷ [],
    )

  offline_of : (s : AgentStatus) → status_eq s offline ≡ true → s ≡ offline
  offline_of online h = cc
  offline_of offline h = refl
  offline_of busy h = cc
  offline_of draining h = cc

  revive-IsRecovery :
      (w : W) (r : Result (NodeStatus F) × W)
      → a.status ≡ offline
      → (C.health_check a w).0 ≡ ok tt
      → C.get_node_status a (C.health_check a w).1 ≡ r
      → (revive M C a r).1 ≢ []
      → IsRecovery w (revive M C a r)
  unfolding revive
  revive-IsRecovery w (err e, v) d u t h = absurd (h refl)
  revive-IsRecovery w (ok status, v) d u t h = record {
    down = d;
    healthy = u;
    status = status;
    told = ap (λ x. x.0) t;
    result = rw t refl;
  }

  -- A health check that starts a synchronisation is a recovery.
  check_agent_health-IsRecovery :
      (w : W) → (check_agent_health M C a w).1 ≢ [] → IsRecovery w (check_agent_health M C a w)
  unfolding check_agent_health
  check_agent_health-IsRecovery w h = by (C.health_check a w) refl h
    where
      by :
          (r : Result (Unit {0}) × W)
          → C.health_check a w ≡ r
          → (checked M C a r).1 ≢ []
          → IsRecovery w (checked M C a r)
      by (err e, v) p k = absurd (k (unfold checked in refl))
      by (ok _, v) p k =
          unfold checked in
          elim (Bool-cases (status_eq a.status offline)) [
            | inr f ↦ absurd (k (rw f))
            | inl f ↦ rw f (
                subst
                  (λ u.
                    (revive M C a (C.get_node_status a u)).1 ≢ []
                    → IsRecovery w (revive M C a (C.get_node_status a u)))
                  (ap (λ x. x.1) p)
                  (revive-IsRecovery w _ (offline_of a.status f) (ap (λ x. x.0) p) refl)
                  (rw f at k))
          ]
