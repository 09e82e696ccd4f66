-- ===== src/Registry/Draining.antt =====
-- The status of an agent under the operations of pkg/registry/registry.go.
use serverless_flux.Base.{
  ℕ, String, ◌≡◌, refl, sym, ◌∙◌, ap, ◌⊎◌, inl, inr, false, Option, some, List, [], ◌∷◌, Bool-cases,
  Option-cases, ◌==◌, eq_iff,
}
use mathlib.Core.Option.{some-injective}
use serverless_flux.Base.Int.{ℤ}
use serverless_flux.Base.Result.{Result, ok, err}
use serverless_flux.Models.{AgentStatus, online, offline, busy, draining, NodeStatus, Agent}
use serverless_flux.Memory.{Memory, Contents, AgentLaws, IsKeyed}
use serverless_flux.Registry.{
  found, is_draining, revived, with_heartbeat, with_metrics, with_status, get_agent, set_offline,
  mark_offline, set_draining, mark_draining, update_heartbeat, beat, update_node_status, refresh,
}

-- What the health poller and the autoscaler report of an agent.
pub data HealthEvent (F : Type 0) : Type 0 where
  unreachable : String → HealthEvent F
  heartbeat : String → ℤ → ℕ → HealthEvent F
  metrics : String → NodeStatus F → HealthEvent F
  drain : String → HealthEvent F

module _ {F W : Type 0} (M : Memory F W) where
  unfoldable pub handle : HealthEvent F → W → W
  handle (unreachable id) w = set_offline M id w
  handle (heartbeat id count now) w = update_heartbeat M id count now w
  handle (metrics id status) w = update_node_status M id status w
  handle (drain id) w = set_draining M id w

  unfoldable pub handle_all : List (HealthEvent F) → W → W
  unfolding handle
  handle_all [] w = w
  handle_all (e ∷ es) w = handle_all es (handle e w)

pub status-cases : (s : AgentStatus) → (s ≡ draining) ⊎ (is_draining s ≡ false)
status-cases draining = inl refl
status-cases online = inr refl
status-cases offline = inr refl
status-cases busy = inr refl

module _ {F W : Type 0} (M : Memory F W) (C : Contents F W) (L : AgentLaws M C) where
  -- The store holds an agent under `k`, and it is draining.
  abbrev pub IsDraining : String → W → Type 0
  IsDraining k w = (a : Agent F) × (C.agents w k ≡ some a) × (a.status ≡ draining)

  -- What an operation of the registry may do: nothing, or one write over a stored agent, which
  -- keeps the identifier, and the status if the agent is draining.
  data Touched (w : W) (w' : W) : Type 0 where
    unchanged : w' ≡ w → Touched w w'
    written :
        (id : String) (a b : Agent F)
        → C.agents w id ≡ some a
        → b.id ≡ a.id
        → (a.status ≡ draining → b.status ≡ draining)
        → w' ≡ (M.save_agent b w).1
        → Touched w w'

  -- A read that finds an agent finds the stored one.
  found-eq :
      (k : String) (w : W) (r : Result (Option (Agent F))) {a : Agent F}
      → M.get_agent k w ≡ r
      → found r ≡ some a
      → C.agents w k ≡ some a
  found-eq k w (ok o) e h = sym (L.get_agent_ok k w o e) ∙ h
  found-eq k w (err x) e h = cc

  pub stored :
      (id : String) (w : W) {a : Agent F} → get_agent M id w ≡ some a → C.agents w id ≡ some a
  unfolding get_agent
  stored id w h = found-eq id w (M.get_agent id w) refl h

  set_offline-Touched : (id : String) (w : W) → Touched w (set_offline M id w)
  unfolding set_offline
  set_offline-Touched id w = elim (Option-cases (get_agent M id w)) [
    | inl e ↦ unchanged (rw (e, mark_offline))
    | inr (a, e) ↦ elim (status-cases a.status) [
      | inl d ↦ unchanged (rw (e, mark_offline) (rw d))
      | inr n ↦
          written id a (with_status offline a) (stored id w e) refl (λ d. cc (ap is_draining d))
            (rw (e, mark_offline) (rw n))
    ]
  ]

  update_heartbeat-Touched :
      (id : String) (count : ℤ) (now : ℕ) (w : W) → Touched w (update_heartbeat M id count now w)
  unfolding update_heartbeat
  update_heartbeat-Touched id count now w = elim (Option-cases (get_agent M id w)) [
    | inl e ↦ unchanged (rw (e, beat))
    | inr (a, e) ↦
        written id a (with_heartbeat count now a) (stored id w e) refl (ap revived) (rw (e, beat))
  ]

  update_node_status-Touched :
      (id : String) (status : NodeStatus F) (w : W) → Touched w (update_node_status M id status w)
  unfolding update_node_status
  update_node_status-Touched id status w = elim (Option-cases (get_agent M id w)) [
    | inl e ↦ unchanged (rw (e, refresh))
    | inr (a, e) ↦
        written id a (with_metrics status a) (stored id w e) refl (ap revived) (rw (e, refresh))
  ]

  set_draining-Touched : (id : String) (w : W) → Touched w (set_draining M id w)
  unfolding set_draining
  set_draining-Touched id w = elim (Option-cases (get_agent M id w)) [
    | inl e ↦ unchanged (rw (e, mark_draining))
    | inr (a, e) ↦
        written id a (with_status draining a) (stored id w e) refl (λ _. refl)
          (rw (e, mark_draining))
  ]

  handle-Touched : (e : HealthEvent F) (w : W) → Touched w (handle M e w)
  unfolding handle
  handle-Touched (unreachable id) w = set_offline-Touched id w
  handle-Touched (heartbeat id count now) w = update_heartbeat-Touched id count now w
  handle-Touched (metrics id status) w = update_node_status-Touched id status w
  handle-Touched (drain id) w = set_draining-Touched id w

  pub save-IsKeyed : (b : Agent F) (w : W) → IsKeyed C w → IsKeyed C (M.save_agent b w).1
  save-IsKeyed b w h k a e = elim (Bool-cases (b.id == k)) [
    | inr other ↦ h k a (sym (L.save_agent_other b w k other) ∙ e)
    | inl same ↦
        let p = (eq_iff b.id k).0 same in
        let at_id = ap (C.agents (M.save_agent b w).1) p ∙ e in
        elim (L.save_agent_any b w) [
          | inl new ↦ ap (λ (x : Agent F). x.id) (some-injective a b (sym at_id ∙ new)) ∙ p
          | inr old ↦ h b.id a (sym old ∙ at_id) ∙ p
        ]
  ]

  Touched-IsKeyed : {w w' : W} → Touched w w' → IsKeyed C w → IsKeyed C w'
  Touched-IsKeyed (unchanged e) h = rw e h
  Touched-IsKeyed {w} (written id a b at_id same stay e) h = rw e (save-IsKeyed b w h)

  -- A write of `b` keeps every draining agent, if `b` is draining whenever it replaces one.
  pub save-IsDraining :
      (b : Agent F) (k : String) (w : W)
      → IsDraining k w
      → (b.id ≡ k → b.status ≡ draining)
      → IsDraining k (M.save_agent b w).1
  save-IsDraining b k w (a, e, d) h = elim (Bool-cases (b.id == k)) [
    | inr other ↦ (a, L.save_agent_other b w k other ∙ e, d)
    | inl same ↦
        let p = (eq_iff b.id k).0 same in
        elim (L.save_agent_any b w) [
          | inl new ↦ (b, after p ∙ new, h p)
          | inr old ↦ (a, after p ∙ old ∙ ap (C.agents w) p ∙ e, d)
        ]
  ]
    where
      after : b.id ≡ k → C.agents (M.save_agent b w).1 k ≡ C.agents (M.save_agent b w).1 b.id
      after p = ap (C.agents (M.save_agent b w).1) (sym p)

  Touched-IsDraining :
      (k : String) {w w' : W} → Touched w w' → IsKeyed C w → IsDraining k w → IsDraining k w'
  Touched-IsDraining k (unchanged e) h d = rw e d
  Touched-IsDraining k {w} (written id a b at_id same stay e) h (x, there, d) = rw e (
      save-IsDraining b k w (x, there, d)
        λ p.
          let own : id ≡ k = sym (h id a at_id) ∙ sym same ∙ p in
          let eq : C.agents w id ≡ some x = ap (C.agents w) own ∙ there in stay (cc))

  -- Over a lawful store in which agents stand under their identifiers, a draining agent is still
  -- stored and draining after any sequence of unreachable reports, heartbeats, metrics and drain
  -- orders for any agents, whichever of the writes fail.
  pub handle_all-IsDraining :
      (k : String) (es : List (HealthEvent F)) (w : W)
      → IsKeyed C w
      → IsDraining k w
      → IsDraining k (handle_all M es w)
  unfolding handle_all
  handle_all-IsDraining k [] w h d = d
  handle_all-IsDraining k (e ∷ es) w h d =
      let t = handle-Touched e w in
      handle_all-IsDraining k es (handle M e w) (Touched-IsKeyed t h) (Touched-IsDraining k t h d)
