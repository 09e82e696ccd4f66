-- ===== src/Registry/Updates/Serial.antt =====
-- The updates of the registry where no two overlap.
use serverless_flux.Base.{
  ℕ, suc, ◌≡◌, refl, ◌∙◌, ap, inl, inr, Bool-cases, Option-cases, List, [], ◌∷◌, ◌++◌, length,
  length-append, arith,
}
use serverless_flux.Base.Jobs.{poke}
use serverless_flux.Memory.{Memory}
use serverless_flux.Registry.{
  get_agent, is_draining, set_offline, mark_offline, set_draining, mark_draining, update_heartbeat,
  beat, update_node_status, refresh,
}
use serverless_flux.Registry.Draining.{
  HealthEvent, unreachable, heartbeat, metrics, drain, handle, handle_all,
}
use serverless_flux.Registry.Updates.{
  Update, reading, UpdateEvent, called, stepped, subject, after_read, advance, updated,
}

-- The calls made one after the other, each to its end, by goroutines that are numbered from `n`.
abbrev serial : {F : Type 0} → ℕ → List (HealthEvent F) → List (UpdateEvent F)
serial n [] = []
serial n (e ∷ es) = called e ∷ stepped n ∷ stepped n ∷ serial (suc n) es

module _ {F W : Type 0} (M : Memory F W) where
  poke-last :
      (us : List (Update F)) (u : Update F) (w : W)
      → poke (advance M) (length us) (us ++ u ∷ []) w
        ≡ (us ++ (advance M u w).0 ∷ [], (advance M u w).1)
  unfolding poke
  poke-last [] u w = refl
  poke-last (v ∷ us) u w = rw (poke-last us u w)

  -- Both calls of one update are the operation of the registry.
  twice-handle :
      (e : HealthEvent F) (w : W) → (advance M (advance M (reading e) w).0 w).1 ≡ handle M e w
  unfolding advance handle set_offline update_heartbeat update_node_status set_draining mark_offline
      beat refresh mark_draining
  twice-handle (unreachable id) w = elim (Option-cases (get_agent M id w)) [
    | inl e ↦ rw e
    | inr (a, e) ↦ rw e (elim (Bool-cases (is_draining a.status)) [ inl q ↦ rw q | inr q ↦ rw q ])
  ]
  twice-handle (heartbeat id count now) w = elim (Option-cases (get_agent M id w)) [
    | inl e ↦ rw e
    | inr (a, e) ↦ rw e
  ]
  twice-handle (metrics id status) w = elim (Option-cases (get_agent M id w)) [
    | inl e ↦ rw e
    | inr (a, e) ↦ rw e
  ]
  twice-handle (drain id) w = elim (Option-cases (get_agent M id w)) [
    | inl e ↦ rw e
    | inr (a, e) ↦ rw e
  ]

  stepped-last :
      (es : List (UpdateEvent F)) (us : List (Update F)) (u : Update F) (w : W)
      → updated M (stepped (length us) ∷ es) (us ++ u ∷ []) w
        ≡ updated M es (us ++ (advance M u w).0 ∷ []) (advance M u w).1
  unfolding updated
  stepped-last es us u w = ap (λ p. updated M es p.0 p.1) (poke-last us u w)

  serial_from :
      (es : List (HealthEvent F)) (us : List (Update F)) (w : W) (n : ℕ)
      → n ≡ length us
      → (updated M (serial n es) us w).1 ≡ handle_all M es w
  unfolding updated handle_all advance
  serial_from [] us w n h = refl
  serial_from (e ∷ es) us w n h =
      let u = after_read e (get_agent M (subject e) w) in
      let rest = serial (suc (length us)) es in
      let v = (advance M u w).0 in
      rw h (
        ap (λ p. p.1) (stepped-last (stepped (length us) ∷ rest) us (reading e) w)
        ∙ ap (λ p. p.1) (stepped-last rest us u w)
        ∙ serial_from es (us ++ v ∷ []) (advance M u w).1 (suc (length us))
            (omega (arith, length-append us (v ∷ [])))
        ∙ ap (handle_all M es) (twice-handle e w))

  -- Where the calls are made one after the other, the updates have the effect of the operations.
  serial-eq-handle_all :
      (es : List (HealthEvent F)) (w : W) → (updated M (serial 0 es) [] w).1 ≡ handle_all M es w
  serial-eq-handle_all es w = serial_from es [] w 0 refl
