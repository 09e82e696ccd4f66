-- ===== src/Registry/Updates/Races.antt =====
-- What the interleavings of the registry's updates keep, and what they lose.
use serverless_flux.Base.{
  ℕ, zero, suc, String, ◌≡◌, refl, sym, ◌∙◌, ap, inl, inr, false, Bool-cases, some, Option-cases,
  List, [], ◌∷◌, ◌++◌, ◌==◌, eq_iff, All, All-append,
}
use mathlib.Core.Option.{some-injective}
use serverless_flux.Base.Jobs.{poke}
use serverless_flux.Base.Result.{ok}
use serverless_flux.Models.{draining, Agent}
use serverless_flux.Memory.{Memory, Contents, AgentLaws, IsKeyed}
use serverless_flux.Registry.{get_agent, deregister_agent, is_draining}
use serverless_flux.Registry.Draining.{
  HealthEvent, unreachable, heartbeat, metrics, drain, IsDraining, stored, status-cases,
  save-IsKeyed, save-IsDraining,
}
use serverless_flux.Registry.Updates.{
  Update, reading, saving, settled, UpdateEvent, called, stepped, deregistered, subject, amended,
  after_read, advance, updated,
}

module _ {F W : Type 0} (M : Memory F W) (C : Contents F W) (L : AgentLaws M C) where
  -- A goroutine that is about to write the agent `k` writes a draining one.
  abbrev pub KeepsDraining : String → Update F → Type 0
  KeepsDraining k (reading e) = Unit {0}
  KeepsDraining k (saving b) = b.id ≡ k → b.status ≡ draining
  KeepsDraining k settled = Unit {0}

  abbrev pub Spares : String → UpdateEvent F → Type 0
  Spares k (called e) = Unit {0}
  Spares k (stepped i) = Unit {0}
  Spares k (deregistered id) = (id == k) ≡ false

  -- Agents stand under their identifiers, and the agent `k` is draining.
  abbrev pub Drains : String → W → Type 0
  Drains k w = IsKeyed C w × IsDraining M C L k w

  amended-KeepsDraining :
      (k : String) (e : HealthEvent F) (a : Agent F)
      → (a.id ≡ k → a.status ≡ draining)
      → KeepsDraining k (amended e a)
  amended-KeepsDraining k (unreachable id) a h = elim (status-cases a.status) [
    | inl d ↦ rw d tt
    | inr n ↦ rw n (λ p. cc (ap is_draining (h p)))
  ]
  amended-KeepsDraining k (heartbeat id count now) a h = λ p. rw (h p)
  amended-KeepsDraining k (metrics id status) a h = λ p. rw (h p)
  amended-KeepsDraining k (drain id) a h = λ p. refl

  after_read-KeepsDraining :
      (k : String) (e : HealthEvent F) (w : W)
      → IsKeyed C w
      → IsDraining M C L k w
      → KeepsDraining k (after_read e (get_agent M (subject e) w))
  after_read-KeepsDraining k e w keyed (x, there, d) =
      elim (Option-cases (get_agent M (subject e) w)) [
        | inl q ↦ rw q tt
        | inr (a, q) ↦ rw q (
            amended-KeepsDraining k e a λ p.
              let at = stored M C L (subject e) w q in
              let own = sym (keyed (subject e) a at) ∙ p in
              cc (some-injective a x (sym at ∙ ap (C.agents w) own ∙ there)))
      ]

  advance-Drains :
      (k : String) (u : Update F) (w : W)
      → Drains k w
      → KeepsDraining k u
      → Drains k (advance M u w).1 × KeepsDraining k (advance M u w).0
  unfolding advance
  advance-Drains k (reading e) w h d = (h, after_read-KeepsDraining k e w h.0 h.1)
  advance-Drains k (saving b) w h d =
      ((save-IsKeyed M C L b w h.0, save-IsDraining M C L b k w h.1 d), tt)
  advance-Drains k settled w h d = (h, tt)

  poke-Drains :
      (k : String) (i : ℕ) (us : List (Update F)) (w : W)
      → Drains k w
      → All (KeepsDraining k) us
      → Drains k (poke (advance M) i us w).1 × All (KeepsDraining k) (poke (advance M) i us w).0
  unfolding poke
  poke-Drains k i [] w h ds = (h, tt)
  poke-Drains k zero (u ∷ us) w h (d, ds) =
      let (h', d') = advance-Drains k u w h d in (h', (d', ds))
  poke-Drains k (suc i) (u ∷ us) w h (d, ds) =
      let (h', ds') = poke-Drains k i us w h ds in (h', (d, ds'))

  delete-IsKeyed : (id : String) (w : W) → IsKeyed C w → IsKeyed C (M.delete_agent id w).1
  delete-IsKeyed id w h k a e = elim (Bool-cases (id == k)) [
    | inr other ↦ h k a (sym (L.delete_agent_other id k w other) ∙ e)
    | inl same ↦
        let p = ap (C.agents (M.delete_agent id w).1) ((eq_iff id k).0 same) ∙ e in
        elim (L.delete_agent_any id w) [
          | inl gone ↦ cc
          | inr old ↦ h id a (sym old ∙ p) ∙ (eq_iff id k).0 same
        ]
  ]

  deregister-Drains :
      (k id : String) (w : W) → (id == k) ≡ false → Drains k w → Drains k (deregister_agent M id w)
  unfolding deregister_agent
  deregister-Drains k id w h (keyed, (a, there, d)) =
      (delete-IsKeyed id w keyed, (a, L.delete_agent_other id k w h ∙ there, d))

  updated-Drains :
      (k : String) (es : List (UpdateEvent F)) (us : List (Update F)) (w : W)
      → Drains k w
      → All (KeepsDraining k) us
      → All (Spares k) es
      → Drains k (updated M es us w).1 × All (KeepsDraining k) (updated M es us w).0
  unfolding updated
  updated-Drains k [] us w h ds ss = (h, ds)
  updated-Drains k (called e ∷ es) us w h ds (_, ss) =
      updated-Drains k es (us ++ reading e ∷ []) w h (All-append (KeepsDraining k) us _ ds (tt, tt))
        ss
  updated-Drains k (stepped i ∷ es) us w h ds (_, ss) =
      let (us', w') = poke (advance M) i us w in
      let (h', ds') = poke-Drains k i us w h ds in updated-Drains k es us' w' h' ds' ss
  updated-Drains k (deregistered id ∷ es) us w h ds (s, ss) =
      updated-Drains k es us (deregister_agent M id w) (deregister-Drains k id w s h) ds ss

  -- If an agent is draining, no goroutine is about to write it with another status, and it is not
  -- deregistered, it stays stored and draining, however the calls of the store that updates of any
  -- agents make take turns, whichever of the writes fail.
  pub updated-IsDraining :
      (k : String) (es : List (UpdateEvent F)) (us : List (Update F)) (w : W)
      → IsKeyed C w
      → IsDraining M C L k w
      → All (KeepsDraining k) us
      → All (Spares k) es
      → IsDraining M C L k (updated M es us w).1
  updated-IsDraining k es us w keyed d ds ss = (updated-Drains k es us w (keyed, d) ds ss).0.1

-- The first goroutine makes no call of the store.
abbrev pub SparesFirst : {F : Type 0} → UpdateEvent F → Type 0
SparesFirst (called e) = Unit {0}
SparesFirst (stepped zero) = ⊥
SparesFirst (stepped (suc i)) = Unit {0}
SparesFirst (deregistered id) = Unit {0}

module _ {F W : Type 0} (M : Memory F W) where
  updated-append :
      (es fs : List (UpdateEvent F)) (us : List (Update F)) (w : W)
      → updated M (es ++ fs) us w ≡ updated M fs (updated M es us w).0 (updated M es us w).1
  unfolding updated
  updated-append [] fs us w = refl
  updated-append (called e ∷ es) fs us w = updated-append es fs (us ++ reading e ∷ []) w
  updated-append (stepped i ∷ es) fs us w = updated-append es fs _ _
  updated-append (deregistered id ∷ es) fs us w = updated-append es fs us (deregister_agent M id w)

  updated-head :
      (es : List (UpdateEvent F)) (u : Update F) (us : List (Update F)) (w : W)
      → All SparesFirst es
      → (vs : List (Update F)) × ((updated M es (u ∷ us) w).0 ≡ u ∷ vs)
  unfolding updated poke
  updated-head [] u us w h = (us, refl)
  updated-head (called e ∷ es) u us w (_, h) = updated-head es u (us ++ reading e ∷ []) w h
  updated-head (stepped zero ∷ es) u us w (h, _) = absurd h
  updated-head (stepped (suc i) ∷ es) u us w (_, h) = updated-head es u _ _ h
  updated-head (deregistered id ∷ es) u us w (_, h) =
      updated-head es u us (deregister_agent M id w) h

  -- the last step of a goroutine that is about to write
  written_last :
      (es : List (UpdateEvent F)) (b : Agent F) (w : W)
      → All SparesFirst es
      → (updated M (es ++ stepped 0 ∷ []) (saving b ∷ []) w).1
        ≡ (M.save_agent b (updated M es (saving b ∷ []) w).1).1
  unfolding updated poke advance
  written_last es b w h =
      let (vs, p) = updated-head es (saving b) [] w h in
      ap (λ q. q.1) (updated-append es (stepped 0 ∷ []) (saving b ∷ []) w)
      ∙ ap (λ us. (updated M (stepped 0 ∷ []) us (updated M es (saving b ∷ []) w).1).1) p

-- A write hides what others did to the agent since it was read: if the first goroutine read the
-- agent and amends it, then, over a store of which no write fails, once it has written, the agent
-- is stored as it was read, with the amendment, whatever updates the other goroutines made in
-- between, a drain order or a deregistration included.
pub updated-stale :
    {F W : Type 0} (M : Memory F W) (C : Contents F W) (L : AgentLaws M C) (e : HealthEvent F)
    (a b : Agent F) (es : List (UpdateEvent F)) (w : W)
    → ((c : Agent F) (v : W) → (M.save_agent c v).0 ≡ ok tt)
    → get_agent M (subject e) w ≡ some a
    → amended e a ≡ saving b
    → All SparesFirst es
    → C.agents (updated M (called e ∷ stepped 0 ∷ (es ++ stepped 0 ∷ [])) [] w).1 b.id ≡ some b
unfolding updated poke advance
updated-stale M C L e a b es w works found amends h =
    ap (λ u. C.agents (updated M (es ++ stepped 0 ∷ []) (u ∷ []) w).1 b.id)
      (ap (after_read e) found ∙ amends)
    ∙ ap (λ v. C.agents v b.id) (written_last M es b w h)
    ∙ L.save_agent_ok b _ (works b _)
