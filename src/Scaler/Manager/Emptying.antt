-- ===== src/Scaler/Manager/Emptying.antt =====
-- `TerminateNodes` of pkg/resource/providers_manager.go under every schedule of its goroutines.
use mathlib.Core.List.{Memᴰ}
use serverless_flux.Base.{
  ℕ, zero, suc, String, ◌≡◌, refl, ◌∙◌, true, false, List, [], ◌∷◌, inl, inr, Bool-cases, ◌==◌, All,
  All-append,
}
use serverless_flux.Base.Jobs.{poke, All-poke}
use serverless_flux.Models.{Agent}
use serverless_flux.Memory.{Memory, Contents, AgentLaws}
use serverless_flux.Registry
use serverless_flux.Scaler.Provider.{CloudProvider}
use serverless_flux.Scaler.Manager.{
  ProviderEntry, Removal, deregistering, terminating, removed, Event, loop, run, other, removals_of,
  removals, remove, empty_events,
}

module _ {F W : Type 0} (M : Memory F W) (C : Contents F W) (L : AgentLaws M C) (k : String) where
  -- The cloud of a provider leaves what is stored under the identifier.
  abbrev pub IsApart : CloudProvider F W → Type 0
  IsApart p = (id : String) (w : W) → C.agents (p.terminate_node id w).1 k ≡ C.agents w k

  -- What happens beside the goroutines leaves it.
  abbrev pub Leaves : Event W → Type 0
  Leaves loop = Unit {0}
  Leaves (run i) = Unit {0}
  Leaves (other step) = (w : W) → C.agents (step w) k ≡ C.agents w k

  -- What is left of a goroutine concerns another agent.
  abbrev Spares : Removal F W → Type 0
  Spares (deregistering p a) = ((a.id == k) ≡ false) × IsApart p
  Spares (terminating p a) = IsApart p
  Spares (removed b) = Unit {0}

  remove-Spares : (r : Removal F W) (w : W) → Spares r → Spares (remove M r w).0
  unfolding remove
  remove-Spares (deregistering p a) w (h, q) = q
  remove-Spares (terminating p a) w q = tt
  remove-Spares (removed b) w q = tt

  remove-leaves : (r : Removal F W) (w : W) → Spares r → C.agents (remove M r w).1 k ≡ C.agents w k
  unfolding remove Registry.deregister_agent
  remove-leaves (deregistering p a) w (h, q) = L.delete_agent_other a.id k w h
  remove-leaves (terminating p a) w q = q a.provider_id w
  remove-leaves (removed b) w q = refl

  poke-leaves :
      (i : ℕ) (rs : List (Removal F W)) (w : W)
      → All Spares rs
      → C.agents (poke (remove M) i rs w).1 k ≡ C.agents w k
  unfolding poke
  poke-leaves i [] w h = refl
  poke-leaves zero (r ∷ rs) w (h, hs) = remove-leaves r w h
  poke-leaves (suc i) (r ∷ rs) w (h, hs) = poke-leaves i rs w hs

  events-leave :
      (es : List (Event W)) (rs : List (Removal F W)) (w : W)
      → All Spares rs
      → All Leaves es
      → C.agents (empty_events M es rs w).1 k ≡ C.agents w k
  unfolding empty_events
  events-leave [] rs w h l = refl
  events-leave (loop ∷ es) rs w h (_, l) = events-leave es rs w h l
  events-leave (run i ∷ es) rs w h (_, l) =
      events-leave es _ _ (All-poke (remove M) Spares remove-Spares i rs w h) l
      ∙ poke-leaves i rs w h
  events-leave (other step ∷ es) rs w h (m, l) = events-leave es rs (step w) h l ∙ m w

  removals_of-Spares :
      (p : CloudProvider F W) (agents : List (Agent F))
      → IsApart p
      → ((a : Agent F) → Memᴰ a agents → (a.provider == p.name) ≡ true → (a.id == k) ≡ false)
      → All Spares (removals_of M p agents)
  unfolding removals_of
  removals_of-Spares p [] q h = tt
  removals_of-Spares p (a ∷ agents) q h =
      let rest = removals_of-Spares p agents q (λ b m. h b (Memᴰ.tail m)) in
      elim (Bool-cases (a.provider == p.name)) [
        | inl t ↦ rw t ((h a (Memᴰ.head refl) t, q), rest)
        | inr f ↦ rw f rest
      ]

  removals-Spares :
      (entries : List (ProviderEntry F W)) (agents : List (Agent F))
      → All (λ e. IsApart e.provider) entries
      → ((a : Agent F) (e : ProviderEntry F W)
          → Memᴰ a agents
          → Memᴰ e entries
          → (a.provider == e.provider.name) ≡ true
          → (a.id == k) ≡ false)
      → All Spares (removals M entries agents)
  unfolding removals
  removals-Spares [] agents q h = tt
  removals-Spares (e ∷ entries) agents (p, q) h =
      All-append Spares (removals_of M e.provider agents) _
        (removals_of-Spares e.provider agents p (λ a m. h a e m (Memᴰ.head refl)))
        (removals-Spares entries agents q (λ a d m n. h a d m (Memᴰ.tail n)))

  -- `TerminateNodes` leaves the other agents alone: where an identifier is that of no listed agent
  -- with one of the providers, and neither the clouds nor the rest of the system write the agent
  -- under it, what is stored under it stays under every schedule of the goroutines, whether the
  -- store and the clouds report errors or not.
  pub empty_events-keeps :
      (es : List (Event W)) (entries : List (ProviderEntry F W)) (agents : List (Agent F)) (w : W)
      → All Leaves es
      → All (λ e. IsApart e.provider) entries
      → ((a : Agent F) (e : ProviderEntry F W)
          → Memᴰ a agents
          → Memᴰ e entries
          → (a.provider == e.provider.name) ≡ true
          → (a.id == k) ≡ false)
      → C.agents (empty_events M es (removals M entries agents) w).1 k ≡ C.agents w k
  empty_events-keeps es entries agents w l q h =
      events-leave es (removals M entries agents) w (removals-Spares entries agents q h) l
