-- ===== src/Tests/Recovering.antt =====
-- The theorem on health checks at concrete data.
use mathlib.Core.List.{Memᴰ}
use serverless_flux.Base.{ℕ, ◌≡◌, refl, subst, sym, ◌≢◌, List, [], ◌∷◌}
use serverless_flux.Base.Jobs.{poke}
use serverless_flux.Memory.Redis.{redis_memory}
use serverless_flux.Registry
use serverless_flux.Models.{NodeStatus, offline, Agent}
use serverless_flux.Health.{check_agent_health}
use serverless_flux.Health.Polling.{
  PollEvent, ticked, ran, elsewhere, synchronised, check, polled, Gave, polled-Gave,
}
use serverless_flux.Tests.Server.{Server, server, codec, agent_cell, store}
use serverless_flux.Tests.Fleet.{agent, metrics, client}

abbrev down : Agent ℕ
down = agent "a1" offline (metrics 5 1000 200)

down_syncs : (check_agent_health store client down []).1 ≢ []
unfolding check_agent_health
down_syncs e = cc

abbrev schedule : List (PollEvent Server)
schedule = ticked ∷ ran 0 ∷ elsewhere (λ w. w) ∷ ran 0 ∷ ran 0 ∷ []

abbrev fleet : Server
fleet = ("flux:agents:a1", agent_cell down) ∷ []

polled_run : (polled store client schedule [] fleet).0 ≡ synchronised down ∷ []
unfolding polled poke check Registry.get_all_agents server codec redis_memory
polled_run = refl

polled-Gave_example : (status : NodeStatus ℕ) × Gave store client down status
polled-Gave_example =
    polled-Gave store client schedule fleet down
      (subst (Memᴰ (synchronised down)) (sym polled_run) (Memᴰ.head refl))
