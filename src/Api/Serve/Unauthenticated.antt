-- ===== src/Api/Serve/Unauthenticated.antt =====
-- What a request without the key of Flux can do to it.
use serverless_flux.Base.{◌==◌, ◌≡◌, refl, ◌⊎◌, inl, inr, false, Bool-cases, []}
use serverless_flux.Floats.{Floats}
use serverless_flux.Api.Routing.{Routed, authenticate, route}
use serverless_flux.Api.Routing.Guarded.{IsOpen, route-IsOpen}
use serverless_flux.Api.Listing.{handle_get_agents}
use serverless_flux.Api.Serve.{
  Request, preflight, denied, missing, healthy, agent_list, Service, Served, handle, dispatch,
  serve_http, serve,
}

module _ {F W : Type 0} ⦃o : Floats F⦄ (S : Service F W) where
  -- The world is as it was, no goroutine was started, and the answer is 204, 401, 404, the state of
  -- health, or the list of the agents.
  abbrev pub IsHarmless : W → Served F W → Type 0
  IsHarmless w s =
      (s.1 ≡ w)
      × (s.2 ≡ [])
      × ((s.0 ≡ preflight)
          ⊎ (s.0 ≡ denied)
          ⊎ (s.0 ≡ missing)
          ⊎ (s.0 ≡ healthy)
          ⊎ (s.0 ≡ agent_list (handle_get_agents S.rfc3339 S.memory w)))

  dispatch-IsHarmless :
      (q : Routed) (r : Request W) (w : W) → IsOpen q → IsHarmless w (dispatch S q r w)
  unfolding dispatch handle
  dispatch-IsHarmless q r w (inl e) = rw e (refl, refl, inr (inl refl))
  dispatch-IsHarmless q r w (inr (inl e)) = rw e (refl, refl, inr (inr (inl refl)))
  dispatch-IsHarmless q r w (inr (inr (inl e))) = rw e (refl, refl, inr (inr (inr (inl refl))))
  dispatch-IsHarmless q r w (inr (inr (inr e))) = rw e (refl, refl, inr (inr (inr (inr refl))))

  -- A request that does not show the key leaves the world as it was and starts nothing; it is
  -- answered with 204, 401 or 404, with the state of health, or with the list of the agents.
  pub serve-IsHarmless :
      (r : Request W) (w : W)
      → authenticate S.key r.api_key r.authorization ≡ false
      → IsHarmless w (serve S r w)
  unfolding serve serve_http
  serve-IsHarmless r w h = elim (Bool-cases (r.method == "OPTIONS")) [
    | inl e ↦ rw e (refl, refl, inl refl)
    | inr e ↦
        rw (e, h)
          (dispatch-IsHarmless (route false r.path r.method) r w (route-IsOpen r.path r.method))
  ]
