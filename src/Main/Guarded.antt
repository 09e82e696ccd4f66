-- ===== src/Main/Guarded.antt =====
-- The service that main.go starts is closed to requests that show no key.
use serverless_flux.Base.Result.{ok, ok-injective}
use serverless_flux.Config.{FluxConfig}
use serverless_flux.Base.{String, ◌==◌, ◌≡◌, sym, ap, ◌∙◌, subst, false}
use serverless_flux.Base.Startup.{going}
use serverless_flux.Floats.{Floats}
use serverless_flux.Config.Parse.Checked.{parse-basics}
use serverless_flux.Api.Routing.{authenticate}
use serverless_flux.Api.Serve.{Request, serve}
use serverless_flux.Api.Serve.Unauthenticated.{IsHarmless, serve-IsHarmless}
use serverless_flux.Main.{Packages, Running, State, config_path, run_with, main}
use serverless_flux.Main.Steps.{IsAssembled, main-IsAssembled}

module _ {F Serial Cert Key Options V Creds Conn AwsConn GcpConn W : Type 0} ⦃o : Floats F⦄
    (P : Packages F Serial Cert Key Options V Creds Conn AwsConn GcpConn W) where
  pub service-key :
      (variable : String) (s : State P) (x : Running F (State P)) (c : FluxConfig F)
      → IsAssembled P variable s x
      → P.read_config (config_path variable) s ≡ ok c
      → ((c.api_key == "") ≡ false) × (x.service.key ≡ c.api_key)
  unfolding run_with
  service-key variable s x c a h =
      let (d, q, keyed, same, _, _) = parse-basics _ _ a.cfg a.file in
      let own : d ≡ c = ok-injective (sym q ∙ h) in
      (
        subst (λ y. (y.api_key == "") ≡ false) own keyed,
        ap (λ y. y.service.key) a.whole ∙ same ∙ ap (λ y. y.api_key) own,
      )

  -- Where the program runs, the key in its configuration file is not empty, and a request that
  -- does not show that key leaves the world as it was and starts nothing; it is answered with 204,
  -- 401 or 404, with the state of health, or with the list of the agents.
  pub main-IsHarmless :
      (variable : String) (s : State P) (x : Running F (State P)) (s' : State P) (c : FluxConfig F)
      (r : Request (State P)) (w : State P)
      → main P variable s ≡ (going x, s')
      → P.read_config (config_path variable) s ≡ ok c
      → authenticate c.api_key r.api_key r.authorization ≡ false
      → ((c.api_key == "") ≡ false) × IsHarmless x.service w (serve x.service r w)
  main-IsHarmless variable s x s' c r w h file refused =
      let (keyed, same) = service-key variable s x c (main-IsAssembled P variable s h) file in
      (keyed, serve-IsHarmless x.service r w (rw same refused))
