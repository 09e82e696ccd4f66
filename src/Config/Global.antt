-- ===== src/Config/Global.antt =====
-- The global configuration of pkg/config/config.go, which `Load` sets once and `Get` reads.
use serverless_flux.Base.{◌<>◌, ◌≡◌, Option, none, some}
use serverless_flux.Base.Result.{Result, ok, err}
use serverless_flux.Base.Startup.{Startup, going, exited, panicked}
use serverless_flux.Config.{FluxConfig}
use serverless_flux.Config.Parse.{Parsed, parsed, failed}

module _ {F : Type 0} where
  -- `Load`, on what `parse` makes of the file and on the variable `store`
  unfoldable pub load :
      Parsed F → Option (FluxConfig F) → Startup (Result (Unit {0})) × Option (FluxConfig F)
  load (parsed cfg) store = (going (ok tt), some cfg)
  load (failed e) store = (going (err e), store)
  load (Parsed.panicked e) store = (panicked e, store)

  -- `Get`
  unfoldable pub get : Option (FluxConfig F) → Startup (FluxConfig F)
  get none = panicked "config.Load must be called before config.Get"
  get (some cfg) = going cfg

  -- the first lines of `main`, up to the first use of the configuration
  unfoldable pub configured :
      Startup (Result (Unit {0})) × Option (FluxConfig F) → Startup (FluxConfig F)
  unfolding get
  configured (going (ok _), store) = get store
  configured (going (err e), store) = exited ("Failed to load config: " <> e)
  configured (exited e, store) = exited e
  configured (panicked e, store) = panicked e

  -- A program that goes on with a configuration has parsed it.
  pub configured-load :
      (p : Parsed F) (store : Option (FluxConfig F)) {cfg : FluxConfig F}
      → configured (load p store) ≡ going cfg
      → p ≡ parsed cfg
  unfolding configured load
  configured-load (parsed c) store h = cc
  configured-load (failed e) store h = cc
  configured-load (Parsed.panicked e) store h = cc
