-- ===== src/Main/Steps.antt =====
-- The steps of a start of main.go that went through.
use serverless_flux.Base.{String, ◌≡◌, sym, ap, subst, Option, none}
use serverless_flux.Base.Startup.{going, proceed-eq-going, continue-injective}
use serverless_flux.Floats.{Floats}
use serverless_flux.Config.{FluxConfig}
use serverless_flux.Config.Parse.{parsed}
use serverless_flux.Config.Global.{configured-load}
use serverless_flux.Memory.{Memory}
use serverless_flux.Pki.{Pki}
use serverless_flux.Scaler.Manager.Providers.{ProvidersManager}
use serverless_flux.Main.{
  Packages, Running, State, config_file, loaded, open_pki, open_memory, new_manager, run_with, main,
  from_store, from_pki, from_config,
}

module _ {F Serial Cert Key Options V Creds Conn AwsConn GcpConn W : Type 0} ⦃o : Floats F⦄
    (P : Packages F Serial Cert Key Options V Creds Conn AwsConn GcpConn W) where
  -- What a program that runs was put together from.
  pub record IsAssembled (variable : String) (s : State P) (x : Running F (State P)) : Type 0 where
    pub cfg : FluxConfig F
    pub pki : Option (Pki Cert Key)
    pub mem : Memory F (State P)
    pub made : ProvidersManager F (State P)
    pub after_pki : State P
    pub after_all : State P
    pub file : config_file P variable s ≡ parsed cfg
    pub with_pki : open_pki P cfg s ≡ (going pki, after_pki)
    pub with_memory : (open_memory P cfg after_pki).0 ≡ going mem
    pub with_manager : new_manager P pki cfg after_pki ≡ (going made, after_all)
    pub whole : x ≡ run_with P cfg pki mem made

  assembled :
      (variable : String) (s : State P) (cfg : FluxConfig F) (pki : Option (Pki Cert Key))
      (mem : Memory F (State P)) (t : State P) {x : Running F (State P)} {s' : State P}
      → config_file P variable s ≡ parsed cfg
      → open_pki P cfg s ≡ (going pki, t)
      → (open_memory P cfg t).0 ≡ going mem
      → from_store P cfg pki mem t ≡ (going x, s')
      → IsAssembled variable s x
  unfolding from_store
  assembled variable s cfg pki mem t file e f h =
      let (made, u, g, k) = proceed-eq-going (new_manager P pki cfg t) _ h in
      record {
        cfg = cfg;
        pki = pki;
        mem = mem;
        made = made;
        after_pki = t;
        after_all = u;
        file = file;
        with_pki = e;
        with_memory = f;
        with_manager = g;
        whole = sym (continue-injective k);
      }

  from_config-IsAssembled :
      (variable : String) (s : State P) (cfg : FluxConfig F) {x : Running F (State P)}
      {s' : State P}
      → config_file P variable s ≡ parsed cfg
      → from_config P cfg s ≡ (going x, s')
      → IsAssembled variable s x
  unfolding from_config from_pki open_memory
  from_config-IsAssembled variable s cfg {x} {s'} file h =
      let (pki, t, e, h1) = proceed-eq-going (open_pki P cfg s) _ h in
      let (mem, u, f, h2) = proceed-eq-going (open_memory P cfg t) _ h1 in
      assembled variable s cfg pki mem t file e (ap (λ p. p.0) f)
        (subst (λ v. from_store P cfg pki mem v ≡ (going x, s')) (sym (ap (λ p. p.1) f)) h2)

  pub main-IsAssembled :
      (variable : String) (s : State P) {x : Running F (State P)} {s' : State P}
      → main P variable s ≡ (going x, s')
      → IsAssembled variable s x
  unfolding main loaded
  main-IsAssembled variable s {x} {s'} h =
      let (cfg, t, e, h1) = proceed-eq-going (loaded P variable s) (from_config P) h in
      from_config-IsAssembled variable s cfg
        (configured-load (config_file P variable s) none (ap (λ p. p.0) e))
        (subst (λ v. from_config P cfg v ≡ (going x, s')) (sym (ap (λ p. p.1) e)) h1)
