-- ===== src/Main/Refusals.antt =====
-- Configurations with which main.go does not run.
use serverless_flux.Base.{String, ◌≡◌, sym, ap, ◌∙◌, ◌≢◌, ◌⊎◌, inl, inr, true, Option, none, some}
use serverless_flux.Base.Int.{ℤ}
use serverless_flux.Base.Result.{Result, ok, err, ok-injective}
use serverless_flux.Base.Startup.{going}
use serverless_flux.Floats.{Floats}
use serverless_flux.Config.{FluxConfig, ProvidersConfig, AwsProviderConfig, GcpProviderConfig}
use serverless_flux.Config.Parse.{or_text, parse}
use serverless_flux.Config.Parse.Checked.{parse-basics, parse-aws_section}
use serverless_flux.Memory.Redis.Connection.{new_redis_memory-eq-going}
use serverless_flux.Pki.{Pki}
use serverless_flux.Scaler.Aws.{static_credentials}
use serverless_flux.Scaler.Manager.Providers.{ProvidersManager}
use serverless_flux.Main.{
  Packages, Running, State, config_path, open_memory, main, with_client, new_manager, unmanaged,
  without_pki, open_pki,
}
use serverless_flux.Main.Steps.{IsAssembled, main-IsAssembled}

module _ {F Serial Cert Key Options V Creds Conn AwsConn GcpConn W : Type 0} ⦃o : Floats F⦄
    (P : Packages F Serial Cert Key Options V Creds Conn AwsConn GcpConn W) where
  -- A program that runs has parsed its address of Redis.
  address-parsed :
      (variable : String) (s : State P) (x : Running F (State P)) (c : FluxConfig F)
      → IsAssembled P variable s x
      → P.read_config (config_path variable) s ≡ ok c
      → (options : Options) × (P.redis.parse_url (or_text "localhost:6379" c.redis_addr)
          ≡ ok options)
  unfolding open_memory
  address-parsed variable s x c a h =
      let (d, q, _, _, addr, _) = parse-basics _ _ a.cfg a.file in
      let (options, e, _) =
        new_redis_memory-eq-going P.redis P.codec a.cfg.redis_addr a.mem a.with_memory in
      let own : d ≡ c = ok-injective (sym q ∙ h) in
      (
        options,
        ap P.redis.parse_url (ap (λ y. or_text "localhost:6379" y.redis_addr) (sym own) ∙ sym addr)
            ∙ e,
      )

  -- If the package of Redis takes "localhost:6379" for no URL, the program does not run with a
  -- configuration that leaves the address out or gives that one.
  pub main-default_address :
      (variable : String) (s : State P) (c : FluxConfig F) (e : String) (x : Running F (State P))
      (s' : State P)
      → P.redis.parse_url "localhost:6379" ≡ err e
      → P.read_config (config_path variable) s ≡ ok c
      → (c.redis_addr ≡ "") ⊎ (c.redis_addr ≡ "localhost:6379")
      → main P variable s ≢ (going x, s')
  main-default_address variable s c e x s' bad file (inl none_given) h =
      let (options, good) = address-parsed variable s x c (main-IsAssembled P variable s h) file in
      cc (sym good ∙ ap (λ a. P.redis.parse_url (or_text "localhost:6379" a)) none_given ∙ bad)
  main-default_address variable s c e x s' bad file (inr given) h =
      let (options, good) = address-parsed variable s x c (main-IsAssembled P variable s h) file in
      cc (sym good ∙ ap (λ a. P.redis.parse_url (or_text "localhost:6379" a)) given ∙ bad)

  never-with_client :
      (agent_port : ℤ) (a : AwsProviderConfig F) (g : Option (GcpProviderConfig F))
      (r : Result AwsConn × State P) {m : ProvidersManager F (State P)} {s : State P}
      → with_client P agent_port a g none r ≢ (going m, s)
  unfolding with_client
  never-with_client agent_port a g (err e, s) h = cc
  never-with_client agent_port a g (ok k, s) h = cc

  never-new_manager :
      (cfg : FluxConfig F) (p : ProvidersConfig F) (a : AwsProviderConfig F) (s : State P)
      {m : ProvidersManager F (State P)} {s' : State P}
      → cfg.providers ≡ some p
      → p.aws ≡ some a
      → new_manager P none cfg s ≢ (going m, s')
  unfolding new_manager unmanaged without_pki
  never-new_manager cfg p a s hp ha h =
      never-with_client cfg.agent_port a p.gcp
        (P.ec2.load_default_config a.region (static_credentials a) s)
        (ap (λ v. without_pki P cfg.agent_port v p.gcp s) (sym ha)
          ∙ ap (λ v. unmanaged P cfg.agent_port v s) (sym hp)
          ∙ h)

  open_pki-none :
      (cfg : FluxConfig F) (s : State P) {pki : Option (Pki Cert Key)} {s' : State P}
      → cfg.disable_grpc_tls ≡ true
      → open_pki P cfg s ≡ (going pki, s')
      → pki ≡ none
  unfolding open_pki
  open_pki-none cfg s off h = cc (rw off at h)

  -- With TLS disabled and a section for AWS, the program does not run.
  pub main-aws_without_pki :
      (variable : String) (s : State P) (c : FluxConfig F) (p : ProvidersConfig F)
      (a : AwsProviderConfig F) (x : Running F (State P)) (s' : State P)
      → P.read_config (config_path variable) s ≡ ok c
      → c.disable_grpc_tls ≡ true
      → c.providers ≡ some p
      → p.aws ≡ some a
      → main P variable s ≢ (going x, s')
  main-aws_without_pki variable s c p a x s' file off hp ha h =
      let y = main-IsAssembled P variable s h in
      let (d, e, _, _, _, same) = parse-basics _ _ y.cfg y.file in
      let own : d ≡ c = ok-injective (sym e ∙ file) in
      let (q, b, hq, hb) =
        parse-aws_section _ c y.cfg p a (ap (parse _) (sym file) ∙ y.file) hp ha in
      let absent =
        open_pki-none y.cfg s (same ∙ ap (λ z. z.disable_grpc_tls) own ∙ off) y.with_pki in
      never-new_manager y.cfg q b y.after_pki hq hb
        (ap (λ k. new_manager P k y.cfg y.after_pki) (sym absent) ∙ y.with_manager)
