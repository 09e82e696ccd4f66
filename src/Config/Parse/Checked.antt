-- ===== src/Config/Parse/Checked.antt =====
-- What a parsed configuration guarantees, by pkg/config/config.go.
use serverless_flux.Base.{
  ℕ, suc, String, ◌≡◌, ◌≢◌, ◌⊎◌, inl, inr, refl, sym, ap, ◌∙◌, subst, ◌==◌, false, Bool-cases, ◌&&◌,
  Option, none, some, arith,
}
use mathlib.Core.Option.{some-injective}
use serverless_flux.Base.Int.{ℤ, pos, int_eqb}
use serverless_flux.Base.Result.{Result, ok, err, ok-injective, >>=-eq-ok}
use serverless_flux.Floats.{Floats}
use serverless_flux.Config.{
  AutoscaleConfig, AwsProviderConfig, GcpProviderConfig, ProvidersConfig, FluxConfig,
}
use serverless_flux.Config.Parse.{
  parsed, panicked, or_text, or_int, is_empty, with_autoscale_defaults, check_autoscale,
  aws_autoscaling, parse_aws, parse_gcp, parse_providers, assemble, parse,
}

-- The periods and the limits are not 0; an enabled configuration has a name and a node type.
pub record IsUsable {F : Type 0} (a : AutoscaleConfig F) : Type 0 where
  pub window : int_eqb a.evaluation_window_sec (pos 0) ≡ false
  pub poll : int_eqb a.poll_interval_sec (pos 0) ≡ false
  pub cooldown : int_eqb a.cooldown_sec (pos 0) ≡ false
  pub max : int_eqb a.max_nodes (pos 0) ≡ false
  pub min : int_eqb a.min_nodes (pos 0) ≡ false
  pub named : (a.enabled ≡ false) ⊎ ((a.name == "") ≡ false)
  pub typed : (a.enabled ≡ false) ⊎ (is_empty a.node_types ≡ false)

or_int_nonzero : (n : ℕ) (m : ℤ) → int_eqb (or_int (suc n) m) (pos 0) ≡ false
or_int_nonzero n m = elim (Bool-cases (int_eqb m (pos 0))) [
  | inl e ↦ rw e (ground arith)
  | inr e ↦ rw e e
]

module _ {F : Type 0} ⦃o : Floats F⦄ where
  check_autoscale-IsUsable :
      (a d : AutoscaleConfig F) → check_autoscale (with_autoscale_defaults a) ≡ ok d → IsUsable d
  unfolding check_autoscale with_autoscale_defaults
  check_autoscale-IsUsable a d h = elim (Bool-cases (a.enabled && a.name == "")) [
    | inl e ↦ absurd (err_ne_ok (rw e at h))
    | inr e ↦ elim (Bool-cases (a.enabled && is_empty a.node_types)) [
      | inl f ↦ absurd (err_ne_ok (rw (e, f) at h))
      | inr f ↦ subst IsUsable (ok-injective (rw (e, f) at h)) (record {
        window = or_int_nonzero 59 a.evaluation_window_sec;
        poll = or_int_nonzero 9 a.poll_interval_sec;
        cooldown = or_int_nonzero 299 a.cooldown_sec;
        max = or_int_nonzero 9 a.max_nodes;
        min = or_int_nonzero 0 a.min_nodes;
        named = ground arith;
        typed = ground arith;
      })
    ]
  ]
    where
      err_ne_ok : {e : String} {d : AutoscaleConfig F} → err e ≢ ok d
      err_ne_ok p = cc

  -- The parts of a parse that succeeded.
  parse-parts :
      (certs : String) (c cfg : FluxConfig F)
      → parse certs (ok c) ≡ parsed cfg
      → ((c.api_key == "") ≡ false)
        × (providers : Option (ProvidersConfig F)) × (parse_providers c.providers ≡ ok providers)
        × (assemble certs c (ok providers) ≡ parsed cfg)
  unfolding parse
  parse-parts certs c cfg h = elim (Bool-cases (c.api_key == "")) [
    | inl e ↦ absurd (panic (rw e at h))
    | inr e ↦ let (v, k, l) = by (parse_providers c.providers) refl (rw e at h) in (e, v, k, l)
  ]
    where
      panic : {s : String} {d : FluxConfig F} → panicked s ≢ parsed d
      panic q = cc

      by :
          (r : Result (Option (ProvidersConfig F)))
          → parse_providers c.providers ≡ r
          → assemble certs c r ≡ parsed cfg
          → (providers : Option (ProvidersConfig F)) × (parse_providers c.providers ≡ ok providers)
            × (assemble certs c (ok providers) ≡ parsed cfg)
      by (err e) q k = cc
      by (ok providers) q k = (providers, q, k)

  parsed-injective : {c d : FluxConfig F} → parsed c ≡ parsed d → c ≡ d
  parsed-injective h = cc

  -- What a parsed configuration has of the file.
  pub parse-basics :
      (certs : String) (r : Result (FluxConfig F)) (cfg : FluxConfig F)
      → parse certs r ≡ parsed cfg
      → (c : FluxConfig F) × (r ≡ ok c)
        × ((c.api_key == "") ≡ false)
        × (cfg.api_key ≡ c.api_key)
        × (cfg.redis_addr ≡ or_text "localhost:6379" c.redis_addr)
        × (cfg.disable_grpc_tls ≡ c.disable_grpc_tls)
  unfolding parse
  parse-basics certs (err e) cfg h = cc
  parse-basics certs (ok c) cfg h =
      let (keyed, providers, q, r) = parse-parts certs c cfg h in
      let own = sym (parsed-injective r) in
      (
        c,
        refl,
        keyed,
        ap (λ x. x.api_key) own,
        ap (λ x. x.redis_addr) own,
        ap (λ x. x.disable_grpc_tls) own,
      )

  aws_autoscaling-IsUsable :
      (s : Option (AutoscaleConfig F)) (d : AutoscaleConfig F)
      → aws_autoscaling s ≡ ok (some d)
      → IsUsable d
  unfolding aws_autoscaling
  aws_autoscaling-IsUsable none d h = cc
  aws_autoscaling-IsUsable (some a) d h =
      let (e, p, q) = >>=-eq-ok (check_autoscale (with_autoscale_defaults a)) _ h in
      subst IsUsable (some-injective _ _ (ok-injective q)) (check_autoscale-IsUsable a e p)

  parse_aws-IsUsable :
      (p : Option (AwsProviderConfig F)) (a : AwsProviderConfig F) (d : AutoscaleConfig F)
      → parse_aws p ≡ ok (some a)
      → a.autoscaling ≡ some d
      → IsUsable d
  unfolding parse_aws
  parse_aws-IsUsable none a d h e = cc
  parse_aws-IsUsable (some p) a d h e =
      let (s, q, r) = >>=-eq-ok (aws_autoscaling p.autoscaling) _ h in
      aws_autoscaling-IsUsable p.autoscaling d
        (q ∙ ap ok (ap (λ x. x.autoscaling) (some-injective _ _ (ok-injective r)) ∙ e))

  -- In a configuration that was parsed, an AWS autoscaling section is usable: its periods and
  -- limits are not 0, and if it is enabled it has a name and at least one node type.
  pub parse-IsUsable :
      (certs : String) (c cfg : FluxConfig F) (p : ProvidersConfig F) (a : AwsProviderConfig F)
      (d : AutoscaleConfig F)
      → parse certs (ok c) ≡ parsed cfg
      → cfg.providers ≡ some p
      → p.aws ≡ some a
      → a.autoscaling ≡ some d
      → IsUsable d
  unfolding parse_providers
  parse-IsUsable certs c cfg p a d h e f g =
      let (_, providers, q, r) = parse-parts certs c cfg h in
      aws c.providers (q ∙ ap ok (ap (λ x. x.providers) (parsed-injective r) ∙ e))
    where
      aws : (v : Option (ProvidersConfig F)) → parse_providers v ≡ ok (some p) → IsUsable d
      aws none k = cc
      aws (some v) k =
          let (w, q, r) = >>=-eq-ok (parse_aws v.aws) _ k in
          parse_aws-IsUsable v.aws a d
            (q ∙ ap ok (ap (λ x. x.aws) (some-injective _ _ (ok-injective r)) ∙ f)) g

  -- the file with another GCP autoscaling section
  abbrev pub with_gcp_autoscaling :
      Option (AutoscaleConfig F)
      → FluxConfig F
      → ProvidersConfig F
      → GcpProviderConfig F
      → FluxConfig F
  with_gcp_autoscaling s c p g = record c {
    providers = some (record p { gcp = some (record g { autoscaling = s }) });
  }

  -- The GCP autoscaling section of a parsed configuration is the one in the file: it gets no
  -- defaults. It is not checked: the file with any other section there, or none, is parsed as well,
  -- to the same configuration with that section.
  pub parse-gcp_autoscaling :
      (certs : String) (c cfg : FluxConfig F) (p : ProvidersConfig F) (g : GcpProviderConfig F)
      → parse certs (ok c) ≡ parsed cfg
      → c.providers ≡ some p
      → p.gcp ≡ some g
      → (q : ProvidersConfig F) × (r : GcpProviderConfig F) × (cfg.providers ≡ some q)
        × (q.gcp ≡ some r)
        × (r.autoscaling ≡ g.autoscaling)
        × ((s : Option (AutoscaleConfig F))
            → parse certs (ok (with_gcp_autoscaling s c p g))
              ≡ parsed (with_gcp_autoscaling s cfg q r))
  unfolding parse parse_providers
  parse-gcp_autoscaling certs c cfg p g h e f =
      let (keyed, providers, q, r) = parse-parts certs c cfg h in
      let (w, k, l) = >>=-eq-ok (parse_aws p.aws) _ (rw e at q) in
      let section : GcpProviderConfig F = record g { ssh_user = or_text "ubuntu" g.ssh_user } in
      (
        record { aws = w; gcp = parse_gcp p.gcp },
        section,
        sym (ap (λ x. x.providers) (parsed-injective r)) ∙ sym (ok-injective l),
        ap parse_gcp f,
        refl,
        λ s.
            rw (keyed, k)
              (ap
                (λ (x : FluxConfig F). parsed (record x {
                  providers =
                      some (record { aws = w; gcp = some (record section { autoscaling = s }) });
                }))
                (parsed-injective r)),
      )

  -- A section for AWS in the file is one in the configuration.
  pub parse-aws_section :
      (certs : String) (c cfg : FluxConfig F) (p : ProvidersConfig F) (a : AwsProviderConfig F)
      → parse certs (ok c) ≡ parsed cfg
      → c.providers ≡ some p
      → p.aws ≡ some a
      → (q : ProvidersConfig F) × (b : AwsProviderConfig F) × (cfg.providers ≡ some q)
        × (q.aws ≡ some b)
  unfolding parse_providers parse_aws
  parse-aws_section certs c cfg p a h e f =
      let (_, providers, q, r) = parse-parts certs c cfg h in
      let (w, k, l) = >>=-eq-ok (parse_aws p.aws) _ (rw e at q) in
      let (s, m, n) = >>=-eq-ok (aws_autoscaling a.autoscaling) _ (ap parse_aws (sym f) ∙ k) in
      (
        _,
        _,
        sym (ap (λ x. x.providers) (parsed-injective r)) ∙ sym (ok-injective l),
        sym (ok-injective n),
      )
