-- ===== src/Config/Parse.antt =====
-- `parse` of pkg/config/config.go: the defaults and the checks of a configuration, from what the
-- YAML decoder makes of the file.
pub mod Checked
use serverless_flux.Base.{
  ℕ, String, ◌==◌, Bool, true, false, ◌&&◌, Option, none, some, List, [], ◌∷◌, if◌then◌else◌,
}
use serverless_flux.Base.Int.{ℤ, pos, int_eqb}
use serverless_flux.Base.Result.{Result, ok, err, ◌>>=◌}
use serverless_flux.Floats.{Floats}
use serverless_flux.Config.{
  AutoscaleConfig, AwsProviderConfig, GcpProviderConfig, ProvidersConfig, FluxConfig,
}

-- How `parse` ends.
pub data Parsed (F : Type 0) : Type 0 where
  parsed : FluxConfig F → Parsed F
  failed : String → Parsed F
  panicked : String → Parsed F

abbrev pub or_text : String → String → String
or_text default s = if s == "" then default else s

abbrev pub or_int : ℕ → ℤ → ℤ
or_int default n = if int_eqb n (pos 0) then pos default else n

-- `len(l) == 0`
abbrev pub is_empty {ℓ} : {A : Type ℓ} → List A → Bool
is_empty [] = true
is_empty (_ ∷ _) = false

-- by the operating system, the variable PROGRAMDATA and `filepath.Join`
unfoldable pub default_certs_dir :
    (windows : Bool) → String → (String → String → String → String) → String
default_certs_dir true program_data join =
    join (or_text "C:\\ProgramData" program_data) "flux" "certs"
default_certs_dir false program_data join = "/etc/flux/certs"

module _ {F : Type 0} ⦃o : Floats F⦄ where
  abbrev pub or_float : ℕ → F → F
  or_float default x = if o.feq x (o.of_ℕ 0) then o.of_ℕ default else x

  unfoldable pub with_autoscale_defaults : AutoscaleConfig F → AutoscaleConfig F
  with_autoscale_defaults a = record a {
    cpu_upper_threshold = or_float 80 a.cpu_upper_threshold;
    cpu_lower_threshold = or_float 20 a.cpu_lower_threshold;
    mem_upper_threshold = or_float 80 a.mem_upper_threshold;
    mem_lower_threshold = or_float 20 a.mem_lower_threshold;
    evaluation_window_sec = or_int 60 a.evaluation_window_sec;
    poll_interval_sec = or_int 10 a.poll_interval_sec;
    cooldown_sec = or_int 300 a.cooldown_sec;
    max_nodes = or_int 10 a.max_nodes;
    min_nodes = or_int 1 a.min_nodes;
  }

  -- the two checks on a configuration with its defaults
  check_autoscale : AutoscaleConfig F → Result (AutoscaleConfig F)
  check_autoscale a =
      if a.enabled && a.name == ""
      then err "providers.aws.autoscaling.name is required when autoscaling is enabled"
      else if a.enabled && is_empty a.node_types
      then err
          "providers.aws.autoscaling.node_types must have at least one entry when autoscaling is enabled"
      else ok a

  aws_autoscaling : Option (AutoscaleConfig F) → Result (Option (AutoscaleConfig F))
  unfolding check_autoscale with_autoscale_defaults
  aws_autoscaling none = ok none
  aws_autoscaling (some a) = do d ← check_autoscale (with_autoscale_defaults a); ok (some d)

  parse_aws : Option (AwsProviderConfig F) → Result (Option (AwsProviderConfig F))
  unfolding aws_autoscaling
  parse_aws none = ok none
  parse_aws (some p) = do
    scaling ← aws_autoscaling p.autoscaling
    ok (some (record p { ssh_user = or_text "ec2-user" p.ssh_user; autoscaling = scaling }))

  abbrev pub parse_gcp : Option (GcpProviderConfig F) → Option (GcpProviderConfig F)
  parse_gcp none = none
  parse_gcp (some p) = some (record p { ssh_user = or_text "ubuntu" p.ssh_user })

  parse_providers : Option (ProvidersConfig F) → Result (Option (ProvidersConfig F))
  unfolding parse_aws
  parse_providers none = ok none
  parse_providers (some p) = do
    aws ← parse_aws p.aws
    ok (some (record { aws = aws; gcp = parse_gcp p.gcp }))

  abbrev pub assemble : String → FluxConfig F → Result (Option (ProvidersConfig F)) → Parsed F
  assemble certs c (err e) = failed e
  assemble certs c (ok providers) = parsed (record c {
    certs_dir = or_text certs c.certs_dir;
    redis_addr = or_text "localhost:6379" c.redis_addr;
    agent_port = or_int 50052 c.agent_port;
    providers = providers;
  })

  -- `certs` is the default directory
  unfoldable pub parse : String → Result (FluxConfig F) → Parsed F
  unfolding parse_providers
  parse certs (err e) = failed e
  parse certs (ok c) =
      if c.api_key == ""
      then panicked "api_key is required in flux.yaml"
      else assemble certs c (parse_providers c.providers)
