-- ===== src/Tests/Configured.antt =====
-- The theorems on parsed configurations at concrete data.
use serverless_flux.Base.{Option, ℕ, ◌≡◌, refl, true, false, some, [], ◌∷◌, String}
use serverless_flux.Base.Int.{pos}
use serverless_flux.Base.Result.{ok}
use serverless_flux.Floats.{whole_floats}
use serverless_flux.Config.{
  AutoscaleConfig, AwsProviderConfig, GcpProviderConfig, ProvidersConfig, FluxConfig,
}
use serverless_flux.Config.Parse.{parsed, with_autoscale_defaults, parse}
use serverless_flux.Config.Parse.Checked.{
  with_gcp_autoscaling, IsUsable, parse-IsUsable, parse-gcp_autoscaling,
}
use serverless_flux.Tests.Fleet.{small}

-- a section that leaves every number out
abbrev bare : AutoscaleConfig ℕ
bare = record {
  enabled = true;
  name = "fleet";
  cpu_upper_threshold = 0;
  cpu_lower_threshold = 0;
  mem_upper_threshold = 0;
  mem_lower_threshold = 0;
  evaluation_window_sec = pos 0;
  poll_interval_sec = pos 0;
  cooldown_sec = pos 0;
  max_nodes = pos 0;
  min_nodes = pos 0;
  node_types = small ∷ [];
}

abbrev pub aws : String → AutoscaleConfig ℕ → AwsProviderConfig ℕ
aws user scaling = record {
  region = "eu-west-1";
  ami = "ami-1";
  security_group_id = "sg-1";
  access_key_id = "";
  secret_access_key = "";
  ssh_user = user;
  agent_version = "v1";
  tags = [];
  agent_setup_commands = [];
  autoscaling = some scaling;
}

abbrev pub gcp : String → GcpProviderConfig ℕ
gcp user = record {
  project_id = "p";
  zone = "z";
  image = "debian";
  credentials_file = "";
  service_account_email = "";
  ssh_user = user;
  agent_version = "v1";
  labels = [];
  agent_setup_commands = [];
  autoscaling = some bare;
}

abbrev providers : String → String → AutoscaleConfig ℕ → ProvidersConfig ℕ
providers aws_user gcp_user scaling = record {
  aws = some (aws aws_user scaling);
  gcp = some (gcp gcp_user);
}

abbrev file : FluxConfig ℕ
file = record {
  api_key = "k";
  redis_addr = "";
  agent_port = pos 0;
  certs_dir = "";
  disable_grpc_tls = false;
  providers = some (providers "" "" bare);
}

abbrev filled : FluxConfig ℕ
filled = record {
  api_key = "k";
  redis_addr = "localhost:6379";
  agent_port = pos 50052;
  certs_dir = "/etc/flux/certs";
  disable_grpc_tls = false;
  providers = some (providers "ec2-user" "ubuntu" (with_autoscale_defaults bare));
}

file-filled : parse "/etc/flux/certs" (ok file) ≡ parsed filled
unfolding parse with_autoscale_defaults
file-filled = refl

parse-IsUsable_example : IsUsable (with_autoscale_defaults bare)
parse-IsUsable_example =
    parse-IsUsable "/etc/flux/certs" file filled
      (providers "ec2-user" "ubuntu" (with_autoscale_defaults bare))
      (aws "ec2-user" (with_autoscale_defaults bare)) (with_autoscale_defaults bare) file-filled
      refl refl refl

parse-gcp_autoscaling_example :
    (q : ProvidersConfig ℕ) × (r : GcpProviderConfig ℕ) × (filled.providers ≡ some q)
    × (q.gcp ≡ some r)
    × (r.autoscaling ≡ some bare)
    × ((s : Option (AutoscaleConfig ℕ))
        → parse "/etc/flux/certs" (ok (with_gcp_autoscaling s file (providers "" "" bare) (gcp "")))
          ≡ parsed (with_gcp_autoscaling s filled q r))
parse-gcp_autoscaling_example =
    parse-gcp_autoscaling "/etc/flux/certs" file filled (providers "" "" bare) (gcp "") file-filled
      refl refl
