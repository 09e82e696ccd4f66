-- ===== src/Tests/Starting.antt =====
-- The theorems on the start of the program at a machine with a PKI on its disk.
use serverless_flux.Base.{
  ℕ, String, ◌≡◌, ◌≢◌, refl, inl, true, false, Bool, none, some, List, [], ◌∷◌, keep, ◌==◌,
  starts_with, if◌then◌else◌,
}
use serverless_flux.Base.Int.{pos}
use serverless_flux.Base.Result.{ok, err}
use serverless_flux.Base.Startup.{going}
use serverless_flux.Floats.{whole_floats}
use serverless_flux.Config.{FluxConfig}
use serverless_flux.Config.Parse.{parse, default_certs_dir}
use serverless_flux.Config.Global.{load, configured}
use serverless_flux.Memory.Redis.{Redis, redis_memory}
use serverless_flux.Memory.Redis.Connection.{RedisPackage, new_redis_memory}
use serverless_flux.Pki.{
  Disk, Crypto, Pki, new_pki, init_all, init_ca, init_flux_cert, init_ssh_key, load_ca, load_block,
  block_of,
}
use serverless_flux.Client.Grpc.{Clients}
use serverless_flux.Scaler.Aws.{Ec2}
use serverless_flux.Scaler.Gcp.{Gce, done}
use serverless_flux.Scaler.Polling.{timed_out}
use serverless_flux.Scaler.Manager.Providers.{no_providers, assemble_manager, new_providers_manager}
use serverless_flux.Api.Routing.{authenticate}
use serverless_flux.Api.Serve.{Request, serve}
use serverless_flux.Api.Serve.Unauthenticated.{IsHarmless}
use serverless_flux.Main.{Packages, Running, run_with, main, open_pki}
use serverless_flux.Main.Process.{ProcessEvent, requested, ticked, signalled, serving, run}
use serverless_flux.Main.Unnoticed.{counts, Agree, main-Agree}
use serverless_flux.Main.Guarded.{main-IsHarmless}
use serverless_flux.Main.Refusals.{main-default_address, main-aws_without_pki}
use serverless_flux.Tests.Calling.{grpc, fresh}
use serverless_flux.Tests.Fleet.{config}
use serverless_flux.Tests.Configured.{aws}
use serverless_flux.Tests.Server.{Cell, codec}

abbrev World : Type 0
World = Clients ℕ ℕ

abbrev disk : Disk World
disk = record {
  abs = ok;
  join = λ parts. "path";
  exists = λ p w. true;
  read_file = λ p w. (ok "pem");
  mkdir_all = λ p m w. (ok tt, w);
  write_file = λ p b m w. (ok tt, w);
}

abbrev crypto : Crypto ℕ String String World
crypto = record {
  generate_key = λ w. (ok "key", w);
  random_serial = λ w. (ok 1, w);
  create_certificate = λ t parent key signer w. (ok t.common_name, w);
  parse_certificate = ok;
  raw = λ c. c;
  marshal_key = ok;
  parse_key = ok;
  pem_encode = λ k b. b;
  pem_decode = some;
  ssh_public_key = ok;
  clock = λ w. w.outside;
}

abbrev empty_redis : Redis Cell World
empty_redis = record {
  keys = λ pattern w. ok [];
  get = λ k w. ok none;
  mget = λ ks w. ok [];
  set = λ k v ttl w. (ok tt, w);
  del = λ ks w. (ok tt, w);
}

abbrev redis : RedisPackage String Cell World
redis = record {
  parse_url = λ a. if starts_with a "redis://" then ok a else err "invalid URL scheme";
  new_client = λ options. empty_redis;
  close_client = λ options w. (ok tt, w);
}

abbrev ec2 : Ec2 String World
ec2 = record {
  load_default_config = λ region credentials w. (ok region, w);
  run_instances = λ c input w. (ok [], w);
  describe_instances = λ c id w. (ok [], w);
  terminate_instances = λ c id w. (ok tt, w);
  import_key_pair = λ c name key w. (none, w);
  new_uuid = λ w. ("0123456789", w);
  wait = λ w. timed_out;
}

abbrev gce : Gce String World
gce = record {
  new_service = λ file w. (ok "gce", w);
  insert = λ c project zone instance_spec w. (ok "op", w);
  delete = λ c project zone name w. (ok "op", w);
  get = λ c project zone name w. (ok [], w);
  op_wait = λ c project zone op w. done none;
  new_uuid = λ w. ("0123456789", w);
  wait = λ w. timed_out;
}

abbrev packages : FluxConfig ℕ → Packages ℕ ℕ String String String Cell String ℕ String String ℕ
packages cfg = record {
  read_config = λ file w. if file == "flux.yaml" then ok cfg else err "no such file";
  windows = false;
  program_data = "";
  join = λ a b c. a;
  disk = disk;
  crypto = crypto;
  redis = redis;
  codec = codec;
  grpc = grpc;
  ec2 = ec2;
  gce = gce;
  sort = λ less l. l;
  boot = λ c node w. (ok tt, w);
  gcp_without_pki = λ c port client. record {
    name = "gcp";
    spawn_node = λ resources w. (err "nil", w);
    bootstrap = λ node w. (err "nil", w);
    terminate_node = λ id w. (ok tt, w);
  };
  fleet = λ m. record {
    initialize_nodes = λ w. ((pos 0, pos 0), w);
    terminate_nodes = λ w. (pos 0, w);
  };
  host = record { cpu_percents = λ w. []; virtual_memory = λ w. none; uptime = λ w. 7 };
  decode_yaml = λ b. err "no YAML";
  rfc3339 = λ t. "";
}

abbrev settings : String → Bool → FluxConfig ℕ
settings address off = record {
  api_key = "k";
  redis_addr = address;
  agent_port = pos 50052;
  certs_dir = "certs";
  disable_grpc_tls = off;
  providers = none;
}

abbrev cfg : FluxConfig ℕ
cfg = settings "redis://localhost:6379" false

abbrev pki : Pki String String
pki = record { certs_dir = "certs"; ca_cert = "pem"; ca_key = "pem"; ssh_public_key = "pem" }

abbrev running : Running ℕ World
running = run_with (packages cfg) cfg (some pki) (redis_memory empty_redis codec) no_providers

runs : main (packages cfg) "" fresh ≡ (going running, fresh)
unfolding main open_pki parse default_certs_dir load configured new_redis_memory new_pki init_all
    init_ca init_flux_cert init_ssh_key load_ca load_block block_of assemble_manager
    new_providers_manager
runs = refl

abbrev request : Request World
request = record {
  method = "DELETE";
  path = "/nodes";
  api_key = "";
  authorization = "Bearer x";
  args = ok [];
  address = ok "";
  function_file = ok "";
  archive = ok "";
  now = 9;
  uuid = "u";
  pauses = [];
}

main-IsHarmless_example :
    ((cfg.api_key == "") ≡ false)
    × IsHarmless running.service fresh (serve running.service request fresh)
unfolding authenticate
main-IsHarmless_example =
    main-IsHarmless (packages cfg) "" fresh running fresh cfg request fresh runs refl refl

-- A request to remove the nodes without the key, one for the agents with it, a tick, and a signal.
abbrev day : List (ProcessEvent World)
day =
    requested request
    ∷ requested (record request { method = "GET"; path = "/agents"; api_key = "k" })
    ∷ ticked
    ∷ signalled
    ∷ requested request
    ∷ []

main-Agree_example :
    Agree "k"
      (run running.service day (serving [] fresh))
      (run running.service (keep (counts "k") day) (serving [] fresh))
main-Agree_example = main-Agree (packages cfg) "" fresh running fresh cfg day runs refl

main-default_address_example : main (packages (settings "" false)) "" fresh ≢ (going running, fresh)
main-default_address_example =
    main-default_address (packages (settings "" false)) "" fresh (settings "" false)
      "invalid URL scheme" running fresh refl refl (inl refl)

abbrev with_aws : FluxConfig ℕ
with_aws = record (settings "redis://localhost:6379" true) {
  providers = some (record { aws = some (aws "u" (config 3 1)); gcp = none });
}

main-aws_without_pki_example : main (packages with_aws) "" fresh ≢ (going running, fresh)
main-aws_without_pki_example =
    main-aws_without_pki (packages with_aws) "" fresh with_aws
      (record { aws = some (aws "u" (config 3 1)); gcp = none }) (aws "u" (config 3 1)) running
      fresh refl refl refl refl
