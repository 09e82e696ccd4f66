-- ===== src/Tests/Serving.antt =====
-- Whole requests at a service with the key "k".
use serverless_flux.Base.{ℕ, String, ◌≡◌, refl, none, some, [], ◌∷◌}
use serverless_flux.Base.Int.{pos}
use serverless_flux.Base.Result.{ok, err}
use serverless_flux.Floats.{whole_floats}
use serverless_flux.Api.Listing.{Host}
use serverless_flux.Api.Agents.{Initializer}
use serverless_flux.Api.Serve.{Request, denied, preflight, Service, serve, serve_http, dispatch}
use serverless_flux.Api.Routing.{authenticate, route}
use serverless_flux.Tests.Server.{Server, store, agent_cell}
use serverless_flux.Tests.Fleet.{client, idle}

abbrev fleet_starter : Initializer Server
fleet_starter = record {
  initialize_nodes = λ w. ((pos 0, pos 0), w);
  terminate_nodes = λ w. (pos 1, []);
}

abbrev host : Host ℕ Server
host = record { cpu_percents = λ w. []; virtual_memory = λ w. none; uptime = λ w. 7 }

abbrev service : Service ℕ Server
service = record {
  memory = store;
  client = client;
  initializer = some fleet_starter;
  host = host;
  key = "k";
  decode_yaml = λ b. err "no YAML";
  rfc3339 = λ t. "";
}

abbrev request : String → String → String → Request Server
request method path key = record {
  method = method;
  path = path;
  api_key = key;
  authorization = "";
  args = ok [];
  address = ok "10.0.0.9:50052";
  function_file = ok "";
  archive = ok "";
  now = 9;
  uuid = "u";
  pauses = [];
}

abbrev fleet : Server
fleet = ("flux:agents:a1", agent_cell idle) ∷ []

answers :
    ((serve service (request "DELETE" "/nodes" "x") fleet).0 ≡ denied)
    × ((serve service (request "OPTIONS" "/nodes" "x") fleet).0 ≡ preflight)
unfolding serve serve_http dispatch route authenticate
answers = (refl, refl)
