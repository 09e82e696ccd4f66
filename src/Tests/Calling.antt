-- ===== src/Tests/Calling.antt =====
-- The theorems on the agent client at a gRPC that numbers its connections.
use serverless_flux.Base.{ℕ, ◌+◌, String, ◌≡◌, refl, true, false, none, some, [], ◌∷◌}
use serverless_flux.Base.Dict
use serverless_flux.Base.Int.{pos}
use serverless_flux.Base.Result.{ok, err}
use serverless_flux.Client.Grpc.{Grpc, Clients, get, locked_get, grpc_client}
use serverless_flux.Client.Grpc.Connections.{locked, elsewhere, turns, get-stable}
use serverless_flux.Tests.Fleet.{idle}

-- The world counts the connections; an agent knows no execution.
abbrev pub grpc : Grpc ℕ String ℕ ℕ
grpc = record {
  Cert = String;
  Pool = String;
  load_key_pair = λ cert key w. (ok "pair", w);
  read_file = λ p w. (ok "ca", w);
  pool_of_pem = some;
  new_tls = λ cert pool name. name;
  insecure = "insecure";
  new_client = λ a creds w. (ok w, w + 1);
  register_function = λ c t f w. (ok (record { success = true; message = "" }), w);
  deploy_function = λ c t n b w. (ok (record { success = true; message = "" }), w);
  execute_function = λ c r w. (ok (record { output = ""; error = ""; duration_ms = pos 0 }), w);
  cancel_execution = λ c t id w. (ok (record { success = true; message = "" }), w);
  get_execution = λ c t id w. (ok (record { found = false; body = "" }), w);
  health_check = λ c t w. (ok true, w);
  report_node_status = λ c t w. (err "no status", w);
  decode_record = λ b. err "no record";
  clock = λ w. w;
}

abbrev pub fresh : Clients ℕ ℕ
fresh = record { clients = []; outside = 0 }

abbrev first : Clients ℕ ℕ
first = record { clients = ("10.0.0.1:50052", 0) ∷ []; outside = 1 }

opened : get grpc none "10.0.0.1:50052" fresh ≡ (ok 0, first)
unfolding get Dict.put
opened = refl

get-stable_example :
    let s = turns grpc none (locked "10.0.0.2:50052" ∷ elsewhere (λ w. w + 5) ∷ []) first in
    (get grpc none "10.0.0.1:50052" s ≡ (ok 0, s))
    × (locked_get grpc none "10.0.0.1:50052" s ≡ (ok 0, s))
get-stable_example =
    get-stable grpc none (locked "10.0.0.2:50052" ∷ elsewhere (λ w. w + 5) ∷ []) "10.0.0.1:50052" 0
      fresh first opened

asked : (grpc_client grpc none).get_execution idle "e1" fresh ≡ (ok none, first)
unfolding grpc_client Dict.put
asked = refl
