-- ===== src/Tests/Installing.antt =====
-- The theorem on the bootstrapper, over a node that answers at once. The world is what was sent.
use serverless_flux.Base.{
  ℕ, ◌+◌, ◌*◌, ◌<>◌, ◌≡◌, refl, none, some, List, [], ◌∷◌, ◌++◌, inl, false, arith,
}
use serverless_flux.Base.Int.{pos}
use serverless_flux.Base.Result.{Result, ok}
use serverless_flux.Memory.{Bytes}
use serverless_flux.Pki.{Disk, Crypto}
use serverless_flux.Scaler.Bootstrap.{Ssh, BootstrapConfig, tick, bootstrap}
use serverless_flux.Scaler.Bootstrap.Sent.{Event, command, input}
use serverless_flux.Scaler.Bootstrap.Commands.{SshLaws}
use serverless_flux.Scaler.Bootstrap.Minted.{LocalLaws}
use serverless_flux.Scaler.Bootstrap.Deadline.{ClockLaws}
use serverless_flux.Scaler.Bootstrap.Installed.{IsInstalled}
use serverless_flux.Scaler.Bootstrap.Outcome.{bootstrap-IsInstalled}
use serverless_flux.Tests.Fleet.{node}
use serverless_flux.Tests.Certified.{joined, prepared_pki}

abbrev Sent : Type 0
Sent = List Event × ℕ

abbrev local_disk : Disk Sent
local_disk = record {
  abs = ok;
  join = joined;
  exists = λ p w. false;
  read_file = λ p w. ok "key";
  mkdir_all = λ p m w. (ok tt, w);
  write_file = λ p b m w. (ok tt, w);
}

abbrev plain_crypto : Crypto ℕ Bytes Bytes Sent
plain_crypto = record {
  generate_key = λ w. (ok "key", w);
  random_serial = λ w. (ok 7, w);
  create_certificate = λ t parent key signer w. (ok t.common_name, w);
  parse_certificate = ok;
  raw = λ c. c;
  marshal_key = ok;
  parse_key = ok;
  pem_encode = λ k b. b;
  pem_decode = some;
  ssh_public_key = λ k. ok ("ssh-" <> k);
  clock = λ w. w.1;
}

abbrev open_ssh : Ssh Bytes Bytes Bytes Bytes Sent
open_ssh = record {
  parse_private_key = ok;
  join_host_port = λ host port. host;
  dial = λ addr user signer w. (ok addr, w);
  close = λ c w. w;
  new_session = λ c w. (ok c, w);
  close_session = λ c w. w;
  combined_output = λ c cmd w. (("", none), (w.0 ++ (command cmd ∷ []), w.1));
  stdin_pipe = λ c w. (ok c, w);
  start = λ c cmd w. (ok tt, (w.0 ++ (command cmd ∷ []), w.1));
  write = λ c b w. (ok tt, (w.0 ++ (input b ∷ []), w.1));
  close_pipe = λ c w. w;
  wait = λ c w. (ok tt, w);
  decimal = λ n. "50052";
  quote = λ s. s;
  clock = λ w. w.1;
  next_tick = λ start n w. (ok tt, (w.0, start + n * tick));
}

open_ssh-ClockLaws : ClockLaws open_ssh
open_ssh-ClockLaws = record {
  tick_late = λ start n w h. omega arith;
  dial_forward = λ addr user signer w. omega arith;
}

open_ssh-SshLaws : SshLaws open_ssh (λ w. w.0)
open_ssh-SshLaws = record {
  dial_sends = λ addr user s w. refl;
  close_sends = λ c w. refl;
  new_session_sends = λ c w. refl;
  close_session_sends = λ s w. refl;
  output_ok = λ s cmd w h. refl;
  output_any = λ s cmd w. inl refl;
  stdin_sends = λ s w. refl;
  start_ok = λ s cmd w h. refl;
  start_any = λ s cmd w. inl refl;
  write_ok = λ p b w h. refl;
  write_any = λ p b w. inl refl;
  close_pipe_sends = λ p w. refl;
  wait_sends = λ s w. refl;
  tick_sends = λ start n w. refl;
}

local-LocalLaws : LocalLaws local_disk plain_crypto (λ w. w.0)
local-LocalLaws = record {
  mkdir_sends = λ p m w. refl;
  write_file_sends = λ p b m w. refl;
  key_sends = λ w. refl;
  serial_sends = λ w. refl;
  certificate_sends = λ t parent key signer w. refl;
}

abbrev packaged : BootstrapConfig Bytes Bytes
packaged = record {
  pki = prepared_pki;
  ssh_user = "ubuntu";
  agent_port = pos 50052;
  agent_version = "1";
  agent_setup_commands = "true" ∷ [];
}

bootstrap-IsInstalled_example :
    (r : Result (Unit {0}) × Sent) × (bootstrap open_ssh local_disk plain_crypto packaged 38 node
        ([], 0)
      ≡ some r)
    × IsInstalled open_ssh (λ w. w.0) local_disk plain_crypto packaged node [] r
bootstrap-IsInstalled_example =
    bootstrap-IsInstalled open_ssh (λ w. w.0) open_ssh-SshLaws local_disk plain_crypto packaged
      local-LocalLaws open_ssh-ClockLaws 38 node ([], 0) (omega arith)
