-- ===== src/Scaler/Bootstrap.antt =====
-- pkg/resource/bootstrap.go: the installation of the agent on a fresh node over SSH, which the
-- program takes from a package.
pub mod Deadline
pub mod Commands
pub mod Minted
pub mod Installed
pub mod Outcome
pub mod Sent
use serverless_flux.Base.{
  ℕ, zero, suc, ◌+◌, ◌*◌, ltb, String, ◌<>◌, ◌==◌, Option, none, some, List, [], ◌∷◌, if◌then◌else◌,
}
use mathlib.Core.Option
use serverless_flux.Base.Int.{ℤ, pos}
use serverless_flux.Base.Result.{Result, ok, err}
use serverless_flux.Base.Action.{Action, proceed, ◌>>=◌, ◌>>◌, return, of_result, relabel, labelled}
use serverless_flux.Memory.{Bytes}
use serverless_flux.Pki.{Disk, Crypto, Pki, path, ssh_private_file, mint_agent_cert}
use serverless_flux.Scaler.Provider.{ProvisionedNode}

-- What the file takes from packages: the SSH client, two verbs of `fmt`, the clock in nanoseconds,
-- and `select` on the context and on the n-th tick of a five-second ticker made at an instant; it
-- fails with the context's error.
pub record Ssh (Signer Conn Session Pipe W : Type 0) : Type 0 where
  pub parse_private_key : Bytes → Result Signer
  pub join_host_port : String → String → String
  pub dial : String → String → Signer → Action W Conn
  pub close : Conn → W → W
  pub new_session : Conn → Action W Session
  pub close_session : Session → W → W
  -- the output, and the error if there is one
  pub combined_output : Session → String → W → (String × Option String) × W
  pub stdin_pipe : Session → Action W Pipe
  pub start : Session → String → Action W (Unit {0})
  pub write : Pipe → Bytes → Action W (Unit {0})
  pub close_pipe : Pipe → W → W
  pub wait : Session → Action W (Unit {0})
  pub decimal : ℤ → String
  pub quote : String → String
  pub clock : W → ℕ
  pub next_tick : ℕ → ℕ → Action W (Unit {0})

-- `BootstrapConfig`
pub record BootstrapConfig (Cert Key : Type 0) : Type 0 where
  pub pki : Pki Cert Key
  pub ssh_user : String
  pub agent_port : ℤ
  pub agent_version : String
  pub agent_setup_commands : List String

abbrev pub tick : ℕ
tick = 5 * 1000000000

abbrev pub three_minutes : ℕ
three_minutes = 180 * 1000000000

-- a deferred call, which also runs after an error
abbrev pub finally : {A W : Type 0} → (W → W) → Action W A → Action W A
finally last m w = ((m w).0, last (m w).1)

-- `fmt.Sprintf(agentDebURLTemplate, version, version)`
abbrev pub agent_deb_url : String → String
agent_deb_url version =
    "https://github.com/dashn9/serverless-agent/releases/download/v"
    <> (version <> ("/flux-agent_" <> (version <> "_amd64.deb")))

module _ {Signer Conn Session Pipe W : Type 0} (H : Ssh Signer Conn Session Pipe W) where
  unfoldable pub build_agent_yaml : String → ℤ → String → String
  build_agent_yaml agent_id port dir =
      "agent_id: "
      <> (agent_id
          <> ("\nport: \""
              <> (H.decimal port
                  <> ("\"\n"
                      <> ("\ntls:\n  enabled: true\n  ca_cert: "
                          <> (dir
                              <> ("/tls/ca.pem\n  cert_file: "
                                  <> (dir
                                      <> ("/tls/agent.pem\n  key_file: "
                                          <> (dir <> "/tls/agent-key.pem\n"))))))))))

  unfoldable pub command_error : String → String × Option String → Result (Unit {0})
  command_error cmd (out, none) = ok tt
  command_error cmd (out, some e) =
      err ("command " <> (H.quote cmd <> (": " <> (e <> ("\noutput: " <> out)))))

  unfoldable pub run : Conn → String → Action W (Unit {0})
  unfolding command_error
  run conn cmd = do
    sess ← H.new_session conn
    finally (H.close_session sess)
        λ w. let (out, v) = H.combined_output sess cmd w in (command_error cmd out, v)

  unfoldable pub upload_bytes : Conn → Bytes → String → Action W (Unit {0})
  upload_bytes conn bytes remote = do
    sess ← H.new_session conn
    finally (H.close_session sess) do
      stdin ← H.stdin_pipe sess
      H.start sess ("sudo tee " <> (remote <> " > /dev/null"))
      H.write stdin bytes
      λ w. H.wait sess (H.close_pipe stdin w)

  unfoldable pub run_setup : Conn → ℕ → List String → Action W (Unit {0})
  run_setup conn i [] = return tt
  run_setup conn i (cmd ∷ cmds) =
      labelled ("setup command " <> (H.decimal (pos (i + 1)) <> ": ")) (run conn cmd) >>= λ _.
      run_setup conn (i + 1) cmds

  -- Each attempt to connect, after its dialling.
  unfoldable pub waited :
      {A : Type 0} → (W → Option (Result A × W)) → Result (Unit {0}) × W → Option (Result A × W)
  waited rest (err e, w) = some (err e, w)
  waited rest (ok _, w) = rest w

  unfoldable pub after_dial :
      {A : Type 0} → ℕ → ℕ → (W → Option (Result A × W)) → Result A × W → Option (Result A × W)
  unfolding waited
  after_dial start n rest (ok conn, w) = some (ok conn, w)
  after_dial start n rest (err e, w) =
      if ltb (start + three_minutes) (H.clock w)
      then some (err ("SSH unreachable after 3 minutes: " <> e), w)
      else waited rest (H.next_tick start (n + 1) w)

  -- The `for` of `dial`, where n ticks of the ticker made at `start` are over. `none` means that
  -- the attempts given to it are used up.
  unfoldable pub dial_loop : ℕ → ℕ → String → String → Signer → ℕ → W → Option (Result Conn × W)
  unfolding after_dial
  dial_loop zero start addr user signer n w = none
  dial_loop (suc fuel) start addr user signer n w =
      after_dial start n (dial_loop fuel start addr user signer (n + 1)) (H.dial addr user signer w)

  module _ {Serial Cert Key : Type 0} (D : Disk W) (X : Crypto Serial Cert Key W)
      (cfg : BootstrapConfig Cert Key) where
    abbrev key_path : String
    key_path = path D X cfg.pki.certs_dir ssh_private_file

    unfoldable pub load_signer : Action W Signer
    load_signer = do
      bytes ← labelled ("read SSH key " <> (key_path <> ": ")) (λ w. (D.read_file key_path w, w))
      labelled "parse SSH key: " (of_result (H.parse_private_key bytes))

    unfoldable pub connected : ℕ → String → Result Signer × W → Option (Result Conn × W)
    connected fuel host (err e, w) = some (err e, w)
    connected fuel host (ok signer, w) =
        dial_loop fuel (H.clock w) (H.join_host_port host "22") cfg.ssh_user signer 0 w

    unfoldable pub dial : ℕ → String → W → Option (Result Conn × W)
    unfolding connected
    dial fuel host w = connected fuel host (load_signer w)

    abbrev pub config_dir : String
    config_dir = "/home/" <> (cfg.ssh_user <> "/flux-agent")

    unfoldable pub install_package : Conn → Action W (Unit {0})
    install_package conn =
        if cfg.agent_version == ""
        then return tt
        else labelled "install agent: " (
            run conn (
              "curl --connect-timeout 10 --max-time 30 -fLo /tmp/flux-agent.deb "
              <> (H.quote (agent_deb_url cfg.agent_version)
                  <> " && sudo dpkg -i /tmp/flux-agent.deb && rm -f /tmp/flux-agent.deb")))

    unfoldable pub upload_tls : Conn → Bytes → String → Action W (Unit {0})
    upload_tls conn bytes remote =
        labelled ("upload TLS " <> (remote <> ": ")) (upload_bytes conn bytes remote)

    -- `Bootstrap`, from the minted certificate on
    unfoldable pub finish : Conn → String → Bytes × Bytes × Bytes → Action W (Unit {0})
    unfolding upload_tls
    finish conn agent_id pems = do
      upload_tls conn pems.2 (config_dir <> "/tls/ca.pem")
      upload_tls conn pems.0 (config_dir <> "/tls/agent.pem")
      upload_tls conn pems.1 (config_dir <> "/tls/agent-key.pem")
      labelled "chmod tls: " (run conn ("sudo chmod 600 " <> (config_dir <> "/tls/*")))
      labelled "write agent.yaml: " (
          run conn (
            "sudo tee "
            <> (config_dir
                <> ("/agent.yaml > /dev/null <<'EOF'\n"
                    <> (build_agent_yaml agent_id cfg.agent_port config_dir <> "EOF")))))
      labelled "write systemd env: " (
          run conn (
            "sudo mkdir -p /etc/systemd/system/flux-agent.service.d && printf '[Service]\\nEnvironment=\"AGENT_CONFIG="
            <> (config_dir
                <> "/agent.yaml\"\\n' | sudo tee /etc/systemd/system/flux-agent.service.d/override.conf > /dev/null")))
      labelled "start service: " (
          run conn
            "sudo systemctl daemon-reload && sudo systemctl enable flux-agent && sudo systemctl restart flux-agent")

    -- `Bootstrap`, once connected
    unfoldable pub install : Conn → ProvisionedNode → Action W (Unit {0})
    unfolding install_package
    install conn node = do
      run_setup conn 0 cfg.agent_setup_commands
      install_package conn
      labelled "mkdir: " (run conn ("sudo mkdir -p " <> (config_dir <> "/tls")))
      pems ← labelled "mint agent cert: " (mint_agent_cert D X cfg.pki node.agent_id)
      finish conn node.agent_id pems

    unfoldable pub installed : ProvisionedNode → Result Conn × W → Result (Unit {0}) × W
    installed node r =
        proceed (λ conn. finally (H.close conn) (install conn node))
          (relabel ("SSH dial " <> (node.public_ip <> ": ")) r)

    unfoldable pub bootstrap : ℕ → ProvisionedNode → W → Option (Result (Unit {0}) × W)
    unfolding installed
    bootstrap fuel node w = Option.map (installed node) (dial fuel node.public_ip w)
