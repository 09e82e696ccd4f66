-- ===== src/Scaler/Bootstrap/Installed.antt =====
-- pkg/resource/bootstrap.go: what `Bootstrap` does to a node that it has connected to, up to the
-- restart of the agent's service.
use mathlib.Core.List.{append-nil}
use serverless_flux.Base.{
  ℕ, ◌+◌, String, ◌<>◌, ◌==◌, ◌≡◌, sym, List, [], ◌∷◌, ◌++◌, map, if◌then◌else◌, Bool, true, false,
}
use serverless_flux.Base.Result.{Result, ok}
use serverless_flux.Base.Action.{Action, proceed, labelled, relabel-eq-ok}
use serverless_flux.Memory.{Bytes}
use serverless_flux.Pki.{Disk, Crypto, mint_agent_cert}
use serverless_flux.Scaler.Provider.{ProvisionedNode}
use serverless_flux.Scaler.Bootstrap.{
  Ssh, BootstrapConfig, agent_deb_url, build_agent_yaml, run, run_setup, upload_bytes,
  install_package, upload_tls, install, finish, config_dir,
}
use serverless_flux.Scaler.Bootstrap.Sent.{
  Event, command, Sends, proceed-Sends, relabel-Sends, Follows, proceed-Follows, chosen-Follows,
}
use serverless_flux.Scaler.Bootstrap.Minted.{LocalLaws, relabel-Silent, mint-Silent}
use serverless_flux.Scaler.Bootstrap.Commands.{SshLaws, uploading, run-Sends, upload-Sends}

module _ {Signer Conn Session Pipe Cert Key : Type 0} {W : Type 0}
    (H : Ssh Signer Conn Session Pipe W) (cfg : BootstrapConfig Cert Key) (dir : String) where
  -- the installation of the package, if a version is configured
  abbrev pub packaging : List Event
  packaging =
      if cfg.agent_version == ""
      then []
      else command (
          "curl --connect-timeout 10 --max-time 30 -fLo /tmp/flux-agent.deb "
          <> (H.quote (agent_deb_url cfg.agent_version)
              <> " && sudo dpkg -i /tmp/flux-agent.deb && rm -f /tmp/flux-agent.deb"))
        ∷ []

  -- The files of the agent's certificate, its configuration, that of its service, and the restart
  -- of the service, which is the last.
  abbrev pub finishing : String → Bytes × Bytes × Bytes → List Event
  finishing agent_id (cert, key, ca) =
      uploading (dir <> "/tls/ca.pem") ca
      ++ (uploading (dir <> "/tls/agent.pem") cert
          ++ (uploading (dir <> "/tls/agent-key.pem") key
              ++ (command ("sudo chmod 600 " <> (dir <> "/tls/*"))
                  ∷ command (
                      "sudo tee "
                      <> (dir
                          <> ("/agent.yaml > /dev/null <<'EOF'\n"
                              <> (build_agent_yaml H agent_id cfg.agent_port dir <> "EOF"))))
                  ∷ command (
                      "sudo mkdir -p /etc/systemd/system/flux-agent.service.d && printf '[Service]\\nEnvironment=\"AGENT_CONFIG="
                      <> (dir
                          <> "/agent.yaml\"\\n' | sudo tee /etc/systemd/system/flux-agent.service.d/override.conf > /dev/null"))
                  ∷ command
                      "sudo systemctl daemon-reload && sudo systemctl enable flux-agent && sudo systemctl restart flux-agent"
                  ∷ [])))

  -- What a node is sent: the commands of the configuration, the package, the folder for the
  -- certificates, and the rest.
  abbrev pub plan : String → Bytes × Bytes × Bytes → List Event
  plan agent_id pems =
      map command cfg.agent_setup_commands
      ++ (packaging ++ (command ("sudo mkdir -p " <> (dir <> "/tls")) ∷ finishing agent_id pems))

module _ {Signer Conn Session Pipe W : Type 0} (H : Ssh Signer Conn Session Pipe W)
    (sent : W → List Event) {Serial Cert Key : Type 0} (D : Disk W) (X : Crypto Serial Cert Key W)
    (cfg : BootstrapConfig Cert Key) where
  -- The three texts are a certificate, its key and that of the authority, as the PKI made them for
  -- the agent.
  abbrev AreMinted : String → Bytes × Bytes × Bytes → Type 0
  AreMinted agent_id pems =
      (v : W) × (u : W) × (mint_agent_cert D X cfg.pki agent_id v ≡ (ok pems, u))

  -- The node was sent its plan, in order, or an error stopped it on the way.
  abbrev pub IsInstalled : {A : Type 0} → ProvisionedNode → List Event → Result A × W → Type 0
  IsInstalled node before r =
      Follows sent (AreMinted node.agent_id) before
        (plan H cfg (config_dir H D X cfg) node.agent_id) r

module _ {Signer Conn Session Pipe W : Type 0} (H : Ssh Signer Conn Session Pipe W)
    (sent : W → List Event) (L : SshLaws H sent) where
  if-Sends :
      {A : Type 0} (t : Bool) (w : W) (m n : Action W A) (some_steps other_steps : List Event)
      → (Sends sent (sent w) some_steps (m w))
      → (Sends sent (sent w) other_steps (n w))
      → Sends sent (sent w) (if t then some_steps else other_steps) ((if t then m else n) w)
  if-Sends true w m n s o h k = h
  if-Sends false w m n s o h k = k

  run_setup-Sends :
      (c : Conn) (i : ℕ) (cmds : List String) (w : W)
      → Sends sent (sent w) (map command cmds) (run_setup H c i cmds w)
  unfolding run_setup
  run_setup-Sends c i [] w = sym (append-nil (sent w))
  run_setup-Sends c i (cmd ∷ cmds) w =
      proceed-Sends sent (sent w) (command cmd ∷ []) (map command cmds) _ _
        (relabel-Sends sent (sent w) (command cmd ∷ []) _ (run H c cmd w)
          (run-Sends H sent L c cmd w))
        λ _ v. run_setup-Sends c (i + 1) cmds v

  -- a command under the label of its error, and what comes after it
  command-Sends :
      {A : Type 0} (c : Conn) (label cmd : String) (more : List Event) (next : Unit → Action W A)
      (w : W)
      → ((v : W) → Sends sent (sent v) more (next tt v))
      → Sends sent (sent w) (command cmd ∷ more) (proceed next (labelled label (run H c cmd) w))
  command-Sends c label cmd more next w k =
      proceed-Sends sent (sent w) (command cmd ∷ []) more next _
        (relabel-Sends sent (sent w) (command cmd ∷ []) label (run H c cmd w)
          (run-Sends H sent L c cmd w))
        λ _ v. k v

  module _ {Serial Cert Key : Type 0} (D : Disk W) (X : Crypto Serial Cert Key W)
      (cfg : BootstrapConfig Cert Key) where
    install_package-Sends :
        (c : Conn) (w : W)
        → Sends sent
            (sent w)
            (packaging H cfg (config_dir H D X cfg))
            (install_package H D X cfg c w)
    unfolding install_package
    install_package-Sends c w =
        if-Sends (cfg.agent_version == "") w _ _ []
          (command (
              "curl --connect-timeout 10 --max-time 30 -fLo /tmp/flux-agent.deb "
              <> (H.quote (agent_deb_url cfg.agent_version)
                  <> " && sudo dpkg -i /tmp/flux-agent.deb && rm -f /tmp/flux-agent.deb"))
            ∷ [])
          (sym (append-nil (sent w))) (relabel-Sends sent (sent w) _ _ _ (run-Sends H sent L c _ w))

    upload_tls-Sends :
        {A : Type 0} (c : Conn) (b : Bytes) (remote : String) (more : List Event)
        (next : Unit → Action W A) (w : W)
        → ((v : W) → Sends sent (sent v) more (next tt v))
        → Sends sent
            (sent w)
            (uploading remote b ++ more)
            (proceed next (upload_tls H D X cfg c b remote w))
    unfolding upload_tls
    upload_tls-Sends c b remote more next w k =
        proceed-Sends sent (sent w) (uploading remote b) more next _
          (relabel-Sends sent (sent w) (uploading remote b) _ (upload_bytes H c b remote w)
            (upload-Sends H sent L c b remote w))
          λ _ v. k v

    finish-Sends :
        (c : Conn) (agent_id : String) (pems : Bytes × Bytes × Bytes) (w : W)
        → Sends sent
            (sent w)
            (finishing H cfg (config_dir H D X cfg) agent_id pems)
            (finish H D X cfg c agent_id pems w)
    unfolding finish
    finish-Sends c agent_id pems w = upload_tls-Sends c pems.2 _ _ _ w λ v.
        upload_tls-Sends c pems.0 _ _ _ v λ u. upload_tls-Sends c pems.1 _ _ _ u λ t.
          command-Sends c _ _ _ _ t λ s. command-Sends c _ _ _ _ s λ r.
            command-Sends c _ _ _ _ r
              λ q. relabel-Sends sent (sent q) _ _ _ (run-Sends H sent L c _ q)

    module _ (Q : LocalLaws D X sent) where
      minted-Follows :
          (c : Conn) (agent_id : String) (w : W)
          → Follows sent
              (AreMinted H sent D X cfg agent_id)
              (sent w)
              (finishing H cfg (config_dir H D X cfg) agent_id)
              (proceed
                (finish H D X cfg c agent_id)
                (labelled "mint agent cert: " (mint_agent_cert D X cfg.pki agent_id) w))
      minted-Follows c agent_id w =
          chosen-Follows sent (AreMinted H sent D X cfg agent_id) ("", "", "") (sent w)
            (finishing H cfg (config_dir H D X cfg) agent_id) (finish H D X cfg c agent_id)
            (labelled "mint agent cert: " (mint_agent_cert D X cfg.pki agent_id) w)
            (relabel-Silent sent (sent w) _ (mint_agent_cert D X cfg.pki agent_id w)
              (mint-Silent D X sent Q cfg agent_id w))
            λ pems v e. (
              (w, v, relabel-eq-ok _ (mint_agent_cert D X cfg.pki agent_id w) e),
              finish-Sends c agent_id pems v,
            )

      pub install-IsInstalled :
          (c : Conn) (node : ProvisionedNode) (w : W)
          → IsInstalled H sent D X cfg node (sent w) (install H D X cfg c node w)
      unfolding install
      install-IsInstalled c node w =
          let any : Bytes × Bytes × Bytes = ("", "", "") in
          proceed-Follows sent (AreMinted H sent D X cfg node.agent_id) any (sent w) _ _ _ _
            (run_setup-Sends c 0 cfg.agent_setup_commands w)
            λ _ v.
              proceed-Follows sent (AreMinted H sent D X cfg node.agent_id) any (sent v) _ _ _ _
                (install_package-Sends c v)
                λ _ u.
                  proceed-Follows sent (AreMinted H sent D X cfg node.agent_id) any (sent u) _ _ _ _
                    (relabel-Sends sent (sent u) _ _ _ (run-Sends H sent L c _ u))
                    λ _ t. minted-Follows c node.agent_id t
