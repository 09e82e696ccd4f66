-- ===== src/Scaler/Bootstrap/Outcome.antt =====
-- pkg/resource/bootstrap.go: what `Bootstrap` as a whole does to a node.
use mathlib.Core.Option
use mathlib.Core.Option.{some-injective}
use serverless_flux.Base.{
  ℕ, zero, suc, ◌+◌, ◌≤◌, ltb, String, ◌<>◌, ◌≡◌, refl, ◌∙◌, subst, inl, inr, Option, none, some,
  List, [], Bool-cases,
}
use serverless_flux.Base.Result.{Result, ok, err}
use serverless_flux.Base.Action.{relabel, labelled}
use serverless_flux.Pki.{Disk, Crypto}
use serverless_flux.Scaler.Provider.{ProvisionedNode}
use serverless_flux.Scaler.Bootstrap.{
  Ssh, three_minutes, BootstrapConfig, install, config_dir, waited, after_dial, connected,
  installed, dial_loop, dial, load_signer, key_path, bootstrap,
}
use serverless_flux.Scaler.Bootstrap.Sent.{
  Event, Sends, relabel-Sends, silent, proceed-Follows, finally-Follows,
}
use serverless_flux.Scaler.Bootstrap.Minted.{LocalLaws, Silent, proceed-Silent, relabel-Silent}
use serverless_flux.Scaler.Bootstrap.Installed.{IsInstalled, install-IsInstalled, plan}
use serverless_flux.Scaler.Bootstrap.Deadline.{ClockLaws, bootstrap-returns}
use serverless_flux.Scaler.Bootstrap.Commands.{SshLaws}

module _ {Signer Conn Session Pipe W : Type 0} (H : Ssh Signer Conn Session Pipe W)
    (sent : W → List Event) (L : SshLaws H sent) where
  -- Where the operation returns, it has sent nothing.
  abbrev Quiet : {A : Type 0} → List Event → Option (Result A × W) → Type 0
  Quiet b none = Unit
  Quiet b (some r) = Silent sent b r

  waited-Quiet :
      {A : Type 0} (rest : W → Option (Result A × W)) (b : List Event) (r : Result (Unit {0}) × W)
      → sent r.1 ≡ b
      → ((v : W) → Quiet (sent v) (rest v))
      → Quiet b (waited H rest r)
  unfolding waited
  waited-Quiet rest b (err e, v) h k = h
  waited-Quiet rest b (ok _, v) h k = subst (λ l. Quiet l (rest v)) h (k v)

  after_dial-Quiet :
      {A : Type 0} (start n : ℕ) (rest : W → Option (Result A × W)) (b : List Event)
      (r : Result A × W)
      → sent r.1 ≡ b
      → ((v : W) → Quiet (sent v) (rest v))
      → Quiet b (after_dial H start n rest r)
  unfolding after_dial
  after_dial-Quiet start n rest b (ok c, v) h k = h
  after_dial-Quiet start n rest b (err e, v) h k =
      elim (Bool-cases (ltb (start + three_minutes) (H.clock v))) [
        | inl late ↦ rw late h
        | inr early ↦
            rw early (
              waited-Quiet rest b (H.next_tick start (n + 1) v) (L.tick_sends start (n + 1) v ∙ h)
                k)
      ]

  dial_loop-Quiet :
      (fuel start : ℕ) (addr user : String) (signer : Signer) (n : ℕ) (w : W)
      → Quiet (sent w) (dial_loop H fuel start addr user signer n w)
  unfolding dial_loop
  dial_loop-Quiet zero start addr user signer n w = tt
  dial_loop-Quiet (suc fuel) start addr user signer n w =
      after_dial-Quiet start n (dial_loop H fuel start addr user signer (n + 1)) (sent w)
        (H.dial addr user signer w) (L.dial_sends addr user signer w)
        (λ v. dial_loop-Quiet fuel start addr user signer (n + 1) v)

  module _ {Serial Cert Key : Type 0} (D : Disk W) (X : Crypto Serial Cert Key W)
      (cfg : BootstrapConfig Cert Key) where
    connected-Quiet :
        (fuel : ℕ) (host : String) (b : List Event) (r : Result Signer × W)
        → sent r.1 ≡ b
        → Quiet b (connected H D X cfg fuel host r)
    unfolding connected
    connected-Quiet fuel host b (err e, w) h = h
    connected-Quiet fuel host b (ok signer, w) h =
        subst (λ l. Quiet l (connected H D X cfg fuel host (ok signer, w))) h
          (dial_loop-Quiet fuel (H.clock w) _ cfg.ssh_user signer 0 w)

    load_signer-Silent : (w : W) → Silent sent (sent w) (load_signer H D X cfg w)
    unfolding load_signer
    load_signer-Silent w =
        proceed-Silent sent (sent w) _
          (labelled ("read SSH key " <> (key_path H D X cfg <> ": "))
            (λ v. (D.read_file (key_path H D X cfg) v, v)) w)
          (relabel-Silent sent (sent w) _ (D.read_file (key_path H D X cfg) w, w) refl)
          λ bytes v. relabel-Silent sent (sent v) _ (H.parse_private_key bytes, v) refl

    module _ (Q : LocalLaws D X sent) where
      installed-IsInstalled :
          (node : ProvisionedNode) (b : List Event) (r : Result Conn × W)
          → Silent sent b r
          → IsInstalled H sent D X cfg node b (installed H D X cfg node r)
      unfolding installed
      installed-IsInstalled node b r h =
          proceed-Follows sent _ ("", "", "") b [] (plan H cfg (config_dir H D X cfg) node.agent_id)
            _ (relabel ("SSH dial " <> (node.public_ip <> ": ")) r)
            (relabel-Sends sent b [] _ r (silent_at r h))
            λ c v.
              finally-Follows sent _ (sent v) _ (H.close c) (install H D X cfg c node v)
                (L.close_sends c) (install-IsInstalled H sent L D X cfg Q c node v)
        where
          silent_at : (o : Result Conn × W) → Silent sent b o → Sends sent b [] o
          silent_at o e = subst (λ l. Sends sent l [] o) e (silent sent o.1 o refl)

      -- Given what the clock, SSH, the file system and the cryptography document: with 38 attempts
      -- to connect, `Bootstrap` returns. What it sent to the node is, if it returns no error, the
      -- commands of the configuration, the installation of the package if a version is configured,
      -- the folder for the certificates, the certificate of the authority, the agent's and its key,
      -- as the PKI made them for this agent, each to its own file, then the files of the agent's
      -- configuration and of its service, and last the restart of the service; and after an error
      -- it is a beginning of that.
      pub bootstrap-IsInstalled :
          (C : ClockLaws H) (fuel : ℕ) (node : ProvisionedNode) (w : W)
          → 38 ≤ fuel
          → (r : Result (Unit {0}) × W) × (bootstrap H D X cfg fuel node w ≡ some r)
            × IsInstalled H sent D X cfg node (sent w) r
      unfolding bootstrap dial
      bootstrap-IsInstalled C fuel node w h =
          let (r, e) = bootstrap-returns H C D X cfg fuel node w h in
          (r, e, from (dial H D X cfg fuel node.public_ip w) e quiet)
        where
          quiet : Quiet (sent w) (dial H D X cfg fuel node.public_ip w)
          quiet =
              connected-Quiet fuel node.public_ip (sent w) (load_signer H D X cfg w)
                (load_signer-Silent w)

          from :
              (o : Option (Result Conn × W)) {r : Result (Unit {0}) × W}
              → Option.map (installed H D X cfg node) o ≡ some r
              → Quiet (sent w) o
              → IsInstalled H sent D X cfg node (sent w) r
          from none e q = cc
          from (some d) e q =
              subst (IsInstalled H sent D X cfg node (sent w))
                (some-injective (installed H D X cfg node d) _ e)
                (installed-IsInstalled node (sent w) d q)
