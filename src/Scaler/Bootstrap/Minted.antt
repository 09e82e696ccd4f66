-- ===== src/Scaler/Bootstrap/Minted.antt =====
-- pkg/resource/bootstrap.go: the certificate of an agent is made without a word to the node.
use serverless_flux.Base.{ℕ, String, ◌≡◌, refl, ◌∙◌, Option, some, List, [], ◌∷◌}
use serverless_flux.Base.Result.{Result, ok, err}
use serverless_flux.Base.Action.{Action, proceed, relabel, labelled}
use serverless_flux.Memory.{Bytes}
use serverless_flux.Pki.{
  Disk, Crypto, Template, days, mint_agent_cert, make_dir, write_file, generate_leaf,
}
use serverless_flux.Scaler.Bootstrap.{BootstrapConfig}
use serverless_flux.Scaler.Bootstrap.Sent.{Event}

-- The operations on files and keys send nothing to a node.
pub record LocalLaws {Serial Cert Key W : Type 0} (D : Disk W) (X : Crypto Serial Cert Key W)
    (sent : W → List Event) : Type 0 where
  pub mkdir_sends : (p : String) (mode : ℕ) (w : W) → sent (D.mkdir_all p mode w).1 ≡ sent w
  pub write_file_sends :
      (p : String) (b : Bytes) (mode : ℕ) (w : W) → sent (D.write_file p b mode w).1 ≡ sent w
  pub key_sends : (w : W) → sent (X.generate_key w).1 ≡ sent w
  pub serial_sends : (w : W) → sent (X.random_serial w).1 ≡ sent w
  pub certificate_sends :
      (t : Template Serial) (parent : Option Cert) (key signer : Key) (w : W)
      → sent (X.create_certificate t parent key signer w).1 ≡ sent w

-- Operations that send nothing, in a row.
module _ {W : Type 0} (sent : W → List Event) where
  abbrev pub Silent : {A : Type 0} → List Event → Result A × W → Type 0
  Silent b r = sent r.1 ≡ b

  pub proceed-Silent :
      {A B : Type 0} (b : List Event) (next : A → Action W B) (r : Result A × W)
      → Silent b r
      → ((a : A) (v : W) → Silent (sent v) (next a v))
      → Silent b (proceed next r)
  proceed-Silent b next (err e, w) h k = h
  proceed-Silent b next (ok a, w) h k = k a w ∙ h

  pub relabel-Silent :
      {A : Type 0} (b : List Event) (label : String) (r : Result A × W)
      → Silent b r
      → Silent b (relabel label r)
  relabel-Silent b label (ok a, w) h = h
  relabel-Silent b label (err e, w) h = h

module _ {Serial Cert Key W : Type 0} (D : Disk W) (X : Crypto Serial Cert Key W)
    (sent : W → List Event) (Q : LocalLaws D X sent) where
  generate_leaf-Silent :
      (ca : Cert) (key : Key) (name : String) (validity : ℕ) (w : W)
      → Silent sent (sent w) (generate_leaf D X (ca, key) name validity w)
  unfolding generate_leaf
  generate_leaf-Silent ca key name validity w =
      proceed-Silent sent (sent w) _ (X.generate_key w) (Q.key_sends w) λ k v.
        proceed-Silent sent (sent v) _ (X.random_serial v) (Q.serial_sends v) λ s u.
          proceed-Silent sent (sent u) _ (X.create_certificate _ (some ca) k key u)
            (Q.certificate_sends _ (some ca) k key u)
            λ der t. proceed-Silent sent (sent t) _ (X.marshal_key k, t) refl λ text p. refl

  write_file-Silent :
      (p : String) (b : Bytes) (mode : ℕ) (w : W) → Silent sent (sent w) (write_file D X p b mode w)
  unfolding write_file
  write_file-Silent p b mode w = relabel-Silent sent (sent w) _ _ (Q.write_file_sends p b mode w)

  -- the certificate, the key and the authority that the PKI makes for a node
  pub mint-Silent :
      (cfg : BootstrapConfig Cert Key) (agent_id : String) (w : W)
      → Silent sent (sent w) (mint_agent_cert D X cfg.pki agent_id w)
  unfolding mint_agent_cert make_dir
  mint-Silent cfg agent_id w =
      let dir = D.join (cfg.pki.certs_dir ∷ "agents" ∷ agent_id ∷ []) in
      let leaf = generate_leaf D X (cfg.pki.ca_cert, cfg.pki.ca_key) "flux-agent" (days 365) in
      proceed-Silent sent (sent w) _ (make_dir D X dir w)
        (relabel-Silent sent (sent w) _ (D.mkdir_all dir 0o700 w) (Q.mkdir_sends dir 0o700 w))
        λ _ v.
          proceed-Silent sent (sent v) _ (labelled "generate agent cert: " leaf v)
            (relabel-Silent sent (sent v) _ (leaf v)
              (generate_leaf-Silent cfg.pki.ca_cert cfg.pki.ca_key "flux-agent" (days 365) v))
            λ (pair : Bytes × Bytes) u.
              proceed-Silent sent (sent u) _
                (write_file D X (D.join (dir ∷ "agent.pem" ∷ [])) pair.0 0o644 u)
                (write_file-Silent (D.join (dir ∷ "agent.pem" ∷ [])) pair.0 0o644 u)
                λ _ t.
                  proceed-Silent sent (sent t) _
                    (write_file D X (D.join (dir ∷ "agent-key.pem" ∷ [])) pair.1 0o600 t)
                    (write_file-Silent (D.join (dir ∷ "agent-key.pem" ∷ [])) pair.1 0o600 t)
                    λ _ p. refl
