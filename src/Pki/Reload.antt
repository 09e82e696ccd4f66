-- ===== src/Pki/Reload.antt =====
-- pkg/pki/pki.go: a second `New` on the directory that a first one has prepared.
use serverless_flux.Base.{ℕ, String, ◌≡◌, refl, sym, subst, ◌∙◌, false, Option, ◌==◌, eqb}
use serverless_flux.Base.Result.{Result, ok}
use serverless_flux.Base.Action.{relabel}
use serverless_flux.Base.Ensures.{
  Ensures, proceed-Ensures, relabel-Ensures, Ensures_of, Ensures-if, Ensures-eq,
}
use serverless_flux.Memory.{Bytes}
use serverless_flux.Pki.{
  Disk, Crypto, Pki, PkiFile, ca_cert_file, ca_key_file, flux_cert_file, flux_key_file,
  ssh_private_file, ssh_public_file, path, load_ca, create_ca, init_ca, create_flux_cert,
  init_flux_cert, create_ssh_key, init_ssh_key, init_all, new_pki,
}
use serverless_flux.Pki.Files.{DiskLaws, CryptoLaws, index}
use serverless_flux.Pki.Contents
use serverless_flux.Pki.Creation

module _ {Serial Cert Key W : Type 0} (D : Disk W) (X : Crypto Serial Cert Key W)
    (file : W → String → Option Bytes) (L : DiskLaws D file) (K : CryptoLaws X file) (dir : String)
    (apart : (f g : PkiFile)
      → eqb (index f) (index g) ≡ false
      → (path D X dir f == path D X dir g) ≡ false) where
  -- the contents, at this directory
  abbrev HasBlock : {A : Type 0} → (Bytes → Result A) → PkiFile → A → W → Type 0
  HasBlock = Contents.HasBlock D X file L dir

  abbrev HasCa : Cert × Key → W → Type 0
  HasCa = Contents.HasCa D X file L dir

  abbrev HasFlux : W → Type 0
  HasFlux = Contents.HasFlux D X file L dir

  abbrev HasSsh : Bytes → W → Type 0
  HasSsh = Contents.HasSsh D X file L dir

  abbrev Keeps : ℕ → W → W → Type 0
  Keeps = Creation.Keeps D X file L K dir apart

  init_ca-HasCa : (w : W) → Ensures HasCa (init_ca D X dir w)
  unfolding init_ca load_ca
  init_ca-HasCa w =
      Ensures-if HasCa (Contents.present D X file L dir ca_cert_file ca_key_file w)
        (relabel "load existing CA: " (load_ca D X dir w)) (create_ca D X dir w)
        (λ _. relabel-Ensures HasCa "load existing CA: " (load_ca D X dir w) (
          proceed-Ensures (λ c v. HasBlock X.parse_certificate ca_cert_file c w × (v ≡ w)) HasCa _ _
            (Contents.load_block-HasBlock D X file L dir X.parse_certificate ca_cert_file w)
            λ cert v (c, same).
              proceed-Ensures (λ k u. HasBlock X.parse_key ca_key_file k v × (u ≡ v)) HasCa _ _
                (Contents.load_block-HasBlock D X file L dir X.parse_key ca_key_file v)
                λ key u (k, same'). (
                  subst (HasBlock X.parse_certificate ca_cert_file cert) (sym same ∙ sym same') c,
                  subst (HasBlock X.parse_key ca_key_file key) (sym same') k,
                )))
        (Creation.create_ca-HasCa D X file L K dir apart w)

  init_flux_cert-HasFlux :
      (ca : Cert × Key) (w : W)
      → Ensures (λ _ v. HasFlux v × Keeps 1 w v) (init_flux_cert D X dir ca w)
  unfolding init_flux_cert
  init_flux_cert-HasFlux ca w =
      Ensures-if (λ _ v. HasFlux v × Keeps 1 w v)
        (Contents.present D X file L dir flux_cert_file flux_key_file w) (ok tt, w)
        (create_flux_cert D X dir ca w)
        (λ h. (Contents.present-Has D X file L dir flux_cert_file flux_key_file w h, λ _ _. refl))
        (Creation.create_flux_cert-HasFlux D X file L K dir apart ca w)

  init_ssh_key-HasSsh :
      (w : W) → Ensures (λ public v. HasSsh public v × Keeps 2 w v) (init_ssh_key D X dir w)
  unfolding init_ssh_key
  init_ssh_key-HasSsh w =
      Ensures-if (λ p v. HasSsh p v × Keeps 2 w v)
        (Contents.present D X file L dir ssh_private_file ssh_public_file w)
        (relabel "read SSH public key: " (D.read_file (path D X dir ssh_public_file) w, w))
        (create_ssh_key D X dir w)
        (λ h.
          relabel-Ensures (λ p v. HasSsh p v × Keeps 2 w v) "read SSH public key: "
            (D.read_file (path D X dir ssh_public_file) w, w)
            (Ensures_of (λ p v. HasSsh p v × Keeps 2 w v)
              (D.read_file (path D X dir ssh_public_file) w, w)
              λ p e. (
                (
                  (Contents.present-Has D X file L dir ssh_private_file ssh_public_file w h).0,
                  L.read_ok _ w p e,
                ),
                λ _ _. refl,
              )))
        (Creation.create_ssh_key-HasSsh D X file L K dir apart w)

  -- what one directory holds is still there when only another has changed
  Keeps-HasCa :
      (g : ℕ) (ca : Cert × Key) (w v : W) → eqb 0 g ≡ false → Keeps g w v → HasCa ca w → HasCa ca v
  Keeps-HasCa g (cert, key) w v n k ((t, der, h, d, p), (t', der', h', d', p')) =
      ((t, der, k ca_cert_file n ∙ h, d, p), (t', der', k ca_key_file n ∙ h', d', p'))

  Keeps-HasFlux : (w v : W) → Keeps 2 w v → HasFlux w → HasFlux v
  Keeps-HasFlux w v k ((t, h), (t', h')) =
      ((t, k flux_cert_file refl ∙ h), (t', k flux_key_file refl ∙ h'))

  init_all-again : (w : W) → Ensures (λ p v. init_all D X dir v ≡ (ok p, v)) (init_all D X dir w)
  unfolding init_all
  init_all-again w = proceed-Ensures HasCa P _ _ (init_ca-HasCa w) λ ca u has.
      proceed-Ensures (λ _ v. HasFlux v × Keeps 1 u v) P _ _ (init_flux_cert-HasFlux ca u)
        λ _ v (flux, kv).
          proceed-Ensures (λ p x. HasSsh p x × Keeps 2 v x) P _ _ (init_ssh_key-HasSsh v)
            λ public x (ssh, kx). rw (
              Contents.init_ca-again D X file L dir ca x
                  (Keeps-HasCa 2 ca v x refl kx (Keeps-HasCa 1 ca u v refl kv has)),
              Contents.init_flux-again D X file L dir ca x (Keeps-HasFlux v x kx flux),
              Contents.init_ssh-again D X file L dir public x ssh,
            )
    where
      P : Pki Cert Key → W → Type 0
      P p v = init_all D X dir v ≡ (ok p, v)

  -- If a first `New` on a certificates directory succeeded, with a disk and cryptography that keep
  -- their documented laws and file paths that are pairwise different, then a second `New` on the
  -- same directory succeeds with the very same authority, key and SSH public key, and leaves the
  -- world as it found it.
  pub new_pki-again :
      (certs_dir : String) (w : W) (p : Pki Cert Key) (w' : W)
      → D.abs certs_dir ≡ ok dir
      → new_pki D X certs_dir w ≡ (ok p, w')
      → new_pki D X certs_dir w' ≡ (ok p, w')
  unfolding new_pki
  new_pki-again certs_dir w p w' e h = rw e (
      Ensures-eq (λ q v. init_all D X dir v ≡ (ok q, v)) (init_all D X dir w) p w'
        (init_all-again w) (rw e at h))
