-- ===== src/Pki/Creation.antt =====
-- What the creating half of each step of pkg/pki/pki.go leaves in the files of its directory.
use serverless_flux.Base.{
  ℕ, String, ◌≡◌, refl, ap, ◌∙◌, false, Option, none, some, ◌==◌, ◌/◌, eqb, arith,
}
use serverless_flux.Base.Result.{Result, ok, err}
use serverless_flux.Base.Action.{Action, proceed}
use serverless_flux.Base.Ensures.{
  Ensures, proceed-Ensures, relabel-Ensures, Ensures_of, weaken, after,
}
use serverless_flux.Memory.{Bytes}
use serverless_flux.Pki.{
  Disk, Crypto, PkiFile, ca_cert_file, ca_key_file, flux_cert_file, flux_key_file, ssh_private_file,
  ssh_public_file, path, pem_encode_cert, create_ca, create_flux_cert, create_ssh_key, make_dir,
  generate_leaf,
}
use serverless_flux.Pki.Files.{
  DiskLaws, CryptoLaws, group, index, Untouched, Written, make_dir-Untouched, generate-Untouched,
  serial-Untouched, create-Untouched, write_file-Written, write_ec_key-Written,
}
use serverless_flux.Pki.Contents

pub group_of_index : (f : PkiFile) → group f ≡ index f / 2
group_of_index ca_cert_file = refl
group_of_index ca_key_file = refl
group_of_index flux_cert_file = refl
group_of_index flux_key_file = refl
group_of_index ssh_private_file = refl
group_of_index ssh_public_file = refl

-- files of different directories are different files
pub index-ne : (f g : PkiFile) → eqb (group g) (group f) ≡ false → eqb (index f) (index g) ≡ false
index-ne f g h = ground (arith, group_of_index f, group_of_index g)

module _ {Serial Cert Key W : Type 0} (D : Disk W) (X : Crypto Serial Cert Key W)
    (file : W → String → Option Bytes) (L : DiskLaws D file) (K : CryptoLaws X file) (dir : String)
    (apart : (f g : PkiFile)
      → eqb (index f) (index g) ≡ false
      → (path D X dir f == path D X dir g) ≡ false) where
  -- the contents, at this directory
  abbrev HasBlock : {A : Type 0} → (Bytes → Result A) → PkiFile → A → W → Type 0
  HasBlock = Contents.HasBlock D X file L dir

  abbrev pub HasCa : Cert × Key → W → Type 0
  HasCa = Contents.HasCa D X file L dir

  abbrev pub HasFlux : W → Type 0
  HasFlux = Contents.HasFlux D X file L dir

  abbrev pub HasSsh : Bytes → W → Type 0
  HasSsh = Contents.HasSsh D X file L dir

  abbrev pub WrittenAt : PkiFile → Bytes → W → W → Type 0
  WrittenAt f b w v = Written D X file L K (path D X dir f) b w v

  abbrev pub KeyWritten : PkiFile → Key → W → W → Type 0
  KeyWritten f key w v =
      (b : Bytes) × (X.marshal_key key ≡ ok b) × WrittenAt f (X.pem_encode "EC PRIVATE KEY" b) w v

  -- only the files of one directory may have changed
  abbrev pub Keeps : ℕ → W → W → Type 0
  Keeps g w v =
      (f : PkiFile) → eqb (group f) g ≡ false → file v (path D X dir f) ≡ file w (path D X dir f)

  pub Keeps-Written : (f : PkiFile) (b : Bytes) (w v : W) → WrittenAt f b w v → Keeps (group f) w v
  Keeps-Written f b w v (_, others) g h = others (path D X dir g) (apart f g (index-ne f g h))

  pub kept :
      {A B : Type 0} (g : ℕ) (P : B → W → Type 0) (next : A → Action W B) (w : W) (r : Result A × W)
      → Ensures (λ _ u. Keeps g w u) r
      → ((a : A) (u : W) → Ensures (λ b v. P b v × Keeps g u v) (next a u))
      → Ensures (λ b v. P b v × Keeps g w v) (proceed next r)
  kept g P next w (err e, u) h k = tt
  kept g P next w (ok a, u) h k =
      weaken (λ b v. P b v × Keeps g u v) (λ b v. P b v × Keeps g w v) (next a u)
        (λ b v (p, q). (p, λ f n. q f n ∙ h f n)) (k a u)

  pub Untouched-Keeps :
      {A : Type 0} (g : ℕ) (w : W) (r : Result A × W)
      → Ensures (λ _ v. Untouched D X file L K w v) r
      → Ensures (λ _ v. Keeps g w v) r
  Untouched-Keeps g w r =
      weaken (λ _ v. Untouched D X file L K w v) (λ _ v. Keeps g w v) r
        (λ _ v u f _. u (path D X dir f))

  pub create_ca-HasCa : (w : W) → Ensures HasCa (create_ca D X dir w)
  unfolding create_ca
  create_ca-HasCa w = after HasCa _ (make_dir D X _ w) λ _ w1.
      after HasCa _ (X.generate_key w1) λ key w2. after HasCa _ (X.random_serial w2) λ serial w3.
        after HasCa _ (X.create_certificate _ none key key w3) λ der w4.
          proceed-Ensures (λ c _. X.parse_certificate der ≡ ok c) HasCa _
            (X.parse_certificate der, w4)
            (Ensures_of (λ c _. X.parse_certificate der ≡ ok c) (X.parse_certificate der, w4)
              (λ c e. e))
            (λ cert w5 e.
              proceed-Ensures (λ _ v. WrittenAt ca_cert_file (pem_encode_cert D X der) w5 v) HasCa _
                _ (write_file-Written D X file L K _ _ _ w5)
                (λ _ w6 (got, _).
                  proceed-Ensures (λ _ v. KeyWritten ca_key_file key w6 v) HasCa _ _
                    (write_ec_key-Written D X file L K _ key w6)
                    (λ _ w7 (b, m, (has, others)). (
                      (
                        _,
                        der,
                        others _ (apart ca_key_file ca_cert_file refl) ∙ got,
                        K.pem_back _ der,
                        e,
                      ),
                      (_, b, has, K.pem_back _ b, K.key_back key b m),
                    ))))

  pub generate_leaf-Keeps :
      (g : ℕ) (ca : Cert × Key) (name : String) (validity : ℕ) (w : W)
      → Ensures (λ _ v. Unit {0} × Keeps g w v) (generate_leaf D X ca name validity w)
  unfolding generate_leaf
  generate_leaf-Keeps g (ca, ca_key) name validity w =
      kept g P _ w (X.generate_key w) (Untouched-Keeps g w _ (generate-Untouched D X file L K w))
        λ key u.
          kept g P _ u (X.random_serial u) (Untouched-Keeps g u _ (serial-Untouched D X file L K u))
            λ serial v.
              kept g P _ v _
                (Untouched-Keeps g v _ (create-Untouched D X file L K _ (some ca) key ca_key v))
                λ der x.
                  kept g P _ x (X.marshal_key key, x)
                    (Ensures_of (λ _ y. Keeps g x y) (X.marshal_key key, x) (λ _ _ _ _. refl))
                    λ text y. (tt, λ _ _. refl)
    where
      P : Bytes × Bytes → W → Type 0
      P _ _ = Unit {0}

  pub create_flux_cert-HasFlux :
      (ca : Cert × Key) (w : W)
      → Ensures (λ _ v. HasFlux v × Keeps 1 w v) (create_flux_cert D X dir ca w)
  unfolding create_flux_cert
  create_flux_cert-HasFlux ca w =
      kept 1 P _ w (make_dir D X _ w) (Untouched-Keeps 1 w _ (make_dir-Untouched D X file L K _ w))
        λ _ u.
          kept 1 P _ u _
            (relabel-Ensures (λ _ v. Keeps 1 u v) _ (generate_leaf D X ca "flux" _ u)
              (weaken (λ _ v. Unit {0} × Keeps 1 u v) (λ _ v. Keeps 1 u v) _ (λ _ v k. k.1)
                (generate_leaf-Keeps 1 ca "flux" _ u)))
            λ pair v.
              proceed-Ensures (λ _ x. WrittenAt flux_cert_file pair.0 v x)
                (λ _ x. HasFlux x × Keeps 1 v x) _ _ (write_file-Written D X file L K _ pair.0 _ v)
                λ _ x k.
                  weaken (λ _ y. WrittenAt flux_key_file pair.1 x y)
                    (λ _ y. HasFlux y × Keeps 1 v y) _
                    (λ _ y q. (
                      (
                        (pair.0, q.1 _ (apart flux_key_file flux_cert_file refl) ∙ k.0),
                        (pair.1, q.0),
                      ),
                      λ f n.
                          Keeps-Written flux_key_file pair.1 x y q f n
                          ∙ Keeps-Written flux_cert_file pair.0 v x k f n,
                    ))
                    (write_file-Written D X file L K _ pair.1 _ x)
    where
      P : Unit {0} → W → Type 0
      P _ = HasFlux

  pub create_ssh_key-HasSsh :
      (w : W) → Ensures (λ public v. HasSsh public v × Keeps 2 w v) (create_ssh_key D X dir w)
  unfolding create_ssh_key
  create_ssh_key-HasSsh w =
      kept 2 P _ w (make_dir D X _ w) (Untouched-Keeps 2 w _ (make_dir-Untouched D X file L K _ w))
        λ _ u.
          kept 2 P _ u (X.generate_key u)
            (Untouched-Keeps 2 u _ (generate-Untouched D X file L K u))
            λ key v.
              proceed-Ensures (λ _ x. KeyWritten ssh_private_file key v x)
                (λ p x. HasSsh p x × Keeps 2 v x) _ _ (write_ec_key-Written D X file L K _ key v)
                λ _ x (b, m, k).
                  proceed-Ensures (λ _ y. y ≡ x) (λ p y. HasSsh p y × Keeps 2 v y) _ _
                    (relabel-Ensures (λ _ y. y ≡ x) _ (X.ssh_public_key key, x)
                      (Ensures_of (λ _ y. y ≡ x) (X.ssh_public_key key, x) (λ _ _. refl)))
                    λ public y same.
                      proceed-Ensures (λ _ z. WrittenAt ssh_public_file public y z)
                        (λ p z. HasSsh p z × Keeps 2 v z) _ _
                        (write_file-Written D X file L K _ public _ y)
                        λ _ z q. (
                          (
                            (
                              _,
                              q.1 _ (apart ssh_public_file ssh_private_file refl)
                                  ∙ ap (λ t. file t (path D X dir ssh_private_file)) same
                                  ∙ k.0,
                            ),
                            q.0,
                          ),
                          λ f n.
                              Keeps-Written ssh_public_file public y z q f n
                              ∙ ap (λ t. file t (path D X dir f)) same
                              ∙ Keeps-Written ssh_private_file _ v x k f n,
                        )
    where
      P : Bytes → W → Type 0
      P = HasSsh
