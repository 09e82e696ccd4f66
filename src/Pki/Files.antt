-- ===== src/Pki/Files.antt =====
-- What the steps of pkg/pki/pki.go leave in its files.
use serverless_flux.Base.{ℕ, String, ◌≡◌, refl, false, Option, some, ◌==◌}
use serverless_flux.Base.Result.{Result, ok, err}
use serverless_flux.Base.Action.{proceed}
use serverless_flux.Base.Ensures.{Ensures, relabel-Ensures, Ensures_of, weaken}
use serverless_flux.Memory.{Bytes}
use serverless_flux.Api.Reply.{is_some}
use serverless_flux.Pki.{
  Template, Disk, Crypto, PkiFile, ca_cert_file, ca_key_file, flux_cert_file, flux_key_file,
  ssh_private_file, ssh_public_file, write_file, write_ec_key, make_dir,
}

-- What `os` documents of the files, `file w`: a file that is there can be read, a write that
-- succeeded is read back, and a write or a new directory changes no other file.
pub record DiskLaws {W : Type 0} (D : Disk W) (file : W → String → Option Bytes) : Type 0 where
  pub exists_eq : (p : String) (w : W) → D.exists p w ≡ is_some (file w p)
  pub read_some : (p : String) (w : W) (b : Bytes) → file w p ≡ some b → D.read_file p w ≡ ok b
  pub read_ok : (p : String) (w : W) (b : Bytes) → D.read_file p w ≡ ok b → file w p ≡ some b
  pub mkdir_same :
      (p : String) (m : ℕ) (w : W) (q : String) → file (D.mkdir_all p m w).1 q ≡ file w q
  pub write_ok :
      (p : String) (b : Bytes) (m : ℕ) (w : W)
      → (D.write_file p b m w).0 ≡ ok tt
      → file (D.write_file p b m w).1 p ≡ some b
  pub write_other :
      (p : String) (b : Bytes) (m : ℕ) (w : W) (q : String)
      → (p == q) ≡ false
      → file (D.write_file p b m w).1 q ≡ file w q

-- What the cryptography documents: it touches no file, and decodes what it encoded.
pub record CryptoLaws {Serial Cert Key W : Type 0} (X : Crypto Serial Cert Key W)
    (file : W → String → Option Bytes) : Type 0 where
  pub generate_same : (w : W) (q : String) → file (X.generate_key w).1 q ≡ file w q
  pub serial_same : (w : W) (q : String) → file (X.random_serial w).1 q ≡ file w q
  pub create_same :
      (t : Template Serial) (parent : Option Cert) (key signer : Key) (w : W) (q : String)
      → file (X.create_certificate t parent key signer w).1 q ≡ file w q
  pub pem_back : (k : String) (b : Bytes) → X.pem_decode (X.pem_encode k b) ≡ some b
  pub key_back : (k : Key) (b : Bytes) → X.marshal_key k ≡ ok b → X.parse_key b ≡ ok k

abbrev pub group : PkiFile → ℕ
group ca_cert_file = 0
group ca_key_file = 0
group flux_cert_file = 1
group flux_key_file = 1
group ssh_private_file = 2
group ssh_public_file = 2

-- the number of a file
abbrev pub index : PkiFile → ℕ
index ca_cert_file = 0
index ca_key_file = 1
index flux_cert_file = 2
index flux_key_file = 3
index ssh_private_file = 4
index ssh_public_file = 5

module _ {Serial Cert Key W : Type 0} (D : Disk W) (X : Crypto Serial Cert Key W)
    (file : W → String → Option Bytes) (L : DiskLaws D file) (K : CryptoLaws X file) where
  -- the operation changes no file
  abbrev pub Untouched : W → W → Type 0
  Untouched w v = (q : String) → file v q ≡ file w q

  -- the file has the content, and the others are as before
  abbrev pub Written : String → Bytes → W → W → Type 0
  Written p b w v = (file v p ≡ some b) × ((q : String) → (p == q) ≡ false → file v q ≡ file w q)

  pub make_dir-Untouched : (p : String) (w : W) → Ensures (λ _ v. Untouched w v) (make_dir D X p w)
  unfolding make_dir
  make_dir-Untouched p w =
      relabel-Ensures (λ _ v. Untouched w v) _ (D.mkdir_all p 0o700 w)
        (Ensures_of (λ _ v. Untouched w v) (D.mkdir_all p 0o700 w) (λ a e. L.mkdir_same p 0o700 w))

  pub generate-Untouched : (w : W) → Ensures (λ _ v. Untouched w v) (X.generate_key w)
  generate-Untouched w =
      Ensures_of (λ _ v. Untouched w v) (X.generate_key w) (λ a e. K.generate_same w)

  pub serial-Untouched : (w : W) → Ensures (λ _ v. Untouched w v) (X.random_serial w)
  serial-Untouched w =
      Ensures_of (λ _ v. Untouched w v) (X.random_serial w) (λ a e. K.serial_same w)

  pub create-Untouched :
      (t : Template Serial) (parent : Option Cert) (key signer : Key) (w : W)
      → Ensures (λ _ v. Untouched w v) (X.create_certificate t parent key signer w)
  create-Untouched t parent key signer w =
      Ensures_of (λ _ v. Untouched w v) (X.create_certificate t parent key signer w)
        (λ a e. K.create_same t parent key signer w)

  pub write_file-Written :
      (p : String) (b : Bytes) (m : ℕ) (w : W)
      → Ensures (λ _ v. Written p b w v) (write_file D X p b m w)
  unfolding write_file
  write_file-Written p b m w =
      relabel-Ensures (λ _ v. Written p b w v) _ (D.write_file p b m w)
        (Ensures_of (λ _ v. Written p b w v) (D.write_file p b m w)
          (λ a e. (L.write_ok p b m w e, L.write_other p b m w)))

  pub write_ec_key-Written :
      (p : String) (key : Key) (w : W)
      → Ensures
          (λ _ v.
            (b : Bytes) × (X.marshal_key key ≡ ok b)
            × Written p (X.pem_encode "EC PRIVATE KEY" b) w v)
          (write_ec_key D X p key w)
  unfolding write_ec_key
  write_ec_key-Written p key w = by (X.marshal_key key) refl
    where
      by :
          (r : Result Bytes)
          → X.marshal_key key ≡ r
          → Ensures
              (λ _ v.
                (b : Bytes) × (X.marshal_key key ≡ ok b)
                × Written p (X.pem_encode "EC PRIVATE KEY" b) w v)
              (proceed (λ der. write_file D X p (X.pem_encode "EC PRIVATE KEY" der) 0o600) (r, w))
      by (err e) h = tt
      by (ok b) h =
          weaken (λ _ v. Written p (X.pem_encode "EC PRIVATE KEY" b) w v)
            (λ _ v.
              (b : Bytes) × (X.marshal_key key ≡ ok b)
              × Written p (X.pem_encode "EC PRIVATE KEY" b) w v)
            _ (λ _ v q. (b, h, q)) (write_file-Written p (X.pem_encode "EC PRIVATE KEY" b) 0o600 w)
