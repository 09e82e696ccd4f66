-- ===== src/Pki.antt =====
-- pkg/pki/pki.go: the certificate authority and the keys of Flux, over the file system and the
-- cryptography, which the program takes from packages.
mod Packages
pub mod Files
pub mod Contents
pub mod Creation
pub mod Reload
use serverless_flux.Base.{
  ℕ, ◌+◌, ◌-◌, ◌*◌, String, ◌<>◌, Bool, true, false, ◌&&◌, Option, none, some, List, [], ◌∷◌,
  if◌then◌else◌,
}
use serverless_flux.Base.Result.{Result, ok, err}
use serverless_flux.Base.Action.{Action, proceed, ◌>>=◌, ◌>>◌, return, of_result, labelled}
use serverless_flux.Memory.{Bytes}
pub use Packages.*

pub record Pki (Cert Key : Type 0) : Type 0 where
  pub certs_dir : String
  pub ca_cert : Cert
  pub ca_key : Key
  pub ssh_public_key : Bytes

-- The files under the directory that outlive a run.
pub data PkiFile : Type 0 where
  ca_cert_file ca_key_file flux_cert_file flux_key_file ssh_private_file ssh_public_file : PkiFile

abbrev pub folder : PkiFile → String
folder ca_cert_file = "ca"
folder ca_key_file = "ca"
folder flux_cert_file = "flux"
folder flux_key_file = "flux"
folder ssh_private_file = "ssh"
folder ssh_public_file = "ssh"

abbrev pub file_name : PkiFile → String
file_name ca_cert_file = "ca.pem"
file_name ca_key_file = "ca-key.pem"
file_name flux_cert_file = "flux.pem"
file_name flux_key_file = "flux-key.pem"
file_name ssh_private_file = "flux-agent.pem"
file_name ssh_public_file = "flux-agent.pub"

abbrev pub minutes : ℕ → ℕ
minutes n = n * 60 * 1000000000

abbrev pub days : ℕ → ℕ
days n = n * 24 * 60 * 60 * 1000000000

unfoldable pub block_of : String → Option Bytes → Result Bytes
block_of p none = err ("no PEM block in " <> p)
block_of p (some der) = ok der

module _ {Serial Cert Key W : Type 0} (D : Disk W) (X : Crypto Serial Cert Key W) where
  -- `CACertPath` and its like
  abbrev pub path : String → PkiFile → String
  path dir f = D.join (dir ∷ folder f ∷ file_name f ∷ [])

  abbrev pub pem_encode_cert : Bytes → Bytes
  pem_encode_cert der = X.pem_encode "CERTIFICATE" der

  unfoldable pub write_file : String → Bytes → ℕ → Action W (Unit {0})
  write_file p bytes mode = labelled ("write " <> (p <> ": ")) (D.write_file p bytes mode)

  unfoldable pub write_ec_key : String → Key → Action W (Unit {0})
  unfolding write_file
  write_ec_key p key = do
    der ← of_result (X.marshal_key key)
    write_file p (X.pem_encode "EC PRIVATE KEY" der) 0o600

  unfoldable pub make_dir : String → Action W (Unit {0})
  make_dir dir = labelled ("mkdir " <> (dir <> ": ")) (D.mkdir_all dir 0o700)

  -- one half of `loadCA`: a PEM file and the parser of its block
  unfoldable pub load_block : {A : Type 0} → (Bytes → Result A) → String → Action W A
  unfolding block_of
  load_block parse p = do
    text ← λ w. (D.read_file p w, w)
    der ← of_result (block_of p (X.pem_decode text))
    of_result (parse der)

  unfoldable pub load_ca : String → Action W (Cert × Key)
  load_ca dir = do
    cert ← load_block X.parse_certificate (path dir ca_cert_file)
    key ← load_block X.parse_key (path dir ca_key_file)
    return (cert, key)

  abbrev pub ca_template : Serial → ℕ → Template Serial
  ca_template serial now = record {
    serial_number = serial;
    common_name = "flux-ca";
    dns_names = [];
    not_before = now - minutes 5;
    not_after = now + days 3650;
    key_usage = cert_sign ∷ crl_sign ∷ [];
    ext_key_usage = [];
    basic_constraints_valid = true;
    is_ca = true;
    max_path_len = 1;
  }

  -- the part of `initCA` that makes a new authority
  unfoldable pub create_ca : String → Action W (Cert × Key)
  unfolding make_dir
  create_ca dir = do
    make_dir (D.join (dir ∷ "ca" ∷ []))
    key ← X.generate_key
    serial ← X.random_serial
    der ← λ w. X.create_certificate (ca_template serial (X.clock w)) none key key w
    cert ← of_result (X.parse_certificate der)
    write_file (path dir ca_cert_file) (pem_encode_cert der) 0o644
    write_ec_key (path dir ca_key_file) key
    return (cert, key)

  unfoldable pub init_ca : String → Action W (Cert × Key)
  init_ca dir w =
      if D.exists (path dir ca_cert_file) w && D.exists (path dir ca_key_file) w
      then labelled "load existing CA: " (load_ca dir) w
      else create_ca dir w

  abbrev pub leaf_template : Serial → String → ℕ → ℕ → Template Serial
  leaf_template serial name now validity = record {
    serial_number = serial;
    common_name = name;
    dns_names = name ∷ [];
    not_before = now - minutes 5;
    not_after = now + validity;
    key_usage = digital_signature ∷ key_encipherment ∷ [];
    ext_key_usage = server_auth ∷ client_auth ∷ [];
    basic_constraints_valid = false;
    is_ca = false;
    max_path_len = 0;
  }

  -- a certificate and its key, as PEM; both calls give the name as the only DNS name
  unfoldable pub generate_leaf : Cert × Key → String → ℕ → Action W (Bytes × Bytes)
  generate_leaf (ca, ca_key) name validity = do
    key ← X.generate_key
    serial ← X.random_serial
    der ← λ w.
        X.create_certificate (leaf_template serial name (X.clock w) validity) (some ca) key ca_key w
    text ← of_result (X.marshal_key key)
    return (pem_encode_cert der, X.pem_encode "EC PRIVATE KEY" text)

  unfoldable pub create_flux_cert : String → Cert × Key → Action W (Unit {0})
  unfolding make_dir
  create_flux_cert dir ca = do
    make_dir (D.join (dir ∷ "flux" ∷ []))
    pair ← labelled "generate flux cert: " (generate_leaf ca "flux" (days 1825))
    write_file (path dir flux_cert_file) pair.0 0o644
    write_file (path dir flux_key_file) pair.1 0o600

  unfoldable pub init_flux_cert : String → Cert × Key → Action W (Unit {0})
  init_flux_cert dir ca w =
      if D.exists (path dir flux_cert_file) w && D.exists (path dir flux_key_file) w
      then (ok tt, w)
      else create_flux_cert dir ca w

  unfoldable pub create_ssh_key : String → Action W Bytes
  unfolding make_dir
  create_ssh_key dir = do
    make_dir (D.join (dir ∷ "ssh" ∷ []))
    key ← X.generate_key
    write_ec_key (path dir ssh_private_file) key
    public ← labelled "convert to SSH public key: " (of_result (X.ssh_public_key key))
    write_file (path dir ssh_public_file) public 0o644
    return public

  unfoldable pub init_ssh_key : String → Action W Bytes
  init_ssh_key dir w =
      if D.exists (path dir ssh_private_file) w && D.exists (path dir ssh_public_file) w
      then labelled "read SSH public key: " (λ v. (D.read_file (path dir ssh_public_file) v, v)) w
      else create_ssh_key dir w

  -- `New`, from the absolute path of the directory on
  unfoldable pub init_all : String → Action W (Pki Cert Key)
  init_all dir = do
    ca ← init_ca dir
    init_flux_cert dir ca
    public ← init_ssh_key dir
    return (record { certs_dir = dir; ca_cert = ca.0; ca_key = ca.1; ssh_public_key = public })

  unfoldable pub new_pki : String → Action W (Pki Cert Key)
  new_pki certs_dir = do
    dir ← labelled "resolve certs_dir: " (of_result (D.abs certs_dir))
    init_all dir

  -- the certificate, its key and that of the authority, as PEM
  unfoldable pub mint_agent_cert : Pki Cert Key → String → Action W (Bytes × Bytes × Bytes)
  unfolding make_dir
  mint_agent_cert p agent_id = do
    let dir = D.join (p.certs_dir ∷ "agents" ∷ agent_id ∷ [])
    make_dir dir
    pair ←
        labelled "generate agent cert: "
          (generate_leaf (p.ca_cert, p.ca_key) "flux-agent" (days 365))
    write_file (D.join (dir ∷ "agent.pem" ∷ [])) pair.0 0o644
    write_file (D.join (dir ∷ "agent-key.pem" ∷ [])) pair.1 0o600
    return (pair.0, pair.1, pem_encode_cert (X.raw p.ca_cert))
