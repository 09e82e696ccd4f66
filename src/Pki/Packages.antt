-- ===== src/Pki/Packages.antt =====
-- What pkg/pki/pki.go takes from packages: the file system and the cryptography.
use serverless_flux.Base.{ℕ, String, Bool, Option, List}
use serverless_flux.Base.Result.{Result}
use serverless_flux.Base.Action.{Action}
use serverless_flux.Memory.{Bytes}

-- The file system: `filepath`, and what `os` does to the files of the world. A mode is a number.
pub record Disk (W : Type 0) : Type 0 where
  pub abs : String → Result String
  pub join : List String → String
  pub exists : String → W → Bool
  pub read_file : String → W → Result Bytes
  pub mkdir_all : String → ℕ → Action W (Unit {0})
  pub write_file : String → Bytes → ℕ → Action W (Unit {0})

pub data KeyUsage : Type 0 where
  cert_sign crl_sign digital_signature key_encipherment : KeyUsage

pub data ExtKeyUsage : Type 0 where
  server_auth client_auth : ExtKeyUsage

-- The fields of `x509.Certificate` that the program sets; instants are in nanoseconds.
pub record Template (Serial : Type 0) : Type 0 where
  pub serial_number : Serial
  pub common_name : String
  pub dns_names : List String
  pub not_before : ℕ
  pub not_after : ℕ
  pub key_usage : List KeyUsage
  pub ext_key_usage : List ExtKeyUsage
  pub basic_constraints_valid : Bool
  pub is_ca : Bool
  pub max_path_len : ℕ

-- `crypto`, `encoding/pem` and `x/crypto/ssh`. The parent of a certificate that signs itself is
-- its own template.
pub record Crypto (Serial Cert Key W : Type 0) : Type 0 where
  pub generate_key : Action W Key
  pub random_serial : Action W Serial
  pub create_certificate : Template Serial → Option Cert → Key → Key → Action W Bytes
  pub parse_certificate : Bytes → Result Cert
  pub raw : Cert → Bytes
  pub marshal_key : Key → Result Bytes
  pub parse_key : Bytes → Result Key
  pub pem_encode : String → Bytes → Bytes
  pub pem_decode : Bytes → Option Bytes
  pub ssh_public_key : Key → Result Bytes
  pub clock : W → ℕ
