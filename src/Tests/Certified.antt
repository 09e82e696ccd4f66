-- ===== src/Tests/Certified.antt =====
-- The theorem on the PKI at a disk held in a list and cryptography on plain text.
use serverless_flux.Base.{
  ℕ, ◌+◌, String, ◌<>◌, ◌≡◌, refl, false, Option, none, some, List, [], ◌∷◌, ◌==◌, eqb, eq_refl,
}
use serverless_flux.Base.Dict
use serverless_flux.Base.Dict.{Dict, get-put}
use serverless_flux.Base.Result.{Result, ok, err}
use serverless_flux.Memory.{Bytes}
use serverless_flux.Api.Reply.{is_some}
use serverless_flux.Pki.{
  Disk, Crypto, Pki, PkiFile, ca_cert_file, ca_key_file, flux_cert_file, flux_key_file,
  ssh_private_file, ssh_public_file, path, new_pki, init_all, init_ca, create_ca, init_flux_cert,
  create_flux_cert, init_ssh_key, create_ssh_key, generate_leaf, make_dir, write_file, write_ec_key,
}
use serverless_flux.Pki.Files.{DiskLaws, CryptoLaws, index}
use serverless_flux.Pki.Reload.{new_pki-again}

-- The files, how many keys and serial numbers were made, and the time.
pub record Machine : Type 0 where
  pub files : Dict Bytes
  pub made : ℕ
  pub now : ℕ

pub joined : List String → String
joined [] = ""
joined (s ∷ []) = s
joined (s ∷ t ∷ r) = s <> ("/" <> joined (t ∷ r))

pub found : Option Bytes → Result Bytes
found none = err "no such file"
found (some b) = ok b

abbrev file : Machine → String → Option Bytes
file w p = Dict.get p w.files

abbrev pub disk : Disk Machine
disk = record {
  abs = ok;
  join = joined;
  exists = λ p w. is_some (Dict.get p w.files);
  read_file = λ p w. found (Dict.get p w.files);
  mkdir_all = λ p m w. (ok tt, w);
  write_file = λ p b m w. (ok tt, record w { files = Dict.put p b w.files });
}

abbrev pub crypto : Crypto ℕ Bytes Bytes Machine
crypto = record {
  generate_key = λ w. (ok "key", record w { made = w.made + 1 });
  random_serial = λ w. (ok w.made, record w { made = w.made + 1 });
  create_certificate = λ t parent key signer w. (ok t.common_name, w);
  parse_certificate = ok;
  raw = λ c. c;
  marshal_key = ok;
  parse_key = ok;
  pem_encode = λ k b. b;
  pem_decode = some;
  ssh_public_key = λ k. ok ("ssh-" <> k);
  clock = λ w. w.now;
}

found-eq-ok : (o : Option Bytes) (b : Bytes) → found o ≡ ok b → o ≡ some b
unfolding found
found-eq-ok none b h = cc
found-eq-ok (some c) b h = cc

disk_laws : DiskLaws disk file
unfolding found
disk_laws = record {
  exists_eq = λ p w. refl;
  read_some = λ p w b h. rw h;
  read_ok = λ p w b h. found-eq-ok (Dict.get p w.files) b h;
  mkdir_same = λ p m w q. refl;
  write_ok = λ p b m w h. rw (get-put p p b w.files, eq_refl p);
  write_other = λ p b m w q h. rw (get-put p q b w.files, h);
}

crypto_laws : CryptoLaws crypto file
crypto_laws = record {
  generate_same = λ w q. refl;
  serial_same = λ w q. refl;
  create_same = λ t parent key signer w q. refl;
  pem_back = λ k b. refl;
  key_back = λ k b h. cc;
}

apart :
    (f g : PkiFile)
    → eqb (index f) (index g) ≡ false
    → (path disk crypto "/certs" f == path disk crypto "/certs" g) ≡ false
unfolding joined
apart ca_cert_file ca_cert_file h = cc
apart ca_cert_file ca_key_file h = refl
apart ca_cert_file flux_cert_file h = refl
apart ca_cert_file flux_key_file h = refl
apart ca_cert_file ssh_private_file h = refl
apart ca_cert_file ssh_public_file h = refl
apart ca_key_file ca_cert_file h = refl
apart ca_key_file ca_key_file h = cc
apart ca_key_file flux_cert_file h = refl
apart ca_key_file flux_key_file h = refl
apart ca_key_file ssh_private_file h = refl
apart ca_key_file ssh_public_file h = refl
apart flux_cert_file ca_cert_file h = refl
apart flux_cert_file ca_key_file h = refl
apart flux_cert_file flux_cert_file h = cc
apart flux_cert_file flux_key_file h = refl
apart flux_cert_file ssh_private_file h = refl
apart flux_cert_file ssh_public_file h = refl
apart flux_key_file ca_cert_file h = refl
apart flux_key_file ca_key_file h = refl
apart flux_key_file flux_cert_file h = refl
apart flux_key_file flux_key_file h = cc
apart flux_key_file ssh_private_file h = refl
apart flux_key_file ssh_public_file h = refl
apart ssh_private_file ca_cert_file h = refl
apart ssh_private_file ca_key_file h = refl
apart ssh_private_file flux_cert_file h = refl
apart ssh_private_file flux_key_file h = refl
apart ssh_private_file ssh_private_file h = cc
apart ssh_private_file ssh_public_file h = refl
apart ssh_public_file ca_cert_file h = refl
apart ssh_public_file ca_key_file h = refl
apart ssh_public_file flux_cert_file h = refl
apart ssh_public_file flux_key_file h = refl
apart ssh_public_file ssh_private_file h = refl
apart ssh_public_file ssh_public_file h = cc

abbrev pub blank : Machine
blank = record { files = []; made = 0; now = 0 }

prepared : Result (Pki Bytes Bytes) × Machine
prepared = new_pki disk crypto "/certs" blank

abbrev pub prepared_pki : Pki Bytes Bytes
prepared_pki = record {
  certs_dir = "/certs";
  ca_cert = "flux-ca";
  ca_key = "key";
  ssh_public_key = "ssh-key";
}

prepared_ok : new_pki disk crypto "/certs" blank ≡ (ok prepared_pki, prepared.1)
unfolding prepared new_pki init_all init_ca create_ca init_flux_cert create_flux_cert init_ssh_key
    create_ssh_key generate_leaf make_dir write_file write_ec_key joined Dict.get Dict.put
prepared_ok = refl

new_pki-again_example : new_pki disk crypto "/certs" prepared.1 ≡ (ok prepared_pki, prepared.1)
new_pki-again_example =
    new_pki-again disk crypto file disk_laws crypto_laws "/certs" apart "/certs" blank prepared_pki
      prepared.1 refl prepared_ok
