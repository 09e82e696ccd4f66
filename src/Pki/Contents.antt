-- ===== src/Pki/Contents.antt =====
-- What the files of pkg/pki/pki.go hold once they are there, and what is read back from them.
use serverless_flux.Base.{String, ◌≡◌, refl, ap, ◌∙◌, Bool, true, false, ◌&&◌, Option, none, some}
use serverless_flux.Base.Result.{Result, ok}
use serverless_flux.Base.Ensures.{Ensures, proceed-Ensures, Ensures_of}
use serverless_flux.Memory.{Bytes}
use serverless_flux.Api.Reply.{is_some}
use serverless_flux.Pki.{
  Disk, Crypto, PkiFile, ca_cert_file, ca_key_file, flux_cert_file, flux_key_file, ssh_private_file,
  ssh_public_file, path, block_of, load_block, load_ca, init_ca, init_flux_cert, init_ssh_key,
}
use serverless_flux.Pki.Files.{DiskLaws}

some_of : (o : Option Bytes) (b : Bool) → b ≡ is_some o → b ≡ true → (t : Bytes) × (o ≡ some t)
some_of none b e h = cc
some_of (some t) b e h = (t, refl)

both : (a b : Bool) → (a && b) ≡ true → (a ≡ true) × (b ≡ true)
both true b h = (refl, h)
both false b h = cc

block_of-eq : (p : String) (o : Option Bytes) (der : Bytes) → block_of p o ≡ ok der → o ≡ some der
unfolding block_of
block_of-eq p none der h = cc
block_of-eq p (some t) der h = cc

module _ {Serial Cert Key W : Type 0} (D : Disk W) (X : Crypto Serial Cert Key W)
    (file : W → String → Option Bytes) (L : DiskLaws D file) (dir : String) where
  -- the file holds a block that the parser reads as the value
  abbrev pub HasBlock : {A : Type 0} → (Bytes → Result A) → PkiFile → A → W → Type 0
  HasBlock parse f a w =
      (t : Bytes) × (der : Bytes) × (file w (path D X dir f) ≡ some t)
      × (X.pem_decode t ≡ some der)
      × (parse der ≡ ok a)

  abbrev pub Has : PkiFile → W → Type 0
  Has f w = (t : Bytes) × (file w (path D X dir f) ≡ some t)

  abbrev pub HasCa : Cert × Key → W → Type 0
  HasCa (cert, key) w =
      HasBlock X.parse_certificate ca_cert_file cert w × HasBlock X.parse_key ca_key_file key w

  abbrev pub HasFlux : W → Type 0
  HasFlux w = Has flux_cert_file w × Has flux_key_file w

  abbrev pub HasSsh : Bytes → W → Type 0
  HasSsh public w = Has ssh_private_file w × (file w (path D X dir ssh_public_file) ≡ some public)

  pub Has-exists : (f : PkiFile) (w : W) → Has f w → D.exists (path D X dir f) w ≡ true
  Has-exists f w (t, h) = L.exists_eq (path D X dir f) w ∙ ap is_some h

  pub exists-Has : (f : PkiFile) (w : W) → D.exists (path D X dir f) w ≡ true → Has f w
  exists-Has f w h =
      some_of (file w (path D X dir f)) (D.exists (path D X dir f) w)
        (L.exists_eq (path D X dir f) w) h

  abbrev pub present : PkiFile → PkiFile → W → Bool
  present f g w = D.exists (path D X dir f) w && D.exists (path D X dir g) w

  pub present-Has : (f g : PkiFile) (w : W) → present f g w ≡ true → Has f w × Has g w
  present-Has f g w h =
      let h' = both (D.exists (path D X dir f) w) (D.exists (path D X dir g) w) h in
      (exists-Has f w h'.0, exists-Has g w h'.1)

  pub load_block-again :
      {A : Type 0} (parse : Bytes → Result A) (f : PkiFile) (a : A) (w : W)
      → HasBlock parse f a w
      → load_block D X parse (path D X dir f) w ≡ (ok a, w)
  unfolding load_block
  load_block-again parse f a w (t, der, h, e, p) = rw (L.read_some (path D X dir f) w t h, e, p)

  pub load_ca-again : (ca : Cert × Key) (w : W) → HasCa ca w → load_ca D X dir w ≡ (ok ca, w)
  unfolding load_ca
  load_ca-again (cert, key) w (c, k) = rw (
    load_block-again X.parse_certificate ca_cert_file cert w c,
    load_block-again X.parse_key ca_key_file key w k,
  )

  pub init_ca-again : (ca : Cert × Key) (w : W) → HasCa ca w → init_ca D X dir w ≡ (ok ca, w)
  unfolding init_ca
  init_ca-again (cert, key) w (c, k) = rw (
    Has-exists ca_cert_file w (c.0, c.2),
    Has-exists ca_key_file w (k.0, k.2),
    load_ca-again (cert, key) w (c, k),
  )

  pub init_flux-again :
      (ca : Cert × Key) (w : W) → HasFlux w → init_flux_cert D X dir ca w ≡ (ok tt, w)
  unfolding init_flux_cert
  init_flux-again ca w (c, k) = rw (Has-exists flux_cert_file w c, Has-exists flux_key_file w k)

  pub init_ssh-again :
      (public : Bytes) (w : W) → HasSsh public w → init_ssh_key D X dir w ≡ (ok public, w)
  unfolding init_ssh_key
  init_ssh-again public w (p, h) = rw (
    Has-exists ssh_private_file w p,
    Has-exists ssh_public_file w (public, h),
    L.read_some _ w public h,
  )

  pub load_block-HasBlock :
      {A : Type 0} (parse : Bytes → Result A) (f : PkiFile) (w : W)
      → Ensures (λ a v. HasBlock parse f a w × (v ≡ w)) (load_block D X parse (path D X dir f) w)
  unfolding load_block
  load_block-HasBlock {A} parse f w =
      proceed-Ensures (λ t v. (D.read_file p w ≡ ok t) × (v ≡ w)) P _ (D.read_file p w, w)
        (Ensures_of (λ t v. (D.read_file p w ≡ ok t) × (v ≡ w)) (D.read_file p w, w)
          (λ t e. (e, refl)))
        (λ t v (e, q).
          proceed-Ensures (λ der u. (X.pem_decode t ≡ some der) × (u ≡ w)) P _
            (block_of p (X.pem_decode t), v)
            (Ensures_of (λ der u. (X.pem_decode t ≡ some der) × (u ≡ w))
              (block_of p (X.pem_decode t), v) (λ der h. (block_of-eq p (X.pem_decode t) der h, q)))
            (λ der u (h, q').
              Ensures_of P (parse der, u) (λ a g. ((t, der, L.read_ok p w t e, h, g), q'))))
    where
      p : String
      p = path D X dir f

      P : A → W → Type 0
      P a v = HasBlock parse f a w × (v ≡ w)
