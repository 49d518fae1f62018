-- ===== src/Secure/Generator.antt =====
-- secure/cred_gen.go: certificates of an authority, and certificates under it. Keys, times and the
-- encodings of packages rsa, x509 and pem are parameters; a private key carries its public key.
use restconf.Prelude.{ℕ, Bool, true, false, Option, some, List, [], ◌∷◌, ◌≡◌, ◌≢◌, refl, ap}
use restconf.Text.{Bytes, codes}
use restconf.Errors.{Result, ok, err}

pub record Generator : Type 0 where
  pub country : Bytes
  pub organization : Bytes

pub data ExtKeyUsage : Type 0 where
  server_auth client_auth : ExtKeyUsage

-- What the program sets of an x509.Certificate. `not_after` is not_before.AddDate(5, 0, 0).
pub record Certificate : Type 0 where
  pub basic_constraints_valid : Bool
  pub is_ca : Bool
  pub subject_key_id : List ℕ
  pub serial_number : ℕ
  pub country : List Bytes
  pub organization : List Bytes
  pub not_before : ℕ
  pub not_after : ℕ
  pub key_encipherment : Bool
  pub digital_signature : Bool
  pub cert_sign : Bool
  pub ext_key_usage : List ExtKeyUsage

-- `generate_key` is rsa.GenerateKey, `public` the public key of a private one, and `create` is
-- x509.CreateCertificate of a template, its parent, the key that it certifies and the key that signs.
-- `five_years` is AddDate. Each call of time.Now is the same time here.
pub record Crypto (Key PublicKey St : Type 0) : Type 0 where
  pub generate_key : St → Result Key × St
  pub public : Key → PublicKey
  pub create : (template parent : Certificate) → PublicKey → (signer : Key) → St → Result Bytes × St
  pub marshal : Key → Bytes
  pub pem_encode : (block_type raw : Bytes) → Bytes
  pub five_years : ℕ → ℕ

pub record Cert (Key : Type 0) : Type 0 where
  pub private_key : Key
  pub cert : Certificate
  pub raw : Bytes

module _ {Key PublicKey St : Type 0} (crypto : Crypto Key PublicKey St) (now : ℕ) where
  unfoldable pub template : Generator → Certificate
  template g = record {
    basic_constraints_valid = true;
    is_ca = false;
    subject_key_id = 1 ∷ 2 ∷ 3 ∷ [];
    serial_number = 1234;
    country = g.country ∷ [];
    organization = g.organization ∷ [];
    not_before = now;
    not_after = crypto.five_years now;
    key_encipherment = true;
    digital_signature = true;
    cert_sign = false;
    ext_key_usage = server_auth ∷ [];
  }

  created : Certificate → Key → Result Bytes × St → Result (Cert Key) × St
  created t key (err e, s) = (err e, s)
  created t key (ok raw, s) = (ok (record { private_key = key; cert = t; raw = raw }), s)

  -- `self` where the template is its own parent
  signed : Certificate → Certificate → Result Key × St → Result (Cert Key) × St
  unfolding created
  signed t parent (err e, s) = (err e, s)
  signed t parent (ok key, s) = created t key (crypto.create t parent (crypto.public key) key s)

  -- CA
  unfoldable pub ca : Generator → St → Result (Cert Key) × St
  unfolding signed template
  ca g s =
      let t = record (template g) { is_ca = true; cert_sign = true } in
      signed t t (crypto.generate_key s)

  -- Cert: the key that signs is the new one
  unfoldable pub new_cert : Generator → Cert Key → St → Result (Cert Key) × St
  unfolding signed template
  new_cert g parent s =
      let t = record (template g) { ext_key_usage = server_auth ∷ client_auth ∷ [] } in
      signed t parent.cert (crypto.generate_key s)

  -- EncodeCert and EncodeKey, as what they write
  unfoldable pub encode_cert : Cert Key → Bytes
  encode_cert c = crypto.pem_encode (codes "CERTIFICATE") c.raw

  unfoldable pub encode_key : Cert Key → Bytes
  encode_key c = crypto.pem_encode (codes "RSA PRIVATE KEY") (crypto.marshal c.private_key)

  -- A certificate that is made under an authority is signed with its own key, and so not with the
  -- authority's, if the two differ; and it has the serial number that the generator gives every
  -- certificate. `signer_of` is the key that a certificate is signed with.
  new_cert_self_signed :
      (signer_of : Bytes → Option Key)
      → ((t parent : Certificate) (p : PublicKey) (k : Key) (s : St) (raw : Bytes)
          → (crypto.create t parent p k s).0 ≡ ok raw
          → signer_of raw ≡ some k)
      → (g : Generator) (parent : Cert Key) (key : Key) (raw : Bytes) (s s1 s2 : St)
      → crypto.generate_key s ≡ (ok key, s1)
      → crypto.create
          (record (template g) { ext_key_usage = server_auth ∷ client_auth ∷ [] })
          parent.cert
          (crypto.public key)
          key
          s1
        ≡ (ok raw, s2)
      → key ≢ parent.private_key
      → (c : Cert Key) × (new_cert g parent s ≡ (ok c, s2))
        × (signer_of c.raw ≡ some c.private_key)
        × (signer_of c.raw ≢ some parent.private_key)
        × (c.cert.serial_number ≡ (template g).serial_number)
  unfolding new_cert
  new_cert_self_signed signer_of documented g parent key raw s s1 s2 generated made fresh =
      let t = record (template g) { ext_key_usage = server_auth ∷ client_auth ∷ [] } in
      let by : signer_of raw ≡ some key =
        documented t parent.cert (crypto.public key) key s1 raw
          (ap (λ (x : Result Bytes × St). x.0) made) in
      (
        record { private_key = key; cert = t; raw = raw },
        rw (generated, made) refl,
        by,
        λ q. fresh (cc (by, q)),
        refl,
      )
