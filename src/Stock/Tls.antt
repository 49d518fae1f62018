-- ===== src/Stock/Tls.antt =====
-- stock/tls.go: the certificates of a web server. Pools of authorities are shared by pointer: a pool is
-- a place in the list of the pools that were made, which holds the PEM data that each was given.
use restconf.Prelude.{
  ℕ, zero, suc, Bool, true, false, Option, none, some, List, [], ◌∷◌, ◌++◌, ◌≡◌, refl, get_elem?,
  length, if◌then◌else◌,
}
use restconf.Text.{Bytes, codes, beq}
use restconf.Errors.{Error, Result, ok, err, Run, panicked, ret}

-- A certificate with its key; `none` is the zero value.
pub record Tls (Cert : Type 0) : Type 0 where
  pub root_cas : Option ℕ
  pub client_cas : Option ℕ
  pub verify_client_cert_if_given : Bool
  pub certificates : List (Option Cert)
  pub cert_file : Bytes
  pub key_file : Bytes
  pub ca_cert_file : Bytes
  pub pools : List (List Bytes)

-- The child that TlsNode answers with; `base_child` leaves it to the base.
pub data TlsChild : Type 0 where
  certificate_authority certificate base_child : TlsChild

ca_if_any : Option ℕ → TlsChild
ca_if_any none = base_child
ca_if_any (some _) = certificate_authority

append_at : ℕ → Bytes → List (List Bytes) → List (List Bytes)
append_at n pem [] = []
append_at zero pem (pool ∷ pools) = (pool ++ pem ∷ []) ∷ pools
append_at (suc n) pem (pool ∷ pools) = pool ∷ append_at n pem pools

get_elem?-append_at :
    (pools : List (List Bytes)) (pem : Bytes)
    → get_elem? (append_at (length pools) pem (pools ++ [] ∷ [])) (length pools) ≡ some (pem ∷ [])
unfolding append_at
get_elem?-append_at [] pem = refl
get_elem?-append_at (pool ∷ pools) pem = get_elem?-append_at pools pem

module _ {Cert : Type 0} where
  unfoldable pub new_tls : Tls Cert
  new_tls = record {
    root_cas = none;
    client_cas = none;
    verify_client_cert_if_given = false;
    certificates = [];
    cert_file = [];
    key_file = [];
    ca_cert_file = [];
    pools = [];
  }

  new_ca : Tls Cert → Tls Cert
  new_ca config = record config {
    root_cas = some (length config.pools);
    client_cas = some (length config.pools);
    verify_client_cert_if_given = true;
    pools = config.pools ++ [] ∷ [];
  }

  cert_if_any : List (Option Cert) → TlsChild
  cert_if_any [] = base_child
  cert_if_any (_ ∷ _) = certificate

  -- OnChild of TlsNode
  unfoldable pub tls_child : Bytes → (new : Bool) → Tls Cert → TlsChild × Tls Cert
  unfolding new_ca ca_if_any cert_if_any
  tls_child ident new config =
      if beq ident (codes "ca")
      then (let config' = if new then new_ca config else config in
          (ca_if_any config'.root_cas, config'))
      else if beq ident (codes "cert")
      then (let config' = if new then record config { certificates = none ∷ [] } else config in
          (cert_if_any config'.certificates, config'))
      else (base_child, config)

  -- RootCAs.AppendCertsFromPEM; without a pool, where TlsNode does not hand out the node, a panic
  appended : Option ℕ → Bytes → Tls Cert → Run (Option Error × Tls Cert)
  unfolding append_at
  appended none pem config = panicked
  appended (some n) pem config = ret (none, record config { pools = append_at n pem config.pools })

  with_pem : Result Bytes → Tls Cert → Run (Option Error × Tls Cert)
  unfolding appended
  with_pem (err e) config = ret (some e, config)
  with_pem (ok pem) config = appended config.root_cas pem config

  -- OnField of CertificateAuthorityNode, writing certFile; `read_file` is os.ReadFile
  unfoldable pub write_ca_cert_file :
      (read_file : Bytes → Result Bytes) → Bytes → Tls Cert → Run (Option Error × Tls Cert)
  unfolding with_pem
  write_ca_cert_file read_file name config =
      with_pem (read_file name) (record config { ca_cert_file = name })

  -- OnField of CertificateAuthorityNode, reading
  unfoldable pub ca_field : Bytes → Tls Cert → Option Bytes
  ca_field ident config = if beq ident (codes "certFile") then some config.ca_cert_file else none

  -- OnField of CertificateNode, writing
  unfoldable pub write_cert_field : Bytes → Bytes → Tls Cert → Tls Cert
  write_cert_field ident name config =
      if beq ident (codes "certFile")
      then record config { cert_file = name }
      else if beq ident (codes "keyFile")
      then record config { key_file = name }
      else config

  -- OnField of CertificateNode, reading
  unfoldable pub cert_field : Bytes → Tls Cert → Option Bytes
  cert_field ident config =
      if beq ident (codes "certFile")
      then some config.cert_file
      else if beq ident (codes "keyFile")
      then some config.key_file
      else none

  -- both are assigned: on an error the zero certificate
  first_certificate : Result Cert → List (Option Cert) → Tls Cert → Run (Option Error × Tls Cert)
  first_certificate loaded [] config = panicked
  first_certificate (err e) (_ ∷ cs) config =
      ret (some e, record config { certificates = none ∷ cs })
  first_certificate (ok c) (_ ∷ cs) config =
      ret (none, record config { certificates = some c ∷ cs })

  -- OnEndEdit of CertificateNode; `load_key_pair` is tls.LoadX509KeyPair
  unfoldable pub end_edit_cert :
      (load_key_pair : (cert_file key_file : Bytes) → Result Cert)
      → (new : Bool) → Tls Cert
      → Run (Option Error × Tls Cert)
  unfolding first_certificate
  end_edit_cert load_key_pair new config =
      if new
      then first_certificate (load_key_pair config.cert_file config.key_file) config.certificates
          config
      else ret (none, config)

  -- Making a certificate authority and giving it a file that can be read leaves one pool, which holds
  -- that file alone, for checking servers and for checking clients; a client's certificate is checked
  -- if it has one.
  write_ca_cert_file_lem :
      (read_file : Bytes → Result Bytes) (name : Bytes) (config : Tls Cert) (pem : Bytes)
      → read_file name ≡ ok pem
      → let made = (tls_child (codes "ca") true config).1 in
        (after : Tls Cert) × (pool : ℕ) × (write_ca_cert_file read_file name made
          ≡ ret (none, after))
        × (after.root_cas ≡ some pool)
        × (after.client_cas ≡ some pool)
        × (get_elem? after.pools pool ≡ some (pem ∷ []))
        × (after.verify_client_cert_if_given ≡ true)
  unfolding tls_child new_ca write_ca_cert_file beq
  write_ca_cert_file_lem read_file name config pem r = (
    record (new_ca config) {
      ca_cert_file = name;
      pools = append_at (length config.pools) pem (config.pools ++ [] ∷ []);
    },
    length config.pools,
    rw r refl,
    refl,
    refl,
    get_elem?-append_at config.pools pem,
    refl,
  )
