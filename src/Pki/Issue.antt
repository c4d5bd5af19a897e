-- ===== src/Pki/Issue.antt =====
-- pki/pki.go: certificates that are issued. crypto/x509 is the parameter `X509`; a time is its count of nanoseconds, a
-- count of days is not negative, and an address or a URI is its text.
pub mod Returning
pub mod Samples
use jopa.Common.{ℕ, String, Bool, true, false, Option, none, some, List, [], ◌∷◌, ◌++◌}
use jopa.Common.Outcome.{Outcome, ok, err, panic, ◌>>=◌}
use jopa.Pki.{
  Failure, Key, PrivateKey, Crypto, Algorithm, certificate_block_type, block_of,
  gen_cert_private_key, encode_cert_private_key, parse_cert_private_key, parse_certificates,
  sig_algorithm_type,
}

pub record CertPem : Type 0 where
  pub crt : List ℕ
  pub key : List ℕ

-- `pkix.Name`
pub record Subject : Type 0 where
  pub country : List String
  pub organization : List String
  pub organizational_unit : List String
  pub locality : List String
  pub province : List String
  pub street_address : List String
  pub postal_code : List String
  pub common_name : String

-- `x509.CertificateRequest`
pub record Request : Type 0 where
  pub subject : Subject
  pub dns_names : List String
  pub email_addresses : List String
  pub ip_addresses : List String
  pub uris : List String

pub data KeyUsage : Type 0 where
  digital_signature key_encipherment cert_sign crl_sign : KeyUsage

pub data ExtKeyUsage : Type 0 where
  client_auth server_auth : ExtKeyUsage

-- `x509.Certificate`, the template.
pub record Template : Type 0 where
  pub is_ca : Bool
  pub subject : Subject
  pub serial_number : ℕ
  pub not_before : ℕ
  pub not_after : ℕ
  pub email_addresses : List String
  pub ip_addresses : List String
  pub uris : List String
  pub dns_names : List String
  pub basic_constraints_valid : Bool
  pub signature_algorithm : Algorithm
  pub key_usage : List KeyUsage
  pub ext_key_usage : List ExtKeyUsage

-- The parent of a certificate: the template itself, or a certificate.
pub data Parent (C : Type 0) : Type 0 where
  itself : Parent C
  issuer : C → Parent C

-- `add_days t n` is `t.AddDate(0, 0, n)`; a request is parsed to what it asks for and its public key.
pub record X509 (R E C P : Type 0) : Type 0 where
  pub create_request : Request → Key R E → Outcome Failure (List ℕ)
  pub parse_request : List ℕ → Outcome Failure (Request × P)
  pub create_certificate : Template → Parent C → P → Key R E → Outcome Failure (List ℕ)
  pub add_days : ℕ → ℕ → ℕ

-- The two readings of the clock.
pub record Clock : Type 0 where
  pub begin : ℕ
  pub now : ℕ

abbrev pub default_dsa : String
default_dsa = "P256"

abbrev pub default_rsa_bits : ℕ
default_rsa_bits = 2048

module _ {R E C P : Type 0} (c : Crypto R E C) (x : X509 R E C P) where
  -- A nil pointer panics.
  abbrev pub given : Option CertPem → Outcome Failure CertPem
  given none = panic
  given (some pem) = ok pem

  abbrev pub all_certs : List C × Option Failure → Outcome Failure (List C)
  all_certs (certs, some e) = err e
  all_certs (certs, none) = ok certs

  -- `caCert[0]`
  abbrev pub first : List C → Outcome Failure C
  first [] = panic
  first (cert ∷ certs) = ok cert

  -- `EncodeCertificates` of the template alone, whose `Raw` is now the certificate.
  abbrev pub encode_issued : List ℕ → List ℕ
  encode_issued cert = c.encode (block_of c certificate_block_type cert) ++ []

  abbrev pub sub_template : Request → ℕ → Clock → Algorithm → Template
  sub_template info days clock algorithm = record {
    is_ca = false;
    serial_number = clock.now;
    subject = info.subject;
    not_before = clock.begin;
    not_after = x.add_days clock.begin days;
    email_addresses = info.email_addresses;
    ip_addresses = info.ip_addresses;
    uris = info.uris;
    dns_names = info.dns_names;
    basic_constraints_valid = true;
    signature_algorithm = algorithm;
    key_usage = digital_signature ∷ key_encipherment ∷ [];
    ext_key_usage = client_auth ∷ server_auth ∷ [];
  }

  abbrev pub root_template : Request → ℕ → Clock → Algorithm → Template
  root_template info days clock algorithm = record {
    is_ca = true;
    subject = info.subject;
    serial_number = clock.now;
    not_before = clock.begin;
    not_after = x.add_days clock.begin days;
    email_addresses = info.email_addresses;
    ip_addresses = info.ip_addresses;
    uris = info.uris;
    dns_names = info.dns_names;
    basic_constraints_valid = true;
    signature_algorithm = algorithm;
    key_usage = digital_signature ∷ cert_sign ∷ crl_sign ∷ [];
    ext_key_usage = [];
  }

  -- The certificate of a request, by the key and the certificates of the parent.
  unfoldable pub sign_request :
      PrivateKey R E → List C → ℕ → Clock → Request × P → Outcome Failure (List ℕ)
  sign_request ca_key ca_certs days clock (info, public) =
      sig_algorithm_type c ca_key >>= λ algorithm. first ca_certs >>= λ ca.
      x.create_certificate (sub_template info days clock algorithm) (issuer ca) public ca_key.key
      >>= λ cert. ok (encode_issued cert)

  -- `CreateSubCert`
  unfoldable pub create_sub_cert : List ℕ → ℕ → Option CertPem → Clock → Outcome Failure (List ℕ)
  unfolding sign_request
  create_sub_cert csr days parent clock = given parent >>= λ pem.
      parse_cert_private_key c pem.key >>= λ ca_key.
      all_certs (parse_certificates c pem.crt) >>= λ ca_certs.
      x.parse_request csr >>= λ request. sign_request ca_key ca_certs days clock request

  -- A new key, its encoding and a request for it, with which both functions that follow begin.
  unfoldable pub new_request : Request → Outcome Failure (PrivateKey R E × List ℕ × List ℕ)
  new_request info = gen_cert_private_key c default_dsa default_rsa_bits >>= λ priv.
      encode_cert_private_key c priv >>= λ priv_byte.
      x.create_request info priv.key >>= λ csr. ok (priv, priv_byte, csr)

  -- `CreateSubCertWithKey`
  unfoldable pub create_sub_cert_with_key :
      Request → ℕ → Option CertPem → Clock → Outcome Failure CertPem
  unfolding new_request create_sub_cert
  create_sub_cert_with_key info days parent clock = new_request info >>= λ (priv, priv_byte, csr).
      create_sub_cert csr days parent clock >>= λ crt. ok (record { crt = crt; key = priv_byte })

  -- The key that signs, its algorithm and the parent.
  unfoldable pub root_signer :
      Bool
      → PrivateKey R E
      → Option CertPem
      → Outcome Failure (PrivateKey R E × Algorithm × Parent C)
  root_signer true priv parent =
      sig_algorithm_type c priv >>= λ algorithm. ok (priv, algorithm, itself)
  root_signer false priv parent = given parent >>= λ pem.
      parse_cert_private_key c pem.key >>= λ ca_key. sig_algorithm_type c ca_key >>= λ algorithm.
      all_certs (parse_certificates c pem.crt) >>= λ ca_certs.
      first ca_certs >>= λ ca. ok (ca_key, algorithm, issuer ca)

  -- `createRootCert`
  unfoldable pub issue_root_cert :
      Bool → Request → ℕ → Option CertPem → Clock → Outcome Failure CertPem
  unfolding new_request root_signer
  issue_root_cert is_self_signed info days parent clock =
      new_request info >>= λ (priv, priv_byte, csr). x.parse_request csr >>= λ (csr_info, public).
      root_signer is_self_signed priv parent >>= λ (ca_key, algorithm, ca).
      x.create_certificate (root_template info days clock algorithm) ca public ca_key.key
      >>= λ cert. ok (record { crt = encode_issued cert; key = priv_byte })

  -- `CreateSelfSignedRootCert`
  unfoldable pub create_self_signed_root_cert : Request → ℕ → Clock → Outcome Failure CertPem
  unfolding issue_root_cert
  create_self_signed_root_cert info days clock = issue_root_cert true info days none clock

  -- `CreateRootCert`
  unfoldable pub create_root_cert : Request → ℕ → Option CertPem → Clock → Outcome Failure CertPem
  unfolding issue_root_cert
  create_root_cert info days parent clock = issue_root_cert false info days parent clock
