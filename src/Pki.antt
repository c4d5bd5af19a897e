-- ===== src/Pki.antt =====
-- pki/utils.go: keys and certificates as PEM blocks. crypto/rsa, crypto/ecdsa, crypto/x509 and encoding/pem are
-- the parameter `Crypto`.
pub mod Laws
pub mod Chain
pub mod Issue
pub mod Tool
pub mod Samples
use jopa.Common.{
  ℕ, zero, suc, ◌+◌, ◌/◌, String, Bool, true, false, not, ◌||◌, ◌&&◌, Option, none, some, List, [],
  ◌∷◌, ◌++◌, length, ltb, leb, ◌==ₛ◌, if◌then◌else◌,
}
use jopa.Common.Outcome.{Outcome, ok, err, panic, ◌>>=◌}

pub data Failure : Type 0 where
  unknown_algorithm unknown_key_type not_pem unsupported_block no_certificates library_failed :
      Failure

abbrev pub rsa_block_type : String
rsa_block_type = "RSA PRIVATE KEY"

abbrev pub ec_block_type : String
ec_block_type = "EC PRIVATE KEY"

abbrev pub certificate_block_type : String
certificate_block_type = "CERTIFICATE"

abbrev pub request_block_type : String
request_block_type = "CERTIFICATE REQUEST"

-- `pem.Block`; `has_headers` says whether there are any.
pub record Block : Type 0 where
  pub block_type : String
  pub has_headers : Bool
  pub bytes : List ℕ

-- The `interface{}` of a private key.
pub data Key (R E : Type 0) : Type 0 where
  rsa_key : R → Key R E
  ec_key : E → Key R E

pub record PrivateKey (R E : Type 0) : Type 0 where
  pub key_type : String
  pub key : Key R E

-- `decode` is `pem.Decode`, with what follows the block; the bits are `N.BitLen()` and `D.BitLen()`.
pub record Crypto (R E C : Type 0) : Type 0 where
  -- What one reading of rand.Reader gives; the keys of two calls are not compared.
  pub generate_rsa : ℕ → Outcome Failure R
  pub generate_ec : String → Outcome Failure E
  pub marshal_rsa : R → List ℕ
  pub marshal_ec : E → Outcome Failure (List ℕ)
  pub parse_rsa : List ℕ → Outcome Failure R
  pub parse_ec : List ℕ → Outcome Failure E
  pub parse_certificate : List ℕ → Outcome Failure C
  pub raw : C → List ℕ
  pub encode : Block → List ℕ
  pub decode : List ℕ → Option (Block × List ℕ)
  pub rsa_bits : R → ℕ
  pub ec_bits : E → ℕ

-- `x509.SignatureAlgorithm`
pub data Algorithm : Type 0 where
  sha256_rsa sha384_rsa sha512_rsa ecdsa_sha256 ecdsa_sha384 ecdsa_sha512 unknown : Algorithm

module _ {R E C : Type 0} (c : Crypto R E C) where
  unfoldable pub is_curve : String → Bool
  is_curve dsa = dsa ==ₛ "P224" || dsa ==ₛ "P256" || dsa ==ₛ "P384" || dsa ==ₛ "P521"

  generate_rsa_key : ℕ → Outcome Failure (PrivateKey R E)
  generate_rsa_key bits =
      c.generate_rsa bits >>= λ k. ok (record { key_type = rsa_block_type; key = rsa_key k })

  generate_ec_key : String → Outcome Failure (PrivateKey R E)
  generate_ec_key dsa =
      c.generate_ec dsa >>= λ k. ok (record { key_type = ec_block_type; key = ec_key k })

  -- `GenCertPrivateKey`
  unfoldable pub gen_cert_private_key : String → ℕ → Outcome Failure (PrivateKey R E)
  unfolding is_curve generate_rsa_key generate_ec_key
  gen_cert_private_key dsa bits =
      if dsa ==ₛ "rsa"
      then generate_rsa_key bits
      else if is_curve dsa
      then generate_ec_key dsa
      else err unknown_algorithm

  abbrev pub block_of : String → List ℕ → Block
  block_of t bytes = record { block_type = t; has_headers = false; bytes = bytes }

  -- The type assertions panic at a key of the other kind.
  encode_rsa : Key R E → Outcome Failure (List ℕ)
  encode_rsa (rsa_key k) = ok (c.encode (block_of rsa_block_type (c.marshal_rsa k)))
  encode_rsa (ec_key k) = panic

  encode_ec : Key R E → Outcome Failure (List ℕ)
  encode_ec (rsa_key k) = panic
  encode_ec (ec_key k) = c.marshal_ec k >>= λ bytes. ok (c.encode (block_of ec_block_type bytes))

  -- `EncodeCertPrivateKey`
  unfoldable pub encode_cert_private_key : PrivateKey R E → Outcome Failure (List ℕ)
  unfolding encode_rsa encode_ec
  encode_cert_private_key priv =
      if priv.key_type ==ₛ rsa_block_type
      then encode_rsa priv.key
      else if priv.key_type ==ₛ ec_block_type
      then encode_ec priv.key
      else err unknown_key_type

  parse_block : Block → Outcome Failure (PrivateKey R E)
  parse_block block =
      let ec =
        c.parse_ec block.bytes >>= λ k. ok (record { key_type = ec_block_type; key = ec_key k }) in
      let rsa = c.parse_rsa block.bytes >>= λ k.
      ok (record { key_type = rsa_block_type; key = rsa_key k }) in
      if block.block_type ==ₛ ec_block_type
      then ec
      else if block.block_type ==ₛ rsa_block_type
      then rsa
      else err unsupported_block

  parse_decoded : Option (Block × List ℕ) → Outcome Failure (PrivateKey R E)
  unfolding parse_block
  parse_decoded none = err not_pem
  parse_decoded (some (block, rest)) = parse_block block

  -- `ParseCertPrivateKey`
  unfoldable pub parse_cert_private_key : List ℕ → Outcome Failure (PrivateKey R E)
  unfolding parse_decoded
  parse_cert_private_key key = parse_decoded (c.decode key)

  -- What the loop has when it ends, with its error.
  abbrev pub Certs : Type 0
  Certs = List C × Option Failure

  -- A certificate block without headers is used, others are passed over.
  abbrev pub is_certificate : Block → Bool
  is_certificate block = block.block_type ==ₛ certificate_block_type && not block.has_headers

  add_cert : Outcome Failure C → List C × Option Failure → List C × Option Failure
  add_cert (ok cert) (certs, e) = (cert ∷ certs, e)
  add_cert (err e) rest = ([], some e)
  add_cert panic rest = ([], some library_failed)

  -- The body of the loop, with what the rounds after it come to.
  cert_block :
      Option (Block × List ℕ) → (List ℕ → List C × Option Failure) → List C × Option Failure
  unfolding add_cert
  cert_block none loop = ([], none)
  cert_block (some (block, rest)) loop =
      let following = loop rest in
      if is_certificate block
      then add_cert (c.parse_certificate block.bytes) following
      else following

  -- The loop of `ParseCertificates`, which ends at the end of the data; the fuel is its length.
  unfoldable pub cert_loop : ℕ → List ℕ → List C × Option Failure
  unfolding cert_block
  cert_loop zero data_left = ([], none)
  cert_loop (suc fuel) [] = ([], none)
  cert_loop (suc fuel) (b ∷ bs) = cert_block (c.decode (b ∷ bs)) (λ rest. cert_loop fuel rest)

  -- Without a certificate there is an error.
  ensure_some : List C × Option Failure → List C × Option Failure
  ensure_some (certs, some e) = (certs, some e)
  ensure_some ([], none) = ([], some no_certificates)
  ensure_some (cert ∷ certs, none) = (cert ∷ certs, none)

  unfoldable pub parse_certificates : List ℕ → List C × Option Failure
  unfolding cert_loop ensure_some
  parse_certificates pem_certs = ensure_some (cert_loop (length pem_certs) pem_certs)

  sig_rsa : Key R E → Outcome Failure Algorithm
  sig_rsa (rsa_key k) =
      let key_size = c.rsa_bits k in
      ok (
        if leb 4096 key_size
        then sha512_rsa
        else if leb 3072 key_size
        then sha384_rsa
        else sha256_rsa)
  sig_rsa (ec_key k) = panic

  sig_ec : Key R E → Outcome Failure Algorithm
  sig_ec (rsa_key k) = panic
  sig_ec (ec_key k) =
      let key_size = c.ec_bits k / 8 + 8 in
      ok (
        if leb 72 key_size
        then ecdsa_sha512
        else if leb 54 key_size
        then ecdsa_sha384
        else ecdsa_sha256)

  -- `SigAlgorithmType`
  unfoldable pub sig_algorithm_type : PrivateKey R E → Outcome Failure Algorithm
  unfolding sig_rsa sig_ec
  sig_algorithm_type priv =
      if priv.key_type ==ₛ rsa_block_type
      then sig_rsa priv.key
      else if priv.key_type ==ₛ ec_block_type
      then sig_ec priv.key
      else ok unknown

  -- `EncodeCertificates`; writing to a buffer does not fail.
  unfoldable pub encode_certificates : List C → List ℕ
  encode_certificates [] = []
  encode_certificates (cert ∷ certs) =
      c.encode (block_of certificate_block_type (c.raw cert)) ++ encode_certificates certs

  -- `EncodeCertificatesRequest`, of requests with the same `raw`.
  unfoldable pub encode_certificates_request : List C → List ℕ
  encode_certificates_request [] = []
  encode_certificates_request (csr ∷ csrs) =
      c.encode (block_of request_block_type (c.raw csr)) ++ encode_certificates_request csrs
