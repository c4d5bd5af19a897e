-- ===== src/Utils/Cert.antt =====
-- utils/cert.go: certificates, and the options that tlsconfig, a parameter, makes a configuration of.
use jopa.Common.{ℕ, String, Bool}
use jopa.Common.Outcome.{Outcome}

pub record Certificate : Type 0 where
  pub ca : String
  pub key : String
  pub cert : String
  pub name : String
  pub insecure_skip_verify : Bool
  pub client_auth_type : ℕ

-- `tlsconfig.Options`, the fields that a client gives.
pub record TlsOptions : Type 0 where
  pub ca_file : String
  pub key_file : String
  pub cert_file : String
  pub skip_verify : Bool

-- `NewTLSConfigClient`
unfoldable pub new_tls_config_client :
    {E T : Type 0} → (TlsOptions → Outcome E T) → Certificate → Outcome E T
new_tls_config_client client c = client (record {
  ca_file = c.ca;
  key_file = c.key;
  cert_file = c.cert;
  skip_verify = c.insecure_skip_verify;
})
