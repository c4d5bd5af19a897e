-- ===== src/Http/Options.antt =====
-- http/options.go: the configuration of a client and its options. Durations are in nanoseconds.
use jopa.Common.{ℕ, ◌*◌, String, Option, none, some}
use jopa.Common.Outcome.{Outcome, ok, ◌>>=◌}
use jopa.Utils.Cert.{Certificate, TlsOptions, new_tls_config_client}

pub record ClientOptions (T : Type 0) : Type 0 where
  pub address : String
  pub tls_config : Option T
  pub timeout : ℕ
  pub keep_alive : ℕ
  pub max_idle_conns : ℕ
  pub idle_conn_timeout : ℕ
  pub tls_handshake_timeout : ℕ
  pub expect_continue_timeout : ℕ

abbrev pub second : ℕ
second = 1000000000

-- `NewClientOptions`
abbrev pub new_client_options : {T : Type 0} → ClientOptions T
new_client_options = record {
  address = "";
  tls_config = none;
  timeout = 30 * second;
  keep_alive = 30 * second;
  max_idle_conns = 100;
  idle_conn_timeout = 90 * second;
  tls_handshake_timeout = 10 * second;
  expect_continue_timeout = 1 * second;
}

pub record ClientConfig : Type 0 where
  pub address : String
  pub timeout : ℕ
  pub keep_alive : ℕ
  pub max_idle_conns : ℕ
  pub idle_conn_timeout : ℕ
  pub tls_handshake_timeout : ℕ
  pub expect_continue_timeout : ℕ
  pub certificate : Certificate

-- `ToClientOptions`
unfoldable pub to_client_options :
    {E T : Type 0} → (TlsOptions → Outcome E T) → ClientConfig → Outcome E (ClientOptions T)
unfolding new_tls_config_client
to_client_options client cc = new_tls_config_client client cc.certificate >>= λ t. ok (record {
  address = cc.address;
  tls_config = some t;
  timeout = cc.timeout;
  keep_alive = cc.keep_alive;
  max_idle_conns = cc.max_idle_conns;
  idle_conn_timeout = cc.idle_conn_timeout;
  tls_handshake_timeout = cc.tls_handshake_timeout;
  expect_continue_timeout = cc.expect_continue_timeout;
})
