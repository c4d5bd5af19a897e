-- ===== src/Mqtt/Options.antt =====
-- mqtt/options.go: the configuration of a client and its options. Durations are in nanoseconds.
use jopa.Common.{
  ℕ, ◌*◌, ◌%◌, String, Bool, false, ◌||◌, not, Option, none, some, List, [], map, ◌==ₛ◌,
  if◌then◌else◌,
}
use jopa.Common.Outcome.{Outcome, ok, ◌>>=◌}
use jopa.Utils.Cert.{Certificate, TlsOptions, new_tls_config_client}

-- `QOS` is a uint32.
pub record QosTopic : Type 0 where
  pub qos : ℕ
  pub topic : String

pub record Subscription : Type 0 where
  pub filter : String
  pub max_qos : ℕ

pub record ClientOptions (T : Type 0) : Type 0 where
  pub address : String
  pub username : String
  pub password : String
  pub tls_config : Option T
  pub client_id : String
  pub clean_session : Bool
  pub timeout : ℕ
  pub keep_alive : ℕ
  pub max_reconnect_interval : ℕ
  pub max_message_size : ℕ
  pub max_cache_messages : ℕ
  pub subscriptions : List Subscription
  pub disable_auto_ack : Bool

abbrev pub second : ℕ
second = 1000000000

-- `NewClientOptions`
abbrev pub new_client_options : {T : Type 0} → ClientOptions T
new_client_options = record {
  address = "";
  username = "";
  password = "";
  tls_config = none;
  client_id = "";
  clean_session = false;
  timeout = 30 * second;
  keep_alive = 180 * second;
  max_reconnect_interval = 180 * second;
  max_message_size = 4 * 1024 * 1024;
  max_cache_messages = 10;
  subscriptions = [];
  disable_auto_ack = false;
}

pub record ClientConfig : Type 0 where
  pub address : String
  pub username : String
  pub password : String
  pub client_id : String
  pub clean_session : Bool
  pub timeout : ℕ
  pub keep_alive : ℕ
  pub max_reconnect_interval : ℕ
  pub max_cache_messages : ℕ
  pub disable_auto_ack : Bool
  pub subscriptions : List QosTopic
  pub certificate : Certificate

-- `QOS(topic.QOS)` keeps a byte.
abbrev pub to_subscription : QosTopic → Subscription
to_subscription t = record { filter = t.topic; max_qos = t.qos % 256 }

module _ {E T : Type 0} (client : TlsOptions → Outcome E T) where
  -- The configuration of tls, for which a key or a certificate must be named.
  unfoldable pub tls_of : Certificate → Outcome E (Option T)
  unfolding new_tls_config_client
  tls_of c =
      if not (c.key ==ₛ "") || not (c.cert ==ₛ "")
      then (new_tls_config_client client c >>= λ t. ok (some t))
      else ok none

  -- `ToClientOptions`
  unfoldable pub to_client_options : ClientConfig → Outcome E (ClientOptions T)
  unfolding tls_of
  to_client_options cc = tls_of cc.certificate >>= λ t. ok (record {
    address = cc.address;
    username = cc.username;
    password = cc.password;
    tls_config = t;
    client_id = cc.client_id;
    clean_session = cc.clean_session;
    timeout = cc.timeout;
    keep_alive = cc.keep_alive;
    max_reconnect_interval = cc.max_reconnect_interval;
    max_message_size = 0;
    max_cache_messages = cc.max_cache_messages;
    subscriptions = map to_subscription cc.subscriptions;
    disable_auto_ack = cc.disable_auto_ack;
  })
