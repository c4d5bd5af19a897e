-- ===== src/Ctx/Samples.antt =====
-- The theorems on context at the service ui of the app web, in native mode, with one certificate of the system.
use jopa.Common.{ℕ, true, false, [], ◌∷◌, ◌++◌, none, some, ◌≡◌, ◌↔◌, refl, ◌==ₛ◌, if◌then◌else◌}
use jopa.Common.Outcome.{ok, err}
use jopa.Common.Dict.{lookup, insert}
use jopa.Pki.{parse_certificates}
use jopa.Pki.Samples.{numbers}
use jopa.Utils.Cert.{Certificate}
use jopa.Http.Options.{ClientConfig as HttpConfig}
use jopa.Mqtt.Options.{ClientConfig as MqttConfig, ClientOptions as MqttOptions, QosTopic}
use jopa.Ctx.Env.{Env, key_app_name, key_svc_name, key_run_mode}
use jopa.Ctx.Config.{SystemConfig, link_topic, populate}
use jopa.Ctx.Service.{
  library_failed, Host, Context, new_context, check_system_cert, text_at, system_config,
  new_system_broker_client, load_custom_config,
}
use jopa.Ctx.Service.Check.{Accepted, check_system_cert_iff}
use jopa.Ctx.Service.Laws.{SubscribesTo, read_config, new_context-subscriptions}

abbrev no_cert : Certificate
no_cert = record {
  ca = "";
  key = "";
  cert = "";
  name = "";
  insecure_skip_verify = false;
  client_auth_type = 0;
}

abbrev system_cert : Certificate
system_cert = record no_cert { ca = "ca.pem"; key = "key.pem"; cert = "crt.pem" }

abbrev no_http : HttpConfig
no_http = record {
  address = "";
  timeout = 0;
  keep_alive = 0;
  max_idle_conns = 0;
  idle_conn_timeout = 0;
  tls_handshake_timeout = 0;
  expect_continue_timeout = 0;
  certificate = no_cert;
}

abbrev no_mqtt : MqttConfig
no_mqtt = record {
  address = "";
  username = "";
  password = "";
  client_id = "";
  clean_session = false;
  timeout = 0;
  keep_alive = 0;
  max_reconnect_interval = 0;
  max_cache_messages = 0;
  disable_auto_ack = false;
  subscriptions = [];
  certificate = no_cert;
}

abbrev empty : SystemConfig ℕ
empty = record {
  certificate = no_cert;
  function = no_http;
  core = no_http;
  broker = no_mqtt;
  logger = 0;
}

abbrev from_file : SystemConfig ℕ
from_file = record empty {
  certificate = system_cert;
  broker = record no_mqtt { clean_session = false };
}

abbrev host : Host ℕ ℕ ℕ ℕ ℕ
host = record {
  file_exists = λ f. true;
  read_file = λ f. ok (2 ∷ 1 ∷ 7 ∷ []);
  load_yaml = λ f sc. (from_file, none);
  unmarshal_empty_yaml = λ sc. (from_file, none);
  tls_client = λ o. if o.key_file ==ₛ "key.pem" then ok 1 else err library_failed;
  crypto = numbers;
  organizational_unit = λ c. "BAETYL" ∷ [];
}

abbrev env : Env
env = record {
  vars = (key_app_name, "web") ∷ (key_svc_name, "ui") ∷ (key_run_mode, "native") ∷ [];
  is_windows = false;
}

abbrev topic : QosTopic
topic = record { qos = 1; topic = "a/b" }

abbrev context : Context ℕ
context = elim (new_context host empty env "conf.yml") [ ok c ↦ c | _ ↦ [] ]

check_system_cert_iff_example : (check_system_cert host context ≡ ok tt) ↔ (
    (sc : SystemConfig ℕ) × (system_config context ≡ ok (some sc)) × Accepted host sc.certificate)
check_system_cert_iff_example = check_system_cert_iff host context

new_context-subscriptions_example :
    ((sc : SystemConfig ℕ) × (system_config context ≡ ok (some sc))
      × (sc.broker.subscriptions
          ≡ (read_config host empty env "conf.yml").broker.subscriptions ++ link_topic "ui" ∷ []))
    × ((ops : MqttOptions ℕ) × (new_system_broker_client host context (topic ∷ []) ≡ ok ops)
        × SubscribesTo host (topic ∷ []) ops)
unfolding new_context load_custom_config check_system_cert text_at lookup insert parse_certificates
    populate
new_context-subscriptions_example =
    new_context-subscriptions host empty env "conf.yml" (topic ∷ []) context refl refl refl
      (λ named. (1, refl))
