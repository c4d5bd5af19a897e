-- ===== src/Ctx/Service.antt =====
-- context/context.go: the context of a service, a map that keeps texts and the configuration of the system.
pub mod Laws
pub mod Check
use jopa.Common.{
  ℕ, String, Bool, true, false, not, ◌&&◌, ◌||◌, ◌==ₛ◌, if◌then◌else◌, List, [], ◌∷◌, ◌++◌, Option,
  none, some,
}
use jopa.Common.Outcome.{Outcome, ok, err, panic, ◌>>=◌, ◌>>◌, fail_if}
use jopa.Common.Dict.{Dict, lookup, insert}
use jopa.Utils.Cert.{Certificate, TlsOptions}
use jopa.Pki.{Crypto, Failure, parse_certificates}
use jopa.Http.Options.{
  ClientOptions as HttpOptions, to_client_options as to_http_options,
  new_client_options as new_http_options,
}
use jopa.Mqtt.Options.{
  ClientConfig as MqttConfig, ClientOptions as MqttOptions, QosTopic,
  to_client_options as to_mqtt_options,
}
use jopa.Ctx.Env.{
  Env, getenv, key_baetyl, key_conf_file, key_node_name, key_app_name, key_app_version,
  key_svc_name, key_sys_conf, get_core_insecure_address,
}
use jopa.Ctx.Config.{SystemConfig, populate}

pub data Error : Type 0 where
  system_cert_not_found system_cert_invalid library_failed : Error
  pki_failed : Failure → Error

pub data Stored (L : Type 0) : Type 0 where
  text : String → Stored L
  conf : SystemConfig L → Stored L

-- The `sync.Map` of a `ctx`.
abbrev pub Context : Type 0 → Type 0
Context L = Dict (Stored L)

-- What the context calls: files, YAML, which fills a configuration also where it fails, tls, and the certificates,
-- with the organizational units of their subjects.
pub record Host (L R E C T : Type 0) : Type 0 where
  pub file_exists : String → Bool
  pub read_file : String → Outcome Error (List ℕ)
  pub load_yaml : String → SystemConfig L → SystemConfig L × Option Error
  pub unmarshal_empty_yaml : SystemConfig L → SystemConfig L × Option Error
  pub tls_client : TlsOptions → Outcome Error T
  pub crypto : Crypto R E C
  pub organizational_unit : C → List String

-- The getters: a key that is absent is empty, and the type assertion panics at another value.
unfoldable pub text_at : {L : Type 0} → String → Context L → Outcome Error String
text_at key c = elim (lookup key c) [ none ↦ ok "" | some (text s) ↦ ok s | some (conf _) ↦ panic ]

-- `SystemConfig`, which is nil where there is none.
unfoldable pub system_config : {L : Type 0} → Context L → Outcome Error (Option (SystemConfig L))
system_config c = elim (lookup key_sys_conf c) [
  | none ↦ ok none
  | some (conf sc) ↦ ok (some sc)
  | some (text _) ↦ panic
]

-- A field of a nil configuration panics.
unfoldable pub the_config : {L : Type 0} → Context L → Outcome Error (SystemConfig L)
unfolding system_config
the_config c = system_config c >>= λ o. elim o [ none ↦ panic | some sc ↦ ok sc ]

-- What `os.Getenv` and the argument give at first.
abbrev pub initial : {L : Type 0} → Env → String → Context L
initial env conf_file = insert key_svc_name (text (getenv env key_svc_name)) (
    insert key_app_version (text (getenv env key_app_version)) (
      insert key_app_name (text (getenv env key_app_name)) (
        insert key_node_name (text (getenv env key_node_name)) (
          insert key_conf_file
            (text (if conf_file ==ₛ "" then getenv env key_conf_file else conf_file)) []))))

module _ {L R E C T : Type 0} (host : Host L R E C T) where
  -- The file is that of the arguments, if there is one.
  file_to_load : List String → String → String
  file_to_load [] conf_file = conf_file
  file_to_load (f ∷ fs) conf_file = if f ==ₛ "" then conf_file else f

  -- `LoadCustomConfig` of a system configuration
  unfoldable pub load_custom_config :
      Context L → SystemConfig L → List String → Outcome Error (SystemConfig L × Option Error)
  unfolding file_to_load
  load_custom_config c sc files = text_at key_conf_file c >>= λ conf_file.
      let f = file_to_load files conf_file in
      ok (if host.file_exists f then host.load_yaml f sc else host.unmarshal_empty_yaml sc)

  -- After an error the defaults are filled in.
  unfoldable pub loaded : SystemConfig L × Option Error → SystemConfig L
  loaded (sc, none) = sc
  loaded (sc, some e) = let (defaults, _) = host.unmarshal_empty_yaml sc in defaults

  -- `NewContext`; `empty` is the configuration of zero values.
  unfoldable pub new_context : SystemConfig L → Env → String → Outcome Error (Context L)
  unfolding loaded
  new_context empty env conf_file =
      let c = initial env conf_file in
      load_custom_config c empty [] >>= λ r. text_at key_svc_name c >>= λ service.
      text_at key_app_name c >>= λ app.
      ok (insert key_sys_conf (conf (populate env app service (loaded r))) c)

  is_system_unit : List String → Bool
  is_system_unit (unit ∷ []) = unit ==ₛ key_baetyl
  is_system_unit _ = false

  -- The one certificate, of the one unit that is named.
  check_certs : List C × Option Failure → Outcome Error (Unit {0})
  unfolding is_system_unit
  check_certs (certs, some e) = err (pki_failed e)
  check_certs (cert ∷ [], none) =
      fail_if (not (is_system_unit (host.organizational_unit cert))) system_cert_invalid
  check_certs (_, none) = err system_cert_invalid

  check_files : Certificate → Outcome Error (Unit {0})
  unfolding check_certs
  check_files cfg =
      fail_if
        (not (host.file_exists cfg.ca)
          || not (host.file_exists cfg.key)
          || not (host.file_exists cfg.cert))
        system_cert_not_found
      >> (host.read_file cfg.cert >>= λ crt. check_certs (parse_certificates host.crypto crt))

  -- `CheckSystemCert`
  unfoldable pub check_system_cert : Context L → Outcome Error (Unit {0})
  unfolding check_files the_config
  check_system_cert c = the_config c >>= λ sc. check_files sc.certificate

  -- Go's `copy`: as many items as both slices have.
  copy : List QosTopic → List QosTopic → List QosTopic
  copy [] src = []
  copy (d ∷ dst) [] = d ∷ dst
  copy (d ∷ dst) (s ∷ src) = s ∷ copy dst src

  -- `NewSystemBrokerClientConfig`
  unfoldable pub new_system_broker_client_config : Context L → Outcome Error MqttConfig
  unfolding copy the_config
  new_system_broker_client_config c =
      check_system_cert c
      >> (the_config c >>= λ sc. ok (record sc.broker {
        clean_session = true;
        subscriptions = copy [] sc.broker.subscriptions;
      }))

  -- `NewBrokerClient`, whose client is known by its options.
  unfoldable pub new_broker_client : MqttConfig → Outcome Error (MqttOptions T)
  new_broker_client config = to_mqtt_options host.tls_client config

  -- `NewSystemBrokerClient`
  unfoldable pub new_system_broker_client :
      Context L → List QosTopic → Outcome Error (MqttOptions T)
  unfolding new_broker_client
  new_system_broker_client c sub_topics = new_system_broker_client_config c >>= λ config.
      new_broker_client (record config { subscriptions = config.subscriptions ++ sub_topics })

  -- `NewFunctionHttpClient`
  unfoldable pub new_function_http_client : Context L → Outcome Error (HttpOptions T)
  unfolding the_config
  new_function_http_client c =
      check_system_cert c >> (the_config c >>= λ sc. to_http_options host.tls_client sc.function)

  -- `NewCoreHttpsClient`
  unfoldable pub new_core_https_client : Context L → Outcome Error (HttpOptions T)
  unfolding the_config
  new_core_https_client c =
      check_system_cert c >> (the_config c >>= λ sc. to_http_options host.tls_client sc.core)

-- `NewCoreHttpClient`
unfoldable pub new_core_http_client : {T : Type 0} → Env → HttpOptions T
new_core_http_client env = record new_http_options { address = get_core_insecure_address env }
