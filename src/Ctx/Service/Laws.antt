-- ===== src/Ctx/Service/Laws.antt =====
-- context/context.go: what a new context stores, and what the client of the system broker subscribes to.
use jopa.Common.{
  Bool-cases, inl, inr, not, ◌||◌, String, true, false, ◌==ₛ◌, if◌then◌else◌, List, [], ◌∷◌, ◌++◌,
  map, Option, none, some, ◌≡◌, refl, sym, ◌∙◌, subst,
}
use jopa.Common.Outcome.{ok, >>=-on_ok, ok_injective}
use jopa.Common.Dict.{lookup, insert}
use jopa.Utils.Cert.{Certificate, new_tls_config_client}
use jopa.Mqtt.Options.{
  ClientConfig, ClientOptions, QosTopic, to_subscription, to_client_options, tls_of,
}
use jopa.Ctx.Env.{Env, getenv, key_svc_name, key_app_name}
use jopa.Ctx.Config.{SystemConfig, populate, populate_broker, link_topic, link_service}
use jopa.Ctx.Service.{
  Context, Host, text_at, system_config, the_config, load_custom_config, file_to_load, loaded,
  new_context, check_system_cert, copy, new_system_broker_client_config, new_broker_client,
  new_system_broker_client,
}
use jopa.Ctx.Service.Check.{config-the}

module _ {L R E C T : Type 0} (host : Host L R E C T) where
  -- The files of the certificate make a configuration of tls, if it names a key or a certificate.
  abbrev pub TlsWorks : Certificate → Type 0
  TlsWorks c =
      (not (c.key ==ₛ "") || not (c.cert ==ₛ "") ≡ true)
      → (t : T) × (host.tls_client (record {
        ca_file = c.ca;
        key_file = c.key;
        cert_file = c.cert;
        skip_verify = c.insecure_skip_verify;
      })
          ≡ ok t)

  -- The options of a client that keeps no session and has just these subscriptions.
  abbrev pub SubscribesTo : List QosTopic → ClientOptions T → Type 0
  SubscribesTo topics ops =
      (ops.subscriptions ≡ map to_subscription topics) × (ops.clean_session ≡ true)

  tls_of-made : (c : Certificate) → TlsWorks c → (t : Option T) × (tls_of host.tls_client c ≡ ok t)
  unfolding tls_of new_tls_config_client
  tls_of-made c works = elim (Bool-cases (not (c.key ==ₛ "") || not (c.cert ==ₛ ""))) [
    | inl named ↦ let (t, e) = works named in rw named (some t, >>=-on_ok _ _ t e)
    | inr unnamed ↦ rw unnamed (none, refl)
  ]

  to_client_options-made :
      (cc : ClientConfig)
      → TlsWorks cc.certificate
      → (ops : ClientOptions T) × (to_client_options host.tls_client cc ≡ ok ops)
        × (ops.subscriptions ≡ map to_subscription cc.subscriptions)
        × (ops.clean_session ≡ cc.clean_session)
  unfolding to_client_options
  to_client_options-made cc works =
      let (t, e) = tls_of-made cc.certificate works in
      (_, >>=-on_ok (tls_of host.tls_client cc.certificate) _ t e, refl, refl)

  new_system_broker_client_lem :
      (c : Context L) (sc : SystemConfig L) (topics : List QosTopic)
      → system_config c ≡ ok (some sc)
      → check_system_cert host c ≡ ok tt
      → TlsWorks sc.broker.certificate
      → (ops : ClientOptions T) × (new_system_broker_client host c topics ≡ ok ops)
        × SubscribesTo topics ops
  unfolding new_system_broker_client new_system_broker_client_config new_broker_client the_config
      copy
  new_system_broker_client_lem c sc topics found checked works =
      let config : ClientConfig = record sc.broker {
        clean_session = true;
        subscriptions = topics;
      } in
      let (ops, made, subs, clean) = to_client_options-made config works in
      (ops, rw (checked, config-the host c sc found) made, (subs, clean))

  abbrev pub read_config : SystemConfig L → Env → String → SystemConfig L
  read_config empty env conf_file =
      let f = if conf_file ==ₛ "" then getenv env "BAETYL_CONF_FILE" else conf_file in
      loaded host
        (if host.file_exists f then host.load_yaml f empty else host.unmarshal_empty_yaml empty)

  abbrev pub stored_config : SystemConfig L → Env → String → SystemConfig L
  stored_config empty env conf_file =
      populate env (getenv env key_app_name) (getenv env key_svc_name)
        (read_config empty env conf_file)

  new_context-config :
      (empty : SystemConfig L) (env : Env) (conf_file : String)
      → (c : Context L) × (new_context host empty env conf_file ≡ ok c)
        × (system_config c ≡ ok (some (stored_config empty env conf_file)))
  unfolding new_context load_custom_config file_to_load text_at system_config lookup insert
  new_context-config empty env conf_file = (_, refl, refl)

  link_service-subscriptions :
      (app service : String) (b : ClientConfig)
      → service ==ₛ "" ≡ false
      → (link_service app service b).subscriptions ≡ b.subscriptions ++ link_topic service ∷ []
  unfolding link_service
  link_service-subscriptions app service b named = rw named refl

  -- A service with a name, the certificate accepted, and files that the library can load for the
  -- certificate of the system broker if one is configured: the new context adds the topic of the service
  -- to the subscriptions that the configuration names for the system broker. But the client of the system broker,
  -- which is made for the topics of the caller, subscribes to those alone, and keeps no session.
  pub new_context-subscriptions :
      (empty : SystemConfig L) (env : Env) (conf_file : String) (topics : List QosTopic)
      (c : Context L)
      → new_context host empty env conf_file ≡ ok c
      → getenv env key_svc_name ==ₛ "" ≡ false
      → check_system_cert host c ≡ ok tt
      → TlsWorks (stored_config empty env conf_file).broker.certificate
      → ((sc : SystemConfig L) × (system_config c ≡ ok (some sc))
          × (sc.broker.subscriptions
              ≡ (read_config empty env conf_file).broker.subscriptions
                ++ link_topic (getenv env key_svc_name) ∷ []))
        × ((ops : ClientOptions T) × (new_system_broker_client host c topics ≡ ok ops)
            × SubscribesTo topics ops)
  unfolding populate populate_broker
  new_context-subscriptions empty env conf_file topics c made named checked works =
      let (c', made', found') = new_context-config empty env conf_file in
      let found =
        subst (λ x. system_config x ≡ ok (some (stored_config empty env conf_file)))
          (ok_injective (sym made' ∙ made)) found' in
      (
        (
          stored_config empty env conf_file,
          found,
          link_service-subscriptions (getenv env key_app_name) (getenv env key_svc_name)
              (read_config empty env conf_file).broker named,
        ),
        new_system_broker_client_lem c (stored_config empty env conf_file) topics found checked
            works,
      )
