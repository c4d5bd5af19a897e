-- ===== src/Ctx/Config.antt =====
-- context/config.go, and how `NewContext` of context/context.go populates the configuration. The configuration of
-- the logger, `L`, is passed on as it is.
use jopa.Common.{String, ◌++ₛ◌, ◌==ₛ◌, if◌then◌else◌, [], ◌∷◌, ◌++◌}
use jopa.Utils.Cert.{Certificate}
use jopa.Http.Options.{ClientConfig as HttpConfig}
use jopa.Mqtt.Options.{ClientConfig as MqttConfig, QosTopic}
use jopa.Ctx.Env.{Env, get_function_address, get_core_address, get_broker_address}

pub record SystemConfig (L : Type 0) : Type 0 where
  pub certificate : Certificate
  pub function : HttpConfig
  pub core : HttpConfig
  pub broker : MqttConfig
  pub logger : L

-- `if field == "" { field = fallback }`
abbrev pub or_else : String → String → String
or_else field fallback = if field ==ₛ "" then fallback else field

-- The files of the system certificate, where a section names none.
abbrev pub populate_cert : Certificate → Certificate → Certificate
populate_cert system c = record c {
  ca = or_else c.ca system.ca;
  key = or_else c.key system.key;
  cert = or_else c.cert system.cert;
}

unfoldable pub populate_http : Certificate → String → HttpConfig → HttpConfig
populate_http system address c = record c {
  address = or_else c.address address;
  certificate = populate_cert system c.certificate;
}

-- The topic by which a service is reached.
abbrev pub link_topic : String → QosTopic
link_topic service = record { qos = 1; topic = "$link/" ++ₛ service }

-- A service with a name has a client id and subscribes to its link topic.
unfoldable pub link_service : String → String → MqttConfig → MqttConfig
link_service app service c = if service ==ₛ "" then c else record c {
  client_id = or_else c.client_id ("baetyl-link-" ++ₛ app);
  subscriptions = c.subscriptions ++ link_topic service ∷ [];
}

unfoldable pub populate_broker : Certificate → String → MqttConfig → MqttConfig
populate_broker system address c = record c {
  address = or_else c.address address;
  certificate = populate_cert system c.certificate;
}

-- The part of `NewContext` that populates the configuration, for the name of the app and that of the service.
unfoldable pub populate : {L : Type 0} → Env → String → String → SystemConfig L → SystemConfig L
unfolding populate_http link_service populate_broker
populate env app service sc = record sc {
  function = populate_http sc.certificate (get_function_address env) sc.function;
  core = populate_http sc.certificate (get_core_address env) sc.core;
  broker =
      populate_broker sc.certificate (get_broker_address env) (link_service app service sc.broker);
}
