-- ===== src/Mqtt/Packet.antt =====
-- The packets of mqtt/gomqtt.go that the client sends and receives. A topic, a payload and the rest of a
-- message are one text.
use jopa.Common.{ℕ, String, Bool, List}

pub record Publish : Type 0 where
  pub id : ℕ
  pub dup : Bool
  pub qos : ℕ
  pub retain : Bool
  pub topic : String
  pub payload : String

-- `other` is any packet that the client does not expect.
pub data Packet : Type 0 where
  publish : Publish → Packet
  puback : ℕ → Packet
  suback : ℕ → List ℕ → Packet
  pingreq : Packet
  pingresp : Packet
  connack : ℕ → Packet
  disconnect : Packet
  other : ℕ → Packet

-- `ConnectionAccepted` and `QOSFailure`
abbrev pub connection_accepted : ℕ
connection_accepted = 0

abbrev pub qos_failure : ℕ
qos_failure = 0x80
