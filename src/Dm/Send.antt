-- ===== src/Dm/Send.antt =====
-- dmcontext/context.go and dmcontext/blink.go: what a driver reports, as messages in the channel of the client of mqtt.
-- encoding/json is the parameter `marshal`; the id of a request and the time are those of one message.
pub mod Laws
mod Samples
use jopa.Common.{ℕ, ◌%◌, String, Bool, true, false, List, [], ◌∷◌, Option, none, some}
use jopa.Common.Dict.{Dict}
use jopa.Common.Outcome.{Outcome, ok, err, panic}
use jopa.Mqtt.Options.{QosTopic}
use jopa.Mqtt.Client.{
  Client, make_publish, SendResult, accepted, already_closed, dropped, blocked, send,
}
use jopa.Dm.Context.{DeviceInfo}
use jopa.Dm.Expression.{Floats, Value}
use jopa.Dm.Report.{ModelMapping, ReportProperty, Progress, Order, report_with_filter}

pub record Stamp : Type 0 where
  pub req_id : String
  pub timestamp : ℕ

-- `BlinkData`; of the parameters there is only whether the device is online.
pub record BlinkData (V : Type 0) : Type 0 where
  pub stamp : Stamp
  pub method : String
  pub version : String
  pub properties : Option (Dict V)
  pub events : Option (Dict V)
  pub online_state : Option Bool

-- The message with its metadata and its blink.
pub record Report (V : Type 0) : Type 0 where
  pub kind : String
  pub metadata : Dict String
  pub blink : BlinkData V

-- The topics that a driver publishes to, and the device.
pub record ReportingDevice : Type 0 where
  pub info : DeviceInfo
  pub report_topic : QosTopic
  pub event_report_topic : QosTopic
  pub lifecycle_report_topic : QosTopic

-- What a call comes to: its error, or that it waits for room in the channel.
pub data Sent : Type 0 where
  sent waits marshal_failed client_closed access_template_not_exist : Sent

abbrev pub blink_of : {V : Type 0} → Stamp → String → BlinkData V
blink_of stamp method = record {
  stamp = stamp;
  method = method;
  version = "1.0";
  properties = none;
  events = none;
  online_state = none;
}

-- `GenPropertyReportBlinkData`
abbrev pub gen_property_report_blink_data : {V : Type 0} → Stamp → Dict V → BlinkData V
gen_property_report_blink_data stamp properties = record (blink_of stamp "thing.property.post") {
  properties = some properties;
}

-- `GenEventReportBlinkData`
abbrev pub gen_event_report_blink_data : {V : Type 0} → Stamp → Dict V → BlinkData V
gen_event_report_blink_data stamp events = record (blink_of stamp "thing.event.post") {
  events = some events;
}

-- `GenLifecycleReportBlinkData`
abbrev pub gen_lifecycle_report_blink_data : {V : Type 0} → Stamp → Bool → BlinkData V
gen_lifecycle_report_blink_data stamp online = record (blink_of stamp "thing.lifecycle.post") {
  online_state = some online;
}

-- `genMetadata`, for the name of the node.
abbrev pub gen_metadata : String → DeviceInfo → Dict String
gen_metadata node info =
    ("device", info.name)
    ∷ ("deviceProduct", info.device_model)
    ∷ ("accessTemplate", info.access_template)
    ∷ ("node", node)
    ∷ ("nodeProduct", "BIE-Product")
    ∷ []

of_send : Client × SendResult → Client × Sent
of_send (c, accepted) = (c, sent)
of_send (c, already_closed) = (c, client_closed)
of_send (c, dropped) = (c, sent)
of_send (c, blocked) = (c, waits)

-- `c.mqtt.Publish`; `prefer_closed` is the scheduler's choice.
unfoldable pub publish_to : Bool → QosTopic → String → Client → Client × Sent
unfolding of_send
publish_to prefer_closed topic payload c =
    let (next, pkt) = make_publish c (topic.qos % 256) topic.topic payload 0 false false in
    of_send (send prefer_closed next pkt)

-- `ReportCustomMsg`
unfoldable pub report_custom_msg : Bool → QosTopic → String → Client → Client × Sent
unfolding publish_to
report_custom_msg prefer_closed topic payload c = publish_to prefer_closed topic payload c

unfoldable pub publish_marshalled :
    {E : Type 0} → Bool → QosTopic → Outcome E String → Client → Client × Sent
unfolding publish_to
publish_marshalled prefer_closed topic (ok payload) c = publish_to prefer_closed topic payload c
publish_marshalled prefer_closed topic _ c = (c, marshal_failed)

module _ {V E : Type 0} (marshal : Report V → Outcome E String) (node : String)
    (prefer_closed : Bool) (stamp : Stamp) where
  abbrev pub property_report : ReportingDevice → Dict V → Report V
  property_report device report = record {
    kind = "deviceReport";
    metadata = gen_metadata node device.info;
    blink = gen_property_report_blink_data stamp report;
  }

  -- `ReportDeviceProperties`
  unfoldable pub report_device_properties : ReportingDevice → Dict V → Client → Client × Sent
  unfolding publish_marshalled
  report_device_properties device report c =
      publish_marshalled prefer_closed device.report_topic (marshal (property_report device report))
        c

  -- `ReportDeviceEvents`
  unfoldable pub report_device_events : ReportingDevice → Dict V → Client → Client × Sent
  unfolding publish_marshalled
  report_device_events device events c =
      publish_marshalled prefer_closed device.event_report_topic
        (marshal (record {
          kind = "thing.event.post";
          metadata = gen_metadata node device.info;
          blink = gen_event_report_blink_data stamp events;
        }))
        c

  -- `Online` and `Offline`
  unfoldable pub report_lifecycle : Bool → ReportingDevice → Client → Client × Sent
  unfolding publish_marshalled
  report_lifecycle online device c =
      publish_marshalled prefer_closed device.lifecycle_report_topic
        (marshal (record {
          kind = "thing.lifecycle.post";
          metadata = gen_metadata node device.info;
          blink = gen_lifecycle_report_blink_data stamp online;
        }))
        c

module _ {F Go E : Type 0} (f : Floats F) (order : Order F)
    (marshal : Report (Value F Go) → Outcome E String) (node : String) (prefer_closed : Bool)
    (stamp : Stamp) where
  report_progress :
      ReportingDevice
      → Dict (ReportProperty F Go)
      → Option (Progress F Go)
      → Client
      → Dict (ReportProperty F Go) × (Client × Sent)
  unfolding report_device_properties
  report_progress device last none c = (last, (c, access_template_not_exist))
  report_progress device last (some p) c =
      (p.last, report_device_properties marshal node prefer_closed stamp device p.filtered c)

  -- `ReportDevicePropertiesWithFilter`, with the properties that it remembers.
  unfoldable pub report_filtered :
      ℕ
      → Dict (List (ModelMapping F))
      → ReportingDevice
      → Dict (Value F Go)
      → Dict (ReportProperty F Go)
      → Client
      → Dict (ReportProperty F Go) × (Client × Sent)
  unfolding report_progress
  report_filtered now templates device report last c =
      report_progress device last
        (report_with_filter f order now templates device.info.access_template report last) c
