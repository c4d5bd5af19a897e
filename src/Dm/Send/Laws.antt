-- ===== src/Dm/Send/Laws.antt =====
-- dmcontext: what a filtered report puts into the channel of the client of mqtt.
use jopa.Common.{
  ℕ, ◌%◌, String, Bool, true, false, not, ◌==◌, Bool-cases, List, [], ◌∷◌, ◌++◌, none, some, ◌≡◌,
  refl, inl, inr,
}
use jopa.Common.Dict.{Dict, lookup}
use jopa.Common.Outcome.{Outcome, ok, err, panic}
use jopa.Mqtt.Packet.{Packet, publish}
use jopa.Mqtt.Options.{QosTopic}
use jopa.Mqtt.Counter.{Counter, next_id}
use jopa.Mqtt.Client.{Client, make_publish, send, put, has_room, accepted}
use jopa.Dm.Context.{DeviceInfo}
use jopa.Dm.Expression.{Floats, Value}
use jopa.Dm.Report.{ModelMapping, ReportProperty, Progress, Order, report_with_filter}
use jopa.Dm.Send.{
  Stamp, Report, ReportingDevice, Sent, sent, marshal_failed, of_send, publish_to,
  publish_marshalled, property_report, report_device_properties, report_progress, report_filtered,
}

-- The packet of a message that is not a duplicate and not retained.
abbrev pub packet_of : QosTopic → String → ℕ → Packet
packet_of topic payload id = publish (record {
  id = id;
  dup = false;
  qos = topic.qos % 256;
  retain = false;
  topic = topic.topic;
  payload = payload;
})

-- The channel has one more packet, with this payload, or nothing changed since the message could not be marshalled.
abbrev pub Queued : {E : Type 0} → QosTopic → Client → Client → Sent → Outcome E String → Type 0
Queued topic before after result (ok payload) =
    (result ≡ sent) × ((id : ℕ) × (after.cache ≡ before.cache ++ packet_of topic payload id ∷ []))
Queued topic before after result _ = (result ≡ marshal_failed) × (after ≡ before)

-- The packet that is made, and the counter after it.
make_publish-packet :
    (topic : QosTopic) (payload : String) (c : Client)
    → (ids : Counter) × (id : ℕ) × (make_publish c
          (topic.qos % 256)
          topic.topic
          payload
          0
          false
          false
        ≡ (record c { ids = ids }, packet_of topic payload id))
unfolding make_publish
make_publish-packet topic payload c =
    let (ids, id) = next_id c.ids in
    elim (Bool-cases (not (topic.qos % 256 == 0))) [
      | inl t ↦ (ids, id, (rw t refl))
      | inr n ↦ (c.ids, 0, (rw n refl))
    ]

send-room :
    (prefer_closed : Bool) (c : Client) (pkt : Packet)
    → c.dying ≡ false
    → has_room c ≡ true
    → send prefer_closed c pkt ≡ (put c pkt, accepted)
unfolding send
send-room prefer_closed c pkt alive room = rw (alive, room) refl

publish_to-Queued :
    (prefer_closed : Bool) (topic : QosTopic) (payload : String) (c : Client)
    → c.dying ≡ false
    → has_room c ≡ true
    → (let (after, result) = publish_to prefer_closed topic payload c in
        (result ≡ sent) × ((id : ℕ) × (after.cache ≡ c.cache ++ packet_of topic payload id ∷ [])))
unfolding publish_to of_send put has_room
publish_to-Queued prefer_closed topic payload c alive room =
    let (ids, id, made) = make_publish-packet topic payload c in
    rw
      (
        made,
        send-room prefer_closed (record c { ids = ids }) (packet_of topic payload id) alive room,
      )
      (refl, (id, refl))

publish_marshalled-Queued :
    {E : Type 0} (prefer_closed : Bool) (topic : QosTopic) (o : Outcome E String) (c : Client)
    → c.dying ≡ false
    → has_room c ≡ true
    → (let (after, result) = publish_marshalled prefer_closed topic o c in
        Queued topic c after result o)
unfolding publish_marshalled
publish_marshalled-Queued prefer_closed topic (ok payload) c alive room =
    publish_to-Queued prefer_closed topic payload c alive room
publish_marshalled-Queued prefer_closed topic (err e) c alive room = (refl, refl)
publish_marshalled-Queued prefer_closed topic panic c alive room = (refl, refl)

-- The message on properties, part by part: its kind and method, the names that its metadata give, and the properties.
abbrev pub Describes : {V : Type 0} → String → Stamp → DeviceInfo → Dict V → Report V → Type 0
Describes node stamp info properties r =
    (r.kind ≡ "deviceReport")
    × (lookup "device" r.metadata ≡ some info.name)
    × (lookup "deviceProduct" r.metadata ≡ some info.device_model)
    × (lookup "accessTemplate" r.metadata ≡ some info.access_template)
    × (lookup "node" r.metadata ≡ some node)
    × (lookup "nodeProduct" r.metadata ≡ some "BIE-Product")
    × (r.blink.stamp ≡ stamp)
    × (r.blink.method ≡ "thing.property.post")
    × (r.blink.version ≡ "1.0")
    × (r.blink.properties ≡ some properties)
    × (r.blink.events ≡ none)

property_report-Describes :
    {V E : Type 0} (marshal : Report V → Outcome E String) (node : String) (prefer_closed : Bool)
    (stamp : Stamp) (device : ReportingDevice) (properties : Dict V)
    → Describes node stamp device.info properties
        (property_report marshal node prefer_closed stamp device properties)
unfolding lookup
property_report-Describes marshal node prefer_closed stamp device properties =
    (refl, refl, refl, refl, refl, refl, refl, refl, refl, refl, refl)

-- For a device whose template exists, with an open client that has room: the report that the filter lets through is
-- marshalled, in a message of the kind deviceReport and the method thing.property.post whose metadata name the
-- device, its model, its template and the node, and put as one packet for the report topic of the device at the end
-- of the channel. Where it cannot be marshalled nothing is sent, but the properties are remembered as reported all
-- the same.
pub report_filtered-Queued :
    {F Go E : Type 0} (f : Floats F) (order : Order F)
    (marshal : Report (Value F Go) → Outcome E String) (node : String) (prefer_closed : Bool)
    (stamp : Stamp) (now : ℕ) (templates : Dict (List (ModelMapping F))) (device : ReportingDevice)
    (report : Dict (Value F Go)) (last : Dict (ReportProperty F Go)) (c : Client)
    (p : Progress F Go)
    → report_with_filter f order now templates device.info.access_template report last ≡ some p
    → c.dying ≡ false
    → has_room c ≡ true
    → (let (remembered, (after, result)) =
          report_filtered f order marshal node prefer_closed stamp now templates device report last
            c in
        (remembered ≡ p.last)
        × ((r : Report (Value F Go)) × Describes node stamp device.info p.filtered r
            × Queued device.report_topic c after result (marshal r)))
unfolding report_filtered report_progress report_device_properties
report_filtered-Queued f order marshal node prefer_closed stamp now templates device report last c p
      passed alive room =
    rw passed (
      refl,
      (
        property_report marshal node prefer_closed stamp device p.filtered,
        property_report-Describes marshal node prefer_closed stamp device p.filtered,
        publish_marshalled-Queued prefer_closed device.report_topic
            (marshal (property_report marshal node prefer_closed stamp device p.filtered)) c alive
            room,
      ),
    )
