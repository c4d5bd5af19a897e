-- ===== src/Dm/Serve/Laws.antt =====
-- dmcontext: a message from its topic to the callback of the driver.
use jopa.Common.{
  String, ◌++ₛ◌, Bool, false, ==ₛ_iff, if◌then◌else◌, [], ◌∷◌, some, ◌≡◌, refl, ap, ◌∙◌,
}
use jopa.Common.Dict.{Dict, lookup, insert, lookup-insert_self}
use jopa.Common.Outcome.{ok, err}
use jopa.Dm.Context.{
  Json, Property, DeviceInfo, Strconv, DmCtx, Message, Call, delta_call, Handled, process,
  process_kind, process_delta, Kind, device_delta, parse_property_values,
}
use jopa.Dm.Context as Context
use jopa.Dm.Context.Laws.{process_delta-called}
use jopa.Dm.Observer.{device_prefix, slash, newline, is_empty, Channels, on_publish}
use jopa.Dm.Observer.Laws.{Avoids, on_publish-of_device}
use jopa.Dm.Serve.{serve_found, serve}

module _ {F S Ev : Type 0} (conv : Strconv F) (c : DmCtx F S Ev) where
  -- One message that waits is processed, and its channel is empty again.
  serve-one :
      (device : String) (msg : Message S Ev) (chs : Channels (Message S Ev))
      → lookup device chs ≡ some (msg ∷ [])
      → serve conv c device chs ≡ (insert device [] chs, process conv c msg)
  unfolding serve serve_found
  serve-one device msg chs h = ap (λ o. serve_found conv c device o chs) h

  -- What arrives at an empty channel.
  publish-empty :
      (name kind : String) (msg : Message S Ev) (chs : Channels (Message S Ev))
      → lookup name chs ≡ some []
      → is_empty name ≡ false
      → is_empty kind ≡ false
      → Avoids slash kind
      → Avoids newline name
      → Avoids newline kind
      → lookup name (on_publish (device_prefix ++ₛ (name ++ₛ ("/" ++ₛ kind))) (some msg) chs)
        ≡ some (msg ∷ [])
  publish-empty name kind msg chs vacant some_name some_kind one_part name_line kind_line =
      on_publish-of_device name kind name msg chs some_name some_kind one_part name_line kind_line
      ∙ (rw ((==ₛ_iff name name).1 refl, vacant) refl)

  process-delta :
      (msg : Message S Ev) → msg.kind ≡ device_delta → process conv c msg ≡ process_delta conv c msg
  unfolding process process_kind
  process-delta msg h = ap (λ k. process_kind conv c msg k) h

  -- A delta message on the topic of a device whose channel is empty, decoded to the properties of a known device whose
  -- values can be parsed, in a context with a delta callback: the next round of the device's goroutine calls the
  -- callback once, with the parsed values, fails exactly as the callback does, and leaves the channel empty.
  pub publish-delta_called :
      (name kind : String) (msg : Message S Ev) (chs : Channels (Message S Ev))
      (cb : Call F S Ev → Bool) (props : Dict (Json S)) (dev : DeviceInfo)
      (delta : Dict (Property F S))
      → lookup name chs ≡ some []
      → is_empty name ≡ false
      → is_empty kind ≡ false
      → Avoids slash kind
      → Avoids newline name
      → Avoids newline kind
      → msg.kind ≡ device_delta
      → c.delta_cb ≡ some cb
      → msg.delta ≡ ok (some props)
      → lookup msg.device c.devices ≡ some dev
      → parse_property_values conv c.device_models dev props ≡ ok delta
      → (let (left, handled) =
            serve conv c name
              (on_publish (device_prefix ++ₛ (name ++ₛ ("/" ++ₛ kind))) (some msg) chs) in
          (lookup name left ≡ some [])
          × (handled ≡ (
            delta_call dev delta ∷ [],
            if cb (delta_call dev delta) then ok tt else err Context.Failure.callback_failed,
          )))
  publish-delta_called name kind msg chs cb props dev delta vacant some_name some_kind one_part
        name_line kind_line is_delta has_cb content known parsed =
      let after = on_publish (device_prefix ++ₛ (name ++ₛ ("/" ++ₛ kind))) (some msg) chs in
      let arrived =
        publish-empty name kind msg chs vacant some_name some_kind one_part name_line kind_line in
      rw (serve-one name msg after arrived) (
        lookup-insert_self name [] after,
        process-delta msg is_delta
            ∙ process_delta-called conv c msg cb props dev delta has_cb content known parsed,
      )
