-- ===== src/Dm/Serve/Samples.antt =====
-- The theorem on a delta message for the device d, from its topic to the callback.
use jopa.Common.{◌++ₛ◌, true, [], ◌∷◌, some, ◌≡◌, refl}
use jopa.Common.Dict.{lookup, insert}
use jopa.Common.Outcome.{ok}
use jopa.Dm.Context.{delta_call, parse_property_values, by_name, parse_values, parse_property_value}
use jopa.Dm.Samples.{strconv, ctx, device, reading, parsed, delta_message}
use jopa.Dm.Observer.{device_prefix, is_empty, on_publish}
use jopa.Dm.Serve.{serve}
use jopa.Dm.Serve.Laws.{publish-delta_called}

publish-delta_called_example :
    let (left, handled) = serve strconv ctx "d" (
      on_publish
        (device_prefix ++ₛ ("d" ++ₛ ("/" ++ₛ "delta")))
        (some delta_message)
        (("d", []) ∷ [])) in
    (lookup "d" left ≡ some []) × (handled ≡ (delta_call device parsed ∷ [], ok tt))
unfolding is_empty lookup insert parse_property_values by_name parse_values parse_property_value
publish-delta_called_example =
    publish-delta_called strconv ctx "d" "delta" delta_message (("d", []) ∷ []) (λ x. true) reading
      device parsed refl refl refl (refl, (refl, (refl, (refl, (refl, tt))))) (refl, tt)
      (refl, (refl, (refl, (refl, (refl, tt))))) refl refl refl refl refl
