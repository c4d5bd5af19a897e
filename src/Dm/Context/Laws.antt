-- ===== src/Dm/Context/Laws.antt =====
-- Which callbacks a message calls, and with what.
use jopa.Common.{
  String, Bool, Option, none, some, List, [], ◌∷◌, ◌≡◌, refl, sym, ap, ◌∙◌, arith, inl, inr,
  Bool-cases, ◌⊎◌, ◌==ₛ◌, ==ₛ_iff, if◌then◌else◌,
}
use jopa.Common.Dict.{Dict, lookup, insert, lookup-insert}
use jopa.Common.Outcome.{Outcome, ok, err, panic, >>=-eq-ok, ok_injective}
use jopa.Dm.Report.Laws.{UniqueKeys}
use jopa.Dm.Context.{
  Failure, PropertyType, Json, Property, Strconv, DeviceInfo, DeviceProperty, parse_configured,
  parse_values, parse_property_values, values_of_model, by_name, Kind, device_delta, device_event,
  property_get, unknown_kind, Message, Call, delta_call, event_call, get_call, DmCtx, Handled, call,
  then_call, or_fail, or_drop, process_delta, process_event, process_property_get, process_kind,
  process, parse_property_keys,
}

-- What a property makes of a key: nothing else than its parsed value is there.
module _ {F S : Type 0} (conv : Strconv F) where
  parse_values-other :
      (cfgs : Dict PropertyType) (props : Dict (Json S)) (res m : Dict (Property F S)) (k : String)
      → parse_values conv cfgs props res ≡ ok m
      → lookup k props ≡ none
      → lookup k m ≡ lookup k res
  unfolding parse_values lookup
  parse_values-other cfgs [] res m k e h = ap (lookup k) (sym (ok_injective e))
  parse_values-other cfgs ((j, v) ∷ props) res m k e h = elim (Bool-cases (j ==ₛ k)) [
    | inl same ↦ let bad : some v ≡ none = rw same at h in cc
    | inr differ ↦
        let (p, ep, e') = >>=-eq-ok (parse_configured conv (lookup j cfgs) v) _ e in
        parse_values-other cfgs props (insert j p res) m k e' (rw differ at h)
        ∙ lookup-insert j k p res
        ∙ ap (λ b. if b then some p else lookup k res) differ
  ]

  parse_values-same :
      (cfgs : Dict PropertyType) (props : Dict (Json S)) (res m : Dict (Property F S)) (k : String)
      (v : Json S)
      → UniqueKeys props
      → parse_values conv cfgs props res ≡ ok m
      → lookup k props ≡ some v
      → (p : Property F S) × (parse_configured conv (lookup k cfgs) v ≡ ok p)
        × (lookup k m ≡ some p)
  unfolding parse_values lookup
  parse_values-same cfgs [] res m k v u e h = cc
  parse_values-same cfgs ((j, w) ∷ props) res m k v (fresh, u) e h =
      let (p, ep, e') = >>=-eq-ok (parse_configured conv (lookup j cfgs) w) _ e in
      elim (Bool-cases (j ==ₛ k)) [
        | inl same ↦
            let key : j ≡ k = (==ₛ_iff j k).0 same in
            let val : w ≡ v = ground arith in
            let fresh' : lookup k props ≡ none = rw key at fresh in
            (
              p,
              ap (λ x. parse_configured conv (lookup x cfgs) v) (sym key)
                  ∙ ap (parse_configured conv (lookup j cfgs)) (sym val)
                  ∙ ep,
              parse_values-other cfgs props (insert j p res) m k e' fresh'
                  ∙ lookup-insert j k p res
                  ∙ ap (λ b. if b then some p else lookup k res) same,
            )
        | inr differ ↦ parse_values-same cfgs props (insert j p res) m k v u e' (rw differ at h)
      ]

  -- The values of a device, without a repeated key, that can be parsed become, for the properties of its
  -- model, a map with exactly the same keys, and at each the value parsed by the type of its property; the
  -- model is the device's.
  pub parse_property_values-at :
      (models : Dict (List DeviceProperty)) (device : DeviceInfo) (vals : List DeviceProperty)
      (props : Dict (Json S)) (m : Dict (Property F S)) (k : String)
      → lookup device.device_model models ≡ some vals
      → UniqueKeys props
      → parse_property_values conv models device props ≡ ok m
      → (lookup k props ≡ none → lookup k m ≡ none)
        × ((v : Json S)
            → lookup k props ≡ some v
            → (p : Property F S) × (parse_configured conv (lookup k (by_name vals [])) v ≡ ok p)
              × (lookup k m ≡ some p))
  unfolding parse_property_values values_of_model lookup
  parse_property_values-at models device vals props m k found u e =
      let e' : parse_values conv (by_name vals []) props [] ≡ ok m =
        sym (ap (λ o. values_of_model conv o props) found) ∙ e in
      (
        parse_values-other (by_name vals []) props [] m k e',
        λ v. parse_values-same (by_name vals []) props [] m k v u e',
      )

module _ {F S Ev : Type 0} (conv : Strconv F) (c : DmCtx F S Ev) (msg : Message S Ev) where
  -- The call is the one for the message's kind, with what its content decodes and is parsed to.
  abbrev pub IsFor : DeviceInfo → Kind → Call F S Ev → Type 0
  IsFor dev device_delta (delta_call d delta) =
      (d ≡ dev)
      × ((props : Dict (Json S)) × (msg.delta ≡ ok (some props))
          × (parse_property_values conv c.device_models dev props ≡ ok delta))
  IsFor dev device_event (event_call d event) = (d ≡ dev) × (msg.event ≡ ok event)
  IsFor dev property_get (get_call d keys) =
      (d ≡ dev)
      × ((content : Json S) × (msg.keys ≡ ok content) × (parse_property_keys content ≡ ok keys))
  IsFor dev _ _ = ⊥

  -- No call, or one call for the device that the message names.
  abbrev pub AtMostOne : Kind → Handled (Call F S Ev) → Type 0
  AtMostOne kind h =
      (h.0 ≡ [])
      ⊎ ((dev : DeviceInfo) × (x : Call F S Ev) × (h.0 ≡ x ∷ [])
          × (lookup msg.device c.devices ≡ some dev)
          × IsFor dev kind x)

  module _ {A : Type 0} (kind : Kind) where
    then_call-AtMostOne :
        (m : Outcome Failure A) (next : A → Handled (Call F S Ev))
        → ((a : A) → m ≡ ok a → AtMostOne kind (next a))
        → AtMostOne kind (then_call m next)
    unfolding then_call
    then_call-AtMostOne (ok a) next h = h a refl
    then_call-AtMostOne (err e) next h = inl refl
    then_call-AtMostOne panic next h = inl refl

    or_drop-AtMostOne :
        (m : Option A) (next : A → Handled (Call F S Ev))
        → ((a : A) → m ≡ some a → AtMostOne kind (next a))
        → AtMostOne kind (or_drop m next)
    unfolding or_drop
    or_drop-AtMostOne none next h = inl refl
    or_drop-AtMostOne (some a) next h = h a refl

  or_fail-ok : {A : Type 0} (e : Failure) (o : Option A) (a : A) → or_fail e o ≡ ok a → o ≡ some a
  unfolding or_fail
  or_fail-ok e none a h = cc
  or_fail-ok e (some b) a h = ap some (ok_injective h)

  process_delta-AtMostOne : AtMostOne device_delta (process_delta conv c msg)
  unfolding process_delta call
  process_delta-AtMostOne = or_drop-AtMostOne device_delta c.delta_cb _ λ cb _.
      then_call-AtMostOne device_delta msg.delta _ λ content ec.
        then_call-AtMostOne device_delta (or_fail Failure.invalid_delta content) _ λ props ep.
          then_call-AtMostOne device_delta
            (or_fail Failure.device_not_exist (lookup msg.device c.devices)) _
            λ dev ed.
              then_call-AtMostOne device_delta
                (parse_property_values conv c.device_models dev props) _
                λ delta el. inr (
                  dev,
                  delta_call dev delta,
                  refl,
                  or_fail-ok _ _ dev ed,
                  (refl, (props, ec ∙ ap ok (or_fail-ok _ content props ep), el)),
                )

  process_event-AtMostOne : AtMostOne device_event (process_event c msg)
  unfolding process_event call
  process_event-AtMostOne = or_drop-AtMostOne device_event c.event_cb _ λ cb _.
      then_call-AtMostOne device_event msg.event _ λ event ee.
        or_drop-AtMostOne device_event (lookup msg.device c.devices) _
          λ dev ed. inr (dev, event_call dev event, refl, ed, (refl, ee))

  process_property_get-AtMostOne : AtMostOne property_get (process_property_get c msg)
  unfolding process_property_get call
  process_property_get-AtMostOne = or_drop-AtMostOne property_get c.property_get_cb _ λ cb _.
      or_drop-AtMostOne property_get (lookup msg.device c.devices) _ λ dev ed.
        then_call-AtMostOne property_get msg.keys _ λ content ec.
          then_call-AtMostOne property_get (parse_property_keys content) _
            λ keys ek. inr (dev, get_call dev keys, refl, ed, (refl, (content, ec, ek)))

  process_kind-AtMostOne : (kind : Kind) → AtMostOne kind (process_kind conv c msg kind)
  unfolding process_kind
  process_kind-AtMostOne device_delta = process_delta-AtMostOne
  process_kind-AtMostOne device_event = process_event-AtMostOne
  process_kind-AtMostOne property_get = process_property_get-AtMostOne
  process_kind-AtMostOne unknown_kind = inl refl

  -- A message makes at most one call of a callback: of the one for its kind, for the device that it names,
  -- which is known, and with what its content decodes and is parsed to.
  pub process-AtMostOne : AtMostOne msg.kind (process conv c msg)
  unfolding process
  process-AtMostOne = process_kind-AtMostOne msg.kind

  -- A delta message whose content is a map, for a known device whose values can be parsed, calls the delta
  -- callback that is registered once, with the parsed values; the handler fails exactly as the callback does.
  pub process_delta-called :
      (cb : Call F S Ev → Bool) (props : Dict (Json S)) (dev : DeviceInfo)
      (delta : Dict (Property F S))
      → c.delta_cb ≡ some cb
      → msg.delta ≡ ok (some props)
      → lookup msg.device c.devices ≡ some dev
      → parse_property_values conv c.device_models dev props ≡ ok delta
      → process_delta conv c msg ≡ (
        delta_call dev delta ∷ [],
        if cb (delta_call dev delta) then ok tt else err Failure.callback_failed,
      )
  unfolding process_delta or_drop then_call or_fail call
  process_delta-called cb props dev delta ec em ed ep = rw (ec, em) (rw (ed, ep) refl)
