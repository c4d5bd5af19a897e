-- ===== src/Dm/Context.antt =====
-- dmcontext/context.go and dmcontext/device.go: the callbacks of a driver, and what the messages of a device
-- make of them. The contents of messages are what encoding/json decodes them to; strconv is a parameter.
pub mod Laws
use jopa.Common.{ℕ, String, Bool, true, false, Option, none, some, List, [], ◌∷◌, if◌then◌else◌}
use jopa.Common.Dict.{Dict, lookup, insert}
use jopa.Common.Int.{ℤ}
use jopa.Common.Outcome.{Outcome, ok, err, panic, ◌>>=◌}

pub data Failure : Type 0 where
  bad_content invalid_delta device_not_exist props_not_exist type_not_supported : Failure
  bad_number invalid_property_key callback_failed already_registered kind_not_supported : Failure

-- The types of properties: those with a conversion, those without, and unknown ones.
pub data PropertyType : Type 0 where
  int16_type int32_type int64_type float32_type float64_type plain_type unknown_type : PropertyType

-- A decoded value: a json.Number, a list with its texts, or something else.
pub data Json (S : Type 0) : Type 0 where
  number : String → Json S
  items : List (Option String) → Json S
  other : S → Json S

-- A property's value: an integer or a float of a width, or the value as it came.
pub data Property (F S : Type 0) : Type 0 where
  whole : ℕ → ℤ → Property F S
  floating : ℕ → F → Property F S
  plain : Json S → Property F S

pub record Strconv (F : Type 0) : Type 0 where
  pub parse_int : String → ℕ → Outcome Failure ℤ
  pub parse_float : String → ℕ → Outcome Failure F

pub record DeviceInfo : Type 0 where
  pub name : String
  pub device_model : String
  pub access_template : String

pub record DeviceProperty : Type 0 where
  pub name : String
  pub property_type : PropertyType

-- `num.String()`, where another value than a number is read as the empty number.
unfoldable pub number_text : {S : Type 0} → Json S → String
number_text (number s) = s
number_text _ = ""

-- The loop of `parsePropertyKeys`.
read_keys : List (Option String) → Outcome Failure (List String)
read_keys [] = ok []
read_keys (none ∷ keys) = err invalid_property_key
read_keys (some key ∷ keys) = read_keys keys >>= λ rest. ok (key ∷ rest)

unfoldable pub parse_property_keys : {S : Type 0} → Json S → Outcome Failure (List String)
unfolding read_keys
parse_property_keys (items keys) = read_keys keys
parse_property_keys _ = err invalid_property_key

-- The properties by their names; a later one replaces an earlier one.
unfoldable pub by_name : List DeviceProperty → Dict PropertyType → Dict PropertyType
by_name [] cfgs = cfgs
by_name (p ∷ props) cfgs = by_name props (insert p.name p.property_type cfgs)

module _ {F S : Type 0} (conv : Strconv F) where
  unfoldable pub parse_property_value : PropertyType → Json S → Outcome Failure (Property F S)
  unfolding number_text
  parse_property_value int16_type v = conv.parse_int (number_text v) 16 >>= λ i. ok (whole 16 i)
  parse_property_value int32_type v = conv.parse_int (number_text v) 32 >>= λ i. ok (whole 32 i)
  parse_property_value int64_type v = conv.parse_int (number_text v) 64 >>= λ i. ok (whole 64 i)
  parse_property_value float32_type v =
      conv.parse_float (number_text v) 32 >>= λ x. ok (floating 32 x)
  parse_property_value float64_type v =
      conv.parse_float (number_text v) 64 >>= λ x. ok (floating 64 x)
  parse_property_value plain_type v = ok (plain v)
  parse_property_value unknown_type v = err type_not_supported

  -- The value of a property that the model has.
  unfoldable pub parse_configured : Option PropertyType → Json S → Outcome Failure (Property F S)
  unfolding parse_property_value
  parse_configured none v = err props_not_exist
  parse_configured (some t) v = parse_property_value t v

  -- The loop of `parsePropertyValues`.
  unfoldable pub parse_values :
      Dict PropertyType
      → Dict (Json S)
      → Dict (Property F S)
      → Outcome Failure (Dict (Property F S))
  unfolding parse_configured
  parse_values cfgs [] res = ok res
  parse_values cfgs ((key, val) ∷ props) res =
      parse_configured (lookup key cfgs) val >>= λ p. parse_values cfgs props (insert key p res)

  values_of_model :
      Option (List DeviceProperty) → Dict (Json S) → Outcome Failure (Dict (Property F S))
  unfolding parse_values by_name
  values_of_model none props = err device_not_exist
  values_of_model (some vals) props = parse_values (by_name vals []) props []

  -- `parsePropertyValues`
  unfoldable pub parse_property_values :
      Dict (List DeviceProperty)
      → DeviceInfo
      → Dict (Json S)
      → Outcome Failure (Dict (Property F S))
  unfolding values_of_model
  parse_property_values models device props =
      values_of_model (lookup device.device_model models) props

-- The kinds of messages that `processing` tells apart, without the responses.
pub data Kind : Type 0 where
  device_delta device_event property_get unknown_kind : Kind

-- A message with what its content decodes to: the properties of its blink, `none` where they are no map; an
-- event; and the keys of a request.
pub record Message (S Ev : Type 0) : Type 0 where
  pub kind : Kind
  pub device : String
  pub delta : Outcome Failure (Option (Dict (Json S)))
  pub event : Outcome Failure Ev
  pub keys : Outcome Failure (Json S)

-- A call of a callback.
pub data Call (F S Ev : Type 0) : Type 0 where
  delta_call : DeviceInfo → Dict (Property F S) → Call F S Ev
  event_call : DeviceInfo → Ev → Call F S Ev
  get_call : DeviceInfo → List String → Call F S Ev

-- The part of `DmCtx` that the handlers read; a callback is what it answers.
pub record DmCtx (F S Ev : Type 0) : Type 0 where
  pub devices : Dict DeviceInfo
  pub device_models : Dict (List DeviceProperty)
  pub delta_cb : Option (Call F S Ev → Bool)
  pub event_cb : Option (Call F S Ev → Bool)
  pub property_get_cb : Option (Call F S Ev → Bool)

-- What a handler does: the calls that it makes, and its error.
abbrev pub Handled : Type 0 → Type 0
Handled C = List C × Outcome Failure (Unit {0})

module _ {C : Type 0} where
  unfoldable pub call : (C → Bool) → C → Handled C
  call cb x = (x ∷ [], if cb x then ok tt else err callback_failed)

  -- No call, where a step of the handler fails.
  unfoldable pub then_call : {A : Type 0} → Outcome Failure A → (A → Handled C) → Handled C
  then_call (ok a) next = next a
  then_call (err e) next = ([], err e)
  then_call panic next = ([], panic)

  -- Without a callback, and for an unknown device where the handler only warns, the message is dropped.
  unfoldable pub or_drop : {A : Type 0} → Option A → (A → Handled C) → Handled C
  or_drop none next = ([], ok tt)
  or_drop (some a) next = next a

unfoldable pub or_fail : {A : Type 0} → Failure → Option A → Outcome Failure A
or_fail e none = err e
or_fail e (some a) = ok a

module _ {F S Ev : Type 0} where
  -- `RegisterDeltaCallback`
  unfoldable pub register_delta_callback :
      (Call F S Ev → Bool) → DmCtx F S Ev → DmCtx F S Ev × Outcome Failure (Unit {0})
  register_delta_callback cb c = elim c.delta_cb [
    | none ↦ (record c { delta_cb = some cb }, ok tt)
    | some old ↦ (c, err already_registered)
  ]

  unfoldable pub process_delta : Strconv F → DmCtx F S Ev → Message S Ev → Handled (Call F S Ev)
  unfolding call then_call or_fail or_drop
  process_delta conv c msg = or_drop c.delta_cb λ cb. then_call msg.delta λ content.
      then_call (or_fail invalid_delta content) λ props.
        then_call (or_fail device_not_exist (lookup msg.device c.devices)) λ dev.
          then_call (parse_property_values conv c.device_models dev props)
            λ delta. call cb (delta_call dev delta)

  unfoldable pub process_event : DmCtx F S Ev → Message S Ev → Handled (Call F S Ev)
  unfolding call then_call or_drop
  process_event c msg = or_drop c.event_cb λ cb.
      then_call msg.event
        λ event. or_drop (lookup msg.device c.devices) λ dev. call cb (event_call dev event)

  unfoldable pub process_property_get : DmCtx F S Ev → Message S Ev → Handled (Call F S Ev)
  unfolding call then_call or_drop
  process_property_get c msg = or_drop c.property_get_cb λ cb.
      or_drop (lookup msg.device c.devices) λ dev.
        then_call msg.keys
          λ content. then_call (parse_property_keys content) λ keys. call cb (get_call dev keys)

  unfoldable pub process_kind :
      Strconv F → DmCtx F S Ev → Message S Ev → Kind → Handled (Call F S Ev)
  unfolding process_delta process_event process_property_get
  process_kind conv c msg device_delta = process_delta conv c msg
  process_kind conv c msg device_event = process_event c msg
  process_kind conv c msg property_get = process_property_get c msg
  process_kind conv c msg unknown_kind = ([], err kind_not_supported)

  -- One round of `processing`, which logs the error.
  unfoldable pub process : Strconv F → DmCtx F S Ev → Message S Ev → Handled (Call F S Ev)
  unfolding process_kind
  process conv c msg = process_kind conv c msg msg.kind
