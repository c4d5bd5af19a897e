-- ===== src/Dm/Request.antt =====
-- dmcontext/context.go: `GetDeviceProperties`, the goroutines that run it, and the response that they wait for. A step
-- is what a goroutine does between two points at which another one can come in between.
pub mod Laws
pub mod Owners
pub mod Answer
mod Samples
use jopa.Common.{
  ℕ, suc, ◌+◌, String, Bool, true, false, if◌then◌else◌, List, [], ◌∷◌, Option, none, some,
}
use jopa.Common.Dict.{Dict, lookup, insert, delete}
use jopa.Common.Table.{Table, find, set}
use jopa.Common.Outcome.{Outcome, ok, err, panic, ◌>>=◌}
use jopa.Dm.Context.{Json, Property, DeviceInfo, DmCtx, parse_property_values, Strconv}
use jopa.Dm.Context as Context

pub data Failure : Type 0 where
  publish_failed waiting_already timed_out response_channel_not_exist bad_response : Failure
  bad_values : Context.Failure → Failure

-- `DeviceShadow`, with the values `V` of its report and its desire.
pub record Shadow (V : Type 0) : Type 0 where
  pub name : String
  pub report : Dict V
  pub desire : Dict V

-- Where a call of `GetDeviceProperties` is: it has asked for the properties, stored its channel, waits for the
-- channel or the timer, has received, or was timed out; and its result.
pub data Phase (V : Type 0) : Type 0 where
  requested stored waiting expired : Phase V
  received : Shadow V → Phase V
  returned : Outcome Failure (Shadow V) → Phase V

-- A call, for a device.
pub record Getter (V : Type 0) : Type 0 where
  pub device : String
  pub phase : Phase V

-- The calls by the numbers of their channels, and `DmCtx.response`, the channel by the device.
pub record Requests (V : Type 0) : Type 0 where
  pub next_channel : ℕ
  pub getters : Table (Getter V)
  pub response : Dict ℕ

module _ {V : Type 0} where
  abbrev pub no_requests : Requests V
  no_requests = record { next_channel = 0; getters = []; response = [] }

  unfoldable pub move : ℕ → Getter V → Phase V → Requests V → Requests V
  move g getter phase q = record q { getters = set g (record getter { phase = phase }) q.getters }

  -- The request is published, or that fails and the call returns.
  unfoldable pub get_call : String → Bool → Requests V → Requests V
  get_call device published q = record q {
    next_channel = suc q.next_channel;
    getters =
        set q.next_channel
          (record {
            device = device;
            phase = if published then requested else returned (err publish_failed);
          })
          q.getters;
  }

  -- `LoadOrStore`: the call returns, where another one has stored its channel.
  unfoldable pub store_channel : ℕ → Getter V → Option ℕ → Requests V → Requests V
  unfolding move
  store_channel g getter (some other) q = move g getter (returned (err waiting_already)) q
  store_channel g getter none q =
      let stored_q = move g getter stored q in
      record stored_q { response = insert getter.device g q.response }

  -- The deferred function frees the device.
  unfoldable pub give_up : ℕ → Getter V → Outcome Failure (Shadow V) → Requests V → Requests V
  unfolding move
  give_up g getter result q =
      let returned_q = move g getter (returned result) q in
      record returned_q { response = delete getter.device q.response }

  -- The next step of a call by itself, from its phase.
  advance_phase : ℕ → Getter V → Phase V → Requests V → Requests V
  unfolding store_channel give_up
  advance_phase g getter requested q = store_channel g getter (lookup getter.device q.response) q
  advance_phase g getter stored q = move g getter waiting q
  advance_phase g getter waiting q = q
  advance_phase g getter expired q = give_up g getter (err timed_out) q
  advance_phase g getter (received shadow) q = give_up g getter (ok shadow) q
  advance_phase g getter (returned result) q = q

  advance_found : ℕ → Option (Getter V) → Requests V → Requests V
  unfolding advance_phase
  advance_found g none q = q
  advance_found g (some getter) q = advance_phase g getter getter.phase q

  unfoldable pub get_advance : ℕ → Requests V → Requests V
  unfolding advance_found
  get_advance g q = advance_found g (find g q.getters) q

  -- A waiting call goes on with this phase, any other is left as it is.
  wake : ℕ → Getter V → Phase V → Phase V → Requests V → Requests V
  unfolding move
  wake g getter waiting next q = move g getter next q
  wake g getter _ next q = q

  unfoldable pub wake_found : ℕ → Option (Getter V) → Phase V → Requests V → Requests V
  unfolding wake
  wake_found g none next q = q
  wake_found g (some getter) next q = wake g getter getter.phase next q

  -- The timer of a call.
  unfoldable pub on_timeout : ℕ → Requests V → Requests V
  unfolding wake_found
  on_timeout g q = wake_found g (find g q.getters) expired q

  -- The channel has no buffer: who does not wait gets nothing, and the response is dropped.
  unfoldable pub deliver : ℕ → Shadow V → Requests V → Requests V
  unfolding wake_found
  deliver g shadow q = wake_found g (find g q.getters) (received shadow) q

-- What the content of a response decodes to; `none` is null.
abbrev pub Content : Type 0 → Type 0
Content S = Outcome Failure (Option (Shadow (Json S)))

abbrev pub of_values : {A : Type 0} → Outcome Context.Failure A → Outcome Failure A
of_values (ok a) = ok a
of_values (err e) = err (bad_values e)
of_values panic = panic

-- A device that is unknown has empty fields.
abbrev pub or_no_device : Option DeviceInfo → DeviceInfo
or_no_device none = record { name = ""; device_model = ""; access_template = "" }
or_no_device (some device) = device

module _ {F S Ev : Type 0} (conv : Strconv F) (c : DmCtx F S Ev) where
  parse_shadow : String → Option (Shadow (Json S)) → Outcome Failure (Shadow (Property F S))
  parse_shadow device none = panic
  parse_shadow device (some shadow) =
      let info = or_no_device (lookup device c.devices) in
      of_values (parse_property_values conv c.device_models info shadow.report) >>= λ report.
      of_values (parse_property_values conv c.device_models info shadow.desire) >>= λ desire.
      ok (record { name = shadow.name; report = report; desire = desire })

  -- The shadow that a response brings, its values parsed by the model of the device.
  unfoldable pub read_response : String → Content S → Outcome Failure (Shadow (Property F S))
  unfolding parse_shadow
  read_response device content = content >>= parse_shadow device

  send_shadow :
      ℕ
      → Outcome Failure (Shadow (Property F S))
      → Requests (Property F S)
      → Requests (Property F S) × Outcome Failure (Unit {0})
  send_shadow g (ok shadow) q = (deliver g shadow q, ok tt)
  send_shadow g (err e) q = (q, err e)
  send_shadow g panic q = (q, panic)

  respond :
      String
      → Content S
      → Option ℕ
      → Requests (Property F S)
      → Requests (Property F S) × Outcome Failure (Unit {0})
  unfolding send_shadow
  respond device content none q = (q, err response_channel_not_exist)
  respond device content (some g) q = send_shadow g (read_response device content) q

  -- `processResponse`
  unfoldable pub process_response :
      String
      → Content S
      → Requests (Property F S)
      → Requests (Property F S) × Outcome Failure (Unit {0})
  unfolding respond
  process_response device content q = respond device content (lookup device q.response) q

  -- What happens: a call, a step of one, its timer, and a response, for a device.
  pub data Event : Type 0 where
    to_call : String → Bool → Event
    to_advance : ℕ → Event
    to_expire : ℕ → Event
    to_respond : String → Content S → Event

  unfoldable pub apply : Event → Requests (Property F S) → Requests (Property F S)
  unfolding get_call get_advance on_timeout process_response
  apply (to_call device published) q = get_call device published q
  apply (to_advance g) q = get_advance g q
  apply (to_expire g) q = on_timeout g q
  apply (to_respond device content) q = let (next, e) = process_response device content q in next

  unfoldable pub run : List Event → Requests (Property F S) → Requests (Property F S)
  unfolding apply
  run [] q = q
  run (e ∷ es) q = run es (apply e q)
