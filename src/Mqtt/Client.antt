-- ===== src/Mqtt/Client.antt =====
-- mqtt/client.go, with `sending` of mqtt/stream.go: packets wait in a bounded channel, and one goroutine
-- connects, sends them, and connects again. What the scheduler, the network and the callers do is a list
-- of events.
pub mod Laws
pub mod Delivery
use jopa.Common.{
  ℕ, zero, suc, ◌+◌, String, Bool, true, false, not, ◌&&◌, Option, none, some, List, [], ◌∷◌, ◌++◌,
  length, ltb, ◌==◌, if◌then◌else◌,
}
use jopa.Mqtt.Counter.{Counter, new_counter, next_id}
use jopa.Mqtt.Packet.{Publish, Packet, publish}

-- `max_cache` is `ops.MaxCacheMessages`, the channel's capacity; `dying` is the state of the tomb.
pub record Client : Type 0 where
  pub max_cache : ℕ
  pub ids : Counter
  pub cache : List Packet
  pub dying : Bool

-- `NewClient`
unfoldable pub new_client : ℕ → Client
unfolding new_counter
new_client max_cache = record {
  max_cache = max_cache;
  ids = new_counter;
  cache = [];
  dying = false;
}

-- The packet that `Publish` hands to `Send`: one that wants an acknowledgement gets an id.
unfoldable pub make_publish : Client → ℕ → String → String → ℕ → Bool → Bool → Client × Packet
unfolding next_id
make_publish c qos topic payload pid retain dup =
    let pkt = λ (id : ℕ). publish (record {
      id = id;
      dup = dup;
      qos = qos;
      retain = retain;
      topic = topic;
      payload = payload;
    }) in
    let (ids, id) = next_id c.ids in
    if not (qos == 0) && pid == 0 then (record c { ids = ids }, pkt id) else (c, pkt pid)

-- What a select in `Send` or `SendOrDrop` can do; where several cases are ready, Go takes any.
pub data SendResult : Type 0 where
  accepted already_closed dropped blocked : SendResult

-- The case that puts the packet into the channel is ready.
unfoldable pub has_room : Client → Bool
has_room c = ltb (length c.cache) c.max_cache

unfoldable pub put : Client → Packet → Client
put c pkt = record c { cache = c.cache ++ pkt ∷ [] }

-- `Send`: `prefer_closed` is the scheduler's choice where both cases are ready.
unfoldable pub send : Bool → Client → Packet → Client × SendResult
unfolding has_room put
send prefer_closed c pkt =
    if c.dying && (if has_room c then prefer_closed else true)
    then (c, already_closed)
    else if has_room c
    then (put c pkt, accepted)
    else (c, blocked)

-- `SendOrDrop`: the default case is taken where no other is ready.
unfoldable pub send_or_drop : Bool → Client → Packet → Client × SendResult
unfolding has_room put
send_or_drop prefer_closed c pkt =
    if c.dying && (if has_room c then prefer_closed else true)
    then (c, already_closed)
    else if has_room c
    then (put c pkt, accepted)
    else (c, dropped)

-- Where the goroutine stands: before `connect`, at the head of `sending`, in its loop, or at its end.
pub data Phase : Type 0 where
  connecting resending sending stopped : Phase

-- `curr` is the packet whose sending failed; `delivered` are the packets that a connection took, and
-- `history` those that the channel took, both in order.
pub record Session : Type 0 where
  pub client : Client
  pub phase : Phase
  pub curr : Option Packet
  pub delivered : List Packet
  pub history : List Packet

-- `enqueue` is a call of `Send` or `SendOrDrop` that the channel takes. The flag of the next three is the
-- answer of `connect` and of `conn.Send`. `stream_dies` and `kill` are the two `Dying` channels, and
-- `stop` the first select of `connecting`.
pub data Event : Type 0 where
  enqueue : Packet → Event
  connect : Bool → Event
  resend : Bool → Event
  take : Bool → Event
  stream_dies kill stop : Event

unfoldable pub new_session : ℕ → Session
unfolding new_client
new_session max_cache = record {
  client = new_client max_cache;
  phase = connecting;
  curr = none;
  delivered = [];
  history = [];
}

on_resend : Session → Bool → Option Packet → Session
on_resend s ok none = record s { phase = sending }
on_resend s true (some pkt) = record s {
  phase = sending;
  curr = none;
  delivered = s.delivered ++ pkt ∷ [];
}
on_resend s false (some pkt) = record s { phase = connecting; curr = some pkt }

on_take : Session → Bool → List Packet → Session
on_take s ok [] = s
on_take s true (pkt ∷ rest) = record s {
  client = record s.client { cache = rest };
  delivered = s.delivered ++ pkt ∷ [];
}
on_take s false (pkt ∷ rest) = record s {
  client = record s.client { cache = rest };
  phase = connecting;
  curr = some pkt;
}

-- An event that cannot happen in the phase changes nothing.
on_event : Phase → Session → Event → Session
unfolding on_resend on_take has_room put
on_event p s (enqueue pkt) =
    if has_room s.client
    then record s { client = put s.client pkt; history = s.history ++ pkt ∷ [] }
    else s
on_event p s kill = record s { client = record s.client { dying = true } }
on_event connecting s (connect true) = record s { phase = resending }
on_event connecting s stop = if s.client.dying then record s { phase = stopped } else s
on_event resending s (resend ok) = on_resend s ok s.curr
on_event sending s (take ok) = on_take s ok s.client.cache
on_event sending s stream_dies = record s { phase = connecting }
on_event sending s stop = if s.client.dying then record s { phase = connecting } else s
on_event _ s _ = s

unfoldable pub step : Session → Event → Session
unfolding on_event
step s e = on_event s.phase s e

unfoldable pub run : Session → List Event → Session
run s [] = s
run s (e ∷ es) = run (step s e) es
