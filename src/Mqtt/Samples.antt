-- ===== src/Mqtt/Samples.antt =====
-- The theorems on mqtt at concrete data, and runs of its operations.
use jopa.Common.{
  Bool, true, false, some, List, [], ◌∷◌, ◌≡◌, ◌≢◌, refl, ◌↔◌, ◌⊎◌, arith, codes, ◌+◌, length,
}
use jopa.Mqtt.Topic.{check_topic}
use jopa.Mqtt.Topic.Laws.{ValidTopic, check_topic_iff}
use jopa.Mqtt.Counter.{Counter, nth_id, IsId, nth_id_period}
use jopa.Mqtt.Packet.{Publish, publish, puback}
use jopa.Mqtt.Stream.{Stream, World, deadlock, new_stream, fresh, receive, close}
use jopa.Mqtt.Stream.Laws.{Handled, close-deadlock, receive-publish}
use jopa.Mqtt.Stream.Invariant.{Kept, receive-Kept, new_stream-IsValid}
use jopa.Mqtt.Client.{new_session, run, step, enqueue, connect, resend, take, Event}
use jopa.Mqtt.Client.Laws.{Inv, run-Inv}
use jopa.Mqtt.Client.Delivery.{good_connection, good_connection-delivers}

good_topic : check_topic (codes "$SYS/a/+/#") true [] ≡ true
unfolding check_topic
good_topic = refl

hash_inside : check_topic (codes "a/#/b") true [] ≡ false
unfolding check_topic
hash_inside = refl

check_topic_iff_example :
    (check_topic (codes "a/+/#") true [] ≡ true) ↔ ValidTopic true (codes "a/+/#")
check_topic_iff_example = check_topic_iff (codes "a/+/#") true

abbrev full_counter : Counter
full_counter = record { next = 65534 }

ids_wrap : nth_id 2 full_counter ≡ 1
unfolding nth_id
ids_wrap = refl

nth_id_period_example :
    (nth_id 0 full_counter ≢ nth_id 3 full_counter)
    × IsId (nth_id 0 full_counter)
    × (nth_id (0 + 65535) full_counter ≡ nth_id 0 full_counter)
nth_id_period_example =
    nth_id_period full_counter 0 3 (omega arith, omega arith) (omega arith) (omega arith)

abbrev message : Publish
message = record { id = 7; dup = false; qos = 1; retain = false; topic = "a"; payload = "x" }

abbrev world : World
world = record {
  observed = true;
  publish_ok = true;
  puback_ok = true;
  ack_sent_ok = true;
  disable_auto_ack = false;
}

-- A stream after its handshake.
abbrev open_stream : Stream
unfolding new_stream
open_stream = record new_stream { connacked = true }

receive-publish_example :
    Handled world open_stream message (receive world open_stream (some (publish message)))
unfolding new_stream
receive-publish_example = receive-publish world open_stream message refl refl

receive-Kept_example : Kept (receive world new_stream (some (puback 3)))
receive-Kept_example = receive-Kept world new_stream (some (puback 3)) new_stream-IsValid

close-deadlock_example :
    (close true false true new_stream ≡ deadlock)
    ↔ ((true ≡ false) ⊎ ((new_stream.once ≡ fresh) × (◌≡◌ {A = Bool} false false)))
unfolding new_stream
close-deadlock_example = close-deadlock true false true new_stream (λ e. cc)

-- Two packets; the second is in hand when the connection breaks.
abbrev events : List Event
events =
    enqueue (publish message)
    ∷ enqueue (puback 1)
    ∷ connect true
    ∷ resend true
    ∷ take true
    ∷ take false
    ∷ []

run-Inv_example : Inv (run (new_session 10) events)
run-Inv_example = run-Inv 10 events

good_connection-delivers_example :
    let s = run (new_session 10) events in
    (run s (good_connection (length s.client.cache))).delivered ≡ s.history
unfolding run new_session step
good_connection-delivers_example = good_connection-delivers 10 events refl
