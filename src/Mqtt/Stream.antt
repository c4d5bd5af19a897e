-- ===== src/Mqtt/Stream.antt =====
-- mqtt/stream.go: one connection of the client, from its handshake to its death. The connection, the
-- observer and the log are outside: what they answer is an argument, and what they are given is a list.
pub mod Laws
pub mod Invariant
use jopa.Common.{
  ℕ, suc, ◌+◌, Bool, true, false, not, ◌&&◌, Option, none, some, List, [], ◌∷◌, ◌++◌, any, ◌==◌,
  if◌then◌else◌,
}
use jopa.Mqtt.Packet.{
  Publish, Packet, publish, puback, suback, pingreq, pingresp, connack, disconnect, other,
  connection_accepted, qos_failure,
}

pub data Failure : Type 0 where
  send_failed receive_failed expected_connack connection_denied subscription_failed : Failure
  already_connecting not_supported observer_failed missing_pong future_timeout : Failure

-- A future of gomqtt: `Cancel` and `Complete` change a pending one only.
pub data Future : Type 0 where
  pending completed canceled : Future

unfoldable pub cancel : Future → Future
cancel pending = canceled
cancel f = f

unfoldable pub complete : Future → Future
complete pending = completed
complete f = f

-- The state of `sync.Once`: while its function runs, another call of `Do` waits for ever.
pub data Once : Type 0 where
  fresh running finished : Once

-- `deadlock`: the call does not return.
pub data Run (A : Type 0) : Type 0 where
  returned : A → Run A
  deadlock : Run A

infixl 5 ◌>>=◌
abbrev pub ◌>>=◌ : {A B : Type 0} → Run A → (A → Run B) → Run B
returned a >>= f = f a
deadlock >>= f = deadlock

-- `reason` is the argument of `tomb.Kill`, `some none` after an orderly end.
pub record Stream : Type 0 where
  pub once : Once
  pub connacked : Bool
  pub connect_future : Future
  pub subscribe_future : Future
  pub reason : Option (Option Failure)
  pub conn_closed : Bool
  pub sent : List Packet
  pub published : List Publish
  pub pubacks : List ℕ
  pub errors : List Failure
  pub pongs : ℕ

unfoldable pub new_stream : Stream
new_stream = record {
  once = fresh;
  connacked = false;
  connect_future = pending;
  subscribe_future = pending;
  reason = none;
  conn_closed = false;
  sent = [];
  published = [];
  pubacks = [];
  errors = [];
  pongs = 0;
}

-- `s.once.Do(body)`
unfoldable pub do_once : Once → Run Stream → Stream → Run Stream
do_once fresh body s = body
do_once running body s = deadlock
do_once finished body s = returned s

-- `send` with the call of `die` that it makes on an error; `sent_ok` is the answer of `conn.Send`.
unfoldable pub send_using :
    (Stream → Failure → Run Stream) → Stream → Packet → Bool → Run (Stream × Option Failure)
send_using die s pkt true = returned (record s { sent = s.sent ++ pkt ∷ [] }, none)
send_using die s pkt false = do s' ← die s send_failed; returned (s', some send_failed)

-- The last lines of the function that `die` runs once.
kill : Stream → Option Failure → Stream
kill s err = record s { once = finished; reason = some err; conn_closed = true }

-- That function. `observed` says whether there is an observer; `disconnect_ok` is what `conn.Send`
-- answers to the packet Disconnect. The inner call of `die` finds the once running.
die_body : Bool → Bool → Stream → Option Failure → Run Stream
unfolding send_using do_once kill cancel
die_body observed disconnect_ok s (some err) =
    let t = record s {
      connect_future = cancel s.connect_future;
      subscribe_future = cancel s.subscribe_future;
      errors = if observed then s.errors ++ err ∷ [] else s.errors;
    } in
    returned (kill t (some err))
die_body observed disconnect_ok s none = do
  let t = record s {
    once = running;
    connect_future = cancel s.connect_future;
    subscribe_future = cancel s.subscribe_future;
  }
  (t', _) ← send_using (λ u e. do_once u.once (returned u) u) t disconnect disconnect_ok
  returned (kill t' none)

unfoldable pub die : Bool → Bool → Stream → Option Failure → Run Stream
unfolding die_body
die observed disconnect_ok s err = do_once s.once (die_body observed disconnect_ok s err) s

-- `s.tomb.Wait()`: it returns when the goroutines of the stream end, if they do.
abbrev pub wait : Bool → Stream → Run Stream
wait true s = returned s
wait false s = deadlock

-- `close`; `ended` says whether the goroutines of the stream end.
unfoldable pub close : Bool → Bool → Bool → Stream → Run Stream
unfolding die
close observed disconnect_ok ended s = die observed disconnect_ok s none >>= wait ended

unfoldable pub send : Bool → Stream → Packet → Bool → Run (Stream × Option Failure)
unfolding die send_using
send observed s pkt sent_ok = send_using (λ u e. die observed true u (some e)) s pkt sent_ok

unfoldable pub on_connack : Packet → Option Failure
on_connack (connack code) = if code == connection_accepted then none else some connection_denied
on_connack _ = some expected_connack

-- The subscription has the packet id 1.
unfoldable pub on_suback : Stream → ℕ → List ℕ → Stream × Option Failure
unfolding complete
on_suback s id codes =
    if not (id == 1)
    then (s, none)
    else if any (λ code. code == qos_failure) codes
    then (s, some subscription_failed)
    else (record s { subscribe_future = complete s.subscribe_future }, none)

-- What the world answers while a packet is handled: whether the observer takes a publish packet and a
-- puback packet without an error, whether `conn.Send` takes the acknowledgement, and the client's
-- options.
pub record World : Type 0 where
  pub observed : Bool
  pub publish_ok : Bool
  pub puback_ok : Bool
  pub ack_sent_ok : Bool
  pub disable_auto_ack : Bool

on_publish : World → Stream → Publish → Run (Stream × Option Failure)
unfolding send
on_publish w s p =
    let t = if w.observed then record s { published = s.published ++ p ∷ [] } else s in
    let ack = send w.observed t (puback p.id) w.ack_sent_ok in
    if w.observed && not w.publish_ok
    then returned (t, none)
    else if not w.disable_auto_ack && p.qos == 1
    then ack
    else returned (t, none)

on_puback : World → Stream → ℕ → Stream × Option Failure
on_puback w s id =
    if w.observed
    then (
      record s { pubacks = s.pubacks ++ id ∷ [] },
      if w.puback_ok then none else some observer_failed,
    )
    else (s, none)

-- The `switch` over a packet that follows the handshake.
unfoldable pub dispatch : World → Stream → Packet → Run (Stream × Option Failure)
unfolding on_publish on_puback on_suback
dispatch w s (publish p) = on_publish w s p
dispatch w s (puback id) = returned (on_puback w s id)
dispatch w s (suback id codes) = returned (on_suback s id codes)
dispatch w s pingresp = returned (record s { pongs = s.pongs + 1 }, none)
dispatch w s (connack _) = returned (s, some already_connecting)
dispatch w s _ = returned (s, some not_supported)

-- An error ends the stream and the loop; the flag says whether the loop goes on.
fail_or_go : World → Stream × Option Failure → Run (Stream × Bool)
unfolding die
fail_or_go w (s, none) = returned (s, true)
fail_or_go w (s, some err) = do s' ← die w.observed true s (some err); returned (s', false)

-- The first packet.
handshake : World → Stream → Option Failure → Run (Stream × Bool)
unfolding fail_or_go complete
handshake w s none =
    returned (record s { connacked = true; connect_future = complete s.connect_future }, true)
handshake w s (some err) = fail_or_go w (record s { connacked = true }, some err)

-- One round of the loop of `receiving`; `none` is an error of `conn.Receive`.
unfoldable pub receive : World → Stream → Option Packet → Run (Stream × Bool)
unfolding dispatch handshake on_connack fail_or_go
receive w s none = fail_or_go w (s, some receive_failed)
receive w s (some pkt) =
    let handled = dispatch w s pkt >>= fail_or_go w in
    if s.connacked then handled else handshake w s (on_connack pkt)
