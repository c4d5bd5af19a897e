-- ===== src/Mqtt/Stream/Invariant.antt =====
-- The invariant of a stream, and that the loop of `receiving` keeps it.
use jopa.Common.{
  Bool, true, false, not, ◌&&◌, Option, none, some, [], ◌∷◌, ◌++◌, any, ◌==◌, ◌≡◌, ◌≢◌, refl,
  if◌then◌else◌, if_holds,
}
use jopa.Mqtt.Packet.{Publish, Packet, publish, puback, suback, pingresp, connack, qos_failure}
use jopa.Mqtt.Stream.{
  Failure, Future, pending, completed, canceled, cancel, complete, Once, fresh, running, finished,
  Run, returned, deadlock, do_once, ◌>>=◌, Stream, World, new_stream, send, die, die_body,
  on_publish, on_connack, dispatch, handshake, fail_or_go, receive, send_failed, receive_failed,
}

-- Between two calls the once does not run; a stream that has died has no pending future, a reason and a
-- closed connection, and a live one has neither.
pub record IsValid (s : Stream) : Type 0 where
  pub not_running : s.once ≢ running
  pub settled : s.once ≡ finished → (s.connect_future ≢ pending) × (s.subscribe_future ≢ pending)
  pub ended : s.once ≡ finished → (s.reason ≢ none) × (s.conn_closed ≡ true)
  pub live : s.once ≡ fresh → (s.reason ≡ none) × (s.conn_closed ≡ false)

cancel-ne_pending : (f : Future) → cancel f ≢ pending
unfolding cancel
cancel-ne_pending pending e = cc
cancel-ne_pending completed e = cc
cancel-ne_pending canceled e = cc

complete-ne_pending : (f : Future) → f ≢ pending → complete f ≢ pending
unfolding complete
complete-ne_pending pending h e = cc
complete-ne_pending completed h e = cc
complete-ne_pending canceled h e = cc

-- The call has returned, and the stream has died properly.
abbrev Dead : Run Stream → Type 0
Dead (returned s) = IsValid s × (s.once ≡ finished)
Dead deadlock = ⊥

do_die-Dead :
    (observed : Bool) (s : Stream) (err : Failure) (o : Once)
    → s.once ≡ o
    → IsValid s
    → Dead (do_once o (die_body observed true s (some err)) s)
unfolding do_once die_body
do_die-Dead observed s err fresh e v = (
  record {
    not_running = λ q. cc;
    settled = λ _. (cancel-ne_pending s.connect_future, cancel-ne_pending s.subscribe_future);
    ended = λ _. (λ q. cc, refl);
    live = λ q. cc;
  },
  refl,
)
do_die-Dead observed s err running e v = v.not_running e
do_die-Dead observed s err finished e v = (v, e)

die-Dead :
    (observed : Bool) (s : Stream) (err : Failure)
    → IsValid s
    → Dead (die observed true s (some err))
unfolding die
die-Dead observed s err v = do_die-Dead observed s err s.once refl v

-- The call has returned a valid stream, dead if the loop is to stop.
abbrev pub Kept : Run (Stream × Bool) → Type 0
Kept (returned (s, go)) = IsValid s × (go ≡ false → s.once ≡ finished)
Kept deadlock = ⊥

abbrev ValidResult : Run (Stream × Option Failure) → Type 0
ValidResult (returned (s, _)) = IsValid s
ValidResult deadlock = ⊥

stop-Kept : (r : Run Stream) → Dead r → Kept (do s ← r; returned (s, false))
stop-Kept (returned s) (v, e) = (v, λ _. e)
stop-Kept deadlock h = h

fail_or_go-Kept :
    (w : World) (s : Stream) (err : Option Failure) → IsValid s → Kept (fail_or_go w (s, err))
unfolding fail_or_go
fail_or_go-Kept w s none v = (v, λ e. cc)
fail_or_go-Kept w s (some err) v = stop-Kept _ (die-Dead w.observed s err v)

fail_or_go_bind :
    (w : World) (r : Run (Stream × Option Failure)) → ValidResult r → Kept (r >>= fail_or_go w)
fail_or_go_bind w (returned (s, err)) v = fail_or_go-Kept w s err v
fail_or_go_bind w deadlock v = v

send_stop : (r : Run Stream) (e : Failure) → Dead r → ValidResult (do s ← r; returned (s, some e))
send_stop (returned s) e (v, _) = v
send_stop deadlock e h = h

-- A change of the lists and counts alone keeps the invariant.
IsValid-of_same :
    (s t : Stream)
    → IsValid s
    → t.once ≡ s.once
    → t.connect_future ≡ s.connect_future
    → t.subscribe_future ≡ s.subscribe_future
    → t.reason ≡ s.reason
    → t.conn_closed ≡ s.conn_closed
    → IsValid t
IsValid-of_same s t v eo ec es er ek = record {
  not_running = rw eo v.not_running;
  settled = rw (eo, ec, es) v.settled;
  ended = rw (eo, er, ek) v.ended;
  live = rw (eo, er, ek) v.live;
}

send-ValidResult :
    (observed : Bool) (s : Stream) (pkt : Packet) (sent_ok : Bool)
    → IsValid s
    → ValidResult (send observed s pkt sent_ok)
unfolding send
send-ValidResult observed s pkt true v = IsValid-of_same s _ v refl refl refl refl refl
send-ValidResult observed s pkt false v =
    send_stop _ send_failed (die-Dead observed s send_failed v)

on_publish-ValidResult :
    (w : World) (s : Stream) (p : Publish) → IsValid s → ValidResult (on_publish w s p)
unfolding on_publish
on_publish-ValidResult w s p v =
    let t : Stream = if w.observed then record s { published = s.published ++ p ∷ [] } else s in
    let vt : IsValid t =
      if_holds IsValid w.observed (IsValid-of_same s _ v refl refl refl refl refl) v in
    if_holds ValidResult (w.observed && not w.publish_ok) vt (
      if_holds ValidResult (not w.disable_auto_ack && p.qos == 1)
        (send-ValidResult w.observed t (puback p.id) w.ack_sent_ok vt) vt)

dispatch-ValidResult :
    (w : World) (s : Stream) (pkt : Packet) → IsValid s → ValidResult (dispatch w s pkt)
unfolding dispatch
dispatch-ValidResult w s (publish p) v = on_publish-ValidResult w s p v
dispatch-ValidResult w s (puback id) v =
    if_holds (λ (r : Stream × Option Failure). IsValid r.0) w.observed
      (IsValid-of_same s _ v refl refl refl refl refl) v
dispatch-ValidResult w s (suback id codes) v =
    if_holds (λ (r : Stream × Option Failure). IsValid r.0) (not (id == 1)) v
      (if_holds (λ (r : Stream × Option Failure). IsValid r.0)
        (any (λ code. code == qos_failure) codes) v
        (record {
          not_running = v.not_running;
          settled = λ e. ((v.settled e).0, complete-ne_pending s.subscribe_future (v.settled e).1);
          ended = v.ended;
          live = v.live;
        }))
dispatch-ValidResult w s pingresp v = IsValid-of_same s _ v refl refl refl refl refl
dispatch-ValidResult w s (connack _) v = v
dispatch-ValidResult w s _ v = v

handshake-Kept :
    (w : World) (s : Stream) (err : Option Failure) → IsValid s → Kept (handshake w s err)
unfolding handshake
handshake-Kept w s none v = (
  record {
    not_running = v.not_running;
    settled = λ e. (complete-ne_pending s.connect_future (v.settled e).0, (v.settled e).1);
    ended = v.ended;
    live = v.live;
  },
  λ e. cc,
)
handshake-Kept w s (some err) v =
    fail_or_go-Kept w (record s { connacked = true }) (some err)
      (IsValid-of_same s _ v refl refl refl refl refl)

-- Whatever is received, in whatever order, a round of the loop returns and keeps the invariant; the loop
-- stops only with a stream that has died.
pub receive-Kept :
    (w : World) (s : Stream) (received : Option Packet) → IsValid s → Kept (receive w s received)
unfolding receive
receive-Kept w s none v = fail_or_go-Kept w s (some receive_failed) v
receive-Kept w s (some pkt) v =
    if_holds Kept s.connacked
      (fail_or_go_bind w (dispatch w s pkt) (dispatch-ValidResult w s pkt v))
      (handshake-Kept w s (on_connack pkt) v)

pub new_stream-IsValid : IsValid new_stream
unfolding new_stream
new_stream-IsValid = record {
  not_running = λ q. cc;
  settled = λ q. cc;
  ended = λ q. cc;
  live = λ _. (refl, refl);
}
