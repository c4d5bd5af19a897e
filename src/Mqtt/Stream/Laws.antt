-- ===== src/Mqtt/Stream/Laws.antt =====
-- The life of a stream: its handshake, its acknowledgements and its end.
use jopa.Common.{
  Bool, true, false, not, ◌⊎◌, ◌&&◌, ◌||◌, none, some, List, [], ◌∷◌, ◌++◌, ◌==◌, ◌≡◌, ◌≢◌, refl,
  sym, ◌↔◌, inl, inr, arith, if◌then◌else◌, append-nil, Bool-cases, ap, ==_iff,
}
use jopa.Mqtt.Packet.{Publish, Packet, publish, puback, connack, connection_accepted}
use jopa.Mqtt.Stream.{
  Failure, pending, completed, canceled, fresh, running, finished, Run, returned, deadlock, Stream,
  World, close, receive, handshake, on_connack, cancel, connection_denied, expected_connack,
  send_failed,
}

-- The packet `pkt` says that the broker has accepted the connection.
abbrev pub Accepts : Packet → Type 0
Accepts pkt = pkt ≡ connack connection_accepted

-- Closing a stream, outside the function of `once.Do`, does not return exactly if the goroutines of the stream do not
-- end, so that the wait for them does not, or if the stream is still alive and the packet Disconnect cannot be sent: `send`
-- then calls `die` again, from inside `once.Do`.
pub close-deadlock :
    (observed disconnect_ok ended : Bool) (s : Stream)
    → s.once ≢ running
    → (close observed disconnect_ok ended s ≡ deadlock)
      ↔ ((ended ≡ false) ⊎ ((s.once ≡ fresh) × (disconnect_ok ≡ false)))
unfolding close
close-deadlock observed true true s h = (λ e. ground arith, λ e. ground arith)
close-deadlock observed true false s h = (λ e. inl refl, λ e. ground arith)
close-deadlock observed false true s h = (λ e. ground arith, λ e. ground arith)
close-deadlock observed false false s h = (λ e. inl refl, λ e. ground arith)

-- The stream goes on, with its connect future completed, exactly if `P`; else it has died of an error.
abbrev pub Decided : Type 0 → Run (Stream × Bool) → Type 0
Decided P run =
    (s : Stream) × (go : Bool) × (run ≡ returned (s, go))
    × ((go ≡ true) ↔ P)
    × (go ≡ true → (s.connect_future ≡ completed) × (s.once ≡ fresh))
    × (go ≡ false → (s.connect_future ≡ canceled) × (s.once ≡ finished) × (s.reason ≢ some none))

module _ (w : World) (s : Stream) (l : s.once ≡ fresh) (f : s.connect_future ≡ pending) where
  handshake_accepted : {P : Type 0} → P → Decided P (handshake w s none)
  unfolding handshake
  handshake_accepted p = (
    record s { connacked = true; connect_future = completed },
    true,
    ground arith,
    (λ _. p, λ _. refl),
    λ _. (refl, l),
    λ e. cc,
  )

  handshake_refused : {P : Type 0} (err : Failure) → ¬ P → Decided P (handshake w s (some err))
  unfolding handshake
  handshake_refused err p = (
    record s {
      connacked = true;
      once = finished;
      connect_future = canceled;
      subscribe_future = cancel s.subscribe_future;
      errors = if w.observed then s.errors ++ err ∷ [] else s.errors;
      reason = some (some err);
      conn_closed = true;
    },
    false,
    ground arith,
    (λ e. cc, λ h. absurd (p h)),
    λ e. cc,
    λ _. (refl, refl, λ e. cc),
  )

  handshake-Decided : (pkt : Packet) → Decided (Accepts pkt) (handshake w s (on_connack pkt))
  unfolding on_connack
  handshake-Decided (connack code) = elim (Bool-cases (code == connection_accepted)) [
    | inl ok ↦ rw ok (handshake_accepted (ap connack ((==_iff code _).0 ok)))
    | inr bad ↦ rw bad (handshake_refused connection_denied (λ e. ground arith))
  ]
  handshake-Decided _ = handshake_refused expected_connack (λ e. cc)

  -- The first packet decides: the stream goes on, with its connect future completed, exactly if the
  -- packet accepts the connection; after any other packet it has died of an error.
  pub receive_handshake :
      (pkt : Packet) → s.connacked ≡ false → Decided (Accepts pkt) (receive w s (some pkt))
  unfolding receive
  receive_handshake pkt c = rw c (handshake-Decided pkt)

-- The acknowledgement that is due for a publish packet.
abbrev pub due_acks : World → Publish → List Packet
due_acks w p =
    if (w.observed && not w.publish_ok) || w.disable_auto_ack || not (p.qos == 1)
    then []
    else puback p.id ∷ []

abbrev taken : World → Stream → Publish → Stream
taken w s p = record s { published = if w.observed then s.published ++ p ∷ [] else s.published }

abbrev killed : World → Stream → Stream
killed w s = record s {
  once = finished;
  connect_future = cancel s.connect_future;
  subscribe_future = cancel s.subscribe_future;
  errors = if w.observed then s.errors ++ send_failed ∷ [] else s.errors;
  reason = some (some send_failed);
  conn_closed = true;
}

-- The stream went on with the acknowledgement that was due, or has died of one that could not be sent.
abbrev pub Handled : World → Stream → Publish → Run (Stream × Bool) → Type 0
Handled w s p run =
    (s' : Stream) × (go : Bool) × (run ≡ returned (s', go))
    × (s'.published ≡ (if w.observed then s.published ++ p ∷ [] else s.published))
    × (((go ≡ true)
          × (s'.sent ≡ s.sent ++ due_acks w p)
          × (s'.once ≡ fresh)
          × ((due_acks w p ≡ []) ⊎ (w.ack_sent_ok ≡ true)))
        ⊎ ((go ≡ false)
            × (s'.sent ≡ s.sent)
            × (s'.once ≡ finished)
            × (s'.reason ≡ some (some send_failed))
            × (s'.conn_closed ≡ true)
            × (due_acks w p ≡ puback p.id ∷ [])
            × (w.ack_sent_ok ≡ false)))

-- After the handshake a publish packet that reaches a live stream is given to the observer once. If its quality is 1, the
-- observer takes it and the client acknowledges by itself, exactly one acknowledgement with its packet id is sent and the
-- stream goes on, unless the acknowledgement cannot be sent: then nothing is sent, and the stream has died of that
-- error and its connection is closed. Otherwise nothing is sent and the stream goes on.
pub receive-publish :
    (w : World) (s : Stream) (p : Publish)
    → s.connacked ≡ true
    → s.once ≡ fresh
    → Handled w s p (receive w s (some (publish p)))
unfolding receive
receive-publish w s p c alive =
    elim (Bool-cases ((w.observed && not w.publish_ok) || w.disable_auto_ack || not (p.qos == 1))) [
      | inl no_ack ↦ (
        taken w s p,
        true,
        ground arith,
        refl,
        inl (refl, rw no_ack (sym (append-nil s.sent)), alive, inl (rw no_ack refl)),
      )
      | inr ack ↦ elim (Bool-cases w.ack_sent_ok) [
        | inl sent ↦ (
          record (taken w s p) { sent = s.sent ++ puback p.id ∷ [] },
          true,
          ground arith,
          refl,
          inl (refl, rw ack refl, alive, inr sent),
        )
        | inr lost ↦ (
          killed w (taken w s p),
          false,
          ground arith,
          refl,
          inr (refl, refl, refl, refl, refl, rw ack refl, lost),
        )
      ]
    ]
