-- ===== src/Mqtt/Client/Delivery.antt =====
-- A connection that stands lets the client deliver all that its channel has taken.
use jopa.Common.{
  ℕ, zero, suc, true, Option, none, some, List, [], ◌∷◌, ◌++◌, length, ◌≡◌, refl, sym, ◌∙◌, ap,
  arith, append-nil, subst,
}
use jopa.Mqtt.Packet.{Packet}
use jopa.Mqtt.Client.{
  Session, Phase, connecting, resending, sending, Event, connect, resend, take, new_session, step,
  run, on_event, on_resend, on_take,
}
use jopa.Mqtt.Client.Laws.{Inv, in_hand, run-Inv, run_from-Inv, step-Inv}

-- The packet in hand is sent over a new connection, then `n` packets of the channel.
abbrev pub takes : ℕ → List Event
takes zero = []
takes (suc n) = take true ∷ takes n

abbrev pub good_connection : ℕ → List Event
good_connection n = connect true ∷ resend true ∷ takes n

-- In the loop, with a channel of this length and this history.
record Sending (n : ℕ) (h : List Packet) (s : Session) : Type 0 where
  phase : s.phase ≡ sending
  left : length s.client.cache ≡ n
  history : s.history ≡ h

step_at : (s : Session) (e : Event) (p : Phase) → s.phase ≡ p → step s e ≡ on_event p s e
unfolding step
step_at s e p q = ap (λ (p : Phase). on_event p s e) q

on_take-Sending :
    (n : ℕ) (h : List Packet) (s : Session) (l : List Packet)
    → s.client.cache ≡ l
    → Sending (suc n) h s
    → Sending n h (on_take s true l)
unfolding on_take
on_take-Sending n h s [] e v = let p = ap length e in absurd (omega (arith, v.left))
on_take-Sending n h s (pkt ∷ rest) e v = record {
  phase = v.phase;
  left = let p = ap length e in omega (arith, v.left);
  history = v.history;
}

takes-Sending :
    (n : ℕ) (h : List Packet) (s : Session) → Sending n h s → Sending 0 h (run s (takes n))
unfolding run on_event
takes-Sending zero h s v = v
takes-Sending (suc n) h s v =
    takes-Sending n h (step s (take true))
      (rw (step_at s (take true) sending v.phase) (on_take-Sending n h s s.client.cache refl v))

on_resend-Sending :
    (s : Session) (c : Option Packet)
    → Sending (length s.client.cache) s.history (on_resend s true c)
unfolding on_resend
on_resend-Sending s none = record { phase = refl; left = refl; history = refl }
on_resend-Sending s (some pkt) = record { phase = refl; left = refl; history = refl }

handover-Sending :
    (s : Session)
    → s.phase ≡ connecting
    → Sending (length s.client.cache) s.history (step (step s (connect true)) (resend true))
unfolding on_event
handover-Sending s q =
    let t : Session = record s { phase = resending } in
    let e : step s (connect true) ≡ t = step_at s (connect true) connecting q in
    subst (Sending (length s.client.cache) s.history)
      (sym (ap (λ (u : Session). step u (resend true)) e ∙ step_at t (resend true) resending refl))
      (on_resend-Sending t t.curr)

length-zero : {A : Type 0} (l : List A) → length l ≡ 0 → l ≡ []
length-zero [] e = refl
length-zero (x ∷ l) e = absurd (omega arith)

drained : (s : Session) (h : List Packet) → Inv s → Sending 0 h s → s.delivered ≡ h
drained s h v d =
    let all_sent : s.delivered ++ (in_hand s.curr ++ s.client.cache) ≡ s.delivered ++ [] =
      rw (v.empty_hand d.phase, length-zero s.client.cache d.left) in
    sym (append-nil s.delivered) ∙ sym all_sent ∙ v.complete ∙ d.history

-- From every point of every run at which the client is about to connect, one connection that stands long
-- enough delivers every packet that the channel has taken, in order.
pub good_connection-delivers :
    (max_cache : ℕ) (es : List Event)
    → let s = run (new_session max_cache) es in
      s.phase ≡ connecting → (run s (good_connection (length s.client.cache))).delivered ≡ s.history
unfolding run
good_connection-delivers max_cache es q =
    let s = run (new_session max_cache) es in
    let t = step (step s (connect true)) (resend true) in
    let n = length s.client.cache in
    let v : Inv t = step-Inv _ (resend true) (step-Inv s (connect true) (run-Inv max_cache es)) in
    drained (run t (takes n)) s.history (run_from-Inv t (takes n) v)
      (takes-Sending n s.history t (handover-Sending s q))
