-- ===== src/Mqtt/Client/Laws.antt =====
-- No packet that the channel has taken is lost, repeated or overtaken by the reconnecting client.
use jopa.Common.{
  ℕ, ◌+◌, ◌≤◌, Bool, true, false, Option, none, some, List, [], ◌∷◌, ◌++◌, length, length-append,
  ◌≡◌, refl, sym, ◌∙◌, ap, arith, append_assoc, Bool-cases, if_holds, inl, inr,
}
use jopa.Mqtt.Packet.{Packet}
use jopa.Mqtt.Client.{
  Session, Phase, connecting, resending, sending, Event, enqueue, connect, resend, take,
  stream_dies, kill, stop, new_session, step, run, has_room, put, on_resend, on_take, on_event,
}

abbrev pub in_hand : Option Packet → List Packet
in_hand none = []
in_hand (some pkt) = pkt ∷ []

-- Every packet that the channel has taken, in that order, is delivered, in hand or in the channel; the
-- channel is within its capacity; and in the loop of `sending` no packet is in hand.
pub record Inv (s : Session) : Type 0 where
  pub complete : s.delivered ++ (in_hand s.curr ++ s.client.cache) ≡ s.history
  pub bounded : length s.client.cache ≤ s.client.max_cache
  pub empty_hand : s.phase ≡ sending → s.curr ≡ none

enqueue-Inv :
    (s : Session) (pkt : Packet)
    → has_room s.client ≡ true
    → Inv s
    → Inv (record s { client = put s.client pkt; history = s.history ++ pkt ∷ [] })
unfolding has_room put
enqueue-Inv s pkt room v = record {
  complete = rw (← v.complete) (simp append_assoc);
  bounded =
      let n : length (s.client.cache ++ pkt ∷ []) ≡ length s.client.cache + 1 =
        length-append s.client.cache (pkt ∷ []) in
      ground arith;
  empty_hand = v.empty_hand;
}

-- A change of the phase to one outside the loop, and of the tomb.
IsInv_of_same :
    (s t : Session)
    → Inv s
    → t.delivered ≡ s.delivered
    → t.curr ≡ s.curr
    → t.client.cache ≡ s.client.cache
    → t.client.max_cache ≡ s.client.max_cache
    → t.history ≡ s.history
    → (t.phase ≡ sending → s.phase ≡ sending)
    → Inv t
IsInv_of_same s t v ed ec ek em eh h = record {
  complete = rw (ed, ec, ek, eh) v.complete;
  bounded = rw (ek, em) v.bounded;
  empty_hand = λ q. rw ec (v.empty_hand (h q));
}

on_resend-Inv :
    (s : Session) (ok : Bool) (c : Option Packet) → s.curr ≡ c → Inv s → Inv (on_resend s ok c)
unfolding on_resend
on_resend-Inv s ok none e v = record {
  complete = v.complete;
  bounded = v.bounded;
  empty_hand = λ _. e;
}
on_resend-Inv s true (some pkt) e v = record {
  complete =
      let before : s.delivered ++ (pkt ∷ s.client.cache) ≡ s.history =
        ap (λ (h : Option Packet). s.delivered ++ (in_hand h ++ s.client.cache)) (sym e)
        ∙ v.complete in
      append_assoc s.delivered (pkt ∷ []) s.client.cache ∙ before;
  bounded = v.bounded;
  empty_hand = λ _. refl;
}
on_resend-Inv s false (some pkt) e v = record {
  complete =
      ap (λ (h : Option Packet). s.delivered ++ (in_hand h ++ s.client.cache)) (sym e) ∙ v.complete;
  bounded = v.bounded;
  empty_hand = λ q. cc;
}

-- In the loop nothing is in hand.
loop_complete :
    (s : Session) → s.phase ≡ sending → Inv s → s.delivered ++ s.client.cache ≡ s.history
loop_complete s q v =
    ap (λ (h : Option Packet). s.delivered ++ (in_hand h ++ s.client.cache)) (sym (v.empty_hand q))
    ∙ v.complete

on_take-Inv :
    (s : Session) (ok : Bool) (l : List Packet)
    → s.client.cache ≡ l
    → s.phase ≡ sending
    → Inv s
    → Inv (on_take s ok l)
unfolding on_take
on_take-Inv s ok [] e q v = v
on_take-Inv s true (pkt ∷ rest) e q v = record {
  complete =
      ap (λ (h : Option Packet). (s.delivered ++ pkt ∷ []) ++ (in_hand h ++ rest)) (v.empty_hand q)
      ∙ append_assoc s.delivered (pkt ∷ []) rest
      ∙ ap (λ (l : List Packet). s.delivered ++ l) (sym e)
      ∙ loop_complete s q v;
  bounded = let n = ap length e in omega (arith, v.bounded);
  empty_hand = v.empty_hand;
}
on_take-Inv s false (pkt ∷ rest) e q v = record {
  complete = ap (λ (l : List Packet). s.delivered ++ l) (sym e) ∙ loop_complete s q v;
  bounded = let n = ap length e in omega (arith, v.bounded);
  empty_hand = λ p. cc;
}

on_event-Inv : (p : Phase) (s : Session) (e : Event) → s.phase ≡ p → Inv s → Inv (on_event p s e)
unfolding on_event
on_event-Inv p s (enqueue pkt) q v = elim (Bool-cases (has_room s.client)) [
  | inl room ↦ rw room (enqueue-Inv s pkt room v)
  | inr full ↦ rw full v
]
on_event-Inv p s kill q v = IsInv_of_same s _ v refl refl refl refl refl (λ h. h)
on_event-Inv connecting s (connect true) q v =
    IsInv_of_same s _ v refl refl refl refl refl (λ h. cc)
on_event-Inv connecting s stop q v =
    if_holds Inv s.client.dying (IsInv_of_same s _ v refl refl refl refl refl (λ h. cc)) v
on_event-Inv resending s (resend ok) q v = on_resend-Inv s ok s.curr refl v
on_event-Inv sending s (take ok) q v = on_take-Inv s ok s.client.cache refl q v
on_event-Inv sending s stream_dies q v = IsInv_of_same s _ v refl refl refl refl refl (λ h. cc)
on_event-Inv sending s stop q v =
    if_holds Inv s.client.dying (IsInv_of_same s _ v refl refl refl refl refl (λ h. cc)) v
on_event-Inv _ s _ q v = v

pub step-Inv : (s : Session) (e : Event) → Inv s → Inv (step s e)
unfolding step
step-Inv s e v = on_event-Inv s.phase s e refl v

pub run_from-Inv : (s : Session) (es : List Event) → Inv s → Inv (run s es)
unfolding run
run_from-Inv s [] v = v
run_from-Inv s (e ∷ es) v = run_from-Inv (step s e) es (step-Inv s e v)

new_session-Inv : (max_cache : ℕ) → Inv (new_session max_cache)
unfolding new_session
new_session-Inv max_cache = record { complete = refl; bounded = omega arith; empty_hand = λ q. cc }

-- Whatever the network, the callers and the scheduler do, the packets that the connections took, the one
-- in hand and those in the channel are together the packets that the channel took, in the same order;
-- and the channel is within its capacity.
pub run-Inv : (max_cache : ℕ) (es : List Event) → Inv (run (new_session max_cache) es)
run-Inv max_cache es = run_from-Inv (new_session max_cache) es (new_session-Inv max_cache)
