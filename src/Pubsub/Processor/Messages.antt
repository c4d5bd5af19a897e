-- ===== src/Pubsub/Processor/Messages.antt =====
-- pubsub/processor.go: the messages that the handler was called with, in a run.
use jopa.Common.{
  Bool, true, false, Option, none, some, List, [], ◌∷◌, ◌++◌, append-nil, append_assoc,
  if◌then◌else◌, ◌≡◌, refl, ap, sym, ◌∙◌,
}
use jopa.Pubsub.Processor.{
  Reason, Call, on_message, on_timeout, Phase, waiting, handling, stopped, Processor, Event, arrive,
  expire, close, take, finish, take_tick, take_dying, take_message, handle_timeout, stop_if,
  at_select, in_handler, step, run,
}

module _ {M : Type 0} where
  -- The messages among the calls, and whether there is a timeout.
  abbrev pub messages : List (Call M) → List M
  messages [] = []
  messages (on_message msg ∷ calls) = msg ∷ messages calls
  messages (on_timeout ∷ calls) = messages calls

  abbrev pub timed_out : List (Call M) → Bool
  timed_out [] = false
  timed_out (on_message msg ∷ calls) = timed_out calls
  timed_out (on_timeout ∷ calls) = true

  -- What came into the channel.
  abbrev pub arrivals : List (Event M) → List M
  arrivals [] = []
  arrivals (arrive msg ∷ es) = msg ∷ arrivals es
  arrivals (_ ∷ es) = arrivals es

  abbrev pub arrived : Event M → List M
  arrived (arrive msg) = msg ∷ []
  arrived _ = []

  abbrev pub total : Processor M → List M
  total p = messages p.calls ++ p.channel

  messages-append : (a b : List (Call M)) → messages (a ++ b) ≡ messages a ++ messages b
  messages-append [] b = refl
  messages-append (on_message msg ∷ a) b = ap (λ x. msg ∷ x) (messages-append a b)
  messages-append (on_timeout ∷ a) b = messages-append a b

  pub timed_out-message :
      (a : List (Call M)) (msg : M) → timed_out (a ++ on_message msg ∷ []) ≡ timed_out a
  timed_out-message [] msg = refl
  timed_out-message (on_message m ∷ a) msg = timed_out-message a msg
  timed_out-message (on_timeout ∷ a) msg = refl

  -- What holds in a state and in the one after a choice.
  pub at_select_holds :
      (P : Processor M → Type 0) (phase : Phase M) (p q : Processor M)
      → P p
      → P q
      → P (at_select phase p q)
  at_select_holds P waiting p q h g = g
  at_select_holds P (handling msg) p q h g = h
  at_select_holds P stopped p q h g = h

  pub in_handler_holds :
      (P : Processor M → Type 0) (phase : Phase M) (p q : Processor M)
      → P p
      → P q
      → P (in_handler phase p q)
  in_handler_holds P waiting p q h g = h
  in_handler_holds P (handling msg) p q h g = g
  in_handler_holds P stopped p q h g = h

  pub if_either :
      (P : Processor M → Type 0) (b : Bool) (p q : Processor M) → P p → P q → P (if b then p else q)
  if_either P true p q h g = h
  if_either P false p q h g = g

  pub stop_if_holds :
      (P : Processor M → Type 0) (why : Option Reason) (p : Processor M)
      → P p
      → P (record p { phase = stopped })
      → P (stop_if why p)
  stop_if_holds P none p h g = h
  stop_if_holds P (some why) p h g = g

  -- The handler stays, and the messages that were handled or wait are the same and the ones that came.
  abbrev pub Moved : List M → Processor M → Processor M → Type 0
  Moved more p q = (p.has_handler ≡ true → (q.has_handler ≡ true) × (total q ≡ total p ++ more))

  stays-Moved : (p : Processor M) → Moved [] p p
  stays-Moved p h = (h, sym (append-nil (total p)))

  take_message-Moved :
      (channel : List M) (p : Processor M)
      → p.channel ≡ channel
      → Moved [] p (take_message channel p)
  unfolding take_message
  take_message-Moved [] p e = stays-Moved p
  take_message-Moved (msg ∷ rest) p e = λ h. (
    h,
    rw (h, e, messages-append p.calls (on_message msg ∷ []))
        (append_assoc (messages p.calls) (msg ∷ []) rest
          ∙ sym (append-nil (messages p.calls ++ msg ∷ rest))),
  )

  timeout-Moved : (p : Processor M) → Moved [] p (handle_timeout p)
  timeout-Moved p h = (
    h,
    rw (h, messages-append p.calls (on_timeout ∷ []), append-nil (messages p.calls))
        (sym (append-nil (messages p.calls ++ p.channel))),
  )

  step-Moved : (e : Event M) (p : Processor M) → Moved (arrived e) p (step e p)
  unfolding step
  step-Moved (arrive msg) p = λ h. (h, sym (append_assoc (messages p.calls) p.channel (msg ∷ [])))
  step-Moved expire p = if_either (Moved [] p) p.armed _ p (stays-Moved p) (stays-Moved p)
  step-Moved close p = stays-Moved p
  step-Moved take p =
      at_select_holds (Moved [] p) p.phase p _ (stays-Moved p) (take_message-Moved p.channel p refl)
  step-Moved finish p = in_handler_holds (Moved [] p) p.phase p _ (stays-Moved p) (stays-Moved p)
  step-Moved take_tick p =
      at_select_holds (Moved [] p) p.phase p _ (stays-Moved p)
        (if_either (Moved [] p) p.tick _ p (timeout-Moved p) (stays-Moved p))
  step-Moved take_dying p =
      at_select_holds (Moved [] p) p.phase p _ (stays-Moved p)
        (stop_if_holds (Moved [] p) p.dying p (stays-Moved p) (stays-Moved p))

  arrivals-cons : (e : Event M) (es : List (Event M)) → arrivals (e ∷ es) ≡ arrived e ++ arrivals es
  arrivals-cons (arrive msg) es = refl
  arrivals-cons expire es = refl
  arrivals-cons close es = refl
  arrivals-cons take es = refl
  arrivals-cons finish es = refl
  arrivals-cons take_tick es = refl
  arrivals-cons take_dying es = refl

  pub run-Moved : (es : List (Event M)) (p : Processor M) → Moved (arrivals es) p (run es p)
  unfolding run
  run-Moved [] p = stays-Moved p
  run-Moved (e ∷ es) p = λ h.
      let (handler, moved) = step-Moved e p h in
      let (handler2, moved2) = run-Moved es (step e p) handler in
      (
        handler2,
        moved2
            ∙ ap (λ w. w ++ arrivals es) moved
            ∙ append_assoc (total p) (arrived e) (arrivals es)
            ∙ ap (λ w. total p ++ w) (sym (arrivals-cons e es)),
      )
