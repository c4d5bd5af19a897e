-- ===== src/Pubsub/Processor/Laws.antt =====
-- pubsub/processor.go: what the handler was called with in a run, messages and timeouts.
use jopa.Common.{
  Bool, true, false, Option, none, some, List, [], ◌∷◌, ◌++◌, if◌then◌else◌, Bool-cases, ◌≡◌, refl,
  sym, ◌∙◌, subst, inl, inr, ◌⊎◌,
}
use jopa.Pubsub.Processor.{
  Reason, no_reason, processor_timeout, on_message, on_timeout, waiting, Processor, Event, arrive,
  expire, close, take, finish, take_tick, take_dying, end_message, stop_if, start, kill,
  call_handler, take_message, handle_timeout, step, run,
}
use jopa.Pubsub.Processor.Messages.{
  messages, timed_out, arrivals, timed_out-message, at_select_holds, in_handler_holds, if_either,
  stop_if_holds, run-Moved,
}

kill-timeout : (dying : Option Reason) → kill processor_timeout dying ≡ some processor_timeout
kill-timeout none = refl
kill-timeout (some no_reason) = refl
kill-timeout (some processor_timeout) = refl

kill-close :
    (dying : Option Reason)
    → dying ≡ some processor_timeout
    → kill no_reason dying ≡ some processor_timeout
kill-close dying e = rw e refl

module _ {M : Type 0} where
  -- A timeout that was handled killed the tomb, and without a timer there is none.
  abbrev Timed : Processor M → Type 0
  Timed p =
      (timed_out p.calls ≡ true → p.dying ≡ some processor_timeout)
      × (p.has_timer ≡ false → (p.armed ≡ false) × (p.tick ≡ false) × (timed_out p.calls ≡ false))

  timed_out-call :
      (msg : M) (p : Processor M) → timed_out (call_handler (on_message msg) p) ≡ timed_out p.calls
  timed_out-call msg p = elim (Bool-cases p.has_handler) [
    | inl some_handler ↦ rw some_handler (timed_out-message p.calls msg)
    | inr no_handler ↦ rw no_handler refl
  ]

  take_message-Timed :
      (channel : List M) (p : Processor M) → Timed p → Timed (take_message channel p)
  unfolding take_message
  take_message-Timed [] p timed = timed
  take_message-Timed (msg ∷ rest) p (killed, untimed) = (
    (λ h. killed (sym (timed_out-call msg p) ∙ h)),
    (λ no_timer.
        let (armed, tick, none_yet) = untimed no_timer in
        (armed, tick, timed_out-call msg p ∙ none_yet)),
  )

  timeout-Timed : (p : Processor M) → p.tick ≡ true → Timed p → Timed (handle_timeout p)
  timeout-Timed p ticked (killed, untimed) = (
    (λ h. kill-timeout p.dying),
    (λ no_timer.
        let (armed, tick, none_yet) = untimed no_timer in
        let bad : true ≡ false = sym ticked ∙ tick in cc),
  )

  tick-Timed : (p : Processor M) → Timed p → Timed (if p.tick then handle_timeout p else p)
  tick-Timed p timed = elim (Bool-cases p.tick) [
    | inl ticked ↦
        subst (λ b. Timed (if b then handle_timeout p else p)) (sym ticked)
          (timeout-Timed p ticked timed)
    | inr none_yet ↦ subst (λ b. Timed (if b then handle_timeout p else p)) (sym none_yet) timed
  ]

  expire-Timed :
      (p : Processor M)
      → Timed p
      → Timed (if p.armed then record p { armed = false; tick = true } else p)
  expire-Timed p (killed, untimed) = elim (Bool-cases p.armed) [
    | inl is_armed ↦
        subst (λ b. Timed (if b then record p { armed = false; tick = true } else p)) (sym is_armed)
          (
            killed,
            λ no_timer.
                let (armed, tick, none_yet) = untimed no_timer in
                let bad : true ≡ false = sym is_armed ∙ armed in cc,
          )
    | inr not_armed ↦
        subst (λ b. Timed (if b then record p { armed = false; tick = true } else p))
          (sym not_armed) (killed, untimed)
  ]

  step-Timed : (e : Event M) (p : Processor M) → Timed p → Timed (step e p)
  unfolding step
  step-Timed (arrive msg) p timed = timed
  step-Timed expire p timed = expire-Timed p timed
  step-Timed close p (killed, untimed) = ((λ h. kill-close p.dying (killed h)), untimed)
  step-Timed take p timed =
      at_select_holds Timed p.phase p _ timed (take_message-Timed p.channel p timed)
  step-Timed finish p (killed, untimed) =
      in_handler_holds Timed p.phase p _ (killed, untimed)
        (
          killed,
          λ no_timer. let (armed, tick, none_yet) = untimed no_timer in (no_timer, tick, none_yet),
        )
  step-Timed take_tick p timed = at_select_holds Timed p.phase p _ timed (tick-Timed p timed)
  step-Timed take_dying p timed =
      at_select_holds Timed p.phase p _ timed (stop_if_holds Timed p.dying p timed timed)

  run-Timed : (es : List (Event M)) (p : Processor M) → Timed p → Timed (run es p)
  unfolding run
  run-Timed [] p timed = timed
  run-Timed (e ∷ es) p timed = run-Timed es (step e p) (step-Timed e p timed)

  step-timer : (e : Event M) (p : Processor M) → (step e p).has_timer ≡ p.has_timer
  unfolding step take_message
  step-timer (arrive msg) p = refl
  step-timer expire p = if_either (λ q. q.has_timer ≡ p.has_timer) p.armed _ p refl refl
  step-timer close p = refl
  step-timer take p =
      at_select_holds (λ q. q.has_timer ≡ p.has_timer) p.phase p _ refl (taken p.channel)
    where
      taken : (channel : List M) → (take_message channel p).has_timer ≡ p.has_timer
      taken [] = refl
      taken (msg ∷ rest) = refl
  step-timer finish p = in_handler_holds (λ q. q.has_timer ≡ p.has_timer) p.phase p _ refl refl
  step-timer take_tick p =
      at_select_holds (λ q. q.has_timer ≡ p.has_timer) p.phase p _ refl
        (if_either (λ q. q.has_timer ≡ p.has_timer) p.tick _ p refl refl)
  step-timer take_dying p =
      at_select_holds (λ q. q.has_timer ≡ p.has_timer) p.phase p _ refl
        (stop_if_holds (λ q. q.has_timer ≡ p.has_timer) p.dying p refl refl)

  run-timer : (es : List (Event M)) (p : Processor M) → (run es p).has_timer ≡ p.has_timer
  unfolding run
  run-timer [] p = refl
  run-timer (e ∷ es) p = run-timer es (step e p) ∙ step-timer e p

  one_of :
      (p : Processor M)
      → Timed p
      → (timed_out p.calls ≡ false) ⊎ ((p.dying ≡ some processor_timeout) × (p.has_timer ≡ true))
  one_of p (killed, untimed) = elim (Bool-cases (timed_out p.calls)) [
    | inr never ↦ inl never
    | inl once ↦ elim (Bool-cases p.has_timer) [
      | inl timer ↦ inr (killed once, timer)
      | inr no_timer ↦ let (armed, tick, never) = untimed no_timer in inl never
    ]
  ]

  -- In every run of a processor with a handler, whatever the order of the events, the messages that the handler was called
  -- with and those that wait in the channel are, in order, the messages that came; and the handler was told of no
  -- timeout, or there is a timer and the tomb was killed with the error of the timeout.
  pub run-Handled :
      (es : List (Event M)) (has_timer : Bool)
      → (messages (run es (start true has_timer)).calls ++ (run es (start true has_timer)).channel
          ≡ arrivals es)
        × ((timed_out (run es (start true has_timer)).calls ≡ false)
            ⊎ (((run es (start true has_timer)).dying ≡ some processor_timeout)
                × (has_timer ≡ true)))
  unfolding start
  run-Handled es has_timer =
      let first : Processor M = start true has_timer in
      let timed =
        run-Timed es first
          ((λ h. let bad : false ≡ true = h in cc), (λ no_timer. (no_timer, refl, refl))) in
      (
        (run-Moved es first refl).1,
        elim (one_of (run es first) timed) [
          | inl never ↦ inl never
          | inr (killed, timer) ↦ inr (killed, sym (run-timer es first) ∙ timer)
        ],
      )

  -- The goroutine does not take a tick.
  abbrev pub NoTick : List (Event M) → Type 0
  NoTick [] = Unit
  NoTick (take_tick ∷ es) = ⊥
  NoTick (_ ∷ es) = NoTick es

  -- A tick in the channel of the timer, and a handler.
  abbrev Ticked : Processor M → Type 0
  Ticked p = (p.tick ≡ true) × (p.has_handler ≡ true)

  taken-Ticked : (channel : List M) (p : Processor M) → Ticked p → Ticked (take_message channel p)
  unfolding take_message
  taken-Ticked [] p ticked = ticked
  taken-Ticked (msg ∷ rest) p ticked = ticked

  run-Ticked : (es : List (Event M)) (p : Processor M) → NoTick es → Ticked p → Ticked (run es p)
  unfolding run step
  run-Ticked [] p none_taken ticked = ticked
  run-Ticked (arrive msg ∷ es) p none_taken ticked =
      run-Ticked es (step (arrive msg) p) none_taken ticked
  run-Ticked (expire ∷ es) p none_taken (tick, handler) = run-Ticked es (step expire p) none_taken (
      if_either Ticked p.armed (record p { armed = false; tick = true }) p (refl, handler)
        (tick, handler))
  run-Ticked (close ∷ es) p none_taken ticked = run-Ticked es (step close p) none_taken ticked
  run-Ticked (take ∷ es) p none_taken ticked = run-Ticked es (step take p) none_taken (
      at_select_holds Ticked p.phase p (take_message p.channel p) ticked
        (taken-Ticked p.channel p ticked))
  run-Ticked (finish ∷ es) p none_taken ticked =
      run-Ticked es (step finish p) none_taken
        (in_handler_holds Ticked p.phase p (end_message p) ticked ticked)
  run-Ticked (take_tick ∷ es) p none_taken ticked = absurd none_taken
  run-Ticked (take_dying ∷ es) p none_taken ticked = run-Ticked es (step take_dying p) none_taken (
      at_select_holds Ticked p.phase p (stop_if p.dying p) ticked
        (stop_if_holds Ticked p.dying p ticked ticked))

  -- Once the timer has expired, no event but the taking of its tick clears it: after any events without that, among
  -- them the handling of any number of messages, each with a reset of the timer, a goroutine that is at its select and
  -- takes the tick tells the handler of a timeout and kills the tomb, however recently a message came.
  pub stale-timeout :
      (es : List (Event M)) (p : Processor M)
      → p.tick ≡ true
      → p.has_handler ≡ true
      → NoTick es
      → (run es p).phase ≡ waiting
      → ((step take_tick (run es p)).calls ≡ (run es p).calls ++ on_timeout ∷ [])
        × ((step take_tick (run es p)).dying ≡ some processor_timeout)
  unfolding step
  stale-timeout es p tick handler none_taken at_the_select =
      let (ticked, handled) = run-Ticked es p none_taken (tick, handler) in
      rw (at_the_select, ticked, handled) (refl, kill-timeout (run es p).dying)
