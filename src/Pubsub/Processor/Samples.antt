-- ===== src/Pubsub/Processor/Samples.antt =====
-- Runs of a processor of pubsub/processor.go at concrete events.
use jopa.Common.{ℕ, true, false, none, some, List, [], ◌∷◌, ◌++◌, ◌≡◌, refl, ◌⊎◌}
use jopa.Pubsub.Processor.{
  processor_timeout, Processor, Event, arrive, expire, take, finish, take_tick, take_dying, start,
  step, handling, run, on_message, on_timeout,
}
use jopa.Pubsub.Processor.Messages.{messages, timed_out}
use jopa.Pubsub.Processor.Laws.{run-Handled, stale-timeout}

abbrev events : List (Event ℕ)
events = arrive 7 ∷ take ∷ arrive 8 ∷ finish ∷ expire ∷ take_tick ∷ take_dying ∷ []

calls_run : (run events (start true true)).calls ≡ on_message 7 ∷ on_timeout ∷ []
unfolding run start
calls_run = refl

run-Handled_example :
    (messages (run events (start true true)).calls ++ (run events (start true true)).channel
      ≡ 7 ∷ 8 ∷ [])
    × ((timed_out (run events (start true true)).calls ≡ false)
        ⊎ (((run events (start true true)).dying ≡ some processor_timeout) × (true ≡ true)))
run-Handled_example = run-Handled events true

-- The timer expires while the message 7 is handled; then its handling ends, with a reset, and 8 is handled.
abbrev expired : Processor ℕ
expired = record {
  has_handler = true;
  has_timer = true;
  channel = 8 ∷ [];
  armed = false;
  tick = true;
  dying = none;
  phase = handling 7;
  calls = on_message 7 ∷ [];
}

abbrev reset_twice : List (Event ℕ)
reset_twice = finish ∷ take ∷ finish ∷ []

stale-timeout_example :
    ((step take_tick (run reset_twice expired)).calls
      ≡ (run reset_twice expired).calls ++ on_timeout ∷ [])
    × ((step take_tick (run reset_twice expired)).dying ≡ some processor_timeout)
unfolding run
stale-timeout_example = stale-timeout reset_twice expired refl refl tt refl
