-- ===== src/Pubsub/Processor.antt =====
-- pubsub/processor.go: the goroutine that handles the messages of a channel, with its timer. An event is a step of the
-- goroutine, or something that happens to its channel, its timer or its tomb; the events may come in any order. The timer
-- puts one tick into its channel when it expires, and `Reset` arms it anew without taking that tick out.
pub mod Messages
pub mod Laws
mod Samples
use jopa.Common.{
  ℕ, Bool, true, false, ◌&&◌, not, Option, none, some, List, [], ◌∷◌, ◌++◌, if◌then◌else◌,
}

-- What the tomb was killed with: nothing, or `ErrProcessorTimeout`.
pub data Reason : Type 0 where
  no_reason processor_timeout : Reason

-- The calls of the handler.
pub data Call (M : Type 0) : Type 0 where
  on_message : M → Call M
  on_timeout : Call M

-- Where the goroutine is: at the select, in `OnMessage`, or at its end.
pub data Phase (M : Type 0) : Type 0 where
  waiting : Phase M
  handling : M → Phase M
  stopped : Phase M

pub record Processor (M : Type 0) : Type 0 where
  pub has_handler : Bool
  pub has_timer : Bool
  pub channel : List M
  pub armed : Bool
  pub tick : Bool
  pub dying : Option Reason
  pub phase : Phase M
  pub calls : List (Call M)

pub data Event (M : Type 0) : Type 0 where
  arrive : M → Event M
  expire : Event M
  close : Event M
  take : Event M
  finish : Event M
  take_tick : Event M
  take_dying : Event M

-- `tomb.Kill`: the first reason that is not nil stays.
abbrev pub kill : Reason → Option Reason → Option Reason
kill why (some processor_timeout) = some processor_timeout
kill why _ = some why

module _ {M : Type 0} where
  -- `NewProcessor` and `Start`; the first timeout starts at once.
  unfoldable pub start : Bool → Bool → Processor M
  start has_handler has_timer = record {
    has_handler = has_handler;
    has_timer = has_timer;
    channel = [];
    armed = has_timer;
    tick = false;
    dying = none;
    phase = waiting;
    calls = [];
  }

  abbrev pub call_handler : Call M → Processor M → List (Call M)
  call_handler call p = if p.has_handler then p.calls ++ call ∷ [] else p.calls

  -- The case of the channel: `OnMessage` begins.
  take_message : List M → Processor M → Processor M
  take_message [] p = p
  take_message (msg ∷ rest) p = record p {
    channel = rest;
    phase = handling msg;
    calls = call_handler (on_message msg) p;
  }

  -- `OnMessage` ends, and with a timer it is reset.
  abbrev pub end_message : Processor M → Processor M
  end_message p = record p { phase = waiting; armed = p.has_timer }

  -- The case of the timer.
  abbrev pub handle_timeout : Processor M → Processor M
  handle_timeout p = record p {
    tick = false;
    calls = call_handler on_timeout p;
    dying = kill processor_timeout p.dying;
  }

  abbrev pub stop_if : Option Reason → Processor M → Processor M
  stop_if none p = p
  stop_if (some why) p = record p { phase = stopped }

  -- What can be chosen at the select.
  abbrev pub at_select : Phase M → Processor M → Processor M → Processor M
  at_select waiting p chosen = chosen
  at_select _ p chosen = p

  abbrev pub in_handler : Phase M → Processor M → Processor M → Processor M
  in_handler (handling msg) p ended = ended
  in_handler _ p ended = p

  -- One event; one that cannot happen changes nothing.
  unfoldable pub step : Event M → Processor M → Processor M
  unfolding take_message
  step (arrive msg) p = record p { channel = p.channel ++ msg ∷ [] }
  step expire p = if p.armed then record p { armed = false; tick = true } else p
  step close p = record p { dying = kill no_reason p.dying }
  step take p = at_select p.phase p (take_message p.channel p)
  step finish p = in_handler p.phase p (end_message p)
  step take_tick p = at_select p.phase p (if p.tick then handle_timeout p else p)
  step take_dying p = at_select p.phase p (stop_if p.dying p)

  unfoldable pub run : List (Event M) → Processor M → Processor M
  unfolding step
  run [] p = p
  run (e ∷ es) p = run es (step e p)
