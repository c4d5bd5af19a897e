-- ===== src/Task/Samples.antt =====
-- The theorems on task at concrete tasks.
use jopa.Common.{ℕ, none, some, [], ◌∷◌, ◌≡◌, refl}
use jopa.Common.Dict.{Dict, lookup}
use jopa.Common.Outcome.{ok}
use jopa.Task.Message.{
  Arg, int, TaskMessage, ResultMessage, success, BrokerMessage, Broker, Codec, new_channel_broker,
  send_message, get_message, add_task_with_key,
}
use jopa.Task.Message.Laws.{Trace, start, sent, got, InOrder, Trace-InOrder}
use jopa.Task.Worker.{Task, async_task, task_func, with_error, int_kind, Conversions, worker_tick}
use jopa.Task.Worker.Laws.{Finished, with_keys, worker_tick-result}

abbrev hello : BrokerMessage
hello = record { id = "1"; value = "hello" }

abbrev one_in_one_out : Trace 2 (hello ∷ []) (hello ∷ []) (record { cache = 2; queue = [] })
unfolding new_channel_broker send_message get_message
one_in_one_out =
    got {b = record { cache = 2; queue = hello ∷ [] }} hello
      (sent {b' = record { cache = 2; queue = hello ∷ [] }} hello start refl) refl

Trace-InOrder_example : InOrder 2 (hello ∷ []) (hello ∷ []) (record { cache = 2; queue = [] })
Trace-InOrder_example = Trace-InOrder one_in_one_out

abbrev answer : ResultMessage ℕ
answer = record { id = "1"; status = success; traceback = ""; result = some 42 }

abbrev A : Type 0
A = Arg ℕ ℕ ℕ

abbrev conversions : Conversions ℕ ℕ
conversions = record { to_int = λ x. x; to_float32 = λ x. x }

-- A codec for one task.
abbrev codec_of : TaskMessage A → Codec A
codec_of task = record { encode = λ t. ok "text"; decode = λ t. ok task }

-- An asynchronous task that returns 42, and a function of one integer.
abbrev tasks : Dict (Task ℕ ℕ ℕ)
tasks =
    ("answer", async_task (λ k. none) (λ k. (some 42, none)))
    ∷ ("next", task_func (int_kind ∷ []) (λ args. some (with_error (some 1) (some "failed"))))
    ∷ []

abbrev holds_text : Broker
holds_text = record { cache = 2; queue = record { id = "1"; value = "text" } ∷ [] }

worker_tick-result_example :
    (results' : Dict (ResultMessage ℕ)) × (worker_tick conversions
        (codec_of (with_keys "1" "answer" []))
        tasks
        5
        holds_text
        []
      ≡ (record holds_text { queue = [] }, ok results'))
    × Finished "1" none (some 42, none) [] results'
unfolding new_channel_broker add_task_with_key send_message lookup
worker_tick-result_example =
    worker_tick-result conversions (codec_of (with_keys "1" "answer" [])) tasks 5 "1" "answer" []
      (new_channel_broker 2) holds_text [] (λ k. none) (λ k. (some 42, none)) (λ text e. refl) refl
      refl refl

abbrev call : TaskMessage A
call = record {
  id = "7";
  name = "next";
  args = some (int 3 ∷ []);
  kwargs = [];
  retries = 0;
  expires = some 9;
}
