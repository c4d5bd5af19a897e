-- ===== src/Task/Worker/Laws.antt =====
-- What the worker makes of a task.
use jopa.Common.{
  ℕ, String, Option, none, some, [], ◌∷◌, ◌++◌, ◌≡◌, refl, sym, ap, ◌∙◌, inl, inr, Bool-cases,
  length, ltb,
}
use jopa.Common.Dict.{Dict, lookup, insert, lookup-insert_self}
use jopa.Common.Outcome.{Outcome, ok, err, panic, ◌>>=◌}
use jopa.Task.Message.{
  Arg, TaskMessage, ResultMessage, success, fail, BrokerMessage, Broker, Codec, Failure,
  send_timeout, get_message, take_message, set_result, get_result, take_result, send_message,
  send_task, add_task, add_task_with_key, variadic,
}
use jopa.Task.Worker.{
  Task, async_task, Conversions, result_of, run_async, run_found, run_unexpired, is_expired,
  run_task, store, store_outcome, handle_message, worker_tick,
}

-- The task, if it can be encoded, is decoded as it was.
abbrev pub RoundTrip : {A : Type 0} → Codec A → TaskMessage A → Type 0
RoundTrip codec task = (text : String) → codec.encode task ≡ ok text → codec.decode text ≡ ok task

-- The tasks that `AddTaskWithKey` sends, and `AddTask` without arguments.
abbrev pub with_keys : {A : Type 0} → String → String → Dict A → TaskMessage A
with_keys id name kwargs = record {
  id = id;
  name = name;
  args = some [];
  kwargs = kwargs;
  retries = 0;
  expires = none;
}

abbrev pub without_args : {A : Type 0} → String → String → TaskMessage A
without_args id name = record {
  id = id;
  name = name;
  args = none;
  kwargs = [];
  retries = 0;
  expires = none;
}

-- What it takes for a message to be in the channel of a broker that was empty.
send_message-queue :
    (msg : BrokerMessage) (b b' : Broker)
    → send_message msg b ≡ (b', ok tt)
    → b'.queue ≡ b.queue ++ msg ∷ []
unfolding send_message
send_message-queue msg b b' e = elim (Bool-cases (ltb (length b.queue) b.cache)) [
  | inl room ↦
      let e' : ◌≡◌ {A = Broker × Outcome Failure (Unit {0})}
          (record b { queue = b.queue ++ msg ∷ [] }, ok tt) (b', ok tt) =
        rw room at e in
      ap (λ r. r.0.queue) (sym e')
  | inr full ↦
      let bad : ◌≡◌ {A = Broker × Outcome Failure (Unit {0})} (b, err send_timeout) (b', ok tt) =
        rw full at e in
      cc
]

module _ {A : Type 0} (codec : Codec A) where
  send_task-queue :
      (task : TaskMessage A) (b b' : Broker) (o : Outcome Failure String)
      → send_task codec task b o ≡ (b', ok tt)
      → (text : String) × (o ≡ ok text)
        × (b'.queue ≡ b.queue ++ record { id = task.id; value = text } ∷ [])
  unfolding send_task
  send_task-queue task b b' (ok text) e = (text, refl, send_message-queue _ b b' e)
  send_task-queue task b b' (err x) e = cc
  send_task-queue task b b' panic e = cc

-- What an error makes of the status and the traceback.
abbrev pub StatusIs : {V : Type 0} → Option String → ResultMessage V → Type 0
StatusIs none r = (r.status ≡ success) × (r.traceback ≡ "")
StatusIs (some e) r = (r.status ≡ fail) × (r.traceback ≡ e)

-- The table after a task: by the error of its keywords, and by the value and the error that it returned.
abbrev pub Finished :
    {V : Type 0}
    → String
    → Option String
    → Option V × Option String
    → Dict (ResultMessage V)
    → Dict (ResultMessage V)
    → Type 0
Finished id (some refused) returned before after = after ≡ before
Finished id none (none, error) before after = after ≡ before
Finished {V} id none (some val, error) before after =
    (r : ResultMessage V) × ((get_result id after).1 ≡ ok r)
    × (r.id ≡ id)
    × (r.result ≡ some val)
    × StatusIs error r

result-Status :
    {V : Type 0} (id : String) (val : V) (error : Option String)
    → StatusIs error (result_of id (some val) error)
result-Status id val none = (refl, refl)
result-Status id val (some e) = (refl, refl)

module _ {F Z V : Type 0} (c : Conversions F Z) where
  -- The next tick after a task was sent to an empty broker.
  tick-sent :
      (codec : Codec (Arg F Z V)) (tasks : Dict (Task F Z V)) (now : ℕ)
      (task : TaskMessage (Arg F Z V)) (b b' : Broker) (results : Dict (ResultMessage V))
      → RoundTrip codec task
      → b.queue ≡ []
      → send_task codec task b (codec.encode task) ≡ (b', ok tt)
      → worker_tick c codec tasks now b' results
        ≡ (record b' { queue = [] }, store_outcome c task.id results (run_task c tasks now task))
  unfolding worker_tick handle_message get_message take_message
  tick-sent codec tasks now task b b' results trip empty e =
      let (text, encoded, queue) = send_task-queue codec task b b' (codec.encode task) e in
      let queue' : b'.queue ≡ record { id = task.id; value = text } ∷ [] =
        queue ∙ ap (λ k. k ++ record { id = task.id; value = text } ∷ []) empty in
      ap
        (λ k.
          ((take_message b' k).0, handle_message c codec tasks now results (take_message b' k).1))
        queue'
      ∙ ap
          (λ k. (
            record b' { queue = [] },
            store_outcome c task.id results (k >>= run_task c tasks now),
          ))
          (trip text encoded)

  store_outcome-Finished :
      (id : String) (results : Dict (ResultMessage V)) (refused : Option String)
      (returned : Option V × Option String)
      → (results' : Dict (ResultMessage V)) × (store_outcome c id results
            (run_async c id refused returned)
          ≡ ok results')
        × Finished id refused returned results results'
  unfolding store_outcome run_async store set_result get_result take_result
  store_outcome-Finished id results (some e) returned = (results, refl, refl)
  store_outcome-Finished id results none (none, error) = (results, refl, refl)
  store_outcome-Finished id results none (some val, error) = (
    insert id (result_of id (some val) error) results,
    refl,
    (
      result_of id (some val) error,
      ap (λ k. (take_result id (insert id (result_of id (some val) error) results) k).1)
          (lookup-insert_self id (result_of id (some val) error) results),
      refl,
      refl,
      result-Status id val error,
    ),
  )

  -- A task that can be decoded, is added with keywords to an empty broker, and whose name is registered as an `AsyncTask`, is
  -- taken by the next tick of the worker. If it takes the keywords and returns a value, the table then gives back a
  -- result with its identifier and that value: a success without a traceback if there was no error, else a failure with
  -- the text of the error. If it refuses the keywords or returns no value, the table stays as it is.
  pub worker_tick-result :
      (codec : Codec (Arg F Z V)) (tasks : Dict (Task F Z V)) (now : ℕ) (id name : String)
      (kwargs : Dict (Arg F Z V)) (b b' : Broker) (results : Dict (ResultMessage V))
      (parse_kwargs : Dict (Arg F Z V) → Option String)
      (run : Dict (Arg F Z V) → Option V × Option String)
      → RoundTrip codec (with_keys id name kwargs)
      → b.queue ≡ []
      → lookup name tasks ≡ some (async_task parse_kwargs run)
      → add_task_with_key codec id name kwargs b ≡ (b', ok tt)
      → (results' : Dict (ResultMessage V)) × (worker_tick c codec tasks now b' results
          ≡ (record b' { queue = [] }, ok results'))
        × Finished id (parse_kwargs kwargs) (run kwargs) results results'
  unfolding add_task_with_key run_task is_expired run_unexpired run_found
  worker_tick-result codec tasks now id name kwargs b b' results parse_kwargs run trip empty found
        e =
      let task : TaskMessage (Arg F Z V) = with_keys id name kwargs in
      let (results', stored, finished) =
        store_outcome-Finished id results (parse_kwargs kwargs) (run kwargs) in
      (
        results',
        tick-sent codec tasks now task b b' results trip empty e
            ∙ ap
                (λ k.
                  (record b' { queue = [] }, store_outcome c id results (run_found c task [] k)))
                found
            ∙ ap (λ o. (record b' { queue = [] }, o)) stored,
        finished,
      )

  -- A task that can be decoded and was added without arguments to an empty broker is not run by the next tick, whatever it is registered as: its
  -- arguments arrive as nil, and the table of results stays as it is.
  pub worker_tick-no_args :
      (codec : Codec (Arg F Z V)) (tasks : Dict (Task F Z V)) (now : ℕ) (id name : String)
      (b b' : Broker) (results : Dict (ResultMessage V))
      → RoundTrip codec (without_args id name)
      → b.queue ≡ []
      → add_task codec id name [] b ≡ (b', ok tt)
      → worker_tick c codec tasks now b' results ≡ (record b' { queue = [] }, ok results)
  unfolding add_task variadic run_task is_expired run_unexpired store_outcome
  worker_tick-no_args codec tasks now id name b b' results trip empty e =
      tick-sent codec tasks now (without_args id name) b b' results trip empty e
