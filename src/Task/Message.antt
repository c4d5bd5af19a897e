-- ===== src/Task/Message.antt =====
-- task/message.go, task/channel_broker.go, task/map_backend.go and task/producer.go. The encoding of messages,
-- JSON in base64, is the parameter `Codec`.
pub mod Laws
use jopa.Common.{
  ℕ, ◌+◌, String, Bool, Option, none, some, List, [], ◌∷◌, ◌++◌, length, ltb, if◌then◌else◌,
}
use jopa.Common.Dict.{Dict, lookup, insert, delete}
use jopa.Common.Outcome.{Outcome, ok, err, panic, ◌>>=◌}

-- An argument of a task: the cases that `runTaskFunc` tells apart, over floats `F`, integers `Z` and other
-- values `V`.
pub data Arg (F Z V : Type 0) : Type 0 where
  float64 : F → Arg F Z V
  float32 : F → Arg F Z V
  int : Z → Arg F Z V
  nil_arg : Arg F Z V
  other_arg : V → Arg F Z V

-- `args` is `none` where it is nil; `expires` is a time.
pub record TaskMessage (A : Type 0) : Type 0 where
  pub id : String
  pub name : String
  pub args : Option (List A)
  pub kwargs : Dict A
  pub retries : ℕ
  pub expires : Option ℕ

pub data Status : Type 0 where
  success fail : Status

-- `result` is `none` where it is nil.
pub record ResultMessage (V : Type 0) : Type 0 where
  pub id : String
  pub status : Status
  pub traceback : String
  pub result : Option V

pub record BrokerMessage : Type 0 where
  pub id : String
  pub value : String

pub data Failure : Type 0 where
  send_timeout get_timeout not_found bad_message expired no_args not_registered invalid_args :
      Failure
  bad_kwargs : String → Failure

-- `Encode` and `Decode`, from and to the text of a broker message.
pub record Codec (A : Type 0) : Type 0 where
  pub encode : TaskMessage A → Outcome Failure String
  pub decode : String → Outcome Failure (TaskMessage A)

-- `channelBroker`: a channel with `cache` places; the rest of the queue is what waits in it.
pub record Broker : Type 0 where
  pub cache : ℕ
  pub queue : List BrokerMessage

unfoldable pub new_channel_broker : ℕ → Broker
new_channel_broker cache = record { cache = cache; queue = [] }

-- `SendMessage`: without a receiver that waits, a full channel means a timeout.
unfoldable pub send_message : BrokerMessage → Broker → Broker × Outcome Failure (Unit {0})
send_message msg b =
    if ltb (length b.queue) b.cache
    then (record b { queue = b.queue ++ msg ∷ [] }, ok tt)
    else (b, err send_timeout)

unfoldable pub take_message : Broker → List BrokerMessage → Broker × Outcome Failure BrokerMessage
take_message b [] = (b, err get_timeout)
take_message b (msg ∷ rest) = (record b { queue = rest }, ok msg)

-- `GetMessage`
unfoldable pub get_message : Broker → Broker × Outcome Failure BrokerMessage
unfolding take_message
get_message b = take_message b b.queue

module _ {V : Type 0} where
  unfoldable pub take_result :
      String
      → Dict (ResultMessage V)
      → Option (ResultMessage V)
      → Dict (ResultMessage V) × Outcome Failure (ResultMessage V)
  take_result task_id cache none = (cache, err not_found)
  take_result task_id cache (some result) = (delete task_id cache, ok result)

  -- `mapBackend.GetResult` takes the result out of the table.
  unfoldable pub get_result :
      String → Dict (ResultMessage V) → Dict (ResultMessage V) × Outcome Failure (ResultMessage V)
  unfolding take_result
  get_result task_id cache = take_result task_id cache (lookup task_id cache)

  -- `mapBackend.SetResult`
  unfoldable pub set_result :
      String → ResultMessage V → Dict (ResultMessage V) → Dict (ResultMessage V)
  set_result task_id result cache = insert task_id result cache

  -- `TaskResult.AsyncGet`, with the cached result that nothing ever sets.
  unfoldable pub async_get :
      Option (ResultMessage V)
      → String
      → Dict (ResultMessage V)
      → Dict (ResultMessage V) × Outcome Failure (ResultMessage V)
  unfolding get_result
  async_get (some result) task_id cache = (cache, ok result)
  async_get none task_id cache = get_result task_id cache

module _ {A : Type 0} (codec : Codec A) where
  -- The part that `AddTask` and `AddTaskWithKey` share; `id` is the new UUID. The identifier of the result is
  -- returned beside the error of the broker.
  unfoldable pub send_task :
      TaskMessage A → Broker → Outcome Failure String → Broker × Outcome Failure (Unit {0})
  unfolding send_message
  send_task task b (ok text) = send_message (record { id = task.id; value = text }) b
  send_task task b (err e) = (b, err e)
  send_task task b panic = (b, panic)

  -- A call with no further arguments passes the nil slice.
  unfoldable pub variadic : List A → Option (List A)
  variadic [] = none
  variadic (a ∷ args) = some (a ∷ args)

  unfoldable pub add_task : String → String → List A → Broker → Broker × Outcome Failure (Unit {0})
  unfolding send_task variadic
  add_task id name args b =
      let task : TaskMessage A = record {
        id = id;
        name = name;
        args = variadic args;
        kwargs = [];
        retries = 0;
        expires = none;
      } in
      send_task task b (codec.encode task)

  unfoldable pub add_task_with_key :
      String → String → Dict A → Broker → Broker × Outcome Failure (Unit {0})
  unfolding send_task
  add_task_with_key id name args b =
      let task : TaskMessage A = record {
        id = id;
        name = name;
        args = some [];
        kwargs = args;
        retries = 0;
        expires = none;
      } in
      send_task task b (codec.encode task)
