-- ===== src/Task/Worker.antt =====
-- task/worker.go: running a task. The tasks themselves are parameters of the model: what they are registered
-- as says what they return.
pub mod Laws
pub mod Reports
use jopa.Common.{
  ℕ, String, Bool, true, false, not, Option, none, some, List, [], ◌∷◌, length, ltb, ◌==◌,
  if◌then◌else◌,
}
use jopa.Common.Dict.{Dict, lookup, insert}
use jopa.Common.Outcome.{Outcome, ok, err, panic, ◌>>=◌}
use jopa.Task.Message.{
  Arg, float64, float32, int, nil_arg, other_arg, TaskMessage, ResultMessage, Status, success, fail,
  BrokerMessage, Broker, Codec, Failure, expired, no_args, not_registered, invalid_args, bad_kwargs,
  get_message, set_result,
}

-- The kinds of a function's parameters that are converted to.
pub data Kind : Type 0 where
  int_kind float32_kind other_kind : Kind

-- What a function returns, as `res` is read: nothing, one value, a value with an error, or a value with a
-- second result that cannot be nil or is no error.
pub data Results (V : Type 0) : Type 0 where
  no_result : Results V
  one_result : Option V → Results V
  with_error : Option V → Option String → Results V
  no_error : Option V → Results V

-- A registered task: an `AsyncTask`, with the error of `ParseKwargs` and what `RunTask` then returns, or a
-- function, with the kinds of its parameters and what a call returns, `none` if the call panics.
pub data Task (F Z V : Type 0) : Type 0 where
  async_task :
      (Dict (Arg F Z V) → Option String)
      → (Dict (Arg F Z V) → Option V × Option String)
      → Task F Z V
  task_func : List Kind → (List (Arg F Z V) → Option (Results V)) → Task F Z V

-- The conversions int(x) and float32(x) of a float64.
pub record Conversions (F Z : Type 0) : Type 0 where
  pub to_int : F → Z
  pub to_float32 : F → F

-- `msg.Expires != nil && msg.Expires.Before(now)`
unfoldable pub is_expired : Option ℕ → ℕ → Bool
is_expired none now = false
is_expired (some time) now = ltb time now

-- The status and the traceback that an error gives a result.
abbrev pub status_of : Option String → Status
status_of none = success
status_of (some e) = fail

abbrev pub traceback_of : Option String → String
traceback_of none = ""
traceback_of (some e) = e

abbrev pub result_of : {V : Type 0} → String → Option V → Option String → ResultMessage V
result_of id val e = record {
  id = id;
  status = status_of e;
  traceback = traceback_of e;
  result = val;
}

module _ {F Z V : Type 0} (c : Conversions F Z) where
  -- The kind of the type of nil cannot be asked for.
  unfoldable pub convert_arg : Kind → Arg F Z V → Outcome Failure (Arg F Z V)
  convert_arg kind nil_arg = panic
  convert_arg int_kind (float64 x) = ok (int (c.to_int x))
  convert_arg float32_kind (float64 x) = ok (float32 (c.to_float32 x))
  convert_arg kind arg = ok arg

  -- The loop over the arguments, of which there are as many as parameters.
  unfoldable pub convert_args : List Kind → List (Arg F Z V) → Outcome Failure (List (Arg F Z V))
  unfolding convert_arg
  convert_args (kind ∷ kinds) (arg ∷ args) =
      convert_arg kind arg >>= λ x. convert_args kinds args >>= λ xs. ok (x ∷ xs)
  convert_args _ _ = ok []

  -- The results: `res[1]` of a function with one result is out of range.
  read_results : String → Option (Results V) → Outcome Failure (ResultMessage V)
  read_results id none = panic
  read_results id (some no_result) = ok (result_of id none none)
  read_results id (some (one_result val)) = panic
  read_results id (some (with_error val e)) = ok (result_of id val e)
  read_results id (some (no_error val)) = panic

  unfoldable pub run_task_func :
      String
      → List Kind
      → (List (Arg F Z V) → Option (Results V))
      → List (Arg F Z V)
      → Outcome Failure (ResultMessage V)
  unfolding convert_args read_results
  run_task_func id kinds call args =
      let run = convert_args kinds args >>= λ params. read_results id (call params) in
      if not (length kinds == length args) then err invalid_args else run

  run_async : String → Option String → Option V × Option String → Outcome Failure (ResultMessage V)
  run_async id (some e) res = err (bad_kwargs e)
  run_async id none (val, e) = ok (result_of id val e)

  run_found :
      TaskMessage (Arg F Z V)
      → List (Arg F Z V)
      → Option (Task F Z V)
      → Outcome Failure (ResultMessage V)
  unfolding run_task_func run_async
  run_found msg args none = err not_registered
  run_found msg args (some (async_task parse_kwargs run)) =
      run_async msg.id (parse_kwargs msg.kwargs) (run msg.kwargs)
  run_found msg args (some (task_func kinds call)) = run_task_func msg.id kinds call args

  run_unexpired :
      Dict (Task F Z V)
      → TaskMessage (Arg F Z V)
      → Option (List (Arg F Z V))
      → Outcome Failure (ResultMessage V)
  unfolding run_found
  run_unexpired tasks msg none = err no_args
  run_unexpired tasks msg (some args) = run_found msg args (lookup msg.name tasks)

  -- `runTask`
  unfoldable pub run_task :
      Dict (Task F Z V) → ℕ → TaskMessage (Arg F Z V) → Outcome Failure (ResultMessage V)
  unfolding run_unexpired is_expired
  run_task tasks now msg =
      if is_expired msg.expires now then err expired else run_unexpired tasks msg msg.args

  -- A nil result is not stored.
  store : String → Dict (ResultMessage V) → ResultMessage V → Dict (ResultMessage V)
  unfolding set_result
  store id results r = elim r.result [ none ↦ results | some val ↦ set_result id r results ]

  -- What the worker does with the outcome: errors are logged, a panic ends the program.
  store_outcome :
      String
      → Dict (ResultMessage V)
      → Outcome Failure (ResultMessage V)
      → Outcome Failure (Dict (ResultMessage V))
  unfolding store
  store_outcome id results (ok r) = ok (store id results r)
  store_outcome id results (err e) = ok results
  store_outcome id results panic = panic

  handle_message :
      Codec (Arg F Z V)
      → Dict (Task F Z V)
      → ℕ
      → Dict (ResultMessage V)
      → Outcome Failure BrokerMessage
      → Outcome Failure (Dict (ResultMessage V))
  unfolding run_task store_outcome
  handle_message codec tasks now results (err e) = ok results
  handle_message codec tasks now results panic = panic
  handle_message codec tasks now results (ok msg) =
      store_outcome msg.id results (codec.decode msg.value >>= run_task tasks now)

  -- One tick of `StartWorker`.
  unfoldable pub worker_tick :
      Codec (Arg F Z V)
      → Dict (Task F Z V)
      → ℕ
      → Broker
      → Dict (ResultMessage V)
      → Broker × Outcome Failure (Dict (ResultMessage V))
  unfolding handle_message get_message
  worker_tick codec tasks now b results =
      let (b', msg) = get_message b in (b', handle_message codec tasks now results msg)
