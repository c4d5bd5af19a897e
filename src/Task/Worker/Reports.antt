-- ===== src/Task/Worker/Reports.antt =====
-- When a task gives a result, and what the result reports.
use jopa.Common.{
  ℕ, String, false, Option, none, some, List, ◌≡◌, refl, subst, arith, inl, inr, Bool-cases, length,
  ◌==◌,
}
use jopa.Common.Dict.{Dict, lookup}
use jopa.Common.Outcome.{Outcome, ok, err, ◌>>=◌, >>=-eq-ok, ok_injective}
use jopa.Task.Message.{Arg, TaskMessage, ResultMessage, success, Failure, expired, invalid_args}
use jopa.Task.Worker.{
  Task, async_task, task_func, Results, no_result, one_result, with_error, no_error, Conversions,
  convert_args, result_of, read_results, run_task_func, run_async, run_found, run_unexpired,
  is_expired, run_task,
}

module _ {F Z V : Type 0} (c : Conversions F Z) where
  -- What a result says of its task: its identifier, and no traceback where it is a success.
  abbrev pub Reports : String → ResultMessage V → Type 0
  Reports id r = (r.id ≡ id) × (r.status ≡ success → r.traceback ≡ "")

  result_of-Reports :
      (id : String) (val : Option V) (e : Option String) → Reports id (result_of id val e)
  result_of-Reports id val none = (refl, λ _. refl)
  result_of-Reports id val (some e) = (refl, λ h. cc)

  of_result :
      {id : String} {r : ResultMessage V} (val : Option V) (e : Option String)
      → ◌≡◌ {A = Outcome Failure (ResultMessage V)} (ok (result_of id val e)) (ok r)
      → Reports id r
  of_result {id} val e h = subst (Reports id) (ok_injective h) (result_of-Reports id val e)

  read_results-Reports :
      (id : String) (o : Option (Results V)) (r : ResultMessage V)
      → read_results c id o ≡ ok r
      → Reports id r
  unfolding read_results
  read_results-Reports id none r e = cc
  read_results-Reports id (some no_result) r e = of_result none none e
  read_results-Reports id (some (one_result val)) r e = cc
  read_results-Reports id (some (with_error val x)) r e = of_result val x e
  read_results-Reports id (some (no_error val)) r e = cc

  -- A task that was run: it was not expired, its arguments are not nil, its name is registered, and a
  -- function got as many arguments as it has parameters.
  abbrev pub FitsTask : Task F Z V → List (Arg F Z V) → Type 0
  FitsTask (async_task parse_kwargs run) args = Unit
  FitsTask (task_func kinds call) args = length kinds ≡ length args

  run_found-Reports :
      (msg : TaskMessage (Arg F Z V)) (args : List (Arg F Z V)) (o : Option (Task F Z V))
      (r : ResultMessage V)
      → run_found c msg args o ≡ ok r
      → ((task : Task F Z V) × (o ≡ some task) × FitsTask task args) × Reports msg.id r
  unfolding run_found run_async run_task_func
  run_found-Reports msg args none r e = cc
  run_found-Reports msg args (some (async_task parse_kwargs run)) r e =
      ((async_task parse_kwargs run, refl, tt), go (parse_kwargs msg.kwargs) (run msg.kwargs) e)
    where
      go :
          (o : Option String) (res : Option V × Option String)
          → run_async c msg.id o res ≡ ok r
          → Reports msg.id r
      go none (val, x) h = of_result val x h
      go (some x) res h = cc
  run_found-Reports msg args (some (task_func kinds call)) r e =
      elim (Bool-cases (length kinds == length args)) [
        | inl same ↦
            let chain : (convert_args c kinds args >>= λ params.
            read_results c msg.id (call params))
                ≡ ok r =
              rw same at e in
            let (params, ep, e') = >>=-eq-ok (convert_args c kinds args) _ chain in
            (
              (task_func kinds call, refl, ground arith),
              read_results-Reports msg.id (call params) r e',
            )
        | inr differ ↦ let bad : err invalid_args ≡ ok r = rw differ at e in cc
      ]

  run_unexpired-Reports :
      (tasks : Dict (Task F Z V)) (msg : TaskMessage (Arg F Z V)) (o : Option (List (Arg F Z V)))
      (r : ResultMessage V)
      → run_unexpired c tasks msg o ≡ ok r
      → ((args : List (Arg F Z V)) × (task : Task F Z V) × (o ≡ some args)
          × (lookup msg.name tasks ≡ some task)
          × FitsTask task args)
        × Reports msg.id r
  unfolding run_unexpired
  run_unexpired-Reports tasks msg none r e = cc
  run_unexpired-Reports tasks msg (some args) r e =
      let ((task, found, fits), reports) = run_found-Reports msg args (lookup msg.name tasks) r e in
      ((args, task, refl, found, fits), reports)

  -- A task that gives a result was not expired, had arguments that are not nil and a registered name, and
  -- as many arguments as the function registered has parameters; the result bears its identifier, and a
  -- success has no traceback.
  pub run_task-Reports :
      (tasks : Dict (Task F Z V)) (now : ℕ) (msg : TaskMessage (Arg F Z V)) (r : ResultMessage V)
      → run_task c tasks now msg ≡ ok r
      → (is_expired msg.expires now ≡ false)
        × ((args : List (Arg F Z V)) × (task : Task F Z V) × (msg.args ≡ some args)
            × (lookup msg.name tasks ≡ some task)
            × FitsTask task args)
        × Reports msg.id r
  unfolding run_task
  run_task-Reports tasks now msg r e = elim (Bool-cases (is_expired msg.expires now)) [
    | inl late ↦ let bad : err expired ≡ ok r = rw late at e in cc
    | inr in_time ↦
        let (ran, reports) = run_unexpired-Reports tasks msg msg.args r (rw in_time at e) in
        (in_time, ran, reports)
  ]
