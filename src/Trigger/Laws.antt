-- ===== src/Trigger/Laws.antt =====
-- trigger/trigger.go: what a call of a registered name does.
use jopa.Common.{
  ◌+◌, String, Bool, true, false, not, ◌==◌, ◌==ₛ◌, ==_iff, Bool-cases, Option, none, some, List,
  ◌++◌, length, if◌then◌else◌, ◌≡◌, ◌≢◌, refl, ap, sym, ◌∙◌, inl, inr,
}
use jopa.Common.Dict.{Dict, lookup, insert, lookup-insert}
use jopa.Common.Outcome.{Outcome, ok, err, ok_injective}
use jopa.Trigger.{
  Failure, not_a_function, wrong_count, Func, EventFunc, register, call_event, exec_found, exec,
  sync_exec,
}

module _ {V : Type 0} where
  registered :
      (name : String) (f : EventFunc V) (event : Option (Func V)) (calls later : Dict (EventFunc V))
      → ◌≡◌ {A = Outcome Failure (Dict (EventFunc V))}
          (elim event [ none ↦ err not_a_function | some func ↦ ok (insert name f calls) ])
          (ok later)
      → (func : Func V) × (event ≡ some func) × (later ≡ insert name f calls)
  registered name f none calls later h = cc
  registered name f (some func) calls later h = (func, refl, sym (ok_injective h))

  register-stored :
      (name : String) (f : EventFunc V) (calls later : Dict (EventFunc V))
      → register name f calls ≡ ok later
      → (func : Func V) × (f.event ≡ some func) × (later ≡ insert name f calls)
  unfolding register
  register-stored name f calls later h = registered name f f.event calls later h

  found-if :
      (b : Bool) (f : EventFunc V) (rest : Option (EventFunc V)) (params : List V)
      → exec_found params (if b then some f else rest)
        ≡ (if b then exec_found params (some f) else exec_found params rest)
  found-if true f rest params = refl
  found-if false f rest params = refl

  -- After a registration that succeeded, the event is a function, and a call of any name with any arguments does this: a call
  -- of the name that was registered is the function's call with the arguments of the registration and those of the call, if
  -- their number is that of the function's parameters, and an error otherwise; a call of another name does what it did before.
  pub register-exec :
      (name other : String) (f : EventFunc V) (calls later : Dict (EventFunc V)) (params : List V)
      → register name f calls ≡ ok later
      → (func : Func V) × (f.event ≡ some func)
        × (exec other params later ≡ (
            if name ==ₛ other
            then (if not (length params + length f.args == func.num_in)
                then err wrong_count
                else func.call (f.args ++ params))
            else exec other params calls))
  unfolding exec exec_found call_event
  register-exec name other f calls later params h =
      let (func, is_func, stored) = register-stored name f calls later h in
      (
        func,
        is_func,
        ap (λ m. exec_found params (lookup other m)) stored
            ∙ ap (exec_found params) (lookup-insert name other f calls)
            ∙ found-if (name ==ₛ other) f (lookup other calls) params
            ∙ ap
                (λ e.
                  if name ==ₛ other
                  then call_event f.args params e
                  else exec_found params (lookup other calls))
                is_func,
      )

  -- A call through SyncExec passes one argument, whatever the number of its parameters is: a function that does not have one
  -- parameter more than the registration gave arguments is never called.
  pub sync_exec-count :
      (of_slice : List V → V) (name : String) (f : EventFunc V) (func : Func V)
      (calls : Dict (EventFunc V)) (params : List V)
      → lookup name calls ≡ some f
      → f.event ≡ some func
      → 1 + length f.args ≢ func.num_in
      → sync_exec of_slice name params calls ≡ some (err wrong_count)
  unfolding sync_exec exec exec_found call_event
  sync_exec-count of_slice name f func calls params stored is_func ne =
      elim (Bool-cases (1 + length f.args == func.num_in)) [
        | inl same ↦ absurd (ne ((==_iff (1 + length f.args) func.num_in).0 same))
        | inr differs ↦ rw (stored, is_func, differs) refl
      ]
