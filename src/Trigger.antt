-- ===== src/Trigger.antt =====
-- trigger/trigger.go: functions that are registered under a name and called with arguments. A value is an
-- `interface{}`; what reflect tells of a function, and its call, is the parameter `Func`. The `sync.Map` is a dictionary.
pub mod Laws
mod Samples
use jopa.Common.{
  ℕ, ◌+◌, String, Bool, not, ◌==◌, Option, none, some, List, [], ◌∷◌, ◌++◌, length, if◌then◌else◌,
}
use jopa.Common.Dict.{Dict, lookup, insert}
use jopa.Common.Outcome.{Outcome, ok, err, panic}

pub data Failure : Type 0 where
  not_a_function wrong_count not_registered call_failed : Failure

-- `NumIn` and `Call`, which panics at arguments of other types.
pub record Func (V : Type 0) : Type 0 where
  pub num_in : ℕ
  pub call : List V → Outcome Failure (List V)

-- `EventFunc`; the event is nothing if it is not of kind Func.
pub record EventFunc (V : Type 0) : Type 0 where
  pub args : List V
  pub event : Option (Func V)

module _ {V : Type 0} where
  -- `Register`
  unfoldable pub register :
      String → EventFunc V → Dict (EventFunc V) → Outcome Failure (Dict (EventFunc V))
  unfolding insert
  register trigger_name f calls = elim f.event [
    | none ↦ err not_a_function
    | some func ↦ ok (insert trigger_name f calls)
  ]

  -- The arguments of the registration stand before those of the call; reflect panics at an event that is no function.
  unfoldable pub call_event : List V → List V → Option (Func V) → Outcome Failure (List V)
  call_event args params none = panic
  call_event args params (some func) =
      if not (length params + length args == func.num_in)
      then err wrong_count
      else func.call (args ++ params)

  unfoldable pub exec_found : List V → Option (EventFunc V) → Outcome Failure (List V)
  unfolding call_event
  exec_found params none = err not_registered
  exec_found params (some f) = call_event f.args params f.event

  -- `Exec`
  unfoldable pub exec : String → List V → Dict (EventFunc V) → Outcome Failure (List V)
  unfolding exec_found lookup
  exec trigger_name params calls = exec_found params (lookup trigger_name calls)

  -- A panic is recovered from, with no result.
  abbrev pub recovered : Outcome Failure (List V) → Option (Outcome Failure (List V))
  recovered panic = none
  recovered (err e) = some (err e)
  recovered (ok vs) = some (ok vs)

  -- `SyncExec`, what its goroutine does: the slice of the parameters is passed on as one argument.
  unfoldable pub sync_exec :
      (List V → V) → String → List V → Dict (EventFunc V) → Option (Outcome Failure (List V))
  unfolding exec
  sync_exec of_slice event params calls = recovered (exec event (of_slice params ∷ []) calls)
