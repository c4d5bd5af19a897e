-- ===== src/Trigger/Samples.antt =====
-- Functions on numbers that are registered and called.
use jopa.Common.{ℕ, ◌+◌, not, ◌==◌, ◌==ₛ◌, some, List, [], ◌∷◌, if◌then◌else◌, ◌≡◌, refl}
use jopa.Common.Outcome.{ok, err}
use jopa.Trigger.{wrong_count, Func, EventFunc, register, exec, sync_exec}
use jopa.Trigger.Laws.{register-exec}

abbrev sum : List ℕ → ℕ
sum [] = 0
sum (n ∷ ns) = n + sum ns

-- A function with three parameters, the first of which the registration gives.
abbrev add : Func ℕ
add = record { num_in = 3; call = λ ns. ok (sum ns ∷ []) }

abbrev event : EventFunc ℕ
event = record { args = 1 ∷ []; event = some add }

register_run : register "add" event [] ≡ ok (("add", event) ∷ [])
unfolding register
register_run = refl

register-exec_example :
    (func : Func ℕ) × (event.event ≡ some func)
    × (exec "add" (2 ∷ 3 ∷ []) (("add", event) ∷ []) ≡ (
        if "add" ==ₛ "add"
        then (if not (2 + 1 == func.num_in) then err wrong_count else func.call (1 ∷ 2 ∷ 3 ∷ []))
        else exec "add" (2 ∷ 3 ∷ []) []))
register-exec_example =
    register-exec "add" "add" event [] (("add", event) ∷ []) (2 ∷ 3 ∷ []) register_run

exec_run : exec "add" (2 ∷ 3 ∷ []) (("add", event) ∷ []) ≡ ok (6 ∷ [])
unfolding exec
exec_run = refl

sync_exec_run : sync_exec sum "add" (2 ∷ 3 ∷ []) (("add", event) ∷ []) ≡ some (err wrong_count)
unfolding sync_exec
sync_exec_run = refl
