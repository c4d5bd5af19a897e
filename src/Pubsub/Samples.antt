-- ===== src/Pubsub/Samples.antt =====
-- The theorem on pubsub at concrete calls.
use jopa.Common.{arith, ℕ, List, [], ◌∷◌, none, ◌≡◌}
use jopa.Pubsub.{new_pubsub}
use jopa.Pubsub.Refines.{
  Op, to_subscribe, to_unsubscribe, to_publish, to_receive, run, view, replay, run_refines,
}

-- Two subscribers; one reads a message and leaves before the next one.
abbrev calls : List (Op ℕ)
calls =
    to_subscribe "t"
    ∷ to_subscribe "t"
    ∷ to_publish "t" 7
    ∷ to_receive "t" 0
    ∷ to_unsubscribe "t" 0
    ∷ to_publish "t" 8
    ∷ []

run_refines_example : view (run calls (new_pubsub 1)) ≡ replay 1 calls (0, λ topic ch. none)
run_refines_example = run_refines 1 calls (omega arith)
