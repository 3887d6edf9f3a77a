-- ===== src/StateQueue/Custom.antt =====
-- WaitForStateOrCustom and WaitForNextOrCustom (fairmq/StateQueue.h): waiting for a state or for a
-- condition of the caller, which other threads make true in Notify.
pub mod Interrupted
use mathlib.Core.Logic.{ite}
use fair_mq.Prelude.{Bool, true, false, Option, none, some, List, [], ◌∷◌, if◌then◌else◌}
use fair_mq.States.{State}
use fair_mq.StateQueue.{State-discrete, return_pair, push, Waiter, waiting, returned, threw}

-- WaitForNextOrCustom: the wait, which is enabled by a state in the queue or by the condition, and
-- ReturnPairUnsafe. The outer none is a thread that blocks.
unfoldable pub next_or_custom : List State → Bool → Option (List State × Option (Bool × State))
next_or_custom [] false = none
next_or_custom [] true = some (return_pair [])
next_or_custom (s ∷ q) custom = some (return_pair (s ∷ q))

-- A thread in WaitForStateOrCustom: in the wait, at the condition of the loop with the pair that the
-- wait returned, or at the end.
pub data Stage : Type 0 where
  at_wait : Stage
  at_test : Bool × State → Stage
  at_end at_throw : Stage

pub record Custom : Type 0 where
  pub queue : List State
  pub custom : Bool
  pub stage : Stage

unfoldable pub next_stage : Option (Bool × State) → Stage
next_stage none = at_throw
next_stage (some next) = at_test next

-- while (!customPredicate() && (next.first && next.second != state))
unfoldable pub test : State → Bool → Bool × State → Stage
test target custom (first, second) =
    if custom
    then at_end
    else if first
    then ite (State-discrete second target) at_end at_wait
    else at_end

-- The thread gets the mutex in the wait.
unfoldable pub wait_round : Custom → Custom
wait_round c = elim c.stage [
  | at_wait ↦ elim (next_or_custom c.queue c.custom) [
    | none ↦ c
    | some (q, r) ↦ record c { queue = q; stage = next_stage r }
  ]
  | at_test next ↦ c
  | at_end ↦ c
  | at_throw ↦ c
]

-- The thread evaluates the condition of the loop.
unfoldable pub test_round : State → Custom → Custom
test_round target c = elim c.stage [
  | at_wait ↦ c
  | at_test next ↦ record c { stage = test target c.custom next }
  | at_end ↦ c
  | at_throw ↦ c
]

-- What happens meanwhile: Push, Notify with a signal that sets the condition, and the two steps of
-- the thread.
pub data CustomEvent : Type 0 where
  comes : State → CustomEvent
  notified : Bool → CustomEvent
  waits tests : CustomEvent

unfoldable pub react : State → CustomEvent → Custom → Custom
react target (comes s) c = record c { queue = push s c.queue }
react target (notified b) c = record c { custom = b }
react target waits c = wait_round c
react target tests c = test_round target c

unfoldable pub react_all : State → List CustomEvent → Custom → Custom
react_all target [] c = c
react_all target (e ∷ es) c = react_all target es (react target e c)
