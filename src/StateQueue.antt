-- ===== src/StateQueue.antt =====
-- fairmq/StateQueue.h: the queue of states that a controller of a device waits on. Each operation
-- holds the mutex, so it is one step; a wait on the condition variable is enabled by its predicate.
pub mod Waiting
pub mod Custom
use fair_mq.Prelude.{Bool, true, false, Option, none, some, List, [], ◌∷◌, ◌++◌, if◌then◌else◌}
use mathlib.Core.Logic.{ite}
use fair_mq.States.{State, error, ok}
use fair_mq.Fsm.Worker.{is_error}

pub State-discrete : Discrete State
State-discrete = hlevel

-- PopFrontUnsafe of a queue that begins with `s`: the state that it returns, none where it throws
-- DeviceErrorState. The error stays in the queue.
unfoldable pub pop_front : State → List State → List State × Option State
pop_front s q = if is_error s then (s ∷ q, none) else (q, some s)

-- The pair that is made of the state, if there is one.
found : List State × Option State → List State × Option (Bool × State)
found (q, none) = (q, none)
found (q, some s) = (q, some (true, s))

-- ReturnPairUnsafe: it is reached with an empty queue after a timeout or a custom signal.
unfoldable pub return_pair : List State → List State × Option (Bool × State)
unfolding found
return_pair [] = ([], some (false, ok))
return_pair (s ∷ q) = found (pop_front s q)

unfoldable pub push : State → List State → List State
push s q = q ++ s ∷ []

unfoldable pub clear : List State → List State
clear q = []

-- A thread in WaitForState: it waits, has returned, or has met the exception.
pub data Waiter : Type 0 where
  waiting returned threw : Waiter

pub record Controller : Type 0 where
  pub queue : List State
  pub waiter : Waiter

-- while (WaitForNext() != state) {}: what the state that was popped means for the loop
unfoldable pub next_waiter : State → Option State → Waiter
next_waiter target none = threw
next_waiter target (some s) = ite (State-discrete s target) returned waiting

-- One round of WaitForState. With an empty queue it blocks.
unfoldable pub wake : State → Controller → Controller
wake target c = elim c.waiter [
  | returned ↦ c
  | threw ↦ c
  | waiting ↦ elim c.queue [
    | [] ↦ c
    | s ∷ q ↦ let (q', r) = pop_front s q in record { queue = q'; waiter = next_waiter target r }
  ]
]

-- What happens while a thread waits: another one pushes, or the thread gets the mutex.
pub data Event : Type 0 where
  pushed : State → Event
  woken : Event

unfoldable pub happen : State → Event → Controller → Controller
happen target (pushed s) c = record c { queue = push s c.queue }
happen target woken c = wake target c

unfoldable pub happen_all : State → List Event → Controller → Controller
happen_all target [] c = c
happen_all target (e ∷ es) c = happen_all target es (happen target e c)
