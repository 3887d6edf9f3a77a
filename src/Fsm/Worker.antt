-- ===== src/Fsm/Worker.antt =====
-- Machine_::ProcessWork and StateMachine::ProcessWork (fairmq/StateMachine.cxx): the worker thread
-- that carries accepted transitions out, and the interleavings with requests of other threads.
pub mod Invariant
pub mod Delivery
use fair_mq.Prelude.{◌≡◌, Bool, true, false, ◌||◌, Option, none, some, if◌then◌else◌}
use fair_mq.States.{State, Transition, ok, error, idle, exiting, error_found}
use fair_mq.Fsm.{Fsm, Engine, Notice, state_prep, state_change, state_handle, notify, start}
use fair_mq.Fsm.Request.{change_state}

-- fState == State::Exiting
unfoldable pub is_exiting : State → Bool
is_exiting exiting = true
is_exiting _ = false

-- fState == State::Error
unfoldable pub is_error : State → Bool
is_error error = true
is_error _ = false

-- The critical section of the loop, once the wait has seen a pending state; with it, `stop`.
unfoldable pub take_new_state : Fsm → Fsm × Bool
unfolding is_exiting is_error
take_new_state f =
    let f' = record f { state = f.new_state; new_state_pending = false } in
    (f', is_exiting f'.state || is_error f'.state)

-- The three calls that follow it, outside the lock.
unfoldable pub call_handlers : Fsm → Fsm
call_handlers f =
    let f' = notify f.has_prep_slot (state_prep f.state) f in
    let f'' = notify f.has_change_slot (state_change f.state) f' in
    notify f.has_handle_slot (state_handle f.state) f''

-- The first half of what runs when an exception leaves ProcessWork.
unfoldable pub enter_error : Fsm → Fsm
enter_error f =
    let f' = record f { state = error } in notify f.has_change_slot (state_change error) f'

-- Where the worker stands: at the wait, between the lock and the next round with the value of
-- `stop`, in the handler of an exception before and after `enter_error`, or returned.
pub data Worker : Type 0 where
  waiting : Worker
  calling : Bool → Worker
  throwing raising finished : Worker

pub record System : Type 0 where
  pub fsm : Fsm
  pub worker : Worker

-- After a round: the loop goes on, or it is left, with an exception in the error state.
unfoldable pub next_worker : Bool → State → Worker
unfolding is_error
next_worker false s = waiting
next_worker true s = if is_error s then throwing else finished

-- The machine when StateMachine::ProcessWork begins: it announces IDLE.
unfoldable pub begin : Fsm → System
begin f = record { fsm = notify f.has_change_slot (state_change idle) f; worker = waiting }

-- One step of the program. A request may come between any two steps of the worker, also from the
-- handlers that it calls, and any handler may throw.
pub data Step (eng : Engine) (s : System) : System → Type 0 where
  request : (e : Transition) → Step eng s (record s { fsm = (change_state eng e s.fsm).0 })
  advance :
      s.worker ≡ waiting
      → s.fsm.new_state_pending ≡ true
      → Step eng s
          (let (f, stop) = take_new_state s.fsm in record { fsm = f; worker = calling stop })
  handled :
      (stop : Bool)
      → s.worker ≡ calling stop
      → Step eng s (record { fsm = call_handlers s.fsm; worker = next_worker stop s.fsm.state })
  throws : (stop : Bool) → s.worker ≡ calling stop → Step eng s (record s { worker = throwing })
  enters_error :
      s.worker ≡ throwing → Step eng s (record { fsm = enter_error s.fsm; worker = raising })
  raises :
      s.worker ≡ raising
      → Step eng s (record { fsm = (change_state eng error_found s.fsm).0; worker = finished })

-- The systems that a started machine can come to.
pub data Reachable (eng : Engine) : System → Type 0 where
  started : (t p c h : Bool) → Reachable eng (begin (start t p c h))
  later : {s s' : System} → Reachable eng s → Step eng s s' → Reachable eng s'
