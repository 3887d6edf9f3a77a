-- ===== src/Fsm.antt =====
-- fairmq/StateMachine.cxx: the machine behind a device, its transition table, the request of a
-- transition and the worker that carries it out.
pub mod Request
pub mod Subscriptions
pub mod Handlers
pub mod Worker
use fair_mq.Prelude.{◌≡◌, Bool, true, false, Option, none, some, List, [], ◌∷◌, ◌++◌, if◌then◌else◌}
use fair_mq.States.{
  State, Transition, ok, error, idle, initializing_device, initialized, binding, bound, connecting,
  device_ready, initializing_task, ready, running, resetting_task, resetting_device, exiting, auto,
  init_device, complete_init, bind, connect, init_task, run, stop, reset_task, reset_device, end,
  error_found,
}

-- What the machine's signals deliver, oldest first.
pub data Notice : Type 0 where
  new_transition : Transition → Notice
  state_prep state_change state_handle : State → Notice

-- Machine_, with the active state of each of its two regions and which signals have a slot.
pub record Fsm : Type 0 where
  pub device : State
  pub health : State
  pub state : State
  pub new_state : State
  pub last_transition_result : Bool
  pub new_state_pending : Bool
  pub has_transition_slot : Bool
  pub has_prep_slot : Bool
  pub has_change_slot : Bool
  pub has_handle_slot : Bool
  pub notices : List Notice

-- The rows of transition_table: start state, transition, next state.
unfoldable pub row : State → Transition → Option State
row idle end = some exiting
row idle init_device = some initializing_device
row initializing_device complete_init = some initialized
row initialized bind = some binding
row initialized reset_device = some resetting_device
row binding auto = some bound
row bound connect = some connecting
row bound reset_device = some resetting_device
row connecting auto = some device_ready
row device_ready init_task = some initializing_task
row device_ready reset_device = some resetting_device
row initializing_task auto = some ready
row ready run = some running
row ready reset_task = some resetting_task
row running stop = some ready
row resetting_task auto = some device_ready
row resetting_device auto = some idle
row ok error_found = some error
row _ _ = none

-- ERROR_S is the one terminate_state.
unfoldable pub is_terminate : State → Bool
is_terminate error = true
is_terminate _ = false

-- A Call...Callbacks function: nothing happens while its signal has no slot.
abbrev pub notify : Bool → Notice → Fsm → Fsm
notify slot n f = record f { notices = if slot then f.notices ++ n ∷ [] else f.notices }

-- The constructor, then start(): the initial states, and on_entry.
unfoldable pub start : Bool → Bool → Bool → Bool → Fsm
start transition_slot prep_slot change_slot handle_slot = record {
  device = idle;
  health = ok;
  state = idle;
  new_state = ok;
  last_transition_result = true;
  new_state_pending = false;
  has_transition_slot = transition_slot;
  has_prep_slot = prep_slot;
  has_change_slot = change_slot;
  has_handle_slot = handle_slot;
  notices = [];
}

-- DefaultFct: the action of every row.
unfoldable pub default_fct : Transition → State → Fsm → Fsm
default_fct e target f =
    let f' = record f { new_state = target; last_transition_result = true } in
    let f'' = notify f.has_transition_slot (new_transition e) f' in
    record f'' { new_state_pending = true }

unfoldable pub no_transition : Fsm → Fsm
no_transition f = record f { last_transition_result = false }

-- process_event of boost::msm, which is not in the repository: what its documentation says of a
-- machine with two regions, of the rows and of a terminate state. The device region comes first.
pub record Engine : Type 0 where
  pub process_event : Transition → Fsm → Fsm
  pub blocked : (e : Transition) (f : Fsm) → is_terminate f.health ≡ true → process_event e f ≡ f
  pub device_row :
      (e : Transition) (f : Fsm) (t : State)
      → is_terminate f.health ≡ false
      → row f.device e ≡ some t
      → row f.health e ≡ none
      → process_event e f ≡ record (default_fct e t f) { device = t }
  pub health_row :
      (e : Transition) (f : Fsm) (t : State)
      → is_terminate f.health ≡ false
      → row f.device e ≡ none
      → row f.health e ≡ some t
      → process_event e f ≡ record (default_fct e t f) { health = t }
  pub no_row :
      (e : Transition) (f : Fsm)
      → is_terminate f.health ≡ false
      → row f.device e ≡ none
      → row f.health e ≡ none
      → process_event e f ≡ no_transition (no_transition f)

-- transition == Transition::ErrorFound
unfoldable pub is_error_found : Transition → Bool
is_error_found error_found = true
is_error_found _ = false
