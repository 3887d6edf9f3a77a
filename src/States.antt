-- ===== src/States.antt =====
-- fairmq/States.h and fairmq/States.cxx: the states and transitions of a device, and the
-- two-way tables between them and their names.
pub mod Names
use fair_mq.Prelude.{ℕ, ◌==◌}

-- enum class State : int. The constructors stand in the order of the enumerators 0 to 15.
pub data State : Type 0 where
  undefined ok error idle initializing_device initialized binding bound : State
  connecting device_ready initializing_task ready running : State
  resetting_task resetting_device exiting : State

-- enum class Transition : int, 0 to 11.
pub data Transition : Type 0 where
  auto init_device complete_init bind connect init_task run stop : Transition
  reset_task reset_device end error_found : Transition

pub State-discrete : Discrete State
State-discrete = hlevel

pub Transition-discrete : Discrete Transition
Transition-discrete = hlevel

-- static_cast<int>(state)
unfoldable pub state_to_int : State → ℕ
state_to_int undefined = 0
state_to_int ok = 1
state_to_int error = 2
state_to_int idle = 3
state_to_int initializing_device = 4
state_to_int initialized = 5
state_to_int binding = 6
state_to_int bound = 7
state_to_int connecting = 8
state_to_int device_ready = 9
state_to_int initializing_task = 10
state_to_int ready = 11
state_to_int running = 12
state_to_int resetting_task = 13
state_to_int resetting_device = 14
state_to_int exiting = 15

-- static_cast<int>(transition)
unfoldable pub transition_to_int : Transition → ℕ
transition_to_int auto = 0
transition_to_int init_device = 1
transition_to_int complete_init = 2
transition_to_int bind = 3
transition_to_int connect = 4
transition_to_int init_task = 5
transition_to_int run = 6
transition_to_int stop = 7
transition_to_int reset_task = 8
transition_to_int reset_device = 9
transition_to_int end = 10
transition_to_int error_found = 11
