-- ===== src/Plugins/Shutdown.antt =====
-- Control::RunShutdownSequence (fairmq/plugins/control/Control.cxx) beside a device that meets no
-- error. The device changes its state and then pushes it to the controller's queue. Its wrappers ask
-- for Auto on their own, and the one of RUNNING for Stop (RunWrapper of fairmq/Device.cxx).
pub mod Leads
pub mod Better
pub mod Ending
use fair_mq.Prelude.{◌≡◌, ◌≢◌, ◌⊎◌, Option, none, some, List, [], ◌∷◌, ◌++◌}
use fair_mq.States.{
  State, Transition, idle, initializing_device, initialized, bound, device_ready, ready, running,
  exiting, error, auto, end, complete_init, reset_device, reset_task, stop,
}
use fair_mq.Fsm.{row}

-- The switch: the transition that the controller asks for in a state.
unfoldable pub request : State → Option Transition
request idle = some end
request initializing_device = some complete_init
request initialized = some reset_device
request bound = some reset_device
request device_ready = some reset_device
request ready = some reset_task
request running = some stop
request _ = none

-- Where the controller stands: before the state is read, before the queue is cleared, at the test of
-- the loop, in WaitForNext, after the loop. The state is nextState.
pub data Phase : Type 0 where
  reading : Phase
  clearing deciding awaiting : State → Phase
  finished : Phase

-- `unpushed` are the states that the device has gone to and not pushed yet.
pub record Shutdown : Type 0 where
  pub device : State
  pub unpushed : List State
  pub queue : List State
  pub phase : Phase

pub data Step (x : Shutdown) : Shutdown → Type 0 where
  -- the device goes on by itself
  goes_on :
      (t : State)
      → row x.device auto ≡ some t
      → Step x (record x { device = t; unpushed = x.unpushed ++ t ∷ [] })
  -- Run has returned, and no new state is pending
  stops :
      x.device ≡ running → Step x (record x { device = ready; unpushed = x.unpushed ++ ready ∷ [] })
  pushes :
      (t : State) (u : List State)
      → x.unpushed ≡ t ∷ u
      → Step x (record x { unpushed = u; queue = x.queue ++ t ∷ [] })
  reads : x.phase ≡ reading → Step x (record x { phase = clearing x.device })
  -- Clear, unless the state that was read is Error
  clears :
      (s : State)
      → x.phase ≡ clearing s
      → s ≢ error
      → Step x (record x { queue = []; phase = deciding s })
  leaves :
      (s : State)
      → x.phase ≡ deciding s
      → (s ≡ exiting) ⊎ (s ≡ error)
      → Step x (record x { phase = finished })
  asks :
      (s : State) (e : Transition) (t : State)
      → x.phase ≡ deciding s
      → request s ≡ some e
      → row x.device e ≡ some t
      → Step x (record x { device = t; unpushed = x.unpushed ++ t ∷ []; phase = awaiting s })
  -- ChangeDeviceState returns false
  refused :
      (s : State) (e : Transition)
      → x.phase ≡ deciding s
      → request s ≡ some e
      → row x.device e ≡ none
      → Step x (record x { phase = awaiting s })
  ignores :
      (s : State)
      → x.phase ≡ deciding s
      → request s ≡ none
      → s ≢ exiting
      → s ≢ error
      → Step x (record x { phase = awaiting s })
  takes :
      (s t : State) (q : List State)
      → x.phase ≡ awaiting s
      → x.queue ≡ t ∷ q
      → Step x (record x { queue = q; phase = deciding t })
