-- ===== src/Plugins.antt =====
-- fairmq/PluginServices.cxx: which plugin may change the state of the device. Every operation holds
-- fDeviceControllerMutex throughout, so each is one step.
pub mod Control
pub mod Shutdown
pub mod Loading
use Prim.Native.String.{String}
use text.Mathlib.Text.{◌==◌ as str_eq}
use fair_mq.Prelude.{Bool, true, false, Option, none, some, List, [], ◌∷◌, if◌then◌else◌}
use fair_mq.States.{Transition}
use fair_mq.Fsm.{Fsm, Engine}
use fair_mq.Fsm.Request.{change_state}

-- The fields of PluginServices that these operations use: fDeviceController, and fDevice by its
-- state machine.
pub record PluginServices : Type 0 where
  pub controller : Option String
  pub fsm : Fsm

-- What a call returns, or DeviceControlError.
pub data Reply : Type 0 where
  returned : Bool → Reply
  done : Reply
  device_control_error : Reply

-- if (!fDeviceController) fDeviceController = controller;
abbrev controller_or : Option String → String → String
controller_or none k = k
controller_or (some c) k = c

unfoldable pub change_device_state :
    Engine → String → Transition → PluginServices → PluginServices × Reply
change_device_state eng k next s =
    let c = controller_or s.controller k in
    let s' = record s { controller = some c } in
    if str_eq c k
    then (let (f, b) = change_state eng next s.fsm in (record s' { fsm = f }, returned b))
    else (s', device_control_error)

unfoldable pub take_device_control : String → PluginServices → PluginServices × Reply
take_device_control k s = elim s.controller [
  | none ↦ (record s { controller = some k }, done)
  | some c ↦ if str_eq c k then (s, done) else (s, device_control_error)
]

unfoldable pub steal_device_control : String → PluginServices → PluginServices × Reply
steal_device_control k s = (record s { controller = some k }, done)

unfoldable pub release_device_control : String → PluginServices → PluginServices × Reply
release_device_control k s = elim s.controller [
  | none ↦ (s, done)
  | some c ↦ if str_eq c k then (record s { controller = none }, done) else (s, done)
]

-- `none` while WaitForReleaseDeviceControl is blocked.
unfoldable pub wait_for_release : PluginServices → Option PluginServices
wait_for_release s = elim s.controller [ none ↦ some s | some c ↦ none ]

pub data Call : Type 0 where
  change : Transition → Call
  take_control steal_control release_control : Call

unfoldable pub call : Engine → String → Call → PluginServices → PluginServices × Reply
call eng k (change e) s = change_device_state eng k e s
call eng k take_control s = take_device_control k s
call eng k steal_control s = steal_device_control k s
call eng k release_control s = release_device_control k s

-- The calls of several plugins, in the order in which they get the mutex.
pub calls : Engine → List (String × Call) → PluginServices → PluginServices
calls eng [] s = s
calls eng ((k, c) ∷ cs) s = calls eng cs (call eng k c s).0
