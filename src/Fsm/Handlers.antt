-- ===== src/Fsm/Handlers.antt =====
-- PrepareState, HandleStates and StopHandlingStates, with what WaitForPendingStateFor returns
-- (fairmq/StateMachine.cxx). A slot is known by whether a callback is connected.
use fair_mq.Prelude.{Bool, true, false, if◌then◌else◌}
use fair_mq.Fsm.{Fsm}

-- The callback that is set already stays.
unfoldable pub prepare_state : Fsm → Fsm
prepare_state f = if f.has_prep_slot then f else record f { has_prep_slot = true }

unfoldable pub handle_states : Fsm → Fsm
handle_states f = if f.has_handle_slot then f else record f { has_handle_slot = true }

unfoldable pub stop_handling_states : Fsm → Fsm
stop_handling_states f =
    let f' = if f.has_prep_slot then record f { has_prep_slot = false } else f in
    if f'.has_handle_slot then record f' { has_handle_slot = false } else f'

-- The predicate when the wait is over, with a state pending or after the timeout.
unfoldable pub wait_for_pending_state_for : Fsm → Bool
wait_for_pending_state_for f = f.new_state_pending
