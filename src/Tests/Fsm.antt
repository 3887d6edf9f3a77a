-- ===== src/Tests/Fsm.antt =====
-- Runs of the machine of fairmq/StateMachine.cxx.
use fair_mq.Prelude.{◌≡◌, refl, ◌↔◌, ◌⊎◌, inl, true, false, some, [], ◌∷◌}
use fair_mq.States.{State, error, initializing_device, init_device, run, stop, error_found}
use fair_mq.Fsm.{row, is_terminate, default_fct, is_error_found, start}
use fair_mq.Tests.Engine.{health_event, dispatch_event, engine, fresh}
use fair_mq.Fsm.Request.{Regions, change_state, change_state-true_iff}
use fair_mq.Fsm.Worker.{
  calling, System, request, advance, Reachable, started, later, take_new_state, begin,
}
use fair_mq.Fsm.Worker.Invariant.{
  Edge, Consistent, is_healthy, Reachable-Consistent, take_new_state_follows_table,
}
use fair_mq.Fsm.Worker.Delivery.{request_all, accepted_is_carried_out}

fresh-Regions : Regions fresh
unfolding start
fresh-Regions = record {
  device_ne_ok = λ q. cc;
  device_ne_error = λ q. cc;
  health_known = inl refl;
}

change_state-true_iff_example : ((change_state engine init_device fresh).1 ≡ true) ↔ (
    (init_device ≡ error_found)
    ⊎ ((fresh.new_state_pending ≡ false) × ((t : State) × (row fresh.device init_device ≡ some t))))
unfolding start
change_state-true_iff_example = change_state-true_iff engine init_device fresh fresh-Regions refl

-- INIT DEVICE, requested.
abbrev requested : System
requested = record (begin fresh) { fsm = (change_state engine init_device (begin fresh).fsm).0 }

requested-Reachable : Reachable engine requested
requested-Reachable = later (started true true true true) (request init_device)

Reachable-Consistent_example : Consistent requested.fsm (is_healthy requested.worker)
Reachable-Consistent_example = Reachable-Consistent engine requested-Reachable

take_new_state_follows_table_example :
    Edge requested.fsm.state (take_new_state requested.fsm).0.state
    ⊎ ((requested.fsm.health ≡ error) × ((take_new_state requested.fsm).0.state ≡ error))
unfolding begin start change_state dispatch_event health_event row is_terminate default_fct
    is_error_found
take_new_state_follows_table_example =
    take_new_state_follows_table engine requested requested-Reachable refl refl

-- ERROR FOUND, requested and taken by the worker.
abbrev failed : System
failed =
    let f = (change_state engine error_found (begin fresh).fsm).0 in
    let (g, stop') = take_new_state f in record { fsm = g; worker = calling stop' }

failed-Reachable : Reachable engine failed
unfolding begin start change_state dispatch_event health_event row is_terminate default_fct
    is_error_found
failed-Reachable =
    later (later (started true true true true) (request error_found)) (advance refl refl)

accepted_is_carried_out_example :
    let g =
      (take_new_state
        (request_all engine (run ∷ stop ∷ []) (change_state engine init_device fresh).0)).0 in
    (g.state ≡ initializing_device)
    × (g.device ≡ initializing_device)
    × (g.new_state_pending ≡ false)
unfolding start row
accepted_is_carried_out_example =
    accepted_is_carried_out engine init_device (run ∷ stop ∷ []) fresh initializing_device refl
      (λ q. cc) refl refl (λ q. cc, (λ q. cc, tt))
