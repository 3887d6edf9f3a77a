-- ===== src/Fsm/Worker/Invariant.antt =====
-- What holds of the machine between any two steps, and what the observers of a state see of it.
use mathlib.Core.Path.{subst}
use fair_mq.Prelude.{◌≡◌, refl, sym, ◌≢◌, ◌⊎◌, inl, inr, Bool, true, false, not, some, arith}
use fair_mq.States.{State, Transition, ok, error, error_found}
use fair_mq.Fsm.{Fsm, Engine, row, default_fct, start}
use fair_mq.Fsm.Request.{Regions, change_state, change_state_cases, change_state_terminated}
use fair_mq.Fsm.Worker.{
  Worker, waiting, calling, System, Step, request, advance, handled, throws, enters_error, raises,
  Reachable, started, later, take_new_state, call_handlers, enter_error, next_worker, begin,
}

-- The table leads from one state to another.
abbrev pub Edge : State → State → Type 0
Edge s t = (e : Transition) × (row s e ≡ some t)

-- The worker has not met an exception.
unfoldable pub is_healthy : Worker → Bool
is_healthy waiting = true
is_healthy (calling stop) = true
is_healthy _ = false

pub record Consistent (f : Fsm) (healthy : Bool) : Type 0 where
  pub regions : Regions f
  pub settled : healthy ≡ true → f.health ≡ ok → f.new_state_pending ≡ false → f.state ≡ f.device
  pub on_the_way :
      healthy ≡ true
      → f.health ≡ ok
      → f.new_state_pending ≡ true
      → (f.new_state ≡ f.device) × Edge f.state f.device
  pub erring : f.health ≡ error → f.new_state_pending ≡ true → f.new_state ≡ error
  pub erred : f.health ≡ error → f.new_state_pending ≡ false → f.state ≡ error
  pub reported : f.health ≡ error → f.last_transition_result ≡ true

row-ne_ok : (s : State) (e : Transition) (t : State) → row s e ≡ some t → t ≢ ok
unfolding row
row-ne_ok s e t h = ground arith

row-ne_error : (s : State) (e : Transition) (t : State) → s ≢ ok → row s e ≡ some t → t ≢ error
unfolding row
row-ne_error s e t n h = ground arith

change_state-Consistent :
    (eng : Engine) (e : Transition) (f : Fsm) (b : Bool)
    → Consistent f b
    → Consistent (change_state eng e f).0 b
unfolding default_fct
change_state-Consistent eng e f b c =
    change_state_cases (λ r. Consistent r.0 b) eng e f c.regions (λ _ _. c) (λ _. c)
      (λ _ h _ _. record {
        regions = record {
          device_ne_ok = c.regions.device_ne_ok;
          device_ne_error = c.regions.device_ne_error;
          health_known = c.regions.health_known;
        };
        settled = c.settled;
        on_the_way = c.on_the_way;
        erring = c.erring;
        erred = c.erred;
        reported = λ q. cc;
      })
      (λ t h ne p r. record {
        regions = record {
          device_ne_ok = row-ne_ok f.device e t r;
          device_ne_error = row-ne_error f.device e t c.regions.device_ne_ok r;
          health_known = c.regions.health_known;
        };
        settled = λ _ _ q. cc;
        on_the_way = λ well _ _. (refl, (e, rw (c.settled well h p) r));
        erring = λ q _. cc;
        erred = λ _ q. cc;
        reported = λ _. refl;
      })
      (λ p h. record {
        regions = record {
          device_ne_ok = c.regions.device_ne_ok;
          device_ne_error = c.regions.device_ne_error;
          health_known = inr refl;
        };
        settled = λ _ q _. cc;
        on_the_way = λ _ q _. cc;
        erring = λ _ _. refl;
        erred = λ _ q. cc;
        reported = λ _. refl;
      })

unhealthy : (f : Fsm) (b : Bool) → Consistent f b → Consistent f false
unhealthy f b c = record {
  regions = c.regions;
  settled = λ q. cc;
  on_the_way = λ q. cc;
  erring = c.erring;
  erred = c.erred;
  reported = c.reported;
}

take_new_state-Consistent :
    (f : Fsm)
    → Consistent f true
    → f.new_state_pending ≡ true
    → Consistent (take_new_state f).0 true
unfolding take_new_state
take_new_state-Consistent f c p = record {
  regions = record {
    device_ne_ok = c.regions.device_ne_ok;
    device_ne_error = c.regions.device_ne_error;
    health_known = c.regions.health_known;
  };
  settled = λ _ h _. (c.on_the_way refl h p).0;
  on_the_way = λ _ _ q. cc;
  erring = λ _ q. cc;
  erred = λ h _. c.erring h p;
  reported = c.reported;
}

call_handlers-Consistent : (f : Fsm) (b : Bool) → Consistent f b → Consistent (call_handlers f) b
unfolding call_handlers
call_handlers-Consistent f b c = record {
  regions = record {
    device_ne_ok = c.regions.device_ne_ok;
    device_ne_error = c.regions.device_ne_error;
    health_known = c.regions.health_known;
  };
  settled = c.settled;
  on_the_way = c.on_the_way;
  erring = c.erring;
  erred = c.erred;
  reported = c.reported;
}

enter_error-Consistent : (f : Fsm) → Consistent f false → Consistent (enter_error f) false
unfolding enter_error
enter_error-Consistent f c = record {
  regions = record {
    device_ne_ok = c.regions.device_ne_ok;
    device_ne_error = c.regions.device_ne_error;
    health_known = c.regions.health_known;
  };
  settled = λ q. cc;
  on_the_way = λ q. cc;
  erring = c.erring;
  erred = λ _ _. refl;
  reported = c.reported;
}

next_worker_healthy : (stop : Bool) (s : State) → is_healthy (next_worker stop s) ≡ not stop
unfolding is_healthy next_worker
next_worker_healthy stop s = ground arith

after_calls :
    (f : Fsm) (stop : Bool)
    → Consistent f true
    → Consistent f (is_healthy (next_worker stop f.state))
after_calls f true c = rw (next_worker_healthy true f.state) (unhealthy f true c)
after_calls f false c = rw (next_worker_healthy false f.state) c

-- Every step of the program keeps the machine consistent.
pub Step-Consistent :
    (eng : Engine) {s s' : System}
    → Step eng s s'
    → Consistent s.fsm (is_healthy s.worker)
    → Consistent s'.fsm (is_healthy s'.worker)
unfolding is_healthy
Step-Consistent eng {s} (request e) c = change_state-Consistent eng e s.fsm _ c
Step-Consistent eng {s} (advance w p) c =
    take_new_state-Consistent s.fsm (subst (λ v. Consistent s.fsm (is_healthy v)) w c) p
Step-Consistent eng {s} (handled stop w) c =
    call_handlers-Consistent s.fsm _
      (after_calls s.fsm stop (subst (λ v. Consistent s.fsm (is_healthy v)) w c))
Step-Consistent eng {s} (throws stop w) c = unhealthy s.fsm _ c
Step-Consistent eng {s} (enters_error w) c = enter_error-Consistent s.fsm (unhealthy s.fsm _ c)
Step-Consistent eng {s} (raises w) c =
    change_state-Consistent eng error_found s.fsm false (unhealthy s.fsm _ c)

start-Consistent : (t p c h : Bool) → Consistent (begin (start t p c h)).fsm true
unfolding begin start
start-Consistent t p c h = record {
  regions = record { device_ne_ok = λ q. cc; device_ne_error = λ q. cc; health_known = inl refl };
  settled = λ _ _ _. refl;
  on_the_way = λ _ _ q. cc;
  erring = λ q. cc;
  erred = λ q. cc;
  reported = λ q. cc;
}

-- In every reachable state of the program, whatever the other threads request and whatever the
-- handlers throw: the first region is neither in OK nor in ERROR; a worker that met no exception shows
-- the device's state while nothing is pending, and otherwise the target of the accepted transition,
-- one row of the table ahead of the shown state; and after an error the error state comes next or
-- is shown, and the last result stands at true.
pub Reachable-Consistent :
    (eng : Engine) {s : System} → Reachable eng s → Consistent s.fsm (is_healthy s.worker)
unfolding begin is_healthy
Reachable-Consistent eng (started t p c h) = start-Consistent t p c h
Reachable-Consistent eng (later r st) = Step-Consistent eng st (Reachable-Consistent eng r)

waiting-Consistent :
    (eng : Engine) (s : System) → Reachable eng s → s.worker ≡ waiting → Consistent s.fsm true
unfolding is_healthy
waiting-Consistent eng s r w =
    subst (λ v. Consistent s.fsm (is_healthy v)) w (Reachable-Consistent eng r)

-- Whenever the worker of a reachable program takes the pending state, the state that observers see
-- goes along one row of the table, unless it becomes ERROR after an error.
pub take_new_state_follows_table :
    (eng : Engine) (s : System)
    → Reachable eng s
    → s.worker ≡ waiting
    → s.fsm.new_state_pending ≡ true
    → let f = (take_new_state s.fsm).0 in
      Edge s.fsm.state f.state ⊎ ((s.fsm.health ≡ error) × (f.state ≡ error))
unfolding take_new_state
take_new_state_follows_table eng s r w p =
    let c = waiting-Consistent eng s r w in
    elim c.regions.health_known [
      | inl h ↦
          inl (subst (Edge s.fsm.state) (sym (c.on_the_way refl h p).0) (c.on_the_way refl h p).1)
      | inr h ↦ inr (h, c.erring h p)
    ]

-- After an error has been accepted and shown, every request returns true and changes nothing.
pub terminated_reports_success :
    (eng : Engine) (s : System) (e : Transition)
    → Reachable eng s
    → s.fsm.health ≡ error
    → s.fsm.new_state_pending ≡ false
    → change_state eng e s.fsm ≡ (s.fsm, true)
terminated_reports_success eng s e r h p =
    ground (
      arith,
      change_state_terminated eng e s.fsm h (inr p),
      (Reachable-Consistent eng r).reported h,
    )
