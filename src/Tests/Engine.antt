-- ===== src/Tests/Engine.antt =====
-- A state machine library that meets the assumptions of Fsm.Engine.
use fair_mq.Prelude.{◌≡◌, refl, true, false, none, some, arith, if◌then◌else◌}
use fair_mq.States.{State, Transition}
use fair_mq.Fsm.{Fsm, Engine, row, is_terminate, default_fct, no_transition, start}

-- The second region, where the first has no row.
unfoldable pub health_event : Transition → Fsm → Fsm
health_event e f = elim (row f.health e) [
  | none ↦ no_transition (no_transition f)
  | some t ↦ record (default_fct e t f) { health = t }
]

unfoldable pub dispatch_event : Transition → Fsm → Fsm
dispatch_event e f = if is_terminate f.health then f else elim (row f.device e) [
  | none ↦ health_event e f
  | some t ↦ record (default_fct e t f) { device = t }
]

pub dispatch_device :
    (e : Transition) (f : Fsm) (t : State)
    → is_terminate f.health ≡ false
    → row f.device e ≡ some t
    → dispatch_event e f ≡ record (default_fct e t f) { device = t }
unfolding dispatch_event
dispatch_device e f t h r = rw (h, r) refl

pub dispatch_health :
    (e : Transition) (f : Fsm) (t : State)
    → is_terminate f.health ≡ false
    → row f.device e ≡ none
    → row f.health e ≡ some t
    → dispatch_event e f ≡ record (default_fct e t f) { health = t }
unfolding dispatch_event health_event
dispatch_health e f t h r q = ground arith

pub dispatch_nothing :
    (e : Transition) (f : Fsm)
    → is_terminate f.health ≡ false
    → row f.device e ≡ none
    → row f.health e ≡ none
    → dispatch_event e f ≡ no_transition (no_transition f)
unfolding dispatch_event health_event
dispatch_nothing e f h r q = ground arith

pub dispatch_blocked :
    (e : Transition) (f : Fsm) → is_terminate f.health ≡ true → dispatch_event e f ≡ f
unfolding dispatch_event
dispatch_blocked e f h = rw h refl

abbrev pub engine : Engine
engine = record {
  process_event = dispatch_event;
  blocked = dispatch_blocked;
  device_row = λ e f t h r _. dispatch_device e f t h r;
  health_row = dispatch_health;
  no_row = dispatch_nothing;
}

abbrev pub fresh : Fsm
fresh = start true true true true
