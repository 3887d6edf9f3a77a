-- ===== src/Fsm/Request.antt =====
-- StateMachine::ChangeState (fairmq/StateMachine.cxx): a request holds the machine's mutex
-- throughout, so it is one step.
use fair_mq.Prelude.{
  ◌≡◌, refl, ◌≢◌, ◌↔◌, ◌⊎◌, inl, inr, Bool, true, false, not, ◌||◌, none, some, arith,
  if◌then◌else◌, Option-cases, Bool-cases,
}
use fair_mq.States.{State, Transition, Transition-discrete, ok, error, error_found}
use fair_mq.Fsm.{Fsm, Engine, row, is_terminate, default_fct, no_transition, is_error_found}

-- The switch hands each of the twelve transitions to process_event; `default` is never reached.
unfoldable pub change_state : Engine → Transition → Fsm → Fsm × Bool
change_state eng e f =
    if not f.new_state_pending || is_error_found e
    then (let g = eng.process_event e f in (g, g.last_transition_result))
    else (f, false)

-- The first region never enters OK or ERROR, the second has no other state.
pub record Regions (f : Fsm) : Type 0 where
  pub device_ne_ok : f.device ≢ ok
  pub device_ne_error : f.device ≢ error
  pub health_known : (f.health ≡ ok) ⊎ (f.health ≡ error)

row_of_device : (s : State) → s ≢ ok → row s error_found ≡ none
unfolding row
row_of_device s h = ground arith

row_of_ok : (e : Transition) → e ≢ error_found → row ok e ≡ none
unfolding row
row_of_ok e h = ground arith

row_ok_error : row ok error_found ≡ some error
unfolding row
row_ok_error = refl

module _ (eng : Engine) (e : Transition) (f : Fsm) where
  -- A transition that the table has for the current state is accepted.
  pub change_state_accepts :
      (t : State)
      → f.health ≡ ok
      → e ≢ error_found
      → f.new_state_pending ≡ false
      → row f.device e ≡ some t
      → change_state eng e f ≡ (record (default_fct e t f) { device = t }, true)
  unfolding change_state is_terminate default_fct is_error_found
  change_state_accepts t h ne p r =
      ground (arith, eng.device_row e f t (rw h refl) r (rw h (row_of_ok e ne)))

  pub change_state_refuses :
      f.health ≡ ok
      → e ≢ error_found
      → f.new_state_pending ≡ false
      → row f.device e ≡ none
      → change_state eng e f ≡ (record f { last_transition_result = false }, false)
  unfolding change_state is_terminate no_transition is_error_found
  change_state_refuses h ne p r =
      ground (arith, eng.no_row e f (rw h refl) r (rw h (row_of_ok e ne)))

  -- While a state is pending every request but ErrorFound changes nothing.
  pub change_state_busy :
      e ≢ error_found → f.new_state_pending ≡ true → change_state eng e f ≡ (f, false)
  unfolding change_state is_error_found
  change_state_busy ne p = ground arith

  pub change_state_terminated :
      f.health ≡ error
      → (e ≡ error_found) ⊎ (f.new_state_pending ≡ false)
      → change_state eng e f ≡ (f, f.last_transition_result)
  unfolding change_state is_terminate is_error_found
  change_state_terminated h p = ground (arith, eng.blocked e f (rw h refl))

pub change_state_error :
    (eng : Engine) (f : Fsm)
    → f.health ≡ ok
    → f.device ≢ ok
    → change_state eng error_found f
      ≡ (record (default_fct error_found error f) { health = error }, true)
unfolding change_state is_terminate default_fct is_error_found
change_state_error eng f h d = ground (
  arith,
  eng.health_row error_found f error (rw h refl) (row_of_device f.device d) (rw h row_ok_error),
)

-- Every outcome of a request, with what is known where it happens.
pub change_state_cases {ℓ} :
    (P : Fsm × Bool → Type ℓ) (eng : Engine) (e : Transition) (f : Fsm)
    → Regions f
    → (e ≢ error_found → f.new_state_pending ≡ true → P (f, false))
    → (f.health ≡ error → P (f, f.last_transition_result))
    → (e ≢ error_found
        → f.health ≡ ok
        → f.new_state_pending ≡ false
        → row f.device e ≡ none
        → P (record f { last_transition_result = false }, false))
    → ((t : State)
        → f.health ≡ ok
        → e ≢ error_found
        → f.new_state_pending ≡ false
        → row f.device e ≡ some t
        → P (record (default_fct e t f) { device = t }, true))
    → (e ≡ error_found
        → f.health ≡ ok
        → P (record (default_fct error_found error f) { health = error }, true))
    → P (change_state eng e f)
change_state_cases P eng e f g busy ended refused accepted failed =
    elim (Transition-discrete e error_found) [
      | yes p ↦ elim g.health_known [
        | inl h ↦ rw (p, change_state_error eng f h g.device_ne_ok) (failed p h)
        | inr h ↦ rw (change_state_terminated eng e f h (inl p)) (ended h)
      ]
      | no ne ↦ elim (Bool-cases f.new_state_pending) [
        | inl full ↦ rw (change_state_busy eng e f ne full) (busy ne full)
        | inr free ↦ elim g.health_known [
          | inr h ↦ rw (change_state_terminated eng e f h (inr free)) (ended h)
          | inl h ↦ elim (Option-cases (row f.device e)) [
            | inl r ↦ rw (change_state_refuses eng e f h ne free r) (refused ne h free r)
            | inr (t, r) ↦ rw (change_state_accepts eng e f t h ne free r) (accepted t h ne free r)
          ]
        ]
      ]
    ]

-- In a machine that has not met an error, a request returns true exactly when it is ErrorFound, or
-- no state is pending and the table has a row for the current state.
pub change_state-true_iff :
    (eng : Engine) (e : Transition) (f : Fsm)
    → Regions f
    → f.health ≡ ok
    → ((change_state eng e f).1 ≡ true) ↔ (
        (e ≡ error_found)
        ⊎ ((f.new_state_pending ≡ false) × ((t : State) × (row f.device e ≡ some t))))
change_state-true_iff eng e f g h =
    change_state_cases
      (λ r. (r.1 ≡ true) ↔ (
        (e ≡ error_found)
        ⊎ ((f.new_state_pending ≡ false) × ((t : State) × (row f.device e ≡ some t)))))
      eng e f g (λ ne p. (λ q. cc, λ q. ground arith)) (λ q. cc)
      (λ ne _ p r. (λ q. cc, λ q. ground arith)) (λ t _ ne p r. (λ q. inr (p, (t, r)), λ q. refl))
      (λ p _. (λ q. inl p, λ q. refl))
