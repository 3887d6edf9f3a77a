-- ===== src/Tests/StateQueue.antt =====
-- Waiting for a state (fairmq/StateQueue.h) on a concrete queue.
use fair_mq.StateQueue.Custom.{CustomEvent, comes, notified, waits, tests}
use fair_mq.StateQueue.Custom.Interrupted.{
  Quiet, no_events, comes_quiet, notified_quiet, waits_quiet, tests_quiet,
}
use fair_mq.Prelude.{◌≡◌, refl, false, List, [], ◌∷◌}
use fair_mq.States.{idle, initialized, bound, ready}
use fair_mq.Fsm.Worker.{is_error}
use fair_mq.StateQueue.{Event, pushed, woken}
use fair_mq.StateQueue.Waiting.{Passed, nothing, one_more}

abbrev interleaving : List Event
interleaving = woken ∷ pushed initialized ∷ woken ∷ pushed bound ∷ pushed ready ∷ woken ∷ []

passes_two : Passed bound (idle ∷ initialized ∷ [])
unfolding is_error
passes_two = one_more (λ e. cc e) refl (one_more (λ e. cc e) refl nothing)

bound_not_error : is_error bound ≡ false
unfolding is_error
bound_not_error = refl

abbrev rounds : List CustomEvent
rounds =
    waits ∷ comes initialized ∷ notified false ∷ tests ∷ waits ∷ comes bound ∷ tests ∷ waits ∷ []

rounds-Quiet : Quiet rounds
rounds-Quiet = waits_quiet (
    comes_quiet (
      notified_quiet
        (tests_quiet (waits_quiet (comes_quiet (tests_quiet (waits_quiet no_events)))))))
