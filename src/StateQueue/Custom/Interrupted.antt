-- ===== src/StateQueue/Custom/Interrupted.antt =====
-- WaitForStateOrCustom (fairmq/StateQueue.h) while its condition stays false, and once it is true.
use mathlib.Core.Path.{subst}
use mathlib.Core.Logic.{if_pos, if_neg}
use fair_mq.Prelude.{
  ◌≡◌, refl, sym, ap, ◌∙◌, Bool, true, false, Bool-cases, inl, inr, Option, none, some, List, [],
  ◌∷◌, ◌++◌, if◌then◌else◌, arith,
}
use fair_mq.States.{State, ok}
use fair_mq.Fsm.Worker.{is_error}
use fair_mq.StateQueue.{
  State-discrete, pop_front, return_pair, found, push, Waiter, waiting, returned, threw, Controller,
  next_waiter, wake, happen,
}
use fair_mq.StateQueue.Waiting.{
  Taken, still_waiting, nothing, push-Taken, wake-Taken, assoc, append_nil,
}
use fair_mq.StateQueue.Custom.{
  next_or_custom, Stage, at_wait, at_test, at_end, at_throw, Custom, next_stage, test, wait_round,
  test_round, CustomEvent, comes, notified, waits, tests, react, react_all,
}

-- A thread at the condition of the loop has taken the state of its pair.
abbrev pub view_stage : State → Stage → Waiter
view_stage target at_wait = waiting
view_stage target (at_test (true, s)) = next_waiter target (some s)
view_stage target (at_test (false, s)) = returned
view_stage target at_end = returned
view_stage target at_throw = threw

abbrev pub view : State → Custom → Controller
view target c = record { queue = c.queue; waiter = view_stage target c.stage }

abbrev pub states_pushed : List CustomEvent → List State
states_pushed [] = []
states_pushed (comes s ∷ es) = s ∷ states_pushed es
states_pushed (notified b ∷ es) = states_pushed es
states_pushed (waits ∷ es) = states_pushed es
states_pushed (tests ∷ es) = states_pushed es

-- No signal makes the condition true.
pub data Quiet : List CustomEvent → Type 0 where
  no_events : Quiet []
  comes_quiet : {s : State} {es : List CustomEvent} → Quiet es → Quiet (comes s ∷ es)
  notified_quiet : {es : List CustomEvent} → Quiet es → Quiet (notified false ∷ es)
  waits_quiet : {es : List CustomEvent} → Quiet es → Quiet (waits ∷ es)
  tests_quiet : {es : List CustomEvent} → Quiet es → Quiet (tests ∷ es)

-- ReturnPairUnsafe of what PopFrontUnsafe does, and the round of WaitForState
pop_view :
    (target : State) (popped : List State × Option State)
    → view target
        (record { queue = (found popped).0; custom = false; stage = next_stage ((found popped).1) })
      ≡ record { queue = popped.0; waiter = next_waiter target (popped.1) }
unfolding next_stage next_waiter found
pop_view target (q, none) = refl
pop_view target (q, some s) = refl

-- With the condition false a wait is a round of WaitForState.
wait_view :
    (target : State) (q : List State)
    → view target (wait_round (record { queue = q; custom = false; stage = at_wait }))
      ≡ wake target (record { queue = q; waiter = waiting })
unfolding wait_round next_or_custom wake return_pair found
wait_view target [] = refl
wait_view target (s ∷ q) = pop_view target (pop_front s q)

test_view :
    (target : State) (first : Bool) (s : State)
    → view_stage target (test target false (first, s)) ≡ view_stage target (at_test (first, s))
unfolding test next_waiter
test_view target false s = refl
test_view target true s = elim (State-discrete s target) [
  | yes e ↦
      ap (view_stage target) (if_pos (State-discrete s target) e at_end at_wait)
      ∙ sym (if_pos (State-discrete s target) e returned waiting)
  | no n ↦
      ap (view_stage target) (if_neg (State-discrete s target) n at_end at_wait)
      ∙ sym (if_neg (State-discrete s target) n returned waiting)
]

wait_round-Taken :
    (target : State) (all : List State) (q : List State) (g : Stage)
    → Taken target all (view target (record { queue = q; custom = false; stage = g }))
    → Taken target all (view target (wait_round (record { queue = q; custom = false; stage = g })))
unfolding wait_round
wait_round-Taken target all q at_wait t =
    subst (Taken target all) (sym (wait_view target q))
      (wake-Taken target all (record { queue = q; waiter = waiting }) t)
wait_round-Taken target all q (at_test next) t = t
wait_round-Taken target all q at_end t = t
wait_round-Taken target all q at_throw t = t

test_round-Taken :
    (target : State) (all : List State) (q : List State) (g : Stage)
    → Taken target all (view target (record { queue = q; custom = false; stage = g }))
    → Taken target all
        (view target (test_round target (record { queue = q; custom = false; stage = g })))
unfolding test_round
test_round-Taken target all q at_wait t = t
test_round-Taken target all q (at_test (first, s)) t =
    subst (λ w. Taken target all (record { queue = q; waiter = w }))
      (sym (test_view target first s)) t
test_round-Taken target all q at_end t = t
test_round-Taken target all q at_throw t = t

with_false : (c : Custom) → c.custom ≡ false → c ≡ record c { custom = false }
with_false c e = ap (λ b. record c { custom = b }) e

wait_round-custom : (c : Custom) → (wait_round c).custom ≡ c.custom
unfolding wait_round
wait_round-custom c = ground arith

test_round-custom : (target : State) (c : Custom) → (test_round target c).custom ≡ c.custom
unfolding test_round
test_round-custom target c = ground arith

-- However pushes and the steps of a thread interleave while no signal makes the condition true: it
-- takes what WaitForState takes.
run-Taken :
    (target : State) (es : List CustomEvent) (all : List State) (c : Custom)
    → Quiet es
    → c.custom ≡ false
    → Taken target all (view target c)
    → Taken target (all ++ states_pushed es) (view target (react_all target es c))
unfolding react_all react happen
run-Taken target [] all c h e t =
    subst (λ l. Taken target l (view target c)) (sym (append_nil all)) t
run-Taken target (comes s ∷ es) all c (comes_quiet h) e t =
    subst (λ l. Taken target l (view target (react_all target es (react target (comes s) c))))
      (assoc all (s ∷ []) (states_pushed es))
      (run-Taken target es (all ++ s ∷ []) (react target (comes s) c) h e
        (push-Taken target s all (view target c) t))
run-Taken target (notified false ∷ es) all c (notified_quiet h) e t =
    run-Taken target es all (record c { custom = false }) h refl t
run-Taken target (notified true ∷ es) all c h e t = elim h [ ]
run-Taken target (waits ∷ es) all c (waits_quiet h) e t =
    run-Taken target es all (wait_round c) h (wait_round-custom c ∙ e) (
      subst (λ d. Taken target all (view target (wait_round d))) (sym (with_false c e))
        (wait_round-Taken target all c.queue c.stage t))
run-Taken target (tests ∷ es) all c (tests_quiet h) e t =
    run-Taken target es all (test_round target c) h (test_round-custom target c ∙ e) (
      subst (λ d. Taken target all (view target (test_round target d))) (sym (with_false c e))
        (test_round-Taken target all c.queue c.stage t))

-- While no signal makes its condition true, WaitForStateOrCustom takes of the states offered what
-- WaitForState takes, however pushes and the steps of the thread interleave: the states before the
-- target, then the target, or it throws at an error before it. The state in the pair of the last
-- wait counts as taken.
pub wait_for_state_or_custom-Taken :
    (target : State) (q : List State) (es : List CustomEvent)
    → Quiet es
    → Taken target
        (q ++ states_pushed es)
        (view target (react_all target es (record { queue = q; custom = false; stage = at_wait })))
wait_for_state_or_custom-Taken target q es h =
    run-Taken target es q (record { queue = q; custom = false; stage = at_wait }) h refl
      (still_waiting [] q nothing refl)

-- Further states that are pushed, and then the condition of the loop
abbrev pub then_test : List State → List CustomEvent
then_test [] = tests ∷ []
then_test (s ∷ ss) = comes s ∷ then_test ss

-- How a wait ends that begins with these states in the queue and with the condition true
abbrev pub ending : List State → Stage
ending [] = at_end
ending (s ∷ q) = if is_error s then at_throw else at_end

test_ends :
    (target : State) (ss : List State) (c : Custom) (next : Bool × State)
    → c.custom ≡ true
    → c.stage ≡ at_test next
    → (react_all target (then_test ss) c).stage ≡ at_end
unfolding react_all react test_round test
test_ends target [] c next e f = ground arith
test_ends target (s ∷ ss) c next e f =
    test_ends target ss (record c { queue = push s c.queue }) next e f

throw_stays :
    (target : State) (ss : List State) (c : Custom)
    → c.stage ≡ at_throw
    → (react_all target (then_test ss) c).stage ≡ at_throw
unfolding react_all react test_round
throw_stays target [] c f = ground arith
throw_stays target (s ∷ ss) c f = throw_stays target ss (record c { queue = push s c.queue }) f

popped_ends :
    (target : State) (ss q : List State) (s : State)
    → (react_all target (then_test ss) (record {
      queue = (found (pop_front s q)).0;
      custom = true;
      stage = next_stage (found (pop_front s q)).1;
    })).stage
      ≡ ending (s ∷ q)
unfolding pop_front found next_stage
popped_ends target ss q s = elim (Bool-cases (is_error s)) [
  | inl e ↦ rw e (throw_stays target ss _ refl)
  | inr n ↦ rw n (test_ends target ss _ (true, s) refl refl)
]

-- Once the condition is true, two steps of a thread in the wait of WaitForStateOrCustom end it,
-- whatever the queue holds and whatever is pushed between the steps: with the exception if an error
-- is at the front of the queue, and otherwise by returning.
pub condition_ends_wait :
    (target : State) (q ss : List State)
    → (react_all target
        (waits ∷ then_test ss)
        (record { queue = q; custom = true; stage = at_wait })).stage
      ≡ ending q
unfolding react_all react wait_round next_or_custom return_pair found next_stage
condition_ends_wait target [] ss = test_ends target ss _ (false, ok) refl refl
condition_ends_wait target (s ∷ q) ss = popped_ends target ss q s
