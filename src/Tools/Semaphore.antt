-- ===== src/Tools/Semaphore.antt =====
-- fairmq/tools/Semaphore.cxx: a counting semaphore, with its threads as steps. The count is a 64-bit
-- size_t.
use fair_mq.Prelude.{
  ℕ, zero, suc, ◌+◌, ◌-◌, ◌≤◌, ◌<◌, ◌%◌, ◌^◌, ◌≡◌, refl, ◌⊎◌, inl, inr, List, [], ◌∷◌,
  if◌then◌else◌, ltb, ◌&&◌, arith,
}

-- fCount, the threads that wait on the condition variable, and how many calls of Wait have returned.
pub record Semaphore : Type 0 where
  pub count : ℕ
  pub blocked : ℕ
  pub passed : ℕ

abbrev pub new_semaphore : ℕ → Semaphore
new_semaphore n = record { count = n; blocked = 0; passed = 0 }

-- A thread calls Wait, a blocked thread gets the mutex and looks at its predicate, or a thread calls
-- Signal.
pub data Event : Type 0 where
  wait_called woken signalled : Event

-- --fCount, and Wait returns
unfoldable pub pass : Semaphore → Semaphore
pass s = record s { count = s.count - 1; passed = s.passed + 1 }

unfoldable pub wait : Semaphore → Semaphore
wait s = if ltb 0 s.count then pass s else record s { blocked = s.blocked + 1 }

unfoldable pub wake : Semaphore → Semaphore
wake s = if ltb 0 s.blocked && ltb 0 s.count then pass (record s { blocked = s.blocked - 1 }) else s

unfoldable pub signal : Semaphore → Semaphore
signal s = record s { count = (s.count + 1) % 2 ^ 64 }

unfoldable pub happen : Event → Semaphore → Semaphore
happen wait_called s = wait s
happen woken s = wake s
happen signalled s = signal s

unfoldable pub run : List Event → Semaphore → Semaphore
run [] s = s
run (e ∷ es) s = run es (happen e s)

abbrev pub calls_of_wait : List Event → ℕ
calls_of_wait [] = 0
calls_of_wait (wait_called ∷ es) = calls_of_wait es + 1
calls_of_wait (woken ∷ es) = calls_of_wait es
calls_of_wait (signalled ∷ es) = calls_of_wait es

abbrev pub calls_of_signal : List Event → ℕ
calls_of_signal [] = 0
calls_of_signal (wait_called ∷ es) = calls_of_signal es
calls_of_signal (woken ∷ es) = calls_of_signal es
calls_of_signal (signalled ∷ es) = calls_of_signal es + 1

wait_balance :
    (s : Semaphore)
    → ((wait s).count + (wait s).passed ≡ s.count + s.passed)
      × ((wait s).blocked + (wait s).passed ≡ s.blocked + s.passed + 1)
unfolding wait pass
wait_balance s = ground arith

wake_balance :
    (s : Semaphore)
    → ((wake s).count + (wake s).passed ≡ s.count + s.passed)
      × ((wake s).blocked + (wake s).passed ≡ s.blocked + s.passed)
unfolding wake pass
wake_balance s = ground arith

signal_balance :
    (s : Semaphore)
    → s.count + 1 < 2 ^ 64
    → ((signal s).count ≡ s.count + 1)
      × (((signal s).passed ≡ s.passed) × ((signal s).blocked ≡ s.blocked))
unfolding signal
signal_balance s h = (omega (arith, h), (refl, refl))

-- The balance, from any state.
run_balance :
    (es : List Event) (s : Semaphore)
    → s.count + s.passed + calls_of_signal es < 2 ^ 64
    → ((run es s).count + (run es s).passed ≡ s.count + s.passed + calls_of_signal es)
      × ((run es s).blocked + (run es s).passed ≡ s.blocked + s.passed + calls_of_wait es)
unfolding run happen
run_balance [] s h = (omega arith, omega arith)
run_balance (wait_called ∷ es) s h =
    let (a, b) = wait_balance s in
    let (c, d) = run_balance es (wait s) (omega (arith, h, a)) in
    (omega (arith, a, c), omega (arith, b, d))
run_balance (woken ∷ es) s h =
    let (a, b) = wake_balance s in
    let (c, d) = run_balance es (wake s) (omega (arith, h, a)) in
    (omega (arith, a, c), omega (arith, b, d))
run_balance (signalled ∷ es) s h =
    let (a, (b, c)) = signal_balance s (omega (arith, h)) in
    let (d, e) = run_balance es (signal s) (omega (arith, h, a, b)) in
    (omega (arith, a, b, d), omega (arith, b, c, e))

-- From a count `n`, and with fewer than 2^64 units in all: what the semaphore has let pass and could
-- still let pass is `n` and the signals, and each call of Wait has returned or is blocked.
pub semaphore_balance :
    (n : ℕ) (es : List Event)
    → n + calls_of_signal es < 2 ^ 64
    → ((run es (new_semaphore n)).count + (run es (new_semaphore n)).passed
        ≡ n + calls_of_signal es)
      × ((run es (new_semaphore n)).blocked + (run es (new_semaphore n)).passed ≡ calls_of_wait es)
semaphore_balance n es h =
    let (a, b) = run_balance es (new_semaphore n) (omega (arith, h)) in
    (omega (arith, a), omega (arith, b))

pub wakes : ℕ → List Event
wakes zero = []
wakes (suc n) = woken ∷ wakes n

idle_stays :
    (s : Semaphore)
    → (s.blocked ≡ 0) ⊎ (s.count ≡ 0)
    → ((wake s).blocked ≡ 0) ⊎ ((wake s).count ≡ 0)
unfolding wake pass
idle_stays s o = ground arith

wake_progress :
    (s : Semaphore) → ((s.blocked ≡ 0) ⊎ (s.count ≡ 0)) ⊎ ((wake s).blocked + 1 ≡ s.blocked)
unfolding wake pass
wake_progress s = ground arith

run-wakes_idle :
    (n : ℕ) (s : Semaphore)
    → (s.blocked ≡ 0) ⊎ (s.count ≡ 0)
    → ((run (wakes n) s).blocked ≡ 0) ⊎ ((run (wakes n) s).count ≡ 0)
unfolding run happen wakes
run-wakes_idle zero s o = o
run-wakes_idle (suc n) s o = run-wakes_idle n (wake s) (idle_stays s o)

-- When a thread has got the mutex as often as there are blocked threads, none is blocked or no unit
-- is left.
pub run-wakes :
    (n : ℕ) (s : Semaphore)
    → s.blocked ≤ n
    → ((run (wakes n) s).blocked ≡ 0) ⊎ ((run (wakes n) s).count ≡ 0)
unfolding run happen wakes
run-wakes zero s h = inl (omega (arith, h))
run-wakes (suc n) s h = elim (wake_progress s) [
  | inl o ↦ run-wakes_idle n (wake s) (idle_stays s o)
  | inr e ↦ run-wakes n (wake s) (omega (arith, e, h))
]
