-- ===== src/Shmem/Socket/Attempts.antt =====
-- How long Send and Receive (fairmq/shmem/Socket.h) try, by the timeout of the call.
use mathlib.Core.Path.{subst}
use fair_mq.Prelude.{
  ℕ, zero, suc, ◌+◌, ◌*◌, ◌<◌, ◌≤◌, ◌≡◌, ◌⊎◌, refl, sym, ap, ◌∙◌, Bool, true, false, Bool-cases,
  Option, some, inl, inr, pos, leb, leb→le, ltb, ltb→lt, arith,
}
use fair_mq.Shmem.Socket.{
  Call, moved, again, failed, Outcome, arrived, refused, expired, stopped, attempts, should_retry,
  dont_wait,
}

-- The calls before the j-th one moved nothing, and no interruption was seen.
unfoldable pub Waiting : (ℕ → Call) → (ℕ → Bool) → ℕ → Type 0
Waiting calls interruption j = (i : ℕ) → i < j → (calls i ≡ again) × (interruption i ≡ false)

-- How the loop ends with a timeout of `wait` milliseconds, at the call j.
pub data Ends (wait : ℕ) (calls : ℕ → Call) (interruption : ℕ → Bool) (j : ℕ)
    : Option Outcome → Type 0 where
  got : calls j ≡ moved → Ends wait calls interruption j (some arrived)
  broke : calls j ≡ failed → Ends wait calls interruption j (some refused)
  interrupted :
      calls j ≡ again → interruption j ≡ true → Ends wait calls interruption j (some stopped)
  -- all the time has passed, 100 ms for each call
  late :
      calls j ≡ again
      → interruption j ≡ false
      → wait ≤ suc j * 100
      → Ends wait calls interruption j (some expired)

pub Call-cases : (c : Call) → (c ≡ moved) ⊎ ((c ≡ again) ⊎ (c ≡ failed))
Call-cases moved = inl refl
Call-cases again = inr (inl refl)
Call-cases failed = inr (inr refl)

Waiting-more :
    (calls : ℕ → Call) (interruption : ℕ → Bool) (i : ℕ)
    → Waiting calls interruption i
    → calls i ≡ again
    → interruption i ≡ false
    → Waiting calls interruption (suc i)
unfolding Waiting
Waiting-more calls interruption i f h e j l = elim (Bool-cases (ltb j i)) [
  | inl t ↦ f j (ltb→lt j i t)
  | inr t ↦ let q : j ≡ i = ground (arith, l, t) in (ap calls q ∙ h, ap interruption q ∙ e)
]

-- INT_MAX
abbrev pub int_max : ℕ
int_max = 2147483647

-- The end of the loop, the calls before it, and the elapsed time, which fits an int.
pub EndsAt : ℕ → (ℕ → Call) → (ℕ → Bool) → Option Outcome → Type 0
EndsAt wait calls interruption o =
    (j : ℕ) × ((suc j * 100 ≤ int_max)
      × (((j * 100 < wait) ⊎ (j ≡ 0))
          × (Waiting calls interruption j × Ends wait calls interruption j o)))

module _ (calls : ℕ → Call) (interruption : ℕ → Bool) where
  run : ℕ → ℕ → ℕ → ℕ → Option Outcome
  run wait fuel i e = attempts calls interruption (pos wait) fuel i e

  at_moved : (wait fuel i e : ℕ) → calls i ≡ moved → run wait (suc fuel) i e ≡ some arrived
  unfolding run attempts
  at_moved wait fuel i e h = rw (attempts, h) refl

  at_failed : (wait fuel i e : ℕ) → calls i ≡ failed → run wait (suc fuel) i e ≡ some refused
  unfolding run attempts
  at_failed wait fuel i e h = rw (attempts, h) refl

  at_stopped :
      (wait fuel i e : ℕ)
      → calls i ≡ again
      → interruption i ≡ true
      → run wait (suc fuel) i e ≡ some stopped
  unfolding run attempts
  at_stopped wait fuel i e h k = rw (attempts, h, k) refl

  at_expired :
      (wait fuel i e : ℕ)
      → calls i ≡ again
      → interruption i ≡ false
      → (should_retry (dont_wait (pos wait)) (pos wait) e).0 ≡ false
      → run wait (suc fuel) i e ≡ some expired
  unfolding run attempts
  at_expired wait fuel i e h k r = rw (attempts, h, k, r) refl

  at_again :
      (wait fuel i e : ℕ)
      → calls i ≡ again
      → interruption i ≡ false
      → (should_retry (dont_wait (pos wait)) (pos wait) e).0 ≡ true
      → run wait (suc fuel) i e
        ≡ run wait fuel (suc i) (should_retry (dont_wait (pos wait)) (pos wait) e).1
  unfolding run attempts
  at_again wait fuel i e h k r = rw (attempts, h, k, r) refl

pub leb-false : (n k : ℕ) → leb n k ≡ false → k < n
leb-false n k h = ground arith

-- Whether there is a further attempt after the i-th: if less than the timeout has passed.
retry_yes :
    (wait i : ℕ)
    → (should_retry (dont_wait (pos wait)) (pos wait) (i * 100)).0 ≡ true
    → (suc i * 100 < wait)
      × ((should_retry (dont_wait (pos wait)) (pos wait) (i * 100)).1 ≡ suc i * 100)
unfolding should_retry dont_wait
retry_yes zero i h = cc h
retry_yes (suc n) i h = elim (Bool-cases (leb (suc n) (i * 100 + 100))) [
  | inl e ↦ cc (h, e)
  | inr e ↦ (omega (arith, leb-false (suc n) (i * 100 + 100) e), omega arith)
]

retry_no :
    (wait i : ℕ)
    → (should_retry (dont_wait (pos wait)) (pos wait) (i * 100)).0 ≡ false
    → wait ≤ suc i * 100
unfolding should_retry dont_wait
retry_no zero i h = omega arith
retry_no (suc n) i h = elim (Bool-cases (leb (suc n) (i * 100 + 100))) [
  | inl e ↦ omega (arith, leb→le (suc n) (i * 100 + 100) e)
  | inr e ↦ cc (h, e)
]

module _ (calls : ℕ → Call) (interruption : ℕ → Bool) (wait : ℕ)
    (small : wait + 100 ≤ int_max) where
  -- The i-th call is made only while there is time, the first one in any case.
  InTime : ℕ → Type 0
  InTime i = (i * 100 < wait) ⊎ (i ≡ 0)

  elapsed_fits : (i : ℕ) → InTime i → suc i * 100 ≤ int_max
  unfolding InTime
  elapsed_fits i (inl l) = omega (arith, l, small)
  elapsed_fits i (inr l) = omega (arith, l, small)

  run-EndsAt :
      (fuel i : ℕ)
      → InTime i
      → wait ≤ (i + fuel) * 100
      → 0 < i + fuel
      → Waiting calls interruption i
      → EndsAt wait calls interruption (run calls interruption wait fuel i (i * 100))
  unfolding EndsAt InTime
  run-EndsAt zero i (inl l) b p f =
      let late : ¬ (wait ≤ (i + 0) * 100) = omega (arith, l) in elim (late b) [ ]
  run-EndsAt zero i (inr l) b p f = let late : ¬ (0 < i + 0) = omega (arith, l) in elim (late p) [ ]
  run-EndsAt (suc fuel) i t b p f = elim (Call-cases (calls i)) [
    | inl h ↦ (
      i,
      (
        elapsed_fits i t,
        (
          t,
          (
            f,
            subst (Ends wait calls interruption i)
                (sym (at_moved calls interruption wait fuel i (i * 100) h)) (got h),
          ),
        ),
      ),
    )
    | inr (inr h) ↦ (
      i,
      (
        elapsed_fits i t,
        (
          t,
          (
            f,
            subst (Ends wait calls interruption i)
                (sym (at_failed calls interruption wait fuel i (i * 100) h)) (broke h),
          ),
        ),
      ),
    )
    | inr (inl h) ↦ elim (Bool-cases (interruption i)) [
      | inl k ↦ (
        i,
        (
          elapsed_fits i t,
          (
            t,
            (
              f,
              subst (Ends wait calls interruption i)
                  (sym (at_stopped calls interruption wait fuel i (i * 100) h k)) (interrupted h k),
            ),
          ),
        ),
      )
      | inr k ↦ elim (Bool-cases ((should_retry (dont_wait (pos wait)) (pos wait) (i * 100)).0)) [
        | inr r ↦ (
          i,
          (
            elapsed_fits i t,
            (
              t,
              (
                f,
                subst (Ends wait calls interruption i)
                    (sym (at_expired calls interruption wait fuel i (i * 100) h k r))
                    (late h k (retry_no wait i r)),
              ),
            ),
          ),
        )
        | inl r ↦
            let (l, q) = retry_yes wait i r in
            subst (EndsAt wait calls interruption)
              (sym (
                at_again calls interruption wait fuel i (i * 100) h k r
                ∙ ap (run calls interruption wait fuel (suc i)) q))
              (run-EndsAt fuel (suc i) (inl l) (omega (arith, b)) (omega arith)
                (Waiting-more calls interruption i f h k))
      ]
    ]
  ]

-- With a timeout of `wait` milliseconds, such that it and one more wait fit an int, and enough fuel the loop ends. It ends at a call j, and every
-- call but the first is made with less than the timeout in waits of 100 ms behind it. The calls
-- before moved nothing and were not interrupted; the j-th moved the bytes, or failed, or was
-- interrupted, or it moved nothing and its wait used the timeout up. The elapsed time fits an int.
pub attempts-EndsAt :
    (calls : ℕ → Call) (interruption : ℕ → Bool) (wait fuel : ℕ)
    → wait + 100 ≤ int_max
    → wait ≤ fuel * 100
    → 0 < fuel
    → EndsAt wait calls interruption (attempts calls interruption (pos wait) fuel 0 0)
unfolding run InTime Waiting
attempts-EndsAt calls interruption wait fuel small b p =
    run-EndsAt calls interruption wait small fuel 0 (inr refl) (omega (arith, b)) (omega (arith, p))
      (λ i l. let below : ¬ (i < 0) = omega arith in elim (below l) [ ])
