-- ===== src/Shmem/Allocate.antt =====
-- Manager::Allocate (fairmq/shmem/Manager.h): the attempts to get a buffer from the segment.
use mathlib.Core.Path.{subst}
use fair_mq.Prelude.{
  ℕ, zero, suc, ◌+◌, ◌≤◌, ◌<◌, ◌≡◌, refl, sym, ap, ◌∙◌, inl, inr, Bool, true, false, Bool-cases,
  Option, Option-cases, none, some, ℤ, pos, negsuc, if◌then◌else◌, ltb, leb, arith, leb→le, ltb→lt,
}

-- A buffer, MessageBadAlloc because the segment is too small, or MessageBadAlloc after attempts
pub data Allocation : Type 0 where
  buffer : ℕ → Allocation
  too_large out_of_memory : Allocation

-- fBadAllocMaxAttempts >= 0 && ++numAttempts >= fBadAllocMaxAttempts, with numAttempts after it
unfoldable pub gives_up : ℤ → ℕ → Bool × ℕ
gives_up (pos n) attempts = (leb n (suc attempts), suc attempts)
gives_up (negsuc n) attempts = (false, attempts)

-- The loop. `tries i` is what the allocator returns at the i-th call, none for its bad_alloc, and
-- `interrupted i` what Interrupted() returns after it.
module _ (full_size segment_size : ℕ) (max : ℤ) (tries : ℕ → Option ℕ)
    (interrupted : ℕ → Bool) where
  unfoldable pub allocate : ℕ → ℕ → ℕ → Option Allocation
  unfolding gives_up
  allocate zero i attempts = none
  allocate (suc fuel) i attempts =
      let (stop, attempts') = gives_up max attempts in
      let rest = allocate fuel (suc i) attempts' in
      if ltb segment_size full_size then some too_large else elim (tries i) [
        | some p ↦ some (buffer p)
        | none ↦
            if stop then some out_of_memory else if interrupted i then some out_of_memory else rest
      ]

-- The number of attempts that a maximum of n stands for.
unfoldable pub limit : ℕ → ℕ
limit zero = 1
limit (suc n) = suc n

-- All attempts before the j-th failed, and no interruption was seen.
unfoldable pub Failing : (ℕ → Option ℕ) → (ℕ → Bool) → ℕ → Type 0
Failing tries interrupted j = (i : ℕ) → i < j → (tries i ≡ none) × (interrupted i ≡ false)

-- How the loop ends in a segment that is large enough.
pub data Ends (n : ℕ) (tries : ℕ → Option ℕ) (interrupted : ℕ → Bool)
    : Option Allocation → Type 0 where
  found :
      (j p : ℕ)
      → j < limit n
      → tries j ≡ some p
      → Failing tries interrupted j
      → Ends n tries interrupted (some (buffer p))
  exhausted :
      ((i : ℕ) → i < limit n → tries i ≡ none) → Ends n tries interrupted (some out_of_memory)
  stopped :
      (j : ℕ)
      → j < limit n
      → tries j ≡ none
      → interrupted j ≡ true
      → Failing tries interrupted j
      → Ends n tries interrupted (some out_of_memory)

module _ (full_size segment_size n : ℕ) (tries : ℕ → Option ℕ) (interrupted : ℕ → Bool)
    (fits : ltb segment_size full_size ≡ false) where
  step_found :
      (fuel i a p : ℕ)
      → tries i ≡ some p
      → allocate full_size segment_size (pos n) tries interrupted (suc fuel) i a ≡ some (buffer p)
  unfolding allocate
  step_found fuel i a p h = rw (allocate, fits, h) refl

  step_stop :
      (fuel i a : ℕ)
      → tries i ≡ none
      → leb n (suc a) ≡ true
      → allocate full_size segment_size (pos n) tries interrupted (suc fuel) i a
        ≡ some out_of_memory
  unfolding allocate
  step_stop fuel i a h k = rw (allocate, fits, h, k) refl

  step_interrupted :
      (fuel i a : ℕ)
      → tries i ≡ none
      → leb n (suc a) ≡ false
      → interrupted i ≡ true
      → allocate full_size segment_size (pos n) tries interrupted (suc fuel) i a
        ≡ some out_of_memory
  unfolding allocate
  step_interrupted fuel i a h k e = rw (allocate, fits, h, k, e) refl

  step_again :
      (fuel i a : ℕ)
      → tries i ≡ none
      → leb n (suc a) ≡ false
      → interrupted i ≡ false
      → allocate full_size segment_size (pos n) tries interrupted (suc fuel) i a
        ≡ allocate full_size segment_size (pos n) tries interrupted fuel (suc i) (suc a)
  unfolding allocate
  step_again fuel i a h k e = rw (allocate, fits, h, k, e) refl

limit-last : (n a : ℕ) → leb n (suc a) ≡ true → limit n ≤ suc a
unfolding limit
limit-last zero a h = omega arith
limit-last (suc n) a h = omega (arith, leb→le (suc n) (suc a) h)

limit-more : (n a : ℕ) → leb n (suc a) ≡ false → suc a < limit n
unfolding limit
limit-more zero a h = ground arith
limit-more (suc n) a h = ground arith

limit_pos : (n : ℕ) → 0 < limit n
unfolding limit
limit_pos zero = omega arith
limit_pos (suc n) = omega arith

Failing-more :
    (tries : ℕ → Option ℕ) (interrupted : ℕ → Bool) (i : ℕ)
    → Failing tries interrupted i
    → tries i ≡ none
    → interrupted i ≡ false
    → Failing tries interrupted (suc i)
unfolding Failing
Failing-more tries interrupted i f h e j l = elim (Bool-cases (ltb j i)) [
  | inl t ↦ f j (ltb→lt j i t)
  | inr t ↦ let q : j ≡ i = ground (arith, l, t) in (ap tries q ∙ h, ap interrupted q ∙ e)
]

module _ (full_size segment_size n : ℕ) (tries : ℕ → Option ℕ) (interrupted : ℕ → Bool)
    (fits : ltb segment_size full_size ≡ false) where
  run : ℕ → ℕ → Option Allocation
  run fuel i = allocate full_size segment_size (pos n) tries interrupted fuel i i

  all_fail :
      (i : ℕ)
      → tries i ≡ none
      → Failing tries interrupted i
      → leb n (suc i) ≡ true
      → (j : ℕ) → j < limit n
      → tries j ≡ none
  unfolding Failing
  all_fail i h f k j l = elim (Bool-cases (ltb j i)) [
    | inl t ↦ (f j (ltb→lt j i t)).0
    | inr t ↦ let m = limit-last n i k in let q : j ≡ i = ground (arith, l, t, m) in ap tries q ∙ h
  ]

  run-Ends :
      (fuel i : ℕ)
      → i < limit n
      → limit n ≤ i + fuel
      → Failing tries interrupted i
      → Ends n tries interrupted (run fuel i)
  unfolding run
  run-Ends zero i l b f =
      let none_left : ¬ (limit n ≤ i + zero) = omega (arith, l) in elim (none_left b) [ ]
  run-Ends (suc fuel) i l b f = elim (Option-cases (tries i)) [
    | inr (p, h) ↦
        subst (Ends n tries interrupted)
          (sym (step_found full_size segment_size n tries interrupted fits fuel i i p h))
          (found i p l h f)
    | inl h ↦ elim (Bool-cases (leb n (suc i))) [
      | inl k ↦
          subst (Ends n tries interrupted)
            (sym (step_stop full_size segment_size n tries interrupted fits fuel i i h k))
            (exhausted (all_fail i h f k))
      | inr k ↦ elim (Bool-cases (interrupted i)) [
        | inl e ↦
            subst (Ends n tries interrupted)
              (sym
                (step_interrupted full_size segment_size n tries interrupted fits fuel i i h k e))
              (stopped i l h e f)
        | inr e ↦
            subst (Ends n tries interrupted)
              (sym (step_again full_size segment_size n tries interrupted fits fuel i i h k e))
              (run-Ends fuel (suc i) (limit-more n i k) (omega (arith, b))
                (Failing-more tries interrupted i f h e))
      ]
    ]
  ]

-- With a maximum of n attempts, for n = 0 too, and a segment that is large enough, the loop ends
-- within n attempts, or one for n = 0: with the first buffer that it gets, or, if it gets none, with
-- MessageBadAlloc after the last attempt or after the first one that an interruption follows.
pub allocate-Ends :
    (full_size segment_size n : ℕ) (tries : ℕ → Option ℕ) (interrupted : ℕ → Bool) (fuel : ℕ)
    → ltb segment_size full_size ≡ false
    → limit n ≤ fuel
    → Ends n tries interrupted (allocate full_size segment_size (pos n) tries interrupted fuel 0 0)
unfolding run Failing
allocate-Ends full_size segment_size n tries interrupted fuel fits b =
    run-Ends full_size segment_size n tries interrupted fits fuel 0 (limit_pos n) (omega (arith, b))
      (λ i l. let below : ¬ (i < 0) = omega arith in elim (below l) [ ])
