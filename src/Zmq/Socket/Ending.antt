-- ===== src/Zmq/Socket/Ending.antt =====
-- How long Send of several parts tries (fairmq/zeromq/Socket.h).
use fair_mq.Prelude.{
  ℕ, zero, suc, ◌+◌, ◌*◌, ◌<◌, ◌≤◌, ◌≡◌, ◌⊎◌, inl, inr, refl, ◌∙◌, Bool, true, Bool-cases, some,
  List, ◌++◌, ℤ, pos, leb, arith,
}
use fair_mq.Shmem.Socket.{Call, Outcome, arrived, dont_wait, should_retry}
use fair_mq.Shmem.Socket.Attempts.{leb-false}
use fair_mq.Zmq.Socket.{Frame, Stop, all_moved, repeat, ended, SendPass, SentParts, send_vector}
use fair_mq.Zmq.Socket.Passes.{one_pass, pass-repeat, sends, sends-after_pass, after_pass}

-- Whether there is a further pass: if less than the timeout has passed.
in_time :
    (w e : ℕ)
    → (should_retry (dont_wait (pos w)) (pos w) e).0 ≡ true
    → (e + 100 < w) × ((should_retry (dont_wait (pos w)) (pos w) e).1 ≡ e + 100)
unfolding should_retry dont_wait
in_time zero e h = cc h
in_time (suc n) e h = elim (Bool-cases (leb (suc n) (e + 100))) [
  | inl q ↦ cc (h, q)
  | inr q ↦ (leb-false (suc n) (e + 100) q, refl)
]

Stop-cases : (s : Stop) → ((s ≡ all_moved) ⊎ (s ≡ repeat)) ⊎ ((o : Outcome) × (s ≡ ended o))
Stop-cases all_moved = inl (inl refl)
Stop-cases repeat = inl (inr refl)
Stop-cases (ended o) = inr (o, refl)

module _ (calls : ℕ → Call) (interruption : ℕ → Bool) (nbytes : Frame → ℕ) (wait : ℤ) where
  after_done :
      (fuel : ℕ) (sent : List (Frame × Bool)) (p : SendPass)
      → p.stop ≡ all_moved
      → after_pass calls interruption nbytes wait fuel sent p
        ≡ some
            (record { parts = p.parts; wire = sent ++ p.wire; outcome = arrived; total = p.total })
  after_done fuel sent p q = rw q refl

  after_repeat :
      (fuel : ℕ) (sent : List (Frame × Bool)) (p : SendPass)
      → p.stop ≡ repeat
      → after_pass calls interruption nbytes wait fuel sent p
        ≡ sends calls interruption nbytes wait fuel p.parts (sent ++ p.wire) p.next p.elapsed
  after_repeat fuel sent p q = rw q refl

  after_ended :
      (fuel : ℕ) (sent : List (Frame × Bool)) (p : SendPass) (o : Outcome)
      → p.stop ≡ ended o
      → after_pass calls interruption nbytes wait fuel sent p
        ≡ some (record { parts = p.parts; wire = sent ++ p.wire; outcome = o; total = 0 })
  after_ended fuel sent p o q = rw q refl

-- With a timeout of w milliseconds, 0 too, and fuel for as many passes, Send of several parts ends.
pub send_vector_returns :
    (calls : ℕ → Call) (interruption : ℕ → Bool) (nbytes : Frame → ℕ) (w fuel : ℕ)
    → (fs : List Frame) (sent : List (Frame × Bool)) (k e : ℕ) → w ≤ e + fuel * 100
    → 0 < fuel
    → (r : SentParts) × (send_vector calls interruption nbytes (pos w) fuel fs sent k e ≡ some r)
unfolding sends
send_vector_returns calls interruption nbytes w zero fs sent k e b p = absurd (omega arith)
send_vector_returns calls interruption nbytes w (suc fuel) fs sent k e b p =
    let p1 = one_pass calls interruption nbytes (pos w) fs 0 k e in
    let start = sends-after_pass calls interruption nbytes (pos w) fuel fs sent k e in
    elim (Stop-cases p1.stop) [
      | inl (inl q) ↦ (_, start ∙ after_done calls interruption nbytes (pos w) fuel sent p1 q)
      | inl (inr q) ↦
          let (r, d) = pass-repeat calls interruption nbytes (pos w) fs 0 k e q in
          let (l, g) = in_time w e r in
          let (s, z) =
            send_vector_returns calls interruption nbytes w fuel p1.parts (sent ++ p1.wire) p1.next
              p1.elapsed (omega (arith, d, g)) (omega arith) in
          (s, start ∙ after_repeat calls interruption nbytes (pos w) fuel sent p1 q ∙ z)
      | inr (o, q) ↦ (_, start ∙ after_ended calls interruption nbytes (pos w) fuel sent p1 o q)
    ]
