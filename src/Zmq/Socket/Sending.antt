-- ===== src/Zmq/Socket/Sending.antt =====
-- Several parts through Send (fairmq/zeromq/Socket.h).
use mathlib.Core.Path.{subst}
use fair_mq.Prelude.{
  ℕ, zero, suc, ◌+◌, ◌≡◌, ap, ◌∙◌, Bool, true, false, some, List, [], ◌∷◌, ◌++◌, map, ℤ, arith,
}
use fair_mq.Shmem.Socket.{Call, again, arrived, dont_wait, should_retry}
use fair_mq.Zmq.Socket.{Frame, send_vector}
use fair_mq.Zmq.Socket.Passes.{
  framed, with_more, emptied, total_of, Moves, after, pass-some, sends, sends-all, sends-wait,
  sends-after_pass, after_pass, whole,
}

module _ (calls : ℕ → Call) (interruption : ℕ → Bool) (nbytes : Frame → ℕ) (wait : ℤ) where
  -- The first j calls move nothing, nobody interrupts, and there is time for a further one.
  unfoldable pub Waits : ℕ → ℕ → ℕ → Type 0
  Waits k e zero = Unit {0}
  Waits k e (suc j) =
      ((calls k ≡ again)
        × (interruption k ≡ false)
        × ((should_retry (dont_wait wait) wait e).0 ≡ true))
      × Waits (suc k) (should_retry (dont_wait wait) wait e).1 j

  sends-Waits :
      (j : ℕ) (f : Frame) (fs : List Frame) (k e : ℕ)
      → Waits k e j
      → Moves calls (k + j) (f ∷ fs)
      → sends calls interruption nbytes wait (suc j) (f ∷ fs) [] k e
        ≡ some (whole calls interruption nbytes wait (f ∷ fs) [])
  unfolding Waits
  sends-Waits zero f fs k e w m =
      let q : k + 0 ≡ k = omega arith in
      sends-all calls interruption nbytes wait 0 (f ∷ fs) [] k e
        (subst (λ (i : ℕ). Moves calls i (f ∷ fs)) q m)
  sends-Waits (suc j) f fs k e ((a, i, r), w) m =
      let q : k + suc j ≡ suc k + j = omega arith in
      sends-wait calls interruption nbytes wait (suc j) f fs [] k e a i r
      ∙ sends-Waits j f fs (suc k) (should_retry (dont_wait wait) wait e).1 w
          (subst (λ (i : ℕ). Moves calls i (f ∷ fs)) q m)

-- Several parts are sent, where for the first one libzmq may have to be asked again, in time, and
-- takes all of them from then on. Each goes out once, in order, all but the last with ZMQ_SNDMORE;
-- the parts are left empty; and Send returns and counts what the calls returned for the parts in all.
pub send_vector-Waits :
    (calls : ℕ → Call) (interruption : ℕ → Bool) (nbytes : Frame → ℕ) (wait : ℤ)
    → (j : ℕ) (f : Frame) (fs : List Frame) → Waits calls interruption nbytes wait 0 0 j
    → Moves calls j (f ∷ fs)
    → send_vector calls interruption nbytes wait (suc j) (f ∷ fs) [] 0 0
      ≡ some (record {
        parts = map emptied (f ∷ fs);
        wire = framed (f ∷ fs);
        outcome = arrived;
        total = total_of nbytes (f ∷ fs);
      })
unfolding sends
send_vector-Waits calls interruption nbytes wait j f fs w m =
    let q : j ≡ 0 + j = omega arith in
    sends-Waits calls interruption nbytes wait j f fs 0 0 w
      (subst (λ (i : ℕ). Moves calls i (f ∷ fs)) q m)

-- A call that moves nothing after some parts are sent, with time left, and then calls that move all:
-- the parts before it were sent, and go out a second time, empty, in front of the other ones. Only
-- what the calls returned in the second pass is counted and returned.
pub send_vector_sends_twice :
    (calls : ℕ → Call) (interruption : ℕ → Bool) (nbytes : Frame → ℕ) (wait : ℤ)
    → (x : Frame) (xs : List Frame) (y : Frame) (ys : List Frame) → Moves calls 0 (x ∷ xs)
    → calls (after 0 (x ∷ xs)) ≡ again
    → interruption (after 0 (x ∷ xs)) ≡ false
    → (should_retry (dont_wait wait) wait 0).0 ≡ true
    → Moves calls (suc (after 0 (x ∷ xs))) (map emptied (x ∷ xs) ++ y ∷ ys)
    → send_vector calls interruption nbytes wait 2 ((x ∷ xs) ++ y ∷ ys) [] 0 0
      ≡ some (record {
        parts = map emptied (map emptied (x ∷ xs) ++ y ∷ ys);
        wire = map with_more (x ∷ xs) ++ framed (map emptied (x ∷ xs) ++ y ∷ ys);
        outcome = arrived;
        total = total_of nbytes (map emptied (x ∷ xs) ++ y ∷ ys);
      })
unfolding sends
send_vector_sends_twice calls interruption nbytes wait x xs y ys m a i r m' =
    let (t, q) = pass-some calls interruption nbytes wait (x ∷ xs) y ys 0 0 0 m a i r in
    sends-after_pass calls interruption nbytes wait 1 ((x ∷ xs) ++ y ∷ ys) [] 0 0
    ∙ ap (after_pass calls interruption nbytes wait 1 []) q
    ∙ sends-all calls interruption nbytes wait 0 (map emptied (x ∷ xs) ++ y ∷ ys)
        (map with_more (x ∷ xs)) (suc (after 0 (x ∷ xs))) (should_retry (dont_wait wait) wait 0).1
        m'
