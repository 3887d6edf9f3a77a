-- ===== src/Zmq/Socket/Passes.antt =====
-- The passes of Send over several parts (fairmq/zeromq/Socket.h).
use fair_mq.Prelude.{
  ℕ, suc, ◌+◌, ◌≡◌, inl, inr, refl, sym, ap, ◌∙◌, Bool, true, false, Bool-cases, Option, some, List,
  [], ◌∷◌, ◌++◌, map, ℤ, if◌then◌else◌, arith,
}
use fair_mq.Shmem.Socket.{
  Call, moved, again, failed, arrived, refused, expired, stopped, dont_wait, should_retry,
}
use fair_mq.Shmem.Socket.Attempts.{Call-cases}
use fair_mq.Zmq.Socket.{
  Frame, Stop, all_moved, repeat, ended, SendPass, stop_at, has_more, put_first, SentParts,
  send_pass, send_vector,
}

-- The flags of the parts of one message: all but the last are sent with ZMQ_SNDMORE.
abbrev pub framed : List Frame → List (Frame × Bool)
framed [] = []
framed (f ∷ fs) = (f, has_more fs) ∷ framed fs

abbrev pub with_more : Frame → Frame × Bool
with_more f = (f, true)

abbrev pub emptied : Frame → Frame
emptied f = []

-- What the calls return for the parts in all.
abbrev pub total_of : (Frame → ℕ) → List Frame → ℕ
total_of nbytes [] = 0
total_of nbytes (f ∷ fs) = nbytes f + total_of nbytes fs

-- The calls from the k-th on move the parts.
abbrev pub Moves : (ℕ → Call) → ℕ → List Frame → Type 0
Moves calls k [] = Unit {0}
Moves calls k (f ∷ fs) = (calls k ≡ moved) × Moves calls (suc k) fs

abbrev pub after : ℕ → List Frame → ℕ
after k [] = k
after k (f ∷ fs) = after (suc k) fs

more-append : (xs : List Frame) (y : Frame) (ys : List Frame) → has_more (xs ++ y ∷ ys) ≡ true
more-append [] y ys = refl
more-append (x ∷ xs) y ys = refl

module _ (calls : ℕ → Call) (interruption : ℕ → Bool) (nbytes : Frame → ℕ) (wait : ℤ) where
  unfoldable pub one_pass : List Frame → ℕ → ℕ → ℕ → SendPass
  one_pass = send_pass calls interruption nbytes wait

  pub pass-moved :
      (f : Frame) (fs : List Frame) (n k e : ℕ)
      → calls k ≡ moved
      → one_pass (f ∷ fs) n k e ≡ put_first f (has_more fs) (one_pass fs (n + nbytes f) (suc k) e)
  unfolding one_pass send_pass
  pass-moved f fs n k e h = rw (send_pass, h) refl

  abbrev pub moved_all : List Frame → ℕ → ℕ → ℕ → SendPass
  moved_all fs t k e = record {
    parts = map emptied fs;
    wire = framed fs;
    total = t;
    next = after k fs;
    elapsed = e;
    stop = all_moved;
  }

  pub pass-all :
      (fs : List Frame) (n k e : ℕ)
      → Moves calls k fs
      → one_pass fs n k e ≡ moved_all fs (n + total_of nbytes fs) k e
  unfolding one_pass send_pass
  pass-all [] n k e m =
      let q : n ≡ n + 0 = omega arith in ap (λ (t : ℕ). stop_at [] t k e all_moved) q
  pass-all (f ∷ fs) n k e (h, m) =
      let q : n + nbytes f + total_of nbytes fs ≡ n + (nbytes f + total_of nbytes fs) =
        omega arith in
      pass-moved f fs n k e h
      ∙ ap (put_first f (has_more fs)) (pass-all fs (n + nbytes f) (suc k) e m)
      ∙ ap (λ (t : ℕ). moved_all (f ∷ fs) t k e) q

  -- A call in the middle that moves nothing, though there is time: the parts before it are sent.
  pub pass-some :
      (xs : List Frame) (y : Frame) (ys : List Frame) (n k e : ℕ)
      → Moves calls k xs
      → calls (after k xs) ≡ again
      → interruption (after k xs) ≡ false
      → (should_retry (dont_wait wait) wait e).0 ≡ true
      → (t : ℕ) × (one_pass (xs ++ y ∷ ys) n k e ≡ record {
        parts = map emptied xs ++ y ∷ ys;
        wire = map with_more xs;
        total = t;
        next = suc (after k xs);
        elapsed = (should_retry (dont_wait wait) wait e).1;
        stop = repeat;
      })
  unfolding one_pass send_pass
  pass-some [] y ys n k e m a i r = (n, rw (send_pass, a, i, r) refl)
  pass-some (x ∷ xs) y ys n k e (h, m) a i r =
      let (t, q) = pass-some xs y ys (n + nbytes x) (suc k) e m a i r in
      (
        t,
        pass-moved x (xs ++ y ∷ ys) n k e h
            ∙ ap (λ b. put_first x b (one_pass (xs ++ y ∷ ys) (n + nbytes x) (suc k) e))
                (more-append xs y ys)
            ∙ ap (put_first x true) q,
      )

  pass-failed :
      (f : Frame) (fs : List Frame) (n k e : ℕ)
      → calls k ≡ failed
      → (one_pass (f ∷ fs) n k e).stop ≡ ended refused
  unfolding one_pass send_pass
  pass-failed f fs n k e c = rw (send_pass, c) refl

  pass-stopped :
      (f : Frame) (fs : List Frame) (n k e : ℕ)
      → calls k ≡ again
      → interruption k ≡ true
      → (one_pass (f ∷ fs) n k e).stop ≡ ended stopped
  unfolding one_pass send_pass
  pass-stopped f fs n k e c i = rw (send_pass, c, i) refl

  pub pass-again :
      (f : Frame) (fs : List Frame) (n k e : ℕ)
      → calls k ≡ again
      → interruption k ≡ false
      → one_pass (f ∷ fs) n k e ≡ (
          let (retry, e') = should_retry (dont_wait wait) wait e in
          stop_at (f ∷ fs) n (suc k) e' (if retry then repeat else ended expired))
  unfolding one_pass send_pass
  pass-again f fs n k e c i = rw (send_pass, c, i) refl

  abbrev again_stop : Bool → Stop
  again_stop retry = if retry then repeat else ended expired

  again_stop-repeat : (retry : Bool) → again_stop retry ≡ repeat → retry ≡ true
  again_stop-repeat true h = refl
  again_stop-repeat false h = cc h

  -- A pass is repeated only if less than the timeout has passed.
  pub pass-repeat :
      (fs : List Frame) (n k e : ℕ)
      → (one_pass fs n k e).stop ≡ repeat
      → ((should_retry (dont_wait wait) wait e).0 ≡ true)
        × ((one_pass fs n k e).elapsed ≡ (should_retry (dont_wait wait) wait e).1)
  unfolding one_pass send_pass
  pass-repeat [] n k e h = cc h
  pass-repeat (f ∷ fs) n k e h = elim (Call-cases (calls k)) [
    | inl c ↦
        let q = pass-moved f fs n k e c in
        let (a, b) = pass-repeat fs (n + nbytes f) (suc k) e (ap (λ p. p.stop) (sym q) ∙ h) in
        (a, ap (λ p. p.elapsed) q ∙ b)
    | inr (inr c) ↦ let q : ended refused ≡ repeat = sym (pass-failed f fs n k e c) ∙ h in cc q
    | inr (inl c) ↦ elim (Bool-cases (interruption k)) [
      | inl i ↦ let q : ended stopped ≡ repeat = sym (pass-stopped f fs n k e c i) ∙ h in cc q
      | inr i ↦
          let q = pass-again f fs n k e c i in
          (again_stop-repeat _ (ap (λ p. p.stop) (sym q) ∙ h), ap (λ p. p.elapsed) q)
    ]
  ]

  unfoldable pub sends : ℕ → List Frame → List (Frame × Bool) → ℕ → ℕ → Option SentParts
  sends = send_vector calls interruption nbytes wait

  -- What follows a pass.
  abbrev pub after_pass : ℕ → List (Frame × Bool) → SendPass → Option SentParts
  after_pass fuel sent p = elim p.stop [
    | all_moved ↦
        some (record { parts = p.parts; wire = sent ++ p.wire; outcome = arrived; total = p.total })
    | repeat ↦ sends fuel p.parts (sent ++ p.wire) p.next p.elapsed
    | ended o ↦ some (record { parts = p.parts; wire = sent ++ p.wire; outcome = o; total = 0 })
  ]

  pub sends-after_pass :
      (fuel : ℕ) (fs : List Frame) (sent : List (Frame × Bool)) (k e : ℕ)
      → sends (suc fuel) fs sent k e ≡ after_pass fuel sent (one_pass fs 0 k e)
  unfolding sends send_vector one_pass
  sends-after_pass fuel fs sent k e = refl

  abbrev pub whole : List Frame → List (Frame × Bool) → SentParts
  whole fs sent = record {
    parts = map emptied fs;
    wire = sent ++ framed fs;
    outcome = arrived;
    total = total_of nbytes fs;
  }

  pub sends-all :
      (fuel : ℕ) (fs : List Frame) (sent : List (Frame × Bool)) (k e : ℕ)
      → Moves calls k fs
      → sends (suc fuel) fs sent k e ≡ some (whole fs sent)
  sends-all fuel fs sent k e m =
      let q : 0 + total_of nbytes fs ≡ total_of nbytes fs = omega arith in
      sends-after_pass fuel fs sent k e
      ∙ ap (after_pass fuel sent) (pass-all fs 0 k e m)
      ∙ ap (λ (t : ℕ). some (record (whole fs sent) { total = t })) q

  -- The first call of a pass moves nothing, though there is time: the pass is repeated as it was.
  pub sends-wait :
      (fuel : ℕ) (f : Frame) (fs : List Frame) (sent : List (Frame × Bool)) (k e : ℕ)
      → calls k ≡ again
      → interruption k ≡ false
      → (should_retry (dont_wait wait) wait e).0 ≡ true
      → sends (suc fuel) (f ∷ fs) sent k e
        ≡ sends fuel (f ∷ fs) (sent ++ []) (suc k) (should_retry (dont_wait wait) wait e).1
  sends-wait fuel f fs sent k e c i r =
      sends-after_pass fuel (f ∷ fs) sent k e
      ∙ ap (after_pass fuel sent) (pass-again f fs 0 k e c i)
      ∙ rw r refl
