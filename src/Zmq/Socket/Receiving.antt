-- ===== src/Zmq/Socket/Receiving.antt =====
-- Several parts through Receive (fairmq/zeromq/Socket.h).
use mathlib.Core.List.{append-nil}
use fair_mq.Prelude.{
  ℕ, zero, suc, ◌+◌, ◌≡◌, refl, sym, ap, ◌∙◌, Bool, true, false, Option, some, List, [], ◌∷◌, ◌++◌,
  map, ℤ, arith,
}
use fair_mq.Shmem.Socket.{Call, moved, again, arrived, dont_wait, should_retry}
use fair_mq.Zmq.Socket.{Frame, ReceivedParts, receive_vector}
use fair_mq.Zmq.Socket.Passes.{framed, with_more, total_of, after}
use fair_mq.Zmq.Socket.Sending.{Waits}

-- The calls from the k-th on receive the content, with ZMQ_RCVMORE as it was sent.
abbrev pub Arrives : (ℕ → Call) → (ℕ → Frame) → (ℕ → Bool) → ℕ → List (Frame × Bool) → Type 0
Arrives calls frame more k [] = Unit {0}
Arrives calls frame more k ((f, b) ∷ w) =
    ((calls k ≡ moved) × (frame k ≡ f) × (more k ≡ b)) × Arrives calls frame more (suc k) w

-- Fuel for a call for each of the parts and `extra` further ones.
abbrev pub each_and : List Frame → ℕ → ℕ
each_and [] extra = extra
each_and (f ∷ fs) extra = suc (each_and fs extra)

append_last : (fs : List Frame) (f : Frame) (gs : List Frame) → (fs ++ f ∷ []) ++ gs ≡ fs ++ f ∷ gs
append_last [] f gs = refl
append_last (x ∷ fs) f gs = ap (λ r. x ∷ r) (append_last fs f gs)

module _ (calls : ℕ → Call) (interruption : ℕ → Bool) (nbytes : Frame → ℕ) (wait : ℤ) where
  module _ (frame : ℕ → Frame) (more : ℕ → Bool) where
    receives : ℕ → List Frame → ℕ → ℕ → ℕ → Option ReceivedParts
    receives = receive_vector calls interruption nbytes wait frame more

    receives-more :
        (fuel : ℕ) (fs : List Frame) (f : Frame) (n k e : ℕ)
        → calls k ≡ moved
        → frame k ≡ f
        → more k ≡ true
        → receives (suc fuel) fs n k e ≡ receives fuel (fs ++ f ∷ []) (n + nbytes f) (suc k) e
    unfolding receives receive_vector
    receives-more fuel fs f n k e c g m = rw (← g) (rw (receive_vector, c, m) refl)

    receives-last :
        (fuel : ℕ) (fs : List Frame) (f : Frame) (n k e : ℕ)
        → calls k ≡ moved
        → frame k ≡ f
        → more k ≡ false
        → receives (suc fuel) fs n k e
          ≡ some (record { parts = fs ++ f ∷ []; outcome = arrived; total = n + nbytes f })
    unfolding receives receive_vector
    receives-last fuel fs f n k e c g m = rw (← g) (rw (receive_vector, c, m) refl)

    receives-again :
        (fuel : ℕ) (fs : List Frame) (n k e : ℕ)
        → calls k ≡ again
        → interruption k ≡ false
        → (should_retry (dont_wait wait) wait e).0 ≡ true
        → receives (suc fuel) fs n k e
          ≡ receives fuel fs 0 (suc k) (should_retry (dont_wait wait) wait e).1
    unfolding receives receive_vector
    receives-again fuel fs n k e c i r = rw (receive_vector, c, i, r) refl

    -- A whole message arrives behind the parts that are there.
    receives-all :
        (extra : ℕ) (fs : List Frame) (f : Frame) (gs : List Frame) (n k e : ℕ)
        → Arrives calls frame more k (framed (f ∷ gs))
        → receives (each_and (f ∷ gs) extra) fs n k e
          ≡ some (record {
            parts = fs ++ f ∷ gs;
            outcome = arrived;
            total = n + total_of nbytes (f ∷ gs);
          })
    receives-all extra fs f [] n k e ((c, g, m), _) =
        let q : n + nbytes f ≡ n + (nbytes f + 0) = omega arith in
        receives-last extra fs f n k e c g m
        ∙ ap (λ (t : ℕ). some (record { parts = fs ++ f ∷ []; outcome = arrived; total = t })) q
    receives-all extra fs f (h ∷ gs) n k e ((c, g, m), w) =
        let q : n + nbytes f + total_of nbytes (h ∷ gs) ≡ n + total_of nbytes (f ∷ h ∷ gs) =
          omega arith in
        receives-more (each_and (h ∷ gs) extra) fs f n k e c g m
        ∙ receives-all extra (fs ++ f ∷ []) h gs (n + nbytes f) (suc k) e w
        ∙ ap
            (λ r. some (record {
              parts = r;
              outcome = arrived;
              total = n + nbytes f + total_of nbytes (h ∷ gs);
            }))
            (append_last fs f (h ∷ gs))
        ∙ ap (λ (t : ℕ). some (record { parts = fs ++ f ∷ h ∷ gs; outcome = arrived; total = t })) q

    -- The first parts of a message arrive, and the call after them receives nothing.
    receives-some :
        (extra : ℕ) (fs xs : List Frame) (n k e : ℕ)
        → Arrives calls frame more k (map with_more xs)
        → (t : ℕ) × (receives (each_and xs extra) fs n k e
            ≡ receives extra (fs ++ xs) t (after k xs) e)
    receives-some extra fs [] n k e w = (n, ap (λ r. receives extra r n k e) (sym (append-nil fs)))
    receives-some extra fs (x ∷ xs) n k e ((c, g, m), w) =
        let (t, q) = receives-some extra (fs ++ x ∷ []) xs (n + nbytes x) (suc k) e w in
        (
          t,
          receives-more (each_and xs extra) fs x n k e c g m
              ∙ q
              ∙ ap (λ r. receives extra r t (after (suc k) xs) e) (append_last fs x xs),
        )

    receives-Waits :
        (j fuel : ℕ) (fs : List Frame) (k e : ℕ)
        → Waits calls interruption nbytes wait k e j
        → (e' : ℕ) × (receives (j + fuel) fs 0 k e ≡ receives fuel fs 0 (k + j) e')
    unfolding Waits
    receives-Waits zero fuel fs k e w =
        let q : 0 + fuel ≡ fuel = omega arith in
        let l : k ≡ k + 0 = omega arith in
        (e, ap (λ (u : ℕ). receives u fs 0 k e) q ∙ ap (λ (u : ℕ). receives fuel fs 0 u e) l)
    receives-Waits (suc j) fuel fs k e ((a, i, r), w) =
        let (e', p) = receives-Waits j fuel fs (suc k) (should_retry (dont_wait wait) wait e).1 w in
        let q : suc j + fuel ≡ suc (j + fuel) = omega arith in
        let l : suc k + j ≡ k + suc j = omega arith in
        (
          e',
          ap (λ (u : ℕ). receives u fs 0 k e) q
              ∙ receives-again (j + fuel) fs 0 k e a i r
              ∙ p
              ∙ ap (λ (u : ℕ). receives fuel fs 0 u e') l,
        )

-- A whole message that arrives after Receive had to wait i times.
pub receive_vector-Waits :
    (calls : ℕ → Call) (interruption : ℕ → Bool) (nbytes : Frame → ℕ) (wait : ℤ)
    → (i : ℕ) (f : Frame) (gs fs : List Frame) (frame : ℕ → Frame) (more : ℕ → Bool)
    → Waits calls interruption nbytes wait 0 0 i
    → Arrives calls frame more i (framed (f ∷ gs))
    → receive_vector calls interruption nbytes wait frame more (i + each_and (f ∷ gs) 0) fs 0 0 0
      ≡ some (record { parts = fs ++ f ∷ gs; outcome = arrived; total = total_of nbytes (f ∷ gs) })
unfolding receives
receive_vector-Waits calls interruption nbytes wait i f gs fs frame more w a =
    let (e, q) =
      receives-Waits calls interruption nbytes wait frame more i (each_and (f ∷ gs) 0) fs 0 0 w in
    let start : 0 + i ≡ i = omega arith in
    let sum : 0 + total_of nbytes (f ∷ gs) ≡ total_of nbytes (f ∷ gs) = omega arith in
    q
    ∙ ap
        (λ (k : ℕ).
          receives calls interruption nbytes wait frame more (each_and (f ∷ gs) 0) fs 0 k e)
        start
    ∙ receives-all calls interruption nbytes wait frame more 0 fs f gs 0 i e a
    ∙ ap (λ (t : ℕ). some (record { parts = fs ++ f ∷ gs; outcome = arrived; total = t })) sum

-- The first parts of a message arrive, a call receives nothing though there is time, and then the
-- others arrive: all are behind those in the container, in their order, but only the others are
-- counted and returned.
pub receive_vector_counts_rest :
    (calls : ℕ → Call) (interruption : ℕ → Bool) (nbytes : Frame → ℕ) (wait : ℤ)
    → (frame : ℕ → Frame) (more : ℕ → Bool) (fs xs : List Frame) (y : Frame) (ys : List Frame)
    → Arrives calls frame more 0 (map with_more xs)
    → calls (after 0 xs) ≡ again
    → interruption (after 0 xs) ≡ false
    → (should_retry (dont_wait wait) wait 0).0 ≡ true
    → Arrives calls frame more (suc (after 0 xs)) (framed (y ∷ ys))
    → receive_vector calls interruption nbytes wait frame more
        (each_and xs (suc (each_and (y ∷ ys) 0)))
        fs
        0
        0
        0
      ≡ some (record {
        parts = (fs ++ xs) ++ y ∷ ys;
        outcome = arrived;
        total = total_of nbytes (y ∷ ys);
      })
unfolding receives
receive_vector_counts_rest calls interruption nbytes wait frame more fs xs y ys a c i r b =
    let (t, q) =
      receives-some calls interruption nbytes wait frame more (suc (each_and (y ∷ ys) 0)) fs xs 0 0
        0 a in
    let sum : 0 + total_of nbytes (y ∷ ys) ≡ total_of nbytes (y ∷ ys) = omega arith in
    q
    ∙ receives-again calls interruption nbytes wait frame more (each_and (y ∷ ys) 0) (fs ++ xs) t
        (after 0 xs) 0 c i r
    ∙ receives-all calls interruption nbytes wait frame more 0 (fs ++ xs) y ys 0 (suc (after 0 xs))
        (should_retry (dont_wait wait) wait 0).1 b
    ∙ ap (λ (u : ℕ). some (record { parts = (fs ++ xs) ++ y ∷ ys; outcome = arrived; total = u }))
        sum
