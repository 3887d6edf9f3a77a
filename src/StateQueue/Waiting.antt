-- ===== src/StateQueue/Waiting.antt =====
-- WaitForState (fairmq/StateQueue.h) under all interleavings with Push.
use mathlib.Core.Logic.{if_pos, if_neg}
use mathlib.Core.Path.{subst}
use fair_mq.Prelude.{
  ℕ, zero, suc, ◌≡◌, refl, sym, ap, ◌∙◌, ◌≢◌, inl, inr, true, false, Bool-cases, List, [], ◌∷◌,
  ◌++◌, length,
}
use fair_mq.States.{State}
use fair_mq.Fsm.Worker.{is_error}
use fair_mq.StateQueue.{
  State-discrete, pop_front, push, waiting, returned, threw, Controller, next_waiter, wake, Event,
  pushed, woken, happen, happen_all,
}

-- The states that the events push, in their order.
abbrev pub states_of : List Event → List State
states_of [] = []
states_of (pushed s ∷ es) = s ∷ states_of es
states_of (woken ∷ es) = states_of es

-- States that a thread waiting for `target` passes over.
pub data Passed (target : State) : List State → Type 0 where
  nothing : Passed target []
  one_more :
      {s : State} {ss : List State}
      → s ≢ target
      → is_error s ≡ false
      → Passed target ss
      → Passed target (s ∷ ss)

-- What a thread that waits for `target` has done to the states `all` it was offered: it has taken
-- those before the target or the first error, and the target itself.
pub data Taken (target : State) (all : List State) : Controller → Type 0 where
  still_waiting :
      (c q : List State)
      → Passed target c
      → all ≡ c ++ q
      → Taken target all (record { queue = q; waiter = waiting })
  reached :
      (c q : List State)
      → Passed target c
      → is_error target ≡ false
      → all ≡ c ++ target ∷ q
      → Taken target all (record { queue = q; waiter = returned })
  failed :
      (c q : List State) (s : State)
      → Passed target c
      → is_error s ≡ true
      → all ≡ c ++ s ∷ q
      → Taken target all (record { queue = s ∷ q; waiter = threw })

pub assoc : (xs ys zs : List State) → (xs ++ ys) ++ zs ≡ xs ++ (ys ++ zs)
assoc [] ys zs = refl
assoc (x ∷ xs) ys zs = ap (λ l. x ∷ l) (assoc xs ys zs)

pub append_nil : (xs : List State) → xs ++ [] ≡ xs
append_nil [] = refl
append_nil (x ∷ xs) = ap (λ l. x ∷ l) (append_nil xs)

pub push-Taken :
    (target s : State) (all : List State) (c : Controller)
    → Taken target all c
    → Taken target (all ++ s ∷ []) (happen target (pushed s) c)
unfolding happen push
push-Taken target s all c (still_waiting p q h e) =
    still_waiting p (q ++ s ∷ []) h (ap (λ l. l ++ s ∷ []) e ∙ assoc p q (s ∷ []))
push-Taken target s all c (reached p q h n e) =
    reached p (q ++ s ∷ []) h n (ap (λ l. l ++ s ∷ []) e ∙ assoc p (target ∷ q) (s ∷ []))
push-Taken target s all c (failed p q x h n e) =
    failed p (q ++ s ∷ []) x h n (ap (λ l. l ++ s ∷ []) e ∙ assoc p (x ∷ q) (s ∷ []))

pass-one :
    (target s : State) (c : List State)
    → Passed target c
    → s ≢ target
    → is_error s ≡ false
    → Passed target (c ++ s ∷ [])
pass-one target s [] nothing n e = one_more n e nothing
pass-one target s (x ∷ c) (one_more a b p) n e = one_more a b (pass-one target s c p n e)

wake_error :
    (target s : State) (q : List State)
    → is_error s ≡ true
    → wake target (record { queue = s ∷ q; waiter = waiting })
      ≡ record { queue = s ∷ q; waiter = threw }
unfolding wake pop_front next_waiter
wake_error target s q e = rw e refl

wake_target :
    (target s : State) (q : List State)
    → s ≡ target
    → is_error s ≡ false
    → wake target (record { queue = s ∷ q; waiter = waiting })
      ≡ record { queue = q; waiter = returned }
unfolding wake pop_front next_waiter
wake_target target s q i e = rw (e, if_pos (State-discrete s target) i returned waiting) refl

wake_other :
    (target s : State) (q : List State)
    → s ≢ target
    → is_error s ≡ false
    → wake target (record { queue = s ∷ q; waiter = waiting })
      ≡ record { queue = q; waiter = waiting }
unfolding wake pop_front next_waiter
wake_other target s q n e = rw (e, if_neg (State-discrete s target) n returned waiting) refl

pub wake-Taken :
    (target : State) (all : List State) (c : Controller)
    → Taken target all c
    → Taken target all (wake target c)
unfolding wake
wake-Taken target all c (still_waiting p [] h e) = still_waiting p [] h e
wake-Taken target all c (still_waiting p (s ∷ q) h e) = elim (Bool-cases (is_error s)) [
  | inl b ↦ subst (Taken target all) (sym (wake_error target s q b)) (failed p q s h b e)
  | inr b ↦ elim (State-discrete s target) [
    | yes i ↦
        subst (Taken target all) (sym (wake_target target s q i b))
          (reached p q h (cc (b, i)) (e ∙ ap (λ x. p ++ x ∷ q) i))
    | no n ↦
        subst (Taken target all) (sym (wake_other target s q n b))
          (still_waiting (p ++ s ∷ []) q (pass-one target s p h n b) (e ∙ sym (assoc p (s ∷ []) q)))
  ]
]
wake-Taken target all c (reached p q h n e) = reached p q h n e
wake-Taken target all c (failed p q x h n e) = failed p q x h n e

-- However pushes and rounds of the waiting thread interleave, from a queue that the thread finds when
-- it starts to wait: it has passed over a prefix of the states offered, without the target or an
-- error, and has returned exactly with the target next, thrown exactly with an error next, or waits.
pub happen_all-Taken :
    (target : State) (es : List Event) (all : List State) (c : Controller)
    → Taken target all c
    → Taken target (all ++ states_of es) (happen_all target es c)
unfolding happen_all happen
happen_all-Taken target [] all c t = subst (λ l. Taken target l c) (sym (append_nil all)) t
happen_all-Taken target (pushed s ∷ es) all c t =
    subst (λ l. Taken target l (happen_all target es (happen target (pushed s) c)))
      (assoc all (s ∷ []) (states_of es))
      (happen_all-Taken target es (all ++ s ∷ []) (happen target (pushed s) c)
        (push-Taken target s all c t))
happen_all-Taken target (woken ∷ es) all c t =
    happen_all-Taken target es all (wake target c) (wake-Taken target all c t)

pub wakes : ℕ → List Event
wakes zero = []
wakes (suc n) = woken ∷ wakes n

-- If the queue holds the target with no error before it, as many rounds as there are states up to the
-- target return, and take exactly those.
pub wait_for_state_returns :
    (target : State) (c r : List State)
    → Passed target c
    → is_error target ≡ false
    → happen_all target
        (wakes (suc (length c)))
        (record { queue = c ++ target ∷ r; waiter = waiting })
      ≡ record { queue = r; waiter = returned }
unfolding happen_all happen wakes
wait_for_state_returns target [] r nothing n = wake_target target target r refl n
wait_for_state_returns target (s ∷ c) r (one_more a b p) n =
    ap (happen_all target (wakes (suc (length c)))) (wake_other target s (c ++ target ∷ r) a b)
    ∙ wait_for_state_returns target c r p n
