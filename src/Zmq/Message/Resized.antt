-- ===== src/Zmq/Message/Resized.antt =====
-- The used size of a message (SetUsedSize of fairmq/zeromq/Message.h).
use fair_mq.Prelude.{
  ℕ, zero, suc, ◌≤◌, ◌<◌, ◌≡◌, ◌⊎◌, refl, ap, ◌∙◌, sym, ltb→lt, true, false, List, [], ◌∷◌, length,
  take, arith, inl, inr, Bool-cases, ltb,
}
use fair_mq.Zmq.Message.{ZmqMessage, get_size, set_used_size}

length-take : (n : ℕ) (xs : List ℕ) → n ≤ length xs → length (take n xs) ≡ n
length-take zero xs h = refl
length-take (suc n) [] h = omega arith
length-take (suc n) (x ∷ xs) h = omega (arith, length-take n xs)

take-length : (xs : List ℕ) → take (length xs) xs ≡ xs
take-length [] = refl
take-length (x ∷ xs) = ap (λ r. x ∷ r) (take-length xs)

take-take : (m n : ℕ) (xs : List ℕ) → m ≤ n → take m (take n xs) ≡ take m xs
take-take zero n xs h = refl
take-take (suc m) zero xs h = elim h [ ]
take-take (suc m) (suc n) [] h = refl
take-take (suc m) (suc n) (x ∷ xs) h = ap (λ r. x ∷ r) (take-take m n xs (omega arith))

take_all : (n : ℕ) (xs : List ℕ) → n ≡ length xs → take n xs ≡ xs
take_all n xs h = rw h (take-length xs)

abbrev pub shrink : ℕ → ZmqMessage → ZmqMessage
shrink n m = record m { msg = record m.msg { bytes = take n m.msg.bytes } }

shrinks : (n : ℕ) (m : ZmqMessage) → n ≤ get_size m → set_used_size true n m ≡ (true, shrink n m)
unfolding set_used_size get_size
shrinks n m h = ground (arith, take_all n m.msg.bytes)

refuses : (n : ℕ) (m : ZmqMessage) → get_size m < n → set_used_size true n m ≡ (false, m)
unfolding set_used_size get_size
refuses n m h = ground arith

shrunk_size : (n : ℕ) (m : ZmqMessage) → n ≤ get_size m → get_size (shrink n m) ≡ n
unfolding get_size
shrunk_size n m h = length-take n m.msg.bytes h

-- SetUsedSize where zmq_msg_init_data succeeds. It returns true exactly if the size is not above the
-- one of the message, and then the message has that size and the first bytes of its data, at the
-- same place, with the same alignment and block; otherwise it is left as it is.
pub set_used_size_lem :
    (size : ℕ) (m : ZmqMessage)
    → ((size ≤ get_size m)
        × (set_used_size true size m ≡ (true, shrink size m))
        × (get_size (set_used_size true size m).1 ≡ size))
      ⊎ ((get_size m < size) × (set_used_size true size m ≡ (false, m)))
set_used_size_lem size m = elim (Bool-cases (ltb (get_size m) size)) [
  | inl t ↦ inr (ltb→lt (get_size m) size t, refuses size m (ltb→lt (get_size m) size t))
  | inr t ↦
      let l : size ≤ get_size m = ground arith in
      inl (l, shrinks size m l, ap (λ r. get_size r.1) (shrinks size m l) ∙ shrunk_size size m l)
]

-- Using less twice is using the smaller size at once.
pub set_used_size_twice :
    (k n : ℕ) (m : ZmqMessage)
    → k ≤ n
    → n ≤ get_size m
    → set_used_size true k (set_used_size true n m).1 ≡ set_used_size true k m
set_used_size_twice k n m h l =
    ap (λ r. set_used_size true k r.1) (shrinks n m l)
    ∙ shrinks k (shrink n m) (omega (arith, shrunk_size n m l))
    ∙ ap (λ (b : List ℕ). (true, record m { msg = record m.msg { bytes = b } }))
        (take-take k n m.msg.bytes h)
    ∙ sym (shrinks k m (omega arith))
