-- ===== src/Shmem/Acks/Accounting.antt =====
-- No block of a region is lost or given back twice (fairmq/shmem/UnmanagedRegion.h).
use fair_mq.Prelude.{
  ℕ, suc, ◌+◌, ◌-◌, ◌≡◌, refl, sym, ap, ◌∙◌, Bool, Bool-cases, inl, inr, List, [], ◌∷◌, ◌++◌,
  length, take, drop, take-append-drop, if◌then◌else◌, arith,
}
use fair_mq.Shmem.Store.{Block}
use fair_mq.Shmem.Acks.{
  Acks, Sender, collecting, sending, empty_handed, initial, release_block, min, take_blocks,
  collect, next_sender, ack_bunch_size, look, watch, Step, released, stopped, collected, looked,
  sent, given_up, watched, received, timed_out, finished, Steps, stay, go,
}

-- How many blocks of a list pass a test.
unfoldable pub count : (Block → Bool) → List Block → ℕ
count t [] = 0
count t (b ∷ bs) = let n = count t bs in if t b then suc n else n

unfoldable pub count_all : (Block → Bool) → List (List Block) → ℕ
count_all t [] = 0
count_all t (m ∷ ms) = count t m + count_all t ms

unfoldable pub held : Sender → List Block
held (sending m) = m
held _ = []

count-append :
    (t : Block → Bool) (xs ys : List Block) → count t (xs ++ ys) ≡ count t xs + count t ys
unfolding count
count-append t [] ys = omega arith
count-append t (x ∷ xs) ys = ground (arith, count-append t xs ys)

count_all-append :
    (t : Block → Bool) (ms : List (List Block)) (m : List Block)
    → count_all t (ms ++ m ∷ []) ≡ count_all t ms + count t m
unfolding count_all
count_all-append t [] m = omega arith
count_all-append t (x ∷ ms) m = omega (arith, count_all-append t ms m)

-- A sender without blocks.
count_nil : (t : Block → Bool) → count t [] ≡ 0
unfolding count
count_nil t = refl

-- The balance of a state for one test.
pub record Balanced (t : Block → Bool) (a : Acks) : Type 0 where
  pub balance :
      count t a.released
      ≡ count t a.delivered
        + count_all t a.queue
        + count t (held a.sender)
        + count t a.to_free
        + count t a.dropped

held-next_sender : (bs : List Block) → held (next_sender bs) ≡ bs
unfolding held next_sender
held-next_sender [] = refl
held-next_sender (b ∷ bs) = refl

count-take_blocks :
    (t : Block → Bool) (bs : List Block)
    → count t ((take_blocks bs).0) + count t ((take_blocks bs).1) ≡ count t bs
unfolding take_blocks
count-take_blocks t bs =
    let n = length bs - min (length bs) ack_bunch_size in
    sym (count-append t (take n bs) (drop n bs)) ∙ ap (count t) (take-append-drop n bs)

module _ (t : Block → Bool) where
  sent_held : count t (held collecting) ≡ 0
  unfolding held count
  sent_held = refl

  sending_held : (m : List Block) → count t (held (sending m)) ≡ count t m
  unfolding held
  sending_held m = refl

  queue_first :
      (m : List Block) (ms : List (List Block)) → count_all t (m ∷ ms) ≡ count t m + count_all t ms
  unfolding count_all
  queue_first m ms = refl

  collect-Balanced : (a : Acks) → a.sender ≡ collecting → Balanced t a → Balanced t (collect a)
  unfolding collect held
  collect-Balanced a h b = record {
    balance = omega (
      arith,
      b.balance,
      ap (λ s. count t (held s)) h,
      count-take_blocks t a.to_free,
      ap (count t) (held-next_sender ((take_blocks a.to_free).1)),
      count_nil,
    );
  }

  looked_held :
      (a : Acks)
      → a.sender ≡ empty_handed
      → count t (held (look a).sender) ≡ count t (held a.sender)
  unfolding look held count
  looked_held a h = elim (Bool-cases a.stop) [ inl e ↦ cc (e, h) | inr e ↦ cc (e, h) ]

  Step-Balanced : (a b : Acks) → Step a b → Balanced t a → Balanced t b
  unfolding release_block watch count look
  Step-Balanced a b (released x c) h = record {
    balance =
        omega
          (arith, h.balance, count-append t c.released (x ∷ []), count-append t c.to_free (x ∷ []));
  }
  Step-Balanced a b (stopped c) h = record { balance = h.balance }
  Step-Balanced a b (collected c s) h = collect-Balanced c s h
  Step-Balanced a b (looked c s) h = record { balance = omega (arith, h.balance, looked_held c s) }
  Step-Balanced a b (sent m c s room) h = record {
    balance = omega (
      arith,
      h.balance,
      ap (λ s. count t (held s)) s,
      sent_held,
      sending_held m,
      count_all-append t c.queue m,
    );
  }
  Step-Balanced a b (given_up m c s e) h = record {
    balance = omega (
      arith,
      h.balance,
      ap (λ s. count t (held s)) s,
      sent_held,
      sending_held m,
      count-append t c.dropped m,
    );
  }
  Step-Balanced a b (watched c s) h = record { balance = h.balance }
  Step-Balanced a b (received m ms c s q) h = record {
    balance =
        omega
          (arith, h.balance, ap (count_all t) q, queue_first m ms, count-append t c.delivered m);
  }
  Step-Balanced a b (timed_out c s) h = record { balance = h.balance }
  Step-Balanced a b (finished c s) h = record { balance = h.balance }

  initial-Balanced : Balanced t initial
  unfolding count count_all held
  initial-Balanced = record { balance = refl }

  Steps-Balanced : (a b : Acks) → Steps a b → Balanced t a → Balanced t b
  Steps-Balanced a b (stay c) h = h
  Steps-Balanced a b (go c d e s r) h = Steps-Balanced d e r (Step-Balanced c d s h)

-- In every reachable state, what was released is what was delivered, waits in the queue, is held by
-- the sender, waits to be sent, or was dropped, each block as often.
pub blocks_accounted :
    (t : Block → Bool) (a : Acks)
    → Steps initial a
    → count t a.released
      ≡ count t a.delivered
        + count_all t a.queue
        + count t (held a.sender)
        + count t a.to_free
        + count t a.dropped
blocks_accounted t a r = (Steps-Balanced t initial a r (initial-Balanced t)).balance
