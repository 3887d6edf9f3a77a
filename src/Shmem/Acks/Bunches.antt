-- ===== src/Shmem/Acks/Bunches.antt =====
-- The bunches of blocks that travel through the message queue (fairmq/shmem/UnmanagedRegion.h).
use mathlib.Core.Path.{subst}
use mathlib.Core.List.{Memᴰ}
use mathlib.Core.List.Memᴰ.{head, tail}
use fair_mq.Prelude.{
  ◌-◌, ◌≤◌, ◌≡◌, refl, sym, false, Bool-cases, inl, inr, ◌⊎◌, List, [], ◌∷◌, ◌++◌, length,
  length-drop, arith,
}
use fair_mq.Shmem.Store.{Block}
use fair_mq.Shmem.Acks.{
  Acks, sending, initial, release_block, min, take_blocks, collect, next_sender, ack_bunch_size,
  look, watch, Step, released, stopped, collected, looked, sent, given_up, watched, received,
  timed_out, finished, Steps, stay, go,
}

-- A message that the queue takes, and that fits the receiver's buffer.
pub Fits : List Block → Type 0
Fits m = (1 ≤ length m) × (length m ≤ ack_bunch_size)

-- Bunches have the right size, and blocks are dropped only after a stop.
pub record Orderly (a : Acks) : Type 0 where
  pub taken : (m : List Block) → a.sender ≡ sending m → Fits m
  pub queued : (m : List Block) → Memᴰ m a.queue → Fits m
  pub kept : a.stop ≡ false → a.dropped ≡ []

take_blocks_size : (bs : List Block) → length ((take_blocks bs).1) ≤ ack_bunch_size
unfolding take_blocks min
take_blocks_size bs = ground (arith, length-drop (length bs - min (length bs) ack_bunch_size) bs)

Fits-subst : (bs m : List Block) → bs ≡ m → Fits bs → Fits m
Fits-subst bs m e f = subst Fits e f

next_sender-Fits :
    (bs m : List Block) → length bs ≤ ack_bunch_size → next_sender bs ≡ sending m → Fits m
unfolding next_sender Fits
next_sender-Fits [] m l h = cc h
next_sender-Fits (b ∷ bs) m l h = Fits-subst (b ∷ bs) m (cc h) (omega arith, l)

Memᴰ-append :
    (m n : List Block) (ms : List (List Block)) → Memᴰ m (ms ++ n ∷ []) → Memᴰ m ms ⊎ (m ≡ n)
Memᴰ-append m n [] (head e) = inr e
Memᴰ-append m n [] (tail k) = elim k [ ]
Memᴰ-append m n (x ∷ ms) (head e) = inl (head e)
Memᴰ-append m n (x ∷ ms) (tail k) = elim (Memᴰ-append m n ms k) [
  | inl i ↦ inl (tail i)
  | inr i ↦ inr i
]

Step-Orderly : (a b : Acks) → Step a b → Orderly a → Orderly b
unfolding release_block watch look collect
Step-Orderly a b (released x c) h = record { taken = h.taken; queued = h.queued; kept = h.kept }
Step-Orderly a b (stopped c) h = record { taken = h.taken; queued = h.queued; kept = λ e. cc e }
Step-Orderly a b (collected c s) h = record {
  taken = λ m e. next_sender-Fits ((take_blocks c.to_free).1) m (take_blocks_size c.to_free) e;
  queued = h.queued;
  kept = h.kept;
}
Step-Orderly a b (looked c s) h = record {
  taken = λ m e. elim (Bool-cases c.stop) [ inl k ↦ cc (e, k) | inr k ↦ cc (e, k) ];
  queued = h.queued;
  kept = h.kept;
}
Step-Orderly a b (sent m c s room) h = record {
  taken = λ n e. cc e;
  queued = λ n k. elim (Memᴰ-append n m c.queue k) [
    | inl i ↦ h.queued n i
    | inr i ↦ subst Fits (sym i) (h.taken m s)
  ];
  kept = h.kept;
}
Step-Orderly a b (given_up m c s e) h = record {
  taken = λ n e'. cc e';
  queued = h.queued;
  kept = λ k. cc (k, e);
}
Step-Orderly a b (watched c s) h = record { taken = h.taken; queued = h.queued; kept = h.kept }
Step-Orderly a b (received m ms c s q) h = record {
  taken = h.taken;
  queued = λ n k. h.queued n (subst (Memᴰ n) (sym q) (tail k));
  kept = h.kept;
}
Step-Orderly a b (timed_out c s) h = record { taken = h.taken; queued = h.queued; kept = h.kept }
Step-Orderly a b (finished c s) h = record { taken = h.taken; queued = h.queued; kept = h.kept }

initial-Orderly : Orderly initial
initial-Orderly = record { taken = λ m e. cc e; queued = λ m k. elim k [ ]; kept = λ e. refl }

Steps-Orderly : (a b : Acks) → Steps a b → Orderly a → Orderly b
Steps-Orderly a b (stay c) h = h
Steps-Orderly a b (go c d e s r) h = Steps-Orderly d e r (Step-Orderly c d s h)

-- In every reachable state each message of the queue has between 1 and 256 blocks, and nothing has
-- been dropped unless the acks were stopped.
pub bunches_fit :
    (a : Acks)
    → Steps initial a
    → ((m : List Block) → Memᴰ m a.queue → Fits m) × (a.stop ≡ false → a.dropped ≡ [])
bunches_fit a r = let o = Steps-Orderly initial a r initial-Orderly in (o.queued, o.kept)
