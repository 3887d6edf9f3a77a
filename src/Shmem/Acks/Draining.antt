-- ===== src/Shmem/Acks/Draining.antt =====
-- Every released block can still be delivered while the acks run (fairmq/shmem/UnmanagedRegion.h).
use mathlib.Core.Path.{subst}
use fair_mq.Prelude.{
  ℕ, zero, suc, ◌-◌, ◌<◌, ◌≤◌, ◌≡◌, refl, sym, ap, ◌∙◌, Bool, true, false, Bool-cases, inl, inr,
  ◌⊎◌, List, [], ◌∷◌, ◌++◌, length, length-drop, length-take-le, arith,
}
use fair_mq.Shmem.Store.{Block}
use fair_mq.Shmem.Acks.{
  Acks, Sender, collecting, sending, empty_handed, gone, watching, receiving, initial,
  release_block, min, take_blocks, collect, next_sender, ack_bunch_size, look, watch, Step,
  released, stopped, collected, looked, sent, given_up, watched, received, timed_out, finished,
  Steps, stay, go, queue_size,
}
use fair_mq.Shmem.Acks.Accounting.{count, blocks_accounted, held, count_all}
use fair_mq.Shmem.Acks.Bunches.{bunches_fit}

-- Both threads run until a stop.
pub record Running (a : Acks) : Type 0 where
  pub sender_runs : a.sender ≡ gone → a.stop ≡ true
  pub receiver_runs : (a.receiver ≡ watching) ⊎ ((a.receiver ≡ receiving) ⊎ (a.stop ≡ true))

next_sender_runs : (bs : List Block) → next_sender bs ≡ gone → ⊥
unfolding next_sender
next_sender_runs [] e = cc e
next_sender_runs (b ∷ bs) e = cc e

Step-Running : (a b : Acks) → Step a b → Running a → Running b
unfolding release_block watch look collect
Step-Running a b (released x c) h = record {
  sender_runs = h.sender_runs;
  receiver_runs = h.receiver_runs;
}
Step-Running a b (stopped c) h = record { sender_runs = λ e. refl; receiver_runs = inr (inr refl) }
Step-Running a b (collected c s) h = record {
  sender_runs = λ e. elim (next_sender_runs ((take_blocks c.to_free).1) e) [ ];
  receiver_runs = h.receiver_runs;
}
Step-Running a b (looked c s) h = record {
  sender_runs = λ e. elim (Bool-cases c.stop) [ inl k ↦ k | inr k ↦ cc (e, k) ];
  receiver_runs = h.receiver_runs;
}
Step-Running a b (sent m c s room) h = record {
  sender_runs = λ e. cc e;
  receiver_runs = h.receiver_runs;
}
Step-Running a b (given_up m c s e) h = record {
  sender_runs = λ k. cc k;
  receiver_runs = h.receiver_runs;
}
Step-Running a b (watched c s) h = record {
  sender_runs = h.sender_runs;
  receiver_runs = elim (Bool-cases c.stop) [ inl k ↦ inr (inr k) | inr k ↦ inr (inl (cc k)) ];
}
Step-Running a b (received m ms c s q) h = record {
  sender_runs = h.sender_runs;
  receiver_runs = h.receiver_runs;
}
Step-Running a b (timed_out c s) h = record {
  sender_runs = h.sender_runs;
  receiver_runs = inl refl;
}
Step-Running a b (finished c s) h = record {
  sender_runs = h.sender_runs;
  receiver_runs = inr (
      inr (elim h.receiver_runs [ inl k ↦ cc (k, s) | inr (inl k) ↦ cc (k, s) | inr (inr k) ↦ k ]));
}

Steps-Running : (a b : Acks) → Steps a b → Running a → Running b
Steps-Running a b (stay c) h = h
Steps-Running a b (go c d e s r) h = Steps-Running d e r (Step-Running c d s h)

Steps-trans : (a b c : Acks) → Steps a b → Steps b c → Steps a c
Steps-trans a b c (stay d) q = q
Steps-trans a b c (go d e f s r) q = go d e c s (Steps-trans e f c r q)

sender_cases :
    (s : Sender)
    → (s ≡ collecting) ⊎ (((m : List Block) × (s ≡ sending m)) ⊎ ((s ≡ empty_handed) ⊎ (s ≡ gone)))
sender_cases collecting = inl refl
sender_cases (sending m) = inr (inl (m, refl))
sender_cases empty_handed = inr (inr (inl refl))
sender_cases gone = inr (inr (inr refl))

not_below : (n : ℕ) → suc n ≤ 0 → ⊥
not_below n h = omega (arith, h)

next_sender_some : (bs : List Block) → 1 ≤ length bs → next_sender bs ≡ sending bs
unfolding next_sender
next_sender_some [] h = elim (not_below 0 h) [ ]
next_sender_some (b ∷ bs) h = refl

batch_some : (x : Block) (xs : List Block) → 1 ≤ length ((take_blocks (x ∷ xs)).1)
unfolding take_blocks min
batch_some x xs =
    ground (arith, length-drop (length (x ∷ xs) - min (length (x ∷ xs)) ack_bunch_size) (x ∷ xs))

rest_less : (x : Block) (xs : List Block) → length ((take_blocks (x ∷ xs)).0) ≤ length xs
unfolding take_blocks min
rest_less x xs =
    ground (arith, length-take-le (length (x ∷ xs) - min (length (x ∷ xs)) ack_bunch_size) (x ∷ xs))

initial-Running : Running initial
initial-Running = record { sender_runs = λ e. cc e; receiver_runs = inl refl }

-- What the receiving thread does until the queue is empty.
record Emptied (a b : Acks) : Type 0 where
  steps : Steps a b
  empty : b.queue ≡ []
  same : b.released ≡ a.released
  running : b.stop ≡ a.stop
  sender_stays : b.sender ≡ a.sender
  rest_stays : b.to_free ≡ a.to_free
  receives : b.receiver ≡ receiving

receive_all :
    (ms : List (List Block)) (a : Acks)
    → a.queue ≡ ms
    → a.receiver ≡ receiving
    → (b : Acks) × Emptied a b
receive_all [] a q e = (
  a,
  record {
    steps = stay a;
    empty = q;
    same = refl;
    running = refl;
    sender_stays = refl;
    rest_stays = refl;
    receives = e;
  },
)
receive_all (m ∷ ms) a q e =
    let c = record a { queue = ms; delivered = a.delivered ++ m } in
    let (b, h) = receive_all ms c refl e in
    (
      b,
      record {
        steps = go a c b (received m ms a (inl e) q) h.steps;
        empty = h.empty;
        same = h.same;
        running = h.running;
        sender_stays = h.sender_stays;
        rest_stays = h.rest_stays;
        receives = h.receives;
      },
    )

empty_all :
    (a : Acks)
    → (a.receiver ≡ watching) ⊎ (a.receiver ≡ receiving)
    → a.stop ≡ false
    → (b : Acks) × Emptied a b
unfolding watch
empty_all a (inr e) r = receive_all a.queue a refl e
empty_all a (inl e) r =
    let c = watch a in
    let (b, h) = receive_all a.queue c refl (cc r) in
    (
      b,
      record {
        steps = go a c b (watched a e) h.steps;
        empty = h.empty;
        same = h.same;
        running = h.running;
        sender_stays = h.sender_stays;
        rest_stays = h.rest_stays;
        receives = h.receives;
      },
    )

receiver_of :
    (a : Acks) → Running a → a.stop ≡ false → (a.receiver ≡ watching) ⊎ (a.receiver ≡ receiving)
receiver_of a h r = elim h.receiver_runs [
  | inl e ↦ inl e
  | inr (inl e) ↦ inr e
  | inr (inr e) ↦ cc (e, r)
]

-- A state that follows while nothing more is released and no stop comes. The queue is empty.
record Onward (a b : Acks) : Type 0 where
  steps : Steps a b
  running : b.stop ≡ false
  same : b.released ≡ a.released
  receives : b.receiver ≡ receiving
  empty : b.queue ≡ []

Onward-trans : (a b c : Acks) → Onward a b → Onward b c → Onward a c
Onward-trans a b c p q = record {
  steps = Steps-trans a b c p.steps q.steps;
  running = q.running;
  same = q.same ∙ p.same;
  receives = q.receives;
  empty = q.empty;
}

-- From a state with an empty queue the sending thread comes back to its beginning.
Settled : Acks → Acks → Type 0
Settled a b = Onward a b × ((b.sender ≡ collecting) × (b.to_free ≡ a.to_free))

-- A message is put into the empty queue and received.
after_send :
    (a : Acks) (m : List Block)
    → a.stop ≡ false
    → a.queue ≡ []
    → a.receiver ≡ receiving
    → a.sender ≡ sending m
    → (b : Acks) × Settled a b
unfolding Settled
after_send a m r q k e =
    let room : length a.queue < queue_size = omega (arith, ap length q) in
    let c = record a { queue = a.queue ++ m ∷ []; sender = collecting } in
    let one : a.queue ++ m ∷ [] ≡ m ∷ [] = ap (λ l. l ++ m ∷ []) q in
    let b = record c { queue = []; delivered = c.delivered ++ m } in
    (
      b,
      (
        record {
          steps = go a c b (sent m a e room) (go c b b (received m [] c (inl k) one) (stay b));
          running = r;
          same = refl;
          receives = k;
          empty = refl;
        },
        (refl, refl),
      ),
    )

settle :
    (a : Acks)
    → a.stop ≡ false
    → a.queue ≡ []
    → a.receiver ≡ receiving
    → (a.sender ≡ gone → a.stop ≡ true)
    → (b : Acks) × Settled a b
unfolding Settled look
settle a r q k g = elim (sender_cases a.sender) [
  | inl e ↦
      (a, (record { steps = stay a; running = r; same = refl; receives = k; empty = q }, (e, refl)))
  | inr (inl (m, e)) ↦ after_send a m r q k e
  | inr (inr (inl e)) ↦
      let b = look a in
      (
        b,
        (
          record {
            steps = go a b b (looked a e) (stay b);
            running = r;
            same = refl;
            receives = k;
            empty = q;
          },
          (cc r, refl),
        ),
      )
  | inr (inr (inr e)) ↦ cc (r, g e)
]

-- Bunch by bunch, everything is sent and received.
drain :
    (n : ℕ) (a : Acks) (bs : List Block)
    → a.to_free ≡ bs
    → length bs ≤ n
    → a.stop ≡ false
    → a.queue ≡ []
    → a.receiver ≡ receiving
    → a.sender ≡ collecting
    → (b : Acks) × (Onward a b × ((b.sender ≡ collecting) × (b.to_free ≡ [])))
unfolding collect Settled
drain n a [] f l r q k e =
    (a, (record { steps = stay a; running = r; same = refl; receives = k; empty = q }, (e, f)))
drain zero a (x ∷ xs) f l r q k e = elim (not_below (length xs) l) [ ]
drain (suc n) a (x ∷ xs) f l r q k e =
    let batch = (take_blocks a.to_free).1 in
    let c = collect a in
    let took =
      next_sender_some batch
        (subst (λ bs. 1 ≤ length ((take_blocks bs).1)) (sym f) (batch_some x xs)) in
    let (d, (p, (k', w))) = after_send c batch r q k took in
    let less =
      subst (λ bs. length ((take_blocks bs).0) ≤ n) (sym f) (omega (arith, rest_less x xs, l)) in
    let (b, (p', z)) =
      drain n d ((take_blocks a.to_free).0) w less p.running p.empty p.receives k' in
    let first : Onward a c = record {
      steps = go a c c (collected a e) (stay c);
      running = r;
      same = refl;
      receives = k;
      empty = q;
    } in
    (b, (Onward-trans a c b first (Onward-trans c d b p p'), z))

all_counted :
    (t : Block → Bool) (b : Acks)
    → Steps initial b
    → b.stop ≡ false
    → b.queue ≡ []
    → b.sender ≡ collecting
    → b.to_free ≡ []
    → count t b.delivered ≡ count t b.released
unfolding count count_all held
all_counted t b s r q k f = omega (
  arith,
  blocks_accounted t b s,
  ap (λ s. count t (held s)) k,
  ap (count_all t) q,
  ap (count t) f,
  ap (count t) ((bunches_fit b s).1 r),
)

-- Until a stop, the two threads can go on from every reachable state so that each block released so
-- far reaches the callback exactly as often as it was released. The queue holds 1024 messages.
pub can_deliver_all :
    (a : Acks)
    → Steps initial a
    → a.stop ≡ false
    → (b : Acks) × (Steps a b
        × ((b.released ≡ a.released)
            × ((t : Block → Bool) → count t b.delivered ≡ count t a.released)))
unfolding Settled
can_deliver_all a s r =
    let h = Steps-Running initial a s initial-Running in
    let (c, e) = empty_all a (receiver_of a h r) r in
    let (d, (p, (k, w))) =
      settle c (e.running ∙ r) e.empty e.receives
        (λ g. e.running ∙ h.sender_runs (sym e.sender_stays ∙ g)) in
    let (b, (p', (k', w'))) =
      drain (length d.to_free) d d.to_free refl (omega arith) p.running p.empty p.receives k in
    let o = Onward-trans c d b p p' in
    let to = Steps-trans a c b e.steps o.steps in
    let same = o.same ∙ e.same in
    (
      b,
      (
        to,
        (
          same,
          λ t.
              all_counted t b (Steps-trans initial a b s to) o.running o.empty k' w'
              ∙ ap (count t) same,
        ),
      ),
    )
