-- ===== src/Shmem/Message/Transfer.antt =====
-- Passing a message on through a socket (fairmq/shmem/Socket.h over the headers of shmem/Message.h):
-- the reference moves with the header.
use fair_mq.Prelude.{ℕ, ◌≡◌, refl, ap, ◌∙◌, true, false, Option, List, ◌∷◌, is_negative, arith}
use fair_mq.Shmem.Store.{Store}
use fair_mq.Shmem.Message.{Message, header_of, from_header, set_meta, mark_queued}
use fair_mq.Shmem.Message.References.{key_of, count_for, key_of_queued, holders_one, holders_two}
use fair_mq.Shmem.Message.Counting.{Counted, key_of_negative}

pub key_of_received :
    (rc : ℕ → Option ℕ) (m : Message)
    → m.queued ≡ false
    → key_of rc (from_header (header_of m)) ≡ key_of rc m
unfolding key_of from_header header_of
key_of_received rc m q = rw q

pub key_of-set_meta :
    (rc : ℕ → Option ℕ) (t m : Message)
    → t.queued ≡ false
    → m.queued ≡ false
    → key_of rc (set_meta (header_of m) t) ≡ key_of rc m
unfolding key_of set_meta header_of
key_of-set_meta rc t m p q = rw (p, q)

-- Sending a message and building a new one from its header moves its reference: the counts stay
-- right.
pub from_header-header_of :
    (m : Message) (ms : List Message) (w : Store)
    → m.queued ≡ false
    → Counted w (m ∷ ms)
    → Counted w (from_header (header_of m) ∷ mark_queued m ∷ ms)
unfolding from_header header_of mark_queued
from_header-header_of m ms w q c = record {
  counts = λ k.
      c.counts k
      ∙ ap count_for (
          omega (
            arith,
            holders_two w.rc_segment_size (from_header (header_of m)) (mark_queued m) ms _ _ k
                (key_of_received w.rc_segment_size m q)
                (key_of_queued w.rc_segment_size (mark_queued m) refl),
          ));
  known = (c.known.0, (c.known.0, c.known.1));
}

-- Receiving into an empty message that was not sent before keeps the counts right.
pub set_meta_empty :
    (t m : Message) (ms : List Message) (w : Store)
    → is_negative t.handle ≡ true
    → t.queued ≡ false
    → m.queued ≡ false
    → Counted w (t ∷ m ∷ ms)
    → Counted w (set_meta (header_of m) t ∷ mark_queued m ∷ ms)
unfolding set_meta header_of mark_queued
set_meta_empty t m ms w empty p q c = record {
  counts = λ k.
      c.counts k
      ∙ ap count_for (
          omega (
            arith,
            holders_one w.rc_segment_size t (m ∷ ms) _ k
                (key_of_negative w.rc_segment_size t empty),
            holders_two w.rc_segment_size (set_meta (header_of m) t) (mark_queued m) ms _ _ k
                (key_of-set_meta w.rc_segment_size t m p q)
                (key_of_queued w.rc_segment_size (mark_queued m) refl),
          ));
  known = (c.known.1.0, (c.known.1.0, c.known.1.1));
}
