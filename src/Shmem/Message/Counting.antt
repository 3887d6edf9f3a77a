-- ===== src/Shmem/Message/Counting.antt =====
-- When the counts of the shared memory agree with the live messages (fairmq/shmem/Message.h).
use mathlib.Core.Path.{subst}
use native.Mathlib.Nat.{zero-add}
use fair_mq.Prelude.{
  ℕ, ◌+◌, ◌≡◌, ap, ◌∙◌, sym, true, false, Option, none, some, List, [], ◌∷◌, is_negative, arith,
}
use fair_mq.Shmem.Store.{Key, Store}
use fair_mq.Shmem.Message.{Message}
use fair_mq.Shmem.Message.References.{key_of, one_at?, holders, count_for}

-- A region message's region can be found.
abbrev pub Known : (ℕ → Option ℕ) → Message → Type 0
Known rc m = m.managed ≡ false → (n : ℕ) × (rc m.region_id ≡ some n)

abbrev pub AllKnown : (ℕ → Option ℕ) → List Message → Type 0
AllKnown rc [] = Unit {0}
AllKnown rc (m ∷ ms) = Known rc m × AllKnown rc ms

-- Every count is the number of the live messages that refer to its buffer, and a buffer that none
-- refers to is not allocated.
pub record Counted (w : Store) (ms : List Message) : Type 0 where
  pub counts : (k : Key) → w.count k ≡ count_for (holders w.rc_segment_size ms k)
  pub known : AllKnown w.rc_segment_size ms

-- A message with a negative handle holds no counted reference.
pub key_of_negative :
    (rc : ℕ → Option ℕ) (m : Message) → is_negative m.handle ≡ true → key_of rc m ≡ none
unfolding key_of
key_of_negative rc m e = ground arith

-- Moving the counts to another store with the same regions.
pub Counted-cons :
    (w : Store) (m : Message) (ms : List Message) (rc : ℕ → Option ℕ)
    → w.rc_segment_size ≡ rc
    → ((k : Key) → w.count k ≡ count_for (holders rc ms k))
    → key_of rc m ≡ none
    → AllKnown rc (m ∷ ms)
    → Counted w (m ∷ ms)
Counted-cons w m ms rc r counts none_of known = record {
  counts = λ k.
      counts k
      ∙ sym (
          ap count_for {x = one_at? (key_of w.rc_segment_size m) k + holders w.rc_segment_size ms k}
            (ap (λ f. one_at? (key_of f m) k + holders f ms k) r
              ∙ ap (λ o. one_at? o k + holders rc ms k) none_of
              ∙ zero-add (holders rc ms k)));
  known = subst (λ f. AllKnown f (m ∷ ms)) (sym r) known;
}

-- The counts without a message that holds no reference.
pub Counted-rest :
    (w : Store) (m : Message) (ms : List Message)
    → key_of w.rc_segment_size m ≡ none
    → Counted w (m ∷ ms)
    → (k : Key) → w.count k ≡ count_for (holders w.rc_segment_size ms k)
Counted-rest w m ms e c k =
    c.counts k
    ∙ ap (λ o. count_for (one_at? o k + holders w.rc_segment_size ms k)) e
    ∙ ap count_for (zero-add (holders w.rc_segment_size ms k))

-- The order of the messages does not matter.
pub Counted-swap :
    (w : Store) (x y : Message) (ms : List Message)
    → Counted w (x ∷ y ∷ ms)
    → Counted w (y ∷ x ∷ ms)
Counted-swap w x y ms c = record {
  counts = λ k. c.counts k ∙ ap count_for (omega arith);
  known = (c.known.1.0, (c.known.0, c.known.1.1));
}
