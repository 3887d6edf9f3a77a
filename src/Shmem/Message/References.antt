-- ===== src/Shmem/Message/References.antt =====
-- The references that live messages hold, and the counts that must agree with them
-- (fairmq/shmem/Message.h).
use mathlib.Core.Path.{ap₂}
use mathlib.Core.Logic.{ite, if_pos, if_neg}
use fair_mq.Prelude.{
  ℕ, zero, suc, ◌+◌, ◌≤◌, ◌<◌, ◌≡◌, refl, ap, ◌∙◌, ◌≢◌, true, ◌||◌, Option, none, some, List, [],
  ◌∷◌, is_negative, if◌then◌else◌, ltb, ◌==◌, arith, length,
}
use fair_mq.Shmem.Store.{Key, buffer, region_count, Key-discrete, Store, put, increment, decrement}
use fair_mq.Shmem.Message.{Message}

-- Where the count of a message's buffer is kept. An empty message, one whose reference went out with
-- a send, and a region message that was never copied have none.
unfoldable pub key_of : (ℕ → Option ℕ) → Message → Option Key
key_of rc m =
    if is_negative m.handle || m.queued
    then none
    else if m.managed
    then some (buffer m.segment_id m.handle)
    else if is_negative m.shared
    then none
    else elim (rc m.region_id) [
      | none ↦ none
      | some n ↦
          some (if ltb 0 n then region_count m.region_id m.shared else buffer m.segment_id m.shared)
    ]

pub key_of_queued : (rc : ℕ → Option ℕ) (m : Message) → m.queued ≡ true → key_of rc m ≡ none
unfolding key_of
key_of_queued rc m q = ground arith

-- 1 for the key itself
abbrev pub one_at : Key → Key → ℕ
one_at k j = ite (Key-discrete j k) 1 0

abbrev pub one_at? : Option Key → Key → ℕ
one_at? none j = 0
one_at? (some k) j = one_at k j

-- How many of the messages hold a reference that is counted at a key.
abbrev pub holders : (ℕ → Option ℕ) → List Message → Key → ℕ
holders rc [] j = 0
holders rc (m ∷ ms) j = one_at? (key_of rc m) j + holders rc ms j

-- The holders of two messages and more, by their keys.
pub holders_two :
    (rc : ℕ → Option ℕ) (x y : Message) (ms : List Message) (a b : Option Key) (j : Key)
    → key_of rc x ≡ a
    → key_of rc y ≡ b
    → holders rc (x ∷ y ∷ ms) j ≡ one_at? a j + (one_at? b j + holders rc ms j)
holders_two rc x y ms a b j p q = ap₂ (λ c d. one_at? c j + (one_at? d j + holders rc ms j)) p q

pub holders_one :
    (rc : ℕ → Option ℕ) (x : Message) (ms : List Message) (a : Option Key) (j : Key)
    → key_of rc x ≡ a
    → holders rc (x ∷ ms) j ≡ one_at? a j + holders rc ms j
holders_one rc x ms a j p = ap (λ c. one_at? c j + holders rc ms j) p

-- The count that as many references call for: nothing is allocated for none.
abbrev pub count_for : ℕ → Option ℕ
count_for zero = none
count_for (suc n) = some (suc n)

one_at?-le : (o : Option Key) (j : Key) → one_at? o j ≤ 1
one_at?-le none j = omega arith
one_at?-le (some k) j = ground arith

pub holders-le-length :
    (rc : ℕ → Option ℕ) (ms : List Message) (j : Key) → holders rc ms j ≤ length ms
holders-le-length rc [] j = omega arith
holders-le-length rc (m ∷ ms) j =
    omega (arith, one_at?-le (key_of rc m) j, holders-le-length rc ms j)

pub one_at_self : (k : Key) → one_at k k ≡ 1
one_at_self k = if_pos (Key-discrete k k) refl 1 0

decrement_at :
    (k : Key) (w : Store) (n : ℕ)
    → w.count k ≡ count_for (suc n)
    → n < 65535
    → decrement k w ≡ ((put k (count_for n) w, n == 0), none)
unfolding decrement
decrement_at k w zero e b = rw (e, decrement)
decrement_at k w (suc n) e b = ground (arith, e)

pub increment_at :
    (k : Key) (w : Store) (n : ℕ)
    → w.count k ≡ count_for n
    → 0 < n
    → n < 65535
    → increment k w ≡ (put k (count_for (1 + n)) w, none)
unfolding increment
increment_at k w zero e p b = absurd (omega arith)
increment_at k w (suc n) e p b = ground (arith, e)

pub count-put_self : (k : Key) (v : Option ℕ) (w : Store) → (put k v w).count k ≡ v
unfolding put
count-put_self k v w = if_pos (Key-discrete k k) refl v (w.count k)

pub count-put_other :
    (k j : Key) (v : Option ℕ) (w : Store) → j ≢ k → (put k v w).count j ≡ w.count j
unfolding put
count-put_other k j v w n = if_neg (Key-discrete j k) n v (w.count j)

pub count-put-put :
    (k : Key) (u v : Option ℕ) (w : Store) (j : Key)
    → (put k v (put k u w)).count j ≡ (put k v w).count j
unfolding put
count-put-put k u v w j = ground arith

pub put_counts :
    (k : Key) (w : Store) (n : ℕ) (h h' : Key → ℕ)
    → ((j : Key) → w.count j ≡ count_for (h j))
    → h' k ≡ n
    → ((j : Key) → j ≢ k → h j ≡ h' j)
    → (j : Key) → (put k (count_for n) w).count j ≡ count_for (h' j)
unfolding put
put_counts k w n h h' e s o j = elim (Key-discrete j k) [
  | yes q ↦ rw (if_pos _ q) (ap count_for (cc))
  | no q ↦ rw (if_neg _ q) (e j ∙ ap count_for (o j q))
]

pub one_at_other : (k j : Key) → j ≢ k → one_at k j ≡ 0
one_at_other k j n = if_neg (Key-discrete j k) n 1 0

-- Giving one of the references up, where `h` counts the others.
pub decrement_lem :
    (k : Key) (w : Store) (h : Key → ℕ)
    → h k < 65535
    → ((j : Key) → w.count j ≡ count_for (one_at k j + h j))
    → (decrement k w ≡ ((put k (count_for (h k)) w, h k == 0), none))
      × ((j : Key) → (put k (count_for (h k)) w).count j ≡ count_for (h j))
decrement_lem k w h b e = (
  decrement_at k w (h k) (e k ∙ ap count_for {y = suc (h k)} (omega (arith, one_at_self k))) b,
  put_counts k w (h k) (λ j. one_at k j + h j) h e refl (λ j n. omega (arith, one_at_other k j n)),
)

-- Taking one more reference where there is one already.
pub increment_lem :
    (k : Key) (w : Store) (h : Key → ℕ)
    → 0 < h k
    → h k < 65535
    → ((j : Key) → w.count j ≡ count_for (h j))
    → (increment k w ≡ (put k (count_for (1 + h k)) w, none))
      × ((j : Key) → (put k (count_for (1 + h k)) w).count j ≡ count_for (one_at k j + h j))
increment_lem k w h p b e = (
  increment_at k w (h k) (e k) p b,
  put_counts k w (1 + h k) h (λ j. one_at k j + h j) e (omega (arith, one_at_self k))
      (λ j n. omega (arith, one_at_other k j n)),
)

-- A count determines the number of references.
pub count_for_injective : (a b : ℕ) → count_for a ≡ count_for b → a ≡ b
count_for_injective zero zero e = refl
count_for_injective zero (suc b) e = cc
count_for_injective (suc a) zero e = cc
count_for_injective (suc a) (suc b) e = ground arith

-- Both messages refer to the same buffer in the same way, with the same size and hint.
abbrev pub Describes : Message → Message → Type 0
Describes a b =
    (a.size ≡ b.size)
    × (a.hint ≡ b.hint)
    × (a.handle ≡ b.handle)
    × (a.shared ≡ b.shared)
    × (a.region_id ≡ b.region_id)
    × (a.segment_id ≡ b.segment_id)
    × (a.managed ≡ b.managed)
