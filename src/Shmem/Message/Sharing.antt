-- ===== src/Shmem/Message/Sharing.antt =====
-- The branches in which Copy takes a reference (fairmq/shmem/Message.h: Copy).
use fair_mq.Prelude.{
  ℕ, ◌≡◌, refl, true, false, Option, none, some, is_negative, if◌then◌else◌, ltb, arith, inl, inr,
  Bool-cases,
}
use fair_mq.Shmem.Store.{
  Key, buffer, region_count, Store, Error, put, increment, ref_count_bad_alloc, message_bad_alloc,
}
use fair_mq.Shmem.Message.{Message, Chunk, share}
use fair_mq.Shmem.Message.References.{key_of, increment_at, count-put_self, count-put-put}
use fair_mq.Shmem.Message.Counting.{Known}
use fair_mq.Shmem.Message.Closing.{is_idle}

pub share_of_key :
    (segment : ℕ) (got : Option Chunk) (o : Message) (w : Store) (k : Key)
    → key_of w.rc_segment_size o ≡ some k
    → share segment got o w ≡ ((o, (increment k w).0), (increment k w).1)
unfolding share key_of
share_of_key segment got o w k e = ground arith

-- A region message that is copied for the first time.
unfoldable pub First : Store → Message → ℕ → Type 0
First w o n =
    (o.managed ≡ false) × (is_negative o.shared ≡ true) × (w.rc_segment_size o.region_id ≡ some n)

pub First-of_key :
    (w : Store) (o : Message)
    → key_of w.rc_segment_size o ≡ none
    → is_idle o ≡ false
    → Known w.rc_segment_size o
    → (n : ℕ) × First w o n
unfolding key_of is_idle First
First-of_key w o e live known =
    let reg : o.managed ≡ false = ground arith in
    let (n, found) = known reg in (n, (reg, ground (arith, reg, found), found))

pub share_nothing :
    (segment : ℕ) (o : Message) (w : Store) (n : ℕ)
    → First w o n
    → (x : Error) × (share segment none o w ≡ ((o, w), some x))
unfolding share First
share_nothing segment o w n (reg, unshared, found) = elim (Bool-cases (ltb 0 n)) [
  | inl b ↦ (ref_count_bad_alloc, ground (arith, b))
  | inr b ↦ (message_bad_alloc, ground (arith, b))
]

-- The message with its new count holder, and where that count is.
unfoldable pub holder : ℕ → ℕ → Chunk → Message → Message × Key
holder segment n c o =
    if ltb 0 n
    then (record o { shared = c.handle }, region_count o.region_id c.handle)
    else (record o { shared = c.handle; segment_id = segment }, buffer segment c.handle)

pub key_of-holder :
    (rc : ℕ → Option ℕ) (segment n : ℕ) (c : Chunk) (o : Message)
    → o.managed ≡ false
    → rc o.region_id ≡ some n
    → is_idle o ≡ false
    → is_negative c.handle ≡ false
    → key_of rc (holder segment n c o).0 ≡ some (holder segment n c o).1
unfolding holder key_of is_idle
key_of-holder rc segment n c o reg found live fresh = ground arith

pub share-First :
    (segment : ℕ) (c : Chunk) (o : Message) (w : Store) (n : ℕ)
    → First w o n
    → let (o', k) = holder segment n c o in
      (w' : Store) × (share segment (some c) o w ≡ ((o', w'), none))
      × ((j : Key) → w'.count j ≡ (put k (some 2) w).count j)
      × (w'.rc_segment_size ≡ w.rc_segment_size)
unfolding share First holder put
share-First segment c o w n (reg, unshared, found) = elim (Bool-cases (ltb 0 n)) [
  | inl b ↦ (
    put (region_count o.region_id c.handle) (some 2) w,
    ground (arith, b),
    λ j. ground (arith, b),
    refl,
  )
  | inr b ↦
      let k = buffer segment c.handle in
      let w1 = put k (some 1) w in
      (
        put k (some 2) w1,
        ground (arith, b, increment_at k w1 1 (count-put_self k (some 1) w)),
        λ j. ground (arith, b, count-put-put k (some 1) (some 2) w j),
        refl,
      )
]
