-- ===== src/Tests/Shmem.antt =====
-- Messages of fairmq/shmem/Message.h over small stores.
use mathlib.Core.Path.{subst}
use fair_mq.Prelude.{
  ◌≡◌, refl, ◌⊎◌, true, false, Option, none, some, [], ◌∷◌, ◌++◌, pos, minus_one, is_negative,
  arith, if◌then◌else◌,
}
use fair_mq.Shmem.Store.{buffer, Store, put, message_bad_alloc, Error}
use fair_mq.Shmem.Message.{
  Message, Chunk, empty_message, initialize_chunk, close_message, copy, mark_queued, block_of,
}
use fair_mq.Shmem.Message.References.{key_of}
use fair_mq.Shmem.Message.Counting.{Counted, Counted-swap}
use fair_mq.Shmem.Message.Closing.{is_last, close_message_lem}
use fair_mq.Shmem.Message.Copying.{copy_lem}
use fair_mq.Shmem.Message.References.{Describes}
use fair_mq.Shmem.Message.Creating.{initialize_chunk_lem}

abbrev pub empty_store : Store
empty_store = record { count = λ _. none; rc_segment_size = λ _. some 0; released = [] }

abbrev pub blank : Message
blank = empty_message 0

blank-Counted : Counted empty_store (blank ∷ [])
unfolding empty_message key_of
blank-Counted = record { counts = λ k. refl; known = (λ q. cc, tt) }

two_blank-Counted : Counted empty_store (blank ∷ blank ∷ [])
unfolding empty_message key_of
two_blank-Counted = record { counts = λ k. refl; known = (λ q. cc, (λ q. cc, tt)) }

abbrev pub chunk : Chunk
chunk = record { handle = pos 64; user_ptr = 4096 }

-- A message of 100 bytes beside an empty one.
abbrev pub filled : Message
filled = (initialize_chunk 100 (some chunk) blank empty_store).message

abbrev pub filled_store : Store
filled_store = (initialize_chunk 100 (some chunk) blank empty_store).store

-- What holds of the one chunk that an allocator returned holds of all that it returned.
at_chunk : (P : Chunk → Type 0) → P chunk → (c : Chunk) → some chunk ≡ some c → P c
at_chunk P h c e = let same : chunk ≡ c = cc in subst P same h

initialize_chunk_lem_example :
    let a = initialize_chunk 100 (some chunk) blank empty_store in
    Counted a.store (a.message ∷ blank ∷ [])
    × (((a.error ≡ none) × (a.message.size ≡ 100))
        ⊎ ((◌≡◌ {A = Option Chunk} (some chunk) none) × (a.error ≡ some message_bad_alloc)))
unfolding empty_message
initialize_chunk_lem_example =
    initialize_chunk_lem 100 (some chunk) blank (blank ∷ []) empty_store refl refl refl
      (at_chunk
        (λ c. (is_negative c.handle ≡ false) × (empty_store.count (buffer 0 c.handle) ≡ none))
        (refl, refl))
      two_blank-Counted

pub filled-Counted : Counted filled_store (filled ∷ blank ∷ [])
filled-Counted = initialize_chunk_lem_example.0

close_message_lem_example :
    let a = close_message filled filled_store in
    (a.error ≡ none)
    × (is_negative a.message.handle ≡ true)
    × Counted a.store (a.message ∷ blank ∷ [])
    × (a.store.released ≡ (
        if is_last filled_store.rc_segment_size filled (blank ∷ [])
        then filled_store.released ++ block_of filled ∷ []
        else filled_store.released))
close_message_lem_example =
    close_message_lem filled (blank ∷ []) filled_store (omega arith) filled-Counted

copy_lem_example :
    let r = copy none blank filled filled_store in
    Counted r.store (r.this ∷ r.other ∷ [])
    × (((r.error ≡ none) × Describes r.this r.other × (r.this.queued ≡ false))
        ⊎ ((◌≡◌ {A = Option Chunk} none none)
            × (((x : Error) × (r.error ≡ some x))
                × ((is_negative r.this.handle ≡ true) × (r.other ≡ filled)))))
unfolding empty_message initialize_chunk
copy_lem_example =
    copy_lem none blank filled [] filled_store (omega arith) refl refl refl (λ c e. cc)
      (Counted-swap filled_store filled blank [] filled-Counted)

-- A message of a region, never copied.
abbrev region_message : Message
region_message = record {
  local_ptr = 9000;
  size = 32;
  hint = 7;
  handle = pos 8;
  shared = minus_one;
  region_id = 5;
  segment_id = 0;
  managed = false;
  queued = false;
}

region-Counted : Counted empty_store (region_message ∷ [])
unfolding key_of
region-Counted = record { counts = λ k. refl; known = (λ q. (0, refl), tt) }

-- An empty message that was sent.
abbrev sent : Message
sent = mark_queued blank

sent-Counted : Counted filled_store (sent ∷ filled ∷ [])
unfolding empty_message initialize_chunk key_of mark_queued put
sent-Counted = record {
  counts = λ k. (Counted-swap filled_store filled blank [] filled-Counted).counts k;
  known = (λ q. cc, (λ q. cc, tt));
}
