-- ===== src/Shmem/Message/Creating.antt =====
-- Giving a message a new buffer (fairmq/shmem/Message.h: InitializeChunk, Rebuild), and the two ways
-- in which a reference is lost.
use mathlib.Core.Path.{subst}
use fair_mq.Prelude.{
  ℕ, ◌+◌, ◌<◌, ◌≡◌, refl, ap, ◌∙◌, sym, ◌⊎◌, true, false, Option, none, some, List, ◌∷◌,
  is_negative, arith, ◌==◌, length, inl, inr, Bool-cases, Option-cases,
}
use fair_mq.Shmem.Store.{Key, buffer, Store, put, message_bad_alloc}
use fair_mq.Shmem.Message.{Message, Chunk, initialize_chunk, rebuild, rebuild_size, close_message}
use fair_mq.Shmem.Message.References.{
  key_of, one_at, holders, count_for, one_at_self, one_at_other, holders_one, count_for_injective,
  put_counts,
}
use fair_mq.Shmem.Message.Counting.{
  Known, AllKnown, Counted, Counted-cons, Counted-rest, key_of_negative,
}
use fair_mq.Shmem.Message.Closing.{close_message_lem, closed, close_message-closed}

-- A new buffer: the allocator returned a proper handle, at which nothing is counted yet.
abbrev pub IsNewBuffer : Option Chunk → ℕ → Store → Type 0
IsNewBuffer got segment w =
    (c : Chunk)
    → got ≡ some c
    → (is_negative c.handle ≡ false) × (w.count (buffer segment c.handle) ≡ none)

key_of_new :
    (rc : ℕ → Option ℕ) (m : Message) (size : ℕ) (c : Chunk)
    → m.managed ≡ true
    → m.queued ≡ false
    → is_negative c.handle ≡ false
    → key_of rc (record m { local_ptr = c.user_ptr; size = size; handle = c.handle })
      ≡ some (buffer m.segment_id c.handle)
unfolding key_of
key_of_new rc m size c p q r = rw (p, q, r)

initialize_chunk-none :
    (size : ℕ) (m : Message) (w : Store)
    → (size == 0) ≡ false
    → initialize_chunk size none m w
      ≡ record { message = m; store = w; error = some message_bad_alloc }
unfolding initialize_chunk
initialize_chunk-none size m w e = rw e

pub initialize_chunk-some :
    (size : ℕ) (c : Chunk) (m : Message) (w : Store)
    → (size == 0) ≡ false
    → initialize_chunk size (some c) m w ≡ record {
      message = record m { local_ptr = c.user_ptr; size = size; handle = c.handle };
      store = put (buffer m.segment_id c.handle) (some 1) w;
      error = none;
    }
unfolding initialize_chunk
initialize_chunk-some size c m w e = rw e

initialize_chunk_zero :
    (size : ℕ) (got : Option Chunk) (m : Message) (w : Store)
    → (size == 0) ≡ true
    → initialize_chunk size got m w
      ≡ record { message = record m { size = 0 }; store = w; error = none }
unfolding initialize_chunk
initialize_chunk_zero size got m w e = rw e

new_buffer-Counted :
    (x : Message) (ms : List Message) (w : Store) (k : Key)
    → key_of w.rc_segment_size x ≡ some k
    → w.count k ≡ none
    → ((j : Key) → w.count j ≡ count_for (holders w.rc_segment_size ms j))
    → AllKnown w.rc_segment_size (x ∷ ms)
    → Counted (put k (some 1) w) (x ∷ ms)
unfolding put
new_buffer-Counted x ms w k e unused others known =
    let rest = holders w.rc_segment_size ms in
    let zero_refs : rest k ≡ 0 = count_for_injective (rest k) 0 (sym (others k) ∙ unused) in
    record {
      counts = λ j.
          put_counts k w 1 rest (λ i. one_at k i + rest i) others
            (omega (arith, one_at_self k, zero_refs)) (λ i n. omega (arith, one_at_other k i n)) j
          ∙ ap count_for (sym (holders_one w.rc_segment_size x ms (some k) j e));
      known = known;
    }

-- InitializeChunk on an empty managed message: either the counts are right with the new buffer, and
-- the message has the wanted size, or there was no memory and the call threw.
pub initialize_chunk_lem :
    (size : ℕ) (got : Option Chunk) (m : Message) (ms : List Message) (w : Store)
    → m.managed ≡ true
    → m.queued ≡ false
    → is_negative m.handle ≡ true
    → IsNewBuffer got m.segment_id w
    → Counted w (m ∷ ms)
    → let a = initialize_chunk size got m w in
      Counted a.store (a.message ∷ ms)
      × (((a.error ≡ none) × (a.message.size ≡ size))
          ⊎ ((got ≡ none) × (a.error ≡ some message_bad_alloc)))
initialize_chunk_lem size got m ms w p q r is_new c = elim (Bool-cases (size == 0)) [
  | inl nothing ↦ rw (initialize_chunk_zero size got m w nothing) (
    Counted-cons w (record m { size = 0 }) ms w.rc_segment_size refl
        (Counted-rest w m ms (key_of_negative w.rc_segment_size m r) c)
        (key_of_negative w.rc_segment_size (record m { size = 0 }) r) c.known,
    inl (refl, ground (arith, nothing)),
  )
  | inr something ↦ elim (Option-cases got) [
    | inl no_memory ↦ rw (no_memory, initialize_chunk-none size m w something) (c, inr (refl, refl))
    | inr (g, buffer_got) ↦
        let (good, unused) = is_new g buffer_got in
        rw (buffer_got, initialize_chunk-some size g m w something)
          (
            new_buffer-Counted (record m { local_ptr = g.user_ptr; size = size; handle = g.handle })
                ms w (buffer m.segment_id g.handle) (key_of_new w.rc_segment_size m size g p q good)
                unused (Counted-rest w m ms (key_of_negative w.rc_segment_size m r) c) c.known,
            inl (refl, refl),
          )
  ]
]

-- What Rebuild() leaves of a message.
abbrev pub rebuilt : Message → Message
rebuilt m = record (closed m) { queued = false }

pub rebuild_lem :
    (m : Message) (ms : List Message) (w : Store)
    → length ms < 65535
    → Counted w (m ∷ ms)
    → ((rebuild m w).error ≡ none)
      × ((rebuild m w).message ≡ rebuilt m)
      × Counted (rebuild m w).store (rebuilt m ∷ ms)
unfolding rebuild
rebuild_lem m ms w b c =
    let (fine, negative, counted, _) = close_message_lem m ms w b c in
    let same = close_message-closed m ms w b c in
    let a = close_message m w in
    rw (fine, rebuild)
      (
        fine,
        ap (λ (x : Message). record x { queued = false }) same,
        Counted-cons a.store (rebuilt m) ms a.store.rc_segment_size refl
            (Counted-rest a.store a.message ms
              (key_of_negative a.store.rc_segment_size a.message negative) counted)
            (key_of_negative a.store.rc_segment_size (rebuilt m) refl)
            (subst (λ x. Known a.store.rc_segment_size x) same counted.known.0, counted.known.1),
      )

-- Rebuild(size) of a managed message: the old reference is given up, and either the message has a
-- new buffer of the wanted size, or there was no memory and the call threw; the counts are right
-- either way.
pub rebuild_size_lem :
    (size : ℕ) (got : Option Chunk) (m : Message) (ms : List Message) (w : Store)
    → length ms < 65535
    → m.managed ≡ true
    → IsNewBuffer got m.segment_id (rebuild m w).store
    → Counted w (m ∷ ms)
    → let a = rebuild_size size got m w in
      Counted a.store (a.message ∷ ms)
      × (((a.error ≡ none) × (a.message.size ≡ size))
          ⊎ ((got ≡ none) × (a.error ≡ some message_bad_alloc)))
unfolding rebuild_size
rebuild_size_lem size got m ms w b p is_new c =
    let (fine, same, counted) = rebuild_lem m ms w b c in
    rw (fine, same, rebuild_size)
      (initialize_chunk_lem size got (rebuilt m) ms (rebuild m w).store p refl refl is_new counted)
