-- ===== src/Shmem/Message.antt =====
-- fairmq/shmem/Message.h: the operations of a message, each with the store before and after.
pub mod References
pub mod Counting
pub mod Closing
pub mod Sharing
pub mod Copying
pub mod Creating
pub mod Transfer
pub mod Leaks
use fair_mq.Prelude.{
  ℕ, ◌≡◌, Bool, true, false, not, ◌&&◌, ◌||◌, Option, none, some, ℤ, minus_one, is_negative,
  if◌then◌else◌, ltb, ◌==◌,
}
use fair_mq.Shmem.Store.{
  Key, buffer, region_count, Block, Store, Error, transport_error, ref_count_bad_alloc,
  message_bad_alloc, dangling, put, increment, decrement, release_block,
}

-- The fields of Message; `local_ptr` 0 is nullptr.
pub record Message : Type 0 where
  pub local_ptr : ℕ
  pub size : ℕ
  pub hint : ℕ
  pub handle : ℤ
  pub shared : ℤ
  pub region_id : ℕ
  pub segment_id : ℕ
  pub managed : Bool
  pub queued : Bool

-- What a call leaves: the message, the store, and the exception if it threw.
pub record After : Type 0 where
  pub message : Message
  pub store : Store
  pub error : Option Error

-- Message(Manager&): an empty message of a transport with this segment.
unfoldable pub empty_message : ℕ → Message
empty_message segment = record {
  local_ptr = 0;
  size = 0;
  hint = 0;
  handle = minus_one;
  shared = minus_one;
  region_id = 0;
  segment_id = segment;
  managed = true;
  queued = false;
}

-- A buffer that the segment's allocator returned: its handle and the address of its user part.
pub record Chunk : Type 0 where
  pub handle : ℤ
  pub user_ptr : ℕ

-- InitializeChunk. `got` is what Manager::Allocate returns, none where it throws MessageBadAlloc.
-- The header of a new buffer holds the count 1.
unfoldable pub initialize_chunk : ℕ → Option Chunk → Message → Store → After
initialize_chunk size got m w =
    if size == 0
    then record { message = record m { size = 0 }; store = w; error = none }
    else elim got [
      | none ↦ record { message = m; store = w; error = some message_bad_alloc }
      | some c ↦ record {
        message = record m { local_ptr = c.user_ptr; size = size; handle = c.handle };
        store = put (buffer m.segment_id c.handle) (some 1) w;
        error = none;
      }
    ]

pub block_of : Message → Block
block_of m = record { region = m.region_id; handle = m.handle; size = m.size; hint = m.hint }

-- The count at `k` goes down, and with the last one a region message gives its block back.
release_shared : Key → Message → Store → Store × Option Error
unfolding block_of
release_shared k m w =
    let ((w', last), e) = decrement k w in
    (if last && not m.managed then release_block (block_of m) w' else w', e)

-- The part of Deallocate that concerns the store.
unfoldable pub release : Message → Store → Store × Option Error
unfolding release_shared block_of
release m w =
    if is_negative m.handle || m.queued
    then (w, none)
    else if m.managed
    then release_shared (buffer m.segment_id m.handle) m w
    else if is_negative m.shared
    then (release_block (block_of m) w, none)
    else elim (w.rc_segment_size m.region_id) [
      | none ↦ (w, some transport_error)
      | some n ↦
          if ltb 0 n
          then release_shared (region_count m.region_id m.shared) m w
          else release_shared (buffer m.segment_id m.shared) m w
    ]

unfoldable pub deallocate : Message → Store → After
deallocate m w =
    let (w', e) = release m w in
    elim e [
      | some x ↦ record { message = m; store = w'; error = some x }
      | none ↦ record {
        message = record m { local_ptr = 0; size = 0; handle = minus_one };
        store = w';
        error = none;
      }
    ]

-- CloseMessage catches no exception that Deallocate can throw here, and is the destructor too.
unfoldable pub close_message : Message → Store → After
close_message m w = deallocate m w

-- Rebuild() and, with a size, Rebuild(size_t)
unfoldable pub rebuild : Message → Store → After
rebuild m w =
    let a = close_message m w in
    elim a.error [
      | some x ↦ a
      | none ↦ record a { message = record (a.message) { queued = false } }
    ]

unfoldable pub rebuild_size : ℕ → Option Chunk → Message → Store → After
rebuild_size size got m w =
    let a = rebuild m w in
    elim a.error [ some x ↦ a | none ↦ initialize_chunk size got a.message a.store ]

-- What Copy leaves: this message and the other, whose ref count holder is a mutable field.
pub record Copied : Type 0 where
  pub this : Message
  pub other : Message
  pub store : Store
  pub error : Option Error

-- The reference that Copy takes on the other's buffer. `got` is the object that MakeRefCount or
-- Manager::Allocate returns, if it has to be made; `segment` is this message's.
unfoldable pub share : ℕ → Option Chunk → Message → Store → (Message × Store) × Option Error
share segment got o w =
    if o.managed
    then (let (w', e) = increment (buffer o.segment_id o.handle) w in ((o, w'), e))
    else elim (w.rc_segment_size o.region_id) [
      | none ↦ ((o, w), some transport_error)
      | some n ↦
          if ltb 0 n
          then (if is_negative o.shared
              then elim got [
                | none ↦ ((o, w), some ref_count_bad_alloc)
                | some c ↦ (
                  (
                    record o { shared = c.handle },
                    put (region_count o.region_id c.handle) (some 2) w,
                  ),
                  none,
                )
              ]
              else (let (w', e) = increment (region_count o.region_id o.shared) w in ((o, w'), e)))
          else (if is_negative o.shared
              then elim got [
                | none ↦ ((o, w), some message_bad_alloc)
                | some c ↦
                    let k = buffer segment c.handle in
                    let (w', e) = increment k (put k (some 1) w) in
                    ((record o { shared = c.handle; segment_id = segment }, w'), e)
              ]
              else (let (w', e) = increment (buffer o.segment_id o.shared) w in ((o, w'), e)))
    ]

-- The copy of the meta data.
unfoldable pub copy_meta : Message → Message → Message
copy_meta t o = record t {
  size = o.size;
  hint = o.hint;
  handle = o.handle;
  shared = o.shared;
  region_id = o.region_id;
  segment_id = o.segment_id;
  managed = o.managed;
}

-- if this msg is already initialized, close it first
unfoldable pub close_if_open : Message → Store → After
close_if_open t w =
    if is_negative t.handle
    then record { message = t; store = w; error = none }
    else close_message t w

unfoldable pub copy : Option Chunk → Message → Message → Store → Copied
copy got t o w =
    if is_negative o.handle
    then (let a = close_message t w in
        record { this = a.message; other = o; store = a.store; error = a.error })
    else let a = close_if_open t w in
      elim a.error [
        | some x ↦ record { this = a.message; other = o; store = a.store; error = some x }
        | none ↦
            let ((o', w'), e) = share a.message.segment_id got o a.store in
            elim e [
              | some x ↦ record { this = a.message; other = o'; store = w'; error = some x }
              | none ↦ record {
                this = copy_meta a.message o';
                other = o';
                store = w';
                error = none;
              }
            ]
      ]

-- MetaHeader (shmem/Common.h): what travels through a socket in place of a message.
pub record MetaHeader : Type 0 where
  pub size : ℕ
  pub hint : ℕ
  pub handle : ℤ
  pub shared : ℤ
  pub region_id : ℕ
  pub segment_id : ℕ
  pub managed : Bool

-- The header that Send writes (shmem/Socket.h).
unfoldable pub header_of : Message → MetaHeader
header_of m = record {
  size = m.size;
  hint = m.hint;
  handle = m.handle;
  shared = m.shared;
  region_id = m.region_id;
  segment_id = m.segment_id;
  managed = m.managed;
}

-- Message(Manager&, MetaHeader&)
unfoldable pub from_header : MetaHeader → Message
from_header h = record {
  local_ptr = 0;
  size = h.size;
  hint = h.hint;
  handle = h.handle;
  shared = h.shared;
  region_id = h.region_id;
  segment_id = h.segment_id;
  managed = h.managed;
  queued = false;
}

-- SetMeta
unfoldable pub set_meta : MetaHeader → Message → Message
set_meta h m = record m {
  size = h.size;
  hint = h.hint;
  handle = h.handle;
  shared = h.shared;
  region_id = h.region_id;
  segment_id = h.segment_id;
  managed = h.managed;
}

-- shmMsg->fQueued = true
unfoldable pub mark_queued : Message → Message
mark_queued m = record m { queued = true }
