-- ===== src/Zmq/Message.antt =====
-- Messages of the ZeroMQ transport (fairmq/zeromq/Message.h). libzmq and malloc are parameters: what
-- zmq_msg_init, zmq_msg_init_size and malloc give, and whether zmq_msg_init_data succeeds.
pub mod Aligned
pub mod Resized
use fair_mq.Prelude.{
  ℕ, zero, suc, ◌-◌, ◌%◌, ◌==◌, Bool, true, false, Option, none, some, List, length, take, ltb,
  if◌then◌else◌, arith,
}
use fair_mq.Shmem.Socket.{plus_64}

-- A zmq_msg_t: where its data is, the data, and the block that is freed with it, if it was made from
-- a buffer.
pub record ZmqMsg : Type 0 where
  pub address : ℕ
  pub bytes : List ℕ
  pub hint : Option ℕ

-- fMsg and fAlignment
pub record ZmqMessage : Type 0 where
  pub msg : ZmqMsg
  pub alignment : ℕ

unfoldable pub get_size : ZmqMessage → ℕ
get_size m = length m.msg.bytes

-- none for a null pointer
unfoldable pub get_data : ZmqMessage → Option ℕ
unfolding get_size
get_data m = if ltb 0 (get_size m) then some m.msg.address else none

-- What is left of fAlignment; every caller puts a new zmq_msg_t in the place of the closed one.
unfoldable pub close_zmq_message : ZmqMessage → ZmqMessage
close_zmq_message m = record m { alignment = 0 }

-- The block that malloc gave and the aligned address in it; none where std::bad_alloc is thrown.
unfoldable pub allocate_aligned : (ℕ → Option ℕ) → ℕ → ℕ → Option (ℕ × ℕ)
allocate_aligned malloc size alignment = elim (malloc (plus_64 size alignment)) [
  | none ↦ none
  | some block ↦ some (block, plus_64 block (alignment - block % alignment))
]

-- Message() and Message(alignment), Message(size), by what zmq_msg_init or zmq_msg_init_size gives.
unfoldable pub make_empty : ZmqMsg → ZmqMessage
make_empty init = record { msg = init; alignment = 0 }

unfoldable pub make_alignment : ZmqMsg → ℕ → ZmqMessage
make_alignment init alignment = record { msg = init; alignment = alignment }

unfoldable pub make_size : (ℕ → ZmqMsg) → ℕ → ZmqMessage
make_size init_size size = record { msg = init_size size; alignment = 0 }

-- zmq_msg_init_data: the zmq_msg_t for a buffer if the call succeeds. Otherwise the failure is only
-- logged, and the zmq_msg_t is as it was made, `blank`.
unfoldable pub init_data : Bool → ZmqMsg → ZmqMsg → ZmqMsg
init_data ok blank buffer = if ok then buffer else blank

-- The zmq_msg_t of a message of some size: `found` is the data that the buffer has at first.
unfoldable pub init_aligned :
    (ℕ → Option ℕ) → Bool → ZmqMsg → (ℕ → ℕ → List ℕ) → (ℕ → ZmqMsg) → ℕ → ℕ → Option ZmqMsg
unfolding allocate_aligned init_data
init_aligned malloc ok blank found init_size size alignment =
    if alignment == 0
    then some (init_size size)
    else elim (allocate_aligned malloc size alignment) [
      | none ↦ none
      | some (block, data_part) ↦ some (
          init_data ok blank
            (record { address = data_part; bytes = found data_part size; hint = some block }))
    ]

-- Message(size, alignment)
unfoldable pub make_aligned :
    (ℕ → Option ℕ) → Bool → ZmqMsg → (ℕ → ℕ → List ℕ) → (ℕ → ZmqMsg) → ℕ → ℕ → Option ZmqMessage
unfolding init_aligned
make_aligned malloc ok blank found init_size size alignment =
    elim (init_aligned malloc ok blank found init_size size alignment) [
      | none ↦ none
      | some z ↦ some (record { msg = z; alignment = alignment })
    ]

-- Rebuild(), Rebuild(alignment), Rebuild(size)
unfoldable pub rebuild_empty : ZmqMsg → ZmqMessage → ZmqMessage
unfolding close_zmq_message
rebuild_empty init m = record (close_zmq_message m) { msg = init }

unfoldable pub rebuild_alignment : ZmqMsg → ℕ → ZmqMessage → ZmqMessage
unfolding close_zmq_message
rebuild_alignment init alignment m = record (close_zmq_message m) {
  msg = init;
  alignment = alignment;
}

unfoldable pub rebuild_of_size : (ℕ → ZmqMsg) → ℕ → ZmqMessage → ZmqMessage
unfolding close_zmq_message
rebuild_of_size init_size size m = record (close_zmq_message m) { msg = init_size size }

-- Rebuild(size, alignment)
unfoldable pub rebuild_aligned :
    (ℕ → Option ℕ)
    → Bool
    → ZmqMsg
    → (ℕ → ℕ → List ℕ)
    → (ℕ → ZmqMsg)
    → ℕ
    → ℕ
    → ZmqMessage
    → Option ZmqMessage
unfolding close_zmq_message init_aligned
rebuild_aligned malloc ok blank found init_size size alignment m =
    elim (init_aligned malloc ok blank found init_size size alignment) [
      | none ↦ none
      | some z ↦ some (record (close_zmq_message m) { msg = z; alignment = alignment })
    ]

-- Rebuild(data, size, ffn, hint), by the zmq_msg_t that refers to the buffer
unfoldable pub rebuild_of_data : Bool → ZmqMsg → ZmqMsg → ZmqMessage → ZmqMessage
unfolding close_zmq_message init_data
rebuild_of_data ok blank buffer m = record (close_zmq_message m) { msg = init_data ok blank buffer }

-- SetUsedSize; `ok` is whether zmq_msg_init_data succeeds. The new zmq_msg_t closes the old one, and
-- so frees what it freed.
unfoldable pub set_used_size : Bool → ℕ → ZmqMessage → Bool × ZmqMessage
unfolding get_size
set_used_size ok size m =
    if size == get_size m
    then (true, m)
    else if ltb (get_size m) size
    then (false, m)
    else if ok
    then (true, record m { msg = record m.msg { bytes = take size m.msg.bytes } })
    else (false, m)

-- Realign, on a buffer that is not null and not aligned; none where std::bad_alloc is thrown.
unfoldable pub move_aligned : (ℕ → Option ℕ) → Bool → ZmqMsg → ZmqMessage → Option ZmqMessage
unfolding allocate_aligned rebuild_of_data get_size
move_aligned malloc ok blank m = elim (allocate_aligned malloc (get_size m) m.alignment) [
  | none ↦ none
  | some (block, data_part) ↦ some (
      rebuild_of_data ok blank
        (record { address = data_part; bytes = m.msg.bytes; hint = some block }) m)
]

unfoldable pub realign : (ℕ → Option ℕ) → Bool → ZmqMsg → ZmqMessage → Option ZmqMessage
unfolding move_aligned get_data
realign malloc ok blank m = if m.alignment == 0 then some m else elim (get_data m) [
  | none ↦ some m
  | some p ↦ if p % m.alignment == 0 then some m else move_aligned malloc ok blank m
]
