-- ===== src/Shmem/Acks.antt =====
-- fairmq/shmem/UnmanagedRegion.h: how the blocks of an unmanaged region come back to its owner. Any
-- thread releases blocks (ReleaseBlock), a thread of the process sends them in bunches through a
-- message queue (SendAcks), and a thread of the region's owner passes them to the callback
-- (ReceiveAcks).
pub mod Accounting
pub mod Bunches
pub mod Draining
use fair_mq.Prelude.{
  ℕ, ◌-◌, ◌<◌, ◌≡◌, ◌⊎◌, Bool, true, false, List, [], ◌∷◌, ◌++◌, length, take, drop, ltb,
  if◌then◌else◌,
}
use fair_mq.Shmem.Store.{Block}

-- fAckBunchSize
abbrev pub ack_bunch_size : ℕ
ack_bunch_size = 256

-- The messages that the queue holds at most, as InitializeQueues makes it.
abbrev pub queue_size : ℕ
queue_size = 1024

-- The sending thread: before it takes blocks, with the blocks it has taken, without any before it
-- looks at fStopAcks, or returned.
pub data Sender : Type 0 where
  collecting : Sender
  sending : List Block → Sender
  empty_handed gone : Sender

-- The receiving thread: before it looks at fStopAcks, in the inner loop, in its last inner loop, or
-- returned.
pub data Receiver : Type 0 where
  watching receiving lingering left : Receiver

-- `queue` has the messages of the message queue in order. `released`, `delivered` and `dropped` record
-- what ReleaseBlock was called with, what the callback got and what was never sent.
pub record Acks : Type 0 where
  pub to_free : List Block
  pub queue : List (List Block)
  pub stop : Bool
  pub sender : Sender
  pub receiver : Receiver
  pub released : List Block
  pub delivered : List Block
  pub dropped : List Block

abbrev pub initial : Acks
initial = record {
  to_free = [];
  queue = [];
  stop = false;
  sender = collecting;
  receiver = watching;
  released = [];
  delivered = [];
  dropped = [];
}

-- ReleaseBlock
unfoldable pub release_block : Block → Acks → Acks
release_block b a = record a { to_free = a.to_free ++ b ∷ []; released = a.released ++ b ∷ [] }

-- std::min
unfoldable pub min : ℕ → ℕ → ℕ
min m n = if ltb n m then n else m

-- What SendAcks does under the lock: the last blocks, at most a bunch, are taken.
unfoldable pub take_blocks : List Block → List Block × List Block
unfolding min
take_blocks bs =
    let n = min (length bs) ack_bunch_size in (take (length bs - n) bs, drop (length bs - n) bs)

-- if (blocksToSend > 0)
unfoldable pub next_sender : List Block → Sender
next_sender [] = empty_handed
next_sender (b ∷ bs) = sending (b ∷ bs)

unfoldable pub collect : Acks → Acks
collect a =
    let (rest, batch) = take_blocks a.to_free in
    record a { to_free = rest; sender = next_sender batch }

-- if (fStopAcks) break
unfoldable pub look : Acks → Acks
look a = record a { sender = if a.stop then gone else collecting }

-- if (fStopAcks) { timeout = fLinger; leave = true }
unfoldable pub watch : Acks → Acks
watch a = record a { receiver = if a.stop then lingering else receiving }

-- One step of the program. try_send succeeds only if the queue is not full, and timed_receive waits for a message until its
-- time is over.
pub data Step : Acks → Acks → Type 0 where
  released : (b : Block) (a : Acks) → Step a (release_block b a)
  stopped : (a : Acks) → Step a (record a { stop = true })
  collected : (a : Acks) → a.sender ≡ collecting → Step a (collect a)
  looked : (a : Acks) → a.sender ≡ empty_handed → Step a (look a)
  sent :
      (m : List Block) (a : Acks)
      → a.sender ≡ sending m
      → length a.queue < queue_size
      → Step a (record a { queue = a.queue ++ m ∷ []; sender = collecting })
  given_up :
      (m : List Block) (a : Acks)
      → a.sender ≡ sending m
      → a.stop ≡ true
      → Step a (record a { dropped = a.dropped ++ m; sender = collecting })
  watched : (a : Acks) → a.receiver ≡ watching → Step a (watch a)
  received :
      (m : List Block) (ms : List (List Block)) (a : Acks)
      → (a.receiver ≡ receiving) ⊎ (a.receiver ≡ lingering)
      → a.queue ≡ m ∷ ms
      → Step a (record a { queue = ms; delivered = a.delivered ++ m })
  timed_out : (a : Acks) → a.receiver ≡ receiving → Step a (record a { receiver = watching })
  finished : (a : Acks) → a.receiver ≡ lingering → Step a (record a { receiver = left })

pub data Steps : Acks → Acks → Type 0 where
  stay : (a : Acks) → Steps a a
  go : (a b c : Acks) → Step a b → Steps b c → Steps a c
