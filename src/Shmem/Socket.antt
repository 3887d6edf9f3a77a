-- ===== src/Shmem/Socket.antt =====
-- Sending and receiving (fairmq/shmem/Socket.h, fairmq/zeromq/Common.h). libzmq is a parameter: what
-- its calls return, in their order.
pub mod Attempts
pub mod Parts
use fair_mq.Prelude.{
  ℕ, zero, suc, ◌+◌, ◌%◌, Bool, true, false, Option, none, some, List, [], ◌∷◌, ◌++◌, map, ℤ, pos,
  negsuc, if◌then◌else◌, leb,
}
use fair_mq.Shmem.Message.{Message, MetaHeader, header_of, from_header, set_meta, mark_queued}

-- What zmq_msg_send, zmq_recv or zmq_msg_recv returns: a number of bytes greater than 0, or else the
-- errno EAGAIN or EINTR, or another one.
pub data Call : Type 0 where
  moved again failed : Call

-- TransferCode, with the size in place of success
pub data Transfer : Type 0 where
  transferred : ℕ → Transfer
  error timeout interrupted : Transfer

-- How the loop ends.
pub data Outcome : Type 0 where
  arrived refused expired stopped : Outcome

-- flags & ZMQ_DONTWAIT, which the calls set for the timeout 0
unfoldable pub dont_wait : ℤ → Bool
dont_wait (pos zero) = true
dont_wait (pos (suc n)) = false
dont_wait (negsuc n) = false

-- ShouldRetry, by whether ZMQ_DONTWAIT is set, with the elapsed time after it; fTimeout is 100. The
-- elapsed time is an int, and less than the timeout before: the sum fits an int if the timeout is at
-- most 2147483547. A greater one is outside of the model.
unfoldable pub should_retry : Bool → ℤ → ℕ → Bool × ℕ
should_retry true wait elapsed = (false, elapsed)
should_retry false (pos zero) elapsed = (true, elapsed)
should_retry false (pos (suc n)) elapsed =
    (if leb (suc n) (elapsed + 100) then false else true, elapsed + 100)
should_retry false (negsuc n) elapsed = (true, elapsed)

-- The loop that Send and Receive share. `calls i` is the i-th call, `interruption i` what Interrupted()
-- returns after it.
unfoldable pub attempts : (ℕ → Call) → (ℕ → Bool) → ℤ → ℕ → ℕ → ℕ → Option Outcome
attempts calls interruption wait zero i elapsed = none
attempts calls interruption wait (suc fuel) i elapsed =
    let (retry, elapsed') = should_retry (dont_wait wait) wait elapsed in
    let rest = attempts calls interruption wait fuel (suc i) elapsed' in
    elim (calls i) [
      | moved ↦ some arrived
      | failed ↦ some refused
      | again ↦ if interruption i then some stopped else if retry then rest else some expired
    ]

-- fBytesTx, fBytesRx, fMessagesTx, fMessagesRx
pub record Traffic : Type 0 where
  pub bytes_tx : ℕ
  pub bytes_rx : ℕ
  pub messages_tx : ℕ
  pub messages_rx : ℕ

abbrev pub plus_64 : ℕ → ℕ → ℕ
plus_64 n k = (n + k) % 18446744073709551616

-- What is returned where the loop does not end with bytes.
unfoldable pub code_of : Outcome → Transfer
code_of arrived = error
code_of refused = error
code_of expired = timeout
code_of stopped = interrupted

-- Send of one message, none for a null pointer, by the end of the loop.
pub record Sent : Type 0 where
  pub message : Option Message
  pub traffic : Traffic
  pub result : Transfer

unfoldable pub send : Outcome → Option Message → Traffic → Sent
send o none t = record { message = none; traffic = t; result = error }
send arrived (some m) t = record {
  message = some (mark_queued m);
  traffic = record t {
    messages_tx = plus_64 t.messages_tx 1;
    bytes_tx = plus_64 t.bytes_tx m.size;
  };
  result = transferred m.size;
}
send refused (some m) t = record { message = some m; traffic = t; result = code_of refused }
send expired (some m) t = record { message = some m; traffic = t; result = code_of expired }
send stopped (some m) t = record { message = some m; traffic = t; result = code_of stopped }

-- Receive of one message. The content is none if it is shorter than a MetaHeader; the result is none
-- where SocketError is thrown.
pub record Received : Type 0 where
  pub message : Message
  pub traffic : Traffic
  pub result : Option Transfer

unfoldable pub receive : Outcome → Option MetaHeader → Message → Traffic → Received
receive arrived none m t = record { message = m; traffic = t; result = none }
receive arrived (some h) m t = record {
  message = set_meta h m;
  traffic = record t {
    bytes_rx = plus_64 t.bytes_rx h.size;
    messages_rx = plus_64 t.messages_rx 1;
  };
  result = some (transferred h.size);
}
receive refused h m t = record { message = m; traffic = t; result = some (code_of refused) }
receive expired h m t = record { message = m; traffic = t; result = some (code_of expired) }
receive stopped h m t = record { message = m; traffic = t; result = some (code_of stopped) }

-- The headers that Send writes for several messages, none if one of them is a null pointer.
unfoldable pub headers : List (Option Message) → Option (List MetaHeader)
headers [] = some []
headers (none ∷ ms) = none
headers (some m ∷ ms) = elim (headers ms) [ none ↦ none | some hs ↦ some (header_of m ∷ hs) ]

unfoldable pub mark_parts : List (Option Message) → List (Option Message)
mark_parts [] = []
mark_parts (none ∷ ms) = none ∷ mark_parts ms
mark_parts (some m ∷ ms) = some (mark_queued m) ∷ mark_parts ms

-- totalSize, from what was added up so far
unfoldable pub total_parts : ℕ → List (Option Message) → ℕ
total_parts n [] = n
total_parts n (none ∷ ms) = total_parts n ms
total_parts n (some m ∷ ms) = total_parts (plus_64 n m.size) ms

-- `wire` is the content that was sent, if any.
pub record PartsSent : Type 0 where
  pub parts : List (Option Message)
  pub wire : Option (List MetaHeader)
  pub traffic : Traffic
  pub result : Transfer

unfoldable pub parts_sent : Outcome → List (Option Message) → List MetaHeader → Traffic → PartsSent
parts_sent arrived ms hs t = record {
  parts = mark_parts ms;
  wire = some hs;
  traffic = record t {
    messages_tx = plus_64 t.messages_tx 1;
    bytes_tx = plus_64 t.bytes_tx (total_parts 0 ms);
  };
  result = transferred (total_parts 0 ms);
}
parts_sent refused ms hs t = record {
  parts = ms;
  wire = none;
  traffic = t;
  result = code_of refused;
}
parts_sent expired ms hs t = record {
  parts = ms;
  wire = none;
  traffic = t;
  result = code_of expired;
}
parts_sent stopped ms hs t = record {
  parts = ms;
  wire = none;
  traffic = t;
  result = code_of stopped;
}

unfoldable pub send_parts : Outcome → List (Option Message) → Traffic → PartsSent
send_parts o ms t = elim (headers ms) [
  | none ↦ record { parts = ms; wire = none; traffic = t; result = error }
  | some hs ↦ parts_sent o ms hs t
]

-- totalSize, by GetSize of the new messages
unfoldable pub total_headers : ℕ → List MetaHeader → ℕ
total_headers n [] = n
total_headers n (h ∷ hs) = total_headers (plus_64 n (from_header h).size) hs

pub record PartsReceived : Type 0 where
  pub parts : List (Option Message)
  pub traffic : Traffic
  pub result : Transfer

-- Receive of several messages, which go behind those in the container.
unfoldable pub parts_received : List MetaHeader → List (Option Message) → Traffic → PartsReceived
parts_received hs ms t = record {
  parts = ms ++ map (λ h. some (from_header h)) hs;
  traffic = record t {
    messages_rx = plus_64 t.messages_rx 1;
    bytes_rx = plus_64 t.bytes_rx (total_headers 0 hs);
  };
  result = transferred (total_headers 0 hs);
}

-- The content is the number of the headers and then these, so it is longer than that number unless
-- there are none. `asserting` is whether assertions are compiled; none where one fails.
unfoldable pub receive_parts :
    Bool → Outcome → List MetaHeader → List (Option Message) → Traffic → Option PartsReceived
unfolding parts_received
receive_parts true arrived [] ms t = none
receive_parts true arrived (h ∷ hs) ms t = some (parts_received (h ∷ hs) ms t)
receive_parts false arrived hs ms t = some (parts_received hs ms t)
receive_parts asserting refused hs ms t =
    some (record { parts = ms; traffic = t; result = code_of refused })
receive_parts asserting expired hs ms t =
    some (record { parts = ms; traffic = t; result = code_of expired })
receive_parts asserting stopped hs ms t =
    some (record { parts = ms; traffic = t; result = code_of stopped })
