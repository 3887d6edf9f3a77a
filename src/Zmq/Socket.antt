-- ===== src/Zmq/Socket.antt =====
-- Sending and receiving of the ZeroMQ transport (fairmq/zeromq/Socket.h). libzmq is a parameter: what
-- its calls return, in their order, and what they receive. The attempts for one message are those of
-- the shared memory transport.
pub mod Passes
pub mod Sending
pub mod Ending
pub mod Receiving
use fair_mq.Prelude.{
  ℕ, zero, suc, ◌+◌, Bool, true, false, Option, none, some, List, [], ◌∷◌, ◌++◌, ℤ, if◌then◌else◌,
}
use fair_mq.Shmem.Socket.{
  Call, moved, again, failed, Transfer, transferred, error, Outcome, arrived, refused, expired,
  stopped, dont_wait, should_retry, Traffic, plus_64, code_of,
}
use fair_mq.Zmq.Message.{ZmqMsg, ZmqMessage, get_size, realign}

-- The content of a part of a message.
abbrev pub Frame : Type 0
Frame = List ℕ

abbrev pub count_sent : ℕ → Traffic → Traffic
count_sent n t = record t { messages_tx = plus_64 t.messages_tx 1; bytes_tx = plus_64 t.bytes_tx n }

abbrev pub count_received : ℕ → Traffic → Traffic
count_received n t = record t {
  messages_rx = plus_64 t.messages_rx 1;
  bytes_rx = plus_64 t.bytes_rx n;
}

-- Send of one message, by its content and by how the attempts end. A sent message is left empty.
unfoldable pub send_message : Outcome → Frame → ℕ → Traffic → Frame × Traffic × Transfer
send_message arrived f size t = ([], count_sent size t, transferred size)
send_message refused f size t = (f, t, code_of refused)
send_message expired f size t = (f, t, code_of expired)
send_message stopped f size t = (f, t, code_of stopped)

-- Receive of one message, by what is received; none where Realign throws std::bad_alloc.
unfoldable pub receive_message :
    (ℕ → Option ℕ)
    → Bool
    → ZmqMsg
    → Outcome
    → ZmqMsg
    → ZmqMessage
    → Traffic
    → Option (ZmqMessage × Traffic × Transfer)
unfolding get_size
receive_message malloc ok blank arrived incoming m t =
    elim (realign malloc ok blank (record m { msg = incoming })) [
      | none ↦ none
      | some m' ↦ some (m', count_received (get_size m') t, transferred (get_size m'))
    ]
receive_message malloc ok blank refused incoming m t = some (m, t, code_of refused)
receive_message malloc ok blank expired incoming m t = some (m, t, code_of expired)
receive_message malloc ok blank stopped incoming m t = some (m, t, code_of stopped)

-- How a pass over the parts ends: with all of them, or it is to be repeated, or the call returns.
pub data Stop : Type 0 where
  all_moved repeat : Stop
  ended : Outcome → Stop

-- A pass of Send: the parts as it leaves them, what was sent with ZMQ_SNDMORE or not, totalSize, the
-- next call, and the elapsed time.
pub record SendPass : Type 0 where
  pub parts : List Frame
  pub wire : List (Frame × Bool)
  pub total : ℕ
  pub next : ℕ
  pub elapsed : ℕ
  pub stop : Stop

abbrev pub stop_at : List Frame → ℕ → ℕ → ℕ → Stop → SendPass
stop_at fs n k e s = record { parts = fs; wire = []; total = n; next = k; elapsed = e; stop = s }

abbrev pub has_more : List Frame → Bool
has_more [] = false
has_more (f ∷ fs) = true

abbrev pub put_first : Frame → Bool → SendPass → SendPass
put_first f more p = record p { parts = [] ∷ p.parts; wire = (f, more) ∷ p.wire }

-- The parts, the content that was sent, how Send ends, and what it returns then.
pub record SentParts : Type 0 where
  pub parts : List Frame
  pub wire : List (Frame × Bool)
  pub outcome : Outcome
  pub total : ℕ

pub record ReceivedParts : Type 0 where
  pub parts : List Frame
  pub outcome : Outcome
  pub total : ℕ

-- `calls k` is the k-th call, `interruption k` what Interrupted() returns after it, and `nbytes` what
-- a call returns that moves a part. totalSize is an int64_t, which the sizes do not exceed.
module _ (calls : ℕ → Call) (interruption : ℕ → Bool) (nbytes : Frame → ℕ) (wait : ℤ) where
  unfoldable pub send_pass : List Frame → ℕ → ℕ → ℕ → SendPass
  send_pass [] n k e = stop_at [] n k e all_moved
  send_pass (f ∷ fs) n k e =
      let rest = send_pass fs (n + nbytes f) (suc k) e in
      let (retry, e') = should_retry (dont_wait wait) wait e in
      elim (calls k) [
        | moved ↦ put_first f (has_more fs) rest
        | failed ↦ stop_at (f ∷ fs) n (suc k) e (ended refused)
        | again ↦
            if interruption k
            then stop_at (f ∷ fs) n (suc k) e (ended stopped)
            else stop_at (f ∷ fs) n (suc k) e' (if retry then repeat else ended expired)
      ]

  -- The loop of Send for several parts, on fuel for the passes; `sent` is the content of those before.
  unfoldable pub send_vector : ℕ → List Frame → List (Frame × Bool) → ℕ → ℕ → Option SentParts
  send_vector zero fs sent k e = none
  send_vector (suc fuel) fs sent k e =
      let p = send_pass fs 0 k e in
      let rest = send_vector fuel p.parts (sent ++ p.wire) p.next p.elapsed in
      elim p.stop [
        | all_moved ↦
            some (record {
              parts = p.parts;
              wire = sent ++ p.wire;
              outcome = arrived;
              total = p.total;
            })
        | repeat ↦ rest
        | ended o ↦ some (record { parts = p.parts; wire = sent ++ p.wire; outcome = o; total = 0 })
      ]

  -- The loops of Receive, on fuel for the calls: what the k-th call receives, and whether ZMQ_RCVMORE
  -- holds after it. A repetition starts totalSize again, and keeps the parts. The new parts have no
  -- alignment, so Realign leaves them.
  unfoldable pub receive_vector :
      (ℕ → Frame) → (ℕ → Bool) → ℕ → List Frame → ℕ → ℕ → ℕ → Option ReceivedParts
  receive_vector frame more zero fs n k e = none
  receive_vector frame more (suc fuel) fs n k e =
      let (retry, e') = should_retry (dont_wait wait) wait e in
      let got = fs ++ frame k ∷ [] in
      let n' = n + nbytes (frame k) in
      let on = receive_vector frame more fuel got n' (suc k) e in
      let repeated = receive_vector frame more fuel fs 0 (suc k) e' in
      elim (calls k) [
        | moved ↦
            if more k then on else some (record { parts = got; outcome = arrived; total = n' })
        | failed ↦ some (record { parts = fs; outcome = refused; total = 0 })
        | again ↦
            if interruption k
            then some (record { parts = fs; outcome = stopped; total = 0 })
            else if retry
            then repeated
            else some (record { parts = fs; outcome = expired; total = 0 })
      ]

-- What Send and Receive of several parts count and return.
abbrev pub result_of : Outcome → ℕ → Transfer
result_of arrived n = transferred n
result_of refused n = code_of refused
result_of expired n = code_of expired
result_of stopped n = code_of stopped

unfoldable pub finish_sending : SentParts → Traffic → Traffic × Transfer
finish_sending r t = (
  elim r.outcome [ arrived ↦ count_sent r.total t | refused ↦ t | expired ↦ t | stopped ↦ t ],
  result_of r.outcome r.total,
)

unfoldable pub finish_receiving : ReceivedParts → Traffic → Traffic × Transfer
finish_receiving r t = (
  elim r.outcome [ arrived ↦ count_received r.total t | refused ↦ t | expired ↦ t | stopped ↦ t ],
  result_of r.outcome r.total,
)
