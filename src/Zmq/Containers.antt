-- ===== src/Zmq/Containers.antt =====
-- Send and Receive of a container of parts (fairmq/zeromq/Socket.h), whatever the number of its parts.
use mathlib.Core.Option
use fair_mq.Prelude.{
  ℕ, suc, ◌+◌, ◌≡◌, ap, Bool, false, Option, some, List, [], ◌∷◌, ◌++◌, map, ℤ, length,
}
use fair_mq.Shmem.Socket.{
  Call, Outcome, arrived, refused, expired, stopped, Transfer, transferred, error, Traffic,
  attempts,
}
use fair_mq.Zmq.Socket.{
  Frame, SentParts, ReceivedParts, count_sent, count_received, send_message, send_vector,
  receive_vector, finish_sending, finish_receiving,
}
use fair_mq.Zmq.Socket.Passes.{framed, emptied, total_of, Moves}
use fair_mq.Zmq.Socket.Sending.{Waits, send_vector-Waits}
use fair_mq.Zmq.Socket.Receiving.{Arrives, each_and, receive_vector-Waits}

-- The parts afterwards, what was sent, the counters and what Send returns.
pub record SentContainer : Type 0 where
  pub parts : List Frame
  pub wire : List (Frame × Bool)
  pub traffic : Traffic
  pub result : Transfer

abbrev pub of_parts : Traffic → SentParts → SentContainer
of_parts t r = record {
  parts = r.parts;
  wire = r.wire;
  traffic = (finish_sending r t).0;
  result = (finish_sending r t).1;
}

-- One part, by how the attempts end.
unfoldable pub of_message : Frame → Traffic → Outcome → SentContainer
of_message f t o = record {
  parts = (send_message o f (length f) t).0 ∷ [];
  wire = elim o [ arrived ↦ (f, false) ∷ [] | refused ↦ [] | expired ↦ [] | stopped ↦ [] ];
  traffic = (send_message o f (length f) t).1;
  result = (send_message o f (length f) t).2;
}

module _ (calls : ℕ → Call) (interruption : ℕ → Bool) (nbytes : Frame → ℕ) (wait : ℤ)
    (fuel : ℕ) where
  -- Send of several parts, one or none
  unfoldable pub send_container : List Frame → Traffic → Option SentContainer
  unfolding of_message
  send_container [] t = some (record { parts = []; wire = []; traffic = t; result = error })
  send_container (f ∷ []) t =
      Option.map (of_message f t) (attempts calls interruption wait fuel 0 0)
  send_container (f ∷ g ∷ fs) t =
      Option.map (of_parts t) (send_vector calls interruption nbytes wait fuel (f ∷ g ∷ fs) [] 0 0)

  -- Receive of several parts behind those in the container
  unfoldable pub receive_container :
      (ℕ → Frame) → (ℕ → Bool) → List Frame → Traffic → Option (List Frame × Traffic × Transfer)
  receive_container frame more fs t =
      Option.map
        (λ (r : ReceivedParts). (r.parts, (finish_receiving r t).0, (finish_receiving r t).1))
        (receive_vector calls interruption nbytes wait frame more fuel fs 0 0 0)

-- Two or more parts that libzmq takes one after the other, after Send had to wait j times for the
-- first of them, and that arrive as they were sent, after Receive had to wait i times. Send sends
-- each once, in order, with ZMQ_SNDMORE on all but the last, and leaves them empty; Receive puts them
-- behind the parts in the container. Both return the size in all and count one message of that size.
pub receive_container-send_container :
    (calls calls' : ℕ → Call) (interruption interruption' : ℕ → Bool) (nbytes : Frame → ℕ)
    → (wait wait' : ℤ) (i j : ℕ) (f g : Frame) (gs fs : List Frame) (frame : ℕ → Frame)
      (more : ℕ → Bool)
    → (t t' : Traffic) → Waits calls interruption nbytes wait 0 0 j
    → Moves calls j (f ∷ g ∷ gs)
    → Waits calls' interruption' nbytes wait' 0 0 i
    → Arrives calls' frame more i (framed (f ∷ g ∷ gs))
    → (send_container calls interruption nbytes wait (suc j) (f ∷ g ∷ gs) t
        ≡ some (record {
          parts = map emptied (f ∷ g ∷ gs);
          wire = framed (f ∷ g ∷ gs);
          traffic = count_sent (total_of nbytes (f ∷ g ∷ gs)) t;
          result = transferred (total_of nbytes (f ∷ g ∷ gs));
        }))
      × (receive_container calls' interruption' nbytes wait'
            (i + each_and (f ∷ g ∷ gs) 0)
            frame
            more
            fs
            t'
          ≡ some (
            fs ++ f ∷ g ∷ gs,
            count_received (total_of nbytes (f ∷ g ∷ gs)) t',
            transferred (total_of nbytes (f ∷ g ∷ gs)),
          ))
unfolding send_container receive_container finish_sending finish_receiving
receive_container-send_container calls calls' interruption interruption' nbytes wait wait' i j f g
      gs fs frame more t t' w m w' a =
    (
      ap (Option.map (of_parts t))
          (send_vector-Waits calls interruption nbytes wait j f (g ∷ gs) w m),
      ap
          (Option.map (λ (r : ReceivedParts).
            (r.parts, (finish_receiving r t').0, (finish_receiving r t').1)))
          (receive_vector-Waits calls' interruption' nbytes wait' i f (g ∷ gs) fs frame more w' a),
    )
