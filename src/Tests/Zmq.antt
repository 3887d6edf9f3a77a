-- ===== src/Tests/Zmq.antt =====
-- The ZeroMQ transport (fairmq/zeromq) on concrete values.
use fair_mq.Prelude.{
  ℕ, ◌≡◌, ◌++◌, refl, Bool, true, false, Option, none, some, [], ◌∷◌, length, map, pos, negsuc, ltb,
  ◌==◌, if◌then◌else◌,
}
use fair_mq.Shmem.Socket.{Call, moved, again, arrived, transferred, should_retry, dont_wait}
use fair_mq.Tests.Socket.{no_traffic}
use fair_mq.Zmq.Message.{ZmqMsg, ZmqMessage, set_used_size}
use fair_mq.Zmq.Socket.{Frame, send_vector, count_sent, count_received}
use fair_mq.Zmq.Socket.Passes.{framed, with_more, emptied, total_of}
use fair_mq.Zmq.Socket.Sending.{Waits, send_vector_sends_twice}
use fair_mq.Zmq.Containers.{send_container, receive_container, receive_container-send_container}

-- A malloc that has one block, and a message of two bytes at an odd address.
abbrev one_block : ℕ → Option ℕ
one_block n = if ltb n 1000 then some 4104 else none

abbrev at_odd : ZmqMessage
at_odd = record { msg = record { address = 3; bytes = 7 ∷ 8 ∷ []; hint = none }; alignment = 16 }

abbrev not_made : ZmqMsg
not_made = record { address = 0; bytes = []; hint = none }

abbrev at_multiple : ZmqMessage
at_multiple = record {
  msg = record { address = 4112; bytes = 7 ∷ 8 ∷ []; hint = some 4104 };
  alignment = 0;
}

shrinks_once : (set_used_size true 1 at_odd).1.msg.bytes ≡ 7 ∷ []
unfolding set_used_size
shrinks_once = refl

-- Only the second call moves nothing.
abbrev not_the_second : ℕ → Call
not_the_second k = if k == 1 then again else moved

abbrev never : ℕ → Bool
never k = false

retries : (should_retry (dont_wait (negsuc 0)) (negsuc 0) 0).0 ≡ true
unfolding should_retry dont_wait
retries = refl

send_vector_sends_twice_example :
    send_vector not_the_second never length
      (negsuc 0)
      2
      (((7 ∷ 8 ∷ []) ∷ []) ++ (9 ∷ []) ∷ [])
      []
      0
      0
    ≡ some (record {
      parts = map emptied (map emptied ((7 ∷ 8 ∷ []) ∷ []) ++ (9 ∷ []) ∷ []);
      wire =
          map with_more ((7 ∷ 8 ∷ []) ∷ [])
          ++ framed (map emptied ((7 ∷ 8 ∷ []) ∷ []) ++ (9 ∷ []) ∷ []);
      outcome = arrived;
      total = total_of length (map emptied ((7 ∷ 8 ∷ []) ∷ []) ++ (9 ∷ []) ∷ []);
    })
send_vector_sends_twice_example =
    send_vector_sends_twice not_the_second never length (negsuc 0) (7 ∷ 8 ∷ []) [] (9 ∷ []) []
      (refl, tt) refl refl retries (refl, (refl, tt))

-- Only the first call moves nothing.
abbrev not_the_first : ℕ → Call
not_the_first k = if k == 0 then again else moved

not_the_first-Waits : Waits not_the_first never length (pos 250) 0 0 1
unfolding Waits should_retry dont_wait
not_the_first-Waits = ((refl, refl, refl), tt)

abbrev incoming : ℕ → Frame
incoming k = if k == 1 then 7 ∷ 8 ∷ [] else 9 ∷ []

abbrev more_after : ℕ → Bool
more_after k = k == 1

receive_container-send_container_example :
    (send_container not_the_first never length (pos 250) 2 ((7 ∷ 8 ∷ []) ∷ (9 ∷ []) ∷ []) no_traffic
      ≡ some (record {
        parts = map emptied ((7 ∷ 8 ∷ []) ∷ (9 ∷ []) ∷ []);
        wire = framed ((7 ∷ 8 ∷ []) ∷ (9 ∷ []) ∷ []);
        traffic = count_sent (total_of length ((7 ∷ 8 ∷ []) ∷ (9 ∷ []) ∷ [])) no_traffic;
        result = transferred (total_of length ((7 ∷ 8 ∷ []) ∷ (9 ∷ []) ∷ []));
      }))
    × (receive_container not_the_first never length
          (pos 250)
          3
          incoming
          more_after
          ((1 ∷ []) ∷ [])
          no_traffic
        ≡ some (
          ((1 ∷ []) ∷ []) ++ (7 ∷ 8 ∷ []) ∷ (9 ∷ []) ∷ [],
          count_received (total_of length ((7 ∷ 8 ∷ []) ∷ (9 ∷ []) ∷ [])) no_traffic,
          transferred (total_of length ((7 ∷ 8 ∷ []) ∷ (9 ∷ []) ∷ [])),
        ))
receive_container-send_container_example =
    receive_container-send_container not_the_first not_the_first never never length (pos 250)
      (pos 250) 1 1 (7 ∷ 8 ∷ []) (9 ∷ []) [] ((1 ∷ []) ∷ []) incoming more_after no_traffic
      no_traffic not_the_first-Waits (refl, (refl, tt)) not_the_first-Waits
      ((refl, refl, refl), ((refl, refl, refl), tt))
