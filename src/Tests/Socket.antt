-- ===== src/Tests/Socket.antt =====
-- Sockets of the shared memory transport (fairmq/shmem/Socket.h) on concrete values.
use fair_mq.Prelude.{ℕ, ◌≡◌, refl, true, false, some, List, [], ◌∷◌, ◌++◌, map, pos, arith, ◌==◌}
use fair_mq.Shmem.Message.{MetaHeader, Message, mark_queued, empty_message, initialize_chunk}
use fair_mq.Shmem.Message.Counting.{Counted}
use fair_mq.Shmem.Socket.{
  Call, moved, again, attempts, Traffic, arrived, send_parts, receive_parts, PartsReceived,
}
use fair_mq.Tests.Shmem.{blank, filled, filled_store, filled-Counted}
use fair_mq.Shmem.Socket.Attempts.{EndsAt, attempts-EndsAt}
use fair_mq.Shmem.Socket.Parts.{Unsent, AllDescribe, receive_parts-send_parts}

abbrev third_moves : ℕ → Call
third_moves i = elim (i == 2) [ true ↦ moved | false ↦ again ]

attempts-EndsAt_example :
    EndsAt 250 third_moves (λ i. false) (attempts third_moves (λ i. false) (pos 250) 3 0 0)
attempts-EndsAt_example =
    attempts-EndsAt third_moves (λ i. false) 250 3 (omega arith) (omega arith) (omega arith)

abbrev pub no_traffic : Traffic
no_traffic = record { bytes_tx = 0; bytes_rx = 0; messages_tx = 0; messages_rx = 0 }

abbrev two_parts : List Message
two_parts = filled ∷ blank ∷ []

two_parts-Unsent : Unsent two_parts
unfolding Unsent initialize_chunk empty_message
two_parts-Unsent = (refl, (refl, tt))

receive_parts-send_parts_example :
    let sent = send_parts arrived (map some two_parts) no_traffic in
    (hs : List MetaHeader) × (xs : List Message) × (r : PartsReceived) × (sent.wire ≡ some hs)
    × (sent.parts ≡ map some (map mark_queued two_parts))
    × (receive_parts true arrived hs [] no_traffic ≡ some r)
    × (r.parts ≡ [] ++ map some xs)
    × AllDescribe xs two_parts
    × (r.result ≡ sent.result)
    × Counted filled_store (xs ++ (map mark_queued two_parts ++ []))
receive_parts-send_parts_example =
    receive_parts-send_parts true filled (blank ∷ []) [] filled_store [] no_traffic no_traffic
      two_parts-Unsent filled-Counted
