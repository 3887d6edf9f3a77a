-- ===== src/Tests/Tools.antt =====
-- The semaphore (fairmq/tools/Semaphore.cxx), buffers (fairmq/shmem/Common.h) and the messages of a
-- channel (fairmq/Channel.h) on concrete inputs.
use fair_mq.Prelude.{◌+◌, ◌≤◌, ◌%◌, ◌≡◌, refl, List, [], ◌∷◌, arith}
use fair_mq.Tools.Semaphore.{
  Event, wait_called, woken, signalled, run, new_semaphore, semaphore_balance,
}
use fair_mq.Shmem.Header.{construct, hdr_ptr, user_ptr, full_size, construct_layout}
use fair_mq.Channel.{zmq, shm}
use fair_mq.Channel.Compatibility.{Message, message}

abbrev two_waits : List Event
two_waits = wait_called ∷ wait_called ∷ signalled ∷ woken ∷ []

semaphore_balance_example :
    ((run two_waits (new_semaphore 1)).count + (run two_waits (new_semaphore 1)).passed ≡ 2)
    × ((run two_waits (new_semaphore 1)).blocked + (run two_waits (new_semaphore 1)).passed ≡ 2)
semaphore_balance_example = semaphore_balance 1 two_waits (omega arith)

construct_layout_example :
    (1000 + 2 ≤ hdr_ptr 1000 (construct 1000 64))
    × ((hdr_ptr 1000 (construct 1000 64) + 4 ≤ user_ptr 1000 (construct 1000 64))
        × ((user_ptr 1000 (construct 1000 64) + 500 ≤ 1000 + full_size 500 64)
            × (hdr_ptr 1000 (construct 1000 64) % 2 ≡ 0)))
construct_layout_example = construct_layout 1000 64 500 refl (omega arith)

abbrev parts : List Message
parts = message zmq 10 ∷ message shm 0 ∷ message shm 4 ∷ []
