-- ===== src/Tests/Acks.antt =====
-- Blocks of a region on their way back (fairmq/shmem/UnmanagedRegion.h), on a concrete run.
use mathlib.Core.List.{Memᴰ}
use fair_mq.Prelude.{◌+◌, ◌≡◌, refl, Bool, false, List, [], ◌==◌, pos}
use fair_mq.Shmem.Store.{Block}
use fair_mq.Shmem.Acks.{
  Acks, initial, collecting, release_block, collect, Steps, released, collected, stay, go,
}
use fair_mq.Shmem.Acks.Accounting.{count, count_all, held, blocks_accounted}
use fair_mq.Shmem.Acks.Bunches.{Fits, bunches_fit}
use fair_mq.Shmem.Acks.Draining.{can_deliver_all}

abbrev block : Block
block = record { region = 1; handle = pos 64; size = 10; hint = 0 }

unfoldable one_released : Acks
one_released = release_block block initial

unfoldable one_taken : Acks
one_taken = collect one_released

still_collecting : one_released.sender ≡ collecting
unfolding one_released release_block
still_collecting = refl

run_to_taken : Steps initial one_taken
unfolding one_taken one_released
run_to_taken =
    go initial one_released one_taken (released block initial) (
      go one_released one_taken one_taken (collected one_released still_collecting)
        (stay one_taken))

abbrev of_region_one : Block → Bool
of_region_one b = b.region == 1

blocks_accounted_example :
    count of_region_one one_taken.released
    ≡ count of_region_one one_taken.delivered
      + count_all of_region_one one_taken.queue
      + count of_region_one (held one_taken.sender)
      + count of_region_one one_taken.to_free
      + count of_region_one one_taken.dropped
blocks_accounted_example = blocks_accounted of_region_one one_taken run_to_taken

bunches_fit_example :
    ((m : List Block) → Memᴰ m one_taken.queue → Fits m)
    × (one_taken.stop ≡ false → one_taken.dropped ≡ [])
bunches_fit_example = bunches_fit one_taken run_to_taken

can_deliver_all_example :
    (b : Acks) × (Steps one_taken b
      × ((b.released ≡ one_taken.released)
          × ((t : Block → Bool) → count t b.delivered ≡ count t one_taken.released)))
unfolding one_taken one_released release_block collect
can_deliver_all_example = can_deliver_all one_taken run_to_taken refl
