-- ===== src/Shmem/Store.antt =====
-- The shared memory that messages refer to: the reference counts that shmem/Common.h keeps in the
-- headers of managed buffers (ShmHeader) and in the objects of a region's reference count segment
-- (RefCount), the regions (shmem/Manager.h) and the blocks given back to them.
use fair_mq.Prelude.{
  ℕ, ◌+◌, ◌%◌, Bool, true, false, Option, none, some, List, [], ◌∷◌, ◌++◌, ℤ, if◌then◌else◌, ◌==◌,
}
use mathlib.Core.Logic.{ite}
use native.Mathlib.Decide.{ℕ_discrete}

-- Where a count is kept: in the header of a buffer, by the segment and its handle, or in the
-- reference count segment of a region.
pub data Key : Type 0 where
  buffer : ℕ → ℤ → Key
  region_count : ℕ → ℤ → Key

pub Key-discrete : Discrete Key
Key-discrete = hlevel ℕ_discrete

-- RegionBlock, with the id of its region.
pub record Block : Type 0 where
  pub region : ℕ
  pub handle : ℤ
  pub size : ℕ
  pub hint : ℕ

-- `count k` is none where nothing is allocated. `rc_segment_size` is none where no region of that
-- id can be found.
pub record Store : Type 0 where
  pub count : Key → Option ℕ
  pub rc_segment_size : ℕ → Option ℕ
  pub released : List Block

pub data Error : Type 0 where
  transport_error ref_count_bad_alloc message_bad_alloc : Error
  -- an address that is not allocated is used
  dangling : Error

unfoldable pub put : Key → Option ℕ → Store → Store
put k v w = record w { count = λ j. ite (Key-discrete j k) v (w.count j) }

-- std::atomic<uint16_t>: fetch_add(1) and fetch_sub(1)
abbrev pub fetch_add : ℕ → ℕ
fetch_add n = (n + 1) % 65536

abbrev pub fetch_sub : ℕ → ℕ
fetch_sub n = (n + 65535) % 65536

-- IncrementRefCount and RefCount::Increment
unfoldable pub increment : Key → Store → Store × Option Error
increment k w = elim (w.count k) [
  | none ↦ (w, some dangling)
  | some n ↦ (put k (some (fetch_add n)) w, none)
]

-- Decrement, and deallocate what held the count if the old count was 1. The Bool says whether it was.
unfoldable pub decrement : Key → Store → (Store × Bool) × Option Error
decrement k w = elim (w.count k) [
  | none ↦ ((w, false), some dangling)
  | some n ↦
      if n == 1 then ((put k none w, true), none) else ((put k (some (fetch_sub n)) w, false), none)
]

-- UnmanagedRegion::ReleaseBlock, unless the region is not found.
unfoldable pub release_block : Block → Store → Store
release_block b w = elim (w.rc_segment_size b.region) [
  | none ↦ w
  | some n ↦ record w { released = w.released ++ b ∷ [] }
]
