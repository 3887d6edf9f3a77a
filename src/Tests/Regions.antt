-- ===== src/Tests/Regions.antt =====
-- Unmanaged regions and the allocation of buffers (fairmq/shmem/Manager.h) on concrete values.
use fair_mq.Prelude.{ℕ, ◌≡◌, refl, true, false, Option, none, some, List, [], ◌∷◌, arith, pos, ◌==◌}
use fair_mq.Shmem.Regions.{
  Manager, Session, Info, Region, RegionConfig, create_region, remove_region, put,
}
use fair_mq.Shmem.Regions.Cache.{Cache, first_usable}
use fair_mq.Shmem.Regions.Cache.Live.{Reach}
use fair_mq.Shmem.Regions.Cache.Live.Reach.{created}
use fair_mq.Shmem.Regions.Events.{
  RegionEvent, RegionKey, Reported, polls, polls-Reported, no_events, calls_for,
}
use fair_mq.Shmem.Regions.Events.{Info as Seen}
use fair_mq.Shmem.Allocate.{allocate, allocate-Ends, Ends, limit}

abbrev new_session : Session
new_session = record {
  objects = λ k. none;
  files = λ k. none;
  registry = λ k. none;
  counter = none;
  events = 0;
}

abbrev new_manager : Manager
new_manager = record { session = new_session; regions = λ k. none; generation = 0 }

abbrev with_id : RegionConfig
with_id = record { id = some 7; in_file = false; rc_segment_size = 0; remove_on_destruction = true }

abbrev in_a_file : RegionConfig
in_a_file = record {
  id = some 7;
  in_file = true;
  rc_segment_size = 0;
  remove_on_destruction = true;
}

abbrev registered : Info
registered = record { in_file = false; size = 100; rc_segment_size = 0; destroyed = false }

-- Another process has registered a region with the id 7.
abbrev other_session : Session
other_session = record {
  objects = put 7 (some 100) (λ k. none);
  files = λ k. none;
  registry = put 7 (some registered) (λ k. none);
  counter = none;
  events = 1;
}

abbrev empty_cache : Cache
empty_cache = record { generation = 0; entries = [] }

abbrev one_region : Manager
one_region = (create_region 5000 100 with_id new_manager).0.0

abbrev a_region : Region
a_region = record {
  address = 5000;
  controlling = true;
  remove_on_destruction = true;
  in_file = false;
  rc_segment_size = 0;
}

abbrev has_region : Manager
has_region = record {
  session = other_session;
  regions = put 7 (some a_region) (λ k. none);
  generation = 1;
}

nothing_cached : first_usable 9 7 0 empty_cache [] ≡ none
unfolding first_usable
nothing_cached = refl

other_registered : other_session.registry 7 ≡ some registered
unfolding put
other_registered = refl

other_object : other_session.objects 7 ≡ some 100
unfolding put
other_object = refl

abbrev and_removed : Manager
and_removed = remove_region 7 one_region

abbrev file_region : Manager × Option Region
file_region = (create_region 5000 100 in_a_file new_manager).0

abbrev region_one : RegionKey
region_one = record { id = 1; managed = false }

abbrev rounds : List (ℕ × List Seen)
rounds =
    (1, record { key = region_one; event = RegionEvent.created } ∷ [])
    ∷ (2, record { key = region_one; event = RegionEvent.destroyed } ∷ [])
    ∷ []

polls-Reported_example :
    Reported
      ((polls rounds no_events).observed region_one)
      (calls_for region_one (polls rounds no_events).calls)
polls-Reported_example = polls-Reported rounds region_one

abbrev third_time : ℕ → Option ℕ
third_time i = elim (i == 2) [ true ↦ some 40 | false ↦ none ]

allocate-Ends_example :
    Ends 3 third_time (λ i. false) (allocate 100 1000 (pos 3) third_time (λ i. false) 3 0 0)
unfolding limit
allocate-Ends_example = allocate-Ends 100 1000 3 third_time (λ i. false) 3 refl (omega arith)
