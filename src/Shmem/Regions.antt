-- ===== src/Shmem/Regions.antt =====
-- Unmanaged regions: the maps of a session and of one manager (fairmq/shmem/Manager.h), and the
-- constructor and destructor of a region (fairmq/shmem/UnmanagedRegion.h) as far as they concern
-- names in the session. The operating system grants what it is asked for; the memory, its locking
-- and zeroing, the segments of reference counts and the threads for blocks are not here.
pub mod Cache
pub mod Outcomes
pub mod Life
pub mod Lost
pub mod Events
use fair_mq.Prelude.{
  ℕ, ◌+◌, ◌%◌, Bool, true, false, not, ◌&&◌, ◌||◌, Option, none, some, if◌then◌else◌, ◌==◌, ==_iff,
  ◌≡◌, refl,
}

-- RegionInfo of shmem/Common.h
pub record Info : Type 0 where
  pub in_file : Bool
  pub size : ℕ
  pub rc_segment_size : ℕ
  pub destroyed : Bool

-- What the processes of a session share: the shared memory objects and the files of the regions by
-- region id, with their sizes, fShmRegions, the RegionCounter if there is one, and the EventCounter.
pub record Session : Type 0 where
  pub objects : ℕ → Option ℕ
  pub files : ℕ → Option ℕ
  pub registry : ℕ → Option Info
  pub counter : Option ℕ
  pub events : ℕ

-- UnmanagedRegion, by its address.
pub record Region : Type 0 where
  pub address : ℕ
  pub controlling : Bool
  pub remove_on_destruction : Bool
  pub in_file : Bool
  pub rc_segment_size : ℕ

-- RegionConfig; `in_file` says that its path is not empty.
pub record RegionConfig : Type 0 where
  pub id : Option ℕ
  pub in_file : Bool
  pub rc_segment_size : ℕ
  pub remove_on_destruction : Bool

-- A manager: the session, fRegions, and the generation that all managers of the process share.
pub record Manager : Type 0 where
  pub session : Session
  pub regions : ℕ → Option Region
  pub generation : ℕ

-- The assignment m[k] = v, or with none the removal of the key.
unfoldable pub put {ℓ} : {A : Type ℓ} → ℕ → Option A → (ℕ → Option A) → ℕ → Option A
put k v m j = if k == j then v else m j

pub put-same {ℓ} : {A : Type ℓ} (k : ℕ) (v : Option A) (m : ℕ → Option A) → put k v m k ≡ v
unfolding put
put-same k v m = rw ((==_iff k k).1 refl) refl

pub put-other {ℓ} :
    {A : Type ℓ} (k j : ℕ) (v : Option A) (m : ℕ → Option A) → (k == j) ≡ false → put k v m j ≡ m j
unfolding put
put-other k j v m h = rw h refl

-- ++ of a uint16_t, a uint64_t and an unsigned long
abbrev pub increment_16 : ℕ → ℕ
increment_16 n = (n + 1) % 65536

abbrev pub increment_64 : ℕ → ℕ
increment_64 n = (n + 1) % 18446744073709551616

unfoldable pub new_region : ℕ → Bool → RegionConfig → Region
new_region address controlling cfg = record {
  address = address;
  controlling = controlling;
  remove_on_destruction = cfg.remove_on_destruction;
  in_file = cfg.in_file;
  rc_segment_size = cfg.rc_segment_size;
}

-- Register, none where it throws
unfoldable pub register : ℕ → ℕ → RegionConfig → Session → Option Session
unfolding put
register id size cfg s = elim (s.registry id) [
  | some i ↦ none
  | none ↦ some (record s {
    registry =
        put id
          (some (record {
            in_file = cfg.in_file;
            size = size;
            rc_segment_size = cfg.rc_segment_size;
            destroyed = false;
          }))
          s.registry;
    events = increment_64 s.events;
  })
]

-- The constructor for a file: the controller writes it anew, the viewer needs it.
unfoldable pub open_file : ℕ → ℕ → ℕ → Bool → RegionConfig → Session → Session × Option Region
unfolding put new_region
open_file address id size controlling cfg s =
    if controlling
    then (
      record s { files = put id (some size) s.files },
      some (new_region address controlling cfg),
    )
    else elim (s.files id) [
      | none ↦ (s, none)
      | some n ↦ (s, some (new_region address controlling cfg))
    ]

-- The constructor for a shared memory object: it is opened, or else the controller creates it and
-- registers the region. What it created stays where Register throws, for the destructor does not
-- run.
unfoldable pub open_object : ℕ → ℕ → ℕ → Bool → RegionConfig → Session → Session × Option Region
unfolding put new_region
open_object address id size controlling cfg s = elim (s.objects id) [
  | some n ↦
      if size == 0 || size == n then (s, some (new_region address controlling cfg)) else (s, none)
  | none ↦
      if controlling
      then (let s₁ = record s { objects = put id (some size) s.objects } in
          elim (register id size cfg s₁) [
            | none ↦ (s₁, none)
            | some s₂ ↦ (s₂, some (new_region address controlling cfg))
          ])
      else (s, none)
]

-- UnmanagedRegion(shmId, size, controlling, cfg) at a new address, none where it throws
unfoldable pub open_region : ℕ → ℕ → ℕ → Bool → RegionConfig → Session → Session × Option Region
open_region address id size controlling cfg s =
    if cfg.in_file
    then open_file address id size controlling cfg s
    else open_object address id size controlling cfg s

-- ~UnmanagedRegion: RemoveObject and RemoveFileMapping of the region's name.
unfoldable pub close_region : ℕ → Region → Session → Session
unfolding put
close_region id r s =
    if r.controlling && r.remove_on_destruction
    then (if r.in_file
        then record s { files = put id none s.files }
        else record s { objects = put id none s.objects })
    else s

-- The id that CreateRegion takes from the RegionCounter.
unfoldable pub next_id : Session → ℕ × Session
next_id s = elim (s.counter) [
  | none ↦ (1024, record s { counter = some 1024 })
  | some n ↦ (increment_16 n, record s { counter = some (increment_16 n) })
]

unfoldable pub choose_id : Option ℕ → Session → ℕ × Session
choose_id none s = next_id s
choose_id (some id) s = (id, s)

-- What is known of the region in the session goes before the configuration.
unfoldable pub known_config : Option Info → RegionConfig → RegionConfig
known_config none cfg = cfg
known_config (some i) cfg = record cfg { rc_segment_size = i.rc_segment_size }

-- CreateRegion after the choice of the id, none where it throws: then the generation stays.
unfoldable pub create_with : ℕ → ℕ → ℕ → RegionConfig → Manager → Manager × Option Region
unfolding put known_config
create_with address id size cfg m = elim (m.regions id) [
  | some r ↦
      if r.controlling
      then (m, none)
      else (let r' = record r {
        controlling = true;
        remove_on_destruction = cfg.remove_on_destruction;
      } in
          (
            record m {
              regions = put id (some r') m.regions;
              generation = increment_64 m.generation;
            },
            some r',
          ))
  | none ↦
      let (s, o) =
        open_region address id size true (known_config (m.session.registry id) cfg) m.session in
      elim o [
        | none ↦ (record m { session = s }, none)
        | some r ↦ (
          record m {
            session = s;
            regions = put id (some r) m.regions;
            generation = increment_64 m.generation;
          },
          some r,
        )
      ]
]

-- CreateRegion: the id, and the region or none where it throws.
unfoldable pub create_region : ℕ → ℕ → RegionConfig → Manager → (Manager × Option Region) × ℕ
create_region address size cfg m =
    let (id, s) = choose_id cfg.id m.session in
    (create_with address id size cfg (record m { session = s }), id)

-- The configuration of a view, from what the session knows of the region.
unfoldable pub view_config : ℕ → Info → RegionConfig
view_config id i = record {
  id = some id;
  in_file = i.in_file;
  rc_segment_size = i.rc_segment_size;
  remove_on_destruction = true;
}

-- GetRegion, none for nullptr. The exception of the constructor for a view that cannot be opened,
-- a TransportError, is not caught: the Bool says that it is thrown.
unfoldable pub get_region : ℕ → ℕ → Manager → (Manager × Option Region) × Bool
unfolding put view_config
get_region address id m = elim (m.regions id) [
  | some r ↦ ((m, some r), false)
  | none ↦ elim (m.session.registry id) [
    | none ↦ ((m, none), false)
    | some i ↦
        let (s, o) = open_region address id 0 false (view_config id i) m.session in
        elim o [
          | none ↦ ((record m { session = s }, none), true)
          | some r ↦
              ((record m { session = s; regions = put id (some r) m.regions }, some r), false)
        ]
  ]
]

-- fShmRegions->at(id).fDestroyed = true, and one more event, none where `at` throws
unfoldable pub mark_destroyed : ℕ → Session → Option Session
unfolding put
mark_destroyed id s = elim (s.registry id) [
  | none ↦ none
  | some i ↦ some (record s {
    registry = put id (some (record i { destroyed = true })) s.registry;
    events = increment_64 s.events;
  })
]

-- The body of RemoveRegion. Where an `at` throws, the rest is left out.
unfoldable pub remove_from_maps : ℕ → Manager → Manager
unfolding put
remove_from_maps id m = elim (m.regions id) [
  | none ↦ m
  | some r ↦
      let marked : Option Session =
        if r.remove_on_destruction then mark_destroyed id m.session else some m.session in
      elim marked [
        | none ↦ m
        | some s ↦ record m { session = close_region id r s; regions = put id none m.regions }
      ]
]

unfoldable pub remove_region : ℕ → Manager → Manager
remove_region id m =
    let m' = remove_from_maps id m in record m' { generation = increment_64 m'.generation }

unfoldable pub address_of : Option Region → Option ℕ
address_of none = none
address_of (some r) = some r.address
