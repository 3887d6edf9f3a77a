-- ===== src/Shmem/Regions/Cache.antt =====
-- GetRegionFromCache (fairmq/shmem/Manager.h): the cache of one thread in front of GetRegion. A call
-- is one function where no other call overlaps with it; `remember_late` is its end where the
-- generation has changed since its beginning.
pub mod Live
pub mod Failed
pub mod Stale
use fair_mq.Prelude.{
  ℕ, suc, ◌+◌, ◌<◌, ◌≤◌, ◌≡◌, ◌≢◌, ◌⊎◌, refl, sym, ap, ◌∙◌, inl, inr, Bool, true, false, not, ◌&&◌,
  ◌||◌, Bool-cases, Option, Option-cases, none, some, List, [], ◌∷◌, ◌++◌, if◌then◌else◌, ◌==◌,
  ==_iff, arith,
}
use fair_mq.Shmem.Regions.{
  Manager, Region, RegionConfig, Session, Info, get_region, create_region, remove_region,
  create_with, remove_from_maps, put, increment_64, open_region, choose_id, address_of,
}

-- An entry of fRegionsTLCache: the region's address, none for nullptr, its id, and the session's.
pub record Entry : Type 0 where
  pub address : Option ℕ
  pub id : ℕ
  pub session_id : ℕ

-- fTlRegionCache
pub record Cache : Type 0 where
  pub generation : ℕ
  pub entries : List Entry

unfoldable pub usable : ℕ → ℕ → ℕ → Cache → Entry → Bool
usable session_id id generation c e =
    e.id == id && c.generation == generation && e.session_id == session_id

-- The loop of the fast path: the address of the first entry that passes the test.
unfoldable pub first_usable : ℕ → ℕ → ℕ → Cache → List Entry → Option (Option ℕ)
unfolding usable
first_usable session_id id generation c [] = none
first_usable session_id id generation c (e ∷ es) =
    let rest = first_usable session_id id generation c es in
    if usable session_id id generation c e then some (e.address) else rest

unfoldable pub forget : ℕ → Cache → List Entry
forget generation c = if c.generation == generation then c.entries else []

-- What a call leaves: the manager, the cache, the result, and whether it threw.
pub record Looked : Type 0 where
  pub manager : Manager
  pub cache : Cache
  pub found : Option ℕ
  pub threw : Bool

-- The entry for the result of GetRegion. The entries are cleared by the generation before GetRegion,
-- and the new generation is read after it.
unfoldable pub remember_late : ℕ → ℕ → ℕ → ℕ → Cache → Option Region → Cache
unfolding forget address_of
remember_late session_id id before after c o = record {
  generation = after;
  entries =
      forget before c ++ record { address = address_of o; id = id; session_id = session_id } ∷ [];
}

-- After GetRegion: the result is kept, also nullptr, unless GetRegion threw.
unfoldable pub remember : ℕ → ℕ → Cache → (Manager × Option Region) × Bool → Looked
unfolding forget address_of remember_late
remember session_id id c ((m, o), true) = record {
  manager = m;
  cache = record c { entries = forget m.generation c };
  found = none;
  threw = true;
}
remember session_id id c ((m, o), false) = record {
  manager = m;
  cache = remember_late session_id id m.generation m.generation c o;
  found = address_of o;
  threw = false;
}

-- `address` is where a new view would be.
unfoldable pub get_region_from_cache : ℕ → ℕ → ℕ → Manager → Cache → Looked
get_region_from_cache session_id address id m c =
    elim (first_usable session_id id m.generation c c.entries) [
      | some a ↦ record { manager = m; cache = c; found = a; threw = false }
      | none ↦ remember session_id id c (get_region address id m)
    ]
