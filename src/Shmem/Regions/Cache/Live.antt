-- ===== src/Shmem/Regions/Cache/Live.antt =====
-- The regions that the cache of a thread (fairmq/shmem/Manager.h, GetRegionFromCache) gives are those
-- of the manager, as long as no call overlaps with another one (Stale has what happens otherwise).
use mathlib.Core.List.{Memᴰ}
use fair_mq.Prelude.{ℕ, suc, ◌≤◌, ◌≡◌, ◌≢◌, refl, false, Option, none, some, List, [], ◌∷◌, ◌++◌}
use fair_mq.Shmem.Regions.{
  address_of, Manager, RegionConfig, Session, get_region, create_region, remove_region,
  increment_64,
}
use fair_mq.Shmem.Regions.Cache.{
  Cache, Entry, get_region_from_cache, first_usable, forget, remember,
}

-- What happens to one manager and the cache of one thread, where the calls of CreateRegion,
-- RemoveRegion, GetRegion and GetRegionFromCache by all threads come one after the other: the calls of the manager by any thread
-- (`looked` by this one), the other processes of the session, and other managers of the process,
-- which use the generation and, in this thread, the cache. The number is that of the calls that can
-- change the generation.
pub data Reach (session_id : ℕ) : ℕ → Manager → Cache → Type 0 where
  start :
      {m : Manager}
      → m.generation ≡ 0
      → Reach session_id 0 m (record { generation = 0; entries = [] })
  created :
      {n : ℕ} {m : Manager} {c : Cache} (address size : ℕ) (cfg : RegionConfig)
      → Reach session_id n m c
      → Reach session_id (suc n) (create_region address size cfg m).0.0 c
  removed :
      {n : ℕ} {m : Manager} {c : Cache} (id : ℕ)
      → Reach session_id n m c
      → Reach session_id (suc n) (remove_region id m) c
  got :
      {n : ℕ} {m : Manager} {c : Cache} (address id : ℕ)
      → Reach session_id n m c
      → Reach session_id n (get_region address id m).0.0 c
  looked :
      {n : ℕ} {m : Manager} {c : Cache} (address id : ℕ)
      → Reach session_id n m c
      → Reach session_id n
          (get_region_from_cache session_id address id m c).manager
          (get_region_from_cache session_id address id m c).cache
  elsewhere :
      {n : ℕ} {m : Manager} {c : Cache} (s : Session)
      → Reach session_id n m c
      → Reach session_id n (record m { session = s }) c
  other_changed :
      {n : ℕ} {m : Manager} {c : Cache}
      → Reach session_id n m c
      → Reach session_id (suc n) (record m { generation = increment_64 m.generation }) c
  other_looked :
      {n : ℕ} {m : Manager} {c : Cache} (e : Entry)
      → e.session_id ≢ session_id
      → Reach session_id n m c
      → Reach session_id n m
          (record { generation = m.generation; entries = forget m.generation c ++ e ∷ [] })

-- An entry of this session with an address has the one of the manager's region.
Valid : ℕ → Manager → Entry → Type 0
Valid session_id m e =
    (p : ℕ) → e.session_id ≡ session_id → e.address ≡ some p → address_of (m.regions e.id) ≡ some p

record Good (session_id n : ℕ) (m : Manager) (c : Cache) : Type 0 where
  bounded : m.generation ≤ n
  behind : c.generation ≤ m.generation
  valid : c.generation ≡ m.generation → (e : Entry) → Memᴰ e c.entries → Valid session_id m e

module _ (sid : ℕ) (m : Manager) (c : Cache) where
  pub cache-hit :
      (address id : ℕ) (a : Option ℕ)
      → first_usable sid id m.generation c c.entries ≡ some a
      → get_region_from_cache sid address id m c
        ≡ record { manager = m; cache = c; found = a; threw = false }
  unfolding get_region_from_cache
  cache-hit address id a h = rw (get_region_from_cache, h) refl

  pub cache-miss :
      (address id : ℕ)
      → first_usable sid id m.generation c c.entries ≡ none
      → get_region_from_cache sid address id m c ≡ remember sid id c (get_region address id m)
  unfolding get_region_from_cache
  cache-miss address id h = rw (get_region_from_cache, h) refl
