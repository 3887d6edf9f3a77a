-- ===== src/Shmem/Regions/Cache/Stale.antt =====
-- What GetRegionFromCache (fairmq/shmem/Manager.h) gives beside a RemoveRegion of another thread:
-- RemoveRegion changes the generation after it has released its locks, and GetRegionFromCache reads it
-- again after GetRegion has returned.
use fair_mq.Prelude.{ℕ, ◌≡◌, ap, ◌∙◌, Bool-cases, inl, inr, none, some}
use fair_mq.Shmem.Regions.{Manager, Region, Info, remove_from_maps, mark_destroyed, put-same}
use fair_mq.Shmem.Regions.Cache.{Cache, first_usable, get_region_from_cache}
use fair_mq.Shmem.Regions.Cache.Live.{cache-hit}
use fair_mq.Shmem.Regions.Outcomes.{remove_from_maps-generation}

removed :
    (id : ℕ) (m : Manager) (r : Region) (i : Info)
    → m.regions id ≡ some r
    → m.session.registry id ≡ some i
    → (remove_from_maps id m).regions id ≡ none
unfolding remove_from_maps mark_destroyed
removed id m r i h k = elim (Bool-cases r.remove_on_destruction) [
  | inl d ↦ rw (remove_from_maps, h, d, mark_destroyed, k) (put-same id none m.regions)
  | inr d ↦ rw (remove_from_maps, h, d) (put-same id none m.regions)
]

-- A cached region, after another thread's RemoveRegion has released its locks and before it changes
-- the generation: the region is not there any more, and the cache still gives its address.
pub given_before_change :
    (sid id p address : ℕ) (m : Manager) (c : Cache) (r : Region) (i : Info)
    → m.regions id ≡ some r
    → m.session.registry id ≡ some i
    → first_usable sid id m.generation c c.entries ≡ some (some p)
    → ((remove_from_maps id m).regions id ≡ none)
      × ((get_region_from_cache sid address id (remove_from_maps id m) c).found ≡ some p)
given_before_change sid id p address m c r i h k u = (
  removed id m r i h k,
  ap (λ l. l.found)
      (cache-hit sid (remove_from_maps id m) c address id (some p)
        (ap (λ g. first_usable sid id g c c.entries) (remove_from_maps-generation id m) ∙ u)),
)
