-- ===== src/Shmem/Regions/Life.antt =====
-- The life of an unmanaged region in its session: CreateRegion and RemoveRegion
-- (fairmq/shmem/Manager.h) with what the region's constructor and destructor do
-- (fairmq/shmem/UnmanagedRegion.h).
use fair_mq.Prelude.{ℕ, ◌≡◌, refl, ap, ◌∙◌, true, false, none, some, if◌then◌else◌, ◌==◌, ==_iff}
use fair_mq.Channel.Address.{or_true}
use fair_mq.Shmem.Regions.Outcomes.{create_with-made, made}
use fair_mq.Shmem.Regions.{
  Manager, Session, Info, Region, RegionConfig, create_region, create_with, remove_region,
  remove_from_maps, open_region, open_object, open_file, register, close_region, mark_destroyed,
  new_region, known_config, choose_id, put, put-same, increment_64,
}

-- What Register writes.
unfoldable pub new_info : ℕ → RegionConfig → Info
new_info size cfg = record {
  in_file = cfg.in_file;
  size = size;
  rc_segment_size = cfg.rc_segment_size;
  destroyed = false;
}

pub create_given :
    (address id size : ℕ) (cfg : RegionConfig) (m : Manager)
    → cfg.id ≡ some id
    → create_region address size cfg m ≡ (create_with address id size cfg m, id)
unfolding create_region choose_id
create_given address id size cfg m c =
    ap
      (λ o.
        let (j, s) = choose_id o m.session in
        (create_with address j size cfg (record m { session = s }), j))
      c

module _ (address id size : ℕ) (cfg : RegionConfig) (s : Session) where
  unfoldable pub with_object : Session
  with_object = record s { objects = put id (some size) s.objects }

  with_region : Session
  with_region = record s {
    objects = put id (some size) s.objects;
    registry = put id (some (new_info size cfg)) s.registry;
    events = increment_64 s.events;
  }

  in_object :
      cfg.in_file ≡ false
      → open_region address id size true cfg s ≡ open_object address id size true cfg s
  unfolding open_region
  in_object f =
      ap
        (λ b.
          if b
          then open_file address id size true cfg s
          else open_object address id size true cfg s)
        f

  open_new :
      cfg.in_file ≡ false
      → s.objects id ≡ none
      → s.registry id ≡ none
      → open_region address id size true cfg s ≡ (with_region, some (new_region address true cfg))
  unfolding with_region open_object register new_info
  open_new f o r = in_object f ∙ rw (open_object, o, register, r) refl

  pub open_registered :
      (i : Info)
      → cfg.in_file ≡ false
      → s.objects id ≡ none
      → s.registry id ≡ some i
      → open_region address id size true cfg s ≡ (with_object, none)
  unfolding with_object open_object register
  open_registered i f o r = in_object f ∙ rw (open_object, o, register, r) refl

  pub open_there :
      cfg.in_file ≡ false
      → s.objects id ≡ some size
      → open_region address id size true cfg s ≡ (s, some (new_region address true cfg))
  unfolding open_object
  open_there f o =
      in_object f ∙ rw (open_object, o, (==_iff size size).1 refl, or_true (size == 0)) refl

module _ (address id size : ℕ) (cfg : RegionConfig) (m : Manager) where
  pub known_none : m.session.registry id ≡ none → known_config (m.session.registry id) cfg ≡ cfg
  unfolding known_config
  known_none r = ap (λ o. known_config o cfg) r

  created_new :
      cfg.in_file ≡ false
      → m.regions id ≡ none
      → m.session.registry id ≡ none
      → m.session.objects id ≡ none
      → create_with address id size cfg m ≡ (
        record m {
          session = with_region address id size cfg m.session;
          regions = put id (some (new_region address true cfg)) m.regions;
          generation = increment_64 m.generation;
        },
        some (new_region address true cfg),
      )
  unfolding made
  created_new f r i o =
      let q =
        ap (λ x. open_region address id size true x m.session) (known_none i)
        ∙ open_new address id size cfg m.session f o i in
      create_with-made address id size cfg m (new_region address true cfg) r (ap (λ x. x.1) q)
      ∙ ap
          (λ x. (
            record m {
              session = x.0;
              regions = put id (some (new_region address true cfg)) m.regions;
              generation = increment_64 m.generation;
            },
            some (new_region address true cfg),
          ))
          q

module _ (id : ℕ) (m : Manager) (r : Region) (h : m.regions id ≡ some r) where
  remove_known :
      (i : Info)
      → r.remove_on_destruction ≡ true
      → m.session.registry id ≡ some i
      → remove_from_maps id m ≡ record m {
        session = close_region id r (record m.session {
          registry = put id (some (record i { destroyed = true })) m.session.registry;
          events = increment_64 m.session.events;
        });
        regions = put id none m.regions;
      }
  unfolding remove_from_maps mark_destroyed
  remove_known i d k = simp (remove_from_maps, h, d, mark_destroyed, k)

  pub remove_unknown :
      r.remove_on_destruction ≡ true → m.session.registry id ≡ none → remove_from_maps id m ≡ m
  unfolding remove_from_maps mark_destroyed
  remove_unknown d k = rw (remove_from_maps, h, d, mark_destroyed, k) refl

close_object :
    (id : ℕ) (r : Region) (s : Session)
    → r.controlling ≡ true
    → r.remove_on_destruction ≡ true
    → r.in_file ≡ false
    → close_region id r s ≡ record s { objects = put id none s.objects }
unfolding close_region
close_object id r s c d f = rw (c, d, f) refl

-- A region in a shared memory object, with a new id: after CreateRegion and RemoveRegion the manager
-- has no region of this id, and the object is gone. The session knows the id, marked as destroyed,
-- and its counter of events has gone up twice.
pub remove-create_region :
    (address id size : ℕ) (cfg : RegionConfig) (m : Manager)
    → cfg.id ≡ some id
    → cfg.in_file ≡ false
    → cfg.remove_on_destruction ≡ true
    → m.regions id ≡ none
    → m.session.registry id ≡ none
    → m.session.objects id ≡ none
    → let after = remove_region id (create_region address size cfg m).0.0 in
      ((after.regions id ≡ none) × (after.session.objects id ≡ none))
      × ((after.session.registry id ≡ some (record (new_info size cfg) { destroyed = true }))
          × (after.session.events ≡ increment_64 (increment_64 m.session.events)))
unfolding remove_region new_region with_region put
remove-create_region address id size cfg m c f d r i o =
    let s₁ = with_region address id size cfg m.session in
    let x = new_region address true cfg in
    let m₁ : Manager = record m {
      session = s₁;
      regions = put id (some x) m.regions;
      generation = increment_64 m.generation;
    } in
    let q =
      ap (λ y. y.0.0) (create_given address id size cfg m c)
      ∙ ap (λ y. y.0) (created_new address id size cfg m f r i o) in
    let s₂ : Session = record s₁ {
      registry = put id (some (record (new_info size cfg) { destroyed = true })) s₁.registry;
      events = increment_64 s₁.events;
    } in
    let u =
      ap (remove_from_maps id) q
      ∙ remove_known id m₁ x (put-same id (some x) m.regions) (new_info size cfg) d
          (put-same id (some (new_info size cfg)) m.session.registry)
      ∙ ap (λ s. record m₁ { session = s; regions = put id none m₁.regions })
          (close_object id x s₂ refl d f) in
    (
      (
        ap (λ y. y.regions id) u ∙ put-same id none m₁.regions,
        ap (λ y. y.session.objects id) u ∙ put-same id none s₂.objects,
      ),
      (
        ap (λ y. y.session.registry id) u
            ∙ put-same id (some (record (new_info size cfg) { destroyed = true })) s₁.registry,
        ap (λ y. y.session.events) u,
      ),
    )
