-- ===== src/Shmem/Regions/Lost.antt =====
-- Unmanaged regions that the session does not know (fairmq/shmem/Manager.h,
-- fairmq/shmem/UnmanagedRegion.h).
use fair_mq.Prelude.{ℕ, ◌≡◌, ap, ◌∙◌, true, false, none, some, if◌then◌else◌}
use fair_mq.Shmem.Regions.{
  Manager, Info, RegionConfig, create_region, remove_region, remove_from_maps, open_region,
  open_object, open_file, new_region, known_config, put, put-same, increment_64, address_of,
}
use fair_mq.Shmem.Regions.Outcomes.{create_with-made, create_with-failed, made}
use fair_mq.Shmem.Regions.Life.{
  create_given, open_registered, open_there, with_object, known_none, remove_unknown,
}

module _ (address id size : ℕ) (cfg : RegionConfig) (m : Manager) where
  -- The manager after a region was made in a file.
  file_made : Manager
  file_made = record m {
    session = record m.session { files = put id (some size) m.session.files };
    regions = put id (some (new_region address true cfg)) m.regions;
    generation = increment_64 m.generation;
  }

  open_in_file :
      cfg.in_file ≡ true
      → open_region address id size true cfg m.session ≡ (
        record m.session { files = put id (some size) m.session.files },
        some (new_region address true cfg),
      )
  unfolding open_region open_file
  open_in_file f =
      ap
        (λ b.
          if b
          then open_file address id size true cfg m.session
          else open_object address id size true cfg m.session)
        f

  create_in_file :
      cfg.id ≡ some id
      → cfg.in_file ≡ true
      → m.regions id ≡ none
      → m.session.registry id ≡ none
      → (create_region address size cfg m).0 ≡ (file_made, some (new_region address true cfg))
  unfolding made file_made
  create_in_file c f r i =
      let q =
        ap (λ x. open_region address id size true x m.session) (known_none address id size cfg m i)
        ∙ open_in_file f in
      ap (λ x. x.0) (create_given address id size cfg m c)
      ∙ create_with-made address id size cfg m (new_region address true cfg) r (ap (λ x. x.1) q)
      ∙ ap
          (λ x. (
            record m {
              session = x.0;
              regions = put id (some (new_region address true cfg)) m.regions;
              generation = increment_64 m.generation;
            },
            some (new_region address true cfg),
          ))
          q

-- A region in a file, with a new id: CreateRegion gives it, but the session does not learn of it, and
-- after RemoveRegion the manager still has the region, and its file is still there.
pub file_region_stays :
    (address id size : ℕ) (cfg : RegionConfig) (m : Manager)
    → cfg.id ≡ some id
    → cfg.in_file ≡ true
    → cfg.remove_on_destruction ≡ true
    → m.regions id ≡ none
    → m.session.registry id ≡ none
    → ((address_of (create_region address size cfg m).0.1 ≡ some address)
        × ((create_region address size cfg m).0.0.session.registry id ≡ none))
      × ((address_of ((remove_region id (create_region address size cfg m).0.0).regions id)
            ≡ some address)
          × ((remove_region id (create_region address size cfg m).0.0).session.files id
              ≡ some size))
unfolding file_made new_region remove_region address_of
file_region_stays address id size cfg m c f d r i =
    let q = create_in_file address id size cfg m c f r i in
    let m₁ = file_made address id size cfg m in
    let u =
      ap (λ y. remove_from_maps id y.0) q
      ∙ remove_unknown id m₁ (new_region address true cfg)
          (put-same id (some (new_region address true cfg)) m.regions) d i in
    (
      (ap (λ y. address_of y.1) q, ap (λ y. y.0.session.registry id) q ∙ i),
      (
        ap (λ y. address_of (y.regions id)) u
            ∙ ap address_of (put-same id (some (new_region address true cfg)) m.regions),
        ap (λ y. y.session.files id) u ∙ put-same id (some size) m.session.files,
      ),
    )

-- An id that the session knows, of a region whose object is gone: CreateRegion throws. The next
-- CreateRegion with the same id and size gives a region, and the session still has the old entry.
pub create_region_twice :
    (address address' id size : ℕ) (cfg : RegionConfig) (m : Manager) (i : Info)
    → cfg.id ≡ some id
    → cfg.in_file ≡ false
    → m.regions id ≡ none
    → m.session.registry id ≡ some i
    → m.session.objects id ≡ none
    → ((create_region address size cfg m).0.1 ≡ none)
      × ((address_of (create_region address' size cfg (create_region address size cfg m).0.0).0.1
            ≡ some address')
          × ((create_region address' size cfg
                  (create_region address size cfg m).0.0).0.0.session.registry
                id
              ≡ some i))
unfolding made known_config new_region with_object address_of
create_region_twice address address' id size cfg m i c f r k o =
    let cfg' = known_config (some i) cfg in
    let q =
      ap (λ x. open_region address id size true (known_config x cfg) m.session) k
      ∙ open_registered address id size cfg' m.session i f o k in
    let m₁ : Manager = record m { session = with_object address id size cfg' m.session } in
    let u =
      ap (λ x. x.0) (create_given address id size cfg m c)
      ∙ create_with-failed address id size cfg m r (ap (λ x. x.1) q)
      ∙ ap (λ x. (record m { session = x.0 }, none)) q in
    let v =
      ap (λ x. open_region address' id size true (known_config x cfg) m₁.session) k
      ∙ open_there address' id size cfg' m₁.session f (put-same id (some size) m.session.objects) in
    let w =
      ap (λ x. (create_region address' size cfg x.0).0) u
      ∙ ap (λ x. x.0) (create_given address' id size cfg m₁ c)
      ∙ create_with-made address' id size cfg m₁ (new_region address' true cfg') r
          (ap (λ x. x.1) v) in
    (
      ap (λ x. x.1) u,
      (
        ap (λ x. address_of x.1) w,
        ap (λ x. x.0.session.registry id) w ∙ ap (λ x. x.0.registry id) v ∙ k,
      ),
    )
