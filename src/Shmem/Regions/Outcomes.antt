-- ===== src/Shmem/Regions/Outcomes.antt =====
-- What GetRegion, CreateRegion and RemoveRegion (fairmq/shmem/Manager.h) do to the regions of the
-- manager and to the generation.
use fair_mq.Prelude.{
  ℕ, ◌≡◌, ◌⊎◌, refl, sym, ap, ◌∙◌, inl, inr, true, false, Bool-cases, Option, Option-cases, none,
  some, ◌==◌, ==_iff, arith,
}
use fair_mq.Shmem.Regions.{
  address_of, Manager, Region, RegionConfig, Session, Info, get_region, create_with,
  remove_from_maps, put, put-same, put-other, increment_64, open_region, view_config, known_config,
}

-- The regions that were there keep their addresses.
unfoldable pub Keeps : Manager → Manager → Type 0
Keeps m m' = (id p : ℕ) → address_of (m.regions id) ≡ some p → address_of (m'.regions id) ≡ some p

-- A new region where none was.
Keeps-put :
    (m m' : Manager) (id : ℕ) (r : Region)
    → m.regions id ≡ none
    → m'.regions ≡ put id (some r) m.regions
    → Keeps m m'
unfolding Keeps address_of
Keeps-put m m' id r a q j p h = elim (Bool-cases (id == j)) [
  | inl e ↦ cc (h, a, ap m.regions ((==_iff id j).0 e))
  | inr e ↦ ap (λ f. address_of (f j)) q ∙ ap address_of (put-other id j (some r) m.regions e) ∙ h
]

-- GetRegion leaves the generation, and gives the region that the manager then has.
pub record Got (id : ℕ) (m m' : Manager) (o : Option Region) : Type 0 where
  pub same_generation : m'.generation ≡ m.generation
  pub keeps : Keeps m m'
  pub there : (r : Region) → o ≡ some r → m'.regions id ≡ some r

pub get_region-here :
    (address id : ℕ) (m : Manager) (r : Region)
    → m.regions id ≡ some r
    → get_region address id m ≡ ((m, some r), false)
unfolding get_region
get_region-here address id m r h = rw (get_region, h) refl

pub get_region-unknown :
    (address id : ℕ) (m : Manager)
    → m.regions id ≡ none
    → m.session.registry id ≡ none
    → get_region address id m ≡ ((m, none), false)
unfolding get_region
get_region-unknown address id m h k = rw (get_region, h, k) refl

module _ (address id : ℕ) (m : Manager) (i : Info) where
  unfoldable pub opened : Session × Option Region
  opened = open_region address id 0 false (view_config id i) m.session

  get_region-failed :
      m.regions id ≡ none
      → m.session.registry id ≡ some i
      → opened.1 ≡ none
      → get_region address id m ≡ ((record m { session = opened.0 }, none), true)
  unfolding get_region opened
  get_region-failed h k o = rw (get_region, h, k, o) refl

  pub get_region-opened :
      (r : Region)
      → m.regions id ≡ none
      → m.session.registry id ≡ some i
      → opened.1 ≡ some r
      → get_region address id m
        ≡ ((record m { session = opened.0; regions = put id (some r) m.regions }, some r), false)
  unfolding get_region opened
  get_region-opened r h k o = rw (get_region, h, k, o) refl

pub get_region-Got :
    (address id : ℕ) (m : Manager)
    → Got id m (get_region address id m).0.0 (get_region address id m).0.1
unfolding Keeps
get_region-Got address id m = elim (Option-cases (m.regions id)) [
  | inr (r, h) ↦
      let q = get_region-here address id m r h in
      record {
        same_generation = ap (λ x. x.0.0.generation) q;
        keeps = λ j p k. ap (λ x. address_of (x.0.0.regions j)) q ∙ k;
        there = λ x e. ap (λ y. y.0.0.regions id) q ∙ h ∙ sym (ap (λ y. y.0.1) q) ∙ e;
      }
  | inl h ↦ elim (Option-cases (m.session.registry id)) [
    | inl k ↦
        let q = get_region-unknown address id m h k in
        record {
          same_generation = ap (λ x. x.0.0.generation) q;
          keeps = λ j p u. ap (λ x. address_of (x.0.0.regions j)) q ∙ u;
          there = λ x e. cc (ap (λ y. y.0.1) q, e);
        }
    | inr (i, k) ↦ elim (Option-cases (opened address id m i).1) [
      | inl o ↦
          let q = get_region-failed address id m i h k o in
          record {
            same_generation = ap (λ x. x.0.0.generation) q;
            keeps = λ j p u. ap (λ x. address_of (x.0.0.regions j)) q ∙ u;
            there = λ x e. cc (ap (λ y. y.0.1) q, e);
          }
      | inr (r, o) ↦
          let q = get_region-opened address id m i r h k o in
          record {
            same_generation = ap (λ x. x.0.0.generation) q;
            keeps = Keeps-put m (get_region address id m).0.0 id r h (ap (λ x. x.0.0.regions) q);
            there = λ x e.
                ap (λ y. y.0.0.regions id) q
                ∙ put-same id (some r) m.regions
                ∙ sym (ap (λ y. y.0.1) q)
                ∙ e;
          }
    ]
  ]
]

module _ (address id size : ℕ) (cfg : RegionConfig) (m : Manager) where
  unfoldable pub made : Session × Option Region
  made = open_region address id size true (known_config (m.session.registry id) cfg) m.session

  create_with-controlled :
      (r : Region)
      → m.regions id ≡ some r
      → r.controlling ≡ true
      → create_with address id size cfg m ≡ (m, none)
  unfolding create_with
  create_with-controlled r h k = rw (create_with, h, k) refl

  create_with-viewed :
      (r : Region)
      → m.regions id ≡ some r
      → r.controlling ≡ false
      → (create_with address id size cfg m).0.generation ≡ increment_64 m.generation
  unfolding create_with
  create_with-viewed r h k = rw (create_with, h, k) refl

  pub create_with-failed :
      m.regions id ≡ none
      → made.1 ≡ none
      → create_with address id size cfg m ≡ (record m { session = made.0 }, none)
  unfolding create_with made
  create_with-failed h o = rw (create_with, h, o) refl

  pub create_with-made :
      (r : Region)
      → m.regions id ≡ none
      → made.1 ≡ some r
      → create_with address id size cfg m ≡ (
        record m {
          session = made.0;
          regions = put id (some r) m.regions;
          generation = increment_64 m.generation;
        },
        some r,
      )
  unfolding create_with made
  create_with-made r h o = rw (create_with, h, o) refl

  -- CreateRegion changes the generation, or it throws and leaves the regions as they are.
  pub create_with-cases :
      ((create_with address id size cfg m).0.generation ≡ increment_64 m.generation)
      ⊎ (((create_with address id size cfg m).0.generation ≡ m.generation)
          × ((create_with address id size cfg m).0.regions ≡ m.regions))
  create_with-cases = elim (Option-cases (m.regions id)) [
    | inr (r, h) ↦ elim (Bool-cases (r.controlling)) [
      | inl k ↦
          let q = create_with-controlled r h k in
          inr (ap (λ x. x.0.generation) q, ap (λ x. x.0.regions) q)
      | inr k ↦ inl (create_with-viewed r h k)
    ]
    | inl h ↦ elim (Option-cases (made.1)) [
      | inl o ↦
          let q = create_with-failed h o in
          inr (ap (λ x. x.0.generation) q, ap (λ x. x.0.regions) q)
      | inr (r, o) ↦ inl (ap (λ x. x.0.generation) (create_with-made r h o))
    ]
  ]

pub remove_from_maps-generation :
    (id : ℕ) (m : Manager) → (remove_from_maps id m).generation ≡ m.generation
unfolding remove_from_maps
remove_from_maps-generation id m = ground arith
