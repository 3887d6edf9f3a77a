-- ===== src/Shmem/Regions/Cache/Failed.antt =====
-- A lookup that failed (fairmq/shmem/Manager.h, GetRegionFromCache).
use fair_mq.Prelude.{
  ℕ, ◌≡◌, refl, sym, ap, ◌∙◌, inl, inr, true, false, Bool-cases, none, some, List, [], ◌∷◌, ◌++◌,
  if◌then◌else◌, ◌==◌, ==_iff, ◌&&◌,
}
use mathlib.Core.Path.{subst}
use fair_mq.Shmem.Regions.{
  Manager, Session, Info, get_region, view_config, open_region, open_object, open_file,
  RegionConfig, new_region, address_of,
}
use fair_mq.Shmem.Regions.Outcomes.{get_region-unknown, get_region-opened, opened}
use fair_mq.Shmem.Regions.Cache.{
  Cache, Entry, get_region_from_cache, first_usable, usable, forget, remember,
}
use fair_mq.Shmem.Regions.Cache.Live.{cache-hit, cache-miss}

abbrev missing : ℕ → ℕ → Entry
missing sid id = record { address = none; id = id; session_id = sid }

usable-missing :
    (sid id g : ℕ) (es : List Entry)
    → usable sid id g (record { generation = g; entries = es }) (missing sid id) ≡ true
unfolding usable
usable-missing sid id g es =
    rw ((==_iff id id).1 refl, (==_iff g g).1 refl, (==_iff sid sid).1 refl) refl

usable-generation :
    (sid id g : ℕ) (es : List Entry) (c : Cache) (e : Entry)
    → c.generation ≡ g
    → usable sid id g (record { generation = g; entries = es }) e ≡ usable sid id g c e
unfolding usable
usable-generation sid id g es c e q = ap (λ x. e.id == id && x == g && e.session_id == sid) (sym q)

-- The entry is found behind others of which none is usable.
first_usable-snoc :
    (sid id g : ℕ) (es fs : List Entry) (c : Cache)
    → c.generation ≡ g
    → first_usable sid id g c fs ≡ none
    → first_usable sid id g (record { generation = g; entries = es }) (fs ++ missing sid id ∷ [])
      ≡ some none
unfolding first_usable
first_usable-snoc sid id g es [] c q h = rw (usable-missing sid id g es) refl
first_usable-snoc sid id g es (f ∷ fs) c q h = elim (Bool-cases (usable sid id g c f)) [
  | inl u ↦ cc (h, u)
  | inr u ↦
      cc (u, usable-generation sid id g es c f q, first_usable-snoc sid id g es fs c q (cc (h, u)))
]

remembered :
    (sid id g : ℕ) (es : List Entry) (c : Cache)
    → first_usable sid id g c c.entries ≡ none
    → first_usable sid id g
        (record { generation = g; entries = es })
        (forget g c ++ missing sid id ∷ [])
      ≡ some none
unfolding forget first_usable
remembered sid id g es c h = elim (Bool-cases (c.generation == g)) [
  | inl e ↦
      subst
        (λ b.
          first_usable sid id g (record { generation = g; entries = es })
            ((if b then c.entries else []) ++ missing sid id ∷ [])
          ≡ some none)
        (sym e) (first_usable-snoc sid id g es c.entries c ((==_iff c.generation g).0 e) h)
  | inr e ↦
      subst
        (λ b.
          first_usable sid id g (record { generation = g; entries = es })
            ((if b then c.entries else []) ++ missing sid id ∷ [])
          ≡ some none)
        (sym e) (rw (usable-missing sid id g es) refl)
]

open_view :
    (address id : ℕ) (cfg : RegionConfig) (s : Session) (k : ℕ)
    → cfg.in_file ≡ false
    → s.objects id ≡ some k
    → (open_region address id 0 false cfg s).1 ≡ some (new_region address false cfg)
unfolding open_region open_object
open_view address id cfg s k f o =
    ap
      (λ b.
        (if b then open_file address id 0 false cfg s else open_object address id 0 false cfg s).1)
      f
    ∙ rw (open_object, o) refl

view_opened :
    (address id : ℕ) (m : Manager) (i : Info) (k : ℕ)
    → i.in_file ≡ false
    → m.session.objects id ≡ some k
    → (opened address id m i).1 ≡ some (new_region address false (view_config id i))
unfolding opened view_config
view_opened address id m i k f o = open_view address id (view_config id i) m.session k f o

-- A region that another process registers after this thread's lookup of its id has failed: the thread
-- goes on to get nullptr for the id, while GetRegion gives a view of the region.
pub failed_lookup_stays :
    (session_id id address address' k : ℕ) (m : Manager) (c : Cache) (s : Session) (i : Info)
    → first_usable session_id id m.generation c c.entries ≡ none
    → m.regions id ≡ none
    → m.session.registry id ≡ none
    → s.registry id ≡ some i
    → i.in_file ≡ false
    → s.objects id ≡ some k
    → ((get_region_from_cache session_id address' id
          (record ((get_region_from_cache session_id address id m c).manager) { session = s })
          (get_region_from_cache session_id address id m c).cache).found
        ≡ none)
      × (address_of
            (get_region address' id
              (record ((get_region_from_cache session_id address id m c).manager) {
                session = s;
              })).0.1
          ≡ some address')
unfolding remember new_region
failed_lookup_stays sid id a b k m c s i h u r t f o =
    let q = cache-miss sid m c a id h ∙ ap (remember sid id c) (get_region-unknown a id m u r) in
    let m' : Manager = record m { session = s } in
    let c' : Cache = record {
      generation = m.generation;
      entries = forget m.generation c ++ missing sid id ∷ [];
    } in
    (
      ap (λ l. (get_region_from_cache sid b id (record (l.manager) { session = s }) l.cache).found)
            q
          ∙ ap (λ l. l.found)
              (cache-hit sid m' c' b id none (remembered sid id m.generation c'.entries c h)),
      ap (λ l. address_of (get_region b id (record (l.manager) { session = s })).0.1) q
          ∙ ap (λ x. address_of x.0.1)
              (get_region-opened b id m' i (new_region b false (view_config id i)) u t
                (view_opened b id m' i k f o)),
    )
