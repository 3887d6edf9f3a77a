-- ===== src/Shmem/Monitor/Removed.antt =====
-- What Monitor::Cleanup (fairmq/shmem/Monitor.cxx) removes of the regions and segments of a session.
use Prim.Native.String.{String, ◌++◌ as append}
use text.Mathlib.Text.{◌==◌ as str_eq}
use text.Mathlib.TextEquality.{eq_iff}
use mathlib.Core.List.{Memᴰ}
use mathlib.Core.List.Memᴰ.{head, tail}
use mathlib.Core.Path.{subst}
use fair_mq.Prelude.{
  ℕ, ◌≡◌, ◌≢◌, ◌⊎◌, refl, sym, ap, Bool, false, Option-cases, none, some, List, [], ◌∷◌, ◌++◌, inl,
  inr, map, Bool-cases, if◌then◌else◌,
}
use fair_mq.Shmem.Monitor.{
  AllocationAlgorithm, object, file_mapping, message_queue, Kind, NamedObject, Management, Os,
  Documented, make_shm_name, make_shm_name_at, region_targets, regions_targets, segment_target,
  targets, remove_all, cleanup,
}
use fair_mq.Shmem.Monitor.Cleaned.{
  Unnamed, remove_all-absent, remove_all-others, cleanup-remove_all,
}

-- A removal is in the result, and if it is reported as successful the object is absent.
abbrev pub Gone : {W : Type 0} → Os W → W → List (String × Bool) → Kind → String → Type 0
Gone os w r k n =
    (ok : Bool) × Memᴰ (n, ok) r
    × ((os.present (record { kind = k; name = n }) w ≡ false) ⊎ (ok ≡ false))

-- For each region its object, or the file if it has a path, the queue and the reference counts are
-- removed; for each segment its object; and the management segment.
pub record SessionGone {W : Type 0} (os : Os W) (show : ℕ → String) (shm_id : String)
    (m : Management) (w : W) (r : List (String × Bool)) : Type 0 where
  pub region_object :
      (rs : List (ℕ × String)) (id : ℕ)
      → m.regions ≡ some rs
      → Memᴰ (id, "") rs
      → Gone os w r object (make_shm_name_at show shm_id "rg" id)
  pub region_file :
      (rs : List (ℕ × String)) (id : ℕ) (path : String)
      → m.regions ≡ some rs
      → Memᴰ (id, path) rs
      → path ≢ ""
      → Gone os w r file_mapping (append path (make_shm_name_at show shm_id "rg" id))
  pub region_queue :
      (rs : List (ℕ × String)) (id : ℕ) (path : String)
      → m.regions ≡ some rs
      → Memᴰ (id, path) rs
      → Gone os w r message_queue (make_shm_name_at show shm_id "rgq" id)
  pub region_counts :
      (rs : List (ℕ × String)) (id : ℕ) (path : String)
      → m.regions ≡ some rs
      → Memᴰ (id, path) rs
      → Gone os w r object (make_shm_name_at show shm_id "rrc" id)
  pub segment :
      (ss : List (ℕ × AllocationAlgorithm)) (id : ℕ) (algorithm : AllocationAlgorithm)
      → m.segments ≡ some ss
      → Memᴰ (id, algorithm) ss
      → Gone os w r object (make_shm_name_at show shm_id "m" id)
  pub management : Gone os w r object (make_shm_name shm_id "mng")

-- The name is none of these.
pub record Unlisted (show : ℕ → String) (shm_id : String) (m : Management) (u : String)
    : Type 0 where
  pub no_region :
      (rs : List (ℕ × String)) (id : ℕ) (path : String)
      → m.regions ≡ some rs
      → Memᴰ (id, path) rs
      → (make_shm_name_at show shm_id "rg" id ≢ u)
        × (append path (make_shm_name_at show shm_id "rg" id) ≢ u)
        × (make_shm_name_at show shm_id "rgq" id ≢ u)
        × (make_shm_name_at show shm_id "rrc" id ≢ u)
  pub no_segment :
      (ss : List (ℕ × AllocationAlgorithm)) (id : ℕ) (algorithm : AllocationAlgorithm)
      → m.segments ≡ some ss
      → Memᴰ (id, algorithm) ss
      → make_shm_name_at show shm_id "m" id ≢ u
  pub no_management : make_shm_name shm_id "mng" ≢ u

module _ {ℓ} {A : Type ℓ} where
  Memᴰ-left : (a : A) (xs ys : List A) → Memᴰ a xs → Memᴰ a (xs ++ ys)
  Memᴰ-left a [] ys m = elim m [ ]
  Memᴰ-left a (x ∷ xs) ys (head e) = head e
  Memᴰ-left a (x ∷ xs) ys (tail m) = tail (Memᴰ-left a xs ys m)

  Memᴰ-right : (a : A) (xs ys : List A) → Memᴰ a ys → Memᴰ a (xs ++ ys)
  Memᴰ-right a [] ys m = m
  Memᴰ-right a (x ∷ xs) ys m = tail (Memᴰ-right a xs ys m)

module _ {W : Type 0} (os : Os W) (d : Documented os) where
  remove_all-Gone :
      (t : NamedObject) (ts : List NamedObject) (w : W)
      → Memᴰ t ts
      → Gone os (remove_all os ts w).0 (remove_all os ts w).1 t.kind t.name
  unfolding remove_all
  remove_all-Gone t [] w m = elim m [ ]
  remove_all-Gone t (u ∷ ts) w (tail m) =
      let (ok, i, g) = remove_all-Gone t ts (os.remove u w).0 m in (ok, tail i, g)
  remove_all-Gone t (u ∷ ts) w (head e) = (
    (os.remove u w).1,
    head (ap (λ (x : NamedObject). (x.name, (os.remove u w).1)) e),
    elim (Bool-cases (os.remove u w).1) [
      | inl ok ↦ inl (
          remove_all-absent os d t ts (os.remove u w).0
            (subst (λ x. os.present x (os.remove u w).0 ≡ false) (sym e) (d.gone u w ok)))
      | inr ok ↦ inr ok
    ],
  )

module _ (show : ℕ → String) (shm_id : String) where
  in_region :
      (t : NamedObject) (r : ℕ × String) (rs : List (ℕ × String))
      → Memᴰ r rs
      → Memᴰ t (region_targets show shm_id r)
      → Memᴰ t (regions_targets show shm_id rs)
  unfolding regions_targets
  in_region t r [] m i = elim m [ ]
  in_region t r (s ∷ rs) (head e) i =
      Memᴰ-left t (region_targets show shm_id s) (regions_targets show shm_id rs)
        (subst (λ x. Memᴰ t (region_targets show shm_id x)) e i)
  in_region t r (s ∷ rs) (tail m) i =
      Memᴰ-right t (region_targets show shm_id s) (regions_targets show shm_id rs)
        (in_region t r rs m i)

  in_segments :
      (s : ℕ × AllocationAlgorithm) (ss : List (ℕ × AllocationAlgorithm))
      → Memᴰ s ss
      → Memᴰ (segment_target show shm_id s) (map (segment_target show shm_id) ss)
  in_segments s [] m = elim m [ ]
  in_segments s (x ∷ ss) (head e) = head (ap (segment_target show shm_id) e)
  in_segments s (x ∷ ss) (tail m) = tail (in_segments s ss m)

  module _ (m : Management) where
    target_of_region :
        (rs : List (ℕ × String)) (r : ℕ × String) (t : NamedObject)
        → m.regions ≡ some rs
        → Memᴰ r rs
        → Memᴰ t (region_targets show shm_id r)
        → Memᴰ t (targets show shm_id m)
    unfolding targets
    target_of_region rs r t e i j = rw e (Memᴰ-left t _ _ (in_region t r rs i j))

    target_of_segment :
        (ss : List (ℕ × AllocationAlgorithm)) (s : ℕ × AllocationAlgorithm)
        → m.segments ≡ some ss
        → Memᴰ s ss
        → Memᴰ (segment_target show shm_id s) (targets show shm_id m)
    unfolding targets
    target_of_segment ss s e i = rw e (Memᴰ-right _ _ _ (Memᴰ-left _ _ _ (in_segments s ss i)))

    target_of_management :
        Memᴰ (record { kind = object; name = make_shm_name shm_id "mng" }) (targets show shm_id m)
    unfolding targets
    target_of_management = Memᴰ-right _ _ _ (Memᴰ-right _ _ _ (head refl))

  Unnamed-append :
      (u : String) (xs ys : List NamedObject) → Unnamed u xs → Unnamed u ys → Unnamed u (xs ++ ys)
  Unnamed-append u [] ys a b = b
  Unnamed-append u (x ∷ xs) ys a b = (a.0, Unnamed-append u xs ys a.1 b)

  regions-Unnamed :
      (u : String) (rs : List (ℕ × String))
      → ((id : ℕ) (path : String)
          → Memᴰ (id, path) rs
          → (make_shm_name_at show shm_id "rg" id ≢ u)
            × (append path (make_shm_name_at show shm_id "rg" id) ≢ u)
            × (make_shm_name_at show shm_id "rgq" id ≢ u)
            × (make_shm_name_at show shm_id "rrc" id ≢ u))
      → Unnamed u (regions_targets show shm_id rs)
  unfolding regions_targets region_targets
  regions-Unnamed u [] h = tt
  regions-Unnamed u ((id, path) ∷ rs) h =
      let (a, b, c, e) = h id path (head refl) in
      let rest = regions-Unnamed u rs (λ i p m. h i p (tail m)) in
      elim (Bool-cases (str_eq path "")) [
        | inl q ↦ rw q (a, (c, (e, rest)))
        | inr q ↦ rw q (b, (c, (e, rest)))
      ]

  segments-Unnamed :
      (u : String) (ss : List (ℕ × AllocationAlgorithm))
      → ((id : ℕ) (algorithm : AllocationAlgorithm)
          → Memᴰ (id, algorithm) ss
          → make_shm_name_at show shm_id "m" id ≢ u)
      → Unnamed u (map (segment_target show shm_id) ss)
  unfolding segment_target
  segments-Unnamed u [] h = tt
  segments-Unnamed u ((id, a) ∷ ss) h =
      (h id a (head refl), segments-Unnamed u ss (λ i b m. h i b (tail m)))

  targets-Unnamed :
      (m : Management) (u : String) → Unlisted show shm_id m u → Unnamed u (targets show shm_id m)
  unfolding targets
  targets-Unnamed m u f =
      let last : Unnamed u (record { kind = object; name = make_shm_name shm_id "mng" } ∷ []) =
        (f.no_management, tt) in
      let segments : Unnamed u (
          (elim m.segments [ none ↦ [] | some ss ↦ map (segment_target show shm_id) ss ])
          ++ (record { kind = object; name = make_shm_name shm_id "mng" } ∷ [])) =
        elim (Option-cases m.segments) [
          | inl e ↦ rw e last
          | inr (ss, e) ↦ rw e (
              Unnamed-append u _ _ (segments-Unnamed u ss (λ id a i. f.no_segment ss id a e i))
                last)
        ] in
      elim (Option-cases m.regions) [
        | inl e ↦ rw e segments
        | inr (rs, e) ↦ rw e (
            Unnamed-append u _ _ (regions-Unnamed u rs (λ id p i. f.no_region rs id p e i))
              segments)
      ]

file_of :
    (show : ℕ → String) (shm_id : String) (id : ℕ) (path : String)
    → path ≢ ""
    → ◌≡◌ {A = NamedObject}
        (record { kind = file_mapping; name = append path (make_shm_name_at show shm_id "rg" id) })
        (if str_eq path ""
          then record { kind = object; name = make_shm_name_at show shm_id "rg" id }
          else record {
            kind = file_mapping;
            name = append path (make_shm_name_at show shm_id "rg" id);
          })
file_of show shm_id id path n = elim (Bool-cases (str_eq path "")) [
  | inl q ↦ absurd (n ((eq_iff path "").0 q))
  | inr q ↦ rw q refl
]

-- If the management segment can be opened, the removals that Cleanup reports cover, for each region
-- that it lists, the region's object or the file of its path, its queue and its reference counts; for
-- each segment its object; and the management segment itself. Each of these is absent afterwards
-- unless its removal is reported as unsuccessful. An object with none of these names is present
-- afterwards exactly if it was before.
pub cleanup_lem :
    {W : Type 0} (os : Os W)
    → Documented os
    → (show : ℕ → String) (shm_id : String) (w : W) (m : Management) (u : NamedObject)
    → os.management (make_shm_name shm_id "mng") w ≡ some m
    → Unlisted show shm_id m u.name
    → SessionGone os show shm_id m (cleanup os show shm_id w).0 (cleanup os show shm_id w).1
      × (os.present u (cleanup os show shm_id w).0 ≡ os.present u w)
unfolding region_targets segment_target
cleanup_lem os d show shm_id w m u e f =
    let gone = λ (t : NamedObject). remove_all-Gone os d t (targets show shm_id m) w in
    rw (cleanup-remove_all os d show shm_id w m e) (
      record {
        region_object = λ rs id e i.
            gone (record { kind = object; name = make_shm_name_at show shm_id "rg" id })
              (target_of_region show shm_id m rs (id, "") _ e i (head refl));
        region_file = λ rs id path e i n.
            gone
              (record {
                kind = file_mapping;
                name = append path (make_shm_name_at show shm_id "rg" id);
              })
              (target_of_region show shm_id m rs (id, path) _ e i
                (head (file_of show shm_id id path n)));
        region_queue = λ rs id path e i.
            gone (record { kind = message_queue; name = make_shm_name_at show shm_id "rgq" id })
              (target_of_region show shm_id m rs (id, path) _ e i (tail (head refl)));
        region_counts = λ rs id path e i.
            gone (record { kind = object; name = make_shm_name_at show shm_id "rrc" id })
              (target_of_region show shm_id m rs (id, path) _ e i (tail (tail (head refl))));
        segment = λ ss id a e i.
            gone (record { kind = object; name = make_shm_name_at show shm_id "m" id })
              (target_of_segment show shm_id m ss (id, a) e i);
        management =
            gone (record { kind = object; name = make_shm_name shm_id "mng" })
              (target_of_management show shm_id m);
      },
      remove_all-others os d u (targets show shm_id m) w (targets-Unnamed show shm_id m u.name f),
    )
