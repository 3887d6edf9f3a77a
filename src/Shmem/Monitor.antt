-- ===== src/Shmem/Monitor.antt =====
-- The monitor of a session's shared memory (fairmq/shmem/Monitor.cxx): removal of all that a session
-- has left, and what is present.
pub mod Cleaned
pub mod Removed
pub mod Watch
use Prim.Native.String.{String, ◌++◌ as append}
use text.Mathlib.Text.{◌==◌ as str_eq}
use fair_mq.Prelude.{
  ℕ, ◌==◌, ◌≡◌, ◌≢◌, Bool, true, false, Option, none, some, List, [], ◌∷◌, ◌++◌, map, if◌then◌else◌,
}

-- The algorithm of a segment
pub data AllocationAlgorithm : Type 0 where
  rbtree_best_fit simple_seq_fit : AllocationAlgorithm

-- What T::remove removes: shared memory objects, file mappings, message queues, named mutexes
pub data Kind : Type 0 where
  object file_mapping message_queue named_mutex : Kind

pub record NamedObject : Type 0 where
  pub kind : Kind
  pub name : String

-- What the management segment of a session holds: the path of each region by its id, and the
-- algorithm of each segment, in the order of the maps. A map may not be there.
pub record Management : Type 0 where
  pub regions : Option (List (ℕ × String))
  pub segments : Option (List (ℕ × AllocationAlgorithm))

-- boost::interprocess and the operating system, in the state `W`: remove of a kind, whether an
-- object can be opened, and the content of the management segment of a name, none where opening it
-- throws.
pub record Os (W : Type 0) : Type 0 where
  pub remove : NamedObject → W → W × Bool
  pub present : NamedObject → W → Bool
  pub management : String → W → Option Management

-- What is documented of them: remove returns true once the object is gone, and otherwise leaves
-- everything; nothing else goes, nothing comes; what is gone cannot be opened.
pub record Documented {W : Type 0} (os : Os W) : Type 0 where
  pub gone :
      (t : NamedObject) (w : W) → (os.remove t w).1 ≡ true → os.present t (os.remove t w).0 ≡ false
  pub refused : (t : NamedObject) (w : W) → (os.remove t w).1 ≡ false → (os.remove t w).0 ≡ w
  pub others :
      (t u : NamedObject) (w : W)
      → t.name ≢ u.name
      → os.present u (os.remove t w).0 ≡ os.present u w
  pub none_comes :
      (t u : NamedObject) (w : W) → os.present u w ≡ false → os.present u (os.remove t w).0 ≡ false
  pub not_opened :
      (n : String) (w : W)
      → os.present (record { kind = object; name = n }) w ≡ false
      → os.management n w ≡ none

-- MakeShmName, without and with an index; `show` is std::to_string.
unfoldable pub make_shm_name : String → String → String
make_shm_name shm_id type = append "fmq_" (append shm_id (append "_" type))

unfoldable pub make_shm_name_at : (ℕ → String) → String → String → ℕ → String
make_shm_name_at show shm_id type index =
    append (make_shm_name shm_id type) (append "_" (show index))

module _ (show : ℕ → String) (shm_id : String) where
  -- What Cleanup removes for a region.
  unfoldable pub region_targets : ℕ × String → List NamedObject
  region_targets (id, path) =
      let name = make_shm_name_at show shm_id "rg" id in
      (if str_eq path ""
        then record { kind = object; name = name }
        else record { kind = file_mapping; name = append path name })
      ∷ record { kind = message_queue; name = make_shm_name_at show shm_id "rgq" id }
      ∷ record { kind = object; name = make_shm_name_at show shm_id "rrc" id }
      ∷ []

  unfoldable pub segment_target : ℕ × AllocationAlgorithm → NamedObject
  segment_target (id, algorithm) = record {
    kind = object;
    name = make_shm_name_at show shm_id "m" id;
  }

  -- The two loops of Cleanup, and the management segment at the end.
  unfoldable pub regions_targets : List (ℕ × String) → List NamedObject
  regions_targets [] = []
  regions_targets (r ∷ rs) = region_targets r ++ regions_targets rs

  unfoldable pub targets : Management → List NamedObject
  targets m =
      (elim m.regions [ none ↦ [] | some rs ↦ regions_targets rs ])
      ++ ((elim m.segments [ none ↦ [] | some ss ↦ map segment_target ss ])
          ++ (record { kind = object; name = make_shm_name shm_id "mng" } ∷ []))

-- find(id) in a map
unfoldable pub find_id {ℓ} : {A : Type ℓ} → ℕ → List (ℕ × A) → Option A
find_id id [] = none
find_id id ((j, a) ∷ m) = let rest = find_id id m in if j == id then some a else rest

-- Calls of Remove, with the pairs that they add to the result.
module _ {W : Type 0} (os : Os W) where
  unfoldable pub remove_all : List NamedObject → W → W × List (String × Bool)
  remove_all [] w = (w, [])
  remove_all (t ∷ ts) w =
      let (w', ok) = os.remove t w in
      let (w'', result) = remove_all ts w' in (w'', (t.name, ok) ∷ result)

  unfoldable pub cleanup : (ℕ → String) → String → W → W × List (String × Bool)
  cleanup show shm_id w = elim (os.management (make_shm_name shm_id "mng") w) [
    | none ↦ (w, [])
    | some m ↦ remove_all (targets show shm_id m) w
  ]

  unfoldable pub cleanup_full : (ℕ → String) → String → W → W × List (String × Bool)
  cleanup_full show shm_id w =
      let (w', result) = cleanup show shm_id w in
      let (w'', ok) =
        os.remove (record { kind = named_mutex; name = make_shm_name shm_id "ms" }) w' in
      (w'', result ++ ((make_shm_name shm_id "ms", ok) ∷ []))

  unfoldable pub segment_is_present : (ℕ → String) → String → ℕ → W → Bool
  segment_is_present show shm_id id w = elim (os.management (make_shm_name shm_id "mng") w) [
    | none ↦ false
    | some m ↦ elim m.segments [
      | none ↦ false
      | some ss ↦ elim (find_id id ss) [
        | none ↦ false
        | some a ↦
            os.present (record { kind = object; name = make_shm_name_at show shm_id "m" id }) w
      ]
    ]
  ]

  unfoldable pub region_is_present : (ℕ → String) → String → ℕ → W → Bool
  region_is_present show shm_id id w = elim (os.management (make_shm_name shm_id "mng") w) [
    | none ↦ false
    | some m ↦ elim m.regions [
      | none ↦ false
      | some rs ↦ elim (find_id id rs) [
        | none ↦ false
        | some path ↦
            if str_eq path ""
            then os.present (record { kind = object; name = make_shm_name_at show shm_id "rg" id })
                w
            else true
      ]
    ]
  ]
