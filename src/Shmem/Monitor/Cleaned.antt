-- ===== src/Shmem/Monitor/Cleaned.antt =====
-- What Monitor::Cleanup (fairmq/shmem/Monitor.cxx) leaves.
use Prim.Native.String.{String}
use fair_mq.Prelude.{ℕ, ◌≡◌, ◌≢◌, refl, ◌∙◌, Bool, true, false, none, some, List, [], ◌∷◌, ◌++◌}
use fair_mq.Shmem.Monitor.{
  object, NamedObject, Management, Os, Documented, make_shm_name, targets, remove_all, cleanup,
  segment_is_present, region_is_present,
}

-- Every removal in the result was successful.
abbrev pub AllRemoved : List (String × Bool) → Type 0
AllRemoved [] = Unit
AllRemoved ((n, ok) ∷ r) = (ok ≡ true) × AllRemoved r

-- No target has this name.
abbrev pub Unnamed : String → List NamedObject → Type 0
Unnamed n [] = Unit
Unnamed n (t ∷ ts) = (t.name ≢ n) × Unnamed n ts

module _ {W : Type 0} (os : Os W) (d : Documented os) where
  abbrev pub AllAbsent : List NamedObject → W → Type 0
  AllAbsent [] w = Unit
  AllAbsent (t ∷ ts) w = (os.present t w ≡ false) × AllAbsent ts w

  pub remove_all-absent :
      (u : NamedObject) (ts : List NamedObject) (w : W)
      → os.present u w ≡ false
      → os.present u (remove_all os ts w).0 ≡ false
  unfolding remove_all
  remove_all-absent u [] w h = h
  remove_all-absent u (t ∷ ts) w h = remove_all-absent u ts (os.remove t w).0 (d.none_comes t u w h)

  remove_all-AllAbsent :
      (ts : List NamedObject) (w : W)
      → AllRemoved (remove_all os ts w).1
      → AllAbsent ts (remove_all os ts w).0
  unfolding remove_all
  remove_all-AllAbsent [] w h = tt
  remove_all-AllAbsent (t ∷ ts) w (e, h) = (
    remove_all-absent t ts (os.remove t w).0 (d.gone t w e),
    remove_all-AllAbsent ts (os.remove t w).0 h,
  )

  pub remove_all-others :
      (u : NamedObject) (ts : List NamedObject) (w : W)
      → Unnamed u.name ts
      → os.present u (remove_all os ts w).0 ≡ os.present u w
  unfolding remove_all
  remove_all-others u [] w h = refl
  remove_all-others u (t ∷ ts) w (n, h) =
      remove_all-others u ts (os.remove t w).0 h ∙ d.others t u w n

  pub cleanup-remove_all :
      (show : ℕ → String) (shm_id : String) (w : W) (m : Management)
      → os.management (make_shm_name shm_id "mng") w ≡ some m
      → cleanup os show shm_id w ≡ remove_all os (targets show shm_id m) w
  unfolding cleanup
  cleanup-remove_all show shm_id w m e = cc e

  cleanup-AllAbsent :
      (show : ℕ → String) (shm_id : String) (w : W) (m : Management)
      → os.management (make_shm_name shm_id "mng") w ≡ some m
      → AllRemoved (cleanup os show shm_id w).1
      → AllAbsent (targets show shm_id m) (cleanup os show shm_id w).0
  cleanup-AllAbsent show shm_id w m e =
      rw (cleanup-remove_all show shm_id w m e) (remove_all-AllAbsent (targets show shm_id m) w)

  AllAbsent-last :
      (ts us : List NamedObject) (t : NamedObject) (w : W)
      → AllAbsent (ts ++ (us ++ (t ∷ []))) w
      → os.present t w ≡ false
  AllAbsent-last [] [] t w h = h.0
  AllAbsent-last [] (u ∷ us) t w h = AllAbsent-last [] us t w h.1
  AllAbsent-last (s ∷ ts) us t w h = AllAbsent-last ts us t w h.1

  no_management :
      (show : ℕ → String) (shm_id : String) (m : Management) (w : W)
      → AllAbsent (targets show shm_id m) w
      → os.management (make_shm_name shm_id "mng") w ≡ none
  unfolding targets
  no_management show shm_id m w h =
      d.not_opened (make_shm_name shm_id "mng") w
        (AllAbsent-last _ _ (record { kind = object; name = make_shm_name shm_id "mng" }) w h)

  none_present :
      (show : ℕ → String) (shm_id : String) (w : W) (id : ℕ)
      → os.management (make_shm_name shm_id "mng") w ≡ none
      → (segment_is_present os show shm_id id w ≡ false)
        × (region_is_present os show shm_id id w ≡ false)
  unfolding segment_is_present region_is_present
  none_present show shm_id w id e = (cc e, cc e)

  -- After a Cleanup whose removals were all successful, no segment and no region is present.
  pub cleanup-absent :
      (show : ℕ → String) (shm_id : String) (w : W) (m : Management) (id : ℕ)
      → os.management (make_shm_name shm_id "mng") w ≡ some m
      → AllRemoved (cleanup os show shm_id w).1
      → (segment_is_present os show shm_id id (cleanup os show shm_id w).0 ≡ false)
        × (region_is_present os show shm_id id (cleanup os show shm_id w).0 ≡ false)
  cleanup-absent show shm_id w m id e h = none_present show shm_id (cleanup os show shm_id w).0 id (
      no_management show shm_id m (cleanup os show shm_id w).0
        (cleanup-AllAbsent show shm_id w m e h))
