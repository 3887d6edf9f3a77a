-- ===== src/Plugins/Loading/Paths.antt =====
-- The order in which the plugin manager looks for plugins (fairmq/PluginManager.cxx).
use Prim.Native.String.{String}
use fair_mq.Prelude.{
  ◌≡◌, refl, sym, ap, ◌∙◌, inl, inr, Bool, true, false, ◌&&◌, Bool-cases, Option, none, some, List,
  [], ◌∷◌, ◌++◌, arith,
}
use fair_mq.Plugins.Loading.{
  PluginManager, Ending, done, Host, valid_path, all_valid, set_search_paths, append_search_path,
  prepend_search_path, for_each, prepended, appended, plain_paths, configure_paths, file_name,
  search_plugin_file, lib_prefix, lib_prefix_alt,
}

-- The last one that is prepended comes first.
abbrev pub onto : List String → List String → List String
onto [] qs = qs
onto (p ∷ ps) qs = onto ps (p ∷ qs)

and_both : (a b : Bool) → (a && b) ≡ true → (a ≡ true) × (b ≡ true)
and_both true b e = (refl, e)
and_both false b e = cc e

append_assoc : (xs ys zs : List String) → (xs ++ ys) ++ zs ≡ xs ++ (ys ++ zs)
append_assoc [] ys zs = refl
append_assoc (x ∷ xs) ys zs = ap (λ l. x ∷ l) (append_assoc xs ys zs)

append_nil : (xs : List String) → xs ++ [] ≡ xs
append_nil [] = refl
append_nil (x ∷ xs) = ap (λ l. x ∷ l) (append_nil xs)

module _ (f : String → PluginManager → PluginManager × Ending) where
  pub for_each-cons :
      (x : String) (xs : List String) (m m' : PluginManager)
      → f x m ≡ (m', done)
      → for_each f (x ∷ xs) m ≡ for_each f xs m'
  unfolding for_each
  for_each-cons x xs m m' e = cc e

  -- What a loop that comes to its end has done first
  pub for_each-done :
      (x : String) (xs : List String) (m : PluginManager)
      → (for_each f (x ∷ xs) m).1 ≡ done
      → ((f x m).1 ≡ done) × (for_each f (x ∷ xs) m ≡ for_each f xs (f x m).0)
  unfolding for_each
  for_each-done x xs m h = ground arith

module _ (host : Host) where
  prepend_valid :
      (p : String) (m : PluginManager)
      → valid_path host p ≡ true
      → prepend_search_path host p m ≡ (record m { search_paths = p ∷ m.search_paths }, done)
  unfolding prepend_search_path
  prepend_valid p m e = cc e

  append_valid :
      (p : String) (m : PluginManager)
      → valid_path host p ≡ true
      → append_search_path host p m ≡ (record m { search_paths = m.search_paths ++ p ∷ [] }, done)
  unfolding append_search_path
  append_valid p m e = cc e

  set_valid :
      (ps : List String) (m : PluginManager)
      → all_valid host ps ≡ true
      → set_search_paths host ps m ≡ (record m { search_paths = ps }, done)
  unfolding set_search_paths
  set_valid ps m e = cc e

  prepends :
      (ps : List String) (m : PluginManager)
      → all_valid host ps ≡ true
      → for_each (prepend_search_path host) ps m
        ≡ (record m { search_paths = onto ps m.search_paths }, done)
  unfolding all_valid for_each
  prepends [] m h = refl
  prepends (p ∷ ps) m h =
      let (a, b) = and_both (valid_path host p) (all_valid host ps) h in
      for_each-cons (prepend_search_path host) p ps m _ (prepend_valid p m a)
      ∙ prepends ps (record m { search_paths = p ∷ m.search_paths }) b

  appends :
      (ps : List String) (m : PluginManager)
      → all_valid host ps ≡ true
      → for_each (append_search_path host) ps m
        ≡ (record m { search_paths = m.search_paths ++ ps }, done)
  unfolding all_valid for_each
  appends [] m h = ap (λ l. (record m { search_paths = l }, done)) (sym (append_nil m.search_paths))
  appends (p ∷ ps) m h =
      let (a, b) = and_both (valid_path host p) (all_valid host ps) h in
      for_each-cons (append_search_path host) p ps m _ (append_valid p m a)
      ∙ appends ps (record m { search_paths = m.search_paths ++ p ∷ [] }) b
      ∙ ap (λ l. (record m { search_paths = l }, done)) (append_assoc m.search_paths (p ∷ []) ps)

  -- If all search paths are valid, those without a sign are searched in the order in which they are
  -- given, after those with "<", the last of them first, and before those with ">", the first of them
  -- first; the rest of the plugin manager is as before.
  pub configure_paths_lem :
      (ps : List String) (m : PluginManager)
      → all_valid host (prepended ps) ≡ true
      → all_valid host (plain_paths ps) ≡ true
      → all_valid host (appended ps) ≡ true
      → configure_paths host ps m
        ≡ (record m { search_paths = onto (prepended ps) (plain_paths ps) ++ appended ps }, done)
  unfolding configure_paths
  configure_paths_lem ps m a b c = cc (
    set_valid (plain_paths ps) m b,
    prepends (prepended ps) (record m { search_paths = plain_paths ps }) a,
    appends (appended ps) (record m { search_paths = onto (prepended ps) (plain_paths ps) }) c,
  )

  -- A file of the plugin, under one of the two prefixes, in the path `p`
  pub data IsCandidate (name p f : String) : Type 0 where
    standard : f ≡ host.join p (file_name host lib_prefix name) → IsCandidate name p f
    alternative :
        host.exists (host.join p (file_name host lib_prefix name)) ≡ false
        → f ≡ host.join p (file_name host lib_prefix_alt name)
        → IsCandidate name p f

  -- No file of the plugin is in these paths.
  abbrev pub AllWithout : String → List String → Type 0
  AllWithout name [] = Unit
  AllWithout name (p ∷ ps) =
      (host.exists (host.join p (file_name host lib_prefix name)) ≡ false)
      × (host.exists (host.join p (file_name host lib_prefix_alt name)) ≡ false)
      × AllWithout name ps

  -- What a search finds: nothing, or a file in the first path that has one.
  pub data Search (name : String) (ps : List String) : Option String → Type 0 where
    not_found : AllWithout name ps → Search name ps none
    found :
        (before : List String) (p : String) (after : List String) (f : String)
        → ps ≡ before ++ p ∷ after
        → AllWithout name before
        → IsCandidate name p f
        → host.exists f ≡ true
        → Search name ps (some f)

  search-later :
      (name p : String) (ps : List String) (o : Option String)
      → host.exists (host.join p (file_name host lib_prefix name)) ≡ false
      → host.exists (host.join p (file_name host lib_prefix_alt name)) ≡ false
      → Search name ps o
      → Search name (p ∷ ps) o
  search-later name p ps o a b (not_found w) = not_found (a, b, w)
  search-later name p ps o a b (found before q after f e w c x) =
      found (p ∷ before) q after f (ap (λ l. p ∷ l) e) (a, b, w) c x

  -- SearchPluginFile finds the plugin in the first search path that has a file of it, under the
  -- standard prefix if there is one, and throws PluginNotFound only if no search path has one.
  pub search_plugin_file_lem :
      (name : String) (ps : List String) → Search name ps (search_plugin_file host name ps)
  unfolding search_plugin_file
  search_plugin_file_lem name [] = not_found tt
  search_plugin_file_lem name (p ∷ ps) =
      let one = host.join p (file_name host lib_prefix name) in
      let other = host.join p (file_name host lib_prefix_alt name) in
      elim (Bool-cases (host.exists one)) [
        | inl e ↦ rw e (found [] p ps one refl tt (standard refl) e)
        | inr e ↦ elim (Bool-cases (host.exists other)) [
          | inl d ↦ rw (e, d) (found [] p ps other refl tt (alternative e refl) d)
          | inr d ↦ rw (e, d) (search-later name p ps _ e d (search_plugin_file_lem name ps))
        ]
      ]
