-- ===== src/Plugins/Loading/Loaded.antt =====
-- What the plugin manager (fairmq/PluginManager.cxx) has loaded, it can make.
use mathlib.Core.Path.{subst}
use Prim.Native.String.{String}
use fair_mq.Prelude.{
  ◌≡◌, refl, inl, inr, true, Bool-cases, Option-cases, some, List, [], ◌∷◌, find, find-put, eq_self,
  arith,
}
use fair_mq.Channel.Endpoint.{strip}
use fair_mq.Plugins.Loading.{
  PluginManager, Ending, Location, file, in_system, program, Host, has_factory, is_builtin,
  for_each, push_order, lib_prefix, lib_prefix_alt, file_name, load_symbols,
  load_plugin_prelinked_dynamic, search_plugin_file, search_system, load_plugin_dynamic,
  load_plugin_static, load_plugin, load_plugins,
}
use fair_mq.Plugins.Loading.Sound.{
  Fresh, Sound, Kept, Kept-trans, Kept-refl, Kept-Sound, push-Sound, none_there, not_loaded,
  for_each-step,
}

module _ (host : Host) where
  load_symbols-Kept :
      (n : String) (at : Location) (m : PluginManager) → Kept m (load_symbols host n at m).0
  unfolding load_symbols
  load_symbols-Kept n at m = record {
    order = ground arith;
    factories = λ k h. ground (arith, find-put k n true m.factories, h);
  }

  load_symbols-true :
      (n : String) (at : Location) (m : PluginManager)
      → (load_symbols host n at m).1 ≡ true
      → find n (load_symbols host n at m).0.factories ≡ some true
  unfolding load_symbols
  load_symbols-true n at m h = ground (arith, find-put n n true m.factories, eq_self n)

  -- A call of LoadSymbols that ends a successful load
  loads-Sound :
      (n : String) (at : Location) (l m : PluginManager)
      → Kept l m
      → Fresh n l.order
      → Sound l
      → (load_symbols host n at m).1 ≡ true
      → Sound (push_order n (load_symbols host n at m).0)
  loads-Sound n at l m k f s h =
      push-Sound l (load_symbols host n at m).0 n
        (Kept-trans l m (load_symbols host n at m).0 k (load_symbols-Kept n at m))
        (inr (load_symbols-true n at m h)) f s

  search_system-Sound :
      (n : String) (ps : List String) (l m : PluginManager)
      → Kept l m
      → Fresh n l.order
      → Sound l
      → Sound (search_system host n ps m).0
  unfolding search_system
  search_system-Sound n [] l m k f s = Kept-Sound l m k s
  search_system-Sound n (p ∷ ps) l m k f s =
      let at = in_system (file_name host p n) in
      elim (Bool-cases (load_symbols host n at m).1) [
        | inl e ↦ rw e (loads-Sound n at l m k f s e)
        | inr e ↦ rw e (
            search_system-Sound n ps l (load_symbols host n at m).0
              (Kept-trans l m (load_symbols host n at m).0 k (load_symbols-Kept n at m)) f s)
      ]

  load_plugin_prelinked_dynamic-Sound :
      (n : String) (m : PluginManager) → Sound m → Sound (load_plugin_prelinked_dynamic host n m).0
  unfolding load_plugin_prelinked_dynamic
  load_plugin_prelinked_dynamic-Sound n m s = elim (Bool-cases (has_factory n m)) [
    | inl e ↦ rw e s
    | inr e ↦ elim (Bool-cases (load_symbols host n program m).1) [
      | inl d ↦
          rw (e, d)
            (loads-Sound n program m m (Kept-refl m)
              (not_loaded m n m.order (none_there n m e) s.loadable) s d)
      | inr d ↦ rw (e, d) (Kept-Sound m _ (load_symbols-Kept n program m) s)
    ]
  ]

  load_plugin_static-Sound :
      (n : String) (m : PluginManager) → Sound m → Sound (load_plugin_static host n m).0
  unfolding load_plugin_static
  load_plugin_static-Sound n m s = elim (Bool-cases (has_factory n m)) [
    | inl e ↦ rw e s
    | inr e ↦ elim (Bool-cases (is_builtin n)) [
      | inl b ↦
          rw (e, b)
            (push-Sound m (record m { options = n ∷ m.options }) n
              (record { order = refl; factories = λ k h. h }) (inl b) (inl b) s)
      | inr b ↦ elim (Bool-cases (load_symbols host n program m).1) [
        | inl d ↦
            rw (e, b, d)
              (loads-Sound n program m m (Kept-refl m)
                (not_loaded m n m.order (none_there n m e) s.loadable) s d)
        | inr d ↦ rw (e, b, d) (Kept-Sound m _ (load_symbols-Kept n program m) s)
      ]
    ]
  ]

  load_plugin_dynamic-Sound :
      (n : String) (m : PluginManager) → Sound m → Sound (load_plugin_dynamic host n m).0
  unfolding load_plugin_dynamic
  load_plugin_dynamic-Sound n m s = elim (Bool-cases (has_factory n m)) [
    | inl e ↦ rw e s
    | inr e ↦
        let f = not_loaded m n m.order (none_there n m e) s.loadable in
        let ps = lib_prefix ∷ lib_prefix_alt ∷ [] in
        elim (Option-cases (search_plugin_file host n m.search_paths)) [
          | inl o ↦ rw (e, o) (search_system-Sound n ps m m (Kept-refl m) f s)
          | inr (path, o) ↦ elim (Bool-cases (load_symbols host n (file path) m).1) [
            | inl d ↦ rw (e, o, d) (loads-Sound n (file path) m m (Kept-refl m) f s d)
            | inr d ↦
                rw (e, o, d)
                  (search_system-Sound n ps m (load_symbols host n (file path) m).0
                    (load_symbols-Kept n (file path) m) f s)
          ]
        ]
  ]

  -- Which mechanism a name stands for
  data Mechanism (n : String) (m : PluginManager) : PluginManager × Ending → Type 0 where
    prelinked : (r : String) → Mechanism n m (load_plugin_prelinked_dynamic host r m)
    dynamic : (r : String) → Mechanism n m (load_plugin_dynamic host r m)
    builtin : (r : String) → Mechanism n m (load_plugin_static host r m)

  load_plugin-Mechanism : (n : String) (m : PluginManager) → Mechanism n m (load_plugin host n m)
  unfolding load_plugin
  load_plugin-Mechanism n m = elim (Option-cases (strip "p:" n)) [
    | inr (r, e) ↦ subst (Mechanism n m) (cc e) (prelinked r)
    | inl p ↦ elim (Option-cases (strip "d:" n)) [
      | inr (r, e) ↦ subst (Mechanism n m) (cc (p, e)) (dynamic r)
      | inl d ↦ elim (Option-cases (strip "s:" n)) [
        | inr (r, e) ↦ subst (Mechanism n m) (cc (p, d, e)) (builtin r)
        | inl t ↦ subst (Mechanism n m) (cc (p, d, t)) (dynamic n)
      ]
    ]
  ]

  Mechanism-Sound :
      (n : String) (m : PluginManager) (r : PluginManager × Ending)
      → Mechanism n m r
      → Sound m
      → Sound r.0
  Mechanism-Sound n m r (prelinked k) s = load_plugin_prelinked_dynamic-Sound k m s
  Mechanism-Sound n m r (dynamic k) s = load_plugin_dynamic-Sound k m s
  Mechanism-Sound n m r (builtin k) s = load_plugin_static-Sound k m s

  -- Whatever plugins are loaded, and however far LoadPlugins comes: every plugin in the order is
  -- builtin or has a factory that is not empty, and only builtin plugins are in it twice.
  pub load_plugins-Sound :
      (ns : List String) (m : PluginManager) → Sound m → Sound (load_plugins host ns m).0
  unfolding load_plugins for_each
  load_plugins-Sound [] m s = s
  load_plugins-Sound (n ∷ ns) m s =
      let t = Mechanism-Sound n m (load_plugin host n m) (load_plugin-Mechanism n m) s in
      elim (for_each-step (load_plugin host) n ns m) [
        | inl e ↦ rw e (load_plugins-Sound ns (load_plugin host n m).0 t)
        | inr e ↦ rw e t
      ]
