-- ===== src/Plugins/Loading/Reloading.antt =====
-- Loading a plugin again (fairmq/PluginManager.cxx).
use Prim.Native.String.{String}
use fair_mq.Prelude.{◌≡◌, refl, ap, true, false, [], ◌∷◌, ◌++◌, put, find-put, eq_self}
use fair_mq.Plugins.Loading.{
  PluginManager, done, plugin_load_error, program, no_options_function, Host, has_factory,
  is_builtin, load_symbols, load_plugin_prelinked_dynamic, load_plugin_static,
}

module _ (host : Host) (n : String) (m : PluginManager) where
  static_builtin :
      is_builtin n ≡ true
      → has_factory n m ≡ false
      → load_plugin_static host n m
        ≡ (record m { options = n ∷ m.options; order = m.order ++ n ∷ [] }, done)
  unfolding load_plugin_static
  static_builtin b h = cc (b, h)

  prelinked_half :
      has_factory n m ≡ false
      → host.symbols n program ≡ no_options_function
      → load_plugin_prelinked_dynamic host n m
        ≡ (record m { factories = put n true m.factories }, plugin_load_error)
  unfolding load_plugin_prelinked_dynamic load_symbols
  prelinked_half h e = cc (h, e)

  has_put : has_factory n (record m { factories = put n true m.factories }) ≡ true
  unfolding has_factory
  has_put = cc (find-put n n true m.factories, eq_self n)

-- A builtin plugin is not among the factories: loaded as a static plugin a second time, it stands in
-- the order twice, so that ForEachPlugin calls its function with it twice.
pub builtin_loaded_twice :
    (host : Host) (n : String) (m : PluginManager)
    → is_builtin n ≡ true
    → has_factory n m ≡ false
    → (load_plugin_static host n (load_plugin_static host n m).0).0.order
      ≡ (m.order ++ n ∷ []) ++ n ∷ []
unfolding has_factory
builtin_loaded_twice host n m b h =
    let once = record m { options = n ∷ m.options; order = m.order ++ n ∷ [] } in
    cc (static_builtin host n m b h, static_builtin host n once b h)

-- If a plugin of the program has no function for its options, loading it fails; loading it again
-- returns as if it were loaded, and it is not in the order.
pub half_loaded_returns :
    (host : Host) (n : String) (m : PluginManager)
    → has_factory n m ≡ false
    → host.symbols n program ≡ no_options_function
    → ((load_plugin_prelinked_dynamic host n m).1 ≡ plugin_load_error)
      × (load_plugin_prelinked_dynamic host n (load_plugin_prelinked_dynamic host n m).0
          ≡ (record m { factories = put n true m.factories }, done))
unfolding load_plugin_prelinked_dynamic
half_loaded_returns host n m h e =
    let p = prelinked_half host n m h e in (ap (λ r. r.1) p, rw p (rw (has_put host n m) refl))
