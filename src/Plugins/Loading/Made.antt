-- ===== src/Plugins/Loading/Made.antt =====
-- InstantiatePlugins and ForEachPlugin (fairmq/PluginManager.cxx, fairmq/PluginManager.h).
use mathlib.Core.Path.{subst}
use Prim.Native.String.{String}
use fair_mq.Prelude.{
  ◌≡◌, refl, sym, ap, ◌∙◌, ◌⊎◌, inl, inr, Bool, true, false, Bool-cases, List, [], ◌∷◌, find,
  eq_self, arith,
}
use fair_mq.Plugins.Loading.{
  PluginManager, Ending, done, plugin_instantiation_error, Host, member, is_builtin, for_each,
  instantiate_plugin, instantiate_plugins, for_each_plugin,
}
use fair_mq.Plugins.Loading.Sound.{Loadable, AllLoadable, Sound, for_each-step}

abbrev pub each_there : List String → List (String × Bool)
each_there [] = []
each_there (n ∷ ns) = (n, true) ∷ each_there ns

module _ (host : Host) where
  -- How InstantiatePlugins ends: every plugin is made, so that ForEachPlugin meets no null pointer; or
  -- the constructor of one of them has thrown.
  pub data Made (ns : List String) : PluginManager × Ending → Type 0 where
    all_made : (m : PluginManager) → for_each_plugin ns m ≡ each_there ns → Made ns (m, done)
    one_threw :
        (m : PluginManager) (n : String)
        → member n ns ≡ true
        → host.makes n ≡ false
        → Made ns (m, plugin_instantiation_error)

  -- One plugin that can be made
  data One (n : String) (m : PluginManager) : PluginManager × Ending → Type 0 where
    there : member n m.plugins ≡ true → One n m (m, done)
    made : One n m (record m { plugins = n ∷ m.plugins }, done)
    threw : host.makes n ≡ false → One n m (m, plugin_instantiation_error)

  instantiate_plugin-One :
      (n : String) (m : PluginManager) → Loadable m n → One n m (instantiate_plugin host n m)
  unfolding instantiate_plugin
  instantiate_plugin-One n m l = elim (Bool-cases (member n m.plugins)) [
    | inl e ↦ subst (One n m) (cc e) (there e)
    | inr e ↦ elim (Bool-cases (host.makes n)) [
      | inl k ↦ elim (Bool-cases (is_builtin n)) [
        | inl b ↦ subst (One n m) (cc (e, k, b)) made
        | inr b ↦ elim l [
          | inl c ↦ absurd (cc (b, c))
          | inr f ↦ subst (One n m) (cc (e, k, b, f)) made
        ]
      ]
      | inr k ↦ elim (Bool-cases (is_builtin n)) [
        | inl b ↦ subst (One n m) (cc (e, k, b)) (threw k)
        | inr b ↦ elim l [
          | inl c ↦ absurd (cc (b, c))
          | inr f ↦ subst (One n m) (cc (e, k, b, f)) (threw k)
        ]
      ]
    ]
  ]

  -- What One says of the rest of the loop
  record Effect (n : String) (m : PluginManager) (r : PluginManager × Ending) : Type 0 where
    factories : r.0.factories ≡ m.factories
    plugins : (k : String) → member k m.plugins ≡ true → member k r.0.plugins ≡ true
    ending :
        ((r.1 ≡ done) × (member n r.0.plugins ≡ true))
        ⊎ ((r.1 ≡ plugin_instantiation_error) × (host.makes n ≡ false))

  One-Effect :
      (n : String) (m : PluginManager) (r : PluginManager × Ending) → One n m r → Effect n m r
  unfolding member
  One-Effect n m r (there e) = record {
    factories = refl;
    plugins = λ k h. h;
    ending = inl (refl, e);
  }
  One-Effect n m r made = record {
    factories = refl;
    plugins = λ k h. ground arith;
    ending = inl (refl, cc (eq_self n));
  }
  One-Effect n m r (threw e) = record {
    factories = refl;
    plugins = λ k h. h;
    ending = inr (refl, e);
  }

  AllLoadable-same :
      (m m' : PluginManager) (ns : List String)
      → m'.factories ≡ m.factories
      → AllLoadable m ns
      → AllLoadable m' ns
  AllLoadable-same m m' [] e a = tt
  AllLoadable-same m m' (n ∷ ns) e (inl b, a) = (inl b, AllLoadable-same m m' ns e a)
  AllLoadable-same m m' (n ∷ ns) e (inr f, a) =
      (inr (ap (find n) e ∙ f), AllLoadable-same m m' ns e a)

  -- What the loop leaves in fPlugins
  persists :
      (ns : List String) (m : PluginManager) (k : String)
      → AllLoadable m ns
      → member k m.plugins ≡ true
      → member k (for_each (instantiate_plugin host) ns m).0.plugins ≡ true
  unfolding for_each
  persists [] m k a h = h
  persists (n ∷ ns) m k (l, a) h =
      let m' = (instantiate_plugin host n m).0 in
      let t = One-Effect n m _ (instantiate_plugin-One n m l) in
      elim (for_each-step (instantiate_plugin host) n ns m) [
        | inl e ↦ rw e (persists ns m' k (AllLoadable-same m m' ns t.factories a) (t.plugins k h))
        | inr e ↦ rw e (t.plugins k h)
      ]

  Made-cons :
      (n : String) (ns : List String) (r : PluginManager × Ending)
      → member n r.0.plugins ≡ true
      → Made ns r
      → Made (n ∷ ns) r
  unfolding for_each_plugin member
  Made-cons n ns r h (all_made m e) = all_made m (cc (h, e))
  Made-cons n ns r h (one_threw m k i e) = one_threw m k (ground arith) e

  goes_on :
      (n : String) (ns : List String) (m : PluginManager)
      → (instantiate_plugin host n m).1 ≡ done
      → for_each (instantiate_plugin host) (n ∷ ns) m
        ≡ for_each (instantiate_plugin host) ns (instantiate_plugin host n m).0
  unfolding for_each
  goes_on n ns m d = cc d

  stops :
      (n : String) (ns : List String) (m : PluginManager)
      → (instantiate_plugin host n m).1 ≡ plugin_instantiation_error
      → for_each (instantiate_plugin host) (n ∷ ns) m
        ≡ ((instantiate_plugin host n m).0, plugin_instantiation_error)
  unfolding for_each
  stops n ns m d = cc d

  here : (n : String) (ns : List String) → member n (n ∷ ns) ≡ true
  unfolding member
  here n ns = cc (eq_self n)

  makes :
      (ns : List String) (m : PluginManager)
      → AllLoadable m ns
      → Made ns (for_each (instantiate_plugin host) ns m)
  unfolding for_each for_each_plugin
  makes [] m a = all_made m refl
  makes (n ∷ ns) m (l, a) =
      let m' = (instantiate_plugin host n m).0 in
      let t = One-Effect n m _ (instantiate_plugin-One n m l) in
      let a' = AllLoadable-same m m' ns t.factories a in
      elim t.ending [
        | inl (d, h) ↦
            subst (Made (n ∷ ns)) (sym (goes_on n ns m d))
              (Made-cons n ns _ (persists ns m' n a' h) (makes ns m' a'))
        | inr (d, h) ↦ subst (Made (n ∷ ns)) (sym (stops n ns m d)) (one_threw m' n (here n ns) h)
      ]

  -- If what is in the order can be loaded, InstantiatePlugins makes every plugin of the order, so that
  -- ForEachPlugin calls its function with each of them and never with a null pointer; or it throws
  -- because the constructor of a plugin in the order has thrown, and never because of an empty
  -- factory.
  pub instantiate_plugins_lem :
      (m : PluginManager) → Sound m → Made m.order (instantiate_plugins host m)
  unfolding instantiate_plugins
  instantiate_plugins_lem m s = makes m.order m s.loadable
