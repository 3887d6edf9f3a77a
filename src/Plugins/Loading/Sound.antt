-- ===== src/Plugins/Loading/Sound.antt =====
-- What the plugin manager (fairmq/PluginManager.cxx) keeps while it loads: its order.
use mathlib.Core.Path.{subst}
use Prim.Native.String.{String}
use text.Mathlib.Text.{◌==◌ as str_eq}
use text.Mathlib.TextEquality.{eq_iff}
use fair_mq.Prelude.{
  ◌≡◌, refl, sym, ◌∙◌, ◌⊎◌, inl, inr, Bool, true, false, ◌||◌, Bool-cases, Option-cases, none, some,
  List, [], ◌∷◌, ◌++◌, find, arith,
}
use fair_mq.Plugins.Loading.{
  PluginManager, Ending, member, has_factory, is_builtin, for_each, push_order,
}

-- Builtin, or with a factory that is not empty
abbrev pub Loadable : PluginManager → String → Type 0
Loadable m n = (is_builtin n ≡ true) ⊎ (find n m.factories ≡ some true)

abbrev pub AllLoadable : PluginManager → List String → Type 0
AllLoadable m [] = Unit
AllLoadable m (n ∷ ns) = Loadable m n × AllLoadable m ns

-- Builtin, or not in the list
abbrev pub Fresh : String → List String → Type 0
Fresh n ns = (is_builtin n ≡ true) ⊎ (member n ns ≡ false)

-- Only builtin plugins occur twice.
abbrev pub Once : List String → Type 0
Once [] = Unit
Once (n ∷ ns) = Fresh n ns × Once ns

pub record Sound (m : PluginManager) : Type 0 where
  pub loadable : AllLoadable m m.order
  pub once : Once m.order

-- A step of loading that leaves the order and every factory
pub record Kept (m m' : PluginManager) : Type 0 where
  pub order : m'.order ≡ m.order
  pub factories : (k : String) → find k m.factories ≡ some true → find k m'.factories ≡ some true

pub Kept-trans : (l m n : PluginManager) → Kept l m → Kept m n → Kept l n
Kept-trans l m n a b = record {
  order = b.order ∙ a.order;
  factories = λ k h. b.factories k (a.factories k h);
}

pub Kept-refl : (m : PluginManager) → Kept m m
Kept-refl m = record { order = refl; factories = λ k h. h }

AllLoadable-Kept :
    (m m' : PluginManager) (ns : List String) → Kept m m' → AllLoadable m ns → AllLoadable m' ns
AllLoadable-Kept m m' [] k a = tt
AllLoadable-Kept m m' (n ∷ ns) k (inl b, a) = (inl b, AllLoadable-Kept m m' ns k a)
AllLoadable-Kept m m' (n ∷ ns) k (inr f, a) = (inr (k.factories n f), AllLoadable-Kept m m' ns k a)

AllLoadable-snoc :
    (m : PluginManager) (ns : List String) (n : String)
    → AllLoadable m ns
    → Loadable m n
    → AllLoadable m (ns ++ n ∷ [])
AllLoadable-snoc m [] n a l = (l, tt)
AllLoadable-snoc m (k ∷ ns) n a l = (a.0, AllLoadable-snoc m ns n a.1 l)

neither : (a b : Bool) → (a || b) ≡ false → (a ≡ false) × (b ≡ false)
neither true b e = cc e
neither false b e = (refl, e)

member-snoc :
    (k n : String) (ns : List String)
    → member k ns ≡ false
    → str_eq n k ≡ false
    → member k (ns ++ n ∷ []) ≡ false
unfolding member
member-snoc k n [] m e = cc e
member-snoc k n (j ∷ ns) m e =
    let (a, b) = neither (str_eq j k) (member k ns) m in rw a (member-snoc k n ns b e)

Fresh-snoc :
    (k n : String) (ns js : List String) → Fresh n (k ∷ ns) → Fresh k js → Fresh k (js ++ n ∷ [])
unfolding member
Fresh-snoc k n ns js f (inl b) = inl b
Fresh-snoc k n ns js f (inr m) = elim (Bool-cases (str_eq n k)) [
  | inr e ↦ inr (member-snoc k n js m e)
  | inl e ↦
      let p = (eq_iff n k).0 e in
      elim f [
        | inl b ↦ inl (subst (λ x. is_builtin x ≡ true) p b)
        | inr d ↦
            let q = (neither (str_eq k n) (member n ns) d).0 in
            absurd (cc (q, (eq_iff k n).1 (sym p)))
      ]
]

Fresh-tail : (n k : String) (ns : List String) → Fresh n (k ∷ ns) → Fresh n ns
unfolding member
Fresh-tail n k ns (inl b) = inl b
Fresh-tail n k ns (inr d) = inr (neither (str_eq k n) (member n ns) d).1

Once-snoc : (n : String) (ns : List String) → Once ns → Fresh n ns → Once (ns ++ n ∷ [])
unfolding member
Once-snoc n [] o f = (inr refl, tt)
Once-snoc n (k ∷ ns) (g, o) f = (Fresh-snoc k n ns ns f g, Once-snoc n ns o (Fresh-tail n k ns f))

pub Kept-Sound : (m m' : PluginManager) → Kept m m' → Sound m → Sound m'
Kept-Sound m m' k s = record {
  loadable = subst (AllLoadable m') (sym k.order) (AllLoadable-Kept m m' m.order k s.loadable);
  once = subst Once (sym k.order) s.once;
}

-- Without a factory a plugin that is not builtin is not in the order.
pub not_loaded :
    (m : PluginManager) (n : String) (ns : List String)
    → find n m.factories ≡ none
    → AllLoadable m ns
    → Fresh n ns
unfolding member
not_loaded m n [] h a = inr refl
not_loaded m n (k ∷ ns) h (l, a) = elim (Bool-cases (str_eq k n)) [
  | inl e ↦ elim l [
    | inl b ↦ inl (subst (λ x. is_builtin x ≡ true) ((eq_iff k n).0 e) b)
    | inr f ↦ absurd (cc (h, f, (eq_iff k n).0 e))
  ]
  | inr e ↦ elim (not_loaded m n ns h a) [ inl b ↦ inl b | inr d ↦ inr (cc (e, d)) ]
]

-- The plugin has been loaded, and was not in the order.
pub push-Sound :
    (m m' : PluginManager) (n : String)
    → Kept m m'
    → Loadable m' n
    → Fresh n m.order
    → Sound m
    → Sound (push_order n m')
push-Sound m m' n k l f s =
    let s' = Kept-Sound m m' k s in
    record {
      loadable = AllLoadable-snoc m' m'.order n s'.loadable l;
      once = Once-snoc n m'.order s'.once (subst (Fresh n) (sym k.order) f);
    }

pub none_there :
    (n : String) (m : PluginManager) → has_factory n m ≡ false → find n m.factories ≡ none
unfolding has_factory
none_there n m h = elim (Option-cases (find n m.factories)) [
  | inl e ↦ e
  | inr (b, e) ↦ absurd (cc (h, e))
]

-- A loop goes on, or stops after a call.
pub for_each-step :
    (f : String → PluginManager → PluginManager × Ending) (x : String) (xs : List String)
    (m : PluginManager)
    → (for_each f (x ∷ xs) m ≡ for_each f xs (f x m).0) ⊎ (for_each f (x ∷ xs) m ≡ f x m)
unfolding for_each
for_each-step f x xs m = ground arith
