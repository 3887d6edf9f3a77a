-- ===== src/Config/Parser/Emplaced.antt =====
-- Looking up what emplace has put into the properties (fairmq/JSONParser.cxx).
use Prim.Native.String.{String, ◌++◌}
use text.Mathlib.Text.{◌==◌ as str_eq}
use text.Mathlib.TextEquality.{eq_iff}
use fair_mq.Prelude.{
  ◌≡◌, refl, sym, ap, ◌∙◌, Bool, true, false, inl, inr, Bool-cases, Option, Option-cases, none,
  some, List, [], ◌∷◌, ◌++◌ as append, find, if◌then◌else◌,
}
use fair_mq.Channel.FromProperties.{Any}
use fair_mq.Config.AddChannel.RoundTrip.{same_prefix}
use fair_mq.Config.Parser.{emplace, emplace_settings}

-- The first of two that is there
abbrev pub or_else : Option Any → Option Any → Option Any
or_else none o = o
or_else (some v) o = some v

or_else_none : (o : Option Any) → or_else o none ≡ o
or_else_none none = refl
or_else_none (some v) = refl

or_else_assoc : (o p q : Option Any) → or_else (or_else o p) q ≡ or_else o (or_else p q)
or_else_assoc none p q = refl
or_else_assoc (some v) p q = refl

either :
    (b : Bool) (v : Any) (o : Option Any)
    → or_else (if b then some v else none) o ≡ (if b then some v else o)
either true v o = refl
either false v o = refl

find-snoc :
    (j k : String) (v : Any) (m : List (String × Any))
    → find j (append m ((k, v) ∷ [])) ≡ or_else (find j m) (if str_eq k j then some v else none)
unfolding find
find-snoc j k v [] = refl
find-snoc j k v ((i, w) ∷ m) = elim (Bool-cases (str_eq i j)) [
  | inl e ↦ cc e
  | inr e ↦ cc (e, find-snoc j k v m)
]

find-emplace :
    (j k : String) (v : Any) (m : List (String × Any))
    → find j (emplace k v m) ≡ or_else (find j m) (if str_eq k j then some v else none)
unfolding emplace
find-emplace j k v m = elim (Option-cases (find k m)) [
  | inl e ↦ cc (e, find-snoc j k v m)
  | inr (w, e) ↦ elim (Bool-cases (str_eq k j)) [
    | inl d ↦ cc (e, d, (eq_iff k j).0 d)
    | inr d ↦ cc (e, d, or_else_none (find j m))
  ]
]

pub find-emplace_settings :
    (p k : String) (s m : List (String × Any))
    → find (p ++ k) (emplace_settings p s m) ≡ or_else (find (p ++ k) m) (find k s)
unfolding emplace_settings find
find-emplace_settings p k [] m = sym (or_else_none (find (p ++ k) m))
find-emplace_settings p k ((j, v) ∷ s) m =
    find-emplace_settings p k s (emplace (p ++ j) v m)
    ∙ ap (λ o. or_else o (find k s))
        (find-emplace (p ++ k) (p ++ j) v m
          ∙ ap (λ b. or_else (find (p ++ k) m) (if b then some v else none)) (same_prefix p j k))
    ∙ or_else_assoc (find (p ++ k) m) (if str_eq j k then some v else none) (find k s)
    ∙ ap (or_else (find (p ++ k) m)) (either (str_eq j k) v (find k s))

pub find-apart :
    (p q : String) (s m : List (String × Any))
    → ((x : String) → str_eq (p ++ x) q ≡ false)
    → find q (emplace_settings p s m) ≡ find q m
unfolding emplace_settings
find-apart p q [] m h = refl
find-apart p q ((j, v) ∷ s) m h =
    find-apart p q s (emplace (p ++ j) v m) h
    ∙ find-emplace q (p ++ j) v m
    ∙ ap (λ b. or_else (find q m) (if b then some v else none)) (h j)
    ∙ or_else_none (find q m)
