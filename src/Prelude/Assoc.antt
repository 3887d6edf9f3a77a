-- ===== src/Prelude/Assoc.antt =====
-- Maps from texts as lists of pairs: the first pair with a key counts.
use Prim.Native.String.{String}
use text.Mathlib.Text.{◌==◌ as str_eq}
use text.Mathlib.TextEquality.{eq_iff}
use mathlib.Core.Path.{◌≡◌, refl, sym, ◌∙◌}
use mathlib.Core.Logic.{inl, inr}
use mathlib.Core.Bool.{true, false}
use mathlib.Core.Option.{Option, none, some}
use mathlib.Core.List.{List, [], ◌∷◌}
use fair_mq.Prelude.Tests.{if◌then◌else◌, Bool-cases}

-- find, or at of a key that is there
unfoldable pub find {ℓ} : {C : Type ℓ} → String → List (String × C) → Option C
find k [] = none
find k ((j, c) ∷ m) = let rest = find k m in if str_eq j k then some c else rest

-- erase of a key
unfoldable pub erase {ℓ} : {C : Type ℓ} → String → List (String × C) → List (String × C)
erase k [] = []
erase k ((j, c) ∷ m) = let rest = erase k m in if str_eq j k then rest else (j, c) ∷ rest

-- The assignment m[k] = c.
unfoldable pub put {ℓ} : {C : Type ℓ} → String → C → List (String × C) → List (String × C)
put k c [] = (k, c) ∷ []
put k c ((j, d) ∷ m) = let rest = put k c m in if str_eq j k then (j, c) ∷ m else (j, d) ∷ rest

pub eq_self : (k : String) → str_eq k k ≡ true
eq_self k = (eq_iff k k).1 refl

clash : (i j k : String) → str_eq i j ≡ false → str_eq i k ≡ true → str_eq j k ≡ true → true ≡ false
clash i j k e p q = sym ((eq_iff i j).1 ((eq_iff i k).0 p ∙ sym ((eq_iff j k).0 q))) ∙ e

module _ {ℓ} {C : Type ℓ} where
  pub find-put :
      (k j : String) (c : C) (m : List (String × C))
      → find k (put j c m) ≡ (if str_eq j k then some c else find k m)
  unfolding find put
  find-put k j c [] = refl
  find-put k j c ((i, d) ∷ m) = elim (Bool-cases (str_eq i j)) [
    | inl e ↦ elim (Bool-cases (str_eq j k)) [
      | inl p ↦ cc (e, p, (eq_iff i j).0 e)
      | inr p ↦ cc (e, p, (eq_iff i j).0 e)
    ]
    | inr e ↦ elim (Bool-cases (str_eq i k)) [
      | inl p ↦ elim (Bool-cases (str_eq j k)) [
        | inl q ↦ cc (clash i j k e p q)
        | inr q ↦ cc (e, p, q)
      ]
      | inr p ↦ cc (e, p, find-put k j c m)
    ]
  ]

  pub find-erase :
      (k j : String) (m : List (String × C))
      → find k (erase j m) ≡ (if str_eq j k then none else find k m)
  unfolding find erase
  find-erase k j [] = elim (Bool-cases (str_eq j k)) [ inl e ↦ cc e | inr e ↦ cc e ]
  find-erase k j ((i, d) ∷ m) = elim (Bool-cases (str_eq i j)) [
    | inl e ↦ elim (Bool-cases (str_eq j k)) [
      | inl p ↦ cc (e, p, find-erase k j m)
      | inr p ↦ cc (e, p, (eq_iff i j).0 e, find-erase k j m)
    ]
    | inr e ↦ elim (Bool-cases (str_eq i k)) [
      | inl p ↦ elim (Bool-cases (str_eq j k)) [
        | inl q ↦ cc (clash i j k e p q)
        | inr q ↦ cc (e, p, q)
      ]
      | inr p ↦ cc (e, p, find-erase k j m)
    ]
  ]
