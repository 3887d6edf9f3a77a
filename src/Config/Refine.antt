-- ===== src/Config/Refine.antt =====
-- What the operations on properties (fairmq/ProgOptions.cxx) do to the values, on a function from
-- keys to values.
use Prim.Native.String.{String}
use text.Mathlib.Text.{◌==◌ as str_eq}
use fair_mq.Prelude.{
  ◌≡◌, refl, sym, ap, ◌∙◌, Bool, true, false, inl, inr, Bool-cases, Option, Option-cases, none,
  some, List, [], ◌∷◌, if◌then◌else◌, find, put, erase, find-put, find-erase,
}
use fair_mq.Config.Event.{change, change_as_string}
use fair_mq.Config.Reply.{thrown, refused}
use fair_mq.Channel.FromProperties.{Any}
use fair_mq.Config.{
  Config, count, emit, emit_property, emit_all, get_property_as_string, set_property,
  update_property, put_all, set_properties, all_there, update_properties, delete_property, set_var,
}

pub data Operation : Type 0 where
  set_one update_one : String → Any → Operation
  set_many update_many : List (String × Any) → Operation
  delete : String → Operation

unfoldable pub apply : (Any → Option String) → Operation → Config → Config
apply to_text (set_one k v) c = (set_property to_text k v c).0
apply to_text (update_one k v) c = (update_property to_text k v c).0
apply to_text (set_many input) c = (set_properties to_text input c).0
apply to_text (update_many input) c = (update_properties to_text input c).0
apply to_text (delete k) c = delete_property k c

unfoldable pub run : (Any → Option String) → List Operation → Config → Config
run to_text [] c = c
run to_text (o ∷ os) c = run to_text os (apply to_text o c)

-- The values as a function, and the operations on it.
abbrev pub Values : Type 0
Values = String → Option Any

unfoldable pub with_value : String → Option Any → Values → Values
with_value k v f j = if str_eq k j then v else f j

unfoldable pub with_values : List (String × Any) → Values → Values
with_values [] f = f
with_values ((k, v) ∷ input) f = with_values input (with_value k (some v) f)

unfoldable pub has : String → Values → Bool
has k f = elim (f k) [ none ↦ false | some v ↦ true ]

unfoldable pub has_all : List (String × Any) → Values → Bool
has_all [] f = true
has_all ((k, v) ∷ input) f = if has k f then has_all input f else false

unfoldable pub meant : Operation → Values → Values
meant (set_one k v) f = with_value k (some v) f
meant (update_one k v) f = if has k f then with_value k (some v) f else f
meant (set_many input) f = with_values input f
meant (update_many input) f = if has_all input f then with_values input f else f
meant (delete k) f = with_value k none f

unfoldable pub meant_all : List Operation → Values → Values
meant_all [] f = f
meant_all (o ∷ os) f = meant_all os (meant o f)

-- The values that a configuration has.
unfoldable pub values : Config → Values
values c k = find k c.vars

module _ (to_text : Any → Option String) where
  emit_property_vars :
      (k : String) (v : Any) (c : Config) → (emit_property to_text k v c).0.vars ≡ c.vars
  unfolding emit_property emit
  emit_property_vars k v c =
      elim (Option-cases (get_property_as_string to_text k (emit (change k v) c))) [
        | inl e ↦ cc e
        | inr (s, e) ↦ cc e
      ]

  pub emit_all_known :
      (k : String) (v : Any) (s : String) (input : List (String × Any)) (c : Config)
      → to_text v ≡ some s
      → emit_all to_text ((k, v) ∷ input) c
        ≡ emit_all to_text input (emit (change_as_string k s) (emit (change k v) c))
  unfolding emit_all
  emit_all_known k v s input c h = rw (emit_all, h) refl

  pub emit_all_unregistered :
      (k : String) (v : Any) (input : List (String × Any)) (c : Config)
      → to_text v ≡ none
      → emit_all to_text ((k, v) ∷ input) c ≡ (c, thrown)
  unfolding emit_all
  emit_all_unregistered k v input c h = rw (emit_all, h) refl

  emit_all_vars :
      (input : List (String × Any)) (c : Config) → (emit_all to_text input c).0.vars ≡ c.vars
  unfolding emit_all emit
  emit_all_vars [] c = refl
  emit_all_vars ((k, v) ∷ input) c = elim (Option-cases (to_text v)) [
    | inl e ↦ ap (λ r. r.0.vars) (emit_all_unregistered k v input c e)
    | inr (s, e) ↦
        ap (λ r. r.0.vars) (emit_all_known k v s input c e)
        ∙ emit_all_vars input (emit (change_as_string k s) (emit (change k v) c))
  ]

-- What a function of the keys sees of the map.
abbrev Reads : List (String × Any) → Values → Type 0
Reads m f = (k : String) → find k m ≡ f k

Reads-with :
    (k : String) (v : Any) (m : List (String × Any)) (f : Values)
    → Reads m f
    → Reads (put k v m) (with_value k (some v) f)
unfolding with_value
Reads-with k v m f r j = find-put j k v m ∙ ap (λ o. if str_eq k j then some v else o) (r j)

Reads-without :
    (k : String) (m : List (String × Any)) (f : Values)
    → Reads m f
    → Reads (erase k m) (with_value k none f)
unfolding with_value
Reads-without k m f r j = find-erase j k m ∙ ap (λ o. if str_eq k j then none else o) (r j)

Reads-with_all :
    (input m : List (String × Any)) (f : Values)
    → Reads m f
    → Reads (put_all input m) (with_values input f)
unfolding put_all with_values
Reads-with_all [] m f r = r
Reads-with_all ((k, v) ∷ input) m f r =
    Reads-with_all input (put k v m) (with_value k (some v) f) (Reads-with k v m f r)

Reads-count : (k : String) (m : List (String × Any)) (f : Values) → Reads m f → count k m ≡ has k f
unfolding count has
Reads-count k m f r = ap (λ o. elim o [ none ↦ false | some v ↦ true ]) (r k)

Reads-all_there :
    (input m : List (String × Any)) (f : Values) → Reads m f → all_there input m ≡ has_all input f
unfolding all_there has_all
Reads-all_there [] m f r = refl
Reads-all_there ((k, v) ∷ input) m f r = elim (Bool-cases (has k f)) [
  | inl e ↦ cc (e, Reads-count k m f r, Reads-all_there input m f r)
  | inr e ↦ cc (e, Reads-count k m f r)
]

module _ (to_text : Any → Option String) where
  update_there :
      (k : String) (v : Any) (c : Config)
      → count k c.vars ≡ true
      → update_property to_text k v c ≡ set_property to_text k v c
  unfolding update_property set_property
  update_there k v c h = rw (update_property, h) refl

  update_missing :
      (k : String) (v : Any) (c : Config)
      → count k c.vars ≡ false
      → update_property to_text k v c ≡ (c, refused)
  unfolding update_property
  update_missing k v c h = rw (update_property, h) refl

  pub update_all_there :
      (input : List (String × Any)) (c : Config)
      → all_there input c.vars ≡ true
      → update_properties to_text input c ≡ set_properties to_text input c
  unfolding update_properties set_properties
  update_all_there input c h = rw (update_properties, h) refl

  pub update_all_missing :
      (input : List (String × Any)) (c : Config)
      → all_there input c.vars ≡ false
      → update_properties to_text input c ≡ (c, refused)
  unfolding update_properties
  update_all_missing input c h = rw (update_properties, h) refl

  set_property-Reads :
      (k : String) (v : Any) (c : Config) (f : Values)
      → Reads c.vars f
      → Reads (set_property to_text k v c).0.vars (with_value k (some v) f)
  unfolding set_property set_var
  set_property-Reads k v c f r j =
      ap (find j) (emit_property_vars to_text k v (set_var k v c)) ∙ Reads-with k v c.vars f r j

  pub set_properties-Reads :
      (input : List (String × Any)) (c : Config) (f : Values)
      → Reads c.vars f
      → Reads (set_properties to_text input c).0.vars (with_values input f)
  unfolding set_properties
  set_properties-Reads input c f r j =
      ap (find j) (emit_all_vars to_text input (record c { vars = put_all input c.vars }))
      ∙ Reads-with_all input c.vars f r j

  apply-Reads :
      (o : Operation) (c : Config) (f : Values)
      → Reads c.vars f
      → Reads (apply to_text o c).vars (meant o f)
  unfolding apply meant delete_property
  apply-Reads (set_one k v) c f r j = set_property-Reads k v c f r j
  apply-Reads (update_one k v) c f r j = elim (Bool-cases (has k f)) [
    | inl e ↦
        ap (λ o. find j o.0.vars) (update_there k v c (Reads-count k c.vars f r ∙ e))
        ∙ set_property-Reads k v c f r j
        ∙ ap (λ b. (if b then with_value k (some v) f else f) j) (sym e)
    | inr e ↦
        ap (λ o. find j o.0.vars) (update_missing k v c (Reads-count k c.vars f r ∙ e))
        ∙ r j
        ∙ ap (λ b. (if b then with_value k (some v) f else f) j) (sym e)
  ]
  apply-Reads (set_many input) c f r j = set_properties-Reads input c f r j
  apply-Reads (update_many input) c f r j = elim (Bool-cases (has_all input f)) [
    | inl e ↦
        ap (λ o. find j o.0.vars) (update_all_there input c (Reads-all_there input c.vars f r ∙ e))
        ∙ set_properties-Reads input c f r j
        ∙ ap (λ b. (if b then with_values input f else f) j) (sym e)
    | inr e ↦
        ap (λ o. find j o.0.vars)
          (update_all_missing input c (Reads-all_there input c.vars f r ∙ e))
        ∙ r j
        ∙ ap (λ b. (if b then with_values input f else f) j) (sym e)
  ]
  apply-Reads (delete k) c f r j = Reads-without k c.vars f r j

  run-Reads :
      (os : List Operation) (c : Config) (f : Values)
      → Reads c.vars f
      → Reads (run to_text os c).vars (meant_all os f)
  unfolding run meant_all
  run-Reads [] c f r = r
  run-Reads (o ∷ os) c f r = run-Reads os (apply to_text o c) (meant o f) (apply-Reads o c f r)

  -- After any operations, one after another, a key has the value that the same operations give on a
  -- function from keys to values, whatever the table of types.
  pub run_refines :
      (os : List Operation) (c : Config) (k : String)
      → values (run to_text os c) k ≡ meant_all os (values c) k
  unfolding values
  run_refines os c k = run-Reads os c (values c) (λ j. refl) k
