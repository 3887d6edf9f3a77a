-- ===== src/Config/Update.antt =====
-- When SetProperties and UpdateProperties (fairmq/ProgOptions.cxx) return false, throw, or go through,
-- and what they leave behind.
use Prim.Native.String.{String}
use mathlib.Core.List.{Memᴰ}
use mathlib.Core.List.Memᴰ.{head, tail}
use fair_mq.Prelude.{
  ◌≡◌, ◌≢◌, ◌↔◌, refl, sym, ap, ◌∙◌, false, inl, inr, Bool-cases, Option, Option-cases, none, List,
  [], ◌∷◌, find,
}
use fair_mq.Config.Reply.{thrown, refused}
use fair_mq.Channel.FromProperties.{Any}
use fair_mq.Config.{
  Config, count, emit, emit_all, put_all, set_properties, all_there, update_properties,
}
use fair_mq.Config.Event.{change, change_as_string}
use fair_mq.Config.Refine.{
  values, with_values, emit_all_known, emit_all_unregistered, set_properties-Reads,
  update_all_there, update_all_missing,
}

-- An entry of `input` whose key the map has not.
pub Missing : List (String × Any) → List (String × Any) → Type 0
Missing input m = (e : String × Any) × (Memᴰ e input × (find e.0 m ≡ none))

-- An entry of `input` whose value has a type that the table has not.
pub Unknown : (Any → Option String) → List (String × Any) → Type 0
Unknown to_text input = (e : String × Any) × (Memᴰ e input × (to_text e.1 ≡ none))

count-none : (k : String) (m : List (String × Any)) → count k m ≡ false → find k m ≡ none
unfolding count
count-none k m h = elim (Option-cases (find k m)) [ inl e ↦ e | inr (v, e) ↦ cc (h, e) ]

none-count : (k : String) (m : List (String × Any)) → find k m ≡ none → count k m ≡ false
unfolding count
none-count k m h = cc h

all_there-Missing : (input m : List (String × Any)) → all_there input m ≡ false → Missing input m
unfolding all_there Missing
all_there-Missing [] m h = cc h
all_there-Missing ((k, v) ∷ input) m h = elim (Bool-cases (count k m)) [
  | inl e ↦ let (x, (i, n)) = all_there-Missing input m (cc (h, e)) in (x, (tail i, n))
  | inr e ↦ ((k, v), (head refl, count-none k m e))
]

Missing-all_there :
    (input m : List (String × Any)) (e : String × Any)
    → Memᴰ e input
    → find e.0 m ≡ none
    → all_there input m ≡ false
unfolding all_there
Missing-all_there [] m e i n = elim i [ ]
Missing-all_there ((k, v) ∷ input) m e (head p) n =
    cc (none-count k m (ap (λ x. find x.0 m) (sym p) ∙ n))
Missing-all_there ((k, v) ∷ input) m e (tail i) n = elim (Bool-cases (count k m)) [
  | inl c ↦ cc (c, Missing-all_there input m e i n)
  | inr c ↦ cc c
]

module _ (to_text : Any → Option String) where
  emit_all-refused :
      (input : List (String × Any)) (c : Config) → (emit_all to_text input c).1 ≢ refused
  unfolding emit_all
  emit_all-refused [] c h = cc h
  emit_all-refused ((k, v) ∷ input) c h = elim (Option-cases (to_text v)) [
    | inl e ↦ cc (h, ap (λ r. r.1) (emit_all_unregistered to_text k v input c e))
    | inr (s, e) ↦
        emit_all-refused input (emit (change_as_string k s) (emit (change k v) c))
          (sym (ap (λ r. r.1) (emit_all_known to_text k v s input c e)) ∙ h)
  ]

  emit_all-Unknown :
      (input : List (String × Any)) (c : Config)
      → (emit_all to_text input c).1 ≡ thrown
      → Unknown to_text input
  unfolding Unknown emit_all
  emit_all-Unknown [] c h = cc h
  emit_all-Unknown ((k, v) ∷ input) c h = elim (Option-cases (to_text v)) [
    | inl e ↦ ((k, v), (head refl, e))
    | inr (s, e) ↦
        let (x, (i, n)) =
          emit_all-Unknown input (emit (change_as_string k s) (emit (change k v) c))
            (sym (ap (λ r. r.1) (emit_all_known to_text k v s input c e)) ∙ h) in
        (x, (tail i, n))
  ]

  Unknown-emit_all :
      (input : List (String × Any)) (c : Config) (x : String × Any)
      → Memᴰ x input
      → to_text x.1 ≡ none
      → (emit_all to_text input c).1 ≡ thrown
  Unknown-emit_all [] c x i n = elim i [ ]
  Unknown-emit_all ((k, v) ∷ input) c x (head p) n =
      ap (λ r. r.1) (emit_all_unregistered to_text k v input c (ap (λ y. to_text y.1) (sym p) ∙ n))
  Unknown-emit_all ((k, v) ∷ input) c x (tail i) n = elim (Option-cases (to_text v)) [
    | inl e ↦ ap (λ r. r.1) (emit_all_unregistered to_text k v input c e)
    | inr (s, e) ↦
        ap (λ r. r.1) (emit_all_known to_text k v s input c e)
        ∙ Unknown-emit_all input (emit (change_as_string k s) (emit (change k v) c)) x i n
  ]

  set_properties-refused :
      (input : List (String × Any)) (c : Config) → (set_properties to_text input c).1 ≢ refused
  unfolding set_properties
  set_properties-refused input c = emit_all-refused input (record c { vars = put_all input c.vars })

  -- SetProperties sets every value, also where it throws, and it throws exactly if a value has a type
  -- that is not in the table.
  pub set_properties_throws :
      (input : List (String × Any)) (c : Config)
      → (((set_properties to_text input c).1 ≡ thrown) ↔ Unknown to_text input)
        × ((k : String)
            → values (set_properties to_text input c).0 k ≡ with_values input (values c) k)
  unfolding set_properties values Unknown
  set_properties_throws input c = (
    (
      emit_all-Unknown input (record c { vars = put_all input c.vars }),
      λ (x, (i, n)). Unknown-emit_all input (record c { vars = put_all input c.vars }) x i n,
    ),
    set_properties-Reads to_text input c (values c) (λ k. refl),
  )

  -- UpdateProperties returns false exactly if a key of the input is missing, and then the values and
  -- the events are as before. Otherwise it sets every value.
  pub update_properties_all_or_none :
      (input : List (String × Any)) (c : Config)
      → (((update_properties to_text input c).1 ≡ refused) ↔ Missing input c.vars)
        × (((update_properties to_text input c).1 ≡ refused
              → (update_properties to_text input c).0 ≡ c)
            × ((update_properties to_text input c).1 ≢ refused
                → (k : String)
                → values (update_properties to_text input c).0 k ≡ with_values input (values c) k))
  unfolding Missing values
  update_properties_all_or_none input c = elim (Bool-cases (all_there input c.vars)) [
    | inl e ↦
        let q = update_all_there to_text input c e in
        (
          (
            λ h. elim (set_properties-refused input c (sym (ap (λ r. r.1) q) ∙ h)) [ ],
            λ (x, (i, n)). cc (e, Missing-all_there input c.vars x i n),
          ),
          (
            λ h. elim (set_properties-refused input c (sym (ap (λ r. r.1) q) ∙ h)) [ ],
            λ h k.
                ap (λ r. values r.0 k) q
                ∙ set_properties-Reads to_text input c (values c) (λ j. refl) k,
          ),
        )
    | inr e ↦
        let q = update_all_missing to_text input c e in
        (
          (λ h. all_there-Missing input c.vars e, λ h. ap (λ r. r.1) q),
          (λ h. ap (λ r. r.0) q, λ h. elim (h (ap (λ r. r.1) q)) [ ]),
        )
  ]
