-- ===== src/Config/Parser/Indexed.antt =====
-- The channels of one name in the properties (fairmq/JSONParser.cxx), as InitWrapper
-- (fairmq/Device.cxx) finds them.
use Prim.Native.String.{String, ◌++◌}
use text.Mathlib.Text.{◌==◌ as str_eq}
use text.Mathlib.TextLemmas.{append_assoc, append_cancel_left}
use fair_mq.Prelude.{
  ℕ, suc, ◌≤◌, ◌<◌, ◌≡◌, ◌≢◌, refl, sym, ap, ◌∙◌, false, none, List, [], ◌∷◌, find, arith,
}
use fair_mq.Channel.FromProperties.{Any}
use fair_mq.Config.AddChannel.{channel_prefix}
use fair_mq.Config.AddChannel.RoundTrip.{eq_false}
use fair_mq.Config.Parser.{emplace_settings}
use fair_mq.Config.Parser.Emplaced.{or_else, find-emplace_settings, find-apart}

prefix_assoc :
    (name a x : String)
    → channel_prefix name a ++ x ≡ "chans." ++ (name ++ ("." ++ (a ++ ("." ++ x))))
unfolding channel_prefix
prefix_assoc name a x =
    append_assoc "chans." (name ++ ("." ++ (a ++ "."))) x
    ∙ ap (λ t. "chans." ++ t)
        (append_assoc name ("." ++ (a ++ ".")) x
          ∙ ap (λ t. name ++ t)
              (append_assoc "." (a ++ ".") x ∙ ap (λ t. "." ++ t) (append_assoc a "." x)))

-- Lists of settings, one for each index from `i` on
unfoldable pub emplace_list :
    (ℕ → String)
    → String
    → ℕ
    → List (List (String × Any))
    → List (String × Any)
    → List (String × Any)
emplace_list show name i [] m = m
emplace_list show name i (s ∷ ss) m =
    emplace_list show name (suc i) ss (emplace_settings (channel_prefix name (show i)) s m)

-- The properties hold these settings from index `i` on, and nothing else there.
abbrev pub Holds :
    (ℕ → String) → String → ℕ → List (List (String × Any)) → List (String × Any) → Type 0
Holds show name i [] m = Unit
Holds show name i (s ∷ ss) m =
    ((k : String) → find (channel_prefix name (show i) ++ k) m ≡ find k s)
    × Holds show name (suc i) ss m

-- `show` writes a number so that the text up to a dot determines it.
module _ (show : ℕ → String)
    (readable : (i j : ℕ) (x y : String) → show i ++ ("." ++ x) ≡ show j ++ ("." ++ y) → i ≡ j)
    (name : String) where
  apart :
      (i j : ℕ) (x y : String)
      → i ≢ j
      → str_eq (channel_prefix name (show i) ++ x) (channel_prefix name (show j) ++ y) ≡ false
  apart i j x y n = eq_false _ _ (λ e. absurd (
      n (
        readable i j x y (
          append_cancel_left "." _ _ (
            append_cancel_left name _ _ (
              append_cancel_left "chans." _ _
                (sym (prefix_assoc name (show i) x) ∙ e ∙ prefix_assoc name (show j) y)))))))

  find-emplace_list :
      (j i : ℕ) (k : String) (ss : List (List (String × Any))) (m : List (String × Any))
      → j < i
      → find (channel_prefix name (show j) ++ k) (emplace_list show name i ss m)
        ≡ find (channel_prefix name (show j) ++ k) m
  unfolding emplace_list
  find-emplace_list j i k [] m h = refl
  find-emplace_list j i k (s ∷ ss) m h =
      find-emplace_list j (suc i) k ss _ (omega (arith, h))
      ∙ find-apart (channel_prefix name (show i)) (channel_prefix name (show j) ++ k) s m
          (λ x. apart i j x k (λ e. absurd (omega (arith, h, e))))

  pub emplace_list-Holds :
      (i : ℕ) (ss : List (List (String × Any))) (m : List (String × Any))
      → ((j : ℕ) (k : String) → i ≤ j → find (channel_prefix name (show j) ++ k) m ≡ none)
      → Holds show name i ss (emplace_list show name i ss m)
  unfolding emplace_list
  emplace_list-Holds i [] m f = tt
  emplace_list-Holds i (s ∷ ss) m f =
      let p = channel_prefix name (show i) in
      let m' = emplace_settings p s m in
      (
        λ k.
            find-emplace_list i (suc i) k ss m' (omega arith)
            ∙ find-emplace_settings p k s m
            ∙ ap (λ o. or_else o (find k s)) (f i k (omega arith)),
        emplace_list-Holds (suc i) ss m' (λ j k h.
            find-apart p (channel_prefix name (show j) ++ k) s m
              (λ x. apart i j x k (λ e. absurd (omega (arith, h, e))))
            ∙ f j k (omega (arith, h))),
      )
