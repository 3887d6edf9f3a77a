-- ===== src/Tests/Parser.antt =====
-- A configuration (fairmq/JSONParser.cxx) with one channel of two sockets.
use Prim.Native.String.{String, ◌++◌}
use text.Mathlib.Text.{◌==◌ as str_eq}
use text.Mathlib.TextLemmas.{append_assoc, append_cancel_left}
use fair_mq.Prelude.{
  ℕ, zero, suc, ◌≡◌, refl, sym, ap, ◌∙◌, ◌==◌, ◌&&◌, Option, none, some, List, [], ◌∷◌,
  if◌then◌else◌,
}
use fair_mq.Channel.Endpoint.{strip}
use fair_mq.Channel.Address.{strip_clash, strip-append}
use fair_mq.Config.Parser.{Ptree}

-- Node 0 is the channel, node 1 its list of sockets, nodes 2 and 3 are the sockets.
abbrev nodes : ℕ → List (String × ℕ)
nodes zero = ("name", 4) ∷ ("sockets", 1) ∷ []
nodes (suc zero) = ("", 2) ∷ ("", 3) ∷ []
nodes (suc (suc n)) = []

abbrev texts : ℕ → String → Option String
texts n k =
    if n == 0 && str_eq k "name"
    then some "data"
    else if n == 2 && str_eq k "address"
    then some "tcp://localhost:5555"
    else none

abbrev tree : Ptree ℕ
tree = record {
  children = nodes;
  child = λ n k. none;
  text_at = texts;
  number_at = λ n k. none;
  flag_at = λ n k. none;
}

zeros : ℕ → String
zeros zero = "0"
zeros (suc n) = "0" ++ zeros n

-- A number in zeros begins with one.
zeros_head : (n : ℕ) (t : String) → (r : String) × (zeros n ++ t ≡ "0" ++ r)
unfolding zeros
zeros_head zero t = (t, refl)
zeros_head (suc n) t = (zeros n ++ t, append_assoc "0" (zeros n) t)

no_dot : (n : ℕ) (x t : String) → "." ++ x ≡ zeros n ++ t → ⊥
no_dot n x t e =
    let (r, h) = zeros_head n t in
    cc (ap (strip ".") (e ∙ h), strip-append "." x, strip_clash "." "0" "" "" r refl)

zeros_readable : (i j : ℕ) (x y : String) → zeros i ++ ("." ++ x) ≡ zeros j ++ ("." ++ y) → i ≡ j
unfolding zeros
zeros_readable zero zero x y e = refl
zeros_readable zero (suc j) x y e =
    absurd (
      no_dot j x ("." ++ y)
        (append_cancel_left "0" _ _ (e ∙ append_assoc "0" (zeros j) ("." ++ y))))
zeros_readable (suc i) zero x y e = absurd (
    no_dot i y ("." ++ x)
      (append_cancel_left "0" _ _ (sym e ∙ append_assoc "0" (zeros i) ("." ++ x))))
zeros_readable (suc i) (suc j) x y e = ap suc (
    zeros_readable i j x y (
      append_cancel_left "0" _ _
        (sym (append_assoc "0" (zeros i) ("." ++ x)) ∙ e ∙ append_assoc "0" (zeros j) ("." ++ y))))
