-- ===== src/Channel/Name.antt =====
-- The characters of a channel's name, as Channel::Validate (fairmq/Channel.cxx) tests them.
use Prim.Native.Char.{Char, code}
use Prim.Native.String.{String, [], ◌∷◌}
use fair_mq.Prelude.{◌≡◌, refl, ◌↔◌, Bool, true, ◌||◌, ◌&&◌, leb, ◌==◌, Bool-cases, inl, inr}
use fair_mq.Channel.Endpoint.{contains}
use fair_mq.Channel.Address.{code_eq, code_refl, or_true}

-- a-z, A-Z, 0-9, -, _, [, ], #
unfoldable pub legal : Char → Bool
legal c =
    (leb (code "a") (code c) && leb (code c) (code "z"))
    || (leb (code "A") (code c) && leb (code c) (code "Z"))
    || (leb (code "0") (code c) && leb (code c) (code "9"))
    || (code c == code "-")
    || (code c == code "_")
    || (code c == code "[")
    || (code c == code "]")
    || (code c == code "#")

-- !regex_search(fName, m, regex("[^a-zA-Z0-9\\-_\\[\\]#]"))
unfoldable pub name_ok : String → Bool
unfolding legal
name_ok [] = true
name_ok (c ∷ s) = legal c && name_ok s

head_of : (c : Char) (s : String) → contains c (c ∷ s) ≡ true
unfolding contains
head_of c s = rw (code_refl c) refl

-- The test passes a name all of whose characters are legal.
pub name_ok_iff :
    (s : String) → (name_ok s ≡ true) ↔ ((c : Char) → contains c s ≡ true → legal c ≡ true)
unfolding name_ok contains
name_ok_iff [] = (λ h c k. cc k, λ h. refl)
name_ok_iff (d ∷ s) = (
  λ h c k. elim (Bool-cases (code d == code c)) [
    | inl e ↦ elim (Bool-cases (legal d)) [ inl l ↦ cc (l, code_eq d c e) | inr l ↦ cc (h, l) ]
    | inr e ↦ elim (Bool-cases (legal d)) [
      | inl l ↦ (name_ok_iff s).0 (cc (h, l)) c (cc (k, e))
      | inr l ↦ cc (h, l)
    ]
  ],
  λ h. cc (h d (head_of d s), (name_ok_iff s).1 (λ c k. h c (cc (k, or_true (code d == code c))))),
)
