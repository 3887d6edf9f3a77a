-- ===== src/Channel/Endpoint.antt =====
-- The check of one endpoint in Channel::Validate (fairmq/Channel.cxx), and the texts it accepts.
use Prim.Native.Char.{Char, code}
use Prim.Native.String.{String, [], ◌∷◌}
use text.Mathlib.Text.{◌==◌ as str_eq}
use fair_mq.Prelude.{Bool, true, false, ◌||◌, Option, none, some, if◌then◌else◌, ◌==◌ as num_eq}

-- addressString.find(c) != string::npos
unfoldable pub contains : Char → String → Bool
contains c [] = false
contains c (d ∷ s) = num_eq (code d) (code c) || contains c s

-- What a loop round of Validate finds: nothing wrong, an address that makes it return false, or a
-- method that makes it throw.
pub data Check : Type 0 where
  passed refused thrown : Check

-- address.compare(0, n, p) == 0 for the text `p` of n characters, with address.substr(n) if so
unfoldable pub strip : String → String → Option String
strip [] s = some s
strip (c ∷ p) [] = none
strip (c ∷ p) (d ∷ s) = let rest = strip p s in if num_eq (code c) (code d) then rest else none

-- !addressString.empty()
unfoldable pub not_empty : String → Bool
not_empty [] = false
not_empty (c ∷ s) = true

-- The chain of tests on the address, without its modifier.
unfoldable pub address_ok : String → Bool
unfolding contains strip not_empty
address_ok a = elim (strip "tcp://" a) [
  | some r ↦ contains ":" r
  | none ↦ elim (strip "ipc://" a) [
    | some r ↦ not_empty r
    | none ↦ elim (strip "inproc://" a) [
      | some r ↦ not_empty r
      | none ↦ elim (strip "verbs://" a) [ some r ↦ not_empty r | none ↦ false ]
    ]
  ]
]

-- endpoint[0] == '@' || endpoint[0] == '+' || endpoint[0] == '>'
unfoldable pub has_modifier : String → Bool
has_modifier [] = false
has_modifier (c ∷ s) =
    num_eq (code c) (code "@") || num_eq (code c) (code "+") || num_eq (code c) (code ">")

-- endpoint.substr(1)
unfoldable pub without_first : String → String
without_first [] = []
without_first (c ∷ s) = s

unfoldable pub check_address : String → Check
unfolding address_ok
check_address a = if address_ok a then passed else refused

unfoldable pub known_method : String → Bool
known_method s = str_eq s "bind" || str_eq s "connect"

unfoldable pub check_endpoint : String → String → Check
unfolding has_modifier without_first known_method check_address
check_endpoint method e =
    if has_modifier e
    then check_address (without_first e)
    else if known_method method
    then check_address e
    else thrown
