-- ===== src/Channel/Bind.antt =====
-- Channel::BindEndpoint (fairmq/Channel.cxx): the configured port, then random ones.
pub mod Search
use Prim.Native.Char.{Char, code}
use Prim.Native.String.{String, [], ◌∷◌, ◌++◌}
use text.Mathlib.Text.{◌==◌ as str_eq}
use text.Mathlib.TextEquality.{eq_iff}
use mathlib.Core.Path.{subst}
use text.Mathlib.TextLemmas.{nil-append, cons-append, append-nil}
use fair_mq.Prelude.{
  ℕ, zero, suc, ◌+◌, ◌<◌, ◌≤◌, ◌≡◌, refl, sym, ap, ◌∙◌, ◌↔◌, ◌⊎◌, inl, inr, Bool, true, false, not,
  ◌&&◌, if◌then◌else◌, ◌==◌, Bool-cases, arith,
}
use fair_mq.Channel.Endpoint.{contains}

-- s.substr(0, s.find(c)): all of `s` if it does not contain `c`
unfoldable pub before_first : Char → String → String
before_first c [] = []
before_first c (d ∷ s) = let rest = d ∷ before_first c s in if code d == code c then [] else rest

-- s.substr(0, s.rfind(c) + 1): nothing if `s` does not contain `c`, since npos + 1 is 0
unfoldable pub up_to_last : Char → String → String
unfolding contains
up_to_last c [] = []
up_to_last c (d ∷ s) =
    let rest = d ∷ up_to_last c s in
    if contains c s then rest else if code d == code c then d ∷ [] else []

-- `socket_bind n e` is what call `n` of Socket::Bind returns for `e`, and `port n` is the text of the
-- port drawn after it.
module _ (socket_bind : ℕ → String → Bool) (port : ℕ → String) where
  -- The loop with `k` attempts left, after call `n`.
  unfoldable pub try_ports : ℕ → ℕ → String → String × Bool
  unfolding up_to_last
  try_ports zero n e = (e, false)
  try_ports (suc k) n e =
      let e' = up_to_last ":" e ++ port n in
      let rest = try_ports k (suc n) e' in if socket_bind (suc n) e' then (e', true) else rest

  -- What is left in the caller's endpoint, and the result.
  unfoldable pub bind_endpoint : Bool → String → String × Bool
  unfolding before_first
  bind_endpoint auto_bind e =
      if socket_bind 0 e
      then (e, true)
      else if not (str_eq (before_first ":" e) "tcp")
      then (e, false)
      else if auto_bind
      then try_ports 1000 0 e
      else (e, false)
