-- ===== src/Config/Parser/Reference.antt =====
-- What the parser (fairmq/JSONParser.cxx) makes of the node of a channel, told without its loops.
use Prim.Native.String.{String}
use text.Mathlib.Text.{◌==◌ as str_eq}
use fair_mq.Prelude.{
  ℕ, zero, suc, ◌+◌, ℤ, pos, negsuc, ◌==◌, ◌≡◌, refl, sym, ap, ◌∙◌, false, inl, inr, Bool-cases,
  Option, none, some, List, [], ◌∷◌, ◌++◌ as append, length, length-append, if◌then◌else◌, arith,
}
use fair_mq.Channel.FromProperties.{Any}
use fair_mq.Config.AddChannel.{channel_prefix}
use fair_mq.Config.Parser.{
  Ptree, default_settings, emplace_settings, read_all, socket_nodes, sub_channel_nodes,
  sub_channel_parser, same_sockets, parse_channel,
}
use fair_mq.Config.Parser.Indexed.{emplace_list}

emplace_list-append :
    (show : ℕ → String) (name : String) (i : ℕ) (ss ts : List (List (String × Any)))
    (m : List (String × Any))
    → emplace_list show name i (append ss ts) m
      ≡ emplace_list show name (i + length ss) ts (emplace_list show name i ss m)
unfolding emplace_list
emplace_list-append show name i [] ts m = ap (λ j. emplace_list show name j ts m) (omega arith)
emplace_list-append show name i (s ∷ ss) ts m =
    emplace_list-append show name (suc i) ss ts
      (emplace_settings (channel_prefix name (show i)) s m)
    ∙ ap
        (λ j.
          emplace_list show name j ts (
            emplace_list show name (suc i) ss
              (emplace_settings (channel_prefix name (show i)) s m)))
        (omega arith)

-- What numSockets can be
data Count (o : Option ℤ) : Type 0 where
  none_given : o ≡ none → Count o
  negative : (n : ℕ) → o ≡ some (negsuc n) → Count o
  no_sockets : o ≡ some (pos zero) → Count o
  some_sockets : (n : ℕ) → o ≡ some (pos (suc n)) → Count o

Count-cases : (o : Option ℤ) → Count o
Count-cases none = none_given refl
Count-cases (some (negsuc n)) = negative n refl
Count-cases (some (pos zero)) = no_sockets refl
Count-cases (some (pos (suc n))) = some_sockets n refl

not_zero : (n : ℕ) → (suc n == 0) ≡ false
not_zero n = ground arith

from_zero : (n : ℕ) → 0 + n ≡ n
from_zero n = omega arith

-- The same settings `n` times
unfoldable pub replicate : ℕ → List (String × Any) → List (List (String × Any))
replicate zero s = []
replicate (suc n) s = s ∷ replicate n s

module _ {T : Type 0} (tree : Ptree T) where
  -- The settings of the nodes of sockets, each with the defaults `common`
  unfoldable pub settings_of_nodes :
      List (String × Any) → List (String × T) → List (List (String × Any))
  settings_of_nodes common [] = []
  settings_of_nodes common ((k, sn) ∷ ns) = read_all tree sn common ∷ settings_of_nodes common ns

  unfoldable pub socket_settings :
      List (String × Any) → List (String × T) → List (List (String × Any))
  socket_settings common [] = []
  socket_settings common ((k, n) ∷ ns) =
      let rest = socket_settings common ns in
      if str_eq k "sockets" then append (settings_of_nodes common (tree.children n)) rest else rest

  -- Where a channel has no sockets of its own, its settings are those of one socket.
  unfoldable pub or_common :
      List (String × Any) → List (List (String × Any)) → List (List (String × Any))
  or_common common [] = common ∷ []
  or_common common (s ∷ ss) = s ∷ ss

  -- The settings of the sockets of a channel: the common ones, as often as numSockets says, or those
  -- of its sockets with the common ones for what they do not set.
  unfoldable pub channel_settings : T → List (List (String × Any))
  channel_settings cn =
      let common = read_all tree cn default_settings in
      let own = or_common common (socket_settings common (tree.children cn)) in
      elim (tree.number_at cn "numSockets") [
        | none ↦ own
        | some (negsuc n) ↦ own
        | some (pos zero) ↦ own
        | some (pos (suc n)) ↦ replicate (suc n) common
      ]

  module _ (show : ℕ → String) (name : String) (common : List (String × Any)) where
    socket_nodes_lem :
        (ns : List (String × T)) (i : ℕ) (m : List (String × Any))
        → socket_nodes tree show name common ns i m ≡ (
          i + length (settings_of_nodes common ns),
          emplace_list show name i (settings_of_nodes common ns) m,
        )
    unfolding socket_nodes emplace_list settings_of_nodes
    socket_nodes_lem [] i m = ap (λ j. (j, m)) (omega arith)
    socket_nodes_lem ((k, sn) ∷ ns) i m =
        socket_nodes_lem ns (suc i) _
        ∙ ap
            (λ j. (
              j,
              emplace_list show name (suc i) (settings_of_nodes common ns)
                  (emplace_settings (channel_prefix name (show i)) (read_all tree sn common) m),
            ))
            (omega arith)

    joined :
        (i : ℕ) (ss ts : List (List (String × Any))) (m : List (String × Any))
        → ◌≡◌ {A = ℕ × List (String × Any)}
            (
              i + length ss + length ts,
              emplace_list show name (i + length ss) ts (emplace_list show name i ss m),
            )
            (i + length (append ss ts), emplace_list show name i (append ss ts) m)
    joined i ss ts m = λ x. (
      (let e : i + length ss + length ts ≡ i + length (append ss ts) =
              omega (arith, length-append ss ts) in
            e)
          x,
      sym (emplace_list-append show name i ss ts m) x,
    )

    sub_channel_nodes_lem :
        (ns : List (String × T)) (i : ℕ) (m : List (String × Any))
        → sub_channel_nodes tree show name common ns i m ≡ (
          i + length (socket_settings common ns),
          emplace_list show name i (socket_settings common ns) m,
        )
    unfolding sub_channel_nodes emplace_list socket_settings
    sub_channel_nodes_lem [] i m = ap (λ j. (j, m)) (omega arith)
    sub_channel_nodes_lem ((k, n) ∷ ns) i m = elim (Bool-cases (str_eq k "sockets")) [
      | inr e ↦ rw e (sub_channel_nodes_lem ns i m)
      | inl e ↦ rw e (
          ap (λ (r : ℕ × List (String × Any)). sub_channel_nodes tree show name common ns r.0 r.1)
            (socket_nodes_lem (tree.children n) i m)
          ∙ sub_channel_nodes_lem ns _ _
          ∙ joined i (settings_of_nodes common (tree.children n)) (socket_settings common ns) m)
    ]

    same_sockets_lem :
        (n i : ℕ) (m : List (String × Any))
        → same_sockets tree show name common n i m ≡ emplace_list show name i (replicate n common) m
    unfolding same_sockets emplace_list replicate
    same_sockets_lem zero i m = refl
    same_sockets_lem (suc n) i m = same_sockets_lem n (suc i) _

    or_common_lem :
        (ss : List (List (String × Any))) (m : List (String × Any))
        → show 0 ≡ "0"
        → (if length ss == 0
            then emplace_settings (channel_prefix name "0") common (emplace_list show name 0 ss m)
            else emplace_list show name 0 ss m)
          ≡ emplace_list show name 0 (or_common common ss) m
    unfolding emplace_list or_common
    or_common_lem [] m z = ap (λ t. emplace_settings (channel_prefix name t) common m) (sym z)
    or_common_lem (s ∷ ss) m z = rw (not_zero (length ss)) refl

    sub_channel_parser_lem :
        (cn : T) (m : List (String × Any))
        → show 0 ≡ "0"
        → sub_channel_parser tree show cn m name common
          ≡ emplace_list show name 0
              (or_common common (socket_settings common (tree.children cn)))
              m
    unfolding sub_channel_parser
    sub_channel_parser_lem cn m z = rw (sub_channel_nodes_lem (tree.children cn) 0 m) (
        rw (from_zero (length (socket_settings common (tree.children cn))))
          (or_common_lem (socket_settings common (tree.children cn)) m z))

  pub parse_channel_lem :
      (show : ℕ → String) (cn : T) (name : String) (m : List (String × Any))
      → show 0 ≡ "0"
      → tree.text_at cn "name" ≡ some name
      → parse_channel tree show cn m ≡ some (emplace_list show name 0 (channel_settings cn) m)
  unfolding parse_channel channel_settings
  parse_channel_lem show cn name m z e = elim (Count-cases (tree.number_at cn "numSockets")) [
    | none_given d ↦ cc (e, d, own)
    | negative n d ↦ cc (e, d, own)
    | no_sockets d ↦ cc (e, d, own)
    | some_sockets n d ↦ cc (e, d, same_sockets_lem show name common (suc n) 0 m)
  ]
    where
      common : List (String × Any)
      common = read_all tree cn default_settings

      own :
          sub_channel_parser tree show cn m name common
          ≡ emplace_list show name 0
              (or_common common (socket_settings common (tree.children cn)))
              m
      own = sub_channel_parser_lem show name common cn m z
