-- ===== src/Config/Parser.antt =====
-- The properties that a configuration in JSON gives (fairmq/JSONParser.cxx).
pub mod Emplaced
pub mod Indexed
pub mod Reference
use Prim.Native.String.{String, ◌++◌}
use text.Mathlib.Text.{◌==◌ as str_eq}
use fair_mq.Prelude.{
  ℕ, zero, suc, ℤ, pos, negsuc, minus_one, ◌==◌, Bool, true, Option, none, some, List, [], ◌∷◌,
  ◌++◌ as append, map, find, if◌then◌else◌,
}
use fair_mq.Channel.FromProperties.{Any}
use fair_mq.Channel.FromProperties.Any.{number, flag, other}
use fair_mq.Config.AddChannel.{channel_prefix}

-- boost::property_tree: the children of a node with their keys, get_child, and get of a type at a
-- key, none where it throws or gives the default.
pub record Ptree (T : Type 0) : Type 0 where
  pub children : T → List (String × T)
  pub child : T → String → Option T
  pub text_at : T → String → Option String
  pub number_at : T → String → Option ℤ
  pub flag_at : T → String → Option Bool

-- How the parser ends: with the properties, with ParserError, or with the exception of get or
-- get_child.
pub data Parsed : Type 0 where
  properties : List (String × Any) → Parsed
  parser_error bad_path : Parsed

-- emplace: a key that is there keeps its value
unfoldable pub emplace : String → Any → List (String × Any) → List (String × Any)
emplace k v m = elim (find k m) [ some w ↦ m | none ↦ append m ((k, v) ∷ []) ]

-- Each setting with a prefix before its key
unfoldable pub emplace_settings :
    String → List (String × Any) → List (String × Any) → List (String × Any)
emplace_settings p [] m = m
emplace_settings p ((k, v) ∷ s) m = emplace_settings p s (emplace (p ++ k) v m)

-- The settings of a channel with their defaults
abbrev pub default_settings : List (String × Any)
default_settings =
    ("type", Any.text "unspecified")
    ∷ ("method", Any.text "unspecified")
    ∷ ("address", Any.text "unspecified")
    ∷ ("transport", Any.text "default")
    ∷ ("sndBufSize", number (pos 1000))
    ∷ ("rcvBufSize", number (pos 1000))
    ∷ ("sndKernelSize", number (pos 0))
    ∷ ("rcvKernelSize", number (pos 0))
    ∷ ("sndTimeoutMs", number minus_one)
    ∷ ("rcvTimeoutMs", number minus_one)
    ∷ ("linger", number (pos 500))
    ∷ ("rateLogging", number (pos 1))
    ∷ ("portRangeMin", number (pos 22000))
    ∷ ("portRangeMax", number (pos 23000))
    ∷ ("autoBind", flag true)
    ∷ []

module _ {T : Type 0} (tree : Ptree T) where
  -- Where a device has no key, its id counts.
  unfoldable pub device_key : T → String
  device_key t = elim (tree.text_at t "key") [
    | some k ↦ k
    | none ↦ elim (tree.text_at t "id") [ none ↦ "" | some k ↦ k ]
  ]

  -- get of the default's type
  unfoldable pub read : T → String → Any → Any
  read t k (Any.text d) = Any.text (elim (tree.text_at t k) [ none ↦ d | some s ↦ s ])
  read t k (number d) = number (elim (tree.number_at t k) [ none ↦ d | some z ↦ z ])
  read t k (flag d) = flag (elim (tree.flag_at t k) [ none ↦ d | some b ↦ b ])
  read t k other = other

  -- The settings of a node, each with a default
  unfoldable pub read_all : T → List (String × Any) → List (String × Any)
  read_all t [] = []
  read_all t ((k, d) ∷ s) = (k, read t k d) ∷ read_all t s

module _ {T : Type 0} (tree : Ptree T) (show : ℕ → String) where
  -- The inner loop of SubChannelParser, from index `i` on
  unfoldable pub socket_nodes :
      String
      → List (String × Any)
      → List (String × T)
      → ℕ
      → List (String × Any)
      → ℕ × List (String × Any)
  socket_nodes name common [] i m = (i, m)
  socket_nodes name common ((k, sn) ∷ ns) i m =
      socket_nodes name common ns (suc i)
        (emplace_settings (channel_prefix name (show i)) (read_all tree sn common) m)

  -- Its outer loop
  unfoldable pub sub_channel_nodes :
      String
      → List (String × Any)
      → List (String × T)
      → ℕ
      → List (String × Any)
      → ℕ × List (String × Any)
  sub_channel_nodes name common [] i m = (i, m)
  sub_channel_nodes name common ((k, n) ∷ ns) i m =
      let (j, m') =
        if str_eq k "sockets" then socket_nodes name common (tree.children n) i m else (i, m) in
      sub_channel_nodes name common ns j m'

  unfoldable pub sub_channel_parser :
      T → List (String × Any) → String → List (String × Any) → List (String × Any)
  sub_channel_parser t m name common =
      let (i, m') = sub_channel_nodes name common (tree.children t) 0 m in
      if i == 0 then emplace_settings (channel_prefix name "0") common m' else m'

  -- The loop over numSockets
  unfoldable pub same_sockets :
      String → List (String × Any) → ℕ → ℕ → List (String × Any) → List (String × Any)
  same_sockets name common zero i m = m
  same_sockets name common (suc n) i m =
      same_sockets name common n (suc i) (emplace_settings (channel_prefix name (show i)) common m)

  -- The body of ChannelParser's inner loop, none where get of the name throws
  unfoldable pub parse_channel : T → List (String × Any) → Option (List (String × Any))
  parse_channel cn m =
      let common = read_all tree cn default_settings in
      elim (tree.text_at cn "name") [
        | none ↦ none
        | some name ↦ elim (tree.number_at cn "numSockets") [
          | none ↦ some (sub_channel_parser cn m name common)
          | some (negsuc n) ↦ some (sub_channel_parser cn m name common)
          | some (pos zero) ↦ some (sub_channel_parser cn m name common)
          | some (pos (suc n)) ↦ some (same_sockets name common (suc n) 0 m)
        ]
      ]

  unfoldable pub parse_channels :
      List (String × T) → List (String × Any) → Option (List (String × Any))
  parse_channels [] m = some m
  parse_channels ((k, cn) ∷ ns) m = elim (parse_channel cn m) [
    | none ↦ none
    | some m' ↦ parse_channels ns m'
  ]

  -- The loop of ChannelParser over the nodes of a device
  unfoldable pub channel_parser :
      List (String × T) → List (String × Any) → Option (List (String × Any))
  channel_parser [] m = some m
  channel_parser ((k, n) ∷ ns) m =
      if str_eq k "channels"
      then elim (parse_channels (tree.children n) m) [
        | none ↦ none
        | some m' ↦ channel_parser ns m'
      ]
      else channel_parser ns m

  unfoldable pub parse_devices :
      String → List (String × T) → List (String × Any) → Option (List (String × Any))
  parse_devices id [] m = some m
  parse_devices id ((k, t) ∷ ns) m =
      if str_eq id (device_key tree t)
      then elim (channel_parser (tree.children t) m) [
        | none ↦ none
        | some m' ↦ parse_devices id ns m'
      ]
      else parse_devices id ns m

  unfoldable pub device_parser :
      String → List (String × T) → List (String × Any) → Option (List (String × Any))
  device_parser id [] m = some m
  device_parser id ((k, n) ∷ ns) m =
      if str_eq k "devices"
      then elim (parse_devices id (tree.children n) m) [
        | none ↦ none
        | some m' ↦ device_parser id ns m'
      ]
      else device_parser id ns m

  unfoldable pub ptree_parser : T → String → Parsed
  ptree_parser t id = if str_eq id "" then parser_error else elim (tree.child t "fairMQOptions") [
    | none ↦ bad_path
    | some o ↦ elim (device_parser id (tree.children o) []) [
      | none ↦ bad_path
      | some m ↦ properties m
    ]
  ]
