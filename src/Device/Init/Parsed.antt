-- ===== src/Device/Init/Parsed.antt =====
-- From a configuration (fairmq/JSONParser.cxx) to the channels of a device (Device::InitWrapper,
-- fairmq/Device.cxx).
use mathlib.Core.Path.{subst}
use Prim.Native.String.{String, ◌++◌}
use fair_mq.Prelude.{ℕ, suc, ◌≡◌, refl, sym, ◌∙◌, Option, none, some, List, [], ◌∷◌, find, length}
use fair_mq.Channel.{Channel}
use fair_mq.Channel.FromProperties.{Any, from_properties}
use fair_mq.Config.AddChannel.{channel_prefix}
use fair_mq.Config.Parser.{Ptree, emplace_settings, parse_channel}
use fair_mq.Config.Parser.Emplaced.{find-emplace_settings}
use fair_mq.Config.Parser.Indexed.{emplace_list, Holds, emplace_list-Holds}
use fair_mq.Config.Parser.Reference.{channel_settings, parse_channel_lem}
use fair_mq.Device.Init.{starting_with, make_channels}
use fair_mq.Device.Init.Reading.{find-starting_with, from_properties-same}

-- The channel that the constructor makes of these settings alone
unfoldable pub channel_of : (ℕ → String) → String → ℕ → List (String × Any) → Option Channel
channel_of show name i s =
    from_properties name (show i)
      (λ k. find k (emplace_settings (channel_prefix name (show i)) s []))

-- A channel before others, none if one of them is not there
abbrev pub consed : Option Channel → Option (List Channel) → Option (List Channel)
consed o rest = elim o [
  | none ↦ none
  | some c ↦ elim rest [ none ↦ none | some cs ↦ some (c ∷ cs) ]
]

-- The channels of several settings, with indices from `i` on, none if one of them cannot be made
unfoldable pub channels_of :
    (ℕ → String) → String → ℕ → List (List (String × Any)) → Option (List Channel)
channels_of show name i [] = some []
channels_of show name i (s ∷ ss) =
    consed (channel_of show name i s) (channels_of show name (suc i) ss)

module _ (show : ℕ → String) (name : String) (m : List (String × Any)) where
  channel_at :
      (i : ℕ) (s : List (String × Any))
      → ((k : String) → find (channel_prefix name (show i) ++ k) m ≡ find k s)
      → from_properties name (show i) (λ k. find k (starting_with (channel_prefix name (show i)) m))
        ≡ channel_of show name i s
  unfolding channel_of find
  channel_at i s h =
      let p = channel_prefix name (show i) in
      from_properties-same name (show i) (λ k. find k (starting_with p m))
        (λ k. find k (emplace_settings p s []))
        (λ k. find-starting_with p k m ∙ h k ∙ sym (find-emplace_settings p k s []))

  make_channels-Holds :
      (i : ℕ) (ss : List (List (String × Any)))
      → Holds show name i ss m
      → make_channels show m name i (length ss) ≡ channels_of show name i ss
  unfolding make_channels channels_of channel_prefix
  make_channels-Holds i [] h = refl
  make_channels-Holds i (s ∷ ss) (h, hs) =
      λ x. consed (channel_at i s h x) (make_channels-Holds (suc i) ss hs x)

-- If no property belongs to a channel of this name before, the node of the channel in a configuration
-- is parsed so that InitWrapper makes, from the properties, one channel for each of its sockets, each
-- exactly as its own settings make it; where one of these is refused, it makes none. The text of a
-- number up to a dot determines the number.
pub make_channels-parse_channel :
    {T : Type 0} (tree : Ptree T) (show : ℕ → String) (cn : T) (name : String)
    (m m' : List (String × Any))
    → ((i j : ℕ) (x y : String) → show i ++ ("." ++ x) ≡ show j ++ ("." ++ y) → i ≡ j)
    → show 0 ≡ "0"
    → tree.text_at cn "name" ≡ some name
    → ((j : ℕ) (k : String) → find (channel_prefix name (show j) ++ k) m ≡ none)
    → parse_channel tree show cn m ≡ some m'
    → make_channels show m' name 0 (length (channel_settings tree cn))
      ≡ channels_of show name 0 (channel_settings tree cn)
make_channels-parse_channel tree show cn name m m' readable z e fresh p =
    let ss = channel_settings tree cn in
    let q : emplace_list show name 0 ss m ≡ m' =
      cc (p, parse_channel_lem tree show cn name m z e) in
    make_channels-Holds show name m' 0 ss (
      subst (Holds show name 0 ss) q
        (emplace_list-Holds show readable name 0 ss m (λ j k h. fresh j k)))
