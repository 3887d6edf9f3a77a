-- ===== src/Device/Init/Reading.antt =====
-- The properties that Device::InitWrapper (fairmq/Device.cxx) gives to the constructor of a channel:
-- those that start with the channel's prefix.
use Prim.Native.String.{String, ◌++◌}
use text.Mathlib.Text.{◌==◌ as str_eq}
use text.Mathlib.TextEquality.{eq_iff}
use fair_mq.Prelude.{
  ℕ, ℤ, pos, minus_one, ◌≡◌, refl, sym, ap, ◌∙◌, Bool, true, Bool-cases, inl, inr, Option,
  Option-cases, none, some, List, [], ◌∷◌, find, if◌then◌else◌,
}
use fair_mq.Channel.{Channel, new_channel}
use fair_mq.Channel.Endpoint.{strip}
use fair_mq.Channel.Address.{strip-append}
use fair_mq.Channel.FromProperties.{Any, from_properties, text_or, number_or, flag_or}
use fair_mq.Config.{Config}
use fair_mq.Config.Refine.{values}
use fair_mq.Config.AddChannel.{add_channel, next_index, channel_prefix}
use fair_mq.Config.AddChannel.RoundTrip.{settings_of, from_properties-add_channel}
use fair_mq.Device.Init.{starting_with, make_channels}

starting_with-none :
    (q j : String) (v : Any) (m : List (String × Any))
    → strip q j ≡ none
    → starting_with q ((j, v) ∷ m) ≡ starting_with q m
unfolding starting_with
starting_with-none q j v m h = rw (starting_with, h) refl

starting_with-some :
    (q j r : String) (v : Any) (m : List (String × Any))
    → strip q j ≡ some r
    → starting_with q ((j, v) ∷ m) ≡ (j, v) ∷ starting_with q m
unfolding starting_with
starting_with-some q j r v m h = rw (starting_with, h) refl

-- A key with the prefix is found as in all properties.
pub find-starting_with :
    (q k : String) (m : List (String × Any)) → find (q ++ k) (starting_with q m) ≡ find (q ++ k) m
unfolding find starting_with
find-starting_with q k [] = refl
find-starting_with q k ((j, v) ∷ m) = elim (Option-cases (strip q j)) [
  | inr (r, h) ↦
      ap (find (q ++ k)) (starting_with-some q j r v m h)
      ∙ ap (λ o. if str_eq j (q ++ k) then some v else o) (find-starting_with q k m)
  | inl h ↦ elim (Bool-cases (str_eq j (q ++ k))) [
    | inl e ↦ cc (h, ap (strip q) ((eq_iff j (q ++ k)).0 e), strip-append q k)
    | inr e ↦
        ap (find (q ++ k)) (starting_with-none q j v m h)
        ∙ find-starting_with q k m
        ∙ ap (λ b. if b then some v else find (q ++ k) m) (sym e)
  ]
]

-- The constructor reads only keys with the prefix.
module _ (name index : String) (f g : String → Option Any)
    (same : (k : String)
      → f (channel_prefix name index ++ k) ≡ g (channel_prefix name index ++ k)) where
  same_text :
      (k d : String)
      → text_or f (channel_prefix name index ++ k) d ≡ text_or g (channel_prefix name index ++ k) d
  unfolding text_or
  same_text k d = rw (text_or, same k) refl

  same_number :
      (k : String) (d : ℤ)
      → number_or f (channel_prefix name index ++ k) d
        ≡ number_or g (channel_prefix name index ++ k) d
  unfolding number_or
  same_number k d = rw (number_or, same k) refl

  same_flag :
      (k : String) (d : Bool)
      → flag_or f (channel_prefix name index ++ k) d ≡ flag_or g (channel_prefix name index ++ k) d
  unfolding flag_or
  same_flag k d = rw (flag_or, same k) refl

  pub from_properties-same : from_properties name index f ≡ from_properties name index g
  unfolding from_properties channel_prefix new_channel
  from_properties-same =
      rw
        (
          same_text "type" "unspecified",
          same_text "method" "unspecified",
          same_text "address" "unspecified",
          same_text "transport" "default",
          same_number "sndBufSize" (pos 1000),
          same_number "rcvBufSize" (pos 1000),
          same_number "sndKernelSize" (pos 0),
          same_number "rcvKernelSize" (pos 0),
          same_number "sndTimeoutMs" minus_one,
          same_number "rcvTimeoutMs" minus_one,
          same_number "linger" (pos 500),
          same_number "rateLogging" (pos 1),
          same_number "portRangeMin" (pos 22000),
          same_number "portRangeMax" (pos 23000),
          same_flag "autoBind" true,
        )
        refl

make_one :
    (show : ℕ → String) (m : List (String × Any)) (name : String) (i : ℕ) (c : Channel)
    → from_properties name (show i) (λ k. find k (starting_with (channel_prefix name (show i)) m))
      ≡ some c
    → make_channels show m name i 1 ≡ some (c ∷ [])
unfolding make_channels channel_prefix
make_one show m name i c h = rw (make_channels, h) refl

-- The loop of InitWrapper at the index that AddChannel took makes one channel, with the type, method,
-- address, transport, buffer and kernel sizes, linger, rate logging, port range and auto-bind of the
-- channel that was added. The two timeouts are the defaults, whatever they were, if the index had
-- none in the properties before.
pub make_channels-add_channel :
    (show : ℕ → String) (name : String) (ch : Channel) (c : Config)
    → values c (channel_prefix name (show (next_index name c.vars)) ++ "sndTimeoutMs") ≡ none
    → values c (channel_prefix name (show (next_index name c.vars)) ++ "rcvTimeoutMs") ≡ none
    → make_channels show (add_channel show name ch c).vars name (next_index name c.vars) 1
      ≡ some (settings_of ch (name ++ ("[" ++ (show (next_index name c.vars) ++ "]"))) ∷ [])
unfolding values
make_channels-add_channel show name ch c s r =
    let i = next_index name c.vars in
    let m = (add_channel show name ch c).vars in
    let p = channel_prefix name (show i) in
    make_one show m name i (settings_of ch (name ++ ("[" ++ (show i ++ "]")))) (
      from_properties-same name (show i) (λ k. find k (starting_with p m)) (λ k. find k m)
        (λ k. find-starting_with p k m)
      ∙ from_properties-add_channel show name ch c s r)
