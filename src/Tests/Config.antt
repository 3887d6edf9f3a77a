-- ===== src/Tests/Config.antt =====
-- The operations on properties (fairmq/ProgOptions.cxx) on concrete values.
use Prim.Native.String.{String, ◌++◌}
use fair_mq.Prelude.{
  ℕ, pos, ◌≡◌, ◌≢◌, ◌↔◌, zero, suc, put, refl, true, Option, none, some, List, [], ◌∷◌, find,
}
use fair_mq.Channel.{Channel, new_channel}
use fair_mq.Channel.FromProperties.{Any}
use fair_mq.Channel.FromProperties.Any.{number, flag, other}
use fair_mq.Config.{Config, set_properties, update_properties}
use fair_mq.Config.Reply.{thrown, refused}
use fair_mq.Config.Refine.{Operation, run, run_refines, values, meant_all, with_values}
use fair_mq.Config.Refine.Operation.{set_one, update_one, set_many, update_many, delete}
use fair_mq.Config.Update.{Missing, Unknown, set_properties_throws, update_properties_all_or_none}
use fair_mq.Config.AddChannel.{
  next_index, channel_prefix, channel_info, channel_of_key, count_channel, ends_with,
}
use fair_mq.Channel.Endpoint.{strip}
use fair_mq.Channel.Bind.{before_first}

abbrev table : Any → Option String
table (Any.text s) = some s
table (number z) = some "a number"
table (flag b) = some "a flag"
table other = none

abbrev started : Config
started = record { vars = ("id", Any.text "sampler") ∷ []; events = [] }

abbrev work : List Operation
work =
    set_one "rate" (number (pos 5))
    ∷ update_many (("rate", number (pos 6)) ∷ ("missing", flag true) ∷ [])
    ∷ set_many (("id", Any.text "sink") ∷ ("odd", other) ∷ [])
    ∷ update_one "rate" (number (pos 7))
    ∷ delete "id"
    ∷ []

run_refines_example :
    values (run table work started) "rate" ≡ meant_all work (values started) "rate"
run_refines_example = run_refines table work started "rate"

abbrev odd_input : List (String × Any)
odd_input = ("odd", other) ∷ ("id", Any.text "sink") ∷ []

set_properties_throws_example :
    (((set_properties table odd_input started).1 ≡ thrown) ↔ Unknown table odd_input)
    × ((k : String)
        → values (set_properties table odd_input started).0 k
          ≡ with_values odd_input (values started) k)
set_properties_throws_example = set_properties_throws table odd_input started

update_properties_all_or_none_example :
    (((update_properties table odd_input started).1 ≡ refused) ↔ Missing odd_input started.vars)
    × (((update_properties table odd_input started).1 ≡ refused
          → (update_properties table odd_input started).0 ≡ started)
        × ((update_properties table odd_input started).1 ≢ refused
            → (k : String)
            → values (update_properties table odd_input started).0 k
              ≡ with_values odd_input (values started) k))
update_properties_all_or_none_example = update_properties_all_or_none table odd_input started

abbrev digit : ℕ → String
digit zero = "0"
digit (suc n) = "1"

-- One channel is there.
abbrev one_channel : Config
one_channel = record {
  vars =
      ("chans.data.0.type", Any.text "push")
      ∷ ("chans.data.0.method", Any.text "bind")
      ∷ ("chans.other.0.type", Any.text "pub")
      ∷ [];
  events = [];
}

abbrev patient : Channel
patient = record (new_channel "" "pull" "connect" "tcp://localhost:5555" none) {
  snd_timeout_ms = pos 700;
  linger = pos 9;
}

second_index : next_index "data" one_channel.vars ≡ 1
unfolding next_index channel_info channel_of_key count_channel find put strip ends_with before_first
second_index = refl

no_snd_timeout :
    values one_channel
      (channel_prefix "data" (digit (next_index "data" one_channel.vars)) ++ "sndTimeoutMs")
    ≡ none
unfolding values find channel_prefix
no_snd_timeout = rw second_index refl

no_rcv_timeout :
    values one_channel
      (channel_prefix "data" (digit (next_index "data" one_channel.vars)) ++ "rcvTimeoutMs")
    ≡ none
unfolding values find channel_prefix
no_rcv_timeout = rw second_index refl
