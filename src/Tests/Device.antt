-- ===== src/Tests/Device.antt =====
-- Attaching endpoints (fairmq/Device.cxx) on a concrete input.
use fair_mq.Prelude.{ℕ, ◌≡◌, refl, Bool, true, false, List, [], ◌∷◌, Option, none, some}
use Prim.Native.String.{String}
use fair_mq.Channel.{Channel, new_channel}
use fair_mq.Channel.Endpoint.{has_modifier}
use fair_mq.Device.Attach.{target_of, attach_channels}
use fair_mq.Channel.Transport.{zmq}
use fair_mq.Device.Connect.Ends.{Ends}
use fair_mq.Device.Init.{sort_channels, Uninitialized}
use fair_mq.Device.Init.Placed.{AllPlaceable, Sorted, sort_channels_lem}
use fair_mq.Device.Attach.{Pass}

plain_here :
    (target_of "bind" "tcp://localhost:5555").modifier ≡ false
    → has_modifier "tcp://127.0.0.1:5555" ≡ false
unfolding has_modifier
plain_here h = refl

-- A network where every call succeeds, with texts that are not split.
abbrev whole : String → String → List String
whole s c = s ∷ []

abbrev first_of : List String → String → String
first_of [] c = ""
first_of (s ∷ ss) c = s

abbrev same_host : String → String
same_host h = h

abbrev all_bound : Channel → ℕ → ℕ → String → Bool
all_bound c i n e = true

abbrev no_port : Channel → ℕ → ℕ → String
no_port c i n = "0"

abbrev all_connected : Channel → ℕ → String → Bool
all_connected c i e = true

unfoldable two : List Channel
two =
    new_channel "a[0]" "push" "bind" "tcp://*:5555" none
    ∷ new_channel "b c" "push" "bind" "tcp://*:5555" none
    ∷ []

abbrev nothing_configured : ℕ → Channel → Option String
nothing_configured n c = some "tcp://*:5555"

abbrev nothing_pending : ℕ → Bool
nothing_pending n = false

abbrev a_pass : ℕ → List Channel → Pass
a_pass n = attach_channels whole first_of same_host all_bound no_port all_connected

abbrev to_sort : List Channel
to_sort =
    new_channel "a[0]" "push" "bind" "unspecified" none
    ∷ new_channel "b[0]" "pull" "connect" "tcp://localhost:1" none
    ∷ new_channel "c[0]" "pull" "unspecified" ">tcp://localhost:2" none
    ∷ []

sort_channels_lem_example :
    (AllPlaceable to_sort
      → (u : Uninitialized) × (sort_channels zmq none to_sort
            (record { binding = []; connecting = [] })
          ≡ some u)
        × Sorted zmq none to_sort u.binding u.connecting)
    × ((¬ AllPlaceable to_sort)
        → sort_channels zmq none to_sort (record { binding = []; connecting = [] }) ≡ none)
sort_channels_lem_example = sort_channels_lem zmq none to_sort
