-- ===== src/Device/Init.antt =====
-- Device::InitWrapper (fairmq/Device.cxx): the channels that the properties configure, and where each
-- of them goes. The user's Init and the options of the device are left out.
pub mod Sorting
pub mod Placed
pub mod Reading
pub mod Parsed
use Prim.Native.String.{String, ◌++◌}
use text.Mathlib.Text.{◌==◌ as str_eq}
use fair_mq.Prelude.{
  ℕ, zero, suc, ◌+◌, Bool, true, false, ◌||◌, Option, none, some, List, [], ◌∷◌, ◌++◌ as append,
  find, if◌then◌else◌,
}
use fair_mq.Channel.{Channel, Transport}
use fair_mq.Channel.Transport.{default, zmq, shm}
use fair_mq.Channel.Endpoint.{contains, strip, not_empty}
use fair_mq.Channel.FromProperties.{Any, from_properties}

-- GetPropertiesStartingWith
unfoldable pub starting_with : String → List (String × Any) → List (String × Any)
starting_with q [] = []
starting_with q ((k, v) ∷ m) =
    let rest = starting_with q m in elim (strip q k) [ none ↦ rest | some r ↦ (k, v) ∷ rest ]

-- The inner loop of InitWrapper: `n` channels of a name from index `i` on, none where the constructor
-- throws. `show` is a number as text. The name and `n` are what GetChannelInfo gives, which cuts a name
-- with a dot off at the dot; they are arguments here.
unfoldable pub make_channels :
    (ℕ → String) → List (String × Any) → String → ℕ → ℕ → Option (List Channel)
make_channels show m name i zero = some []
make_channels show m name i (suc n) =
    let q = "chans." ++ (name ++ ("." ++ (show i ++ "."))) in
    let rest = make_channels show m name (suc i) n in
    elim (from_properties name (show i) (λ k. find k (starting_with q m))) [
      | none ↦ none
      | some c ↦ elim rest [ none ↦ none | some cs ↦ some (c ∷ cs) ]
    ]

-- The type of the factory that AddTransport gives, with the device's default.
unfoldable pub add_transport : Transport → Transport → Transport
add_transport d default = d
add_transport d zmq = zmq
add_transport d shm = shm

-- InitTransport
unfoldable pub init_transport : Transport → Channel → Channel
init_transport t c = record c { factory = some t; transport = t }

-- The address for binding where none is configured, from the configured interface or the default
-- route, none where the route is not detected.
unfoldable pub with_bind_address : Option String → Channel → Channel
with_bind_address found c =
    if str_eq c.address "unspecified" || str_eq c.address ""
    then record c { address = elim found [ none ↦ "tcp://*:1" | some a ↦ a ] }
    else c

-- fAddress.find_first_of("@+>") != npos
unfoldable pub has_any_modifier : String → Bool
unfolding contains
has_any_modifier a = contains "@" a || contains "+" a || contains ">" a

-- fUninitializedBindingChannels and fUninitializedConnectingChannels
pub record Uninitialized : Type 0 where
  pub binding : List Channel
  pub connecting : List Channel

-- The loop over the channels, none where it throws.
unfoldable pub sort_channels :
    Transport → Option String → List Channel → Uninitialized → Option Uninitialized
unfolding init_transport add_transport with_bind_address has_any_modifier
sort_channels d found [] u = some u
sort_channels d found (c ∷ cs) u =
    let c' = init_transport (add_transport d c.transport) c in
    let bound =
      sort_channels d found cs
        (record u { binding = append u.binding (with_bind_address found c' ∷ []) }) in
    let connected =
      sort_channels d found cs (record u { connecting = append u.connecting (c' ∷ []) }) in
    if str_eq c.method "bind"
    then bound
    else if str_eq c.method "connect"
    then connected
    else if has_any_modifier c.address
    then connected
    else none
