-- ===== src/Config/AddChannel.antt =====
-- ProgOptions::AddChannel and GetChannelInfo (fairmq/ProgOptions.cxx), and the channel that is made
-- from the properties that AddChannel writes.
pub mod RoundTrip
use Prim.Native.String.{String, [] as empty, ◌∷◌ as cons, ◌++◌}
use text.Mathlib.Text.{◌==◌ as str_eq}
use fair_mq.Prelude.{
  ℕ, zero, ◌+◌, Bool, true, false, ◌||◌, Option, none, some, List, [], ◌∷◌, find, put,
}
use fair_mq.Channel.{Channel, Transport}
use fair_mq.Channel.Transport.{default, zmq, shm}
use fair_mq.Channel.Endpoint.{strip}
use fair_mq.Channel.Bind.{before_first}
use fair_mq.Channel.FromProperties.{Any}
use fair_mq.Channel.FromProperties.Any.{number, flag}
use fair_mq.Config.{Config, put_all}

-- TransportName (Transports.h)
unfoldable pub transport_name : Transport → String
transport_name default = "default"
transport_name zmq = "zeromq"
transport_name shm = "shmem"

unfoldable pub ends_with : String → String → Bool
ends_with p empty = str_eq empty p
ends_with p (cons c s) = str_eq (cons c s) p || ends_with p s

-- regex_match(key, regex("chans\\..*\\.type")), with the name after "chans." up to the next dot
unfoldable pub channel_of_key : String → Option String
unfolding ends_with strip before_first
channel_of_key k = elim (strip "chans." k) [
  | none ↦ none
  | some chan ↦ elim (ends_with ".type" chan) [ true ↦ some (before_first "." chan) | false ↦ none ]
]

unfoldable pub count_channel : String → List (String × ℕ) → List (String × ℕ)
unfolding find put
count_channel name info = elim (find name info) [
  | none ↦ put name 1 info
  | some n ↦ put name (n + 1) info
]

-- The loop of GetChannelInfoImpl over fVarMap.
unfoldable pub channel_info : List (String × Any) → List (String × ℕ) → List (String × ℕ)
channel_info [] info = info
channel_info ((k, v) ∷ m) info = elim (channel_of_key k) [
  | none ↦ channel_info m info
  | some name ↦ channel_info m (count_channel name info)
]

unfoldable pub next_index : String → List (String × Any) → ℕ
unfolding find
next_index name m = elim (find name (channel_info m [])) [ none ↦ 0 | some n ↦ n ]

-- The properties that AddChannel sets, in this order.
unfoldable pub channel_properties : String → Channel → List (String × Any)
unfolding transport_name
channel_properties prefix c =
    (prefix ++ "type", Any.text c.type_name)
    ∷ (prefix ++ "method", Any.text c.method)
    ∷ (prefix ++ "address", Any.text c.address)
    ∷ (prefix ++ "transport", Any.text (transport_name c.transport))
    ∷ (prefix ++ "sndBufSize", number c.snd_buf_size)
    ∷ (prefix ++ "rcvBufSize", number c.rcv_buf_size)
    ∷ (prefix ++ "sndKernelSize", number c.snd_kernel_size)
    ∷ (prefix ++ "rcvKernelSize", number c.rcv_kernel_size)
    ∷ (prefix ++ "linger", number c.linger)
    ∷ (prefix ++ "rateLogging", number c.rate_logging)
    ∷ (prefix ++ "portRangeMin", number c.port_range_min)
    ∷ (prefix ++ "portRangeMax", number c.port_range_max)
    ∷ (prefix ++ "autoBind", flag c.auto_bind)
    ∷ []

unfoldable pub channel_prefix : String → String → String
channel_prefix name index = "chans." ++ (name ++ ("." ++ (index ++ ".")))

-- `show` is the number as text (tools::ToString).
unfoldable pub add_channel : (ℕ → String) → String → Channel → Config → Config
add_channel show name ch c =
    let prefix = channel_prefix name (show (next_index name c.vars)) in
    record c { vars = put_all (channel_properties prefix ch) c.vars }
