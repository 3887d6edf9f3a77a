-- ===== src/Channel/FromProperties.antt =====
-- Channel(name, index, properties) (fairmq/Channel.cxx): the settings of a channel from properties.
use Prim.Native.String.{String, ◌++◌}
use fair_mq.Prelude.{ℤ, Bool, Option, none, some}
use fair_mq.Channel.{Channel, Transport, new_channel, transport_type}

-- The value of a property, with the types that channels use.
pub data Any : Type 0 where
  text : String → Any
  number : ℤ → Any
  flag : Bool → Any
  other : Any

-- GetPropertyOrDefault at the three types, none where any_cast throws
unfoldable pub text_or : (String → Option Any) → String → String → Option String
text_or m k d = elim (m k) [
  | none ↦ some d
  | some (text s) ↦ some s
  | some (number z) ↦ none
  | some (flag b) ↦ none
  | some other ↦ none
]

unfoldable pub number_or : (String → Option Any) → String → ℤ → Option ℤ
number_or m k d = elim (m k) [
  | none ↦ some d
  | some (text s) ↦ none
  | some (number z) ↦ some z
  | some (flag b) ↦ none
  | some other ↦ none
]

unfoldable pub flag_or : (String → Option Any) → String → Bool → Option Bool
flag_or m k d = elim (m k) [
  | none ↦ some d
  | some (text s) ↦ none
  | some (number z) ↦ none
  | some (flag b) ↦ some b
  | some other ↦ none
]

-- One assignment of the constructor: the field becomes what was read, unless that threw.
unfoldable pub assigned :
    {A : Type 0} → Option A → (A → Channel → Channel) → Option Channel → Option Channel
assigned r set none = none
assigned r set (some c) = elim r [ none ↦ none | some a ↦ some (set a c) ]

-- `index` is the number of the channel as text. The defaults are those of `new_channel`.
unfoldable pub from_properties : String → String → (String → Option Any) → Option Channel
from_properties name index m =
    let prefix = "chans." ++ (name ++ ("." ++ (index ++ "."))) in
    let d =
      new_channel (name ++ ("[" ++ (index ++ "]"))) "unspecified" "unspecified" "unspecified"
        none in
    let c₁ =
      assigned (text_or m (prefix ++ "type") "unspecified") (λ x c. record c { type_name = x })
        (some d) in
    let c₂ =
      assigned (text_or m (prefix ++ "method") "unspecified") (λ x c. record c { method = x }) c₁ in
    let c₃ =
      assigned (text_or m (prefix ++ "address") "unspecified") (λ x c. record c { address = x })
        c₂ in
    let t : Option Transport = elim (text_or m (prefix ++ "transport") "default") [
      | none ↦ none
      | some s ↦ transport_type s
    ] in
    let c₄ = assigned t (λ x c. record c { transport = x }) c₃ in
    let c₅ =
      assigned (number_or m (prefix ++ "sndBufSize") d.snd_buf_size)
        (λ x c. record c { snd_buf_size = x }) c₄ in
    let c₆ =
      assigned (number_or m (prefix ++ "rcvBufSize") d.rcv_buf_size)
        (λ x c. record c { rcv_buf_size = x }) c₅ in
    let c₇ =
      assigned (number_or m (prefix ++ "sndKernelSize") d.snd_kernel_size)
        (λ x c. record c { snd_kernel_size = x }) c₆ in
    let c₈ =
      assigned (number_or m (prefix ++ "rcvKernelSize") d.rcv_kernel_size)
        (λ x c. record c { rcv_kernel_size = x }) c₇ in
    let c₉ =
      assigned (number_or m (prefix ++ "sndTimeoutMs") d.snd_timeout_ms)
        (λ x c. record c { snd_timeout_ms = x }) c₈ in
    let e₁ =
      assigned (number_or m (prefix ++ "rcvTimeoutMs") d.rcv_timeout_ms)
        (λ x c. record c { rcv_timeout_ms = x }) c₉ in
    let e₂ =
      assigned (number_or m (prefix ++ "linger") d.linger) (λ x c. record c { linger = x }) e₁ in
    let e₃ =
      assigned (number_or m (prefix ++ "rateLogging") d.rate_logging)
        (λ x c. record c { rate_logging = x }) e₂ in
    let e₄ =
      assigned (number_or m (prefix ++ "portRangeMin") d.port_range_min)
        (λ x c. record c { port_range_min = x }) e₃ in
    let e₅ =
      assigned (number_or m (prefix ++ "portRangeMax") d.port_range_max)
        (λ x c. record c { port_range_max = x }) e₄ in
    assigned (flag_or m (prefix ++ "autoBind") d.auto_bind) (λ x c. record c { auto_bind = x }) e₅
