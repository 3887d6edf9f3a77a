-- ===== src/Channel/Validate.antt =====
-- Channel::Validate (fairmq/Channel.cxx)
use Prim.Native.String.{String}
use text.Mathlib.Text.{◌==◌}
use fair_mq.Prelude.{Bool, true, false, not, ◌||◌, is_negative, if◌then◌else◌, List, [], ◌∷◌}
use fair_mq.Channel.{Channel}
use fair_mq.Channel.Endpoint.{Check, passed, refused, thrown, check_endpoint}
use fair_mq.Channel.Name.{name_ok}

-- Validate returns, or throws a ChannelConfigurationError.
pub data Outcome : Type 0 where
  returned : Bool → Outcome
  configuration_error : Outcome

-- socketTypes
unfoldable pub socket_types : List String
socket_types =
    "sub" ∷ "pub" ∷ "pull" ∷ "push" ∷ "req" ∷ "rep" ∷ "xsub" ∷ "xpub" ∷ "dealer" ∷ "router" ∷ "pair"
    ∷ []

-- set::find
unfoldable pub has : List String → String → Bool
has [] s = false
has (t ∷ ts) s = t == s || has ts s

-- The loop over the endpoints is left at the first that does not pass.
unfoldable pub check_endpoints : String → List String → Check
check_endpoints method [] = passed
check_endpoints method (e ∷ es) =
    let rest = check_endpoints method es in
    elim (check_endpoint method e) [ passed ↦ rest | refused ↦ refused | thrown ↦ thrown ]

-- One of the five sizes and intervals is negative.
unfoldable pub size_wrong : Channel → Bool
size_wrong c =
    is_negative c.snd_buf_size
    || is_negative c.rcv_buf_size
    || is_negative c.snd_kernel_size
    || is_negative c.rcv_kernel_size
    || is_negative c.rate_logging

-- `split` is boost::algorithm::split at the given characters.
unfoldable pub validate : (String → String → List String) → Channel → Channel × Outcome
validate split c =
    if c.valid
    then (c, returned true)
    else if not (name_ok c.name)
    then (c, returned false)
    else if not (has socket_types c.type_name)
    then (c, configuration_error)
    else if c.address == "unspecified" || c.address == ""
    then (c, returned false)
    else elim (check_endpoints c.method (split c.address ";")) [
      | refused ↦ (c, returned false)
      | thrown ↦ (c, configuration_error)
      | passed ↦
          if size_wrong c
          then (c, configuration_error)
          else (record c { valid = true }, returned true)
    ]
