-- ===== src/Config/AddChannel/RoundTrip.antt =====
-- A channel that AddChannel (fairmq/ProgOptions.cxx) writes to the properties, read back by the
-- constructor of a channel (fairmq/Channel.cxx).
use Prim.Native.String.{String, ◌++◌}
use text.Mathlib.Text.{◌==◌ as str_eq}
use text.Mathlib.TextEquality.{eq_iff}
use text.Mathlib.TextLemmas.{append_cancel_left}
use fair_mq.Prelude.{
  ℕ, ℤ, pos, minus_one, ◌≡◌, refl, sym, ap, ◌∙◌, Bool, true, false, inl, inr, Bool-cases, Option,
  none, some, List, [], ◌∷◌, find, put, find-put, if◌then◌else◌,
}
use fair_mq.Channel.{Channel, Transport, transport_type, new_channel}
use fair_mq.Channel.Transport.{default, zmq, shm}
use fair_mq.Channel.FromProperties.{Any, from_properties, text_or, number_or, flag_or, assigned}
use fair_mq.Channel.FromProperties.Any.{number, flag}
use fair_mq.Config.{Config, put_all}
use fair_mq.Config.Refine.{values}
use fair_mq.Config.AddChannel.{
  add_channel, channel_properties, channel_prefix, next_index, transport_name,
}

pub eq_false : (s t : String) → (s ≡ t → true ≡ false) → str_eq s t ≡ false
eq_false s t n = elim (Bool-cases (str_eq s t)) [ inl e ↦ e ∙ n ((eq_iff s t).0 e) | inr e ↦ e ]

pub same_prefix : (p s t : String) → str_eq (p ++ s) (p ++ t) ≡ str_eq s t
same_prefix p s t = elim (Bool-cases (str_eq s t)) [
  | inl e ↦ (eq_iff (p ++ s) (p ++ t)).1 (ap (λ x. p ++ x) ((eq_iff s t).0 e)) ∙ sym e
  | inr e ↦
      eq_false (p ++ s) (p ++ t) (λ q. sym ((eq_iff s t).1 (append_cancel_left p s t q)) ∙ e)
      ∙ sym e
]

-- The entries with a prefix before each key.
under : String → List (String × Any) → List (String × Any)
under p [] = []
under p ((k, v) ∷ input) = (p ++ k, v) ∷ under p input

-- The last entry of the key, or what was there.
last_of : String → List (String × Any) → Option Any → Option Any
last_of k [] d = d
last_of k ((j, v) ∷ input) d = last_of k input (if str_eq j k then some v else d)

find-put_all-under :
    (p k : String) (input m : List (String × Any))
    → find (p ++ k) (put_all (under p input) m) ≡ last_of k input (find (p ++ k) m)
unfolding put_all under last_of
find-put_all-under p k [] m = refl
find-put_all-under p k ((j, v) ∷ input) m =
    find-put_all-under p k input (put (p ++ j) v m)
    ∙ ap (last_of k input) (
        find-put (p ++ k) (p ++ j) v m
        ∙ ap (λ b. if b then some v else find (p ++ k) m) (same_prefix p j k))

transport_type-transport_name : (t : Transport) → transport_type (transport_name t) ≡ some t
unfolding transport_type transport_name
transport_type-transport_name default = refl
transport_type-transport_name zmq = refl
transport_type-transport_name shm = refl

suffixes : Channel → List (String × Any)
suffixes c =
    ("type", Any.text c.type_name)
    ∷ ("method", Any.text c.method)
    ∷ ("address", Any.text c.address)
    ∷ ("transport", Any.text (transport_name c.transport))
    ∷ ("sndBufSize", number c.snd_buf_size)
    ∷ ("rcvBufSize", number c.rcv_buf_size)
    ∷ ("sndKernelSize", number c.snd_kernel_size)
    ∷ ("rcvKernelSize", number c.rcv_kernel_size)
    ∷ ("linger", number c.linger)
    ∷ ("rateLogging", number c.rate_logging)
    ∷ ("portRangeMin", number c.port_range_min)
    ∷ ("portRangeMax", number c.port_range_max)
    ∷ ("autoBind", flag c.auto_bind)
    ∷ []

written :
    (p k : String) (ch : Channel) (m : List (String × Any))
    → find (p ++ k) (put_all (channel_properties p ch) m)
      ≡ last_of k (suffixes ch) (find (p ++ k) m)
unfolding channel_properties suffixes under
written p k ch m = find-put_all-under p k (suffixes ch) m

-- A channel without a socket that has the settings that AddChannel writes.
unfoldable pub settings_of : Channel → String → Channel
settings_of ch name = record (new_channel name ch.type_name ch.method ch.address none) {
  transport = ch.transport;
  snd_buf_size = ch.snd_buf_size;
  rcv_buf_size = ch.rcv_buf_size;
  snd_kernel_size = ch.snd_kernel_size;
  rcv_kernel_size = ch.rcv_kernel_size;
  linger = ch.linger;
  rate_logging = ch.rate_logging;
  port_range_min = ch.port_range_min;
  port_range_max = ch.port_range_max;
  auto_bind = ch.auto_bind;
}

text_or-some :
    (m : String → Option Any) (k d s : String) → m k ≡ some (Any.text s) → text_or m k d ≡ some s
unfolding text_or
text_or-some m k d s h = rw (text_or, h) refl

number_or-some :
    (m : String → Option Any) (k : String) (d z : ℤ)
    → m k ≡ some (number z)
    → number_or m k d ≡ some z
unfolding number_or
number_or-some m k d z h = rw (number_or, h) refl

number_or-none :
    (m : String → Option Any) (k : String) (d : ℤ) → m k ≡ none → number_or m k d ≡ some d
unfolding number_or
number_or-none m k d h = rw (number_or, h) refl

flag_or-some :
    (m : String → Option Any) (k : String) (d b : Bool)
    → m k ≡ some (flag b)
    → flag_or m k d ≡ some b
unfolding flag_or
flag_or-some m k d b h = rw (flag_or, h) refl

module _ (name index : String) (ch : Channel) (m : List (String × Any)) where
  prefix : String
  unfolding channel_prefix
  prefix = "chans." ++ (name ++ ("." ++ (index ++ ".")))

  after : String → Option Any
  after k = find k (put_all (channel_properties prefix ch) m)

  text_read :
      (k d s : String)
      → last_of k (suffixes ch) (find (prefix ++ k) m) ≡ some (Any.text s)
      → text_or after (prefix ++ k) d ≡ some s
  unfolding after
  text_read k d s h = text_or-some after (prefix ++ k) d s (written prefix k ch m ∙ h)

  number_read :
      (k : String) (d z : ℤ)
      → last_of k (suffixes ch) (find (prefix ++ k) m) ≡ some (number z)
      → number_or after (prefix ++ k) d ≡ some z
  unfolding after
  number_read k d z h = number_or-some after (prefix ++ k) d z (written prefix k ch m ∙ h)

  flag_read :
      (k : String) (d b : Bool)
      → last_of k (suffixes ch) (find (prefix ++ k) m) ≡ some (flag b)
      → flag_or after (prefix ++ k) d ≡ some b
  unfolding after
  flag_read k d b h = flag_or-some after (prefix ++ k) d b (written prefix k ch m ∙ h)

  kept :
      (k : String) (d : ℤ)
      → last_of k (suffixes ch) (find (prefix ++ k) m) ≡ none
      → number_or after (prefix ++ k) d ≡ some d
  unfolding after
  kept k d h = number_or-none after (prefix ++ k) d (written prefix k ch m ∙ h)

  read_back :
      find (prefix ++ "sndTimeoutMs") m ≡ none
      → find (prefix ++ "rcvTimeoutMs") m ≡ none
      → from_properties name index after ≡ some (settings_of ch (name ++ ("[" ++ (index ++ "]"))))
  unfolding prefix from_properties assigned settings_of suffixes last_of new_channel
  read_back s r =
      rw
        (
          text_read "type" "unspecified" ch.type_name refl,
          text_read "method" "unspecified" ch.method refl,
          text_read "address" "unspecified" ch.address refl,
          text_read "transport" "default" (transport_name ch.transport) refl,
          transport_type-transport_name ch.transport,
          number_read "sndBufSize" (pos 1000) ch.snd_buf_size refl,
          number_read "rcvBufSize" (pos 1000) ch.rcv_buf_size refl,
          number_read "sndKernelSize" (pos 0) ch.snd_kernel_size refl,
          number_read "rcvKernelSize" (pos 0) ch.rcv_kernel_size refl,
          kept "sndTimeoutMs" minus_one s,
          kept "rcvTimeoutMs" minus_one r,
          number_read "linger" (pos 500) ch.linger refl,
          number_read "rateLogging" (pos 1) ch.rate_logging refl,
          number_read "portRangeMin" (pos 22000) ch.port_range_min refl,
          number_read "portRangeMax" (pos 23000) ch.port_range_max refl,
          flag_read "autoBind" true ch.auto_bind refl,
        )
        refl

-- A channel that is added gets the next index of its name, and the constructor, from the properties
-- of this name and index, makes a channel with the same type, method, address, transport, buffer and
-- kernel sizes, linger, rate logging, port range and auto-bind. The two timeouts are the defaults,
-- whatever they were, if the index has none in the properties before.
pub from_properties-add_channel :
    (show : ℕ → String) (name : String) (ch : Channel) (c : Config)
    → values c (channel_prefix name (show (next_index name c.vars)) ++ "sndTimeoutMs") ≡ none
    → values c (channel_prefix name (show (next_index name c.vars)) ++ "rcvTimeoutMs") ≡ none
    → from_properties name (show (next_index name c.vars)) (values (add_channel show name ch c))
      ≡ some (settings_of ch (name ++ ("[" ++ (show (next_index name c.vars) ++ "]"))))
unfolding values add_channel channel_prefix after prefix
from_properties-add_channel show name ch c s r =
    read_back name (show (next_index name c.vars)) ch c.vars s r
