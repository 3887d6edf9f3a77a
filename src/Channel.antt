-- ===== src/Channel.antt =====
-- fairmq/Channel.h, fairmq/Channel.cxx: the settings of a channel, how a channel is made and copied,
-- and the setters. Texts are Unicode here, and the code compares only ASCII characters.
pub mod Endpoint
pub mod Address
pub mod Name
pub mod Validate
pub mod Usable
pub mod Trust
pub mod Bind
pub mod Compatibility
pub mod FromProperties
use Prim.Native.String.{String}
use fair_mq.Prelude.{
  zero, Bool, true, false, Option, none, some, ℤ, pos, minus_one, List, [], ◌∷◌, ◌++◌,
  if◌then◌else◌,
}
use text.Mathlib.Text.{◌==◌}

-- TransportEnum.h
pub data Transport : Type 0 where
  default zmq shm : Transport

-- The calls of the socket's setters.
pub data Setting : Type 0 where
  set_linger set_snd_buf_size set_rcv_buf_size set_snd_kernel_size set_rcv_kernel_size : ℤ → Setting

-- A socket, by the arguments of CreateSocket and the calls of its setters since then.
pub record SocketSetup : Type 0 where
  pub type_name : String
  pub name : String
  pub settings : List Setting

-- `factory` is the type of the transport factory, none for nullptr.
pub record Channel : Type 0 where
  pub factory : Option Transport
  pub transport : Transport
  pub socket : Option SocketSetup
  pub name : String
  pub type_name : String
  pub method : String
  pub address : String
  pub snd_buf_size : ℤ
  pub rcv_buf_size : ℤ
  pub snd_kernel_size : ℤ
  pub rcv_kernel_size : ℤ
  pub snd_timeout_ms : ℤ
  pub rcv_timeout_ms : ℤ
  pub linger : ℤ
  pub rate_logging : ℤ
  pub port_range_min : ℤ
  pub port_range_max : ℤ
  pub auto_bind : Bool
  pub valid : Bool
  pub multipart : Bool

-- factory ? factory->GetType() : DefaultTransportType
factory_type : Option Transport → Transport
factory_type none = default
factory_type (some t) = t

-- factory ? factory->CreateSocket(type, name) : nullptr
first_socket : Option Transport → String → String → Option SocketSetup
first_socket none type_name name = none
first_socket (some t) type_name name =
    some (record { type_name = type_name; name = name; settings = [] })

-- Channel(name, type, method, address, factory), with the default settings
unfoldable pub new_channel : String → String → String → String → Option Transport → Channel
unfolding factory_type first_socket
new_channel name type_name method address factory = record {
  factory = factory;
  transport = factory_type factory;
  socket = first_socket factory type_name name;
  name = name;
  type_name = type_name;
  method = method;
  address = address;
  snd_buf_size = pos 1000;
  rcv_buf_size = pos 1000;
  snd_kernel_size = pos 0;
  rcv_kernel_size = pos 0;
  snd_timeout_ms = minus_one;
  rcv_timeout_ms = minus_one;
  linger = pos 500;
  rate_logging = pos 1;
  port_range_min = pos 22000;
  port_range_max = pos 23000;
  auto_bind = true;
  valid = false;
  multipart = false;
}

-- Channel(const Channel&, string): the settings are copied, the transport and the socket are not.
unfoldable pub copy_named : Channel → String → Channel
copy_named c new_name = record c { factory = none; socket = none; name = new_name; valid = false }

-- operator=, of two different objects
unfoldable pub assign : Channel → Channel → Channel
assign this c = record this {
  factory = none;
  transport = c.transport;
  socket = none;
  name = c.name;
  type_name = c.type_name;
  method = c.method;
  address = c.address;
  snd_buf_size = c.snd_buf_size;
  rcv_buf_size = c.rcv_buf_size;
  snd_kernel_size = c.snd_kernel_size;
  rcv_kernel_size = c.rcv_kernel_size;
  snd_timeout_ms = c.snd_timeout_ms;
  rcv_timeout_ms = c.rcv_timeout_ms;
  linger = c.linger;
  rate_logging = c.rate_logging;
  port_range_min = c.port_range_min;
  port_range_max = c.port_range_max;
  auto_bind = c.auto_bind;
  valid = false;
  multipart = c.multipart;
}

unfoldable pub invalidate : Channel → Channel
invalidate c = record c { valid = false }

-- The setters UpdateName, UpdateType and so on, with their argument.
pub data Update : Type 0 where
  name type_name method address : String → Update
  snd_buf_size rcv_buf_size snd_kernel_size rcv_kernel_size : ℤ → Update
  snd_timeout rcv_timeout linger rate_logging port_range_min port_range_max : ℤ → Update
  auto_bind : Bool → Update

unfoldable pub update : Update → Channel → Channel
unfolding invalidate
update (Update.name s) c = invalidate (record c { name = s })
update (Update.type_name s) c = invalidate (record c { type_name = s })
update (Update.method s) c = invalidate (record c { method = s })
update (Update.address s) c = invalidate (record c { address = s })
update (Update.snd_buf_size z) c = invalidate (record c { snd_buf_size = z })
update (Update.rcv_buf_size z) c = invalidate (record c { rcv_buf_size = z })
update (Update.snd_kernel_size z) c = invalidate (record c { snd_kernel_size = z })
update (Update.rcv_kernel_size z) c = invalidate (record c { rcv_kernel_size = z })
update (Update.snd_timeout z) c = invalidate (record c { snd_timeout_ms = z })
update (Update.rcv_timeout z) c = invalidate (record c { rcv_timeout_ms = z })
update (Update.linger z) c = invalidate (record c { linger = z })
update (Update.rate_logging z) c = invalidate (record c { rate_logging = z })
update (Update.port_range_min z) c = invalidate (record c { port_range_min = z })
update (Update.port_range_max z) c = invalidate (record c { port_range_max = z })
update (Update.auto_bind b) c = invalidate (record c { auto_bind = b })

-- The public Bind and Connect change the method and the address of the channel and return what the
-- call of the socket returns; they do not invalidate the channel.
unfoldable pub bind : (String → Bool) → String → Channel → Channel × Bool
bind socket_bind a c = (record c { method = "bind"; address = a }, socket_bind a)

unfoldable pub connect : (String → Bool) → String → Channel → Channel × Bool
connect socket_connect a c = (record c { method = "connect"; address = a }, socket_connect a)

-- TransportTypes.at(transport) (Transports.h), none where it throws
unfoldable pub transport_type : String → Option Transport
transport_type s =
    if s == "default"
    then some default
    else if s == "zeromq"
    then some zmq
    else if s == "shmem"
    then some shm
    else none

-- UpdateTransport, none where it throws TransportError
unfoldable pub update_transport : String → Channel → Option Channel
unfolding invalidate
update_transport s c = elim (transport_type s) [
  | none ↦ none
  | some t ↦ some (invalidate (record c { transport = t }))
]

-- A kernel transmit size is set only if it is not the default 0.
kernel_setting : (ℤ → Setting) → ℤ → List Setting
kernel_setting set (pos zero) = []
kernel_setting set z = set z ∷ []

-- Init: the socket is created anew and set up.
unfoldable pub init : Channel → Channel
unfolding kernel_setting
init c = record c {
  socket = some (record {
    type_name = c.type_name;
    name = c.name;
    settings =
        set_linger c.linger
          ∷ set_snd_buf_size c.snd_buf_size
          ∷ set_rcv_buf_size c.rcv_buf_size
          ∷ kernel_setting set_snd_kernel_size c.snd_kernel_size
        ++ kernel_setting set_rcv_kernel_size c.rcv_kernel_size;
  });
}
