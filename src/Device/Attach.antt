-- ===== src/Device/Attach.antt =====
-- Device::AttachChannel (fairmq/Device.cxx): the endpoints of a channel are bound or connected one
-- after the other, and its address becomes the one that was used.
pub mod Direction
pub mod Passes
use Prim.Native.Char.{Char, code}
use Prim.Native.String as Text
use Prim.Native.String.{String}
use text.Mathlib.Text.{◌==◌ as str_eq}
use fair_mq.Prelude.{
  ℕ, suc, Bool, true, false, not, ◌&&◌, Option, none, some, List, [], ◌∷◌, if◌then◌else◌,
  ◌==◌ as num_eq,
}
use fair_mq.Channel.{Channel, update, init}
use fair_mq.Channel as Chan
use fair_mq.Channel.Endpoint.{strip, contains, without_first, not_empty}
use fair_mq.Channel.Bind.{before_first, bind_endpoint}
use fair_mq.Channel.Validate.{validate, returned, configuration_error}

-- The variables `bind`, `connectionModifier` and `address` of a round.
pub record Target : Type 0 where
  pub bind : Bool
  pub modifier : Bool
  pub address : String

-- endpoint[0] == c
unfoldable pub begins_with : Char → String → Bool
begins_with c Text.[] = false
begins_with c (Text.◌∷◌ d s) = num_eq (code d) (code c)

-- check if the default fMethod is overridden by a modifier
unfoldable pub target_of : String → String → Target
target_of method e =
    if begins_with "+" e
    then record { bind = false; modifier = true; address = without_first e }
    else if begins_with ">" e
    then record { bind = false; modifier = true; address = without_first e }
    else if begins_with "@" e
    then record { bind = true; modifier = true; address = without_first e }
    else record { bind = str_eq method "bind"; modifier = false; address = e }

-- s.substr(s.find(c) + 1): all of `s` if it does not contain `c`, since npos + 1 is 0
unfoldable pub after_first : Char → String → String → String
after_first c whole Text.[] = whole
after_first c whole (Text.◌∷◌ d s) =
    let rest = after_first c whole s in if num_eq (code d) (code c) then s else rest

-- The address with its host resolved, none where there is no such host. `resolve` is
-- tools::getIpFromHostname, whose result is empty then.
unfoldable pub resolved_address : (String → String) → Target → Option String
resolved_address resolve t = elim (strip "tcp://" t.address) [
  | none ↦ some t.address
  | some r ↦
      let host = before_first ":" r in
      if t.bind && str_eq host "*"
      then some t.address
      else if not_empty (resolve host)
      then some (Text.◌++◌ "tcp://" (Text.◌++◌ (resolve host) (Text.◌∷◌ ":" (after_first ":" r r))))
      else none
]

-- put the actual address back in the config
unfoldable pub endpoint_of : Target → String → String
endpoint_of t address =
    if t.modifier then Text.◌∷◌ (if t.bind then "@" else "+") address else address

-- What a pass of AttachChannels leaves: the channels to try again, those attached, and whether
-- Validate threw.
pub record Pass : Type 0 where
  pub remaining : List Channel
  pub attached : List Channel
  pub threw : Bool

pub keep : Channel → Pass → Pass
keep c p = record p { remaining = c ∷ p.remaining }

pub done : Channel → Pass → Pass
done c p = record p { attached = c ∷ p.attached }

module _ (split : String → String → List String) (join : List String → String → String)
    (resolve : String → String) (socket_bind : Channel → ℕ → ℕ → String → Bool)
    (port : Channel → ℕ → ℕ → String) (socket_connect : Channel → ℕ → String → Bool) where
  -- One round, for endpoint number `i`: what is put back in its place, none where AttachChannel returns
  -- false.
  unfoldable pub attach_endpoint : Channel → ℕ → String → Option String
  attach_endpoint c i e =
      let t = target_of c.method e in
      elim (resolved_address resolve t) [
        | none ↦ none
        | some a ↦
            if t.bind
            then (let (a', ok) = bind_endpoint (socket_bind c i) (port c i) c.auto_bind a in
                if ok then some (endpoint_of t a') else none)
            else if socket_connect c i a
            then some (endpoint_of t a)
            else none
      ]

  unfoldable pub attach_endpoints : Channel → ℕ → List String → Option (List String)
  attach_endpoints c i [] = some []
  attach_endpoints c i (e ∷ es) =
      let rest = attach_endpoints c (suc i) es in
      elim (attach_endpoint c i e) [
        | none ↦ none
        | some e' ↦ elim rest [ none ↦ none | some es' ↦ some (e' ∷ es') ]
      ]

  -- AttachChannel: the channel, the address that is set in the configuration, if it is, and the result
  unfoldable pub attach_channel : Channel → (Channel × Option String) × Bool
  attach_channel c = elim (attach_endpoints c 0 (split c.address ",")) [
    | none ↦ ((c, none), false)
    | some es ↦
        let a = join es "," in
        if str_eq a c.address
        then ((c, none), true)
        else ((update (Chan.Update.address a) c, some a), true)
  ]

  -- The round of AttachChannels for one channel, before those that follow it.
  pub attach_one : Channel → List Channel → Pass → Pass
  attach_one c cs rest =
      let (v, o) = validate split c in
      let ((c', p), ok) = attach_channel (init v) in
      elim o [
        | configuration_error ↦ record { remaining = v ∷ cs; attached = []; threw = true }
        | returned b ↦ if b then (if ok then done c' rest else keep c' rest) else keep v rest
      ]

  unfoldable pub attach_channels : List Channel → Pass
  attach_channels [] = record { remaining = []; attached = []; threw = false }
  attach_channels (c ∷ cs) = attach_one c cs (attach_channels cs)
