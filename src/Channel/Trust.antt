-- ===== src/Channel/Trust.antt =====
-- The mark that Channel::Validate sets, through the operations of a channel (fairmq/Channel.h).
use Prim.Native.String.{String}
use mathlib.Core.List.{Memᴰ}
use mathlib.Core.Path.{subst}
use fair_mq.Prelude.{
  ◌≡◌, refl, sym, inl, inr, Bool, true, false, List, [], ◌∷◌, Bool-cases, Option, Option-cases,
  none, some, arith, ap,
}
use fair_mq.Channel.{
  Channel, Transport, Update, update, update_transport, copy_named, assign, init, SocketSetup,
  transport_type, invalidate, bind, new_channel,
}
use fair_mq.Channel.Address.{Endpoint}
use fair_mq.Channel.Validate.{validate}
use fair_mq.Channel.Usable.{Usable, validate_iff, validate_cases}

-- The operations between the construction of a channel and its use: Validate, a setter,
-- UpdateTransport, Init, the assignment of another channel, and going on with a copy.
pub data Action : Type 0 where
  validated initialised : Action
  updated : Update → Action
  transport_updated : String → Action
  assigned : Channel → Action
  copied : String → Action

unfoldable pub apply : (String → String → List String) → Action → Channel → Channel
apply split validated c = (validate split c).0
apply split initialised c = init c
apply split (updated u) c = update u c
apply split (transport_updated s) c = elim (update_transport s c) [ none ↦ c | some d ↦ d ]
apply split (assigned d) c = assign c d
apply split (copied name) c = copy_named c name

unfoldable pub run : (String → String → List String) → List Action → Channel → Channel
unfolding apply
run split [] c = c
run split (a ∷ acts) c = run split acts (apply split a c)

-- The mark is only on channels that Validate would pass.
pub record Sound (split : String → String → List String) (c : Channel) : Type 0 where
  pub usable : c.valid ≡ true → Usable split c

module _ (split : String → String → List String) where
  unmarked : (c : Channel) → c.valid ≡ false → Sound split c
  unmarked c h = record { usable = λ k. cc (h, k) }

  -- Neither the mark nor the socket matters.
  kept :
      (b : Bool) (k : Option SocketSetup) (c : Channel)
      → Usable split c
      → Usable split (record c { valid = b; socket = k })
  kept b k c u = record {
    name_legal = u.name_legal;
    type_known = u.type_known;
    address_set = u.address_set;
    endpoints = u.endpoints;
    snd_buf_size = u.snd_buf_size;
    rcv_buf_size = u.rcv_buf_size;
    snd_kernel_size = u.snd_kernel_size;
    rcv_kernel_size = u.rcv_kernel_size;
    rate_logging = u.rate_logging;
  }

  init-Sound : (c : Channel) → Sound split c → Sound split (init c)
  unfolding init
  init-Sound c s = record { usable = λ h. kept c.valid (init c).socket c (s.usable h) }

  validate_again : (c : Channel) → c.valid ≡ true → (validate split c).0 ≡ c
  unfolding validate
  validate_again c v = ground arith

  validate-Sound : (c : Channel) → Sound split c → Sound split ((validate split c).0)
  validate-Sound c s = elim (Bool-cases c.valid) [
    | inl v ↦ subst (Sound split) (sym (validate_again c v)) s
    | inr v ↦ elim (validate_cases split c v) [
      | inl q ↦ subst (Sound split) (sym (ap (λ p. p.0) q)) (record {
        usable = λ h. kept true c.socket c ((validate_iff split c v).0.0 (ap (λ p. p.1) q));
      })
      | inr q ↦ subst (Sound split) (sym q) s
    ]
  ]

  update_unmarks : (u : Update) (c : Channel) → (update u c).valid ≡ false
  unfolding update invalidate
  update_unmarks u c = ground arith

  transport_unknown :
      (t : String) (c : Channel) → transport_type t ≡ none → apply split (transport_updated t) c ≡ c
  unfolding apply update_transport
  transport_unknown t c e = rw (apply, update_transport, e) refl

  transport_known :
      (t : String) (x : Transport) (c : Channel)
      → transport_type t ≡ some x
      → apply split (transport_updated t) c ≡ record c { transport = x; valid = false }
  unfolding apply update_transport invalidate
  transport_known t x c e = rw (apply, update_transport, e) refl

  apply-Sound : (a : Action) (c : Channel) → Sound split c → Sound split (apply split a c)
  unfolding apply copy_named assign invalidate
  apply-Sound validated c s = validate-Sound c s
  apply-Sound initialised c s = init-Sound c s
  apply-Sound (updated u) c s = unmarked (update u c) (update_unmarks u c)
  apply-Sound (transport_updated t) c s = elim (Option-cases (transport_type t)) [
    | inl e ↦ subst (Sound split) (sym (transport_unknown t c e)) s
    | inr (x, e) ↦
        unmarked (apply split (transport_updated t) c) (ap (λ d. d.valid) (transport_known t x c e))
  ]
  apply-Sound (assigned d) c s = unmarked (assign c d) refl
  apply-Sound (copied n) c s = unmarked (copy_named c n) refl

  run-Sound : (acts : List Action) (c : Channel) → Sound split c → Sound split (run split acts c)
  unfolding run
  run-Sound [] c s = s
  run-Sound (a ∷ acts) c s = run-Sound acts (apply split a c) (apply-Sound a c s)

  -- Whatever is done to a new channel by these operations, it is marked as valid only while it is
  -- usable.
  pub marked-Usable :
      (name type_name method address : String) (factory : Option Transport) (acts : List Action)
      → (run split acts (new_channel name type_name method address factory)).valid ≡ true
      → Usable split (run split acts (new_channel name type_name method address factory))
  unfolding new_channel
  marked-Usable n t m a f acts h =
      (run-Sound acts (new_channel n t m a f) (unmarked (new_channel n t m a f) refl)).usable h

  -- The public Bind leaves the mark on a channel whatever the address: where the list of endpoints has
  -- one that is none, the marked channel is not usable.
  pub bind_keeps_mark :
      (socket_bind : String → Bool) (c : Channel) (a e : String)
      → c.valid ≡ true
      → Memᴰ e (split a ";")
      → (Endpoint "bind" e → ⊥)
      → ((bind socket_bind a c).0.valid ≡ true) × (Usable split ((bind socket_bind a c).0) → ⊥)
  unfolding bind
  bind_keeps_mark socket_bind c a e v m n = (v, λ u. n (u.endpoints e m))
