-- ===== src/Device/Attach/Passes.antt =====
-- A pass of Device::AttachChannels (fairmq/Device.cxx) over the channels.
use Prim.Native.String.{String}
use text.Mathlib.Text.{◌==◌ as str_eq}
use fair_mq.Prelude.{
  ℕ, ◌+◌, ◌≡◌, refl, ap, ◌∙◌, Bool, true, false, Bool-cases, inl, inr, Option, Option-cases, List,
  [], ◌∷◌, ◌++◌, if◌then◌else◌, arith,
}
use fair_mq.Channel.{Channel, init, update, invalidate}
use fair_mq.Channel.Validate.{Outcome, returned, configuration_error, validate}
use fair_mq.Device.Attach.{
  Pass, keep, done, attach_endpoints, attach_channel, attach_one, attach_channels,
}

-- What a measure of names gives for the channels in all. Lists that agree for every measure have the
-- same names, each as often.
abbrev pub weigh : (String → ℕ) → List Channel → ℕ
weigh f [] = 0
weigh f (c ∷ cs) = f c.name + weigh f cs

pub weigh-append :
    (f : String → ℕ) (xs ys : List Channel) → weigh f (xs ++ ys) ≡ weigh f xs + weigh f ys
weigh-append f [] ys = omega arith
weigh-append f (x ∷ xs) ys = omega (arith, weigh-append f xs ys)

abbrev pub All : (Channel → Type 0) → List Channel → Type 0
All P [] = Unit {0}
All P (c ∷ cs) = P c × All P cs

pub All-append :
    (P : Channel → Type 0) (xs ys : List Channel) → All P xs → All P ys → All P (xs ++ ys)
All-append P [] ys a b = b
All-append P (x ∷ xs) ys a b = (a.0, All-append P xs ys a.1 b)

validate-name :
    (split : String → String → List String) (c : Channel) → (validate split c).0.name ≡ c.name
unfolding validate
validate-name split c = ground arith

total : (String → ℕ) → Pass → ℕ
total f p = weigh f p.remaining + weigh f p.attached

one_more :
    (f : String → ℕ) (o : Outcome) (ok : Bool) (c v c' : Channel) (cs : List Channel) (rest : Pass)
    → v.name ≡ c.name
    → c'.name ≡ c.name
    → total f rest ≡ weigh f cs
    → total f (elim o [
      | configuration_error ↦ record { remaining = v ∷ cs; attached = []; threw = true }
      | returned b ↦ if b then (if ok then done c' rest else keep c' rest) else keep v rest
    ])
      ≡ f c.name + weigh f cs
unfolding total keep done
one_more f configuration_error ok c v c' cs rest m n h = omega (arith, ap f m)
one_more f (returned true) true c v c' cs rest m n h = omega (arith, h, ap f n)
one_more f (returned true) false c v c' cs rest m n h = omega (arith, h, ap f n)
one_more f (returned false) ok c v c' cs rest m n h = omega (arith, h, ap f m)

module _ (split : String → String → List String) (join : List String → String → String)
    (resolve : String → String) (socket_bind : Channel → ℕ → ℕ → String → Bool)
    (port : Channel → ℕ → ℕ → String) (socket_connect : Channel → ℕ → String → Bool) where
  attaching : Channel → (Channel × Option String) × Bool
  attaching = attach_channel split join resolve socket_bind port socket_connect

  attaching-name : (c : Channel) → (attaching c).0.0.name ≡ c.name
  unfolding attaching attach_channel update invalidate
  attaching-name c =
      elim (Option-cases (
        attach_endpoints split join resolve socket_bind port socket_connect c 0
          (split c.address ","))) [
            | inl e ↦ rw (attach_channel, e) refl
            | inr (es, e) ↦ elim (Bool-cases (str_eq (join es ",") c.address)) [
              | inl q ↦ rw (attach_channel, e, q) refl
              | inr q ↦ rw (attach_channel, e, q) refl
            ]
          ]

  init-name : (c : Channel) → (init c).name ≡ c.name
  unfolding init
  init-name c = refl

  total-attach_one :
      (f : String → ℕ) (c : Channel) (cs : List Channel) (rest : Pass)
      → total f rest ≡ weigh f cs
      → total f (attach_one split join resolve socket_bind port socket_connect c cs rest)
        ≡ f c.name + weigh f cs
  unfolding attach_one attaching
  total-attach_one f c cs rest h =
      let v = (validate split c).0 in
      let a = attaching (init v) in
      one_more f (validate split c).1 a.1 c v a.0.0 cs rest (validate-name split c)
        (attaching-name (init v) ∙ init-name v ∙ validate-name split c) h

  -- No channel is lost: after a pass each is either attached or among those to try again.
  pub attach_channels_total :
      (f : String → ℕ) (cs : List Channel)
      → weigh f (attach_channels split join resolve socket_bind port socket_connect cs).remaining
          + weigh f (attach_channels split join resolve socket_bind port socket_connect cs).attached
        ≡ weigh f cs
  unfolding attach_channels total
  attach_channels_total f [] = refl
  attach_channels_total f (c ∷ cs) =
      total-attach_one f c cs
        (attach_channels split join resolve socket_bind port socket_connect cs)
        (attach_channels_total f cs)

  -- The channel is one that passed Validate and whose endpoints AttachChannel bound and connected.
  pub WasAttached : Channel → Type 0
  WasAttached c' =
      (c v : Channel) × (p : Option String) × (validate split c ≡ (v, returned true))
      × (attach_channel split join resolve socket_bind port socket_connect (init v)
          ≡ ((c', p), true))

  one_attached :
      (o : Outcome) (ok : Bool) (c v c' : Channel) (p : Option String) (cs : List Channel)
      (rest : Pass)
      → validate split c ≡ (v, o)
      → attaching (init v) ≡ ((c', p), ok)
      → All WasAttached rest.attached
      → All WasAttached
          (elim o as (λ x. Pass) [
            | configuration_error ↦ record { remaining = v ∷ cs; attached = []; threw = true }
            | returned b ↦ if b then (if ok then done c' rest else keep c' rest) else keep v rest
          ]).attached
  unfolding keep done WasAttached attaching
  one_attached configuration_error ok c v c' p cs rest m n h = tt
  one_attached (returned true) true c v c' p cs rest m n h = ((c, v, p, m, n), h)
  one_attached (returned true) false c v c' p cs rest m n h = h
  one_attached (returned false) ok c v c' p cs rest m n h = h

  -- What a pass attaches was attached.
  pub attach_channels-attached :
      (cs : List Channel)
      → All WasAttached
          (attach_channels split join resolve socket_bind port socket_connect cs).attached
  unfolding attach_channels attach_one attaching
  attach_channels-attached [] = tt
  attach_channels-attached (c ∷ cs) =
      let v = (validate split c).0 in
      let a = attaching (init v) in
      one_attached (validate split c).1 a.1 c v a.0.0 a.0.1 cs
        (attach_channels split join resolve socket_bind port socket_connect cs) refl refl
        (attach_channels-attached cs)
