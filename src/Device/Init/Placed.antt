-- ===== src/Device/Init/Placed.antt =====
-- What Device::InitWrapper (fairmq/Device.cxx) makes of the channels that it puts into its two lists.
use mathlib.Core.Path.{subst}
use Prim.Native.String.{String}
use text.Mathlib.Text.{◌==◌ as str_eq}
use text.Mathlib.TextEquality.{eq_iff}
use fair_mq.Prelude.{
  ◌≡◌, ◌≢◌, ◌⊎◌, ◌↔◌, refl, sym, ◌∙◌, true, Bool-cases, inl, inr, Option, none, some, List, [], ◌∷◌,
  arith,
}
use fair_mq.Channel.{Channel, Transport}
use fair_mq.Channel.Transport.{default, zmq, shm}
use fair_mq.Channel.Endpoint.{contains}
use fair_mq.Device.Init.{
  Uninitialized, sort_channels, with_bind_address, init_transport, add_transport, has_any_modifier,
}
use fair_mq.Device.Init.Sorting.{
  placeable, all_placeable, with_transport, to_bind, to_connect, sort_channels-eq, and_left,
  and_right,
}

-- The transport of a channel afterwards: its own, or the device's where it has the default.
abbrev pub HasTransport : Transport → Channel → Channel → Type 0
HasTransport d c c' =
    (c'.factory ≡ some c'.transport)
    × ((c.transport ≡ default) → c'.transport ≡ d)
    × ((c.transport ≢ default) → c'.transport ≡ c.transport)

-- The address of a channel that is to be bound: its own, or where it has none the one that was found,
-- and a random port of all interfaces if none was.
abbrev pub HasBindAddress : Option String → Channel → Channel → Type 0
HasBindAddress found c c' =
    (((c.address ≡ "unspecified") ⊎ (c.address ≡ ""))
      → (found ≡ none → c'.address ≡ "tcp://*:1")
        × ((a : String) → found ≡ some a → c'.address ≡ a))
    × ((c.address ≢ "unspecified") → (c.address ≢ "") → c'.address ≡ c.address)

-- What a channel keeps.
abbrev pub SameButAddress : Channel → Channel → Type 0
SameButAddress c c' =
    record c' { address = c.address; factory = c.factory; transport = c.transport } ≡ c

pub record ToBind (d : Transport) (found : Option String) (c c' : Channel) : Type 0 where
  pub by_method : c.method ≡ "bind"
  pub transport : HasTransport d c c'
  pub address : HasBindAddress found c c'
  pub rest : SameButAddress c c'

pub record ToConnect (d : Transport) (c c' : Channel) : Type 0 where
  pub by_method : c.method ≢ "bind"
  pub transport : HasTransport d c c'
  pub address : c'.address ≡ c.address
  pub rest : SameButAddress c c'

-- The channels are put into the two lists, in their order.
pub data Sorted (d : Transport) (found : Option String)
    : List Channel → List Channel → List Channel → Type 0 where
  none_left : Sorted d found [] [] []
  one_to_bind :
      {c c' : Channel} {cs bs os : List Channel}
      → ToBind d found c c'
      → Sorted d found cs bs os
      → Sorted d found (c ∷ cs) (c' ∷ bs) os
  one_to_connect :
      {c c' : Channel} {cs bs os : List Channel}
      → ToConnect d c c'
      → Sorted d found cs bs os
      → Sorted d found (c ∷ cs) bs (c' ∷ os)

gets_default : (d t : Transport) → t ≡ default → add_transport d t ≡ d
unfolding add_transport
gets_default d default h = refl
gets_default d zmq h = cc h
gets_default d shm h = cc h

gets_own : (d t : Transport) → t ≢ default → add_transport d t ≡ t
unfolding add_transport
gets_own d default n = absurd (n refl)
gets_own d zmq n = refl
gets_own d shm n = refl

abbrev pub default_address : Option String → String
default_address found = elim found [ none ↦ "tcp://*:1" | some a ↦ a ]

found_or_not : (found : Option String) (a : String) → found ≡ some a → default_address found ≡ a
found_or_not none a h = cc h
found_or_not (some b) a h = cc h

not_found : (found : Option String) → found ≡ none → default_address found ≡ "tcp://*:1"
not_found none h = refl
not_found (some b) h = cc h

address_cases :
    (found : Option String) (c : Channel)
    → (((c.address ≡ "unspecified") ⊎ (c.address ≡ ""))
        × (with_bind_address found c ≡ record c { address = default_address found }))
      ⊎ ((c.address ≢ "unspecified") × (c.address ≢ "") × (with_bind_address found c ≡ c))
unfolding with_bind_address
address_cases found c = elim (Bool-cases (str_eq c.address "unspecified")) [
  | inl e ↦ inl (inl ((eq_iff c.address "unspecified").0 e), rw e refl)
  | inr e ↦ elim (Bool-cases (str_eq c.address "")) [
    | inl q ↦ inl (inr ((eq_iff c.address "").0 q), rw (e, q) refl)
    | inr q ↦ inr (
      (λ h. cc (e, (eq_iff c.address "unspecified").1 h)),
      (λ h. cc (q, (eq_iff c.address "").1 h)),
      rw (e, q) refl,
    )
  ]
]

has_transport : (d : Transport) (c : Channel) → HasTransport d c (with_transport d c)
unfolding with_transport init_transport add_transport
has_transport d c = (refl, gets_default d c.transport, gets_own d c.transport)

-- What InitWrapper makes of a channel that it is to bind.
AllBound : Transport → Option String → Channel → Channel → Type 0
AllBound d found c c' = HasTransport d c c' × HasBindAddress found c c' × SameButAddress c c'

bound-AllBound :
    (d : Transport) (found : Option String) (c : Channel)
    → AllBound d found c (with_bind_address found (with_transport d c))
unfolding AllBound with_transport init_transport
bound-AllBound d found c = elim (address_cases found (with_transport d c)) [
  | inl (u, q) ↦ subst (AllBound d found c) (sym q) (
    has_transport d c,
    (
      (λ h. (not_found found, found_or_not found)),
      (λ n m. elim u [ inl h ↦ absurd (n h) | inr h ↦ absurd (m h) ]),
    ),
    refl,
  )
  | inr (n, m, q) ↦ subst (AllBound d found c) (sym q) (
    has_transport d c,
    ((λ h. elim h [ inl e ↦ absurd (n e) | inr e ↦ absurd (m e) ]), (λ n m. refl)),
    refl,
  )
]

sorted :
    (d : Transport) (found : Option String) (cs : List Channel)
    → Sorted d found cs (to_bind d found cs) (to_connect d cs)
unfolding to_bind to_connect AllBound with_transport init_transport
sorted d found [] = none_left
sorted d found (c ∷ cs) = elim (Bool-cases (str_eq c.method "bind")) [
  | inl e ↦
      let (t, a, r) = bound-AllBound d found c in
      rw e (
        one_to_bind
          (record {
            by_method = (eq_iff c.method "bind").0 e;
            transport = t;
            address = a;
            rest = r;
          })
          (sorted d found cs))
  | inr e ↦ rw e (
      one_to_connect
        (record {
          by_method = λ h. cc (e, (eq_iff c.method "bind").1 h);
          transport = has_transport d c;
          address = refl;
          rest = refl;
        })
        (sorted d found cs))
]

-- The method is known, or the address has a modifier.
abbrev pub Placeable : Channel → Type 0
Placeable c =
    ((c.method ≡ "bind") ⊎ (c.method ≡ "connect"))
    ⊎ ((contains "@" c.address ≡ true)
        ⊎ ((contains "+" c.address ≡ true) ⊎ (contains ">" c.address ≡ true)))

abbrev pub AllPlaceable : List Channel → Type 0
AllPlaceable [] = Unit {0}
AllPlaceable (c ∷ cs) = Placeable c × AllPlaceable cs

placeable_iff : (c : Channel) → (placeable c ≡ true) ↔ Placeable c
unfolding placeable has_any_modifier
placeable_iff c = (
  λ h. elim (Bool-cases (str_eq c.method "bind")) [
    | inl e ↦ inl (inl ((eq_iff c.method "bind").0 e))
    | inr e ↦ elim (Bool-cases (str_eq c.method "connect")) [
      | inl q ↦ inl (inr ((eq_iff c.method "connect").0 q))
      | inr q ↦ elim (Bool-cases (contains "@" c.address)) [
        | inl m ↦ inr (inl m)
        | inr m ↦ elim (Bool-cases (contains "+" c.address)) [
          | inl n ↦ inr (inr (inl n))
          | inr n ↦ inr (inr (inr (ground arith)))
        ]
      ]
    ]
  ],
  λ p. elim p [
    | inl (inl h) ↦ let e = (eq_iff c.method "bind").1 h in ground arith
    | inl (inr h) ↦ let e = (eq_iff c.method "connect").1 h in ground arith
    | inr (inl h) ↦ ground arith
    | inr (inr (inl h)) ↦ ground arith
    | inr (inr (inr h)) ↦ ground arith
  ],
)

all_placeable_iff : (cs : List Channel) → (all_placeable cs ≡ true) ↔ AllPlaceable cs
unfolding all_placeable
all_placeable_iff [] = (λ h. tt, λ h. refl)
all_placeable_iff (c ∷ cs) = (
  λ h. (
    (placeable_iff c).0 (and_left (placeable c) (all_placeable cs) h),
    (all_placeable_iff cs).0 (and_right (placeable c) (all_placeable cs) h),
  ),
  λ p. let a = (placeable_iff c).1 p.0 in let b = (all_placeable_iff cs).1 p.1 in rw (a, b) refl,
)

-- InitWrapper's loop goes through exactly if each channel has the method bind or connect or one of the
-- modifiers @, + and > in its address. Then the channels with the method bind wait to be bound, and
-- the others wait to be connected, in their order. Each has its own transport, or the device's where
-- it had the default. A channel to bind without an address gets the one that was found, or
-- tcp://*:1 where none was; otherwise the address and all the rest of a channel stay.
pub sort_channels_lem :
    (d : Transport) (found : Option String) (cs : List Channel)
    → (AllPlaceable cs
        → (u : Uninitialized) × (sort_channels d found cs (record { binding = []; connecting = [] })
            ≡ some u)
          × Sorted d found cs u.binding u.connecting)
      × ((¬ AllPlaceable cs)
          → sort_channels d found cs (record { binding = []; connecting = [] }) ≡ none)
sort_channels_lem d found cs = (
  λ p. (
    record { binding = to_bind d found cs; connecting = to_connect d cs },
    sort_channels-eq d found cs ∙ (let e = (all_placeable_iff cs).1 p in rw e refl),
    sorted d found cs,
  ),
  λ n. elim (Bool-cases (all_placeable cs)) [
    | inl e ↦ absurd (n ((all_placeable_iff cs).0 e))
    | inr e ↦ sort_channels-eq d found cs ∙ rw e refl
  ],
)
