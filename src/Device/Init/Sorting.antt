-- ===== src/Device/Init/Sorting.antt =====
-- Where Device::InitWrapper (fairmq/Device.cxx) puts the channels, as an equation of lists.
use Prim.Native.String.{String}
use text.Mathlib.Text.{◌==◌ as str_eq}
use mathlib.Core.List.{append_assoc, append-nil}
use fair_mq.Prelude.{
  ◌≡◌, refl, sym, ap, ◌∙◌, Bool, true, false, ◌||◌, ◌&&◌, Bool-cases, inl, inr, Option, none, some,
  List, [], ◌∷◌, ◌++◌, if◌then◌else◌, arith,
}
use fair_mq.Channel.{Channel, Transport}
use fair_mq.Device.Init.{
  Uninitialized, sort_channels, with_bind_address, init_transport, add_transport, has_any_modifier,
}

-- The method is known, or the address has a modifier.
unfoldable pub placeable : Channel → Bool
placeable c = str_eq c.method "bind" || (str_eq c.method "connect" || has_any_modifier c.address)

unfoldable pub all_placeable : List Channel → Bool
all_placeable [] = true
all_placeable (c ∷ cs) = placeable c && all_placeable cs

unfoldable pub with_transport : Transport → Channel → Channel
with_transport d c = init_transport (add_transport d c.transport) c

-- The channels to bind, and the others, in their order.
unfoldable pub to_bind : Transport → Option String → List Channel → List Channel
to_bind d found [] = []
to_bind d found (c ∷ cs) =
    if str_eq c.method "bind"
    then with_bind_address found (with_transport d c) ∷ to_bind d found cs
    else to_bind d found cs

unfoldable pub to_connect : Transport → List Channel → List Channel
to_connect d [] = []
to_connect d (c ∷ cs) =
    if str_eq c.method "bind" then to_connect d cs else with_transport d c ∷ to_connect d cs

unfoldable pub placed : Transport → Option String → List Channel → Uninitialized → Uninitialized
placed d found cs u = record {
  binding = u.binding ++ to_bind d found cs;
  connecting = u.connecting ++ to_connect d cs;
}

module _ (d : Transport) (found : Option String) (c : Channel) (cs : List Channel)
    (u : Uninitialized) where
  bound : Uninitialized
  bound = record u { binding = u.binding ++ with_bind_address found (with_transport d c) ∷ [] }

  connected : Uninitialized
  connected = record u { connecting = u.connecting ++ with_transport d c ∷ [] }

  sort-bind :
      str_eq c.method "bind" ≡ true
      → sort_channels d found (c ∷ cs) u ≡ sort_channels d found cs bound
  unfolding sort_channels bound with_transport
  sort-bind h = rw h refl

  sort-connect :
      str_eq c.method "bind" ≡ false
      → (str_eq c.method "connect" || has_any_modifier c.address) ≡ true
      → sort_channels d found (c ∷ cs) u ≡ sort_channels d found cs connected
  unfolding sort_channels connected with_transport
  sort-connect h k = elim (Bool-cases (str_eq c.method "connect")) [
    | inl e ↦ rw (h, e) refl
    | inr e ↦ let m : has_any_modifier c.address ≡ true = cc (e, k) in rw (h, e, m) refl
  ]

  sort-none : placeable c ≡ false → sort_channels d found (c ∷ cs) u ≡ none
  unfolding sort_channels placeable
  sort-none k =
      let h : str_eq c.method "bind" ≡ false = ground arith in
      let e : str_eq c.method "connect" ≡ false = ground arith in
      let m : has_any_modifier c.address ≡ false = ground arith in rw (h, e, m) refl

  placed-bind : str_eq c.method "bind" ≡ true → placed d found cs bound ≡ placed d found (c ∷ cs) u
  unfolding placed bound to_bind to_connect
  placed-bind h = rw h (
      ap (λ l. record { binding = l; connecting = u.connecting ++ to_connect d cs })
        (append_assoc u.binding (with_bind_address found (with_transport d c) ∷ [])
          (to_bind d found cs)))

  placed-connect :
      str_eq c.method "bind" ≡ false → placed d found cs connected ≡ placed d found (c ∷ cs) u
  unfolding placed connected to_bind to_connect
  placed-connect h = rw h (
      ap (λ l. record { binding = u.binding ++ to_bind d found cs; connecting = l })
        (append_assoc u.connecting (with_transport d c ∷ []) (to_connect d cs)))

pub and_left : (a b : Bool) → (a && b) ≡ true → a ≡ true
and_left true b h = refl
and_left false b h = cc h

pub and_right : (a b : Bool) → (a && b) ≡ true → b ≡ true
and_right true b h = h
and_right false b h = cc h

or_right : (a b : Bool) → (a || b) ≡ true → a ≡ false → b ≡ true
or_right true b h e = cc e
or_right false b h e = h

placeable-rest :
    (c : Channel)
    → placeable c ≡ true
    → str_eq c.method "bind" ≡ false
    → (str_eq c.method "connect" || has_any_modifier c.address) ≡ true
unfolding placeable
placeable-rest c p e =
    or_right (str_eq c.method "bind") (str_eq c.method "connect" || has_any_modifier c.address) p e

placed-nil : (d : Transport) (found : Option String) (u : Uninitialized) → placed d found [] u ≡ u
unfolding placed to_bind to_connect
placed-nil d found u i = record {
  binding = append-nil u.binding i;
  connecting = append-nil u.connecting i;
}

sort-placed :
    (d : Transport) (found : Option String) (cs : List Channel) (u : Uninitialized)
    → all_placeable cs ≡ true
    → sort_channels d found cs u ≡ some (placed d found cs u)
unfolding all_placeable placeable placed sort_channels to_bind to_connect
sort-placed d found [] u h = sym (ap some (placed-nil d found u))
sort-placed d found (c ∷ cs) u h = elim (Bool-cases (str_eq c.method "bind")) [
  | inl e ↦
      sort-bind d found c cs u e
      ∙ sort-placed d found cs (bound d found c cs u) (and_right (placeable c) (all_placeable cs) h)
      ∙ ap some (placed-bind d found c cs u e)
  | inr e ↦
      sort-connect d found c cs u e
        (placeable-rest c (and_left (placeable c) (all_placeable cs) h) e)
      ∙ sort-placed d found cs (connected d found c cs u)
          (and_right (placeable c) (all_placeable cs) h)
      ∙ ap some (placed-connect d found c cs u e)
]

sort-throws :
    (d : Transport) (found : Option String) (cs : List Channel) (u : Uninitialized)
    → all_placeable cs ≡ false
    → sort_channels d found cs u ≡ none
unfolding all_placeable
sort-throws d found [] u h = cc h
sort-throws d found (c ∷ cs) u h = elim (Bool-cases (placeable c)) [
  | inr p ↦ sort-none d found c cs u p
  | inl p ↦
      let r : all_placeable cs ≡ false = cc (h, p) in
      elim (Bool-cases (str_eq c.method "bind")) [
        | inl e ↦ sort-bind d found c cs u e ∙ sort-throws d found cs (bound d found c cs u) r
        | inr e ↦
            sort-connect d found c cs u e (placeable-rest c p e)
            ∙ sort-throws d found cs (connected d found c cs u) r
      ]
]

-- The result of the loop.
pub sort_channels-eq :
    (d : Transport) (found : Option String) (cs : List Channel)
    → sort_channels d found cs (record { binding = []; connecting = [] }) ≡ (
        if all_placeable cs
        then some (record { binding = to_bind d found cs; connecting = to_connect d cs })
        else none)
unfolding placed
sort_channels-eq d found cs = elim (Bool-cases (all_placeable cs)) [
  | inl e ↦
      sort-placed d found cs (record { binding = []; connecting = [] }) e
      ∙ ap
          (λ b.
            if b
            then some (record { binding = to_bind d found cs; connecting = to_connect d cs })
            else none)
          (sym e)
  | inr e ↦
      sort-throws d found cs (record { binding = []; connecting = [] }) e
      ∙ ap
          (λ b.
            if b
            then some (record { binding = to_bind d found cs; connecting = to_connect d cs })
            else none)
          (sym e)
]
