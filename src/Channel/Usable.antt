-- ===== src/Channel/Usable.antt =====
-- Which channels Channel::Validate (fairmq/Channel.cxx) marks as valid, and that the mark can be
-- trusted.
use Prim.Native.String.{String}
use Prim.Native.Char.{Char}
use text.Mathlib.Text.{◌==◌ as str_eq}
use mathlib.Core.List.{Memᴰ}
use mathlib.Core.List.Memᴰ.{head, tail}
use text.Mathlib.TextEquality.{eq_iff}
use mathlib.Core.Path.{subst}
use fair_mq.Prelude.{
  ◌≡◌, refl, ap, sym, ◌≢◌, ◌↔◌, ◌⊎◌, inl, inr, true, false, is_negative, List, [], ◌∷◌, Bool-cases,
  arith,
}
use fair_mq.Channel.{Channel}
use fair_mq.Channel.Endpoint.{Check, passed, refused, thrown, check_endpoint, contains}
use fair_mq.Channel.Address.{or_true, Endpoint, check_endpoint_iff}
use fair_mq.Channel.Name.{legal, name_ok, name_ok_iff}
use fair_mq.Channel.Validate.{returned, socket_types, has, check_endpoints, size_wrong, validate}

pub record Usable (split : String → String → List String) (c : Channel) : Type 0 where
  pub name_legal : (ch : Char) → contains ch c.name ≡ true → legal ch ≡ true
  pub type_known : Memᴰ c.type_name socket_types
  pub address_set : (c.address ≢ "unspecified") × (c.address ≢ "")
  pub endpoints : (e : String) → Memᴰ e (split c.address ";") → Endpoint c.method e
  pub snd_buf_size : is_negative c.snd_buf_size ≡ false
  pub rcv_buf_size : is_negative c.rcv_buf_size ≡ false
  pub snd_kernel_size : is_negative c.snd_kernel_size ≡ false
  pub rcv_kernel_size : is_negative c.rcv_kernel_size ≡ false
  pub rate_logging : is_negative c.rate_logging ≡ false

has-Memᴰ : (ts : List String) (s : String) → has ts s ≡ true → Memᴰ s ts
unfolding has
has-Memᴰ [] s h = cc h
has-Memᴰ (t ∷ ts) s h = elim (Bool-cases (str_eq t s)) [
  | inl e ↦ head (sym ((eq_iff t s).0 e))
  | inr e ↦ tail (has-Memᴰ ts s (cc (h, e)))
]

Memᴰ-has : (ts : List String) (s : String) → Memᴰ s ts → has ts s ≡ true
unfolding has
Memᴰ-has [] s m = elim m [ ]
Memᴰ-has (t ∷ ts) s (head e) = cc ((eq_iff t s).1 (sym e))
Memᴰ-has (t ∷ ts) s (tail m) = cc (Memᴰ-has ts s m, or_true (str_eq t s))

first_passes :
    (x rest : Check)
    → elim x [ passed ↦ rest | refused ↦ refused | thrown ↦ thrown ] ≡ passed
    → x ≡ passed
first_passes x rest h = ground arith

rest_passes :
    (x rest : Check)
    → elim x [ passed ↦ rest | refused ↦ refused | thrown ↦ thrown ] ≡ passed
    → rest ≡ passed
rest_passes x rest h = ground arith

check_endpoints-Endpoint :
    (method : String) (es : List String)
    → check_endpoints method es ≡ passed
    → (e : String) → Memᴰ e es
    → Endpoint method e
unfolding check_endpoints
check_endpoints-Endpoint method [] h e m = elim m [ ]
check_endpoints-Endpoint method (x ∷ es) h e (head q) = subst (Endpoint method) (sym q) (
    (check_endpoint_iff method x).0
      (first_passes (check_endpoint method x) (check_endpoints method es) h))
check_endpoints-Endpoint method (x ∷ es) h e (tail m) =
    check_endpoints-Endpoint method es
      (rest_passes (check_endpoint method x) (check_endpoints method es) h) e m

Endpoint-check_endpoints :
    (method : String) (es : List String)
    → ((e : String) → Memᴰ e es → Endpoint method e)
    → check_endpoints method es ≡ passed
unfolding check_endpoints
Endpoint-check_endpoints method [] h = refl
Endpoint-check_endpoints method (x ∷ es) h = cc (
  (check_endpoint_iff method x).1 (h x (head refl)),
  Endpoint-check_endpoints method es (λ e m. h e (tail m)),
)

not_equal : (s t : String) → (s ≢ t) ↔ (str_eq s t ≡ false)
not_equal s t = (
  λ n. elim (Bool-cases (str_eq s t)) [ inl e ↦ elim (n ((eq_iff s t).0 e)) [ ] | inr e ↦ e ],
  λ e q. cc (e, (eq_iff s t).1 q),
)

sizes :
    (c : Channel)
    → size_wrong c ≡ false
    → ((is_negative c.snd_buf_size ≡ false) × (is_negative c.rcv_buf_size ≡ false))
      × ((is_negative c.snd_kernel_size ≡ false)
          × ((is_negative c.rcv_kernel_size ≡ false) × (is_negative c.rate_logging ≡ false)))
unfolding size_wrong
sizes c h = ground arith

module _ (split : String → String → List String) (c : Channel) where
  -- The tests of a run that marks the channel.
  validated :
      c.valid ≡ false
      → (validate split c).1 ≡ returned true
      → ((name_ok c.name ≡ true) × (has socket_types c.type_name ≡ true))
        × (((str_eq c.address "unspecified" ≡ false) × (str_eq c.address "" ≡ false))
            × ((check_endpoints c.method (split c.address ";") ≡ passed) × (size_wrong c ≡ false)))
  unfolding validate
  validated v h = ground arith

  validate-Usable : c.valid ≡ false → (validate split c).1 ≡ returned true → Usable split c
  validate-Usable v h =
      let ((n, t), ((a, b), (e, z))) = validated v h in
      let ((z₁, z₂), (z₃, (z₄, z₅))) = sizes c z in
      record {
        name_legal = (name_ok_iff c.name).0 n;
        type_known = has-Memᴰ socket_types c.type_name t;
        address_set = ((not_equal c.address "unspecified").1 a, (not_equal c.address "").1 b);
        endpoints = check_endpoints-Endpoint c.method (split c.address ";") e;
        snd_buf_size = z₁;
        rcv_buf_size = z₂;
        snd_kernel_size = z₃;
        rcv_kernel_size = z₄;
        rate_logging = z₅;
      }

  size_right : Usable split c → size_wrong c ≡ false
  unfolding size_wrong
  size_right u =
      cc (u.snd_buf_size, u.rcv_buf_size, u.snd_kernel_size, u.rcv_kernel_size, u.rate_logging)

  Usable-validate : c.valid ≡ false → Usable split c → (validate split c).1 ≡ returned true
  unfolding validate
  Usable-validate v u = cc (
    v,
    (name_ok_iff c.name).1 u.name_legal,
    Memᴰ-has socket_types c.type_name u.type_known,
    (not_equal c.address "unspecified").0 u.address_set.0,
    (not_equal c.address "").0 u.address_set.1,
    Endpoint-check_endpoints c.method (split c.address ";") u.endpoints,
    size_right u,
  )

  -- A run either marks the channel or leaves it as it is.
  pub validate_cases :
      c.valid ≡ false
      → (validate split c ≡ (record c { valid = true }, returned true)) ⊎ ((validate split c).0 ≡ c)
  unfolding validate
  validate_cases v = ground arith

  marks :
      c.valid ≡ false
      → (validate split c).1 ≡ returned true
      → (validate split c).0 ≡ record c { valid = true }
  unfolding validate
  marks v h = ground arith

  unmarked : c.valid ≡ false → ¬ ((validate split c).1 ≡ returned true) → (validate split c).0 ≡ c
  unmarked v n = elim (validate_cases v) [ inl q ↦ absurd (n (ap (λ p. p.1) q)) | inr q ↦ q ]

  -- On a channel that is not marked, Validate returns true exactly if the channel is usable: legal
  -- name, known type, an address that is set, endpoints of the grammar and no negative size. It marks
  -- a usable channel and changes nothing else of it, and leaves any other channel as it is.
  pub validate_iff :
      c.valid ≡ false
      → (((validate split c).1 ≡ returned true) ↔ Usable split c)
        × ((Usable split c → (validate split c).0 ≡ record c { valid = true })
            × ((¬ Usable split c) → (validate split c).0 ≡ c))
  validate_iff v = (
    (validate-Usable v, Usable-validate v),
    (λ u. marks v (Usable-validate v u), λ n. unmarked v (λ h. n (validate-Usable v h))),
  )
