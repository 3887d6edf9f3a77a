-- ===== src/Channel/Bind/Search.antt =====
-- When Channel::BindEndpoint (fairmq/Channel.cxx) succeeds, and what it leaves in the endpoint.
use Prim.Native.Char.{Char, code}
use Prim.Native.String.{String, [], ◌∷◌, ◌++◌}
use text.Mathlib.Text.{◌==◌ as str_eq}
use text.Mathlib.TextEquality.{eq_iff}
use mathlib.Core.Path.{subst}
use text.Mathlib.TextLemmas.{nil-append, cons-append}
use fair_mq.Prelude.{
  ℕ, zero, suc, ◌+◌, ◌<◌, ◌≤◌, ◌≡◌, refl, sym, ap, ◌∙◌, ◌↔◌, ◌⊎◌, inl, inr, Bool, true, false, ◌==◌,
  Bool-cases, arith,
}
use fair_mq.Channel.Endpoint.{contains}
use fair_mq.Channel.Bind.{before_first, up_to_last, try_ports, bind_endpoint}

-- A text without `c` at the end changes nothing before the last `c`.
contains-append_free :
    (c : Char) (s p : String) → contains c p ≡ false → contains c (s ++ p) ≡ contains c s
unfolding contains
contains-append_free c [] p h = rw (nil-append p) h
contains-append_free c (d ∷ s) p h = rw (cons-append d s p, contains-append_free c s p h) refl

up_to_last-free : (c : Char) (p : String) → contains c p ≡ false → up_to_last c p ≡ []
unfolding up_to_last contains
up_to_last-free c [] h = refl
up_to_last-free c (d ∷ p) h = ground arith

up_to_last-append :
    (c : Char) (s p : String) → contains c p ≡ false → up_to_last c (s ++ p) ≡ up_to_last c s
unfolding up_to_last
up_to_last-append c [] p h = rw (nil-append p) (up_to_last-free c p h)
up_to_last-append c (d ∷ s) p h =
    rw (cons-append d s p, contains-append_free c s p h, up_to_last-append c s p h) refl

module _ (c d : Char) (s : String) where
  kept : contains c s ≡ true → up_to_last c (d ∷ s) ≡ d ∷ up_to_last c s
  unfolding up_to_last
  kept h = rw h refl

  here : contains c s ≡ false → (code d == code c) ≡ true → up_to_last c (d ∷ s) ≡ d ∷ []
  unfolding up_to_last
  here h e = rw (h, e) refl

  dropped : contains c s ≡ false → (code d == code c) ≡ false → up_to_last c (d ∷ s) ≡ []
  unfolding up_to_last
  dropped h e = rw (h, e) refl

contains-up_to_last : (c : Char) (s : String) → contains c (up_to_last c s) ≡ contains c s
unfolding contains up_to_last
contains-up_to_last c [] = refl
contains-up_to_last c (d ∷ s) = elim (Bool-cases (contains c s)) [
  | inl h ↦ cc (kept c d s h, contains-up_to_last c s, h)
  | inr h ↦ elim (Bool-cases (code d == code c)) [
    | inl e ↦ cc (here c d s h e, e)
    | inr e ↦ cc (dropped c d s h e, e, h)
  ]
]

up_to_last-up_to_last : (c : Char) (s : String) → up_to_last c (up_to_last c s) ≡ up_to_last c s
unfolding up_to_last
up_to_last-up_to_last c [] = refl
up_to_last-up_to_last c (d ∷ s) = elim (Bool-cases (contains c s)) [
  | inl h ↦ cc (
    kept c d s h,
    kept c d (up_to_last c s) (contains-up_to_last c s ∙ h),
    up_to_last-up_to_last c s,
  )
  | inr h ↦ elim (Bool-cases (code d == code c)) [
    | inl e ↦ cc (here c d s h e, here c d [] refl e)
    | inr e ↦ cc (dropped c d s h e)
  ]
]

no_room : (n i : ℕ) → n ≤ i → i < n + 0 → ⊥
no_room n i l u = omega arith

compare_cases : (n i : ℕ) → n ≤ i → (n ≡ i) ⊎ (suc n ≤ i)
compare_cases n i l = ground arith

-- What a successful search amounts to.
module _ (socket_bind : ℕ → String → Bool) (port : ℕ → String) where
  -- An attempt that succeeds: its number, and the endpoint that was bound.
  pub Attempt : ℕ → ℕ → String → String → Type 0
  Attempt k n e e' =
      (i : ℕ) × (((n ≤ i) × (i < n + k))
        × ((e' ≡ up_to_last ":" e ++ port i) × (socket_bind (suc i) e' ≡ true)))

  -- A TCP endpoint, automatic binding, and a successful one among 1000 attempts.
  pub Bindable : Bool → String → Type 0
  Bindable auto_bind e =
      ((before_first ":" e ≡ "tcp") × (auto_bind ≡ true)) × ((e' : String) × Attempt 1000 0 e e')

module _ (socket_bind : ℕ → String → Bool) (port : ℕ → String)
    (plain : (n : ℕ) → contains ":" (port n) ≡ false) where
  -- Every attempt is made at the same host.
  host : (n : ℕ) (e : String) → up_to_last ":" (up_to_last ":" e ++ port n) ≡ up_to_last ":" e
  host n e =
      up_to_last-append ":" (up_to_last ":" e) (port n) (plain n) ∙ up_to_last-up_to_last ":" e

  next : String → ℕ → String
  next e n = up_to_last ":" e ++ port n

  try_none : (n : ℕ) (e : String) → (try_ports socket_bind port 0 n e).1 ≡ false
  unfolding try_ports
  try_none n e = refl

  try_ports_hit :
      (k n : ℕ) (e : String)
      → socket_bind (suc n) (next e n) ≡ true
      → try_ports socket_bind port (suc k) n e ≡ (next e n, true)
  unfolding try_ports next
  try_ports_hit k n e h = rw h refl

  try_ports_miss :
      (k n : ℕ) (e : String)
      → socket_bind (suc n) (next e n) ≡ false
      → try_ports socket_bind port (suc k) n e ≡ try_ports socket_bind port k (suc n) (next e n)
  unfolding try_ports next
  try_ports_miss k n e h = rw h refl

  try_ports-Attempt :
      (k n : ℕ) (e : String)
      → (try_ports socket_bind port k n e).1 ≡ true
      → Attempt socket_bind port k n e ((try_ports socket_bind port k n e).0)
  unfolding Attempt next
  try_ports-Attempt zero n e h = cc (h, try_none n e)
  try_ports-Attempt (suc k) n e h = elim (Bool-cases (socket_bind (suc n) (next e n))) [
    | inl b ↦
        subst (λ r. Attempt socket_bind port (suc k) n e (r.0)) (sym (try_ports_hit k n e b))
          (n, ((omega arith, omega arith), (refl, b)))
    | inr b ↦
        let q = try_ports_miss k n e b in
        let (i, ((l, u), (p, w))) =
          try_ports-Attempt k (suc n) (next e n) (subst (λ r. r.1 ≡ true) q h) in
        subst (λ r. Attempt socket_bind port (suc k) n e (r.0)) (sym q)
          (i, ((omega arith, omega arith), (p ∙ ap (λ t. t ++ port i) (host n e), w)))
  ]

  Attempt-try_ports :
      (k n : ℕ) (e e' : String)
      → Attempt socket_bind port k n e e'
      → (try_ports socket_bind port k n e).1 ≡ true
  unfolding Attempt next
  Attempt-try_ports zero n e e' (i, ((l, u), w)) = elim (no_room n i l u) [ ]
  Attempt-try_ports (suc k) n e e' (i, ((l, u), (p, w))) =
      elim (Bool-cases (socket_bind (suc n) (next e n))) [
        | inl b ↦ ap (λ r. r.1) (try_ports_hit k n e b)
        | inr b ↦ elim (compare_cases n i l) [
          | inl q ↦ cc (b, w, p, q)
          | inr q ↦
              ap (λ r. r.1) (try_ports_miss k n e b)
              ∙ Attempt-try_ports k (suc n) (next e n) e'
                  (i, ((q, omega arith), (p ∙ sym (ap (λ t. t ++ port i) (host n e)), w)))
        ]
      ]

  at_once :
      (auto_bind : Bool) (e : String)
      → socket_bind 0 e ≡ true
      → bind_endpoint socket_bind port auto_bind e ≡ (e, true)
  unfolding bind_endpoint
  at_once auto_bind e h = rw h refl

  searched :
      (auto_bind : Bool) (e : String)
      → socket_bind 0 e ≡ false
      → before_first ":" e ≡ "tcp"
      → auto_bind ≡ true
      → bind_endpoint socket_bind port auto_bind e ≡ try_ports socket_bind port 1000 0 e
  unfolding bind_endpoint
  searched auto_bind e h t a = rw (h, t, a) refl

  search_needed :
      (auto_bind : Bool) (e : String)
      → socket_bind 0 e ≡ false
      → (bind_endpoint socket_bind port auto_bind e).1 ≡ true
      → (before_first ":" e ≡ "tcp") × (auto_bind ≡ true)
  unfolding bind_endpoint
  search_needed auto_bind e h r = elim (Bool-cases (str_eq (before_first ":" e) "tcp")) [
    | inl t ↦ elim (Bool-cases auto_bind) [
      | inl a ↦ ((eq_iff (before_first ":" e) "tcp").0 t, a)
      | inr a ↦ cc (r, h, t, a)
    ]
    | inr t ↦ cc (r, h, t)
  ]

  search :
      (auto_bind : Bool) (e : String)
      → socket_bind 0 e ≡ false
      → (bind_endpoint socket_bind port auto_bind e).1 ≡ true
      → ((before_first ":" e ≡ "tcp") × (auto_bind ≡ true))
        × Attempt socket_bind port 1000 0 e ((bind_endpoint socket_bind port auto_bind e).0)
  search auto_bind e h r =
      let (t, a) = search_needed auto_bind e h r in
      let q = searched auto_bind e h t a in
      (
        (t, a),
        subst (λ x. Attempt socket_bind port 1000 0 e (x.0)) (sym q)
            (try_ports-Attempt 1000 0 e (subst (λ x. x.1 ≡ true) q r)),
      )

  -- BindEndpoint returns true exactly if the configured endpoint could be bound, or it is a TCP one,
  -- auto_bind is on and one of the first 1000 ports drawn could be bound at its host.
  pub bind_endpoint_iff :
      (auto_bind : Bool) (e : String)
      → ((bind_endpoint socket_bind port auto_bind e).1 ≡ true)
        ↔ ((socket_bind 0 e ≡ true) ⊎ Bindable socket_bind port auto_bind e)
  unfolding Bindable
  bind_endpoint_iff auto_bind e = (
    λ r. elim (Bool-cases (socket_bind 0 e)) [
      | inl b ↦ inl b
      | inr b ↦
          let (c, w) = search auto_bind e b r in
          inr (c, ((bind_endpoint socket_bind port auto_bind e).0, w))
    ],
    λ h. elim (Bool-cases (socket_bind 0 e)) [
      | inl b ↦ ap (λ x. x.1) (at_once auto_bind e b)
      | inr b ↦ elim h [
        | inl k ↦ cc (b, k)
        | inr ((t, a), (e', w)) ↦
            ap (λ x. x.1) (searched auto_bind e b t a) ∙ Attempt-try_ports 1000 0 e e' w
      ]
    ],
  )

  -- When BindEndpoint returns true, one of its at most 1001 calls has bound what it leaves in the
  -- caller's endpoint.
  pub bind_endpoint_bound :
      (auto_bind : Bool) (e : String)
      → (bind_endpoint socket_bind port auto_bind e).1 ≡ true
      → (n : ℕ) × ((n ≤ 1000)
          × (socket_bind n ((bind_endpoint socket_bind port auto_bind e).0) ≡ true))
  unfolding Attempt
  bind_endpoint_bound auto_bind e r = elim (Bool-cases (socket_bind 0 e)) [
    | inl b ↦ (0, (omega arith, ap (socket_bind 0) (ap (λ x. x.0) (at_once auto_bind e b)) ∙ b))
    | inr b ↦ let (c, (i, ((l, u), (p, w)))) = search auto_bind e b r in (suc i, (omega arith, w))
  ]
