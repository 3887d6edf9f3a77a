-- ===== src/Channel/Address.antt =====
-- What Channel::Validate's check of an endpoint accepts, as a grammar.
use Prim.Native.Char.{Char, code}
use Prim.Native.String.{String, [], ◌∷◌, ◌++◌}
use text.Mathlib.TextEquality.{Char-path}
use text.Mathlib.TextLemmas.{nil-append, cons-append, cons-ne-nil}
use fair_mq.Prelude.{
  ◌≡◌, refl, ap, ◌∙◌, ◌||◌, ◌≢◌, ◌↔◌, ◌⊎◌, inl, inr, Bool, true, false, Bool-cases, Option-cases,
  some, none, ◌==◌ as num_eq, ==_iff, arith,
}
use fair_mq.Channel.Endpoint.{
  contains, strip, not_empty, address_ok, has_modifier, without_first, check_address, known_method,
  check_endpoint, passed, thrown,
}

pub data Address (a : String) : Type 0 where
  tcp : (host port : String) → a ≡ "tcp://" ++ (host ++ (":" ∷ port)) → Address a
  ipc : (name : String) → name ≢ "" → a ≡ "ipc://" ++ name → Address a
  inproc : (name : String) → name ≢ "" → a ≡ "inproc://" ++ name → Address a
  verbs : (name : String) → name ≢ "" → a ≡ "verbs://" ++ name → Address a

-- An address after one of the three modifiers, or with none if the method is known.
pub data Endpoint (method e : String) : Type 0 where
  bound : (a : String) → Address a → e ≡ "@" ∷ a → Endpoint method e
  connected : (a : String) → Address a → e ≡ ">" ∷ a → Endpoint method e
  added : (a : String) → Address a → e ≡ "+" ∷ a → Endpoint method e
  plain : known_method method ≡ true → Address e → Endpoint method e

-- Char equality, as the tests see it.
pub code_eq : (c d : Char) → num_eq (code c) (code d) ≡ true → c ≡ d
code_eq c d h = Char-path c d ((==_iff (code c) (code d)).0 h)

pub code_refl : (c : Char) → num_eq (code c) (code c) ≡ true
code_refl c = (==_iff (code c) (code c)).1 refl

strip-some : (p s r : String) → strip p s ≡ some r → s ≡ p ++ r
unfolding strip
strip-some [] s r h = cc (h, nil-append r)
strip-some (c ∷ p) [] r h = cc h
strip-some (c ∷ p) (d ∷ s) r h = elim (Bool-cases (num_eq (code c) (code d))) [
  | inl e ↦ cc (code_eq c d e, strip-some p s r (cc (h, e)), cons-append c p r)
  | inr e ↦ cc (h, e)
]

pub strip-append : (p r : String) → strip p (p ++ r) ≡ some r
unfolding strip
strip-append [] r = ap some (nil-append r)
strip-append (c ∷ p) r = rw (cons-append c p r, code_refl c) (strip-append p r)

-- Texts that start with different characters
pub strip_clash :
    (c d : Char) (p q r : String)
    → num_eq (code c) (code d) ≡ false
    → strip (c ∷ p) ((d ∷ q) ++ r) ≡ none
unfolding strip
strip_clash c d p q r h = rw (cons-append d q r, h) refl

contains-split :
    (c : Char) (s : String)
    → contains c s ≡ true
    → (h : String) × ((p : String) × (s ≡ h ++ (c ∷ p)))
unfolding contains
contains-split c [] h = cc h
contains-split c (d ∷ s) h = elim (Bool-cases (num_eq (code d) (code c))) [
  | inl e ↦ ([], (s, cc (code_eq d c e, nil-append (c ∷ s))))
  | inr e ↦
      let (l, (p, q)) = contains-split c s (cc (h, e)) in
      (d ∷ l, (p, cc (q, cons-append d l (c ∷ p))))
]

pub or_true : (b : Bool) → (b || true) ≡ true
or_true true = refl
or_true false = refl

contains-append : (c : Char) (h p : String) → contains c (h ++ (c ∷ p)) ≡ true
unfolding contains
contains-append c [] p = rw (nil-append (c ∷ p), code_refl c) refl
contains-append c (d ∷ h) p = rw (cons-append d h (c ∷ p)) (
    ap (λ b. num_eq (code d) (code c) || b) (contains-append c h p)
    ∙ or_true (num_eq (code d) (code c)))

not_empty_iff : (s : String) → (not_empty s ≡ true) ↔ (s ≢ "")
unfolding not_empty
not_empty_iff [] = (λ h. cc h, λ h. elim (h refl) [ ])
not_empty_iff (c ∷ s) = (λ h. cons-ne-nil c s, λ h. refl)

not_ipc : (r : String) → strip "ipc://" ("inproc://" ++ r) ≡ none
unfolding strip
not_ipc r = rw (cons-append "i" "nproc://" r) (strip_clash "p" "n" "c://" "proc://" r refl)

address_ok-Address : (a : String) → address_ok a ≡ true → Address a
unfolding address_ok
address_ok-Address a h = elim (Option-cases (strip "tcp://" a)) [
  | inr (r, e) ↦
      let (host, (port, q)) = contains-split ":" r (cc (h, e)) in
      tcp host port (cc (strip-some "tcp://" a r e, q))
  | inl e ↦ elim (Option-cases (strip "ipc://" a)) [
    | inr (r, e₁) ↦ ipc r ((not_empty_iff r).0 (cc (h, e, e₁))) (strip-some "ipc://" a r e₁)
    | inl e₁ ↦ elim (Option-cases (strip "inproc://" a)) [
      | inr (r, e₂) ↦
          inproc r ((not_empty_iff r).0 (cc (h, e, e₁, e₂))) (strip-some "inproc://" a r e₂)
      | inl e₂ ↦ elim (Option-cases (strip "verbs://" a)) [
        | inr (r, e₃) ↦
            verbs r ((not_empty_iff r).0 (cc (h, e, e₁, e₂, e₃))) (strip-some "verbs://" a r e₃)
        | inl e₃ ↦ cc (h, e, e₁, e₂, e₃)
      ]
    ]
  ]
]

Address-address_ok : (a : String) → Address a → address_ok a ≡ true
unfolding address_ok
Address-address_ok a (tcp host port q) =
    cc (q, strip-append "tcp://" (host ++ (":" ∷ port)), contains-append ":" host port)
Address-address_ok a (ipc r n q) =
    cc (
      q,
      strip_clash "t" "i" "cp://" "pc://" r refl,
      strip-append "ipc://" r,
      (not_empty_iff r).1 n,
    )
Address-address_ok a (inproc r n q) = cc (
  q,
  strip_clash "t" "i" "cp://" "nproc://" r refl,
  not_ipc r,
  strip-append "inproc://" r,
  (not_empty_iff r).1 n,
)
Address-address_ok a (verbs r n q) = cc (
  q,
  strip_clash "t" "v" "cp://" "erbs://" r refl,
  strip_clash "i" "v" "pc://" "erbs://" r refl,
  strip_clash "i" "v" "nproc://" "erbs://" r refl,
  strip-append "verbs://" r,
  (not_empty_iff r).1 n,
)

-- What starts with a protocol has no modifier.
Address-has_modifier : (a : String) → Address a → has_modifier a ≡ false
unfolding has_modifier
Address-has_modifier a (tcp host port q) = cc (q, cons-append "t" "cp://" (host ++ (":" ∷ port)))
Address-has_modifier a (ipc r n q) = cc (q, cons-append "i" "pc://" r)
Address-has_modifier a (inproc r n q) = cc (q, cons-append "i" "nproc://" r)
Address-has_modifier a (verbs r n q) = cc (q, cons-append "v" "erbs://" r)

modifier_cases :
    (e : String)
    → has_modifier e ≡ true
    → (a : String) × ((a ≡ without_first e) × (((e ≡ "@" ∷ a) ⊎ (e ≡ "+" ∷ a)) ⊎ (e ≡ ">" ∷ a)))
unfolding has_modifier without_first
modifier_cases [] h = cc h
modifier_cases (c ∷ s) h = (
  s,
  (
    refl,
    elim (Bool-cases (num_eq (code c) (code "@"))) [
      | inl p ↦ inl (inl (ap (λ x. x ∷ s) (code_eq c "@" p)))
      | inr p ↦ elim (Bool-cases (num_eq (code c) (code "+"))) [
        | inl q ↦ inl (inr (ap (λ x. x ∷ s) (code_eq c "+" q)))
        | inr q ↦ inr (ap (λ x. x ∷ s) (code_eq c ">" (cc (h, p, q))))
      ]
    ],
  ),
)

check_address_iff : (a : String) → (check_address a ≡ passed) ↔ Address a
unfolding check_address
check_address_iff a = (
  λ h. elim (Bool-cases (address_ok a)) [ inl e ↦ address_ok-Address a e | inr e ↦ cc (h, e) ],
  λ h. cc (Address-address_ok a h),
)

check_endpoint-Endpoint : (method e : String) → check_endpoint method e ≡ passed → Endpoint method e
unfolding check_endpoint
check_endpoint-Endpoint method e h = elim (Bool-cases (has_modifier e)) [
  | inl m ↦
      let (a, (p, w)) = modifier_cases e m in
      let v = (check_address_iff a).0 (cc (h, m, p)) in
      elim w [ inl (inl q) ↦ bound a v q | inl (inr q) ↦ added a v q | inr q ↦ connected a v q ]
  | inr m ↦ elim (Bool-cases (known_method method)) [
    | inl k ↦ plain k ((check_address_iff e).0 (cc (h, m, k)))
    | inr k ↦ cc (h, m, k)
  ]
]

Endpoint-check_endpoint : (method e : String) → Endpoint method e → check_endpoint method e ≡ passed
unfolding check_endpoint without_first has_modifier
Endpoint-check_endpoint method e (bound a v q) = cc (q, (check_address_iff a).1 v)
Endpoint-check_endpoint method e (connected a v q) = cc (q, (check_address_iff a).1 v)
Endpoint-check_endpoint method e (added a v q) = cc (q, (check_address_iff a).1 v)
Endpoint-check_endpoint method e (plain k v) =
    cc (k, (check_address_iff e).1 v, Address-has_modifier e v)

-- The check passes exactly the endpoints of the grammar.
pub check_endpoint_iff :
    (method e : String) → (check_endpoint method e ≡ passed) ↔ Endpoint method e
check_endpoint_iff method e = (check_endpoint-Endpoint method e, Endpoint-check_endpoint method e)

-- It throws for want of a method exactly if there is no modifier either.
pub check_endpoint_throws :
    (method e : String)
    → (check_endpoint method e ≡ thrown)
      ↔ ((has_modifier e ≡ false) × (known_method method ≡ false))
unfolding check_endpoint check_address
check_endpoint_throws method e = ground arith
