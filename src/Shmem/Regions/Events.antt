-- ===== src/Shmem/Regions/Events.antt =====
-- The thread that reports regions and segments to a subscriber (fairmq/shmem/Manager.h,
-- RegionEventsSubscription).
use mathlib.Core.Path.{subst}
use fair_mq.Prelude.{
  ℕ, ◌+◌, ◌%◌, ◌≡◌, refl, sym, ap, ◌∙◌, inl, inr, Bool, true, false, ◌&&◌, Bool-cases, Option, none,
  some, List, [], ◌∷◌, if◌then◌else◌, ◌==◌, ==_iff,
}

pub data RegionEvent : Type 0 where
  created destroyed : RegionEvent

-- What identifies a region or segment, and the event that GetRegionInfo gives it. `managed` says
-- that it is a segment.
pub record RegionKey : Type 0 where
  pub id : ℕ
  pub managed : Bool

pub record Info : Type 0 where
  pub key : RegionKey
  pub event : RegionEvent

-- fObservedRegionEvents, fNumObservedEvents, and the calls of the callback, the last one first.
pub record Observer : Type 0 where
  pub observed : RegionKey → Option RegionEvent
  pub number : ℕ
  pub calls : List Info

abbrev pub same_bool : Bool → Bool → Bool
same_bool true b = b
same_bool false true = false
same_bool false false = true

unfoldable pub same_key : RegionKey → RegionKey → Bool
same_key j k = j.id == k.id && same_bool j.managed k.managed

unfoldable pub set_event :
    RegionKey → RegionEvent → (RegionKey → Option RegionEvent) → RegionKey → Option RegionEvent
unfolding same_key
set_event k e f j = if same_key k j then some e else f j

abbrev pub plus_64 : ℕ → ℕ → ℕ
plus_64 n k = (n + k) % 18446744073709551616

-- The body of the loop over the infos, by the event that comes in and the one that is stored.
unfoldable pub see_event : RegionKey → RegionEvent → Option RegionEvent → Observer → Observer
see_event k created none o = record {
  observed = set_event k created o.observed;
  number = plus_64 o.number 1;
  calls = record { key = k; event = created } ∷ o.calls;
}
see_event k destroyed none o = record o {
  observed = set_event k destroyed o.observed;
  number = plus_64 o.number 2;
}
see_event k destroyed (some created) o = record {
  observed = set_event k destroyed o.observed;
  number = plus_64 o.number 1;
  calls = record { key = k; event = destroyed } ∷ o.calls;
}
see_event k destroyed (some destroyed) o = o
see_event k created (some e) o = o

unfoldable pub see : Info → Observer → Observer
see i o = see_event i.key i.event (o.observed i.key) o

unfoldable pub see_all : List Info → Observer → Observer
see_all [] o = o
see_all (i ∷ infos) o = see_all infos (see i o)

-- One round of the loop: the value of the EventCounter, and what GetRegionInfo returns.
unfoldable pub poll : ℕ → List Info → Observer → Observer
poll events infos o = if o.number == events then o else see_all infos o

unfoldable pub polls : List (ℕ × List Info) → Observer → Observer
polls [] o = o
polls ((events, infos) ∷ ps) o = polls ps (poll events infos o)

-- The calls for one key, the last one first.
unfoldable pub calls_for : RegionKey → List Info → List RegionEvent
unfolding same_key
calls_for k [] = []
calls_for k (i ∷ is) =
    let rest = calls_for k is in if same_key i.key k then i.event ∷ rest else rest

-- What the calls for a key can be, by the event stored for it: a region that was seen destroyed
-- first is not reported at all.
pub data Reported : Option RegionEvent → List RegionEvent → Type 0 where
  unseen : Reported none []
  alive : Reported (some created) (created ∷ [])
  gone : Reported (some destroyed) (destroyed ∷ created ∷ [])
  missed : Reported (some destroyed) []

same_bool_iff : (a b : Bool) → same_bool a b ≡ true → a ≡ b
same_bool_iff true true h = refl
same_bool_iff true false h = cc h
same_bool_iff false true h = cc h
same_bool_iff false false h = refl

same_key-eq : (j k : RegionKey) → same_key j k ≡ true → j ≡ k
unfolding same_key
same_key-eq j k h = elim (Bool-cases (j.id == k.id)) [
  | inl e ↦
      let p = (==_iff j.id k.id).0 e in
      let q = same_bool_iff j.managed k.managed (cc (h, e)) in
      λ i. record { id = p i; managed = q i }
  | inr e ↦ cc (h, e)
]

Reported-none : (l : List RegionEvent) → Reported none l → l ≡ []
Reported-none l unseen = refl

Reported-created : (l : List RegionEvent) → Reported (some created) l → l ≡ created ∷ []
Reported-created l alive = refl

-- The calls for each key fit the event stored for it.
Fits : Observer → Type 0
Fits o = (k : RegionKey) → Reported (o.observed k) (calls_for k o.calls)

Reported-if :
    (t : Bool) (a b : Option RegionEvent) (x y : List RegionEvent)
    → (t ≡ true → Reported a x)
    → (t ≡ false → Reported b y)
    → Reported (if t then a else b) (if t then x else y)
Reported-if true a b x y p q = p refl
Reported-if false a b x y p q = q refl

Reported-either :
    (t : Bool) (a b : Option RegionEvent) (x : List RegionEvent)
    → (t ≡ true → Reported a x)
    → (t ≡ false → Reported b x)
    → Reported (if t then a else b) x
Reported-either true a b x p q = p refl
Reported-either false a b x p q = q refl

see_event-Fits :
    (k : RegionKey) (e : RegionEvent) (s : Option RegionEvent) (o : Observer)
    → o.observed k ≡ s
    → Fits o
    → Fits (see_event k e s o)
unfolding see_event Fits set_event calls_for
see_event-Fits k created none o h f j =
    let r : Reported none (calls_for k o.calls) =
      subst (λ x. Reported x (calls_for k o.calls)) h (f k) in
    Reported-if (same_key k j) (some created) (o.observed j) (created ∷ calls_for j o.calls)
      (calls_for j o.calls)
      (λ t.
        subst (λ x. Reported (some created) (created ∷ x))
          (sym (
            ap (λ x. calls_for x o.calls) (sym (same_key-eq k j t))
            ∙ Reported-none (calls_for k o.calls) r))
          alive)
      (λ t. f j)
see_event-Fits k destroyed none o h f j =
    let r : Reported none (calls_for k o.calls) =
      subst (λ x. Reported x (calls_for k o.calls)) h (f k) in
    Reported-either (same_key k j) (some destroyed) (o.observed j) (calls_for j o.calls)
      (λ t.
        subst (λ x. Reported (some destroyed) x)
          (sym (
            ap (λ x. calls_for x o.calls) (sym (same_key-eq k j t))
            ∙ Reported-none (calls_for k o.calls) r))
          missed)
      (λ t. f j)
see_event-Fits k destroyed (some created) o h f j =
    let r : Reported (some created) (calls_for k o.calls) =
      subst (λ x. Reported x (calls_for k o.calls)) h (f k) in
    Reported-if (same_key k j) (some destroyed) (o.observed j) (destroyed ∷ calls_for j o.calls)
      (calls_for j o.calls)
      (λ t.
        subst (λ x. Reported (some destroyed) (destroyed ∷ x))
          (sym (
            ap (λ x. calls_for x o.calls) (sym (same_key-eq k j t))
            ∙ Reported-created (calls_for k o.calls) r))
          gone)
      (λ t. f j)
see_event-Fits k destroyed (some destroyed) o h f j = f j
see_event-Fits k created (some e) o h f j = f j

see_all-Fits : (infos : List Info) (o : Observer) → Fits o → Fits (see_all infos o)
unfolding see_all see
see_all-Fits [] o f = f
see_all-Fits (i ∷ infos) o f =
    see_all-Fits infos (see i o) (see_event-Fits i.key i.event (o.observed i.key) o refl f)

polls-Fits : (ps : List (ℕ × List Info)) (o : Observer) → Fits o → Fits (polls ps o)
unfolding polls poll
polls-Fits [] o f = f
polls-Fits ((n, infos) ∷ ps) o f = elim (Bool-cases (o.number == n)) [
  | inl e ↦
      polls-Fits ps (poll n infos o)
        (subst (λ b. Fits (if b then o else see_all infos o)) (sym e) f)
  | inr e ↦
      polls-Fits ps (poll n infos o)
        (subst (λ b. Fits (if b then o else see_all infos o)) (sym e) (see_all-Fits infos o f))
]

abbrev pub no_events : Observer
no_events = record { observed = λ k. none; number = 0; calls = [] }

-- Whatever the rounds find, each region and segment is reported at most once as created and, after
-- that, at most once as destroyed. What is stored for it says which: a region that was first seen
-- destroyed is not reported.
pub polls-Reported :
    (ps : List (ℕ × List Info)) (k : RegionKey)
    → Reported ((polls ps no_events).observed k) (calls_for k (polls ps no_events).calls)
unfolding Fits calls_for
polls-Reported ps k = polls-Fits ps no_events (λ j. unseen) k
