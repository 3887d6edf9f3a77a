-- ===== src/Shmem/Lifetime/Calm.antt =====
-- Managers that do not come while the last one leaves (fairmq/shmem/Manager.h).
use mathlib.Core.Path.{subst}
use fair_mq.Prelude.{
  ℕ, suc, ◌+◌, ◌%◌, ◌<◌, ◌==◌, ==_iff, ◌≡◌, refl, sym, ap, ◌∙◌, ◌⊎◌, inl, inr, true, Bool-cases,
  none, some, List, [], ◌∷◌, ◌++◌, length, arith,
}
use fair_mq.Shmem.Lifetime.{
  Shared, count_out, open_management, attach, detach, clean, Step, opens, attaches, detaches,
  cleans, keeps, nobody, Reach, start, later,
}
use fair_mq.Shmem.Lifetime.Counting.{users, Counts, Reach-Counted}

-- Runs in which no manager stands between opening the management segment and counting itself in
-- while another stands between counting itself out as the last and the removal. The number of
-- managers fits the counter.
pub data CalmReach : Shared → Type 0 where
  calm_start : CalmReach nobody
  calm_later :
      {s t : Shared}
      → CalmReach s
      → Step s t
      → (t.opened ≡ []) ⊎ (t.leaving ≡ [])
      → length t.attached < 4294967296
      → CalmReach t

-- All of them have the segment `g` open.
abbrev pub AllOn : ℕ → List ℕ → Type 0
AllOn g [] = Unit
AllOn g (h ∷ hs) = (h ≡ g) × AllOn g hs

-- The managers share one segment, which has the session's name; or there are none, and no segment has
-- it. After the last one has counted itself out, it alone is left.
pub data Together (s : Shared) : Type 0 where
  gone : s.named ≡ none → s.opened ≡ [] → s.attached ≡ [] → s.leaving ≡ [] → Together s
  here :
      (g : ℕ)
      → s.named ≡ some g
      → AllOn g s.opened
      → AllOn g s.attached
      → (s.leaving ≡ []) ⊎ ((s.leaving ≡ g ∷ []) × (s.attached ≡ []))
      → Together s

AllOn-middle : (g h : ℕ) (xs ys : List ℕ) → AllOn g (xs ++ h ∷ ys) → (h ≡ g) × AllOn g (xs ++ ys)
AllOn-middle g h [] ys a = a
AllOn-middle g h (x ∷ xs) ys (e, a) = let r = AllOn-middle g h xs ys a in (r.0, (e, r.1))

users-AllOn : (g : ℕ) (hs : List ℕ) → AllOn g hs → users g hs ≡ length hs
unfolding users
users-AllOn g [] a = refl
users-AllOn g (h ∷ hs) (e, a) = ground (arith, users-AllOn g hs a)

not_nil : (xs : List ℕ) (g : ℕ) (ys : List ℕ) → ¬ (xs ++ g ∷ ys ≡ [])
not_nil [] g ys e = cc e
not_nil (x ∷ xs) g ys e = cc e

only : (g h : ℕ) (xs ys : List ℕ) → g ∷ [] ≡ xs ++ h ∷ ys → xs ++ ys ≡ []
only g h [] ys e = cc e
only g h (x ∷ xs) ys e = absurd (not_nil xs h ys (cc e))

calm_is_reached : {s : Shared} → CalmReach s → Reach s
calm_is_reached calm_start = start
calm_is_reached (calm_later r st c b) = later (calm_is_reached r) st

AllOn-nil : (g : ℕ) (hs : List ℕ) → hs ≡ [] → AllOn g hs
AllOn-nil g hs e = subst (AllOn g) (sym e) tt

open_none :
    (s : Shared)
    → s.named ≡ none
    → open_management s
      ≡ record s { named = some s.next; next = suc s.next; opened = s.next ∷ s.opened }
unfolding open_management
open_none s e = cc e

pub open_some :
    (s : Shared) (g : ℕ) → s.named ≡ some g → open_management s ≡ record s { opened = g ∷ s.opened }
unfolding open_management
open_some s g e = cc e

open-Together : (s : Shared) → Together s → Together (open_management s)
open-Together s (gone n o a l) =
    subst Together (sym (open_none s n))
      (here s.next refl (refl, AllOn-nil s.next s.opened o) (AllOn-nil s.next s.attached a) (inl l))
open-Together s (here g n o a l) = subst Together (sym (open_some s g n)) (here g n (refl, o) a l)

attach-Together :
    (s : Shared) (xs : List ℕ) (g : ℕ) (ys : List ℕ)
    → s.opened ≡ xs ++ g ∷ ys
    → (s.opened ≡ []) ⊎ (s.leaving ≡ [])
    → Together s
    → Together (attach g (xs ++ ys) s)
unfolding attach
attach-Together s xs g ys e (inl f) t = absurd (not_nil xs g ys (sym e ∙ f))
attach-Together s xs g ys e c (gone n o a l) = absurd (not_nil xs g ys (sym e ∙ o))
attach-Together s xs g ys e (inr f) (here h n o a l) =
    let r = AllOn-middle h g xs ys (subst (AllOn h) e o) in here h n r.1 (r.0, a) (inl f)

length-middle : (xs : List ℕ) (g : ℕ) (ys : List ℕ) → length (xs ++ g ∷ ys) ≡ 1 + length (xs ++ ys)
length-middle [] g ys = omega arith
length-middle (x ∷ xs) g ys = omega (arith, length-middle xs g ys)

length_zero : (xs : List ℕ) → length xs ≡ 0 → xs ≡ []
length_zero [] e = refl
length_zero (x ∷ xs) e = absurd (omega (arith, e))

last_of :
    (l n : ℕ) → n ≡ (1 + l) % 4294967296 → 1 + l < 4294967296 → (count_out n == 0) ≡ true → l ≡ 0
last_of l n e b z = omega (arith, e, b, (==_iff (count_out n) 0).0 z)

-- The count of the last manager
last_count :
    (s : Shared) (xs : List ℕ) (g : ℕ) (ys : List ℕ) (n : ℕ)
    → Reach s
    → s.attached ≡ xs ++ g ∷ ys
    → s.counter g ≡ some n
    → length s.attached < 4294967296
    → AllOn g s.attached
    → (count_out n == 0) ≡ true
    → xs ++ ys ≡ []
last_count s xs g ys n r e c b a z =
    let k : n ≡ users g s.attached % 4294967296 =
      subst (λ o. Counts o (users g s.attached)) c (Reach-Counted g r) in
    let u = users-AllOn g s.attached a in
    length_zero (xs ++ ys) (
      last_of (length (xs ++ ys)) n
        (k ∙ ap (λ m. m % 4294967296) (u ∙ ap length e ∙ length-middle xs g ys))
        (omega (arith, ap length e, length-middle xs g ys, b)) z)

detach-Together :
    (s : Shared) (xs : List ℕ) (g : ℕ) (ys : List ℕ) (n : ℕ)
    → Reach s
    → s.attached ≡ xs ++ g ∷ ys
    → s.counter g ≡ some n
    → length s.attached < 4294967296
    → Together s
    → Together (detach g n (xs ++ ys) s)
unfolding detach
detach-Together s xs g ys n r e c b (gone p o a l) = absurd (not_nil xs g ys (sym e ∙ a))
detach-Together s xs g ys n r e c b (here h p o a (inr (l, f))) =
    absurd (not_nil xs g ys (sym e ∙ f))
detach-Together s xs g ys n r e c b (here h p o a (inl l)) =
    let q = AllOn-middle h g xs ys (subst (AllOn h) e a) in
    elim (Bool-cases (count_out n == 0)) [
      | inl z ↦
          let nil =
            last_count s xs g ys n r e c b (subst (λ k. AllOn k s.attached) (sym q.0) a) z in
          here h p o q.1 (inr (rw z (rw (l, q.0) refl), nil))
      | inr z ↦ here h p o q.1 (inl (rw z l))
    ]

clean-Together :
    (s : Shared) (xs : List ℕ) (g : ℕ) (ys : List ℕ)
    → s.leaving ≡ xs ++ g ∷ ys
    → (s.opened ≡ []) ⊎ (s.leaving ≡ [])
    → Together s
    → Together (clean (xs ++ ys) s)
unfolding clean
clean-Together s xs g ys e (inr f) t = absurd (not_nil xs g ys (sym e ∙ f))
clean-Together s xs g ys e c (gone n o a l) = absurd (not_nil xs g ys (sym e ∙ l))
clean-Together s xs g ys e c (here h n o a (inl l)) = absurd (not_nil xs g ys (sym e ∙ l))
clean-Together s xs g ys e (inl f) (here h n o a (inr (l, k))) =
    gone refl f k (only h g xs ys (sym l ∙ e))

keep-Together :
    (s : Shared) (xs : List ℕ) (g : ℕ) (ys : List ℕ)
    → s.leaving ≡ xs ++ g ∷ ys
    → Together s
    → Together (record s { leaving = xs ++ ys })
keep-Together s xs g ys e (gone n o a l) = absurd (not_nil xs g ys (sym e ∙ l))
keep-Together s xs g ys e (here h n o a (inl l)) = absurd (not_nil xs g ys (sym e ∙ l))
keep-Together s xs g ys e (here h n o a (inr (l, k))) =
    here h n o a (inl (only h g xs ys (sym l ∙ e)))

calm_step :
    {s t : Shared}
    → Reach s
    → Step s t
    → (s.opened ≡ []) ⊎ (s.leaving ≡ [])
    → length s.attached < 4294967296
    → Together s
    → Together t
calm_step {s} r opens c b t = open-Together s t
calm_step {s} r (attaches xs g ys e) c b t = attach-Together s xs g ys e c t
calm_step {s} r (detaches xs g ys n e k) c b t = detach-Together s xs g ys n r e k b t
calm_step {s} r (cleans xs g ys e) c b t = clean-Together s xs g ys e c t
calm_step {s} r (keeps xs g ys e) c b t = keep-Together s xs g ys e t

calm :
    {s : Shared}
    → CalmReach s
    → ((s.opened ≡ []) ⊎ (s.leaving ≡ [])) × (length s.attached < 4294967296)
calm calm_start = (inl refl, omega arith)
calm (calm_later r st c b) = (c, b)

-- As long as no manager stands between opening the management segment and counting itself in while
-- another stands between counting itself out as the last and the removal: all managers share the one
-- segment that has the session's name, it loses the name only when none of them is left, and a segment
-- is to be removed only by the one manager that is left.
pub calm_managers_share : {s : Shared} → CalmReach s → Together s
calm_managers_share calm_start = gone refl refl refl refl
calm_managers_share (calm_later r st c b) =
    let k = calm r in calm_step (calm_is_reached r) st k.0 k.1 (calm_managers_share r)
