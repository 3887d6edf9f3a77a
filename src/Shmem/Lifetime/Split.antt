-- ===== src/Shmem/Lifetime/Split.antt =====
-- A manager that comes while the last one leaves (fairmq/shmem/Manager.h).
use mathlib.Core.Path.{subst}
use fair_mq.Prelude.{
  ℕ, ◌<◌, ◌≡◌, refl, sym, ap, ◌∙◌, inl, inr, Option, Option-cases, none, some, [], ◌∷◌, arith,
}
use fair_mq.Shmem.Lifetime.{
  Shared, open_management, attach, detach, clean, Step, opens, attaches, detaches, cleans, keeps,
  Reach, start, later,
}
use fair_mq.Shmem.Lifetime.Calm.{open_some}
use fair_mq.Shmem.Lifetime.Counting.{users, Counts, Reach-Counted}

-- The segment with the session's name is one that was made.
abbrev Made : Shared → Type 0
Made s = (g : ℕ) → s.named ≡ some g → g < s.next

open-Made : (s : Shared) → Made s → Made (open_management s)
unfolding open_management
open-Made s m g e = elim (Option-cases s.named) [
  | inl n ↦ ground arith
  | inr (h, n) ↦ ground (arith, m h n)
]

Step-Made : {s t : Shared} → Step s t → Made s → Made t
unfolding attach detach clean
Step-Made {s} opens m = open-Made s m
Step-Made (attaches xs g ys e) m = m
Step-Made (detaches xs g ys n e k) m = m
Step-Made (cleans xs g ys e) m = λ h p. cc p
Step-Made (keeps xs g ys e) m = m

Reach-Made : {s : Shared} → Reach s → Made s
Reach-Made start = λ g e. cc e
Reach-Made (later r st) = Step-Made st (Reach-Made r)

last_counter : (o : Option ℕ) → Counts o 1 → o ≡ some 1
last_counter none h = absurd (omega (arith, h))
last_counter (some k) h = ap some (omega (arith, h))

-- The states after each of the six steps, from one where a single manager has the segment g open.
module _ (s : Shared) (g : ℕ) where
  abbrev pub second_opened : Shared
  second_opened = open_management s

  abbrev pub first_counted_out : Shared
  first_counted_out = detach g 1 [] (record s { opened = g ∷ s.opened })

  abbrev pub second_counted_in : Shared
  second_counted_in = attach g s.opened first_counted_out

  abbrev pub session_removed : Shared
  session_removed = clean s.leaving second_counted_in

  abbrev pub third_opened : Shared
  third_opened = open_management session_removed

  abbrev pub third_counted_in : Shared
  third_counted_in = attach s.next s.opened third_opened

-- While one manager is left, these six steps are possible one after the other: a second one opens the
-- management segment, the first counts itself out, the second counts itself in, the first removes the
-- session, and a third one opens the management segment and counts itself in. Then the second has the
-- segment of before open, which has no name any more, and the third another one, which has the name
-- of the session.
pub managers_split :
    (s : Shared) (g : ℕ)
    → Reach s
    → s.named ≡ some g
    → s.attached ≡ g ∷ []
    → (Step s (second_opened s g)
        × Step (second_opened s g) (first_counted_out s g)
        × Step (first_counted_out s g) (second_counted_in s g)
        × Step (second_counted_in s g) (session_removed s g)
        × Step (session_removed s g) (third_opened s g)
        × Step (third_opened s g) (third_counted_in s g))
      × ((third_counted_in s g).attached ≡ s.next ∷ g ∷ [])
      × ((third_counted_in s g).named ≡ some s.next)
      × (g < s.next)
unfolding open_management clean attach detach users
managers_split s g r e a =
    let c =
      last_counter (s.counter g)
        (subst (Counts (s.counter g)) (ap (users g) a ∙ ground arith) (Reach-Counted g r)) in
    (
      (
        opens,
        subst (λ x. Step x (first_counted_out s g)) (sym (open_some s g e))
            (detaches [] g [] 1 a c),
        attaches [] g s.opened refl,
        cleans [] g s.leaving refl,
        opens,
        attaches [] s.next s.opened refl,
      ),
      refl,
      refl,
      Reach-Made r g e,
    )
