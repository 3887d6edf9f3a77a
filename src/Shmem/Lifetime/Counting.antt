-- ===== src/Shmem/Lifetime/Counting.antt =====
-- The DeviceCounter (fairmq/shmem/Manager.h) counts the managers that have its segment open.
use mathlib.Core.Path.{subst}
use fair_mq.Prelude.{
  ℕ, ◌+◌, ◌%◌, ◌==◌, ==_iff, ◌≡◌, refl, sym, ap, ◌∙◌, inl, inr, Option-cases, Bool, Bool-cases,
  Option, none, some, List, [], ◌∷◌, ◌++◌, if◌then◌else◌, arith,
}
use fair_mq.Shmem.Lifetime.{
  Shared, count_in, count_out, open_management, attach, detach, clean, Step, opens, attaches,
  detaches, cleans, keeps, Reach, start, later,
}

-- How often a segment is in a list.
unfoldable pub users : ℕ → List ℕ → ℕ
users g [] = 0
users g (h ∷ hs) = let rest = users g hs in if h == g then 1 + rest else rest

pub users-middle :
    (g h : ℕ) (xs ys : List ℕ)
    → users g (xs ++ h ∷ ys) ≡ (if h == g then 1 + users g (xs ++ ys) else users g (xs ++ ys))
unfolding users
users-middle g h [] ys = refl
users-middle g h (x ∷ xs) ys = ground (arith, users-middle g h xs ys)

-- What a counter says of `n` managers.
abbrev pub Counts : Option ℕ → ℕ → Type 0
Counts none n = n ≡ 0
Counts (some k) n = k ≡ n % 4294967296

abbrev pub Counted : Shared → ℕ → Type 0
Counted s g = Counts (s.counter g) (users g s.attached)

count_in-Counts : (o : Option ℕ) (n : ℕ) → Counts o n → Counts (some (count_in o)) (1 + n)
count_in-Counts none n h = omega (arith, h)
count_in-Counts (some k) n h = omega (arith, h)

count_out-Counts :
    (o : Option ℕ) (k n : ℕ) → o ≡ some k → Counts o (1 + n) → Counts (some (count_out k)) n
count_out-Counts none k n e h = cc e
count_out-Counts (some j) k n e h = ground (arith, e, h)

attach-Counted : (s : Shared) (left : List ℕ) (g h : ℕ) → Counted s h → Counted (attach g left s) h
unfolding attach users
attach-Counted s left g h c = elim (Bool-cases (g == h)) [
  | inl e ↦ rw e (
      subst (λ j. Counts (some (count_in (s.counter j))) (1 + users h s.attached))
        (sym ((==_iff g h).0 e)) (count_in-Counts (s.counter h) (users h s.attached) c))
  | inr e ↦ rw e c
]

abbrev Branch : Shared → List ℕ → List ℕ → ℕ → Bool → Type 0
Branch s xs ys h t = Counts (s.counter h) (if t then 1 + users h (xs ++ ys) else users h (xs ++ ys))

detach-Counted :
    (s : Shared) (xs : List ℕ) (g : ℕ) (ys : List ℕ) (n h : ℕ)
    → s.attached ≡ xs ++ g ∷ ys
    → s.counter g ≡ some n
    → Counted s h
    → Counted (detach g n (xs ++ ys) s) h
unfolding detach
detach-Counted s xs g ys n h a b c =
    let m = ap (users h) a ∙ users-middle h g xs ys in
    let c' = subst (Counts (s.counter h)) m c in
    elim (Bool-cases (g == h)) [
      | inl e ↦ rw e (
          count_out-Counts (s.counter h) n (users h (xs ++ ys))
            (ap s.counter (sym ((==_iff g h).0 e)) ∙ b) (subst (Branch s xs ys h) e c'))
      | inr e ↦ rw e (subst (Branch s xs ys h) e c')
    ]

open_management-Counted : (s : Shared) (h : ℕ) → Counted s h → Counted (open_management s) h
unfolding open_management
open_management-Counted s h c = elim (Option-cases s.named) [ inl e ↦ rw e c | inr (g, e) ↦ rw e c ]

Step-Counted : {s t : Shared} (h : ℕ) → Step s t → Counted s h → Counted t h
unfolding clean
Step-Counted {s} h opens c = open_management-Counted s h c
Step-Counted {s} h (attaches xs g ys e) c = attach-Counted s (xs ++ ys) g h c
Step-Counted {s} h (detaches xs g ys n e d) c = detach-Counted s xs g ys n h e d c
Step-Counted h (cleans xs g ys e) c = c
Step-Counted h (keeps xs g ys e) c = c

-- However managers come and go: the DeviceCounter of a management segment is the number of managers
-- that have counted themselves in and not out, modulo 2^32, also where several segments have had the
-- session's name; and a segment without a counter has none.
pub Reach-Counted : {s : Shared} (h : ℕ) → Reach s → Counted s h
unfolding users
Reach-Counted h start = refl
Reach-Counted h (later r st) = Step-Counted h st (Reach-Counted h r)
