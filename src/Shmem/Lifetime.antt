-- ===== src/Shmem/Lifetime.antt =====
-- The life of a session's management segment (fairmq/shmem/Manager.h): managers of several processes
-- open it, count themselves in, count themselves out, and the last one removes what there is.
pub mod Counting
pub mod Calm
pub mod Split
use fair_mq.Prelude.{
  ℕ, zero, suc, ◌+◌, ◌%◌, ◌==◌, ◌≡◌, Bool, true, false, Option, none, some, List, [], ◌∷◌, ◌++◌,
  if◌then◌else◌,
}

-- Management segments are numbered in the order in which they are made: removing one takes its name
-- away, and those that have it open keep it. `named` is the one under the name of the session,
-- `counter` the DeviceCounter in each, and `next` the number of the next. The managers are given by
-- the segment that they have open: in the constructor before it counts, after that, and in
-- CleanupIfLast between the count and the removal.
pub record Shared : Type 0 where
  pub named : Option ℕ
  pub counter : ℕ → Option ℕ
  pub next : ℕ
  pub opened : List ℕ
  pub attached : List ℕ
  pub leaving : List ℕ

-- The DeviceCounter, an unsigned int, after the constructor and after CleanupIfLast
abbrev pub count_in : Option ℕ → ℕ
count_in none = 1
count_in (some n) = (n + 1) % 4294967296

abbrev pub count_out : ℕ → ℕ
count_out n = (n + 4294967295) % 4294967296

abbrev pub set : ℕ → ℕ → (ℕ → Option ℕ) → ℕ → Option ℕ
set g n c h = if g == h then some n else c h

-- fManagementSegment(open_or_create, ...)
unfoldable pub open_management : Shared → Shared
open_management s = elim s.named [
  | some g ↦ record s { opened = g ∷ s.opened }
  | none ↦ record s { named = some s.next; next = suc s.next; opened = s.next ∷ s.opened }
]

-- The constructor's critical section, of a manager that has `g` open; `opened` is what is left.
unfoldable pub attach : ℕ → List ℕ → Shared → Shared
attach g opened s = record s {
  counter = set g (count_in (s.counter g)) s.counter;
  opened = opened;
  attached = g ∷ s.attached;
}

-- CleanupIfLast up to the end of its critical section; also where the constructor fails after it has
-- counted. `n` is the count that it finds.
unfoldable pub detach : ℕ → ℕ → List ℕ → Shared → Shared
detach g n attached s = record s {
  counter = set g (count_out n) s.counter;
  attached = attached;
  leaving = if count_out n == 0 then g ∷ s.leaving else s.leaving;
}

-- Monitor::Cleanup, which goes by the name
unfoldable pub clean : List ℕ → Shared → Shared
clean leaving s = record s { named = none; leaving = leaving }

pub data Step (s : Shared) : Shared → Type 0 where
  opens : Step s (open_management s)
  attaches :
      (xs : List ℕ) (g : ℕ) (ys : List ℕ) → s.opened ≡ xs ++ g ∷ ys → Step s (attach g (xs ++ ys) s)
  detaches :
      (xs : List ℕ) (g : ℕ) (ys : List ℕ) (n : ℕ)
      → s.attached ≡ xs ++ g ∷ ys
      → s.counter g ≡ some n
      → Step s (detach g n (xs ++ ys) s)
  cleans :
      (xs : List ℕ) (g : ℕ) (ys : List ℕ) → s.leaving ≡ xs ++ g ∷ ys → Step s (clean (xs ++ ys) s)
  -- the same with fNoCleanup
  keeps :
      (xs : List ℕ) (g : ℕ) (ys : List ℕ)
      → s.leaving ≡ xs ++ g ∷ ys
      → Step s (record s { leaving = xs ++ ys })

abbrev pub nobody : Shared
nobody = record {
  named = none;
  counter = λ g. none;
  next = 0;
  opened = [];
  attached = [];
  leaving = [];
}

pub data Reach : Shared → Type 0 where
  start : Reach nobody
  later : {s t : Shared} → Reach s → Step s t → Reach t
