-- ===== src/Tests/Lifetime.antt =====
-- Managers that come and go (fairmq/shmem/Manager.h) in concrete orders.
use fair_mq.Prelude.{◌<◌, ◌≡◌, refl, inl, inr, some, [], ◌∷◌, arith}
use fair_mq.Shmem.Lifetime.{
  Step, Shared, open_management, attach, detach, opens, attaches, detaches, nobody, Reach, start,
  later,
}
use fair_mq.Shmem.Lifetime.Counting.{Counted, Reach-Counted}
use fair_mq.Shmem.Lifetime.Calm.{CalmReach, calm_start, calm_later, Together, calm_managers_share}
use fair_mq.Shmem.Lifetime.Split.{
  managers_split, second_opened, first_counted_out, second_counted_in, session_removed,
  third_opened, third_counted_in,
}

-- One manager comes, another one comes, one of them leaves.
abbrev one : Shared
one = attach 0 [] (open_management nobody)

abbrev two : Shared
two = attach 0 [] (open_management one)

abbrev left : Shared
left = detach 0 2 (0 ∷ []) two

one_comes : Reach one
unfolding open_management
one_comes = later (later start opens) (attaches [] 0 [] refl)

one_leaves : Reach left
unfolding open_management attach
one_leaves =
    later (later (later one_comes opens) (attaches [] 0 [] refl))
      (detaches [] 0 (0 ∷ []) 2 refl refl)

Reach-Counted_example : Counted left 0
Reach-Counted_example = Reach-Counted 0 one_leaves

one_comes_calmly : CalmReach one
unfolding open_management attach
one_comes_calmly =
    calm_later (calm_later calm_start opens (inr refl) (omega arith)) (attaches [] 0 [] refl)
      (inl refl) (omega arith)

one_leaves_calmly : CalmReach left
unfolding open_management attach detach
one_leaves_calmly =
    calm_later
      (calm_later (calm_later one_comes_calmly opens (inr refl) (omega arith))
        (attaches [] 0 [] refl) (inl refl) (omega arith))
      (detaches [] 0 (0 ∷ []) 2 refl refl) (inl refl) (omega arith)

calm_managers_share_example : Together left
calm_managers_share_example = calm_managers_share one_leaves_calmly

managers_split_example :
    (Step one (second_opened one 0)
      × Step (second_opened one 0) (first_counted_out one 0)
      × Step (first_counted_out one 0) (second_counted_in one 0)
      × Step (second_counted_in one 0) (session_removed one 0)
      × Step (session_removed one 0) (third_opened one 0)
      × Step (third_opened one 0) (third_counted_in one 0))
    × ((third_counted_in one 0).attached ≡ one.next ∷ 0 ∷ [])
    × ((third_counted_in one 0).named ≡ some one.next)
    × (0 < one.next)
unfolding open_management attach
managers_split_example = managers_split one 0 one_comes refl refl
