-- ===== src/Tests/Pools.antt =====
-- A pool of two workers over three items.
use cloudtalk_tech_task.Base.{
  ℕ, zero, suc, ◌≤◌, true, false, List, [], ◌∷◌, ◌≡◌, refl, ◌==◌, length,
}
use cloudtalk_tech_task.Sql.{count_where}
use cloudtalk_tech_task.Jobs.Pool.{
  running, returned, Move, goes_on, resolves, rejects, move_at, run_pool, start_pool,
}
use cloudtalk_tech_task.Jobs.Pool.Started.{is_running, starts}
use cloudtalk_tech_task.Jobs.Pool.Once.{for_each_with_concurrency_bound}
use cloudtalk_tech_task.Jobs.Pool.Ends.{can_at, is_schedule, for_each_with_concurrency_ends}
use cloudtalk_tech_task.Jobs.Pool.Complete.{for_each_with_concurrency_complete}

-- Both take an item, the second one ends first and takes another; then all end.
abbrev overlapped : List (Move × ℕ)
overlapped =
    (goes_on, 0)
    ∷ (goes_on, 1)
    ∷ (resolves, 1)
    ∷ (goes_on, 1)
    ∷ (resolves, 0)
    ∷ (goes_on, 0)
    ∷ (resolves, 1)
    ∷ (goes_on, 1)
    ∷ []

-- the first task is still running when the others have ended, and the second worker returns
slow_first :
    (run_pool 3
      ((goes_on, 0)
        ∷ (goes_on, 1)
        ∷ (resolves, 1)
        ∷ (goes_on, 1)
        ∷ (resolves, 1)
        ∷ (goes_on, 1)
        ∷ [])
      (start_pool 2 3)).workers
    ≡ running 0 ∷ returned ∷ []
unfolding run_pool start_pool
slow_first = refl

overlapped_done : (run_pool 3 overlapped (start_pool 2 3)).done ≡ 2 ∷ 0 ∷ 1 ∷ []
unfolding run_pool start_pool
overlapped_done = refl

for_each_with_concurrency_bound_example :
    (count_where is_running (run_pool 3 overlapped (start_pool 2 3)).workers ≤ 2)
    × (starts 1 (run_pool 3 overlapped (start_pool 2 3)) ≤ 1)
for_each_with_concurrency_bound_example = for_each_with_concurrency_bound 2 3 overlapped 1

overlapped-is_schedule : is_schedule 3 overlapped (start_pool 2 3) ≡ true
unfolding is_schedule start_pool move_at
overlapped-is_schedule = refl

for_each_with_concurrency_ends_example : length overlapped ≤ 8
for_each_with_concurrency_ends_example =
    for_each_with_concurrency_ends 2 3 overlapped overlapped-is_schedule

returned_stuck : (move : Move) (i : ℕ) → can_at move i (returned ∷ returned ∷ []) ≡ false
returned_stuck goes_on zero = refl
returned_stuck goes_on (suc zero) = refl
returned_stuck goes_on (suc (suc i)) = refl
returned_stuck resolves zero = refl
returned_stuck resolves (suc zero) = refl
returned_stuck resolves (suc (suc i)) = refl
returned_stuck rejects zero = refl
returned_stuck rejects (suc zero) = refl
returned_stuck rejects (suc (suc i)) = refl

overlapped_stuck :
    (move : Move) (i : ℕ) → can_at move i (run_pool 3 overlapped (start_pool 2 3)).workers ≡ false
unfolding run_pool start_pool
overlapped_stuck = returned_stuck

for_each_with_concurrency_complete_example :
    count_where (λ j. j == 2) (run_pool 3 overlapped (start_pool 2 3)).done ≡ 1
for_each_with_concurrency_complete_example =
    for_each_with_concurrency_complete 2 3 2 overlapped refl overlapped_stuck
