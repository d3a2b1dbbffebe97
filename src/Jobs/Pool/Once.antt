-- ===== src/Jobs/Pool/Once.antt =====
-- Every schedule of a pool starts each task at most once, and a pool that has come to its end has
-- run all of them.
use cloudtalk_tech_task.Base.{
  ℕ, zero, suc, ◌≤◌, true, false, List, ◌≡◌, refl, arith, ltb, ◌==◌, if◌then◌else◌, length, ◌∙◌,
  Bool-cases, inl, inr, max,
}
use cloudtalk_tech_task.Sql.{count_where}
use cloudtalk_tech_task.Jobs.Pool.{
  Move, Pool, run_pool, readers, width_of, start_pool, all_returned,
}
use cloudtalk_tech_task.Jobs.Pool.Started.{
  is_running, starts, taken, run_pool-starts, length-run_pool, running-le, length-readers,
  readers-at, has_returned, Passed, run_pool-Passed, all_returned-at, all_returned-has_returned,
}

readers-returned : (n : ℕ) → has_returned (readers n) ≡ false
unfolding readers
readers-returned zero = refl
readers-returned (suc n) = readers-returned n

start_pool-Passed : (limit count : ℕ) → Passed count (start_pool limit count)
unfolding Passed start_pool
start_pool-Passed limit count h = ground (arith, h, readers-returned (width_of limit count))

module _ (limit count : ℕ) (moves : List (Move × ℕ)) where
  -- the pool after the schedule
  abbrev reached : Pool
  reached = run_pool count moves (start_pool limit count)

  length-reached : length reached.workers ≡ width_of limit count
  unfolding start_pool
  length-reached =
      length-run_pool count moves (start_pool limit count) ∙ length-readers (width_of limit count)

  starts-reached : (k : ℕ) → starts k reached ≡ taken k reached.cursor count
  unfolding start_pool
  starts-reached k =
      run_pool-starts count moves k (start_pool limit count)
        (ground (arith, readers-at k (width_of limit count)))

  once_at :
      (k : ℕ)
      → all_returned reached.workers ≡ true
      → starts k reached ≡ (if ltb k count then 1 else 0)
  unfolding Passed width_of
  once_at k back = elim (Bool-cases (ltb 0 (length reached.workers))) [
    | inl some_worker ↦ ground (
      arith,
      starts-reached k,
      run_pool-Passed count moves (start_pool limit count) (start_pool-Passed limit count)
          (all_returned-has_returned reached.workers back (ground (arith, some_worker))),
    )
    | inr no_worker ↦ ground (arith, starts-reached k, no_worker, length-reached)
  ]

  -- At every point of every schedule at most as many tasks are running as the limit says, or
  -- one where it says less, and no item's task has been started twice.
  pub for_each_with_concurrency_bound :
      (k : ℕ) → (count_where is_running reached.workers ≤ max 1 limit) × (starts k reached ≤ 1)
  unfolding width_of
  for_each_with_concurrency_bound k =
      (omega (arith, running-le reached.workers, length-reached), ground (arith, starts-reached k))

  -- Where every worker has returned, the task of each item has ended well, once.
  pub for_each_with_concurrency_lem :
      (k : ℕ)
      → all_returned reached.workers ≡ true
      → count_where (λ j. j == k) reached.done ≡ (if ltb k count then 1 else 0)
  for_each_with_concurrency_lem k back =
      ground (arith, once_at k back, all_returned-at k reached.workers back)
