-- ===== src/Jobs/Pool/Complete.antt =====
-- A pool whose tasks all end well runs every one of them.
use cloudtalk_tech_task.Base.{
  ℕ, zero, suc, Bool, true, false, List, [], ◌∷◌, ◌≡◌, refl, arith, ltb, ◌==◌, ◌||◌, if◌then◌else◌,
  any,
}
use cloudtalk_tech_task.Sql.{count_where}
use cloudtalk_tech_task.Jobs.Pool.{
  Worker, reading, running, returned, rejected, Move, goes_on, resolves, rejects, Pool,
  worker_moves, move_at, step, run_pool, readers, width_of, start_pool, all_returned,
}
use cloudtalk_tech_task.Jobs.Pool.Once.{for_each_with_concurrency_lem}
use cloudtalk_tech_task.Jobs.Pool.Ends.{can_at}

-- the task of an item throws
abbrev pub is_rejection : Move × ℕ → Bool
is_rejection (goes_on, i) = false
is_rejection (resolves, i) = false
is_rejection (rejects, i) = true

abbrev was_rejected : Worker → Bool
was_rejected (rejected k) = true
was_rejected _ = false

worker_moves-rejected :
    (count : ℕ) (move : Move) (i : ℕ) (w : Worker) (p : Pool)
    → is_rejection (move, i) ≡ false
    → any was_rejected (worker_moves count move w p).workers
      ≡ (was_rejected w || any was_rejected p.workers)
unfolding worker_moves
worker_moves-rejected count goes_on i reading p h = ground arith
worker_moves-rejected count goes_on i (running j) p h = refl
worker_moves-rejected count goes_on i returned p h = refl
worker_moves-rejected count goes_on i (rejected j) p h = refl
worker_moves-rejected count resolves i reading p h = refl
worker_moves-rejected count resolves i (running j) p h = refl
worker_moves-rejected count resolves i returned p h = refl
worker_moves-rejected count resolves i (rejected j) p h = refl
worker_moves-rejected count rejects i w p h = ground (arith, h)

move_at-rejected :
    (count : ℕ) (move : Move) (i cursor : ℕ) (done : List ℕ) (ws : List Worker)
    → is_rejection (move, i) ≡ false
    → any was_rejected (move_at count move i cursor done ws).workers ≡ any was_rejected ws
unfolding move_at
move_at-rejected count move i cursor done [] h = refl
move_at-rejected count move zero cursor done (w ∷ ws) h =
    worker_moves-rejected count move 0 w (record { cursor = cursor; done = done; workers = ws }) h
move_at-rejected count goes_on (suc i) cursor done (w ∷ ws) h =
    ground (arith, move_at-rejected count goes_on i cursor done ws refl)
move_at-rejected count resolves (suc i) cursor done (w ∷ ws) h =
    ground (arith, move_at-rejected count resolves i cursor done ws refl)
move_at-rejected count rejects (suc i) cursor done (w ∷ ws) h = ground (arith, h)

run_pool-rejected :
    (count : ℕ) (moves : List (Move × ℕ)) (p : Pool)
    → any is_rejection moves ≡ false
    → any was_rejected p.workers ≡ false
    → any was_rejected (run_pool count moves p).workers ≡ false
unfolding run_pool
run_pool-rejected count [] p h k = k
run_pool-rejected count ((move, i) ∷ ms) p h k =
    run_pool-rejected count ms (step count (move, i) p) (ground (arith, h))
      (ground (arith, h, k, move_at-rejected count move i p.cursor p.done p.workers))

readers-rejected : (n : ℕ) → any was_rejected (readers n) ≡ false
unfolding readers
readers-rejected zero = refl
readers-rejected (suc n) = readers-rejected n

-- No move is left, and none was a rejection: every worker has returned.
stuck_returned :
    (ws : List Worker)
    → any was_rejected ws ≡ false
    → ((move : Move) (i : ℕ) → can_at move i ws ≡ false)
    → all_returned ws ≡ true
stuck_returned [] h stuck = refl
stuck_returned (reading ∷ ws) h stuck = ground (arith, stuck goes_on 0)
stuck_returned (running j ∷ ws) h stuck = ground (arith, stuck resolves 0)
stuck_returned (returned ∷ ws) h stuck = stuck_returned ws h (λ move i. stuck move (suc i))
stuck_returned (rejected j ∷ ws) h stuck = ground (arith, h)

-- After any schedule in which no task is rejected and behind which no worker can make another
-- move, the tasks of all items have ended, each once, and there were no others.
pub for_each_with_concurrency_complete :
    (limit count k : ℕ) (moves : List (Move × ℕ))
    → any is_rejection moves ≡ false
    → ((move : Move) (i : ℕ)
        → can_at move i (run_pool count moves (start_pool limit count)).workers ≡ false)
    → count_where (λ j. j == k) (run_pool count moves (start_pool limit count)).done
      ≡ (if ltb k count then 1 else 0)
unfolding start_pool
for_each_with_concurrency_complete limit count k moves h stuck =
    for_each_with_concurrency_lem limit count moves k (
      stuck_returned (run_pool count moves (start_pool limit count)).workers
        (run_pool-rejected count moves (start_pool limit count) h
          (readers-rejected (width_of limit count)))
        stuck)
