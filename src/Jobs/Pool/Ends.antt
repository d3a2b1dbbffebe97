-- ===== src/Jobs/Pool/Ends.antt =====
-- No schedule of a pool goes on for ever.
use cloudtalk_tech_task.Base.{
  ℕ, zero, suc, ◌+◌, ◌-◌, ◌*◌, ◌≤◌, ◌<◌, Bool, true, false, List, [], ◌∷◌, ◌≡◌, refl, arith, ◌&&◌,
  length, min, max, Bool-cases, inl, inr,
}
use cloudtalk_tech_task.Jobs.Pool.{
  Worker, reading, running, returned, rejected, Move, goes_on, resolves, rejects, Pool,
  worker_moves, move_at, step, run_pool, readers, width_of, start_pool,
}

-- the moves that a worker can make
abbrev pub can : Move → Worker → Bool
can goes_on reading = true
can resolves (running k) = true
can rejects (running k) = true
can _ _ = false

abbrev pub can_at : Move → ℕ → List Worker → Bool
can_at move i [] = false
can_at move zero (w ∷ ws) = can move w
can_at move (suc i) (w ∷ ws) = can_at move i ws

-- Every move of a schedule is one that its worker can make.
unfoldable pub is_schedule : ℕ → List (Move × ℕ) → Pool → Bool
is_schedule count [] p = true
is_schedule count ((move, i) ∷ ms) p =
    can_at move i p.workers && is_schedule count ms (step count (move, i) p)

abbrev weight : Worker → ℕ
weight reading = 1
weight (running k) = 2
weight returned = 0
weight (rejected k) = 0

abbrev weights : List Worker → ℕ
weights [] = 0
weights (w ∷ ws) = weight w + weights ws

-- What is left to do.
abbrev to_do : ℕ → Pool → ℕ
to_do count p = 2 * (count - p.cursor) + weights p.workers

worker_moves-lt :
    (count : ℕ) (move : Move) (w : Worker) (cursor : ℕ) (done : List ℕ) (ws : List Worker)
    → can move w ≡ true
    → to_do count
        (worker_moves count move w (record { cursor = cursor; done = done; workers = ws }))
      < to_do count (record { cursor = cursor; done = done; workers = w ∷ ws })
unfolding worker_moves
worker_moves-lt count goes_on reading cursor done ws h = ground arith
worker_moves-lt count goes_on (running j) cursor done ws h = ground (arith, h)
worker_moves-lt count goes_on returned cursor done ws h = ground (arith, h)
worker_moves-lt count goes_on (rejected j) cursor done ws h = ground (arith, h)
worker_moves-lt count resolves reading cursor done ws h = ground (arith, h)
worker_moves-lt count resolves (running j) cursor done ws h = ground arith
worker_moves-lt count resolves returned cursor done ws h = ground (arith, h)
worker_moves-lt count resolves (rejected j) cursor done ws h = ground (arith, h)
worker_moves-lt count rejects reading cursor done ws h = ground (arith, h)
worker_moves-lt count rejects (running j) cursor done ws h = ground arith
worker_moves-lt count rejects returned cursor done ws h = ground (arith, h)
worker_moves-lt count rejects (rejected j) cursor done ws h = ground (arith, h)

move_at-lt :
    (count : ℕ) (move : Move) (i cursor : ℕ) (done : List ℕ) (ws : List Worker)
    → can_at move i ws ≡ true
    → to_do count (move_at count move i cursor done ws)
      < to_do count (record { cursor = cursor; done = done; workers = ws })
unfolding move_at
move_at-lt count move i cursor done [] h = ground (arith, h)
move_at-lt count move zero cursor done (w ∷ ws) h = worker_moves-lt count move w cursor done ws h
move_at-lt count move (suc i) cursor done (w ∷ ws) h =
    omega (arith, move_at-lt count move i cursor done ws h)

schedule_bound :
    (count : ℕ) (moves : List (Move × ℕ)) (p : Pool)
    → is_schedule count moves p ≡ true
    → length moves + to_do count (run_pool count moves p) ≤ to_do count p
unfolding is_schedule run_pool
schedule_bound count [] p h = omega arith
schedule_bound count ((move, i) ∷ ms) p h = elim (Bool-cases (can_at move i p.workers)) [
  | inl e ↦ ground (
    arith,
    h,
    e,
    move_at-lt count move i p.cursor p.done p.workers e,
    schedule_bound count ms (step count (move, i) p) (ground (arith, h, e)),
  )
  | inr e ↦ ground (arith, h, e)
]

weights-readers : (n : ℕ) → weights (readers n) ≡ n
unfolding readers
weights-readers zero = refl
weights-readers (suc n) = ground (arith, weights-readers n)

-- A schedule of a pool, each of whose moves a worker can make, has at most two moves for every
-- item and one for every worker.
pub for_each_with_concurrency_ends :
    (limit count : ℕ) (moves : List (Move × ℕ))
    → is_schedule count moves (start_pool limit count) ≡ true
    → length moves ≤ 2 * count + min (max 1 limit) count
unfolding start_pool width_of
for_each_with_concurrency_ends limit count moves h = omega (
  arith,
  schedule_bound count moves (start_pool limit count) h,
  weights-readers (min (max 1 limit) count),
)
