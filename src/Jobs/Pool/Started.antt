-- ===== src/Jobs/Pool/Started.antt =====
-- What every move of a pool keeps: which tasks were started, how many workers there are, and that
-- none returns before the cursor has passed the items.
use cloudtalk_tech_task.Base.{
  ℕ, zero, suc, ◌+◌, ◌≤◌, ◌<◌, Bool, true, false, List, [], ◌∷◌, ◌≡◌, refl, arith, ltb, ◌==◌, ◌&&◌,
  if◌then◌else◌, length, ◌∙◌, ap,
}
use cloudtalk_tech_task.Sql.{count_where}
use cloudtalk_tech_task.Jobs.Pool.{
  Worker, reading, running, returned, rejected, Move, goes_on, resolves, rejects, Pool,
  worker_moves, move_at, step, run_pool, readers, all_returned,
}

abbrev pub is_running : Worker → Bool
is_running (running k) = true
is_running _ = false

-- the worker has started the task of an item, and it has not ended well
abbrev pub is_at : ℕ → Worker → Bool
is_at k (running j) = j == k
is_at k (rejected j) = j == k
is_at k _ = false

-- How often the task of an item was started.
abbrev pub starts : ℕ → Pool → ℕ
starts k p = count_where (is_at k) p.workers + count_where (λ j. j == k) p.done

abbrev pub taken : ℕ → ℕ → ℕ → ℕ
taken k cursor count = if ltb k cursor && ltb k count then 1 else 0

worker_moves-starts :
    (count : ℕ) (move : Move) (w : Worker) (k cursor : ℕ) (done : List ℕ) (ws : List Worker)
    → let p : Pool =
        worker_moves count move w (record { cursor = cursor; done = done; workers = ws }) in
      starts k p + taken k cursor count
      ≡ starts k (record { cursor = cursor; done = done; workers = w ∷ ws })
        + taken k p.cursor count
unfolding worker_moves
worker_moves-starts count goes_on reading k cursor done ws = ground arith
worker_moves-starts count goes_on (running j) k cursor done ws = refl
worker_moves-starts count goes_on returned k cursor done ws = refl
worker_moves-starts count goes_on (rejected j) k cursor done ws = refl
worker_moves-starts count resolves reading k cursor done ws = refl
worker_moves-starts count resolves (running j) k cursor done ws = ground arith
worker_moves-starts count resolves returned k cursor done ws = refl
worker_moves-starts count resolves (rejected j) k cursor done ws = refl
worker_moves-starts count rejects reading k cursor done ws = refl
worker_moves-starts count rejects (running j) k cursor done ws = refl
worker_moves-starts count rejects returned k cursor done ws = refl
worker_moves-starts count rejects (rejected j) k cursor done ws = refl

move_at-starts :
    (count : ℕ) (move : Move) (i k cursor : ℕ) (done : List ℕ) (ws : List Worker)
    → let p : Pool = move_at count move i cursor done ws in
      starts k p + taken k cursor count
      ≡ starts k (record { cursor = cursor; done = done; workers = ws }) + taken k p.cursor count
unfolding move_at
move_at-starts count move i k cursor done [] = refl
move_at-starts count move zero k cursor done (w ∷ ws) =
    worker_moves-starts count move w k cursor done ws
move_at-starts count move (suc i) k cursor done (w ∷ ws) =
    ground (arith, move_at-starts count move i k cursor done ws)

-- An item below the cursor was started once, and any other not at all.
pub run_pool-starts :
    (count : ℕ) (moves : List (Move × ℕ)) (k : ℕ) (p : Pool)
    → starts k p ≡ taken k p.cursor count
    → starts k (run_pool count moves p) ≡ taken k (run_pool count moves p).cursor count
unfolding run_pool
run_pool-starts count [] k p h = h
run_pool-starts count ((move, i) ∷ ms) k p h =
    run_pool-starts count ms k (step count (move, i) p)
      (omega (arith, h, move_at-starts count move i k p.cursor p.done p.workers))

length-worker_moves :
    (count : ℕ) (move : Move) (w : Worker) (p : Pool)
    → length (worker_moves count move w p).workers ≡ suc (length p.workers)
unfolding worker_moves
length-worker_moves count goes_on reading p = ground arith
length-worker_moves count goes_on (running j) p = refl
length-worker_moves count goes_on returned p = refl
length-worker_moves count goes_on (rejected j) p = refl
length-worker_moves count resolves reading p = refl
length-worker_moves count resolves (running j) p = refl
length-worker_moves count resolves returned p = refl
length-worker_moves count resolves (rejected j) p = refl
length-worker_moves count rejects reading p = refl
length-worker_moves count rejects (running j) p = refl
length-worker_moves count rejects returned p = refl
length-worker_moves count rejects (rejected j) p = refl

length-move_at :
    (count : ℕ) (move : Move) (i cursor : ℕ) (done : List ℕ) (ws : List Worker)
    → length (move_at count move i cursor done ws).workers ≡ length ws
unfolding move_at
length-move_at count move i cursor done [] = refl
length-move_at count move zero cursor done (w ∷ ws) =
    length-worker_moves count move w (record { cursor = cursor; done = done; workers = ws })
length-move_at count move (suc i) cursor done (w ∷ ws) =
    ap suc (length-move_at count move i cursor done ws)

pub length-run_pool :
    (count : ℕ) (moves : List (Move × ℕ)) (p : Pool)
    → length (run_pool count moves p).workers ≡ length p.workers
unfolding run_pool
length-run_pool count [] p = refl
length-run_pool count ((move, i) ∷ ms) p =
    length-run_pool count ms (step count (move, i) p)
    ∙ length-move_at count move i p.cursor p.done p.workers

pub running-le : (ws : List Worker) → count_where is_running ws ≤ length ws
running-le [] = omega arith
running-le (w ∷ ws) = ground (arith, running-le ws)

pub length-readers : (n : ℕ) → length (readers n) ≡ n
unfolding readers
length-readers zero = refl
length-readers (suc n) = ap suc (length-readers n)

pub readers-at : (k n : ℕ) → count_where (is_at k) (readers n) ≡ 0
unfolding readers
readers-at k zero = refl
readers-at k (suc n) = readers-at k n

abbrev pub has_returned : List Worker → Bool
has_returned [] = false
has_returned (returned ∷ ws) = true
has_returned (_ ∷ ws) = has_returned ws

-- A worker has returned only once the cursor has passed the items.
unfoldable pub Passed : ℕ → Pool → Type 0
Passed count p = has_returned p.workers ≡ true → count ≤ p.cursor

worker_moves-cursor :
    (count : ℕ) (move : Move) (w : Worker) (p : Pool)
    → p.cursor ≤ (worker_moves count move w p).cursor
unfolding worker_moves
worker_moves-cursor count goes_on reading p = ground arith
worker_moves-cursor count goes_on (running j) p = omega arith
worker_moves-cursor count goes_on returned p = omega arith
worker_moves-cursor count goes_on (rejected j) p = omega arith
worker_moves-cursor count resolves reading p = omega arith
worker_moves-cursor count resolves (running j) p = omega arith
worker_moves-cursor count resolves returned p = omega arith
worker_moves-cursor count resolves (rejected j) p = omega arith
worker_moves-cursor count rejects reading p = omega arith
worker_moves-cursor count rejects (running j) p = omega arith
worker_moves-cursor count rejects returned p = omega arith
worker_moves-cursor count rejects (rejected j) p = omega arith

move_at-cursor :
    (count : ℕ) (move : Move) (i cursor : ℕ) (done : List ℕ) (ws : List Worker)
    → cursor ≤ (move_at count move i cursor done ws).cursor
unfolding move_at
move_at-cursor count move i cursor done [] = omega arith
move_at-cursor count move zero cursor done (w ∷ ws) =
    worker_moves-cursor count move w (record { cursor = cursor; done = done; workers = ws })
move_at-cursor count move (suc i) cursor done (w ∷ ws) = move_at-cursor count move i cursor done ws

worker_moves-Passed :
    (count : ℕ) (move : Move) (w : Worker) (cursor : ℕ) (done : List ℕ) (ws : List Worker)
    → Passed count (record { cursor = cursor; done = done; workers = w ∷ ws })
    → Passed count
        (worker_moves count move w (record { cursor = cursor; done = done; workers = ws }))
unfolding worker_moves Passed
worker_moves-Passed count goes_on reading cursor done ws h = ground (arith, h)
worker_moves-Passed count goes_on (running j) cursor done ws h = h
worker_moves-Passed count goes_on returned cursor done ws h = h
worker_moves-Passed count goes_on (rejected j) cursor done ws h = h
worker_moves-Passed count resolves reading cursor done ws h = h
worker_moves-Passed count resolves (running j) cursor done ws h = h
worker_moves-Passed count resolves returned cursor done ws h = h
worker_moves-Passed count resolves (rejected j) cursor done ws h = h
worker_moves-Passed count rejects reading cursor done ws h = h
worker_moves-Passed count rejects (running j) cursor done ws h = h
worker_moves-Passed count rejects returned cursor done ws h = h
worker_moves-Passed count rejects (rejected j) cursor done ws h = h

move_at-Passed :
    (count : ℕ) (move : Move) (i cursor : ℕ) (done : List ℕ) (ws : List Worker)
    → Passed count (record { cursor = cursor; done = done; workers = ws })
    → Passed count (move_at count move i cursor done ws)
unfolding move_at Passed
move_at-Passed count move i cursor done [] h = h
move_at-Passed count move zero cursor done (w ∷ ws) h =
    worker_moves-Passed count move w cursor done ws h
move_at-Passed count move (suc i) cursor done (reading ∷ ws) h =
    move_at-Passed count move i cursor done ws h
move_at-Passed count move (suc i) cursor done (running j ∷ ws) h =
    move_at-Passed count move i cursor done ws h
move_at-Passed count move (suc i) cursor done (returned ∷ ws) h =
    λ _. ground (arith, h refl, move_at-cursor count move i cursor done ws)
move_at-Passed count move (suc i) cursor done (rejected j ∷ ws) h =
    move_at-Passed count move i cursor done ws h

pub run_pool-Passed :
    (count : ℕ) (moves : List (Move × ℕ)) (p : Pool)
    → Passed count p
    → Passed count (run_pool count moves p)
unfolding run_pool
run_pool-Passed count [] p h = h
run_pool-Passed count ((move, i) ∷ ms) p h =
    run_pool-Passed count ms (step count (move, i) p)
      (move_at-Passed count move i p.cursor p.done p.workers h)

pub all_returned-at :
    (k : ℕ) (ws : List Worker) → all_returned ws ≡ true → count_where (is_at k) ws ≡ 0
all_returned-at k [] h = refl
all_returned-at k (reading ∷ ws) h = ground (arith, h)
all_returned-at k (running j ∷ ws) h = ground (arith, h)
all_returned-at k (returned ∷ ws) h = all_returned-at k ws h
all_returned-at k (rejected j ∷ ws) h = ground (arith, h)

pub all_returned-has_returned :
    (ws : List Worker) → all_returned ws ≡ true → 0 < length ws → has_returned ws ≡ true
all_returned-has_returned [] h pos = ground (arith, pos)
all_returned-has_returned (reading ∷ ws) h pos = ground (arith, h)
all_returned-has_returned (running j ∷ ws) h pos = ground (arith, h)
all_returned-has_returned (returned ∷ ws) h pos = refl
all_returned-has_returned (rejected j ∷ ws) h pos = ground (arith, h)
