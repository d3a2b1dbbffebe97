-- ===== src/Jobs/Pool.antt =====
-- packages/jobs/src/internal/concurrency.ts: `forEachWithConcurrency`, a pool of workers that take
-- the items in turn. An item is its index here, and none of the items is `undefined`, at which the
-- source's worker would stop: the units of a scan are texts and objects. A worker reads the cursor between two `await`s,
-- thus in one step; which worker comes next, and when a task ends, is the schedule.
pub mod Started
pub mod Once
pub mod Ends
pub mod Complete
use cloudtalk_tech_task.Base.{
  ℕ, zero, suc, ◌+◌, Bool, true, false, List, [], ◌∷◌, ltb, leb, ◌&&◌, min, max, if◌then◌else◌,
}

-- Where a worker stands: before it reads the cursor, in the task of an item, at its end, or thrown
-- out by the task of an item that was rejected.
pub data Worker : Type 0 where
  reading : Worker
  running : ℕ → Worker
  returned : Worker
  rejected : ℕ → Worker

-- What may happen to a worker next.
pub data Move : Type 0 where
  goes_on : Move
  resolves : Move
  rejects : Move

-- `done` are the items whose tasks have ended well, the latest one in front.
pub record Pool : Type 0 where
  pub cursor : ℕ
  pub done : List ℕ
  pub workers : List Worker

abbrev pub with_worker : Worker → Pool → Pool
with_worker w p = record p { workers = w ∷ p.workers }

-- the body of the loop up to its `await`, and what comes after it
unfoldable pub worker_moves : ℕ → Move → Worker → Pool → Pool
worker_moves count goes_on reading p =
    if ltb p.cursor count
    then record { cursor = p.cursor + 1; done = p.done; workers = running p.cursor ∷ p.workers }
    else record { cursor = p.cursor + 1; done = p.done; workers = returned ∷ p.workers }
worker_moves count resolves (running k) p = record {
  cursor = p.cursor;
  done = k ∷ p.done;
  workers = reading ∷ p.workers;
}
worker_moves count rejects (running k) p = with_worker (rejected k) p
worker_moves count _ w p = with_worker w p

-- a move of the worker at a place
unfoldable pub move_at : ℕ → Move → ℕ → ℕ → List ℕ → List Worker → Pool
unfolding worker_moves
move_at count move i cursor done [] = record { cursor = cursor; done = done; workers = [] }
move_at count move zero cursor done (w ∷ ws) =
    worker_moves count move w (record { cursor = cursor; done = done; workers = ws })
move_at count move (suc i) cursor done (w ∷ ws) =
    with_worker w (move_at count move i cursor done ws)

abbrev pub step : ℕ → Move × ℕ → Pool → Pool
step count (move, i) p = move_at count move i p.cursor p.done p.workers

-- the pool after a schedule
unfoldable pub run_pool : ℕ → List (Move × ℕ) → Pool → Pool
unfolding move_at
run_pool count [] p = p
run_pool count (m ∷ ms) p = run_pool count ms (step count m p)

unfoldable pub readers : ℕ → List Worker
readers zero = []
readers (suc n) = reading ∷ readers n

-- `Math.min(Math.max(1, limit), items.length)`
unfoldable pub width_of : ℕ → ℕ → ℕ
width_of limit count = min (max 1 limit) count

unfoldable pub start_pool : ℕ → ℕ → Pool
unfolding readers width_of
start_pool limit count = record { cursor = 0; done = []; workers = readers (width_of limit count) }

-- `Promise.all` is fulfilled.
abbrev pub all_returned : List Worker → Bool
all_returned [] = true
all_returned (returned ∷ ws) = all_returned ws
all_returned (_ ∷ ws) = false
