-- ===== src/Jobs/Branch/Join.antt =====
-- The join of a fan-out fires exactly once.
use cloudtalk_tech_task.Base.{
  ℕ, ◌+◌, ◌≤◌, String, List, [], ◌∷◌, ◌≡◌, ◌==◌, ◌&&◌, arith, if◌then◌else◌,
}
use cloudtalk_tech_task.Sql.{count_where}
use cloudtalk_tech_task.Sql.Laws.{count_where-update_out}
use cloudtalk_tech_task.Jobs.Store.{Db, is_stage_branch, is_pending}
use cloudtalk_tech_task.Jobs.Branch.{
  BranchIdentity, JoinDecision, completed_now, pending, is_this, updated_rows,
  complete_branch_update, complete_branch_locked,
}

abbrev pub branch : String → String → String → BranchIdentity
branch id stage key = record { instance_id = id; stage = stage; branch_key = key }

abbrev pub fires : JoinDecision → ℕ
fires completed_now = 1
fires pending = 0

-- Whether the join has fired by the end, from the two counts alone.
abbrev pub fired : ℕ → ℕ → ℕ
fired before after = if before == 0 then 0 else if after == 0 then 1 else 0

module _ {Json : Type 0} (id stage : String) where
  -- How many branches of the stage are still pending.
  abbrev pub open_count : Db Json → ℕ
  open_count db = count_where (λ r. is_stage_branch id stage r && is_pending r) db.branches

  -- The completions of branches one after another, in the order in which they get the lock, and
  -- how many of them were told to fire the join.
  unfoldable pub complete_in_turn : List String → Db Json → ℕ × Db Json
  complete_in_turn [] db = (0, db)
  complete_in_turn (key ∷ keys) db =
      let step = complete_branch_locked (branch id stage key) db in
      let rest = complete_in_turn keys step.1 in (fires step.0 + rest.0, rest.1)

  open_count-update :
      (key : String) (db : Db Json)
      → open_count (complete_branch_update (branch id stage key) db)
          + updated_rows (branch id stage key) db
        ≡ open_count db
  unfolding complete_branch_update
  open_count-update key db =
      count_where-update_out (λ r. is_stage_branch id stage r && is_pending r)
        (λ r. is_this (branch id stage key) r && is_pending r) _ db.branches (λ y h. ground arith)
        (λ y h. ground arith)

  complete_branch_locked_lem :
      (key : String) (db : Db Json)
      → (fires (complete_branch_locked (branch id stage key) db).0
          ≡ fired (open_count db) (open_count (complete_branch_locked (branch id stage key) db).1))
        × (open_count (complete_branch_locked (branch id stage key) db).1 ≤ open_count db)
  unfolding complete_branch_locked
  complete_branch_locked_lem key db = ground (arith, open_count-update key db)

  -- However many branches of a stage are completed one after another, in whatever order and
  -- however often each, the join fires once if the stage had pending branches before and has
  -- none after, and otherwise never; the number of pending branches never grows.
  pub complete_in_turn_lem :
      (keys : List String) (db : Db Json)
      → ((complete_in_turn keys db).0
          ≡ fired (open_count db) (open_count (complete_in_turn keys db).1))
        × (open_count (complete_in_turn keys db).1 ≤ open_count db)
  unfolding complete_in_turn
  complete_in_turn_lem [] db = ground arith
  complete_in_turn_lem (key ∷ keys) db = ground (
    arith,
    complete_branch_locked_lem key db,
    complete_in_turn_lem keys (complete_branch_locked (branch id stage key) db).1,
  )
