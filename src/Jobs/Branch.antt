-- ===== src/Jobs/Branch.antt =====
-- packages/jobs/src/branch.ts: fan-out branches, their join, and the run of one owned branch.
-- Every UPDATE of a branch row moves `updated_at`, by the table's trigger.
pub mod Join
pub mod ClaimLaws
use cloudtalk_tech_task.Base.{
  ℕ, ◌+◌, String, Bool, false, Option, none, some, List, [], ◌∷◌, ◌&&◌, ◌&◌, ◌==◌, if◌then◌else◌,
}
use cloudtalk_tech_task.Kernel.Errors.{no_options, internal_error, not_found_error}
use cloudtalk_tech_task.Sql.{first_where, update_where, count_where, insert_unless, returning}
use cloudtalk_tech_task.Sql.Io.{Io, ok, return, throw, query, execute, transaction, ◌>>=◌, ◌>>◌}
use cloudtalk_tech_task.Jobs.Store.{
  BranchStatus, BranchKind, Contract, BranchRow, Db, is_stage_branch, is_branch, is_pending,
}
use cloudtalk_tech_task.Jobs.Attempts.{claim_reached_ceiling, truncate_reason}
use cloudtalk_tech_task.Jobs.DeadLetter.{DeadLetterRecord, trx, write_dead_letter}
use cloudtalk_tech_task.Jobs.Stage.{ClaimKind, ClaimStageResult}

pub record BranchIdentity : Type 0 where
  pub instance_id : String
  pub stage : String
  pub branch_key : String

pub record NewBranch : Type 0 where
  pub branch_key : String
  pub kind : BranchKind

pub data JoinDecision : Type 0 where
  completed_now pending : JoinDecision

abbrev pub is_this : BranchIdentity → BranchRow → Bool
is_this b r = is_branch b.instance_id b.stage b.branch_key r

abbrev pub is_open_sibling : BranchIdentity → BranchRow → Bool
is_open_sibling b r = is_stage_branch b.instance_id b.stage r && is_pending r

-- What the join decides from the number of open siblings.
abbrev pub decide_join : ℕ → JoinDecision
decide_join remaining = if remaining == 0 then completed_now else pending

abbrev pub claim_branch_row : ℕ → BranchRow → BranchRow
claim_branch_row now r = record r { attempts = r.attempts + 1; updated_at = now }

abbrev pub branch_name : BranchIdentity → String
branch_name b = "(" & b.instance_id & ", " & b.stage & ", " & b.branch_key & ")"

module _ {Json : Type 0} where
  -- one INSERT ... ON CONFLICT DO NOTHING of `registerBranches`
  unfoldable pub register_branch : String → String → NewBranch → Db Json → Db Json
  register_branch id stage branch db = record db {
    branches =
        insert_unless (is_branch id stage branch.branch_key)
          (record {
            instance_id = id;
            stage = stage;
            branch_key = branch.branch_key;
            kind = branch.kind;
            status = BranchStatus.pending;
            attempts = 0;
            last_error = none;
            updated_at = db.now;
          })
          db.branches;
  }

  unfoldable pub register_branches : String → String → List NewBranch → Db Json → Db Json
  unfolding register_branch
  register_branches id stage [] db = db
  register_branches id stage (branch ∷ rest) db =
      register_branches id stage rest (register_branch id stage branch db)

  -- the guarded UPDATE of a branch's completion
  unfoldable pub complete_branch_update : BranchIdentity → Db Json → Db Json
  complete_branch_update b db = record db {
    branches =
        update_where (λ r. is_this b r && is_pending r)
          (λ r. record r { status = BranchStatus.completed; updated_at = db.now }) db.branches;
  }

  -- the rows that the UPDATE of a completion returns
  abbrev pub updated_rows : BranchIdentity → Db Json → ℕ
  updated_rows b db = count_where (λ r. is_this b r && is_pending r) db.branches

  -- `completeBranchLocked`: the UPDATE, and the count of open siblings if it hit a row.
  unfoldable pub complete_branch_locked : BranchIdentity → Db Json → JoinDecision × Db Json
  complete_branch_locked b db =
      let db' = complete_branch_update b db in
      if updated_rows b db == 0
      then (pending, db')
      else (decide_join (count_where (is_open_sibling b) db'.branches), db')

  -- `failBranch`
  unfoldable pub fail_branch : BranchIdentity → String → Db Json → Db Json
  fail_branch b reason db = record db {
    branches =
        update_where (λ r. is_this b r && is_pending r)
          (λ r. record r {
            attempts = r.attempts + 1;
            last_error = some (truncate_reason reason);
            updated_at = db.now;
          })
          db.branches;
  }

  -- the UPDATE of a branch's claim
  unfoldable pub claim_branch_update : BranchIdentity → Db Json → Db Json
  claim_branch_update b db = record db {
    branches =
        update_where (λ r. is_this b r && is_pending r) (claim_branch_row db.now) db.branches;
  }

  abbrev pub branch_record : BranchIdentity → String → ℕ → DeadLetterRecord Json
  branch_record b reason attempts = record {
    instance_id = b.instance_id;
    stage = b.stage;
    branch_key = some b.branch_key;
    reason = reason;
    attempts = attempts;
    payload = none;
  }

module _ {Json E : Type 0} where
  abbrev pub run_locked : (Db Json → JoinDecision × Db Json) → Io (Db Json) E JoinDecision
  run_locked f w = (ok (f w.db).0, record w { db = (f w.db).1 })

  unfoldable pub complete_branch : BranchIdentity → Io (Db Json) E JoinDecision
  unfolding complete_branch_locked complete_branch_update
  complete_branch b = transaction (run_locked (complete_branch_locked b))

  unfoldable pub claimed_branch :
      Contract → BranchIdentity → ℕ → Option BranchRow → Io (Db Json) E ClaimKind
  claimed_branch contract b ceiling none = throw (
      internal_error false
        ("runPipelineBranch: regression guard matched 0 rows for a branch read as pending moments earlier "
          & branch_name b)
        no_options)
  claimed_branch contract b ceiling (some after) =
      let attempts = after.attempts in
      if claim_reached_ceiling attempts ceiling
      then (write_dead_letter trx contract
            (branch_record b "claim: branch attempts ceiling reached" attempts)
          >> return ClaimKind.ceiling_reached)
      else return (ClaimKind.claimed attempts)

  unfoldable pub claim_branch_by_status :
      Contract → BranchIdentity → ℕ → BranchStatus → Io (Db Json) E ClaimKind
  unfolding claim_branch_update claimed_branch
  claim_branch_by_status contract b ceiling BranchStatus.completed = return ClaimKind.replay_no_op
  claim_branch_by_status contract b ceiling BranchStatus.failed = return ClaimKind.already_failed
  claim_branch_by_status contract b ceiling BranchStatus.pending = do
    returned ← query (λ db.
        returning (claim_branch_row db.now)
          (first_where (λ r. is_this b r && is_pending r) db.branches))
    execute (claim_branch_update b)
    claimed_branch contract b ceiling returned

  unfoldable pub claim_branch_read :
      Contract → BranchIdentity → ℕ → Option BranchRow → Io (Db Json) E ClaimKind
  unfolding claim_branch_by_status
  claim_branch_read contract b ceiling none = throw (
      not_found_error
        ("runPipelineBranch: no branch row for "
          & branch_name b
          & " — registerBranches must run before runPipelineBranch")
        no_options)
  claim_branch_read contract b ceiling (some row) =
      claim_branch_by_status contract b ceiling row.status

  unfoldable pub branch_claim_result :
      Contract → BranchIdentity → ClaimKind → Io (Db Json) E ClaimStageResult
  branch_claim_result contract b ClaimKind.ceiling_reached = throw (
      internal_error false
        (contract.pipeline & "." & b.stage & ":" & b.branch_key & ": attempts ceiling reached")
        no_options)
  branch_claim_result contract b ClaimKind.replay_no_op = return ClaimStageResult.replay_no_op
  branch_claim_result contract b ClaimKind.already_failed = return ClaimStageResult.already_failed
  branch_claim_result contract b (ClaimKind.claimed n) = return (ClaimStageResult.claimed n)

  unfoldable pub claim_branch : Contract → BranchIdentity → ℕ → Io (Db Json) E ClaimStageResult
  unfolding claim_branch_read branch_claim_result
  claim_branch contract b ceiling = do
    kind ← transaction do
      existing ← query (λ db. first_where (is_this b) db.branches)
      claim_branch_read contract b ceiling existing
    branch_claim_result contract b kind
