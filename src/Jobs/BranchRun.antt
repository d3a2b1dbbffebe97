-- ===== src/Jobs/BranchRun.antt =====
-- packages/jobs/src/branch.ts: the run of one owned branch, `runPipelineStage`'s shape with the
-- write-ahead token '{stage}:{branchKey}' and the join decided in the completing transaction.
pub mod Replay
use cloudtalk_tech_task.Base.{ℕ, String, Option, none, some, ◌&◌}
use cloudtalk_tech_task.Kernel.Errors.{no_options, not_found_error}
use cloudtalk_tech_task.Sql.{first_where}
use cloudtalk_tech_task.Sql.Io.{Io, return, throw, query, execute, transaction, ◌>>=◌, ◌>>◌}
use cloudtalk_tech_task.Jobs.Store.{BranchStatus, Contract, BranchRow, Db}
use cloudtalk_tech_task.Jobs.AttemptResult.{Codec, read_attempt_result, write_attempt_result}
use cloudtalk_tech_task.Jobs.Stage.{
  StageRunOutcome, ClaimStageResult, perform_external_call_with_routing,
}
use cloudtalk_tech_task.Jobs.StageRun.{
  Gap, before_read, before_call, before_insert, before_reread, before_complete, before_successors,
}
use cloudtalk_tech_task.Jobs.Branch.{
  BranchIdentity, JoinDecision, completed_now, pending, is_this, branch_name, branch_record,
  complete_branch_locked, run_locked, claim_branch,
}

pub data BranchCompletion : Type 0 where
  closed : JoinDecision → BranchCompletion
  already_failed : BranchCompletion

module _ {Json E : Type 0} where
  unfoldable pub complete_with_apply_by_status :
      BranchIdentity → Io (Db Json) E (Unit {0}) → BranchStatus → Io (Db Json) E BranchCompletion
  complete_with_apply_by_status b apply BranchStatus.failed = return BranchCompletion.already_failed
  complete_with_apply_by_status b apply _ = do
    apply
    decision ← run_locked (complete_branch_locked b)
    return (BranchCompletion.closed decision)

  unfoldable pub complete_with_apply_read :
      BranchIdentity
      → Io (Db Json) E (Unit {0})
      → Option BranchRow
      → Io (Db Json) E BranchCompletion
  unfolding complete_with_apply_by_status
  complete_with_apply_read b apply none =
      throw (not_found_error ("runPipelineBranch: no branch row for " & branch_name b) no_options)
  complete_with_apply_read b apply (some row) = complete_with_apply_by_status b apply row.status

  unfoldable pub complete_branch_with_apply :
      BranchIdentity → Io (Db Json) E (Unit {0}) → Io (Db Json) E BranchCompletion
  unfolding complete_with_apply_read
  complete_branch_with_apply b apply = transaction do
    existing ← query (λ db. first_where (is_this b) db.branches)
    complete_with_apply_read b apply existing

pub record BranchRunOptions (Json E R : Type 0) : Type 0 where
  pub contract : Contract
  pub branch : BranchIdentity
  pub attempts_ceiling : ℕ
  pub perform_external_call : Io (Db Json) E R
  pub codec : Codec Json R
  pub apply_result : R → Io (Db Json) E (Unit {0})
  pub on_join_completed : Io (Db Json) E (Unit {0})

module _ {Json E R : Type 0} (elsewhere : Gap → Db Json → Db Json)
    (options : BranchRunOptions Json E R) where
  open options use {contract, branch, attempts_ceiling, codec}

  abbrev pub branch_attempt_token : String
  branch_attempt_token = branch.stage & ":" & branch.branch_key

  unfoldable pub obtain_branch_result : ℕ → Option R → Io (Db Json) E R
  obtain_branch_result attempts (some result) = return result
  obtain_branch_result attempts none = do
    execute (elsewhere before_call)
    result ←
        perform_external_call_with_routing contract (λ reason. branch_record branch reason attempts)
          options.perform_external_call
    execute (elsewhere before_insert)
    write_attempt_result codec (elsewhere before_reread) contract branch.instance_id
        branch_attempt_token result

  unfoldable pub after_branch_completion : BranchCompletion → Io (Db Json) E StageRunOutcome
  after_branch_completion BranchCompletion.already_failed = return StageRunOutcome.already_failed
  after_branch_completion (BranchCompletion.closed completed_now) = do
    execute (elsewhere before_successors)
    options.on_join_completed
    return StageRunOutcome.completed
  after_branch_completion (BranchCompletion.closed pending) = return StageRunOutcome.completed

  unfoldable pub run_claimed_branch : ClaimStageResult → Io (Db Json) E StageRunOutcome
  unfolding obtain_branch_result after_branch_completion
  run_claimed_branch ClaimStageResult.replay_no_op = return StageRunOutcome.replay_no_op
  run_claimed_branch ClaimStageResult.already_failed = return StageRunOutcome.already_failed
  run_claimed_branch (ClaimStageResult.claimed attempts) = do
    execute (elsewhere before_read)
    existing ← read_attempt_result codec branch.instance_id branch_attempt_token
    result ← obtain_branch_result attempts existing
    execute (elsewhere before_complete)
    completion ← complete_branch_with_apply branch (options.apply_result result)
    after_branch_completion completion

  unfoldable pub run_pipeline_branch : Io (Db Json) E StageRunOutcome
  unfolding run_claimed_branch
  run_pipeline_branch = do
    claim ← claim_branch contract branch attempts_ceiling
    run_claimed_branch claim
