-- ===== src/Jobs/StageRun.antt =====
-- packages/jobs/src/stage.ts: `runPipelineStage`, which composes the steps of Jobs/Stage. What other
-- connections commit between two transactions of the run is the parameter `elsewhere`.
pub mod Replay
use cloudtalk_tech_task.Base.{ℕ, String, Option, none, some}
use cloudtalk_tech_task.Sql.Io.{Io, return, execute, ◌>>=◌, ◌>>◌}
use cloudtalk_tech_task.Jobs.Store.{Contract, Db}
use cloudtalk_tech_task.Jobs.DeadLetter.{DeadLetterRecord}
use cloudtalk_tech_task.Jobs.AttemptResult.{Codec, read_attempt_result, write_attempt_result}
use cloudtalk_tech_task.Jobs.Stage.{
  ClaimStageResult, StageRunOutcome, already_failed, claim_stage, claimed, complete_stage,
  completed, perform_external_call_with_routing, replay_no_op,
}

-- The points of a run between its transactions.
pub data Gap : Type 0 where
  before_read before_call before_insert before_reread before_complete before_successors : Gap

pub record StageRunOptions (Json E R : Type 0) : Type 0 where
  pub contract : Contract
  pub stage : String
  pub instance_id : String
  pub attempts_ceiling : ℕ
  pub perform_external_call : Io (Db Json) E R
  pub codec : Codec Json R
  pub apply_result : R → Io (Db Json) E (Unit {0})
  pub ensure_successors : Io (Db Json) E (Unit {0})

module _ {Json E R : Type 0} (elsewhere : Gap → Db Json → Db Json)
    (options : StageRunOptions Json E R) where
  open options use {contract, stage, instance_id, attempts_ceiling, codec}

  abbrev call_record : ℕ → String → DeadLetterRecord Json
  call_record attempts reason = record {
    instance_id = instance_id;
    stage = stage;
    branch_key = none;
    reason = reason;
    attempts = attempts;
    payload = none;
  }

  -- The stored result, or that of the external call, written ahead.
  unfoldable pub obtain_result : ℕ → Option R → Io (Db Json) E R
  obtain_result attempts (some result) = return result
  obtain_result attempts none = do
    execute (elsewhere before_call)
    result ←
        perform_external_call_with_routing contract (call_record attempts)
          options.perform_external_call
    execute (elsewhere before_insert)
    write_attempt_result codec (elsewhere before_reread) contract instance_id stage result

  unfoldable pub after_completion : StageRunOutcome → Io (Db Json) E StageRunOutcome
  after_completion already_failed = return already_failed
  after_completion _ = do
    execute (elsewhere before_successors)
    options.ensure_successors
    return completed

  unfoldable pub run_claimed : ClaimStageResult → Io (Db Json) E StageRunOutcome
  unfolding obtain_result after_completion
  run_claimed ClaimStageResult.replay_no_op = do options.ensure_successors; return replay_no_op
  run_claimed ClaimStageResult.already_failed = return already_failed
  run_claimed (ClaimStageResult.claimed attempts) = do
    execute (elsewhere before_read)
    existing ← read_attempt_result codec instance_id stage
    result ← obtain_result attempts existing
    execute (elsewhere before_complete)
    completion ← complete_stage contract stage instance_id (options.apply_result result)
    after_completion completion

  unfoldable pub run_pipeline_stage : Io (Db Json) E StageRunOutcome
  unfolding run_claimed
  run_pipeline_stage = do
    claim ← claim_stage contract stage instance_id attempts_ceiling
    run_claimed claim
