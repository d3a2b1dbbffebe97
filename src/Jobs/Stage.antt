-- ===== src/Jobs/Stage.antt =====
-- packages/jobs/src/stage.ts and internal/terminal-routing.ts: the steps of one pipeline stage, its
-- claim, its completion and the routing of a failed external call. A transaction runs as one step,
-- since each takes the instance's advisory lock first.
pub mod ClaimLaws
pub mod Laws
use cloudtalk_tech_task.Base.{
  ℕ, ◌+◌, String, Bool, false, Option, none, some, ◌&&◌, ◌||◌, ◌&◌, if◌then◌else◌,
}
use cloudtalk_tech_task.Kernel.Value.{Value}
use cloudtalk_tech_task.Kernel.Errors.{no_options, internal_error, not_found_error}
use cloudtalk_tech_task.Kernel.Retry.{RetryDecision, classify_retry}
use cloudtalk_tech_task.Sql.{first_where, update_where, returning}
use cloudtalk_tech_task.Sql.Io.{
  Io, return, throw, query, execute, transaction, try_catch, ◌>>=◌, ◌>>◌,
}
use cloudtalk_tech_task.Jobs.Store.{
  StageStatus, Contract, InstanceRow, Db, set_column, stage_status_eq, is_instance,
}
use cloudtalk_tech_task.Jobs.Attempts.{claim_reached_ceiling}
use cloudtalk_tech_task.Jobs.DeadLetter.{DeadLetterRecord, pool, trx, write_dead_letter}

pub data StageRunOutcome : Type 0 where
  completed replay_no_op already_failed : StageRunOutcome

-- What the claiming transaction returns before a ceiling is turned into a throw.
pub data ClaimKind : Type 0 where
  claimed : ℕ → ClaimKind
  replay_no_op already_failed ceiling_reached : ClaimKind

pub data ClaimStageResult : Type 0 where
  claimed : ℕ → ClaimStageResult
  replay_no_op already_failed : ClaimStageResult

-- pending or in progress
abbrev pub is_open : StageStatus → Bool
is_open s = stage_status_eq s StageStatus.pending || stage_status_eq s StageStatus.in_progress

abbrev pub claim_row : String → ℕ → InstanceRow → InstanceRow
claim_row stage now r = record r {
  status = set_column r.status stage StageStatus.in_progress;
  attempts = set_column r.attempts stage (r.attempts stage + 1);
  updated_at = set_column r.updated_at stage now;
}

abbrev pub is_claimable : String → String → InstanceRow → Bool
is_claimable id stage r = is_instance id r && is_open (r.status stage)

abbrev pub no_instance_row : String → Contract → String → String → Value
no_instance_row caller contract stage id =
    not_found_error
      (caller & ": " & contract.pipeline & "." & stage & ": no instance row for \"" & id & "\"")
      no_options

module _ {Json : Type 0} where
  -- the UPDATE of a claim
  unfoldable pub claim_update : String → String → Db Json → Db Json
  claim_update id stage db = record db {
    instances = update_where (is_claimable id stage) (claim_row stage db.now) db.instances;
  }

  abbrev pub claim_record : String → String → ℕ → DeadLetterRecord Json
  claim_record id stage attempts = record {
    instance_id = id;
    stage = stage;
    branch_key = none;
    reason = "claim: attempts ceiling reached";
    attempts = attempts;
    payload = none;
  }

  -- the regression-guarded UPDATE of a completion
  unfoldable pub complete_update : String → String → Db Json → Db Json
  complete_update id stage db = record db {
    instances =
        update_where
          (λ r. is_instance id r && stage_status_eq (r.status stage) StageStatus.in_progress)
          (λ r. record r {
            status = set_column r.status stage StageStatus.completed;
            updated_at = set_column r.updated_at stage db.now;
          })
          db.instances;
  }

module _ {Json E : Type 0} where
  -- The claim, from the row that the RETURNING clause of its UPDATE gives.
  unfoldable pub claimed_row :
      Contract → String → String → ℕ → Option InstanceRow → Io (Db Json) E ClaimKind
  claimed_row contract stage id ceiling none = throw (
      internal_error false
        ("claimStage: " & contract.pipeline & "." & stage
          & ": regression guard matched 0 rows for an instance read as pending/in_progress moments earlier")
        no_options)
  claimed_row contract stage id ceiling (some after) =
      let attempts = after.attempts stage in
      if claim_reached_ceiling attempts ceiling
      then (write_dead_letter trx contract (claim_record id stage attempts)
          >> return ClaimKind.ceiling_reached)
      else return (ClaimKind.claimed attempts)

  -- The guarded UPDATE ... RETURNING of a claim.
  unfoldable pub claim_open : Contract → String → String → ℕ → Io (Db Json) E ClaimKind
  unfolding claim_update claimed_row
  claim_open contract stage id ceiling = do
    returned ← query (λ db.
        returning (claim_row stage db.now) (first_where (is_claimable id stage) db.instances))
    execute (claim_update id stage)
    claimed_row contract stage id ceiling returned

  unfoldable pub claim_by_status :
      Contract → String → String → ℕ → StageStatus → Io (Db Json) E ClaimKind
  claim_by_status contract stage id ceiling StageStatus.completed = return ClaimKind.replay_no_op
  claim_by_status contract stage id ceiling StageStatus.failed = return ClaimKind.already_failed
  claim_by_status contract stage id ceiling _ = claim_open contract stage id ceiling

  unfoldable pub claim_read :
      Contract → String → String → ℕ → Option InstanceRow → Io (Db Json) E ClaimKind
  unfolding claim_by_status
  claim_read contract stage id ceiling none = throw (no_instance_row "claimStage" contract stage id)
  claim_read contract stage id ceiling (some row) =
      claim_by_status contract stage id ceiling (row.status stage)

  -- The body of the claiming transaction.
  unfoldable pub claim_body : Contract → String → String → ℕ → Io (Db Json) E ClaimKind
  unfolding claim_read
  claim_body contract stage id ceiling = do
    existing ← query (λ db. first_where (is_instance id) db.instances)
    claim_read contract stage id ceiling existing

  -- The throw of a claim over the ceiling comes after the commit.
  unfoldable pub claim_result : Contract → String → ClaimKind → Io (Db Json) E ClaimStageResult
  claim_result contract stage ClaimKind.ceiling_reached = throw (
      internal_error false (contract.pipeline & "." & stage & ": attempts ceiling reached")
        no_options)
  claim_result contract stage ClaimKind.replay_no_op = return ClaimStageResult.replay_no_op
  claim_result contract stage ClaimKind.already_failed = return ClaimStageResult.already_failed
  claim_result contract stage (ClaimKind.claimed n) = return (ClaimStageResult.claimed n)

  unfoldable pub claim_stage : Contract → String → String → ℕ → Io (Db Json) E ClaimStageResult
  unfolding claim_body claim_result
  claim_stage contract stage id ceiling = do
    kind ← transaction (claim_body contract stage id ceiling)
    claim_result contract stage kind

  unfoldable pub complete_by_status :
      String → String → Io (Db Json) E (Unit {0}) → StageStatus → Io (Db Json) E StageRunOutcome
  unfolding complete_update
  complete_by_status stage id in_transaction StageStatus.failed = return already_failed
  complete_by_status stage id in_transaction _ = do
    in_transaction
    execute (complete_update id stage)
    return completed

  unfoldable pub complete_read :
      Contract
      → String
      → String
      → Io (Db Json) E (Unit {0})
      → Option InstanceRow
      → Io (Db Json) E StageRunOutcome
  unfolding complete_by_status
  complete_read contract stage id in_transaction none =
      throw (no_instance_row "completeStage" contract stage id)
  complete_read contract stage id in_transaction (some row) =
      complete_by_status stage id in_transaction (row.status stage)

  -- `in_transaction` is `return tt` where the option is left out.
  unfoldable pub complete_stage :
      Contract → String → String → Io (Db Json) E (Unit {0}) → Io (Db Json) E StageRunOutcome
  unfolding complete_read
  complete_stage contract stage id in_transaction = transaction do
    existing ← query (λ db. first_where (is_instance id) db.instances)
    complete_read contract stage id in_transaction existing

  -- A terminal failure of the external call dead-letters before the error goes on.
  unfoldable pub route_failure :
      {R : Type 0} → Contract → (String → DeadLetterRecord Json) → Value → Io (Db Json) E R
  route_failure contract with_reason error = elim (classify_retry error).decision [
    | RetryDecision.terminal ↦ do
      write_dead_letter pool contract (with_reason (classify_retry error).reason)
      throw error
    | RetryDecision.retry ↦ throw error
  ]

  unfoldable pub perform_external_call_with_routing :
      {R : Type 0}
      → Contract
      → (String → DeadLetterRecord Json)
      → Io (Db Json) E R
      → Io (Db Json) E R
  unfolding route_failure
  perform_external_call_with_routing contract with_reason perform_external_call =
      try_catch perform_external_call (route_failure contract with_reason)
