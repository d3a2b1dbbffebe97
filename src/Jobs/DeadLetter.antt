-- ===== src/Jobs/DeadLetter.antt =====
-- packages/jobs/src/dead-letter.ts: the dead letter of a stage pipeline and of an outbox row.
-- The log line and the counter of each write are telemetry and are left out.
pub mod Laws
use cloudtalk_tech_task.Base.{
  ℕ, String, Bool, true, false, Option, none, some, str_eq, ◌&&◌, if◌then◌else◌,
}
use cloudtalk_tech_task.Kernel.Value.{Value, error, obj, str, end, prop}
use cloudtalk_tech_task.Sql.{update_where, insert_unless}
use cloudtalk_tech_task.Sql.Io.{Io, throw, execute, transaction, ◌>>=◌, ◌>>◌}
use cloudtalk_tech_task.Jobs.Store.{
  StageStatus, BranchStatus, Contract, DeadLetterRow, Db, set_column, is_instance, is_stage_branch,
  is_pending,
}
use cloudtalk_tech_task.Jobs.Attempts.{truncate_reason}

pub record DeadLetterRecord (Json : Type 0) : Type 0 where
  pub instance_id : String
  pub stage : String
  pub branch_key : Option String
  pub reason : String
  pub attempts : ℕ
  pub payload : Option Json

-- What `db` is: the pool, or a transaction that the caller has open (`db.isTransaction`).
pub data Executor : Type 0 where
  pool trx : Executor

-- UNIQUE NULLS NOT DISTINCT
abbrev pub branch_key_eq : Option String → Option String → Bool
branch_key_eq none none = true
branch_key_eq (some a) (some b) = str_eq a b
branch_key_eq _ _ = false

abbrev pub is_dead_letter :
    {Json : Type 0} → String → String → String → Option String → DeadLetterRow Json → Bool
is_dead_letter pipeline id stage key r =
    str_eq r.pipeline pipeline
    && str_eq r.instance_id id
    && str_eq r.stage stage
    && branch_key_eq r.branch_key key

-- The driver's error where `ck_dead_letter__reason_not_empty` is violated.
abbrev pub check_violation : Value
check_violation = obj error (prop "code" (str "23514") end)

module _ {Json : Type 0} where
  abbrev pub dead_letter_row : Contract → DeadLetterRecord Json → String → ℕ → DeadLetterRow Json
  dead_letter_row contract r reason now = record {
    pipeline = contract.pipeline;
    instance_id = r.instance_id;
    stage = r.stage;
    branch_key = r.branch_key;
    reason = reason;
    attempts = r.attempts;
    payload = r.payload;
    created_at = now;
  }

  -- INSERT ... ON CONFLICT ON CONSTRAINT uq_dead_letter__... DO NOTHING
  unfoldable pub insert_dead_letter : Contract → DeadLetterRecord Json → String → Db Json → Db Json
  insert_dead_letter contract r reason db = record db {
    dead_letters =
        insert_unless (is_dead_letter contract.pipeline r.instance_id r.stage r.branch_key)
          (dead_letter_row contract r reason db.now) db.dead_letters;
  }

  -- the instance's stage set to failed, whatever it is
  unfoldable pub fail_stage : String → String → Db Json → Db Json
  fail_stage id stage db = record db {
    instances =
        update_where (is_instance id)
          (λ r. record r {
            status = set_column r.status stage StageStatus.failed;
            updated_at = set_column r.updated_at stage db.now;
          })
          db.instances;
  }

  -- every branch of the stage that is still pending set to failed; the table's trigger moves
  -- `updated_at`
  unfoldable pub fail_pending_branches : String → String → String → Db Json → Db Json
  fail_pending_branches id stage reason db = record db {
    branches =
        update_where (λ r. is_stage_branch id stage r && is_pending r)
          (λ r. record r {
            status = BranchStatus.failed;
            last_error = some reason;
            updated_at = db.now;
          })
          db.branches;
  }

module _ {Json E : Type 0} where
  -- The body of `writeDeadLetter`, inside a transaction.
  unfoldable pub dead_letter_body : Contract → DeadLetterRecord Json → Io (Db Json) E (Unit {0})
  unfolding insert_dead_letter fail_stage fail_pending_branches
  dead_letter_body contract r =
      let reason = truncate_reason r.reason in
      do
        if str_eq reason ""
            then throw check_violation
            else execute (insert_dead_letter contract r reason)
        execute (fail_stage r.instance_id r.stage)
        execute (fail_pending_branches r.instance_id r.stage reason)

  unfoldable pub write_dead_letter :
      Executor → Contract → DeadLetterRecord Json → Io (Db Json) E (Unit {0})
  unfolding dead_letter_body
  write_dead_letter trx contract r = dead_letter_body contract r
  write_dead_letter pool contract r = transaction (dead_letter_body contract r)
