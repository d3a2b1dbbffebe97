-- ===== src/Jobs/Store.antt =====
-- The tables that packages/jobs reads and writes: one pipeline's instance, branch and
-- stage-result tables, the shared `jobs.dead_letter`, and an outbox; `now` is the database's
-- clock in milliseconds. The vocabularies are those of packages/entities/src/jobs.
use cloudtalk_tech_task.Base.{ℕ, String, Bool, Option, List, ◌==◌, str_eq, ◌&&◌, if◌then◌else◌}

pub data StageStatus : Type 0 where
  pending in_progress completed failed : StageStatus

abbrev pub stage_status_id : StageStatus → ℕ
stage_status_id pending = 1
stage_status_id in_progress = 2
stage_status_id completed = 3
stage_status_id failed = 4

pub data BranchStatus : Type 0 where
  pending completed failed : BranchStatus

abbrev pub branch_status_id : BranchStatus → ℕ
branch_status_id BranchStatus.pending = 1
branch_status_id BranchStatus.completed = 2
branch_status_id BranchStatus.failed = 3

pub data BranchKind : Type 0 where
  owned delegated : BranchKind

abbrev pub branch_kind_id : BranchKind → ℕ
branch_kind_id owned = 1
branch_kind_id delegated = 2

-- `WHERE ..._status_id = ...`
abbrev pub stage_status_eq : StageStatus → StageStatus → Bool
stage_status_eq a b = stage_status_id a == stage_status_id b

abbrev pub branch_status_eq : BranchStatus → BranchStatus → Bool
branch_status_eq a b = branch_status_id a == branch_status_id b

abbrev pub branch_kind_eq : BranchKind → BranchKind → Bool
branch_kind_eq a b = branch_kind_id a == branch_kind_id b

-- The pipeline state-table contract.
pub record Contract : Type 0 where
  pub pipeline : String
  pub schema : String
  pub table : String
  pub instance_id_column : String
  pub stages : List String

-- An instance row; the `{stage}_stage_status_id`, `{stage}_attempts` and `{stage}_updated_at`
-- columns are functions of the stage.
pub record InstanceRow : Type 0 where
  pub instance_id : String
  pub status : String → StageStatus
  pub attempts : String → ℕ
  pub updated_at : String → ℕ

pub record BranchRow : Type 0 where
  pub instance_id : String
  pub stage : String
  pub branch_key : String
  pub kind : BranchKind
  pub status : BranchStatus
  pub attempts : ℕ
  pub last_error : Option String
  pub updated_at : ℕ

pub record StageResultRow (Json : Type 0) : Type 0 where
  pub instance_id : String
  pub attempt_token : String
  pub result : Json
  pub created_at : ℕ

pub record DeadLetterRow (Json : Type 0) : Type 0 where
  pub pipeline : String
  pub instance_id : String
  pub stage : String
  pub branch_key : Option String
  pub reason : String
  pub attempts : ℕ
  pub payload : Option Json
  pub created_at : ℕ

pub record Db (Json : Type 0) : Type 0 where
  pub now : ℕ
  pub instances : List InstanceRow
  pub branches : List BranchRow
  pub stage_results : List (StageResultRow Json)
  pub dead_letters : List (DeadLetterRow Json)

-- a column of one stage set anew
abbrev pub set_column : {A : Type 0} → (String → A) → String → A → String → A
set_column column stage value s = if str_eq stage s then value else column s

abbrev pub is_instance : String → InstanceRow → Bool
is_instance id r = str_eq r.instance_id id

abbrev pub is_stage_branch : String → String → BranchRow → Bool
is_stage_branch id stage r = str_eq r.instance_id id && str_eq r.stage stage

abbrev pub is_branch : String → String → String → BranchRow → Bool
is_branch id stage key r =
    str_eq r.instance_id id && str_eq r.stage stage && str_eq r.branch_key key

abbrev pub is_pending : BranchRow → Bool
is_pending r = branch_status_eq r.status BranchStatus.pending
