-- ===== src/Jobs/Contract.antt =====
-- packages/jobs/src/contract.ts with internal/identifiers.ts and internal/table-refs.ts: the checks
-- that a pipeline's contract passes before its names are put into SQL, and the names themselves.
pub mod Names
use Prim.Native.Char.{code}
use Prim.Native.String
use cloudtalk_tech_task.Base.{
  ℕ, String, Bool, true, false, List, [], ◌∷◌, ◌==◌, ltb, leb, str_eq, ◌&&◌, ◌||◌, not, ◌&◌,
  decimal, text_length, if◌then◌else◌,
}
use cloudtalk_tech_task.Sql.Io.{Outcome, ok, threw}
use cloudtalk_tech_task.Jobs.Checks.{refuse_if, ◌>>◌}
use cloudtalk_tech_task.Jobs.Store.{Contract}

unfoldable pub is_lower : ℕ → Bool
is_lower c = leb b'a' c && leb c b'z'

unfoldable pub is_identifier_part : ℕ → Bool
unfolding is_lower
is_identifier_part c = is_lower c || (leb b'0' c && leb c b'9') || c == b'_'

-- `[a-z0-9_]*$`
unfoldable pub all_parts : String → Bool
unfolding is_identifier_part
all_parts String.[] = true
all_parts (String.◌∷◌ c s) = is_identifier_part (code c) && all_parts s

-- IDENTIFIER_RE
unfoldable pub is_identifier : String → Bool
unfolding is_lower all_parts
is_identifier String.[] = false
is_identifier (String.◌∷◌ c s) = is_lower (code c) && all_parts s

abbrev pub max_identifier_bytes : ℕ
max_identifier_bytes = 63

unfoldable pub assert_identifier : String → String → Outcome (Unit {0})
unfolding is_identifier
assert_identifier value label =
    refuse_if (not (is_identifier value))
      (label & " \"" & value & "\" must match ^[a-z][a-z0-9_]*$ (ADR-0011 identifier rules)")

unfoldable pub assert_identifier_byte_length : String → String → Outcome (Unit {0})
assert_identifier_byte_length value label =
    refuse_if (ltb max_identifier_bytes (text_length value)) (
      label
      & " \""
      & value
      & "\" is "
      & decimal (text_length value)
      & " bytes, exceeding PostgreSQL's "
      & decimal max_identifier_bytes
      & "-byte identifier limit (ADR-0011) — it would be silently truncated")

-- one underscore made a dash: `identifier.replaceAll('_', '-')`
unfoldable pub to_segment : String → String
to_segment String.[] = ""
to_segment (String.◌∷◌ c s) = (if code c == b'_' then "-" else String.◌∷◌ c "") & to_segment s

abbrev pub stage_result_table : String → String
stage_result_table table = table & "_stage_result"

abbrev pub branch_table : String → String
branch_table table = table & "_branch"

abbrev pub stage_status_constraint : String → String → String
stage_status_constraint table stage = "fk_" & table & "__stage_status__" & stage

abbrev pub no_stages : List String → Bool
no_stages [] = true
no_stages _ = false

unfoldable pub assert_stages : List String → Outcome (Unit {0})
unfolding assert_identifier
assert_stages [] = ok tt
assert_stages (stage ∷ stages) = do
  assert_identifier stage ("PipelineTableContract.stages entry \"" & stage & "\"")
  assert_stages stages

unfoldable pub assert_constraint_lengths : String → List String → Outcome (Unit {0})
unfolding assert_identifier_byte_length
assert_constraint_lengths table [] = ok tt
assert_constraint_lengths table (stage ∷ stages) = do
  assert_identifier_byte_length (stage_status_constraint table stage)
      ("stage-status FK constraint name for stage \"" & stage & "\"")
  assert_constraint_lengths table stages

abbrev pub column_message : Contract → String
column_message c =
    "PipelineTableContract.instanceIdColumn must be \""
    & (c.table & "_id")
    & "\" (ADR-0011: <table>_id), got \""
    & c.instance_id_column
    & "\""

unfoldable pub create_pipeline_table_contract : Contract → Outcome Contract
unfolding assert_identifier assert_identifier_byte_length assert_stages assert_constraint_lengths
create_pipeline_table_contract c = do
  assert_identifier c.pipeline "PipelineTableContract.pipeline"
  assert_identifier c.schema "PipelineTableContract.schema"
  assert_identifier c.table "PipelineTableContract.table"
  assert_identifier c.instance_id_column "PipelineTableContract.instanceIdColumn"
  refuse_if (no_stages c.stages) "PipelineTableContract.stages must declare at least one stage"
  assert_stages c.stages
  refuse_if (not (str_eq c.instance_id_column (c.table & "_id"))) (column_message c)
  assert_identifier_byte_length c.table "instance table name"
  assert_identifier_byte_length (stage_result_table c.table) "stage-result table name"
  assert_identifier_byte_length (branch_table c.table) "branch table name"
  assert_constraint_lengths c.table c.stages
  ok c

unfoldable pub instance_table_ref : Contract → String
instance_table_ref c = c.schema & "." & c.table

unfoldable pub stage_result_table_ref : Contract → String
stage_result_table_ref c = c.schema & "." & c.table & "_stage_result"

unfoldable pub branch_table_ref : Contract → String
branch_table_ref c = c.schema & "." & c.table & "_branch"
