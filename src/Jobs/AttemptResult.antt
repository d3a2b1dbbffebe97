-- ===== src/Jobs/AttemptResult.antt =====
-- packages/jobs/src/internal/attempt-result.ts: the write-ahead rows, and rowAs of
-- packages/persistence. The schema of a result is a parameter: `parse` is its safeParse, `encode`
-- is JSON.stringify. `elsewhere` is what other connections commit while the caller awaits.
pub mod Laws
use cloudtalk_tech_task.Base.{String, Bool, false, Option, none, some, str_eq, ◌&&◌, ◌&◌}
use cloudtalk_tech_task.Kernel.Value.{Value}
use cloudtalk_tech_task.Kernel.Errors.{no_options, internal_error}
use cloudtalk_tech_task.Sql.{first_where, insert_unless}
use cloudtalk_tech_task.Sql.Io.{Io, return, throw, query, execute, ◌>>=◌, ◌>>◌}
use cloudtalk_tech_task.Jobs.Store.{Contract, StageResultRow, Db}

-- How a result is written to and read back from a jsonb column.
pub record Codec (Json R : Type 0) : Type 0 where
  pub encode : R → Json
  pub parse : Json → Option R

abbrev pub is_attempt : {Json : Type 0} → String → String → StageResultRow Json → Bool
is_attempt id token r = str_eq r.instance_id id && str_eq r.attempt_token token

-- Its details, the issues that the schema found, are left out.
abbrev pub row_as_error : Value
row_as_error = internal_error false "rowAs: row failed schema parse" no_options

module _ {Json : Type 0} where
  unfoldable pub insert_attempt_result : String → String → Json → Db Json → Db Json
  insert_attempt_result id token result db = record db {
    stage_results =
        insert_unless (is_attempt id token)
          (record { instance_id = id; attempt_token = token; result = result; created_at = db.now })
          db.stage_results;
  }

module _ {Json E R : Type 0} (codec : Codec Json R) where
  -- `rowAs(rowSchema, row).result`
  unfoldable pub row_as : StageResultRow Json → Io (Db Json) E R
  row_as row = elim (codec.parse row.result) [
    | some result ↦ return result
    | none ↦ throw row_as_error
  ]

  unfoldable pub parse_row : Option (StageResultRow Json) → Io (Db Json) E (Option R)
  unfolding row_as
  parse_row none = return none
  parse_row (some row) = do result ← row_as row; return (some result)

  unfoldable pub read_attempt_result : String → String → Io (Db Json) E (Option R)
  unfolding parse_row
  read_attempt_result id token = do
    row ← query (λ db. first_where (is_attempt id token) db.stage_results)
    parse_row row

  abbrev must_exist : Value → Option R → Io (Db Json) E R
  must_exist e none = throw e
  must_exist e (some result) = return result

  unfoldable pub write_attempt_result :
      (Db Json → Db Json) → Contract → String → String → R → Io (Db Json) E R
  unfolding insert_attempt_result read_attempt_result
  write_attempt_result elsewhere contract id token result = do
    execute (insert_attempt_result id token (codec.encode result))
    execute elsewhere
    written ← read_attempt_result id token
    must_exist
        (internal_error false
          ("writeAttemptResult: " & contract.pipeline & ": no row found for instance \"" & id
            & "\" / attempt token \"" & token
            & "\" immediately after INSERT ... ON CONFLICT DO NOTHING")
          no_options)
        written
