-- ===== src/Tests/Retention.antt =====
-- Purges, and a contract.
use cloudtalk_tech_task.Base.{ℕ, Option, none, some, [], ◌∷◌, ◌≡◌, refl, arith}
use cloudtalk_tech_task.Sql.Io.{Outcome, ok}
use cloudtalk_tech_task.Jobs.Store.{Contract, StageResultRow}
use cloudtalk_tech_task.Jobs.Outbox.{OutboxRow, OutboxRowStatus, pending, processed, dead}
use cloudtalk_tech_task.Jobs.Retention.{
  RetentionDb, RetentionOptions, RetentionReport, validate_retention_options, purge_pipeline_data,
}
use cloudtalk_tech_task.Jobs.Retention.Floor.{KeepsFloor, purge_pipeline_data_floor}
use cloudtalk_tech_task.Jobs.Retention.Purged.{purged, purge_pipeline_data_lem}
use cloudtalk_tech_task.Jobs.Contract.{create_pipeline_table_contract, to_segment}
use cloudtalk_tech_task.Jobs.Contract.Names.{
  NamesFit, RefsSplit, create_pipeline_table_contract-NamesFit,
  create_pipeline_table_contract-RefsSplit,
}
use cloudtalk_tech_task.Tests.Fixtures.{contract}

abbrev result_at : ℕ → StageResultRow ℕ
result_at created_at = record {
  instance_id = "a";
  attempt_token = "tone";
  result = 1;
  created_at = created_at;
}

abbrev outbox_row : ℕ → OutboxRowStatus → OutboxRow ℕ
outbox_row id status = record {
  outbox_id = id;
  aggregate_id = "a";
  op = "recompute";
  payload = 0;
  attempts = 0;
  status = status;
  last_error = none;
  created_at = 10;
  processed_at = none;
}

abbrev tables : RetentionDb ℕ
tables = record {
  now = 100;
  stage_results = result_at 10 ∷ result_at 20 ∷ result_at 95 ∷ [];
  outbox_rows = outbox_row 1 processed ∷ outbox_row 2 pending ∷ outbox_row 3 dead ∷ [];
  dead_letters = [];
}

abbrev options : RetentionOptions
options = record {
  outbox = some "reviews.outbox";
  stage_result_retain_ms = 50;
  processed_outbox_retain_ms = some 60;
  dead_outbox_retain_ms = some 80;
  stale_after_ms = 30;
  batch_size = some 1;
}

valid : validate_retention_options options ≡ ok tt
unfolding validate_retention_options
valid = refl

purge_pipeline_data_lem_example :
    purge_pipeline_data 5 options tables ≡ some (purged options tables)
purge_pipeline_data_lem_example =
    purge_pipeline_data_lem 5 options tables valid (omega arith) (omega arith) (omega arith)

purged-tables :
    (purged options tables).1
    ≡ record tables { stage_results = result_at 95 ∷ []; outbox_rows = outbox_row 2 pending ∷ [] }
purged-tables = refl

purge_pipeline_data_floor_example : KeepsFloor 30 tables (purged options tables).1
purge_pipeline_data_floor_example =
    purge_pipeline_data_floor 5 options tables (purged options tables).1 (purged options tables).0
      purge_pipeline_data_lem_example

-- the horizon of the dead rows is missing
abbrev half_options : RetentionOptions
half_options = record options { dead_outbox_retain_ms = none }

-- the tables after a purge, or none where it is still running
abbrev left_by : Option (Outcome RetentionReport × RetentionDb ℕ) → RetentionDb ℕ
left_by none = record { now = 0; stage_results = []; outbox_rows = []; dead_letters = [] }
left_by (some (out, db)) = db

abbrev good_contract : Contract
good_contract = record contract { instance_id_column = "rating_pipeline_id" }

created : create_pipeline_table_contract good_contract ≡ ok good_contract
unfolding create_pipeline_table_contract
created = refl

create_pipeline_table_contract-NamesFit_example : NamesFit good_contract
create_pipeline_table_contract-NamesFit_example =
    create_pipeline_table_contract-NamesFit good_contract good_contract created

create_pipeline_table_contract-RefsSplit_example : RefsSplit good_contract
create_pipeline_table_contract-RefsSplit_example =
    create_pipeline_table_contract-RefsSplit good_contract good_contract created

segment : to_segment "rating_pipeline" ≡ "rating-pipeline"
unfolding to_segment
segment = refl
