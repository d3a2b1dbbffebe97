-- ===== src/Tests/Runs.antt =====
-- Whole runs of a stage, its external call, and the write-ahead rows.
use cloudtalk_tech_task.Base.{ℕ, some, [], ◌∷◌, ◌≡◌, refl}
use cloudtalk_tech_task.Kernel.Retry.{RetryDecision, classify_retry, classify_app_error}
use cloudtalk_tech_task.Kernel.Errors.{is_app_error, app_error_of}
use cloudtalk_tech_task.Sql.{first_where}
use cloudtalk_tech_task.Sql.Io.{return, Io, World, ok, threw}
use cloudtalk_tech_task.Jobs.Store.{StageStatus, InstanceRow, Db, is_instance}
use cloudtalk_tech_task.Jobs.DeadLetter.Laws.{dead_lettered}
use cloudtalk_tech_task.Jobs.AttemptResult.{write_attempt_result}
use cloudtalk_tech_task.Jobs.AttemptResult.Laws.{write_attempt_result_first}
use cloudtalk_tech_task.Jobs.Stage.{perform_external_call_with_routing}
use cloudtalk_tech_task.Jobs.StageRun.{run_pipeline_stage}
use cloudtalk_tech_task.Jobs.Stage.Laws.{
  perform_external_call_with_routing_lem, perform_external_call_with_routing-demotes,
}
use cloudtalk_tech_task.Jobs.StageRun.Replay.{run_pipeline_stage-no_call, with_other_call}
use cloudtalk_tech_task.Jobs.BranchRun.{BranchRunOptions, run_pipeline_branch}
use cloudtalk_tech_task.Jobs.BranchRun.Replay
use cloudtalk_tech_task.Jobs.BranchRun.Replay.{run_pipeline_branch-no_call}
use cloudtalk_tech_task.Tests.Fixtures.{
  branch_x, call_ok, contract, instance_row, db, world, codec, call_fails, quiet, stage_options,
  bad_request, letter,
}

abbrev failed_world : World (Db ℕ) ℕ
failed_world = record world { ext = 1 }

run_pipeline_stage-no_call_example :
    run_pipeline_stage quiet (stage_options "b") world
    ≡ run_pipeline_stage quiet (with_other_call quiet (stage_options "b") call_fails) world
run_pipeline_stage-no_call_example =
    run_pipeline_stage-no_call quiet (stage_options "b") call_fails world (λ d row h. h) refl

bad_request-terminal : (classify_retry bad_request).decision ≡ RetryDecision.terminal
unfolding classify_retry is_app_error app_error_of classify_app_error
bad_request-terminal = refl

perform_external_call_with_routing_lem_example :
    perform_external_call_with_routing contract letter call_fails world
    ≡ elim (classify_retry bad_request).decision [
      | RetryDecision.retry ↦ (threw bad_request, failed_world)
      | RetryDecision.terminal ↦ (
        threw bad_request,
        record failed_world {
          db = dead_lettered contract (letter (classify_retry bad_request).reason) db;
        },
      )
    ]
perform_external_call_with_routing_lem_example =
    perform_external_call_with_routing_lem contract letter call_fails world failed_world bad_request
      (λ reason. refl) refl

-- The stage of "a" was completed while the call was on its way.
abbrev completed_world : World (Db ℕ) ℕ
completed_world = record world {
  db = record db { instances = instance_row "a" StageStatus.completed 1 10 ∷ [] };
}

abbrev fails_late : Io (Db ℕ) ℕ ℕ
fails_late w = (threw bad_request, completed_world)

perform_external_call_with_routing-demotes_example :
    (row' : InstanceRow) × (first_where
        (is_instance "a")
        (perform_external_call_with_routing contract letter fails_late world).1.db.instances
      ≡ some row')
    × (row'.status "tone" ≡ StageStatus.failed)
perform_external_call_with_routing-demotes_example =
    perform_external_call_with_routing-demotes contract letter fails_late world completed_world
      bad_request (λ reason. refl) refl bad_request-terminal refl refl

write_attempt_result_first_example :
    ((write_attempt_result codec (λ d. d) contract "a" "tone" 4 world).0 ≡ ok 4)
    × ((write_attempt_result codec
          (λ d. d)
          contract
          "a"
          "tone"
          9
          (record world {
            db = (write_attempt_result codec (λ d. d) contract "a" "tone" 4 world).1.db;
          })).0
        ≡ ok 4)
write_attempt_result_first_example =
    write_attempt_result_first codec contract "a" "tone" (λ d. d) (λ d. d) (λ d. d) world 4 9 refl
      (λ d row h. h) (λ d row h. h) (λ d row h. h) refl

-- a world in which branch "x" of "a" has its result
abbrev branch_world : World (Db ℕ) ℕ
branch_world = record world {
  db = record db {
    stage_results =
        record { instance_id = "a"; attempt_token = "tone:x"; result = 7; created_at = 50 } ∷ [];
  };
}

abbrev branch_options : BranchRunOptions ℕ ℕ ℕ
branch_options = record {
  contract = contract;
  branch = branch_x;
  attempts_ceiling = 3;
  perform_external_call = call_ok;
  codec = codec;
  apply_result = λ n. return tt;
  on_join_completed = return tt;
}

run_pipeline_branch-no_call_example :
    run_pipeline_branch quiet branch_options branch_world
    ≡ run_pipeline_branch quiet
        (Replay.with_other_call quiet branch_options call_fails)
        branch_world
run_pipeline_branch-no_call_example =
    run_pipeline_branch-no_call quiet branch_options call_fails branch_world (λ d row h. h) refl
