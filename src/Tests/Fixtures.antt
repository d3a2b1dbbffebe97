-- ===== src/Tests/Fixtures.antt =====
-- One pipeline with three instances, and the calls of its stages.
use cloudtalk_tech_task.Base.{ℕ, ◌+◌, String, Option, none, some, [], ◌∷◌, ◌==◌, if◌then◌else◌}
use cloudtalk_tech_task.Kernel.Value.{Value}
use cloudtalk_tech_task.Kernel.Errors.{no_options, validation_error}
use cloudtalk_tech_task.Sql.Io.{Io, World, ok, threw, return}
use cloudtalk_tech_task.Jobs.Store.{
  StageStatus, BranchStatus, owned, Contract, InstanceRow, BranchRow, StageResultRow, Db,
}
use cloudtalk_tech_task.Jobs.AttemptResult.{Codec}
use cloudtalk_tech_task.Jobs.DeadLetter.{DeadLetterRecord}
use cloudtalk_tech_task.Jobs.StageRun.{Gap, StageRunOptions}
use cloudtalk_tech_task.Jobs.Branch.{BranchIdentity}
use cloudtalk_tech_task.Jobs.Reconciler.{ReconcilerStageBinding, Call}

abbrev pub contract : Contract
contract = record {
  pipeline = "rating";
  schema = "reviews";
  table = "rating_pipeline";
  instance_id_column = "review_id";
  stages = "tone" ∷ [];
}

-- an instance whose only stage has this status, these attempts and this timestamp
abbrev pub instance_row : String → StageStatus → ℕ → ℕ → InstanceRow
instance_row id status attempts updated_at = record {
  instance_id = id;
  status = λ stage. status;
  attempts = λ stage. attempts;
  updated_at = λ stage. updated_at;
}

abbrev pub stored_result : StageResultRow ℕ
stored_result = record { instance_id = "b"; attempt_token = "tone"; result = 7; created_at = 50 }

abbrev pub branch_row : String → BranchStatus → BranchRow
branch_row key status = record {
  instance_id = "a";
  stage = "tone";
  branch_key = key;
  kind = owned;
  status = status;
  attempts = 0;
  last_error = none;
  updated_at = 10;
}

abbrev pub row_a : InstanceRow
row_a = instance_row "a" StageStatus.pending 0 10

abbrev pub row_b : InstanceRow
row_b = instance_row "b" StageStatus.in_progress 1 20

abbrev pub row_c : InstanceRow
row_c = instance_row "c" StageStatus.in_progress 3 30

abbrev pub db : Db ℕ
db = record {
  now = 100;
  instances = row_a ∷ row_b ∷ row_c ∷ [];
  branches = branch_row "x" BranchStatus.pending ∷ branch_row "y" BranchStatus.pending ∷ [];
  stage_results = stored_result ∷ [];
  dead_letters = [];
}

-- the world outside counts the calls that reached it
abbrev pub world : World (Db ℕ) ℕ
world = record { db = db; ext = 0 }

-- every result is a number, and the number 0 is none
abbrev pub codec : Codec ℕ ℕ
codec = record { encode = λ n. n; parse = λ n. if n == 0 then none else some n }

abbrev pub call_ok : Io (Db ℕ) ℕ ℕ
call_ok w = (ok 5, record w { ext = w.ext + 1 })

abbrev pub bad_request : Value
bad_request = validation_error "bad request" no_options

abbrev pub call_fails : Io (Db ℕ) ℕ ℕ
call_fails w = (threw bad_request, record w { ext = w.ext + 1 })

abbrev pub quiet : Gap → Db ℕ → Db ℕ
quiet gap d = d

abbrev pub stage_options : String → StageRunOptions ℕ ℕ ℕ
stage_options id = record {
  contract = contract;
  stage = "tone";
  instance_id = id;
  attempts_ceiling = 3;
  perform_external_call = call_ok;
  codec = codec;
  apply_result = λ n. return tt;
  ensure_successors = return tt;
}

abbrev pub count_call : String → Option String → Call ℕ
count_call id key n = (ok tt, n + 1)

abbrev pub binding : ReconcilerStageBinding ℕ ℕ
binding = record {
  stage = "tone";
  enqueue = count_call;
  remove = count_call;
  on_join_completed = none;
}

abbrev pub letter : String → DeadLetterRecord ℕ
letter reason = record {
  instance_id = "a";
  stage = "tone";
  branch_key = none;
  reason = reason;
  attempts = 1;
  payload = none;
}

abbrev pub branch_x : BranchIdentity
branch_x = record { instance_id = "a"; stage = "tone"; branch_key = "x" }
