-- ===== src/Jobs/StageRun/Replay.antt =====
-- A stored result is never paid for again.
use cloudtalk_tech_task.Base.{
  ℕ, String, Bool, true, false, Option, none, some, ◌≡◌, refl, inl, inr, Option-cases, leb,
}
use cloudtalk_tech_task.Sql.{first_where}
use cloudtalk_tech_task.Sql.Io.{Io, World, Outcome, ok, threw, continue}
use cloudtalk_tech_task.Jobs.Store.{
  StageStatus, Contract, InstanceRow, StageResultRow, Db, is_instance,
}
use cloudtalk_tech_task.Jobs.DeadLetter.Laws.{dead_lettered}
use cloudtalk_tech_task.Jobs.AttemptResult.Laws.{
  stored, KeepsResults, read_attempt_result_lem, read_attempt_result_bad,
}
use cloudtalk_tech_task.Jobs.Stage.{ClaimStageResult, claim_update, claim_stage}
use cloudtalk_tech_task.Jobs.StageRun.{
  Gap, before_read, StageRunOptions, run_claimed, run_pipeline_stage,
}
use cloudtalk_tech_task.Jobs.Stage.ClaimLaws.{claim_spec, status_spec, open_spec, claim_stage_lem}

-- Nothing of a claim touches the write-ahead rows.
claim_spec-stage_results :
    {Json E : Type 0} (contract : Contract) (stage id : String) (ceiling : ℕ)
    (found : Option InstanceRow) (w : World (Db Json) E)
    → (claim_spec contract stage id ceiling found w).1.db.stage_results ≡ w.db.stage_results
unfolding dead_lettered claim_update
claim_spec-stage_results contract stage id ceiling none w = refl
claim_spec-stage_results contract stage id ceiling (some row) w = by_status (row.status stage)
  where
    by_open :
        (b : Bool)
        → (leb ceiling (row.attempts stage) ≡ b)
        → (open_spec contract stage id ceiling row w).1.db.stage_results ≡ w.db.stage_results
    by_open true e = rw e
    by_open false e = rw e

    by_status :
        (s : StageStatus)
        → (status_spec contract stage id ceiling s row w).1.db.stage_results ≡ w.db.stage_results
    by_status StageStatus.completed = refl
    by_status StageStatus.failed = refl
    by_status _ = by_open (leb ceiling (row.attempts stage)) refl

claim_stage-stored :
    {Json E : Type 0} (contract : Contract) (stage id : String) (ceiling : ℕ) (token : String)
    (w : World (Db Json) E) {row : StageResultRow Json}
    → stored id token w.db ≡ some row
    → stored id token (claim_stage contract stage id ceiling w).1.db ≡ some row
claim_stage-stored contract stage id ceiling token w h =
    rw (claim_stage_lem contract stage id ceiling w) (
      rw
        (claim_spec-stage_results contract stage id ceiling
          (first_where (is_instance id) w.db.instances) w)
        h)

module _ {Json E R : Type 0} (elsewhere : Gap → Db Json → Db Json)
    (options : StageRunOptions Json E R) (other : Io (Db Json) E R) where
  open options use {contract, stage, instance_id, attempts_ceiling, codec}

  abbrev pub with_other_call : StageRunOptions Json E R
  with_other_call = record options { perform_external_call = other }

  -- A stored row is all that a claimed run looks at: it is read, or it fails to parse.
  run_claimed-no_call :
      (c : ClaimStageResult) (w : World (Db Json) E) {row : StageResultRow Json}
      → stored instance_id stage (elsewhere before_read w.db) ≡ some row
      → run_claimed elsewhere options c w ≡ run_claimed elsewhere with_other_call c w
  unfolding run_claimed
  run_claimed-no_call ClaimStageResult.replay_no_op w h = refl
  run_claimed-no_call ClaimStageResult.already_failed w h = refl
  run_claimed-no_call (ClaimStageResult.claimed n) w {row} h =
      let w' : World (Db Json) E = record w { db = elsewhere before_read w.db } in
      elim (Option-cases (codec.parse row.result)) [
        | inl bad ↦ rw (read_attempt_result_bad codec instance_id stage w' h bad)
        | inr (v, good) ↦ rw (read_attempt_result_lem codec instance_id stage w' h good)
      ]

  -- The same, from the outcome of a claim on.
  after_claim-no_call :
      (p : Outcome ClaimStageResult × World (Db Json) E) {row : StageResultRow Json}
      → KeepsResults instance_id stage (elsewhere before_read)
      → stored instance_id stage p.1.db ≡ some row
      → continue p (run_claimed elsewhere options)
        ≡ continue p (run_claimed elsewhere with_other_call)
  after_claim-no_call (ok c, w) {row} kept h = run_claimed-no_call c w (kept w.db row h)
  after_claim-no_call (threw e, w) kept h = refl

  -- A run that finds a stored result, while the other connections leave that row alone, never
  -- makes the external call: what the call would do changes nothing of the run.
  pub run_pipeline_stage-no_call :
      (w : World (Db Json) E) {row : StageResultRow Json}
      → KeepsResults instance_id stage (elsewhere before_read)
      → stored instance_id stage w.db ≡ some row
      → run_pipeline_stage elsewhere options w ≡ run_pipeline_stage elsewhere with_other_call w
  unfolding run_pipeline_stage
  run_pipeline_stage-no_call w {row} kept h =
      after_claim-no_call (claim_stage contract stage instance_id attempts_ceiling w) kept
        (claim_stage-stored contract stage instance_id attempts_ceiling stage w h)
