-- ===== src/Jobs/BranchRun/Replay.antt =====
-- The stored result of a branch is never paid for again.
use cloudtalk_tech_task.Base.{ℕ, String, some, ◌≡◌, refl, inl, inr, Option-cases, Bool-cases, leb}
use cloudtalk_tech_task.Sql.{first_where}
use cloudtalk_tech_task.Sql.Io.{Io, World, Outcome, ok, threw, continue}
use cloudtalk_tech_task.Jobs.Store.{BranchStatus, Contract, BranchRow, StageResultRow, Db}
use cloudtalk_tech_task.Jobs.DeadLetter.Laws.{dead_lettered}
use cloudtalk_tech_task.Jobs.AttemptResult.Laws.{
  stored, KeepsResults, read_attempt_result_lem, read_attempt_result_bad,
}
use cloudtalk_tech_task.Jobs.Stage.{ClaimStageResult}
use cloudtalk_tech_task.Jobs.StageRun.{Gap, before_read}
use cloudtalk_tech_task.Jobs.Branch.{BranchIdentity, is_this, claim_branch_update, claim_branch}
use cloudtalk_tech_task.Jobs.Branch.ClaimLaws.{branch_status_spec, claim_branch_lem}
use cloudtalk_tech_task.Jobs.BranchRun.{
  BranchRunOptions, branch_attempt_token, run_claimed_branch, run_pipeline_branch,
}

-- Nothing of a claim touches the write-ahead rows.
status_spec-stage_results :
    {Json E : Type 0} (contract : Contract) (b : BranchIdentity) (ceiling : ℕ) (s : BranchStatus)
    (row : BranchRow) (w : World (Db Json) E)
    → (branch_status_spec contract b ceiling s row w).1.db.stage_results ≡ w.db.stage_results
unfolding dead_lettered claim_branch_update
status_spec-stage_results contract b ceiling BranchStatus.completed row w = refl
status_spec-stage_results contract b ceiling BranchStatus.failed row w = refl
status_spec-stage_results contract b ceiling BranchStatus.pending row w =
    elim (Bool-cases (leb ceiling row.attempts)) [ inl over ↦ rw over | inr under ↦ rw under ]

claim_branch-stored :
    {Json E : Type 0} (contract : Contract) (b : BranchIdentity) (ceiling : ℕ) (token : String)
    (w : World (Db Json) E) {row : StageResultRow Json}
    → stored b.instance_id token w.db ≡ some row
    → stored b.instance_id token (claim_branch contract b ceiling w).1.db ≡ some row
claim_branch-stored contract b ceiling token w h =
    rw (claim_branch_lem contract b ceiling w)
      (elim (Option-cases (first_where (is_this b) w.db.branches)) [
        | inl e ↦ rw e h
        | inr (row, e) ↦ rw e (rw (status_spec-stage_results contract b ceiling row.status row w) h)
      ])

module _ {Json E R : Type 0} (elsewhere : Gap → Db Json → Db Json)
    (options : BranchRunOptions Json E R) (other : Io (Db Json) E R) where
  open options use {contract, branch, attempts_ceiling, codec}

  abbrev pub with_other_call : BranchRunOptions Json E R
  with_other_call = record options { perform_external_call = other }

  abbrev pub token : String
  token = branch_attempt_token elsewhere options

  run_claimed_branch-no_call :
      (c : ClaimStageResult) (w : World (Db Json) E) {row : StageResultRow Json}
      → stored branch.instance_id token (elsewhere before_read w.db) ≡ some row
      → run_claimed_branch elsewhere options c w ≡ run_claimed_branch elsewhere with_other_call c w
  unfolding run_claimed_branch
  run_claimed_branch-no_call ClaimStageResult.replay_no_op w h = refl
  run_claimed_branch-no_call ClaimStageResult.already_failed w h = refl
  run_claimed_branch-no_call (ClaimStageResult.claimed n) w {row} h =
      let w' : World (Db Json) E = record w { db = elsewhere before_read w.db } in
      elim (Option-cases (codec.parse row.result)) [
        | inl bad ↦ rw (read_attempt_result_bad codec branch.instance_id token w' h bad)
        | inr (v, good) ↦ rw (read_attempt_result_lem codec branch.instance_id token w' h good)
      ]

  after_claim-no_call :
      (p : Outcome ClaimStageResult × World (Db Json) E) {row : StageResultRow Json}
      → KeepsResults branch.instance_id token (elsewhere before_read)
      → stored branch.instance_id token p.1.db ≡ some row
      → continue p (run_claimed_branch elsewhere options)
        ≡ continue p (run_claimed_branch elsewhere with_other_call)
  after_claim-no_call (ok c, w) {row} kept h = run_claimed_branch-no_call c w (kept w.db row h)
  after_claim-no_call (threw e, w) kept h = refl

  -- A run of a branch that finds a stored result, while the other connections leave that row
  -- alone, never makes the external call: what the call would do changes nothing of the run.
  pub run_pipeline_branch-no_call :
      (w : World (Db Json) E) {row : StageResultRow Json}
      → KeepsResults branch.instance_id token (elsewhere before_read)
      → stored branch.instance_id token w.db ≡ some row
      → run_pipeline_branch elsewhere options w ≡ run_pipeline_branch elsewhere with_other_call w
  unfolding run_pipeline_branch
  run_pipeline_branch-no_call w {row} kept h =
      after_claim-no_call (claim_branch contract branch attempts_ceiling w) kept
        (claim_branch-stored contract branch attempts_ceiling token w h)
