-- ===== src/Tests/Claims.antt =====
-- Claims of stages and branches, completions and dead letters.
use cloudtalk_tech_task.Base.{some, [], ◌∷◌, ◌≡◌, refl, ◌≤◌}
use cloudtalk_tech_task.Sql.Io.{ok, throw}
use cloudtalk_tech_task.Jobs.Store.{StageStatus, BranchStatus}
use cloudtalk_tech_task.Jobs.Attempts.{claim_reached_ceiling}
use cloudtalk_tech_task.Jobs.Stage.{
  ClaimStageResult, claim_body, claim_read, claim_by_status, claim_open, claimed_row, claim_result,
  claim_update, claim_stage, complete_stage,
}
use cloudtalk_tech_task.Jobs.Stage.ClaimLaws.{claim_spec, claim_stage_lem}
use cloudtalk_tech_task.Jobs.Stage.Laws.{complete_stage_lem, complete_spec}
use cloudtalk_tech_task.Jobs.Branch.{claim_branch}
use cloudtalk_tech_task.Jobs.Branch.Join.{open_count, fired, complete_in_turn, complete_in_turn_lem}
use cloudtalk_tech_task.Jobs.Branch.ClaimLaws.{branch_status_spec, claim_branch_lem}
use cloudtalk_tech_task.Tests.Fixtures.{
  contract, row_c, db, world, bad_request, branch_x, branch_row,
}

claims_pending : (claim_stage contract "tone" "a" 3 world).0 ≡ ok (ClaimStageResult.claimed 1)
unfolding claim_stage claim_body claim_read claim_by_status claim_open claimed_row claim_result
    claim_update claim_reached_ceiling
claims_pending = refl

claim_stage_lem_example :
    claim_stage contract "tone" "c" 3 world ≡ claim_spec contract "tone" "c" 3 (some row_c) world
claim_stage_lem_example = claim_stage_lem contract "tone" "c" 3 world

claim_branch_lem_example :
    claim_branch contract branch_x 3 world
    ≡ branch_status_spec contract branch_x 3 BranchStatus.pending
        (branch_row "x" BranchStatus.pending)
        world
claim_branch_lem_example = claim_branch_lem contract branch_x 3 world

complete_in_turn_lem_example :
    ((complete_in_turn "a" "tone" ("x" ∷ "y" ∷ "x" ∷ []) db).0
      ≡ fired 2 (open_count "a" "tone" (complete_in_turn "a" "tone" ("x" ∷ "y" ∷ "x" ∷ []) db).1))
    × (open_count "a" "tone" (complete_in_turn "a" "tone" ("x" ∷ "y" ∷ "x" ∷ []) db).1 ≤ 2)
complete_in_turn_lem_example = complete_in_turn_lem "a" "tone" ("x" ∷ "y" ∷ "x" ∷ []) db

complete_stage_lem_example :
    complete_stage contract "tone" "b" (throw bad_request) world
    ≡ complete_spec "tone" "b" (throw bad_request) StageStatus.in_progress world
complete_stage_lem_example = complete_stage_lem "tone" "b" (throw bad_request) contract world
