-- ===== src/Jobs/Branch/ClaimLaws.antt =====
-- The claim of a branch on every branch of the code.
use cloudtalk_tech_task.Base.{
  ℕ, ◌+◌, String, false, none, some, ◌≡◌, refl, ◌≢◌, inl, inr, ◌&◌, arith, Bool-cases, Option-cases,
  if◌then◌else◌, leb, leb→le, eq_iff, Bool, true, List, [], ◌∷◌, map, str_eq, ◌&&◌,
}
use cloudtalk_tech_task.Kernel.Errors.{no_options, internal_error, not_found_error}
use cloudtalk_tech_task.Sql.{first_where, update_where}
use cloudtalk_tech_task.Sql.Laws.{first_where-and}
use cloudtalk_tech_task.Sql.Io.{World, Outcome, ok, threw, settle, continue}
use cloudtalk_tech_task.Jobs.Store.{
  BranchStatus, Contract, BranchRow, Db, is_pending, branch_status_eq,
}
use cloudtalk_tech_task.Jobs.Attempts.{claim_reached_ceiling-false, claim_reached_ceiling-true}
use cloudtalk_tech_task.Jobs.DeadLetter.{trx}
use cloudtalk_tech_task.Jobs.DeadLetter.Laws.{dead_lettered, write_dead_letter_lem}
use cloudtalk_tech_task.Jobs.Stage.{ClaimKind, ClaimStageResult}
use cloudtalk_tech_task.Jobs.Branch.{
  BranchIdentity, is_this, branch_name, branch_record, claim_branch_row, claim_branch_update,
  claimed_branch, claim_branch_by_status, claim_branch_read, branch_claim_result, claim_branch,
}

branch_literal-ne : ◌≢◌ {A = String} "claim: branch attempts ceiling reached" ""
branch_literal-ne = ground (arith, eq_iff "claim: branch attempts ceiling reached" "")

abbrev waiting : BranchStatus → Bool
waiting BranchStatus.pending = true
waiting BranchStatus.completed = false
waiting BranchStatus.failed = false

-- The branch's row with one attempt more and the present time, if it is pending; every other row is
-- as it was.
abbrev pub at_work : BranchIdentity → ℕ → BranchRow → BranchRow
at_work b now r =
    if (str_eq r.instance_id b.instance_id
        && str_eq r.stage b.stage
        && str_eq r.branch_key b.branch_key)
      && waiting r.status
    then record {
      instance_id = r.instance_id;
      stage = r.stage;
      branch_key = r.branch_key;
      kind = r.kind;
      status = r.status;
      attempts = r.attempts + 1;
      last_error = r.last_error;
      updated_at = now;
    }
    else r

-- The database of a claim: only the branches differ.
abbrev pub taken_up : {Json : Type 0} → BranchIdentity → Db Json → Db Json
taken_up b db = record {
  now = db.now;
  instances = db.instances;
  branches = map (at_work b db.now) db.branches;
  stage_results = db.stage_results;
  dead_letters = db.dead_letters;
}

status_waiting : (s : BranchStatus) → branch_status_eq s BranchStatus.pending ≡ waiting s
status_waiting BranchStatus.pending = refl
status_waiting BranchStatus.completed = refl
status_waiting BranchStatus.failed = refl

update_where-at_work :
    (b : BranchIdentity) (now : ℕ) (rows : List BranchRow)
    → update_where (λ r. is_this b r && is_pending r) (claim_branch_row now) rows
      ≡ map (at_work b now) rows
update_where-at_work b now [] = refl
update_where-at_work b now (r ∷ rows) =
    rw (status_waiting r.status, update_where-at_work b now rows) refl

claim_branch_update-taken_up :
    {Json : Type 0} (b : BranchIdentity) (db : Db Json) → claim_branch_update b db ≡ taken_up b db
unfolding claim_branch_update
claim_branch_update-taken_up b db = rw (update_where-at_work b db.now db.branches) refl

module _ {Json E : Type 0} (contract : Contract) (b : BranchIdentity) (ceiling : ℕ) where
  -- What a claim does, by the status and the attempts of the branch's row.
  abbrev pub branch_status_spec :
      BranchStatus → BranchRow → World (Db Json) E → Outcome ClaimStageResult × World (Db Json) E
  branch_status_spec BranchStatus.completed row w = (ok ClaimStageResult.replay_no_op, w)
  branch_status_spec BranchStatus.failed row w = (ok ClaimStageResult.already_failed, w)
  branch_status_spec BranchStatus.pending row w =
      if leb ceiling row.attempts
      then (
        threw (
            internal_error false
              (contract.pipeline & "." & b.stage & ":" & b.branch_key
                & ": attempts ceiling reached")
              no_options),
        record w {
          db =
              dead_lettered contract
                (branch_record b "claim: branch attempts ceiling reached" (row.attempts + 1))
                (taken_up b w.db);
        },
      )
      else (ok (ClaimStageResult.claimed (row.attempts + 1)), record w { db = taken_up b w.db })

  claimed_branch_lem :
      (now : ℕ) (row : BranchRow) (w : World (Db Json) E)
      → claimed_branch contract b ceiling (some (claim_branch_row now row)) w ≡ (
          if leb ceiling row.attempts
          then (
            ok ClaimKind.ceiling_reached,
            record w {
              db =
                  dead_lettered contract
                    (branch_record b "claim: branch attempts ceiling reached" (row.attempts + 1))
                    w.db;
            },
          )
          else (ok (ClaimKind.claimed (row.attempts + 1)), w))
  unfolding claimed_branch
  claimed_branch_lem now row w = elim (Bool-cases (leb ceiling row.attempts)) [
    | inl over ↦
        rw (over, claim_reached_ceiling-true _ _ (leb→le _ _ over))
          (rw (
            write_dead_letter_lem trx contract
              (branch_record b "claim: branch attempts ceiling reached" (row.attempts + 1)) w
              branch_literal-ne))
    | inr under ↦ rw (under, claim_reached_ceiling-false row.attempts ceiling (ground arith))
  ]

  by_status_lem :
      (w : World (Db Json) E) {row : BranchRow} (s : BranchStatus)
      → first_where (is_this b) w.db.branches ≡ some row
      → row.status ≡ s
      → continue
          (settle w.db (claim_branch_by_status contract b ceiling s w))
          (branch_claim_result contract b)
        ≡ branch_status_spec s row w
  unfolding claim_branch_by_status branch_claim_result
  by_status_lem w BranchStatus.completed h e = refl
  by_status_lem w BranchStatus.failed h e = refl
  by_status_lem w {row} BranchStatus.pending h e =
      rw
        (
          first_where-and (is_this b) is_pending w.db.branches h (rw e),
          claim_branch_update-taken_up b w.db,
        )
        (rw (claimed_branch_lem w.db.now row (record w { db = taken_up b w.db }))
          (elim (Bool-cases (leb ceiling row.attempts)) [
            | inl over ↦ rw over
            | inr under ↦ rw under
          ]))

  -- The claim of a branch does what its row says, and the guard of its UPDATE never fails: no
  -- row is a NotFoundError, a completed branch a replay, a failed one is left alone; a pending
  -- one gets one attempt more and the present time, the attempts that are returned, and no
  -- other row or table changes; if its attempts had reached the ceiling, the same is done, and
  -- it is dead-lettered with its siblings for good before the error is thrown.
  pub claim_branch_lem :
      (w : World (Db Json) E)
      → claim_branch contract b ceiling w ≡ elim (first_where (is_this b) w.db.branches) [
        | none ↦ (
          threw (
              not_found_error
                ("runPipelineBranch: no branch row for "
                  & branch_name b
                  & " — registerBranches must run before runPipelineBranch")
                no_options),
          w,
        )
        | some row ↦ branch_status_spec row.status row w
      ]
  unfolding claim_branch
  claim_branch_lem w = elim (Option-cases (first_where (is_this b) w.db.branches)) [
    | inl e ↦ rw (e, claim_branch_read)
    | inr (row, e) ↦ rw (e, claim_branch_read) (by_status_lem w row.status e refl)
  ]
