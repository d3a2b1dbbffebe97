-- ===== src/Jobs/Stage/ClaimLaws.antt =====
-- The claim of a stage on every branch.
use cloudtalk_tech_task.Base.{
  ℕ, ◌+◌, String, true, false, Option, none, some, ◌≡◌, refl, ◌≢◌, inl, inr, ◌&◌, arith, Bool-cases,
  Option-cases, if◌then◌else◌, leb, leb→le, eq_iff, Bool, List, [], ◌∷◌, map, str_eq, ◌&&◌,
}
use cloudtalk_tech_task.Kernel.Errors.{no_options, internal_error}
use cloudtalk_tech_task.Sql.{first_where, update_where}
use cloudtalk_tech_task.Sql.Laws.{first_where-and}
use cloudtalk_tech_task.Sql.Io.{World, Outcome, ok, threw, settle, continue}
use cloudtalk_tech_task.Jobs.Store.{StageStatus, Contract, InstanceRow, Db, is_instance}
use cloudtalk_tech_task.Jobs.Attempts.{claim_reached_ceiling-false, claim_reached_ceiling-true}
use cloudtalk_tech_task.Jobs.DeadLetter.{trx}
use cloudtalk_tech_task.Jobs.DeadLetter.Laws.{dead_lettered, write_dead_letter_lem, set_column_self}
use cloudtalk_tech_task.Jobs.Stage.{
  ClaimStageResult, ClaimKind, is_open, is_claimable, claim_row, claim_record, claim_update,
  claimed_row, claim_open, claim_by_status, claim_read, claim_result, claim_stage, no_instance_row,
}

claim_literal-ne : ◌≢◌ {A = String} "claim: attempts ceiling reached" ""
claim_literal-ne = ground (arith, eq_iff "claim: attempts ceiling reached" "")

-- The guarded UPDATE of an open row always returns it.
guard-holds :
    {Json : Type 0} (stage id : String) (db : Db Json) {row : InstanceRow}
    → first_where (is_instance id) db.instances ≡ some row
    → is_open (row.status stage) ≡ true
    → first_where (is_claimable id stage) db.instances ≡ some row
guard-holds stage id db h k =
    first_where-and (is_instance id) (λ r. is_open (r.status stage)) db.instances h k

-- A stage that waits for its turn, or is at work.
abbrev pub unfinished : StageStatus → Bool
unfinished StageStatus.pending = true
unfinished StageStatus.in_progress = true
unfinished StageStatus.completed = false
unfinished StageStatus.failed = false

-- The instance's row, in progress with one attempt more and the present time; every other row, and
-- every other stage of the row, is as it was.
abbrev pub at_work : String → String → ℕ → InstanceRow → InstanceRow
at_work stage id now r =
    if str_eq r.instance_id id && unfinished (r.status stage)
    then record {
      instance_id = r.instance_id;
      status = λ s. if str_eq stage s then StageStatus.in_progress else r.status s;
      attempts = λ s. if str_eq stage s then r.attempts stage + 1 else r.attempts s;
      updated_at = λ s. if str_eq stage s then now else r.updated_at s;
    }
    else r

-- The database of a claim: only the instances differ.
abbrev pub taken_up : {Json : Type 0} → String → String → Db Json → Db Json
taken_up stage id db = record {
  now = db.now;
  instances = map (at_work stage id db.now) db.instances;
  branches = db.branches;
  stage_results = db.stage_results;
  dead_letters = db.dead_letters;
}

is_open-unfinished : (s : StageStatus) → is_open s ≡ unfinished s
is_open-unfinished StageStatus.pending = refl
is_open-unfinished StageStatus.in_progress = refl
is_open-unfinished StageStatus.completed = refl
is_open-unfinished StageStatus.failed = refl

update_where-at_work :
    (stage id : String) (now : ℕ) (rows : List InstanceRow)
    → update_where (is_claimable id stage) (claim_row stage now) rows
      ≡ map (at_work stage id now) rows
update_where-at_work stage id now [] = refl
update_where-at_work stage id now (r ∷ rows) =
    rw (is_open-unfinished (r.status stage), update_where-at_work stage id now rows) refl

claim_update-taken_up :
    {Json : Type 0} (stage id : String) (db : Db Json)
    → claim_update id stage db ≡ taken_up stage id db
unfolding claim_update
claim_update-taken_up stage id db = rw (update_where-at_work stage id db.now db.instances) refl

module _ {Json E : Type 0} (contract : Contract) (stage id : String) (ceiling : ℕ) where
  -- The claim of a row that is open, described by its attempts alone.
  abbrev pub open_spec :
      InstanceRow → World (Db Json) E → Outcome ClaimStageResult × World (Db Json) E
  open_spec row w =
      if leb ceiling (row.attempts stage)
      then (
        threw (
            internal_error false (contract.pipeline & "." & stage & ": attempts ceiling reached")
              no_options),
        record w {
          db =
              dead_lettered contract (claim_record id stage (row.attempts stage + 1))
                (taken_up stage id w.db);
        },
      )
      else (
        ok (ClaimStageResult.claimed (row.attempts stage + 1)),
        record w { db = taken_up stage id w.db },
      )

  abbrev pub status_spec :
      StageStatus → InstanceRow → World (Db Json) E → Outcome ClaimStageResult × World (Db Json) E
  status_spec StageStatus.completed row w = (ok ClaimStageResult.replay_no_op, w)
  status_spec StageStatus.failed row w = (ok ClaimStageResult.already_failed, w)
  status_spec _ row w = open_spec row w

  abbrev pub claim_spec :
      Option InstanceRow → World (Db Json) E → Outcome ClaimStageResult × World (Db Json) E
  claim_spec none w = (threw (no_instance_row "claimStage" contract stage id), w)
  claim_spec (some row) w = status_spec (row.status stage) row w

  claimed_row_lem :
      (now : ℕ) (row : InstanceRow) (w : World (Db Json) E)
      → claimed_row contract stage id ceiling (some (claim_row stage now row)) w ≡ (
          if leb ceiling (row.attempts stage)
          then (
            ok ClaimKind.ceiling_reached,
            record w {
              db = dead_lettered contract (claim_record id stage (row.attempts stage + 1)) w.db;
            },
          )
          else (ok (ClaimKind.claimed (row.attempts stage + 1)), w))
  unfolding claimed_row
  claimed_row_lem now row w =
      rw (set_column_self row.attempts stage (row.attempts stage + 1))
        (elim (Bool-cases (leb ceiling (row.attempts stage))) [
          | inl over ↦
              rw (over, claim_reached_ceiling-true _ _ (leb→le _ _ over))
                (rw (
                  write_dead_letter_lem trx contract
                    (claim_record id stage (row.attempts stage + 1)) w claim_literal-ne))
          | inr under ↦
              rw (under, claim_reached_ceiling-false (row.attempts stage) ceiling (ground arith))
        ])

  claim_open_lem :
      (w : World (Db Json) E) {row : InstanceRow}
      → first_where (is_instance id) w.db.instances ≡ some row
      → is_open (row.status stage) ≡ true
      → claim_open contract stage id ceiling w
        ≡ claimed_row contract stage id ceiling
            (some (claim_row stage w.db.now row))
            (record w { db = taken_up stage id w.db })
  unfolding claim_open
  claim_open_lem w {row} h k =
      rw (guard-holds stage id w.db h k, claim_update-taken_up stage id w.db) refl

  open_lem :
      (w : World (Db Json) E) {row : InstanceRow}
      → first_where (is_instance id) w.db.instances ≡ some row
      → is_open (row.status stage) ≡ true
      → continue
          (settle w.db (claim_open contract stage id ceiling w))
          (claim_result contract stage)
        ≡ open_spec row w
  unfolding claim_result
  open_lem w {row} h k =
      rw
        (
          claim_open_lem w h k,
          claimed_row_lem w.db.now row (record w { db = taken_up stage id w.db }),
        )
        (elim (Bool-cases (leb ceiling (row.attempts stage))) [
          | inl over ↦ rw over
          | inr under ↦ rw under
        ])

  by_status_lem :
      (w : World (Db Json) E) {row : InstanceRow} (s : StageStatus)
      → first_where (is_instance id) w.db.instances ≡ some row
      → row.status stage ≡ s
      → continue
          (settle w.db (claim_by_status contract stage id ceiling s w))
          (claim_result contract stage)
        ≡ status_spec s row w
  unfolding claim_by_status claim_result
  by_status_lem w StageStatus.completed h e = refl
  by_status_lem w StageStatus.failed h e = refl
  by_status_lem w StageStatus.pending h e = open_lem w h (rw e)
  by_status_lem w StageStatus.in_progress h e = open_lem w h (rw e)

  -- The claim of a stage does what the instance's row says, and the guard of its UPDATE never
  -- fails: no row is a NotFoundError, a completed stage is a replay, a failed one is left
  -- alone; an open stage is put in progress with one attempt more and the present time, the
  -- attempts that are returned, and no other row, stage or table changes; if its attempts had
  -- reached the ceiling, the same is done, the instance is dead-lettered for good and the
  -- error is thrown after that.
  pub claim_stage_lem :
      (w : World (Db Json) E)
      → claim_stage contract stage id ceiling w
        ≡ claim_spec (first_where (is_instance id) w.db.instances) w
  unfolding claim_stage
  claim_stage_lem w = elim (Option-cases (first_where (is_instance id) w.db.instances)) [
    | inl e ↦ rw (e, claim_read)
    | inr (row, e) ↦ rw (e, claim_read) (by_status_lem w (row.status stage) e refl)
  ]
