-- ===== src/Jobs/DeadLetter/Laws.antt =====
-- What a dead letter leaves behind: the record, the failed stage, and no pending branch.
use cloudtalk_tech_task.Base.{
  ℕ, suc, String, true, Option, none, some, ◌≡◌, refl, ◌≢◌, arith, str_eq, str_eq_refl, str_eq-ne,
  zero, text_units, slice_units, Bool-cases, inl, inr, ltb, any, ◌&&◌,
}
use cloudtalk_tech_task.Sql.{first_where, count_where}
use cloudtalk_tech_task.Sql.Laws.{
  first_where_sound, first_where-update_hit, count_where-update_same, any-insert_unless,
}
use cloudtalk_tech_task.Sql.Io.{World, ok}
use cloudtalk_tech_task.Jobs.Store.{
  StageStatus, Contract, InstanceRow, Db, is_instance, is_stage_branch, is_pending, set_column,
}
use cloudtalk_tech_task.Jobs.Attempts.{truncate_reason}
use cloudtalk_tech_task.Jobs.DeadLetter.{
  DeadLetterRecord, Executor, pool, trx, is_dead_letter, insert_dead_letter, fail_stage,
  fail_pending_branches, write_dead_letter, branch_key_eq,
}

slice_units-ne : (n : ℕ) (s : String) → s ≢ "" → slice_units (suc n) s ≢ ""
slice_units-ne n String.[] h = h
slice_units-ne zero (String.◌∷◌ c s) h = cc
slice_units-ne (suc n) (String.◌∷◌ c s) h = cc

pub truncate_reason-ne : (reason : String) → reason ≢ "" → truncate_reason reason ≢ ""
unfolding truncate_reason
truncate_reason-ne reason h = elim (Bool-cases (ltb 500 (text_units reason))) [
  | inl long ↦ rw long (slice_units-ne 499 reason h)
  | inr short ↦ rw short h
]

module _ {Json : Type 0} where
  -- The three statements of a dead letter, one after the other.
  unfoldable pub dead_lettered : Contract → DeadLetterRecord Json → Db Json → Db Json
  unfolding insert_dead_letter fail_stage fail_pending_branches
  dead_lettered contract r db =
      fail_pending_branches r.instance_id r.stage (truncate_reason r.reason) (
        fail_stage r.instance_id r.stage
          (insert_dead_letter contract r (truncate_reason r.reason) db))

module _ {Json E : Type 0} where
  -- With a reason, the write goes through on the pool and in a transaction alike.
  pub write_dead_letter_lem :
      (x : Executor) (contract : Contract) (r : DeadLetterRecord Json) (w : World (Db Json) E)
      → r.reason ≢ ""
      → write_dead_letter x contract r w ≡ (ok tt, record w { db = dead_lettered contract r w.db })
  unfolding write_dead_letter dead_lettered
  write_dead_letter_lem trx contract r w h = rw (str_eq-ne _ _ (truncate_reason-ne r.reason h))
  write_dead_letter_lem pool contract r w h = rw (str_eq-ne _ _ (truncate_reason-ne r.reason h))

pub set_column_self :
    {A : Type 0} (column : String → A) (stage : String) (v : A)
    → set_column column stage v stage ≡ v
set_column_self column stage v = rw (str_eq_refl stage)

module _ {Json : Type 0} (contract : Contract) (r : DeadLetterRecord Json) where
  -- After a dead letter of an instance that has a row, the row's stage is failed, whatever it
  -- was.
  pub dead_lettered-failed :
      (db : Db Json) {row : InstanceRow}
      → first_where (is_instance r.instance_id) db.instances ≡ some row
      → (row' : InstanceRow) × (first_where
            (is_instance r.instance_id)
            (dead_lettered contract r db).instances
          ≡ some row')
        × (row'.status r.stage ≡ StageStatus.failed)
  unfolding dead_lettered insert_dead_letter fail_stage fail_pending_branches
  dead_lettered-failed db {row} h = (
    _,
    first_where-update_hit (is_instance r.instance_id) (is_instance r.instance_id) _ db.instances
        (λ y. refl) h (first_where_sound (is_instance r.instance_id) db.instances h),
    set_column_self row.status r.stage StageStatus.failed,
  )

  -- No branch of the stage is pending after a dead letter.
  pub dead_lettered-pending :
      (db : Db Json)
      → count_where
          (λ b. is_stage_branch r.instance_id r.stage b && is_pending b)
          (dead_lettered contract r db).branches
        ≡ 0
  unfolding dead_lettered insert_dead_letter fail_stage fail_pending_branches
  dead_lettered-pending db =
      count_where-update_same (λ b. is_stage_branch r.instance_id r.stage b && is_pending b) _
        db.branches (λ y. ground arith)

  -- After a dead letter there is a record for its pipeline, instance, stage and branch: this
  -- one, or one that was there before.
  pub dead_lettered-recorded :
      (db : Db Json)
      → any
          (is_dead_letter contract.pipeline r.instance_id r.stage r.branch_key)
          (dead_lettered contract r db).dead_letters
        ≡ true
  unfolding dead_lettered insert_dead_letter fail_stage fail_pending_branches
  dead_lettered-recorded db = any-insert_unless _ _ db.dead_letters (own_key r.branch_key)
    where
      own_key :
          (key : Option String)
          → (str_eq contract.pipeline contract.pipeline
              && str_eq r.instance_id r.instance_id
              && str_eq r.stage r.stage
              && branch_key_eq key key)
            ≡ true
      own_key none =
          ground
            (arith, str_eq_refl contract.pipeline, str_eq_refl r.instance_id, str_eq_refl r.stage)
      own_key (some k) = ground (
        arith,
        str_eq_refl contract.pipeline,
        str_eq_refl r.instance_id,
        str_eq_refl r.stage,
        str_eq_refl k,
      )
