-- ===== src/Jobs/Retention/Purged.antt =====
-- What a purge that is allowed to run leaves of the tables, and how much it reports.
use cloudtalk_tech_task.Base.{
  ℕ, ◌<◌, String, false, Option, none, some, List, ◌≡◌, refl, ◌∙◌, arith, length, leb,
}
use cloudtalk_tech_task.Sql.{count_where, delete_where}
use cloudtalk_tech_task.Sql.Laws.{count_where-le-length, count_where-delete_other}
use cloudtalk_tech_task.Sql.Io.{Outcome, ok}
use cloudtalk_tech_task.Jobs.Outbox.{OutboxRow}
use cloudtalk_tech_task.Jobs.Retention.{
  RetentionDb, RetentionOptions, RetentionReport, batched_delete, purge_pipeline_data,
  purge_checked, purge_outbox, validate_retention_options, validate_outbox_horizons, is_old_result,
  is_old_outbox_row, is_old_dead_letter, retention_batch_size, purge_dead_letters,
  assert_horizon_exceeds_stale_after,
}
use cloudtalk_tech_task.Jobs.Retention.Batches.{batched_delete_lem}
use cloudtalk_tech_task.Jobs.Retention.Floor.{both_checks}

module _ {Json : Type 0} where
  -- the outbox after one DELETE for each of its two horizons, and the numbers of rows these hit
  abbrev pub outbox_purged :
      Option String
      → Option ℕ
      → Option ℕ
      → ℕ
      → List (OutboxRow Json)
      → ℕ × ℕ × List (OutboxRow Json)
  outbox_purged (some table) (some processed_ms) (some dead_ms) now rows = (
    count_where (is_old_outbox_row 2 processed_ms now) rows,
    count_where (is_old_outbox_row 3 dead_ms now) rows,
    delete_where (is_old_outbox_row 3 dead_ms now)
        (delete_where (is_old_outbox_row 2 processed_ms now) rows),
  )
  outbox_purged _ _ _ now rows = (0, 0, rows)

  -- the whole pass as one DELETE for each horizon
  abbrev pub purged :
      RetentionOptions → RetentionDb Json → Outcome RetentionReport × RetentionDb Json
  purged o db =
      let results = is_old_result o.stage_result_retain_ms db.now in
      let (processed, dead, rows) =
        outbox_purged o.outbox o.processed_outbox_retain_ms o.dead_outbox_retain_ms db.now
          db.outbox_rows in
      (
        ok (record {
          stage_results_purged = count_where results db.stage_results;
          outbox_processed_purged = processed;
          outbox_dead_purged = dead;
        }),
        record db { stage_results = delete_where results db.stage_results; outbox_rows = rows },
      )

  first_batch :
      (fuel b p : ℕ) (db : RetentionDb Json)
      → 0 < b
      → length db.outbox_rows < fuel
      → batched_delete fuel (is_old_outbox_row 2 p db.now) b db.outbox_rows
        ≡ some (
          count_where (is_old_outbox_row 2 p db.now) db.outbox_rows,
          delete_where (is_old_outbox_row 2 p db.now) db.outbox_rows,
        )
  first_batch fuel b p db pos enough =
      batched_delete_lem fuel (is_old_outbox_row 2 p db.now) b db.outbox_rows pos
        (omega (arith, count_where-le-length (is_old_outbox_row 2 p db.now) db.outbox_rows))

  second_batch :
      (fuel b p d : ℕ) (db : RetentionDb Json)
      → 0 < b
      → length db.outbox_rows < fuel
      → batched_delete fuel
          (is_old_outbox_row 3 d db.now)
          b
          (delete_where (is_old_outbox_row 2 p db.now) db.outbox_rows)
        ≡ some (
          count_where (is_old_outbox_row 3 d db.now) db.outbox_rows,
          delete_where
              (is_old_outbox_row 3 d db.now)
              (delete_where (is_old_outbox_row 2 p db.now) db.outbox_rows),
        )
  second_batch fuel b p d db pos enough =
      let same =
        count_where-delete_other (is_old_outbox_row 3 d db.now) (is_old_outbox_row 2 p db.now)
          db.outbox_rows (λ r h. ground arith) in
      batched_delete_lem fuel (is_old_outbox_row 3 d db.now) b
        (delete_where (is_old_outbox_row 2 p db.now) db.outbox_rows) pos
        (omega (arith, count_where-le-length (is_old_outbox_row 3 d db.now) db.outbox_rows, same))
      ∙ rw same

  both_batches :
      (fuel b purged p d : ℕ) (t : String) (db : RetentionDb Json)
      → 0 < b
      → length db.outbox_rows < fuel
      → purge_outbox fuel b purged (some t) (some p) (some d) db
        ≡ some (
          ok (record {
            stage_results_purged = purged;
            outbox_processed_purged = count_where (is_old_outbox_row 2 p db.now) db.outbox_rows;
            outbox_dead_purged = count_where (is_old_outbox_row 3 d db.now) db.outbox_rows;
          }),
          record db {
            outbox_rows =
                delete_where
                  (is_old_outbox_row 3 d db.now)
                  (delete_where (is_old_outbox_row 2 p db.now) db.outbox_rows);
          },
        )
  unfolding purge_outbox
  both_batches fuel b purged p d t db pos enough =
      rw (first_batch fuel b p db pos enough) (rw (second_batch fuel b p d db pos enough) refl)

  outbox_batches :
      (fuel b purged stale : ℕ) (outbox : Option String) (p d : Option ℕ) (db : RetentionDb Json)
      → validate_outbox_horizons stale outbox p d ≡ ok tt
      → 0 < b
      → length db.outbox_rows < fuel
      → purge_outbox fuel b purged outbox p d db
        ≡ some (
          ok (record {
            stage_results_purged = purged;
            outbox_processed_purged = (outbox_purged outbox p d db.now db.outbox_rows).0;
            outbox_dead_purged = (outbox_purged outbox p d db.now db.outbox_rows).1;
          }),
          record db { outbox_rows = (outbox_purged outbox p d db.now db.outbox_rows).2 },
        )
  unfolding purge_outbox validate_outbox_horizons
  outbox_batches fuel b purged stale none p d db v pos enough = refl
  outbox_batches fuel b purged stale (some t) none d db v pos enough = absurd (ground arith)
  outbox_batches fuel b purged stale (some t) (some p) none db v pos enough = absurd (ground arith)
  outbox_batches fuel b purged stale (some t) (some p) (some d) db v pos enough =
      both_batches fuel b purged p d t db pos enough

  -- If the checks pass, the batch size is positive and each loop may run more rounds than its
  -- table has rows, a purge ends, and does what one DELETE for each horizon does: it reports
  -- how many rows each of them hits and leaves the others.
  pub purge_pipeline_data_lem :
      (fuel : ℕ) (o : RetentionOptions) (db : RetentionDb Json)
      → validate_retention_options o ≡ ok tt
      → 0 < retention_batch_size o.batch_size
      → length db.stage_results < fuel
      → length db.outbox_rows < fuel
      → purge_pipeline_data fuel o db ≡ some (purged o db)
  unfolding purge_pipeline_data purge_checked
  purge_pipeline_data_lem fuel o db v pos results rows = rw v (
      rw
        (batched_delete_lem fuel (is_old_result o.stage_result_retain_ms db.now)
          (retention_batch_size o.batch_size) db.stage_results pos
          (omega (
            arith,
            count_where-le-length (is_old_result o.stage_result_retain_ms db.now) db.stage_results,
          )))
        (outbox_batches fuel (retention_batch_size o.batch_size)
          (count_where (is_old_result o.stage_result_retain_ms db.now) db.stage_results)
          o.stale_after_ms o.outbox o.processed_outbox_retain_ms o.dead_outbox_retain_ms
          (record db {
            stage_results =
                delete_where (is_old_result o.stage_result_retain_ms db.now) db.stage_results;
          })
          (both_checks o v).1 pos rows))

  pub purge_dead_letters_lem :
      (fuel : ℕ) (pipeline : String) (retain_ms stale_after_ms : ℕ) (batch_size : Option ℕ)
      (db : RetentionDb Json)
      → stale_after_ms < retain_ms
      → 0 < retention_batch_size batch_size
      → length db.dead_letters < fuel
      → purge_dead_letters fuel pipeline retain_ms stale_after_ms batch_size db
        ≡ some (
          ok (count_where (is_old_dead_letter pipeline retain_ms db.now) db.dead_letters),
          record db {
            dead_letters =
                delete_where (is_old_dead_letter pipeline retain_ms db.now) db.dead_letters;
          },
        )
  unfolding purge_dead_letters assert_horizon_exceeds_stale_after
  purge_dead_letters_lem fuel pipeline retain_ms stale_after_ms batch_size db above pos enough =
      let passed : leb retain_ms stale_after_ms ≡ false = ground arith in
      rw passed (
        rw (
          batched_delete_lem fuel (is_old_dead_letter pipeline retain_ms db.now)
            (retention_batch_size batch_size) db.dead_letters pos
            (omega (
              arith,
              count_where-le-length (is_old_dead_letter pipeline retain_ms db.now) db.dead_letters,
            ))))
