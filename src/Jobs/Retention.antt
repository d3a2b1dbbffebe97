-- ===== src/Jobs/Retention.antt =====
-- packages/jobs/src/retention.ts: the purge of stage results, settled outbox rows and dead letters.
-- The counters and the registration of the schedule are left out; the horizons and the batch size
-- are natural numbers, where the source takes any number. `now()` is one time for the
-- whole pass, and no one else writes during it. Fuel bounds the batches of each purge; `none`
-- stands for a loop that is still running when it is spent.
pub mod Batches
pub mod Floor
pub mod Purged
use cloudtalk_tech_task.Base.{
  ℕ, zero, suc, ◌+◌, String, Bool, Option, none, some, List, ◌==◌, ltb, leb, str_eq, ◌&&◌, ◌&◌,
  decimal, if◌then◌else◌,
}
use cloudtalk_tech_task.Kernel.Errors.{validation_error, no_options}
use cloudtalk_tech_task.Sql.Batch.{delete_limited, affected}
use cloudtalk_tech_task.Sql.Io.{Outcome, ok, threw}
use cloudtalk_tech_task.Jobs.Checks.{refuse_if, ◌>>◌}
use cloudtalk_tech_task.Jobs.Store.{StageResultRow, DeadLetterRow}
use cloudtalk_tech_task.Jobs.Outbox.{OutboxRow, outbox_row_status_id, processed, dead}

abbrev pub default_retention_batch_size : ℕ
default_retention_batch_size = 500

-- `options.batchSize ?? DEFAULT_RETENTION_BATCH_SIZE`
abbrev pub retention_batch_size : Option ℕ → ℕ
retention_batch_size none = default_retention_batch_size
retention_batch_size (some n) = n

-- The tables that a purge can reach.
pub record RetentionDb (Json : Type 0) : Type 0 where
  pub now : ℕ
  pub stage_results : List (StageResultRow Json)
  pub outbox_rows : List (OutboxRow Json)
  pub dead_letters : List (DeadLetterRow Json)

-- `outbox` is the name of its table.
pub record RetentionOptions : Type 0 where
  pub outbox : Option String
  pub stage_result_retain_ms : ℕ
  pub processed_outbox_retain_ms : Option ℕ
  pub dead_outbox_retain_ms : Option ℕ
  pub stale_after_ms : ℕ
  pub batch_size : Option ℕ

pub record RetentionReport : Type 0 where
  pub stage_results_purged : ℕ
  pub outbox_processed_purged : ℕ
  pub outbox_dead_purged : ℕ

abbrev pub horizon_message : ℕ → ℕ → String → String
horizon_message retain_ms stale_after_ms label =
    label
    & " ("
    & decimal retain_ms
    & "ms) must exceed staleAfterMs ("
    & decimal stale_after_ms
    & "ms) — a purge inside the in-flight window would re-bill the provider (ADR-0006)"

unfoldable pub assert_horizon_exceeds_stale_after : ℕ → ℕ → String → Outcome (Unit {0})
assert_horizon_exceeds_stale_after retain_ms stale_after_ms label =
    refuse_if (leb retain_ms stale_after_ms) (horizon_message retain_ms stale_after_ms label)

-- the checks of the outbox's horizons, where there is an outbox, by which of them are given
unfoldable pub validate_outbox_horizons :
    ℕ → Option String → Option ℕ → Option ℕ → Outcome (Unit {0})
unfolding assert_horizon_exceeds_stale_after
validate_outbox_horizons stale_after_ms none processed_ms dead_ms = ok tt
validate_outbox_horizons stale_after_ms (some table) none dead_ms =
    threw (validation_error "processedOutboxRetainMs is required when outbox is set" no_options)
validate_outbox_horizons stale_after_ms (some table) (some processed_ms) none =
    threw (validation_error "deadOutboxRetainMs is required when outbox is set" no_options)
validate_outbox_horizons stale_after_ms (some table) (some processed_ms) (some dead_ms) = do
  assert_horizon_exceeds_stale_after processed_ms stale_after_ms "processedOutboxRetainMs"
  assert_horizon_exceeds_stale_after dead_ms stale_after_ms "deadOutboxRetainMs"

unfoldable pub validate_retention_options : RetentionOptions → Outcome (Unit {0})
unfolding assert_horizon_exceeds_stale_after validate_outbox_horizons
validate_retention_options o = do
  assert_horizon_exceeds_stale_after o.stage_result_retain_ms o.stale_after_ms "stageResultRetainMs"
  validate_outbox_horizons o.stale_after_ms o.outbox o.processed_outbox_retain_ms
      o.dead_outbox_retain_ms

module _ {A : Type 0} where
  -- The loop from a running total on: the total at its end and the rows that are left.
  unfoldable pub batched_delete_from : ℕ → (A → Bool) → ℕ → ℕ → List A → Option (ℕ × List A)
  unfolding affected
  batched_delete_from zero p batch_size total rows = none
  batched_delete_from (suc fuel) p batch_size total rows =
      let deleted = affected p batch_size rows in
      let left = delete_limited p batch_size rows in
      let rest = batched_delete_from fuel p batch_size (total + deleted) left in
      if ltb deleted batch_size then some (total + deleted, left) else rest

  unfoldable pub batched_delete : ℕ → (A → Bool) → ℕ → List A → Option (ℕ × List A)
  unfolding batched_delete_from
  batched_delete fuel p batch_size rows = batched_delete_from fuel p batch_size 0 rows

-- `created_at < now() - make_interval(secs => retainMs / 1000)`
abbrev pub is_older_than : ℕ → ℕ → ℕ → Bool
is_older_than retain_ms now created_at = ltb (created_at + retain_ms) now

abbrev pub Purge : Type 0 → Type 0 → Type 0
Purge Json A = RetentionDb Json → Option (Outcome A × RetentionDb Json)

-- a statement that is still running keeps the caller waiting
abbrev pub after : {A B : Type 0} → Option A → (A → Option B) → Option B
after none f = none
after (some a) f = f a

module _ {Json : Type 0} where
  abbrev pub is_old_result : ℕ → ℕ → StageResultRow Json → Bool
  is_old_result retain_ms now r = is_older_than retain_ms now r.created_at

  abbrev pub is_old_outbox_row : ℕ → ℕ → ℕ → OutboxRow Json → Bool
  is_old_outbox_row status_id retain_ms now r =
      (outbox_row_status_id r.status == status_id) && is_older_than retain_ms now r.created_at

  abbrev pub is_old_dead_letter : String → ℕ → ℕ → DeadLetterRow Json → Bool
  is_old_dead_letter pipeline retain_ms now r =
      str_eq r.pipeline pipeline && is_older_than retain_ms now r.created_at

  -- the two purges of the outbox, after that of the stage results
  unfoldable pub purge_outbox :
      ℕ → ℕ → ℕ → Option String → Option ℕ → Option ℕ → Purge Json RetentionReport
  unfolding batched_delete
  purge_outbox fuel batch_size purged none _ _ db = some (
    ok (record {
      stage_results_purged = purged;
      outbox_processed_purged = 0;
      outbox_dead_purged = 0;
    }),
    db,
  )
  purge_outbox fuel batch_size purged (some table) (some processed_ms) (some dead_ms) db =
      after
        (batched_delete fuel
          (is_old_outbox_row (outbox_row_status_id processed) processed_ms db.now) batch_size
          db.outbox_rows)
        (λ first.
          after
            (batched_delete fuel (is_old_outbox_row (outbox_row_status_id dead) dead_ms db.now)
              batch_size first.1)
            (λ second. some (
              ok (record {
                stage_results_purged = purged;
                outbox_processed_purged = first.0;
                outbox_dead_purged = second.0;
              }),
              record db { outbox_rows = second.1 },
            )))
  purge_outbox fuel batch_size purged (some table) _ _ db = some (
    threw (
        validation_error
          "processedOutboxRetainMs/deadOutboxRetainMs are required when outbox is set" no_options),
    db,
  )

  unfoldable pub purge_checked : ℕ → RetentionOptions → Purge Json RetentionReport
  unfolding batched_delete purge_outbox
  purge_checked fuel o db =
      after
        (batched_delete fuel (is_old_result o.stage_result_retain_ms db.now)
          (retention_batch_size o.batch_size) db.stage_results)
        (λ first.
          purge_outbox fuel (retention_batch_size o.batch_size) first.0 o.outbox
            o.processed_outbox_retain_ms o.dead_outbox_retain_ms
            (record db { stage_results = first.1 }))

  -- the code after a check, which a throw of it leaves out
  abbrev pub once_checked : {A : Type 0} → Outcome (Unit {0}) → Purge Json A → Purge Json A
  once_checked (ok _) next db = next db
  once_checked (threw e) next db = some (threw e, db)

  unfoldable pub purge_pipeline_data : ℕ → RetentionOptions → Purge Json RetentionReport
  unfolding validate_retention_options purge_checked
  purge_pipeline_data fuel o db =
      once_checked (validate_retention_options o) (purge_checked fuel o) db

  unfoldable pub purge_dead_letters : ℕ → String → ℕ → ℕ → Option ℕ → Purge Json ℕ
  unfolding assert_horizon_exceeds_stale_after batched_delete
  purge_dead_letters fuel pipeline retain_ms stale_after_ms batch_size db =
      once_checked (assert_horizon_exceeds_stale_after retain_ms stale_after_ms "retainMs")
        (λ db.
          after
            (batched_delete fuel (is_old_dead_letter pipeline retain_ms db.now)
              (retention_batch_size batch_size) db.dead_letters)
            (λ purged. some (ok purged.0, record db { dead_letters = purged.1 })))
        db
