-- ===== src/Jobs/Retention/Floor.antt =====
-- What no purge deletes, and what a purge does that throws.
use cloudtalk_tech_task.Base.{
  ℕ, ◌+◌, ◌<◌, String, Bool, true, false, Option, none, some, List, ◌≡◌, refl, ◌∙◌, arith, leb,
  ◌||◌, ap, ◌≢◌,
}
use cloudtalk_tech_task.Kernel.Value.{Value}
use cloudtalk_tech_task.Sql.{select_where}
use cloudtalk_tech_task.Sql.Io.{Outcome, ok, threw}
use cloudtalk_tech_task.Jobs.Store.{StageResultRow}
use cloudtalk_tech_task.Jobs.Outbox.{OutboxRow, is_pending_row}
use cloudtalk_tech_task.Jobs.Retention.{
  RetentionDb, RetentionOptions, RetentionReport, batched_delete, purge_pipeline_data,
  purge_checked, purge_outbox, validate_retention_options, validate_outbox_horizons,
  assert_horizon_exceeds_stale_after, is_old_result, is_old_outbox_row, retention_batch_size,
  once_checked, after,
}
use cloudtalk_tech_task.Jobs.Retention.Batches.{select_where-batched_delete}

after-eq_some :
    {A B : Type 0} (o : Option A) (f : A → Option B) {b : B}
    → after o f ≡ some b
    → (a : A) × (o ≡ some a) × (f a ≡ some b)
after-eq_some none f h = cc
after-eq_some (some a) f h = (a, refl, h)

horizon :
    (retain_ms stale_after_ms : ℕ) (label : String)
    → assert_horizon_exceeds_stale_after retain_ms stale_after_ms label ≡ ok tt
    → stale_after_ms < retain_ms
unfolding assert_horizon_exceeds_stale_after
horizon retain_ms stale_after_ms label h = ground arith

both_horizons :
    (stale : ℕ) (t : String) (p d : ℕ)
    → validate_outbox_horizons stale (some t) (some p) (some d) ≡ ok tt
    → (stale < p) × (stale < d)
unfolding validate_outbox_horizons
both_horizons stale t p d v = ground arith

pub both_checks :
    (o : RetentionOptions)
    → validate_retention_options o ≡ ok tt
    → (o.stale_after_ms < o.stage_result_retain_ms)
      × (validate_outbox_horizons o.stale_after_ms o.outbox o.processed_outbox_retain_ms
            o.dead_outbox_retain_ms
          ≡ ok tt)
unfolding validate_retention_options assert_horizon_exceeds_stale_after
both_checks o h = (ground arith, ground arith)

module _ {Json : Type 0} where
  -- the rows too young for any purge
  abbrev pub is_young_result : ℕ → ℕ → StageResultRow Json → Bool
  is_young_result stale_after_ms now r = leb now (r.created_at + stale_after_ms)

  -- the outbox rows that are pending, or too young for any purge
  abbrev pub is_kept_outbox_row : ℕ → ℕ → OutboxRow Json → Bool
  is_kept_outbox_row stale_after_ms now r =
      is_pending_row r || leb now (r.created_at + stale_after_ms)

  -- What a purge leaves of the tables, at the horizon's floor.
  pub record KeepsFloor (stale_after_ms : ℕ) (before later : RetentionDb Json) : Type 0 where
    pub young_results :
        select_where (is_young_result stale_after_ms before.now) later.stage_results
        ≡ select_where (is_young_result stale_after_ms before.now) before.stage_results
    pub pending_and_young_rows :
        select_where (is_kept_outbox_row stale_after_ms before.now) later.outbox_rows
        ≡ select_where (is_kept_outbox_row stale_after_ms before.now) before.outbox_rows
    pub dead_letters : later.dead_letters ≡ before.dead_letters

  processed_excludes :
      (stale now retain : ℕ) (r : OutboxRow Json)
      → stale < retain
      → is_kept_outbox_row stale now r ≡ true
      → is_old_outbox_row 2 retain now r ≡ false
  processed_excludes stale now retain r h k = ground arith

  dead_excludes :
      (stale now retain : ℕ) (r : OutboxRow Json)
      → stale < retain
      → is_kept_outbox_row stale now r ≡ true
      → is_old_outbox_row 3 retain now r ≡ false
  dead_excludes stale now retain r h k = ground arith

  both_purges :
      (fuel b stale now p d : ℕ) (rows : List (OutboxRow Json))
      (first second : ℕ × List (OutboxRow Json))
      → (stale < p) × (stale < d)
      → batched_delete fuel (is_old_outbox_row 2 p now) b rows ≡ some first
      → batched_delete fuel (is_old_outbox_row 3 d now) b first.1 ≡ some second
      → select_where (is_kept_outbox_row stale now) second.1
        ≡ select_where (is_kept_outbox_row stale now) rows
  both_purges fuel b stale now p d rows first second v e k =
      select_where-batched_delete fuel (is_kept_outbox_row stale now) (is_old_outbox_row 3 d now) b
        first.1 {n = second.0} (λ r. dead_excludes stale now d r v.1) k
      ∙ select_where-batched_delete fuel (is_kept_outbox_row stale now) (is_old_outbox_row 2 p now)
          b rows {n = first.0} (λ r. processed_excludes stale now p r v.0) e

  -- the outbox's part of a purge whose horizons passed the checks
  purge_outbox_floor :
      (fuel b purged stale : ℕ) (outbox : Option String) (p d : Option ℕ)
      (db db' : RetentionDb Json) (out : Outcome RetentionReport)
      → validate_outbox_horizons stale outbox p d ≡ ok tt
      → purge_outbox fuel b purged outbox p d db ≡ some (out, db')
      → (db'.stage_results ≡ db.stage_results)
        × (select_where (is_kept_outbox_row stale db.now) db'.outbox_rows
            ≡ select_where (is_kept_outbox_row stale db.now) db.outbox_rows)
        × (db'.dead_letters ≡ db.dead_letters)
        × ((e : Value) → out ≢ threw e)
  unfolding purge_outbox validate_outbox_horizons
  purge_outbox_floor fuel b purged stale none p d db db' out v h =
      (ground arith, ground arith, ground arith, λ e. ground arith)
  purge_outbox_floor fuel b purged stale (some t) none d db db' out v h = absurd (ground arith)
  purge_outbox_floor fuel b purged stale (some t) (some p) none db db' out v h =
      absurd (ground arith)
  purge_outbox_floor fuel b purged stale (some t) (some p) (some d) db db' out v h =
      let (first, e, h') = after-eq_some _ _ h in
      let (second, k, g) = after-eq_some _ _ h' in
      let kept =
        both_purges fuel b stale db.now p d db.outbox_rows first second
          (both_horizons stale t p d v) e k in
      (ground arith, ground (arith, kept), ground arith, λ e. ground arith)

  purge_checked_floor :
      (fuel : ℕ) (o : RetentionOptions) (db db' : RetentionDb Json) (out : Outcome RetentionReport)
      → o.stale_after_ms < o.stage_result_retain_ms
      → validate_outbox_horizons o.stale_after_ms o.outbox o.processed_outbox_retain_ms
          o.dead_outbox_retain_ms
        ≡ ok tt
      → purge_checked fuel o db ≡ some (out, db')
      → KeepsFloor o.stale_after_ms db db' × ((e : Value) → out ≢ threw e)
  unfolding purge_checked
  purge_checked_floor fuel o db db' out above v h =
      let (first, e, h') = after-eq_some _ _ h in
      let young =
        select_where-batched_delete fuel (is_young_result o.stale_after_ms db.now)
          (is_old_result o.stage_result_retain_ms db.now) (retention_batch_size o.batch_size)
          db.stage_results {n = first.0} {left = first.1} (λ r k. ground arith) e in
      let (same, rows, letters, done) =
        purge_outbox_floor fuel (retention_batch_size o.batch_size) first.0 o.stale_after_ms
          o.outbox o.processed_outbox_retain_ms o.dead_outbox_retain_ms
          (record db { stage_results = first.1 }) db' out v h' in
      (
        record {
          young_results = ap (select_where (is_young_result o.stale_after_ms db.now)) same ∙ young;
          pending_and_young_rows = rows;
          dead_letters = letters;
        },
        done,
      )

  KeepsFloor-refl : (stale_after_ms : ℕ) (db : RetentionDb Json) → KeepsFloor stale_after_ms db db
  KeepsFloor-refl stale_after_ms db = record {
    young_results = refl;
    pending_and_young_rows = refl;
    dead_letters = refl;
  }

  -- Whatever its options are and however it ends, a purge leaves every stage result that is no
  -- older than staleAfterMs, every outbox row that is pending or no older than that, and all
  -- dead letters.
  pub purge_pipeline_data_floor :
      (fuel : ℕ) (o : RetentionOptions) (db db' : RetentionDb Json) (out : Outcome RetentionReport)
      → purge_pipeline_data fuel o db ≡ some (out, db')
      → KeepsFloor o.stale_after_ms db db'
  unfolding purge_pipeline_data
  purge_pipeline_data_floor fuel o db db' out h =
      checked_floor (validate_retention_options o) refl h
    where
      checked_floor :
          (v : Outcome (Unit {0}))
          → validate_retention_options o ≡ v
          → once_checked v (purge_checked fuel o) db ≡ some (out, db')
          → KeepsFloor o.stale_after_ms db db'
      checked_floor (ok _) e k =
          (purge_checked_floor fuel o db db' out (both_checks o e).0 (both_checks o e).1 k).0
      checked_floor (threw x) e k =
          let same : db' ≡ db = ground arith in rw same (KeepsFloor-refl _ db)
