-- ===== src/Jobs/OutboxRelay.antt =====
-- packages/jobs/src/outbox.ts: one pass of the relay. The pass is one transaction; `free` tells the
-- rows that no other transaction has locked (FOR UPDATE SKIP LOCKED). Counters, the histogram and
-- the log are telemetry and are left out; the clock of the process is the database's.
pub mod Rows
pub mod Marks
use cloudtalk_tech_task.Base.{
  ℕ, ◌+◌, ◌-◌, String, Bool, Option, none, some, List, [], ◌∷◌, leb, ◌&&◌, ◌&◌, if◌then◌else◌,
  length, take, or_default,
}
use Prim.Native.String
use cloudtalk_tech_task.Kernel.Value.{Value}
use cloudtalk_tech_task.Kernel.Describe.{describe_error}
use cloudtalk_tech_task.Sql.{select_where, first_where, update_where}
use cloudtalk_tech_task.Sql.Io.{Outcome, ok, threw}
use cloudtalk_tech_task.Jobs.Attempts.{truncate_reason}
use cloudtalk_tech_task.Jobs.Outbox.{
  OutboxDb, OutboxRow, dead, default_batch_size, default_max_attempts, has_id, is_pending_row,
  processed, write_outbox_dead_letter,
}

-- `apply` has no handle on the relay's transaction: it acts on the rest of the world.
pub record OutboxRelayOptions (Json E : Type 0) : Type 0 where
  pub apply : OutboxRow Json → E → Outcome (Unit {0}) × E
  pub batch_size : Option ℕ
  pub max_attempts : Option ℕ
  pub pipeline : String
  pub stage : String

pub record RelayState (Json E : Type 0) : Type 0 where
  pub db : OutboxDb Json
  pub ext : E
  pub processed : ℕ
  pub failed : ℕ
  pub parked : ℕ

pub record OutboxRelayReport : Type 0 where
  pub claimed : ℕ
  pub processed : ℕ
  pub failed : ℕ
  pub parked : ℕ
  pub oldest_pending_age_ms : Option ℕ

abbrev pub last_error_of : Value → String
last_error_of error = truncate_reason (describe_error error)

module _ {Json : Type 0} where
  abbrev pub mark_processed : ℕ → OutboxRow Json → OutboxRow Json
  mark_processed now r = record r { status = processed; processed_at = some now }

  abbrev pub mark_dead : ℕ → Value → OutboxRow Json → OutboxRow Json
  mark_dead attempts error r = record r {
    attempts = attempts;
    last_error = some (last_error_of error);
    status = dead;
  }

  abbrev pub mark_failed : ℕ → Value → OutboxRow Json → OutboxRow Json
  mark_failed attempts error r = record r {
    attempts = attempts;
    last_error = some (last_error_of error);
  }

  -- UPDATE ... WHERE outbox_id = ...
  abbrev pub update_row : ℕ → (OutboxRow Json → OutboxRow Json) → OutboxDb Json → OutboxDb Json
  update_row id f db = record db { rows = update_where (has_id id) f db.rows }

module _ {Json E : Type 0} (options : OutboxRelayOptions Json E) where
  abbrev pub max_attempts_of : ℕ
  max_attempts_of = or_default options.max_attempts default_max_attempts

  -- The catch of one row.
  unfoldable pub row_failed : OutboxRow Json → Value → RelayState Json E → RelayState Json E
  row_failed row error st =
      let attempts = row.attempts + 1 in
      if leb max_attempts_of attempts
      then record st {
        db =
            write_outbox_dead_letter options.pipeline row.aggregate_id options.stage
              (last_error_of error) attempts
              (update_row row.outbox_id (mark_dead attempts error) st.db);
        parked = st.parked + 1;
      }
      else record st {
        db = update_row row.outbox_id (mark_failed attempts error) st.db;
        failed = st.failed + 1;
      }

  unfoldable pub row_settled :
      OutboxRow Json → Outcome (Unit {0}) → RelayState Json E → RelayState Json E
  unfolding row_failed
  row_settled row (ok u) st = record st {
    db = update_row row.outbox_id (mark_processed st.db.now) st.db;
    processed = st.processed + 1;
  }
  row_settled row (threw error) st = row_failed row error st

  unfoldable pub relay_row : OutboxRow Json → RelayState Json E → RelayState Json E
  unfolding row_settled
  relay_row row st =
      let result = options.apply row st.ext in
      row_settled row result.0 (record st { ext = result.1 })

  unfoldable pub relay_rows : List (OutboxRow Json) → RelayState Json E → RelayState Json E
  unfolding relay_row
  relay_rows [] st = st
  relay_rows (row ∷ rows) st = relay_rows rows (relay_row row st)

  -- `Math.max(0, now - oldestCreatedAt)`
  abbrev pub oldest_age : ℕ → Option (OutboxRow Json) → Option ℕ
  oldest_age now none = none
  oldest_age now (some r) = some (now - r.created_at)

  -- the rows that the pass claims
  abbrev pub claimed_rows : (OutboxRow Json → Bool) → OutboxDb Json → List (OutboxRow Json)
  claimed_rows free db =
      take (or_default options.batch_size default_batch_size)
        (select_where (λ r. is_pending_row r && free r) db.rows)

  abbrev pub pass_start : OutboxDb Json → E → RelayState Json E
  pass_start db ext = record { db = db; ext = ext; processed = 0; failed = 0; parked = 0 }

  unfoldable pub relay_outbox_batch :
      (OutboxRow Json → Bool) → OutboxDb Json → E → OutboxRelayReport × OutboxDb Json × E
  unfolding relay_rows
  relay_outbox_batch free db ext =
      let claimed = claimed_rows free db in
      let st = relay_rows claimed (pass_start db ext) in
      (
        record {
          claimed = length claimed;
          processed = st.processed;
          failed = st.failed;
          parked = st.parked;
          oldest_pending_age_ms = oldest_age db.now (first_where is_pending_row db.rows);
        },
        st.db,
        st.ext,
      )
