-- ===== src/Jobs/Outbox.antt =====
-- packages/jobs/src/outbox.ts: the outbox table and the producer's INSERT; with them the outbox part
-- of dead-letter.ts, `writeOutboxDeadLetter`. Counters and logs are telemetry and are left out.
pub mod Produce
use cloudtalk_tech_task.Base.{
  ℕ, zero, suc, ◌+◌, ◌-◌, String, Bool, true, false, Option, none, List, [], ◌∷◌, ◌++◌, ◌==◌, ltb,
  leb, ◌&&◌, ◌||◌, ◌&◌, not, if◌then◌else◌, length, take, drop,
}
use Prim.Native.Char.{code}
use Prim.Native.String
use cloudtalk_tech_task.Sql.{insert_unless}
use cloudtalk_tech_task.Jobs.Store.{DeadLetterRow}
use cloudtalk_tech_task.Jobs.DeadLetter.{is_dead_letter}
use cloudtalk_tech_task.Jobs.Attempts.{truncate_reason}

pub data OutboxRowStatus : Type 0 where
  pending processed dead : OutboxRowStatus

abbrev pub outbox_row_status_id : OutboxRowStatus → ℕ
outbox_row_status_id pending = 1
outbox_row_status_id processed = 2
outbox_row_status_id dead = 3

pub record OutboxRow (Json : Type 0) : Type 0 where
  pub outbox_id : ℕ
  pub aggregate_id : String
  pub op : String
  pub payload : Json
  pub attempts : ℕ
  pub status : OutboxRowStatus
  pub last_error : Option String
  pub created_at : ℕ
  pub processed_at : Option ℕ

pub record OutboxInsert (Json : Type 0) : Type 0 where
  pub aggregate_id : String
  pub op : String
  pub payload : Json

-- The outbox in the order of `outbox_id`, its identity column's next value, and the dead letters.
pub record OutboxDb (Json : Type 0) : Type 0 where
  pub now : ℕ
  pub next_id : ℕ
  pub rows : List (OutboxRow Json)
  pub dead_letters : List (DeadLetterRow Json)

abbrev pub is_pending_row : {Json : Type 0} → OutboxRow Json → Bool
is_pending_row r = outbox_row_status_id r.status == 1

abbrev pub default_batch_size : ℕ
default_batch_size = 50

abbrev pub default_max_attempts : ℕ
default_max_attempts = 5

abbrev pub outbox_insert_chunk : ℕ
outbox_insert_chunk = 1000

module _ {Json : Type 0} where
  abbrev pub new_row : ℕ → ℕ → OutboxInsert Json → OutboxRow Json
  new_row id now r = record {
    outbox_id = id;
    aggregate_id = r.aggregate_id;
    op = r.op;
    payload = r.payload;
    attempts = 0;
    status = pending;
    last_error = none;
    created_at = now;
    processed_at = none;
  }

  abbrev pub new_rows : ℕ → ℕ → List (OutboxInsert Json) → List (OutboxRow Json)
  new_rows id now [] = []
  new_rows id now (r ∷ rs) = new_row id now r ∷ new_rows (suc id) now rs

  -- one multi-row INSERT
  unfoldable pub insert_chunk : List (OutboxInsert Json) → OutboxDb Json → OutboxDb Json
  insert_chunk chunk db = record db {
    next_id = db.next_id + length chunk;
    rows = db.rows ++ new_rows db.next_id db.now chunk;
  }

  -- The loop of `insertOutboxRows` from `start` on; the fuel bounds the rounds.
  unfoldable pub insert_chunks : ℕ → ℕ → List (OutboxInsert Json) → OutboxDb Json → OutboxDb Json
  insert_chunks zero start rows db = db
  insert_chunks (suc fuel) start rows db =
      let rest =
        insert_chunks fuel (start + outbox_insert_chunk) rows
          (insert_chunk (take outbox_insert_chunk (drop start rows)) db) in
      if ltb start (length rows) then rest else db

  unfoldable pub insert_outbox_rows : List (OutboxInsert Json) → OutboxDb Json → OutboxDb Json
  unfolding insert_chunks insert_chunk
  insert_outbox_rows rows db = insert_chunks (suc (length rows)) 0 rows db

-- One character of UUID_RE, which ignores case.
abbrev pub is_hex : ℕ → Bool
is_hex c = (leb b'0' c && leb c b'9') || (leb b'a' c && leb c b'f') || (leb b'A' c && leb c b'F')

-- The groups of UUID_RE: `n` hexadecimal digits, then the rest.
unfoldable pub matches_uuid : List ℕ → ℕ → String → Bool
matches_uuid groups (suc n) (String.◌∷◌ c s) = is_hex (code c) && matches_uuid groups n s
matches_uuid [] zero String.[] = true
matches_uuid (g ∷ groups) zero (String.◌∷◌ c s) = (code c == b'-') && matches_uuid groups g s
matches_uuid groups n s = false

unfoldable pub is_uuid : String → Bool
unfolding matches_uuid
is_uuid s = matches_uuid (4 ∷ 4 ∷ 4 ∷ 12 ∷ []) 8 s

-- The dead letter of a parked row: written under a uuid only, once for each key.
unfoldable pub write_outbox_dead_letter :
    {Json : Type 0} → String → String → String → String → ℕ → OutboxDb Json → OutboxDb Json
unfolding is_uuid
write_outbox_dead_letter pipeline id stage reason attempts db =
    if not (is_uuid id) then db else record db {
      dead_letters =
          insert_unless (is_dead_letter pipeline id stage none)
            (record {
              pipeline = pipeline;
              instance_id = id;
              stage = stage;
              branch_key = none;
              reason = truncate_reason reason;
              attempts = attempts;
              payload = none;
              created_at = db.now;
            })
            db.dead_letters;
    }

abbrev pub has_id : {Json : Type 0} → ℕ → OutboxRow Json → Bool
has_id id r = r.outbox_id == id
