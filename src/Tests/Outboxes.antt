-- ===== src/Tests/Outboxes.antt =====
-- An outbox of three rows, of which one keeps failing.
use cloudtalk_tech_task.Base.{
  ℕ, ◌+◌, Bool, true, none, some, List, [], ◌∷◌, ◌≡◌, ◌==◌, arith, if◌then◌else◌,
}
use cloudtalk_tech_task.Kernel.Value.{str}
use cloudtalk_tech_task.Sql.Io.{ok, threw}
use cloudtalk_tech_task.Jobs.Outbox.{
  OutboxRowStatus, OutboxRow, OutboxInsert, OutboxDb, insert_chunk, insert_outbox_rows,
}
use cloudtalk_tech_task.Jobs.OutboxRelay.{OutboxRelayOptions, claimed_rows, relay_outbox_batch}
use cloudtalk_tech_task.Jobs.Outbox.Produce.{insert_outbox_rows_lem}
use cloudtalk_tech_task.Jobs.OutboxRelay.Marks.{IsDistinct, Marked, relay_outbox_batch-Marked}

abbrev outbox_row : ℕ → ℕ → OutboxRow ℕ
outbox_row id attempts = record {
  outbox_id = id;
  aggregate_id = "product";
  op = "rating.changed";
  payload = id;
  attempts = attempts;
  status = OutboxRowStatus.pending;
  last_error = none;
  created_at = 10;
  processed_at = none;
}

abbrev outbox : OutboxDb ℕ
outbox = record {
  now = 100;
  next_id = 4;
  rows = outbox_row 1 0 ∷ outbox_row 2 4 ∷ outbox_row 3 0 ∷ [];
  dead_letters = [];
}

-- row 2 cannot be applied
abbrev options : OutboxRelayOptions ℕ ℕ
options = record {
  apply = λ row n. (if row.outbox_id == 2 then threw (str "boom") else ok tt, n + 1);
  batch_size = some 2;
  max_attempts = none;
  pipeline = "rating";
  stage = "publish";
}

abbrev free : OutboxRow ℕ → Bool
free row = true

abbrev inserts : List (OutboxInsert ℕ)
inserts = record { aggregate_id = "product"; op = "rating.changed"; payload = 7 } ∷ []

ids-IsDistinct : IsDistinct outbox.rows
ids-IsDistinct = ground arith

insert_outbox_rows_lem_example : insert_outbox_rows inserts outbox ≡ insert_chunk inserts outbox
insert_outbox_rows_lem_example = insert_outbox_rows_lem inserts outbox

relay_outbox_batch-Marked_example :
    Marked options 100 0
      (claimed_rows options free outbox)
      (relay_outbox_batch options free outbox 0).1
relay_outbox_batch-Marked_example = relay_outbox_batch-Marked options free outbox 0 ids-IsDistinct
