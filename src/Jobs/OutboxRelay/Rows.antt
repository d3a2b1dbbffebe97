-- ===== src/Jobs/OutboxRelay/Rows.antt =====
-- One pass of the relay: every claimed row gets exactly one mark, and its failure is its own.
use cloudtalk_tech_task.Base.{
  sym, ℕ, ◌+◌, ◌≤◌, Bool, Option, some, List, [], ◌∷◌, ◌≡◌, refl, ◌≢◌, inl, inr, leb, ◌&&◌, arith,
  if◌then◌else◌, length, Bool-cases, or_default, length-take,
}
use cloudtalk_tech_task.Kernel.Describe.{describe_error}
use cloudtalk_tech_task.Jobs.Attempts.{truncate_reason}
use cloudtalk_tech_task.Sql.{select_where, first_where, update_where}
use cloudtalk_tech_task.Sql.Laws.{
  first_where_sound, first_where-update_hit, first_where-update_miss,
}
use cloudtalk_tech_task.Sql.Io.{Outcome, ok, threw}
use cloudtalk_tech_task.Jobs.Outbox.{
  OutboxRow, OutboxDb, has_id, is_pending_row, write_outbox_dead_letter, default_batch_size,
  default_max_attempts, dead, processed,
}
use cloudtalk_tech_task.Jobs.OutboxRelay.{
  OutboxRelayOptions, RelayState, mark_processed, mark_dead, mark_failed, max_attempts_of,
  row_failed, row_settled, relay_row, relay_rows, claimed_rows, pass_start, relay_outbox_batch,
}

abbrev pub row_of : {Json : Type 0} → ℕ → OutboxDb Json → Option (OutboxRow Json)
row_of id db = first_where (has_id id) db.rows

module _ {Json E : Type 0} (options : OutboxRelayOptions Json E) where
  -- What a pass makes of a row that it claimed at the time `now`, from what `apply` answered for it.
  abbrev pub marked : ℕ → Outcome (Unit {0}) → OutboxRow Json → OutboxRow Json
  marked now (ok u) row = record row { status = processed; processed_at = some now }
  marked now (threw e) row =
      let reason = some (truncate_reason (describe_error e)) in
      if leb (or_default options.max_attempts default_max_attempts) (row.attempts + 1)
      then record row { status = dead; attempts = row.attempts + 1; last_error = reason }
      else record row { attempts = row.attempts + 1; last_error = reason }

  relay_row_counts :
      (row : OutboxRow Json) (st : RelayState Json E)
      → let st' = relay_row options row st in
        st'.processed + st'.failed + st'.parked ≡ st.processed + st.failed + st.parked + 1
  unfolding relay_row
  relay_row_counts row st = ground arith

  relay_rows_counts :
      (rows : List (OutboxRow Json)) (st : RelayState Json E)
      → let st' = relay_rows options rows st in
        st'.processed + st'.failed + st'.parked ≡ st.processed + st.failed + st.parked + length rows
  unfolding relay_rows
  relay_rows_counts [] st = omega arith
  relay_rows_counts (row ∷ rows) st =
      omega (arith, relay_row_counts row st, relay_rows_counts rows (relay_row options row st))

  -- The report of a pass accounts for every claimed row, once, and the pass claims no more
  -- than a batch.
  pub relay_outbox_batch_counts :
      (free : OutboxRow Json → Bool) (db : OutboxDb Json) (ext : E)
      → let report = (relay_outbox_batch options free db ext).0 in
        (report.processed + report.failed + report.parked ≡ report.claimed)
        × (report.claimed ≤ or_default options.batch_size default_batch_size)
  unfolding relay_outbox_batch
  relay_outbox_batch_counts free db ext = (
    omega (arith, relay_rows_counts (claimed_rows options free db) (pass_start options db ext)),
    omega (
      arith,
      length-take (or_default options.batch_size default_batch_size)
          (select_where (λ r. is_pending_row r && free r) db.rows),
    ),
  )

  -- What settling a row does to the table: one UPDATE by the row's id, which marks the row.
  abbrev pub Settles : OutboxRow Json → Outcome (Unit {0}) → OutboxDb Json → OutboxDb Json → Type 0
  Settles row o db db' =
      (f : OutboxRow Json → OutboxRow Json) × (db'.rows
        ≡ update_where (has_id row.outbox_id) f db.rows)
      × ((r : OutboxRow Json) → (f r).outbox_id ≡ r.outbox_id)
      × (f row ≡ marked db.now o row)
      × (db'.now ≡ db.now)

  row_settled-Settles :
      (row : OutboxRow Json) (o : Outcome (Unit {0})) (st : RelayState Json E)
      → Settles row o st.db (row_settled options row o st).db
  unfolding row_settled write_outbox_dead_letter
  row_settled-Settles row (ok u) st = (mark_processed st.db.now, refl, λ r. refl, refl, refl)
  row_settled-Settles row (threw e) st =
      elim (Bool-cases (leb (max_attempts_of options) (row.attempts + 1))) [
        | inl last ↦ (
          mark_dead (row.attempts + 1) e,
          rw (last, row_failed) (ground arith),
          λ r. refl,
          rw last,
          rw (last, row_failed) (ground arith),
        )
        | inr more ↦ (
          mark_failed (row.attempts + 1) e,
          rw (more, row_failed),
          λ r. refl,
          rw more,
          rw (more, row_failed),
        )
      ]

  row_settled-ext :
      (row : OutboxRow Json) (o : Outcome (Unit {0})) (st : RelayState Json E)
      → (row_settled options row o st).ext ≡ st.ext
  unfolding row_settled row_failed
  row_settled-ext row (ok u) st = refl
  row_settled-ext row (threw e) st =
      elim (Bool-cases (leb (max_attempts_of options) (row.attempts + 1))) [
        | inl last ↦ rw last
        | inr more ↦ rw more
      ]

  -- The world outside after a row is what `apply` left.
  pub relay_row-ext :
      (row : OutboxRow Json) (st : RelayState Json E)
      → (relay_row options row st).ext ≡ (options.apply row st.ext).1
  unfolding relay_row
  relay_row-ext row st =
      row_settled-ext row (options.apply row st.ext).0
        (record st { ext = (options.apply row st.ext).1 })

  pub relay_row-Settles :
      (row : OutboxRow Json) (st : RelayState Json E)
      → Settles row (options.apply row st.ext).0 st.db (relay_row options row st).db
  unfolding relay_row
  relay_row-Settles row st =
      row_settled-Settles row (options.apply row st.ext).0
        (record st { ext = (options.apply row st.ext).1 })

  pub relay_row-this :
      (row : OutboxRow Json) (st : RelayState Json E)
      → row_of row.outbox_id st.db ≡ some row
      → row_of row.outbox_id (relay_row options row st).db
        ≡ some (marked st.db.now (options.apply row st.ext).0 row)
  relay_row-this row st h =
      let (f, rows, same_id, mark, same_now) = relay_row-Settles row st in
      rw (rows, sym mark)
        (first_where-update_hit (has_id row.outbox_id) (has_id row.outbox_id) f st.db.rows
          (λ r. rw (same_id r)) h (ground arith))

  pub relay_row-other :
      (row : OutboxRow Json) (st : RelayState Json E) (id : ℕ) {r : OutboxRow Json}
      → row.outbox_id ≢ id
      → row_of id st.db ≡ some r
      → row_of id (relay_row options row st).db ≡ some r
  relay_row-other row st id {r} ne h =
      let (f, rows, same_id, mark, same_now) = relay_row-Settles row st in
      rw rows (
        first_where-update_miss (has_id id) (has_id row.outbox_id) f st.db.rows
          (λ r. rw (same_id r)) h (ground (arith, first_where_sound (has_id id) st.db.rows h)))
