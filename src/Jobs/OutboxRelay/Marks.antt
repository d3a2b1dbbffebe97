-- ===== src/Jobs/OutboxRelay/Marks.antt =====
-- Every row that a pass claims is marked once, and every other row is left as it was.
use cloudtalk_tech_task.Base.{
  ℕ, zero, suc, Bool, some, List, [], ◌∷◌, ◌≡◌, ◌≢◌, sym, inl, inr, ◌&&◌, arith, take, All,
  Bool-cases, or_default, All-take,
}
use cloudtalk_tech_task.Sql.{select_where, first_where}
use cloudtalk_tech_task.Sql.Laws.{All-select_where}
use cloudtalk_tech_task.Jobs.Outbox.{
  OutboxRow, OutboxDb, has_id, is_pending_row, default_batch_size,
}
use cloudtalk_tech_task.Jobs.OutboxRelay.{
  OutboxRelayOptions, RelayState, relay_row, relay_rows, claimed_rows, pass_start,
  relay_outbox_batch,
}
use cloudtalk_tech_task.Jobs.OutboxRelay.Rows.{
  marked, row_of, relay_row-Settles, relay_row-ext, relay_row-this, relay_row-other,
}

module _ {Json : Type 0} where
  abbrev pub NotIn : ℕ → List (OutboxRow Json) → Type 0
  NotIn id = All (λ r. r.outbox_id ≢ id)

  abbrev pub IsDistinct : List (OutboxRow Json) → Type 0
  IsDistinct [] = Unit
  IsDistinct (r ∷ rs) = NotIn r.outbox_id rs × IsDistinct rs

  -- the rows as the pass claimed them, still in the table
  abbrev pub Present : List (OutboxRow Json) → List (OutboxRow Json) → Type 0
  Present rows table = All (λ r. first_where (has_id r.outbox_id) table ≡ some r) rows

  Present-cons :
      (r : OutboxRow Json) (rows table : List (OutboxRow Json))
      → NotIn r.outbox_id rows
      → Present rows table
      → Present rows (r ∷ table)
  Present-cons r [] table ne h = tt
  Present-cons r (x ∷ rows) table (n, ne) (p, h) = (ground arith, Present-cons r rows table ne h)

  Present-self : (rows : List (OutboxRow Json)) → IsDistinct rows → Present rows rows
  Present-self [] d = tt
  Present-self (r ∷ rows) (ne, d) =
      (ground arith, Present-cons r rows rows ne (Present-self rows d))

  IsDistinct-select_where :
      (p : OutboxRow Json → Bool) (rows : List (OutboxRow Json))
      → IsDistinct rows
      → IsDistinct (select_where p rows)
  IsDistinct-select_where p [] d = tt
  IsDistinct-select_where p (r ∷ rows) (ne, d) = elim (Bool-cases (p r)) [
    | inl chosen ↦ rw chosen (All-select_where _ p rows ne, IsDistinct-select_where p rows d)
    | inr passed ↦ rw passed (IsDistinct-select_where p rows d)
  ]

  IsDistinct-take :
      (n : ℕ) (rows : List (OutboxRow Json)) → IsDistinct rows → IsDistinct (take n rows)
  IsDistinct-take zero rows d = tt
  IsDistinct-take (suc n) [] d = tt
  IsDistinct-take (suc n) (r ∷ rows) (ne, d) = (All-take _ n rows ne, IsDistinct-take n rows d)

module _ {Json E : Type 0} (options : OutboxRelayOptions Json E) where
  relay_rows-other :
      (rows : List (OutboxRow Json)) (st : RelayState Json E) (id : ℕ) {r : OutboxRow Json}
      → NotIn id rows
      → row_of id st.db ≡ some r
      → row_of id (relay_rows options rows st).db ≡ some r
  unfolding relay_rows
  relay_rows-other [] st id ne h = h
  relay_rows-other (row ∷ rows) st id (n, ne) h =
      relay_rows-other rows (relay_row options row st) id ne (relay_row-other options row st id n h)

  Present-relay_row :
      (row : OutboxRow Json) (rows : List (OutboxRow Json)) (st : RelayState Json E)
      → NotIn row.outbox_id rows
      → Present rows st.db.rows
      → Present rows (relay_row options row st).db.rows
  Present-relay_row row [] st ne h = tt
  Present-relay_row row (r ∷ rows) st (n, ne) (p, h) = (
    relay_row-other options row st r.outbox_id (λ e. n (sym e)) p,
    Present-relay_row row rows st ne h,
  )

  -- Each of the rows is marked by what `apply` answered for it, when it was called for one row after
  -- another from the world `ext` on.
  abbrev pub Marked : ℕ → E → List (OutboxRow Json) → OutboxDb Json → Type 0
  Marked now ext [] db = Unit
  Marked now ext (row ∷ rows) db =
      (row_of row.outbox_id db ≡ some (marked options now (options.apply row ext).0 row))
      × Marked now (options.apply row ext).1 rows db

  relay_rows-Marked :
      (rows : List (OutboxRow Json)) (st : RelayState Json E)
      → IsDistinct rows
      → Present rows st.db.rows
      → Marked st.db.now st.ext rows (relay_rows options rows st).db
  unfolding relay_rows
  relay_rows-Marked [] st d h = tt
  relay_rows-Marked (row ∷ rows) st (ne, d) (p, h) = (
    relay_rows-other rows (relay_row options row st) row.outbox_id ne
        (relay_row-this options row st p),
    rw ((relay_row-Settles options row st).4, relay_row-ext options row st) at
        (relay_rows-Marked rows (relay_row options row st) d (Present-relay_row row rows st ne h)),
  )

  -- After a pass over a table of distinct ids, every row that it claimed is what apply's
  -- answer for it makes of it, where apply was called once for each in their order: processed
  -- at the present time if apply returned, and if it threw, one attempt more with that error's
  -- description, and dead exactly if the attempts have reached the limit; everything else in
  -- the row is as it was.
  pub relay_outbox_batch-Marked :
      (free : OutboxRow Json → Bool) (db : OutboxDb Json) (ext : E)
      → IsDistinct db.rows
      → Marked db.now ext (claimed_rows options free db) (relay_outbox_batch options free db ext).1
  unfolding relay_outbox_batch
  relay_outbox_batch-Marked free db ext d =
      let n = or_default options.batch_size default_batch_size in
      let chosen = λ (r : OutboxRow Json). is_pending_row r && free r in
      relay_rows-Marked (claimed_rows options free db) (pass_start options db ext)
        (IsDistinct-take n (select_where chosen db.rows) (IsDistinct-select_where chosen db.rows d))
        (All-take _ n (select_where chosen db.rows)
          (All-select_where _ chosen db.rows (Present-self db.rows d)))

  -- A row that the pass did not claim is as it was.
  pub relay_outbox_batch-unclaimed :
      (free : OutboxRow Json → Bool) (db : OutboxDb Json) (ext : E) (id : ℕ) {r : OutboxRow Json}
      → NotIn id (claimed_rows options free db)
      → row_of id db ≡ some r
      → row_of id (relay_outbox_batch options free db ext).1 ≡ some r
  unfolding relay_outbox_batch
  relay_outbox_batch-unclaimed free db ext id ne h =
      relay_rows-other (claimed_rows options free db) (pass_start options db ext) id ne h
