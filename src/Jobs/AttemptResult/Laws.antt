-- ===== src/Jobs/AttemptResult/Laws.antt =====
-- The write-ahead row: the first result written is the one that every later attempt carries on.
use cloudtalk_tech_task.Base.{String, true, Option, none, some, ◌≡◌, refl, str_eq_refl, arith, ap}
use cloudtalk_tech_task.Sql.{first_where}
use cloudtalk_tech_task.Sql.Laws.{first_where-insert_unless_old, first_where-insert_unless_new}
use cloudtalk_tech_task.Sql.Io.{World, ok, threw}
use cloudtalk_tech_task.Jobs.Store.{Contract, StageResultRow, Db}
use cloudtalk_tech_task.Jobs.AttemptResult.{
  Codec, row_as_error, is_attempt, row_as, parse_row, read_attempt_result, insert_attempt_result,
  write_attempt_result,
}

module _ {Json : Type 0} where
  -- What the row of an attempt holds, if there is one.
  abbrev pub stored : String → String → Db Json → Option (StageResultRow Json)
  stored id token db = first_where (is_attempt id token) db.stage_results

  -- Other connections leave the row of the attempt alone: only retention deletes such rows.
  abbrev pub KeepsResults : String → String → (Db Json → Db Json) → Type 0
  KeepsResults id token change =
      (db : Db Json) (row : StageResultRow Json)
      → stored id token db ≡ some row
      → stored id token (change db) ≡ some row

  pub is_attempt_self :
      (id token : String) (r : StageResultRow Json)
      → r.instance_id ≡ id
      → r.attempt_token ≡ token
      → is_attempt id token r ≡ true
  is_attempt_self id token r e f = rw (e, f) (ground (arith, str_eq_refl id, str_eq_refl token))

module _ {Json E R : Type 0} (codec : Codec Json R) (id token : String) where
  pub read_attempt_result_bad :
      (w : World (Db Json) E) {row : StageResultRow Json}
      → stored id token w.db ≡ some row
      → codec.parse row.result ≡ none
      → read_attempt_result codec id token w ≡ (threw row_as_error, w)
  unfolding read_attempt_result
  read_attempt_result_bad w h k = rw (h, parse_row) (rw (k, row_as))

  pub read_attempt_result_lem :
      (w : World (Db Json) E) {row : StageResultRow Json} {v : R}
      → stored id token w.db ≡ some row
      → codec.parse row.result ≡ some v
      → read_attempt_result codec id token w ≡ (ok (some v), w)
  unfolding read_attempt_result
  read_attempt_result_lem w h k = rw (h, parse_row) (rw (k, row_as))

module _ {Json E R : Type 0} (codec : Codec Json R) (contract : Contract) (id token : String) where
  -- The world after the INSERT and what others commit before the row is read again.
  abbrev written : (Db Json → Db Json) → R → World (Db Json) E → World (Db Json) E
  written elsewhere result w = record w {
    db = elsewhere (insert_attempt_result id token (codec.encode result) w.db);
  }

  write_of_stored :
      (elsewhere : Db Json → Db Json) (w : World (Db Json) E) (result : R)
      {row : StageResultRow Json} {v : R}
      → stored id token (written elsewhere result w).db ≡ some row
      → codec.parse row.result ≡ some v
      → write_attempt_result codec elsewhere contract id token result w
        ≡ (ok v, written elsewhere result w)
  unfolding write_attempt_result
  write_of_stored elsewhere w result h k =
      rw (read_attempt_result_lem codec id token (written elsewhere result w) h k)

  -- A row that is there, and that other connections leave alone, decides the result.
  pub write_attempt_result_old :
      (elsewhere : Db Json → Db Json) (w : World (Db Json) E) (result : R)
      {row : StageResultRow Json} {v : R}
      → KeepsResults id token elsewhere
      → stored id token w.db ≡ some row
      → codec.parse row.result ≡ some v
      → (stored id token (written elsewhere result w).db ≡ some row)
        × (write_attempt_result codec elsewhere contract id token result w
            ≡ (ok v, written elsewhere result w))
  unfolding insert_attempt_result
  write_attempt_result_old elsewhere w result {row} kept h k =
      let there =
        kept (insert_attempt_result id token (codec.encode result) w.db) row
          (first_where-insert_unless_old (is_attempt id token) _ w.db.stage_results h) in
      (there, write_of_stored elsewhere w result there k)

  abbrev own_row : R → World (Db Json) E → StageResultRow Json
  own_row result w = record {
    instance_id = id;
    attempt_token = token;
    result = codec.encode result;
    created_at = w.db.now;
  }

  pub write_attempt_result_new :
      (elsewhere : Db Json → Db Json) (w : World (Db Json) E) (result : R)
      → codec.parse (codec.encode result) ≡ some result
      → KeepsResults id token elsewhere
      → stored id token w.db ≡ none
      → (stored id token (written elsewhere result w).db ≡ some (own_row result w))
        × (write_attempt_result codec elsewhere contract id token result w
            ≡ (ok result, written elsewhere result w))
  unfolding insert_attempt_result
  write_attempt_result_new elsewhere w result law kept h =
      let there =
        kept (insert_attempt_result id token (codec.encode result) w.db) (own_row result w) (
          first_where-insert_unless_new (is_attempt id token) (own_row result w) w.db.stage_results
            h (is_attempt_self id token (own_row result w) refl refl)) in
      (there, write_of_stored elsewhere w result there law)

  -- If nothing is stored for a token, results of the first writer read back as written, and
  -- other connections leave the row alone, then of two attempts that write a result for the
  -- token both carry on the result of the first.
  pub write_attempt_result_first :
      (elsewhere between elsewhere' : Db Json → Db Json) (w : World (Db Json) E) (first second : R)
      → codec.parse (codec.encode first) ≡ some first
      → KeepsResults id token elsewhere
      → KeepsResults id token between
      → KeepsResults id token elsewhere'
      → stored id token w.db ≡ none
      → ((write_attempt_result codec elsewhere contract id token first w).0 ≡ ok first)
        × ((write_attempt_result codec elsewhere' contract id token second (record w {
          db = between (write_attempt_result codec elsewhere contract id token first w).1.db;
        })).0
            ≡ ok first)
  write_attempt_result_first elsewhere between elsewhere' w first second law k₁ k₂ k₃ h =
      let (there, done) = write_attempt_result_new elsewhere w first law k₁ h in
      rw done (
        refl,
        ap (λ p. p.0)
            (write_attempt_result_old elsewhere'
              (record w { db = between (written elsewhere first w).db }) second k₃ (k₂ _ _ there)
              law).1,
      )
