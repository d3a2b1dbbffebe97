-- ===== src/Jobs/Outbox/Produce.antt =====
-- The chunked INSERT of the producer is one INSERT of all rows.
use cloudtalk_tech_task.Base.{
  ℕ, zero, suc, ◌+◌, ◌≤◌, ◌<◌, List, [], ◌∷◌, ◌++◌, ◌≡◌, refl, ◌∙◌, sym, inl, inr, ltb, arith, ap,
  length, take, drop, Bool-cases, length-append, take-append-drop,
}
use mathlib.Core.List.{append-nil, append_assoc}
use cloudtalk_tech_task.Jobs.Outbox.{
  OutboxInsert, OutboxDb, new_row, new_rows, insert_chunk, insert_chunks, insert_outbox_rows,
}

module _ {Json : Type 0} where
  new_rows-append :
      (id now : ℕ) (xs ys : List (OutboxInsert Json))
      → new_rows id now (xs ++ ys) ≡ new_rows id now xs ++ new_rows (id + length xs) now ys
  new_rows-append id now [] ys = ap (λ n. new_rows n now ys) (omega arith)
  new_rows-append id now (x ∷ xs) ys =
      ap (λ r. new_row id now x ∷ r)
        (new_rows-append (suc id) now xs ys
          ∙ ap (λ n. new_rows (suc id) now xs ++ new_rows n now ys) (omega arith))

  insert_chunk-append :
      (xs ys : List (OutboxInsert Json)) (db : OutboxDb Json)
      → insert_chunk ys (insert_chunk xs db) ≡ insert_chunk (xs ++ ys) db
  unfolding insert_chunk
  insert_chunk-append xs ys db = ground (
    arith,
    new_rows-append db.next_id db.now xs ys,
    length-append {0} xs ys,
    append_assoc db.rows (new_rows db.next_id db.now xs)
        (new_rows (db.next_id + length xs) db.now ys),
  )

  insert_chunk-nil : (db : OutboxDb Json) → insert_chunk [] db ≡ db
  unfolding insert_chunk
  insert_chunk-nil db = ground (arith, append-nil db.rows)

  drop-all : (n : ℕ) (xs : List (OutboxInsert Json)) → length xs ≤ n → drop n xs ≡ []
  drop-all zero [] h = refl
  drop-all zero (x ∷ xs) h = absurd (omega arith)
  drop-all (suc n) [] h = refl
  drop-all (suc n) (x ∷ xs) h = drop-all n xs (omega arith)

  drop-nil : (n : ℕ) → drop {A = OutboxInsert Json} n [] ≡ []
  drop-nil zero = refl
  drop-nil (suc n) = refl

  drop-drop : (m n : ℕ) (xs : List (OutboxInsert Json)) → drop (m + n) xs ≡ drop n (drop m xs)
  drop-drop zero n xs = ap (λ k. drop k xs) (omega arith)
  drop-drop (suc m) n [] = drop-nil (suc m + n) ∙ sym (drop-nil n)
  drop-drop (suc m) n (x ∷ xs) =
      ap (λ k. drop k (x ∷ xs)) (let e : suc m + n ≡ suc (m + n) = omega arith in e)
      ∙ drop-drop m n xs

  insert_chunks_lem :
      (fuel start : ℕ) (rows : List (OutboxInsert Json)) (db : OutboxDb Json)
      → length rows < start + fuel
      → insert_chunks fuel start rows db ≡ insert_chunk (drop start rows) db
  unfolding insert_chunks
  insert_chunks_lem zero start rows db h =
      rw (drop-all start rows (omega arith)) (sym (insert_chunk-nil db))
  insert_chunks_lem (suc fuel) start rows db h = elim (Bool-cases (ltb start (length rows))) [
    | inl more ↦
        rw
          (
            more,
            insert_chunks_lem fuel (start + 1000) rows _ (omega arith),
            drop-drop start 1000 rows,
          )
          (insert_chunk-append (take 1000 (drop start rows)) (drop 1000 (drop start rows)) db
            ∙ ap (λ r. insert_chunk r db) (take-append-drop 1000 (drop start rows)))
    | inr done ↦ rw (done, drop-all start rows (ground arith)) (sym (insert_chunk-nil db))
  ]

  -- However many rows there are, inserting them in chunks is one INSERT of all of them in
  -- order: none is lost, none comes twice, and the ids follow one another.
  pub insert_outbox_rows_lem :
      (rows : List (OutboxInsert Json)) (db : OutboxDb Json)
      → insert_outbox_rows rows db ≡ insert_chunk rows db
  unfolding insert_outbox_rows
  insert_outbox_rows_lem rows db = insert_chunks_lem (suc (length rows)) 0 rows db (omega arith)
