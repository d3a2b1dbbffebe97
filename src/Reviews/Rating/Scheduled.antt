-- ===== src/Reviews/Rating/Scheduled.antt =====
-- The projection is right, or a recomputation is on its way: the invariant of every operation.
use cloudtalk_tech_task.Base.{
  String, Bool, true, List, [], ◌∷◌, ◌++◌, ◌≡◌, ◌≢◌, ◌⊎◌, ◌∙◌, sym, ap, inl, inr, str_eq,
  str_eq_refl, str_eq→eq, ◌&&◌, any, Bool-cases, arith,
}
use cloudtalk_tech_task.Kernel.Value.{plain, Value, obj, end}
use cloudtalk_tech_task.Sql.Laws.{any-append_self}
use cloudtalk_tech_task.Jobs.Outbox.{
  OutboxRow, OutboxInsert, OutboxDb, is_pending_row, new_row, insert_chunk,
}
use cloudtalk_tech_task.Jobs.Outbox.Produce.{insert_outbox_rows_lem}
use cloudtalk_tech_task.Reviews.Store.{
  ReviewRow, ReviewDb, rating_recompute_op, emit_rating_recompute,
}
use cloudtalk_tech_task.Reviews.Rating.{
  aggregate, length_of, sum_ratings, average_of, apply_rating_recompute,
}
use cloudtalk_tech_task.Reviews.Rating.Laws.{rating_of, SameFor, apply_rating_recompute_lem}

-- a pending event for the product
abbrev pub is_recompute : String → OutboxRow Value → Bool
is_recompute product_id o =
    str_eq o.aggregate_id product_id && str_eq o.op rating_recompute_op && is_pending_row o

-- For every product the projection shows what the published reviews say, or there is a pending
-- event that asks for its recomputation.
abbrev pub IsScheduled : ReviewDb → Type 0
IsScheduled db =
    (product_id : String)
    → (rating_of product_id db.ratings ≡ aggregate product_id db.reviews)
      ⊎ (any (is_recompute product_id) db.outbox.rows ≡ true)

any-append :
    (p : OutboxRow Value → Bool) (xs ys : List (OutboxRow Value))
    → any p xs ≡ true
    → any p (xs ++ ys) ≡ true
any-append p [] ys h = ground arith
any-append p (x ∷ xs) ys h = ground (arith, any-append p xs ys)

abbrev event : String → OutboxInsert Value
event product_id = record {
  aggregate_id = product_id;
  op = rating_recompute_op;
  payload = obj plain end;
}

emitted_rows :
    (product_id : String) (db : ReviewDb)
    → (emit_rating_recompute product_id db).outbox.rows
      ≡ db.outbox.rows ++ new_row db.outbox.next_id db.outbox.now (event product_id) ∷ []
unfolding emit_rating_recompute insert_chunk
emitted_rows product_id db =
    ap (λ (o : OutboxDb Value). o.rows) (insert_outbox_rows_lem (event product_id ∷ []) db.outbox)

-- A change of the reviews of one product, and its event, keep the invariant.
pub emit_rating_recompute-IsScheduled :
    (product_id : String) (reviews : List ReviewRow) (db : ReviewDb)
    → ((other : String) → product_id ≢ other → SameFor other db.reviews reviews)
    → IsScheduled db
    → IsScheduled (emit_rating_recompute product_id (record db { reviews = reviews }))
unfolding emit_rating_recompute
emit_rating_recompute-IsScheduled product_id reviews db same h other =
    elim (Bool-cases (str_eq product_id other)) [
      | inl this ↦ inr (
          rw (emitted_rows product_id db) (
            any-append_self (is_recompute other)
              (new_row db.outbox.next_id db.outbox.now (event product_id)) db.outbox.rows
              (ground (arith, this, str_eq_refl rating_recompute_op))))
      | inr another ↦ elim (h other) [
        | inl right ↦ inl (
            right
            ∙ ap (λ rows. (length_of rows, average_of (length_of rows) (sum_ratings rows)))
                (sym (same other (λ e. ground (arith, str_eq_refl product_id)))))
        | inr asked ↦ inr (
            rw (emitted_rows product_id db)
              (any-append (is_recompute other) db.outbox.rows _ asked))
      ]
    ]

-- If every product's rating is right or has a pending event before a recomputation, then so it
-- is afterwards.
pub apply_rating_recompute-IsScheduled :
    (product_id : String) (db : ReviewDb)
    → IsScheduled db
    → IsScheduled (apply_rating_recompute product_id db)
unfolding apply_rating_recompute
apply_rating_recompute-IsScheduled product_id db h other =
    elim (Bool-cases (str_eq product_id other)) [
      | inl this ↦ inl (
          rw (sym (str_eq→eq product_id other this)) ((apply_rating_recompute_lem product_id db).0))
      | inr another ↦ elim (h other) [
        | inl right ↦ inl (
            (apply_rating_recompute_lem product_id db).1 other
              (λ e. ground (arith, str_eq_refl product_id))
            ∙ right)
        | inr asked ↦ inr asked
      ]
    ]
