-- ===== src/Reviews/Moderated.antt =====
-- A moderation transition: the invariant, and what it does to the review.
use cloudtalk_tech_task.Base.{
  String, false, Option, none, some, ◌≡◌, refl, inl, inr, Bool-cases, Option-cases, arith,
}
use cloudtalk_tech_task.Sql.{first_where}
use cloudtalk_tech_task.Sql.Laws.{
  update_where_missed, first_where-and, first_where-update_hit, first_where_sound,
}
use cloudtalk_tech_task.Sql.Io.{World, settle}
use cloudtalk_tech_task.Reviews.Store.{
  state_eq, ReviewRow, ReviewDb, has_token, emit_rating_recompute,
}
use cloudtalk_tech_task.Reviews.Change.{
  TargetState, target_of, is_in_state, moderated_row, moderate_statement, moderation_row,
  read_moderation_row, moderated_returned, moderate_transaction, moderate_read,
  set_review_moderation_state,
}
use cloudtalk_tech_task.Reviews.Rating.Laws.{Only, counted-update_where}
use cloudtalk_tech_task.Reviews.Rating.Scheduled.{IsScheduled, emit_rating_recompute-IsScheduled}
use cloudtalk_tech_task.Reviews.Upkeep.{KeepsScheduled, KeepsProduct, narrowed}

module _ {E : Type 0} where
  -- A transition that another one has forestalled writes nothing, whatever the second read finds.
  raced_lem :
      (token : String) (target : TargetState) (before : ReviewRow) (o : Option ReviewRow)
      (w : World ReviewDb E)
      → first_where (has_token token) w.db.reviews ≡ o
      → (settle w.db (moderated_returned token target before none w)).1.db ≡ w.db
  unfolding moderated_returned read_moderation_row
  raced_lem token target before none w e = rw (e, moderation_row)
  raced_lem token target before (some row) w e = rw (e, moderation_row)

  moderate_transaction-IsScheduled :
      (token : String) (target : TargetState) (before : ReviewRow) (w : World ReviewDb E)
      → Only before.product_id (has_token token) w.db.reviews
      → IsScheduled w.db
      → IsScheduled (moderate_transaction token target before w).1.db
  unfolding moderate_transaction moderate_statement
  moderate_transaction-IsScheduled token target before w only h =
      let chosen = is_in_state token before.state in
      elim (Option-cases (first_where chosen w.db.reviews)) [
        | inl e ↦
            rw
              (
                e,
                update_where_missed chosen (moderated_row (target_of target) w.db.outbox.now)
                    w.db.reviews e,
              )
              (rw (raced_lem token target before _ w refl) h)
        | inr (row, e) ↦
            rw (e, moderated_returned)
              (emit_rating_recompute-IsScheduled before.product_id _ w.db
                (λ other ne.
                  counted-update_where other before.product_id chosen
                    (moderated_row (target_of target) w.db.outbox.now) w.db.reviews ne (λ y. refl)
                    (narrowed before.product_id token chosen w.db.reviews (λ y k. ground arith)
                      only))
                h)
      ]

  -- If every product's rating is right or has a pending event before a moderation transition,
  -- and what other connections commit keeps that and leaves the rows of the token with their
  -- product, then so it is afterwards, on every outcome.
  pub set_review_moderation_state-IsScheduled :
      (elsewhere : ReviewDb → ReviewDb) (token : String) (target : TargetState)
      (w : World ReviewDb E)
      → KeepsProduct token w.db (elsewhere w.db)
      → KeepsScheduled elsewhere
      → IsScheduled w.db
      → IsScheduled (set_review_moderation_state elsewhere token target w).1.db
  unfolding set_review_moderation_state read_moderation_row
  set_review_moderation_state-IsScheduled elsewhere token target w same kept h =
      elim (Option-cases (first_where (has_token token) w.db.reviews)) [
        | inl e ↦ rw (e, moderation_row) h
        | inr (row, e) ↦ elim (Bool-cases (state_eq row.state (target_of target))) [
          | inl there ↦ rw (e, moderation_row) (rw (there, moderate_read) h)
          | inr away ↦
              rw (e, moderation_row)
                (rw (away, moderate_read)
                  (moderate_transaction-IsScheduled token target row
                    (record w { db = elsewhere w.db }) (same row e) (kept w.db h)))
        ]
      ]

  -- Where no other connection interferes, a moderation transition of a review that is in
  -- another state changes its state and its updated_at, which the interface reads as an edit,
  -- and nothing else.
  pub set_review_moderation_state-edits :
      (token : String) (target : TargetState) (w : World ReviewDb E) {row : ReviewRow}
      → first_where (has_token token) w.db.reviews ≡ some row
      → state_eq row.state (target_of target) ≡ false
      → first_where
          (has_token token)
          (set_review_moderation_state (λ db. db) token target w).1.db.reviews
        ≡ some (record row { state = target_of target; updated_at = w.db.outbox.now })
  unfolding set_review_moderation_state read_moderation_row moderate_read moderate_transaction
      moderate_statement moderated_returned emit_rating_recompute
  set_review_moderation_state-edits token target w {row} e away =
      rw (e, moderation_row)
        (rw
          (
            away,
            first_where-and (has_token token) (λ r. state_eq r.state row.state) w.db.reviews e
                (ground arith),
          )
          (first_where-update_hit (has_token token) (is_in_state token row.state) _ w.db.reviews
            (λ y. refl) e (ground (arith, first_where_sound (has_token token) w.db.reviews e))))
