-- ===== src/Reviews/Upkeep.antt =====
-- Every operation on the reviews keeps the rating projection right or its recomputation scheduled.
use cloudtalk_tech_task.Base.{
  String, Bool, true, Option, none, some, List, [], ◌∷◌, ◌≡◌, refl, inl, inr, str_eq, any,
  Bool-cases, Option-cases, arith,
}
use cloudtalk_tech_task.Sql.{first_where}
use cloudtalk_tech_task.Sql.Io.{World}
use cloudtalk_tech_task.Reviews.Store.{ProductRow, ReviewRow, ReviewDb, has_token}
use cloudtalk_tech_task.Reviews.Submit.{
  SubmitReviewInput, is_replay, new_review, Gap, before_claim, submit_review,
}
use cloudtalk_tech_task.Reviews.Submit.Outcomes.{claim_spec, product_spec, submit_review_lem}
use cloudtalk_tech_task.Reviews.Change.{
  UpdateReviewInput, RemoveReviewInput, is_owned, edited_row, update_statement, delete_statement,
  owner_checked, resolve_review_product_for_owner, updated_returned, update_transaction,
  update_review, removed_returned, remove_transaction, remove_review,
}
use cloudtalk_tech_task.Reviews.Rating.Laws.{
  Only, counted-append, counted-update_where, counted-delete_where,
}
use cloudtalk_tech_task.Reviews.Rating.Scheduled.{IsScheduled, emit_rating_recompute-IsScheduled}

-- Other connections run operations that keep the invariant themselves.
abbrev pub KeepsScheduled : (ReviewDb → ReviewDb) → Type 0
KeepsScheduled change = (db : ReviewDb) → IsScheduled db → IsScheduled (change db)

-- A token is unique and no statement changes a review's product, so that what other connections
-- commit leaves the rows of the token with the product that was read.
abbrev pub KeepsProduct : String → ReviewDb → ReviewDb → Type 0
KeepsProduct token before after =
    (row : ReviewRow)
    → first_where (has_token token) before.reviews ≡ some row
    → Only row.product_id (has_token token) after.reviews

-- A condition that asks for the token picks no more rows than the token.
pub narrowed :
    (product_id token : String) (u : ReviewRow → Bool) (reviews : List ReviewRow)
    → ((y : ReviewRow) → u y ≡ true → has_token token y ≡ true)
    → Only product_id (has_token token) reviews
    → Only product_id u reviews
narrowed product_id token u [] k only = tt
narrowed product_id token u (r ∷ reviews) k (o, only) =
    (λ h. o (k r h), narrowed product_id token u reviews k only)

module _ {E : Type 0} where
  submit_claim-IsScheduled :
      (elsewhere : Gap → ReviewDb → ReviewDb) (token : String) (input : SubmitReviewInput)
      (product_id : String) (o : Option ReviewRow) (w : World ReviewDb E)
      → IsScheduled w.db
      → IsScheduled (claim_spec elsewhere token input product_id o w).1.db
  submit_claim-IsScheduled elsewhere token input product_id (some row) w h =
      elim (Bool-cases (is_replay row input)) [ inl same ↦ rw same h | inr other ↦ rw other h ]
  submit_claim-IsScheduled elsewhere token input product_id none w h =
      elim (Bool-cases (any (has_token token) w.db.reviews)) [
        | inl taken ↦ rw taken h
        | inr free ↦ rw free (
            emit_rating_recompute-IsScheduled product_id _ w.db
              (λ other ne.
                counted-append other (new_review token product_id input w.db.outbox.now)
                  w.db.reviews ne)
              h)
      ]

  submit_product-IsScheduled :
      (elsewhere : Gap → ReviewDb → ReviewDb) (token : String) (input : SubmitReviewInput)
      (product_id : String) (o : Option ReviewRow) (w : World ReviewDb E)
      → KeepsScheduled (elsewhere before_claim)
      → IsScheduled w.db
      → IsScheduled (product_spec elsewhere token input product_id o w).1.db
  submit_product-IsScheduled elsewhere token input product_id (some row) w kept h =
      submit_claim-IsScheduled elsewhere token input product_id (some row) w h
  submit_product-IsScheduled elsewhere token input product_id none w kept h =
      submit_claim-IsScheduled elsewhere token input product_id _
        (record w { db = elsewhere before_claim w.db }) (kept w.db h)

  -- If every product's rating is right or has a pending event before a submission, and what
  -- other connections commit keeps that, then so it is afterwards, on every outcome.
  pub submit_review-IsScheduled :
      (elsewhere : Gap → ReviewDb → ReviewDb) (token : String) (input : SubmitReviewInput)
      (w : World ReviewDb E)
      → KeepsScheduled (elsewhere before_claim)
      → IsScheduled w.db
      → IsScheduled (submit_review elsewhere token input w).1.db
  submit_review-IsScheduled elsewhere token input w kept h =
      rw (submit_review_lem elsewhere token input w)
        (elim (Option-cases
          (first_where (λ (p : ProductRow). str_eq p.slug input.product_slug) w.db.products)) [
            | inl e ↦ rw e h
            | inr (p, e) ↦
                rw e (submit_product-IsScheduled elsewhere token input p.product_id _ w kept h)
          ])

  update_transaction-IsScheduled :
      (input : UpdateReviewInput) (product_id : String) (w : World ReviewDb E)
      → Only product_id (has_token input.review_token) w.db.reviews
      → IsScheduled w.db
      → IsScheduled (update_transaction input product_id w).1.db
  unfolding update_transaction update_statement
  update_transaction-IsScheduled input product_id w only h =
      let owned = is_owned input.review_token input.author_id in
      elim (Option-cases (first_where owned w.db.reviews)) [
        | inl e ↦ rw (e, updated_returned) h
        | inr (row, e) ↦
            rw (e, updated_returned)
              (emit_rating_recompute-IsScheduled product_id _ w.db
                (λ other ne.
                  counted-update_where other product_id owned (edited_row input w.db.outbox.now)
                    w.db.reviews ne (λ y. refl)
                    (narrowed product_id input.review_token owned w.db.reviews (λ y k. ground arith)
                      only))
                h)
      ]

  -- If every product's rating is right or has a pending event before an edit, and what other
  -- connections commit keeps that and leaves the rows of the token with their product, then so
  -- it is afterwards, on every outcome.
  pub update_review-IsScheduled :
      (elsewhere : ReviewDb → ReviewDb) (input : UpdateReviewInput) (w : World ReviewDb E)
      → KeepsProduct input.review_token w.db (elsewhere w.db)
      → KeepsScheduled elsewhere
      → IsScheduled w.db
      → IsScheduled (update_review elsewhere input w).1.db
  unfolding update_review resolve_review_product_for_owner
  update_review-IsScheduled elsewhere input w same kept h =
      elim (Option-cases (first_where (has_token input.review_token) w.db.reviews)) [
        | inl e ↦ rw (e, owner_checked) h
        | inr (row, e) ↦ elim (Bool-cases (str_eq row.author_id input.author_id)) [
          | inr foreign ↦ rw (e, owner_checked) (rw foreign h)
          | inl mine ↦
              rw (e, owner_checked)
                (rw mine (
                  update_transaction-IsScheduled input row.product_id
                    (record w { db = elsewhere w.db }) (same row e) (kept w.db h)))
        ]
      ]

  remove_transaction-IsScheduled :
      (input : RemoveReviewInput) (product_id : String) (w : World ReviewDb E)
      → Only product_id (has_token input.review_token) w.db.reviews
      → IsScheduled w.db
      → IsScheduled (remove_transaction input product_id w).1.db
  unfolding remove_transaction delete_statement
  remove_transaction-IsScheduled input product_id w only h =
      let owned = is_owned input.review_token input.author_id in
      elim (Option-cases (first_where owned w.db.reviews)) [
        | inl e ↦ rw (e, removed_returned) h
        | inr (row, e) ↦
            rw (e, removed_returned)
              (emit_rating_recompute-IsScheduled product_id _ w.db
                (λ other ne. counted-delete_where other product_id owned w.db.reviews ne (
                  narrowed product_id input.review_token owned w.db.reviews (λ y k. ground arith)
                    only))
                h)
      ]

  -- If every product's rating is right or has a pending event before a deletion, and what
  -- other connections commit keeps that and leaves the rows of the token with their product,
  -- then so it is afterwards, on every outcome.
  pub remove_review-IsScheduled :
      (elsewhere : ReviewDb → ReviewDb) (input : RemoveReviewInput) (w : World ReviewDb E)
      → KeepsProduct input.review_token w.db (elsewhere w.db)
      → KeepsScheduled elsewhere
      → IsScheduled w.db
      → IsScheduled (remove_review elsewhere input w).1.db
  unfolding remove_review resolve_review_product_for_owner
  remove_review-IsScheduled elsewhere input w same kept h =
      elim (Option-cases (first_where (has_token input.review_token) w.db.reviews)) [
        | inl e ↦ rw (e, owner_checked) h
        | inr (row, e) ↦ elim (Bool-cases (str_eq row.author_id input.author_id)) [
          | inr foreign ↦ rw (e, owner_checked) (rw foreign h)
          | inl mine ↦
              rw (e, owner_checked)
                (rw mine (
                  remove_transaction-IsScheduled input row.product_id
                    (record w { db = elsewhere w.db }) (same row e) (kept w.db h)))
        ]
      ]
