-- ===== src/Reviews/Ownership.antt =====
-- The ownership guard of edits and deletions.
use cloudtalk_tech_task.Base.{String, some, ◌≡◌, ◌≢◌, inl, inr, str_eq-ne, Option-cases}
use cloudtalk_tech_task.Sql.{first_where}
use cloudtalk_tech_task.Sql.Io.{World, threw}
use cloudtalk_tech_task.Reviews.Store.{ReviewRow, ReviewDb, has_token, not_owned_error}
use cloudtalk_tech_task.Reviews.Change.{
  UpdateReviewInput, RemoveReviewInput, owner_checked, resolve_review_product_for_owner,
  update_review, remove_review,
}

-- The token is nobody's, or another author's.
abbrev pub IsForeign : String → String → ReviewDb → Type 0
IsForeign token author_id db =
    (row : ReviewRow)
    → first_where (has_token token) db.reviews ≡ some row
    → row.author_id ≢ author_id

module _ {E : Type 0} (elsewhere : ReviewDb → ReviewDb) (w : World ReviewDb E) where
  resolve_foreign :
      (token author_id : String)
      → IsForeign token author_id w.db
      → resolve_review_product_for_owner token author_id w ≡ (threw not_owned_error, w)
  unfolding resolve_review_product_for_owner
  resolve_foreign token author_id h =
      elim (Option-cases (first_where (has_token token) w.db.reviews)) [
        | inl e ↦ rw (e, owner_checked)
        | inr (row, e) ↦ rw (e, owner_checked) (rw (str_eq-ne row.author_id author_id (h row e)))
      ]

  -- An edit under a token that is nobody's, or another author's, is answered with the same
  -- ForbiddenError in both cases and writes nothing.
  pub update_review_foreign :
      (input : UpdateReviewInput)
      → IsForeign input.review_token input.author_id w.db
      → update_review elsewhere input w ≡ (threw not_owned_error, w)
  unfolding update_review
  update_review_foreign input h = rw (resolve_foreign input.review_token input.author_id h)

  -- A deletion under a token that is nobody's, or another author's, is answered with the same
  -- ForbiddenError in both cases and writes nothing.
  pub remove_review_foreign :
      (input : RemoveReviewInput)
      → IsForeign input.review_token input.author_id w.db
      → remove_review elsewhere input w ≡ (threw not_owned_error, w)
  unfolding remove_review
  remove_review_foreign input h = rw (resolve_foreign input.review_token input.author_id h)
