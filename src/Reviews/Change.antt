-- ===== src/Reviews/Change.antt =====
-- `updateReview` and `removeReview` of packages/reviews/src/reviews.ts, with
-- internal/resolve-review-owner.ts, and `setReviewModerationState` of moderation.ts. `elsewhere` is
-- what other connections commit between the first read and the transaction. The table's trigger
-- moves `updated_at` at every UPDATE.
use cloudtalk_tech_task.Base.{
  ℕ, String, Bool, Option, none, some, str_eq, ◌&&◌, ◌&◌, not, if◌then◌else◌, or_default,
}
use cloudtalk_tech_task.Kernel.Errors.{no_options, not_found_error}
use cloudtalk_tech_task.Sql.{first_where, update_where, delete_where}
use cloudtalk_tech_task.Sql.Io.{Io, return, throw, query, execute, transaction, ◌>>=◌, ◌>>◌}
use cloudtalk_tech_task.Reviews.Store.{
  ModerationState, published, rejected, state_eq, ReviewRow, ReviewDb, has_token, not_owned_error,
  emit_rating_recompute,
}

pub record UpdateReviewInput : Type 0 where
  pub review_token : String
  pub author_id : String
  pub rating : Option ℕ
  pub title : Option String
  pub body : Option String

pub record RemoveReviewInput : Type 0 where
  pub review_token : String
  pub author_id : String

pub data TargetState : Type 0 where
  to_published to_rejected : TargetState

-- `reviewModerationStateIdFor`
abbrev pub target_of : TargetState → ModerationState
target_of to_published = published
target_of to_rejected = rejected

pub record ReviewModerationRecord : Type 0 where
  pub token : String
  pub rating : ℕ
  pub title : String
  pub body : String
  pub author_id : String
  pub moderation_state : TargetState
  pub created_at : ℕ
  pub updated_at : ℕ

abbrev pub is_owned : String → String → ReviewRow → Bool
is_owned token author_id r = str_eq r.token token && str_eq r.author_id author_id

abbrev pub edited_row : UpdateReviewInput → ℕ → ReviewRow → ReviewRow
edited_row input now r = record r {
  rating = or_default input.rating r.rating;
  title = or_default input.title r.title;
  body = or_default input.body r.body;
  updated_at = now;
}

abbrev pub is_in_state : String → ModerationState → ReviewRow → Bool
is_in_state token state r = str_eq r.token token && state_eq r.state state

abbrev pub moderated_row : ModerationState → ℕ → ReviewRow → ReviewRow
moderated_row state now r = record r { state = state; updated_at = now }

abbrev pub to_moderation_record : TargetState → ReviewRow → ReviewModerationRecord
to_moderation_record target r = record {
  token = r.token;
  rating = r.rating;
  title = r.title;
  body = r.body;
  author_id = r.author_id;
  moderation_state = target;
  created_at = r.created_at;
  updated_at = r.updated_at;
}

unfoldable pub update_statement : UpdateReviewInput → ReviewDb → ReviewDb
update_statement input db = record db {
  reviews =
      update_where (is_owned input.review_token input.author_id) (edited_row input db.outbox.now)
        db.reviews;
}

unfoldable pub delete_statement : RemoveReviewInput → ReviewDb → ReviewDb
delete_statement input db = record db {
  reviews = delete_where (is_owned input.review_token input.author_id) db.reviews;
}

unfoldable pub moderate_statement : String → ModerationState → ModerationState → ReviewDb → ReviewDb
moderate_statement token before target db = record db {
  reviews = update_where (is_in_state token before) (moderated_row target db.outbox.now) db.reviews;
}

module _ {E : Type 0} where
  unfoldable pub owner_checked : String → Option ReviewRow → Io ReviewDb E String
  owner_checked author_id none = throw not_owned_error
  owner_checked author_id (some row) =
      if not (str_eq row.author_id author_id) then throw not_owned_error else return row.product_id

  unfoldable pub resolve_review_product_for_owner : String → String → Io ReviewDb E String
  unfolding owner_checked
  resolve_review_product_for_owner token author_id = do
    row ← query (λ db. first_where (has_token token) db.reviews)
    owner_checked author_id row

  -- what follows an UPDATE, by the row that it returned
  unfoldable pub updated_returned :
      UpdateReviewInput → String → Option ReviewRow → Io ReviewDb E ReviewRow
  updated_returned input product_id none = throw not_owned_error
  updated_returned input product_id (some before) = do
    now ← query (λ db. db.outbox.now)
    execute (emit_rating_recompute product_id)
    return (edited_row input now before)

  unfoldable pub update_transaction : UpdateReviewInput → String → Io ReviewDb E ReviewRow
  unfolding updated_returned update_statement
  update_transaction input product_id = transaction do
    returned ← query (λ db. first_where (is_owned input.review_token input.author_id) db.reviews)
    execute (update_statement input)
    updated_returned input product_id returned

  -- The row comes back as it is after the UPDATE; the record that is answered is a part of it.
  unfoldable pub update_review : (ReviewDb → ReviewDb) → UpdateReviewInput → Io ReviewDb E ReviewRow
  unfolding resolve_review_product_for_owner update_transaction
  update_review elsewhere input = do
    product_id ← resolve_review_product_for_owner input.review_token input.author_id
    execute elsewhere
    update_transaction input product_id

  unfoldable pub removed_returned : String → Option ReviewRow → Io ReviewDb E (Unit {0})
  removed_returned product_id none = throw not_owned_error
  removed_returned product_id (some row) = execute (emit_rating_recompute product_id)

  unfoldable pub remove_transaction : RemoveReviewInput → String → Io ReviewDb E (Unit {0})
  unfolding removed_returned delete_statement
  remove_transaction input product_id = transaction do
    returned ← query (λ db. first_where (is_owned input.review_token input.author_id) db.reviews)
    execute (delete_statement input)
    removed_returned product_id returned

  unfoldable pub remove_review :
      (ReviewDb → ReviewDb) → RemoveReviewInput → Io ReviewDb E (Unit {0})
  unfolding resolve_review_product_for_owner remove_transaction
  remove_review elsewhere input = do
    product_id ← resolve_review_product_for_owner input.review_token input.author_id
    execute elsewhere
    remove_transaction input product_id

  unfoldable pub moderation_row : String → Option ReviewRow → Io ReviewDb E ReviewRow
  moderation_row token none =
      throw (not_found_error ("no review with token \"" & token & "\"") no_options)
  moderation_row token (some row) = return row

  unfoldable pub read_moderation_row : String → Io ReviewDb E ReviewRow
  unfolding moderation_row
  read_moderation_row token = do
    row ← query (λ db. first_where (has_token token) db.reviews)
    moderation_row token row

  unfoldable pub moderated_returned :
      String → TargetState → ReviewRow → Option ReviewRow → Io ReviewDb E ReviewModerationRecord
  unfolding read_moderation_row
  moderated_returned token target before none = do
    raced ← read_moderation_row token
    return (to_moderation_record target raced)
  moderated_returned token target before (some row) = do
    now ← query (λ db. db.outbox.now)
    execute (emit_rating_recompute before.product_id)
    return (record (to_moderation_record target (moderated_row (target_of target) now row)) {
      author_id = before.author_id;
    })

  unfoldable pub moderate_transaction :
      String → TargetState → ReviewRow → Io ReviewDb E ReviewModerationRecord
  unfolding moderated_returned moderate_statement
  moderate_transaction token target before = transaction do
    returned ← query (λ db. first_where (is_in_state token before.state) db.reviews)
    execute (moderate_statement token before.state (target_of target))
    moderated_returned token target before returned

  unfoldable pub moderate_read :
      (ReviewDb → ReviewDb)
      → String
      → TargetState
      → ReviewRow
      → Io ReviewDb E ReviewModerationRecord
  unfolding moderate_transaction
  moderate_read elsewhere token target before =
      if state_eq before.state (target_of target)
      then return (to_moderation_record target before)
      else (execute elsewhere >> moderate_transaction token target before)

  unfoldable pub set_review_moderation_state :
      (ReviewDb → ReviewDb) → String → TargetState → Io ReviewDb E ReviewModerationRecord
  unfolding read_moderation_row moderate_read
  set_review_moderation_state elsewhere token target = do
    before ← read_moderation_row token
    moderate_read elsewhere token target before
