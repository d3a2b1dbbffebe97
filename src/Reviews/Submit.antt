-- ===== src/Reviews/Submit.antt =====
-- `submitReview` of packages/reviews/src/reviews.ts. The transaction takes the advisory lock of
-- (product, author) first, and is one step; `elsewhere` is what other connections commit before
-- it and, after a rollback, before the last read. `token` is the freshly minted token. The CHECK
-- constraints on the rating and on the texts are the schema of the request, checked before.

pub mod Outcomes
use cloudtalk_tech_task.Base.{
  ℕ, String, Bool, true, false, Option, none, some, [], ◌∷◌, ◌++◌, ◌==◌, str_eq, ◌&&◌,
  if◌then◌else◌, any, or_default,
}
use cloudtalk_tech_task.Kernel.Value.{Value}
use cloudtalk_tech_task.Kernel.Errors.{conflict_error}
use cloudtalk_tech_task.Sql.{first_where}
use cloudtalk_tech_task.Sql.Io.{
  Io, ok, threw, return, throw, query, execute, transaction, try_catch, ◌>>=◌, ◌>>◌,
}
use cloudtalk_tech_task.Reviews.Store.{
  ModerationState, published, ReviewRow, ReviewDb, has_token, is_review_of, field_details,
  emit_rating_recompute, resolve_product_id,
}
use cloudtalk_tech_task.Reviews.Violations.{
  review_author_constraint, review_token_constraint, driver_violation,
  unique_violation_constraint_of, translate_unique_violation,
}

pub record SubmitReviewInput : Type 0 where
  pub product_slug : String
  pub author_id : String
  pub rating : ℕ
  pub title : String
  pub body : String

pub record ReviewRecord : Type 0 where
  pub token : String
  pub product_slug : String
  pub rating : ℕ
  pub title : String
  pub body : String
  pub moderation_state : ModerationState
  pub created_at : ℕ
  pub updated_at : ℕ

pub record SubmitReviewResult : Type 0 where
  pub review : ReviewRecord
  pub replayed : Bool

abbrev pub to_review_record : String → ReviewRow → ReviewRecord
to_review_record slug row = record {
  token = row.token;
  product_slug = slug;
  rating = row.rating;
  title = row.title;
  body = row.body;
  moderation_state = row.state;
  created_at = row.created_at;
  updated_at = row.updated_at;
}

abbrev pub is_replay : ReviewRow → SubmitReviewInput → Bool
is_replay row input =
    (row.rating == input.rating) && str_eq row.title input.title && str_eq row.body input.body

abbrev pub already_reviewed : Value
already_reviewed = conflict_error "you have already reviewed this product" (field_details "review")

abbrev pub new_review : String → String → SubmitReviewInput → ℕ → ReviewRow
new_review token product_id input now = record {
  token = token;
  product_id = product_id;
  author_id = input.author_id;
  rating = input.rating;
  title = input.title;
  body = input.body;
  state = published;
  created_at = now;
  updated_at = now;
}

pub data Gap : Type 0 where
  before_claim before_reread : Gap

abbrev is_author_violation : Option String → Bool
is_author_violation none = false
is_author_violation (some name) = str_eq name review_author_constraint

module _ {E : Type 0} where
  unfoldable pub replay_or_conflict :
      Option ReviewRow → SubmitReviewInput → Io ReviewDb E SubmitReviewResult
  replay_or_conflict none input = throw (
      conflict_error "the review this request raced with was removed before it could be read back"
        (field_details "review"))
  replay_or_conflict (some row) input =
      if is_replay row input
      then return (record { review = to_review_record input.product_slug row; replayed = true })
      else throw already_reviewed

  abbrev pub read_existing_review : String → String → Io ReviewDb E (Option ReviewRow)
  read_existing_review product_id author_id =
      query (λ db. first_where (is_review_of product_id author_id) db.reviews)

  -- INSERT INTO reviews.review: the older unique index, on the token, is checked first
  unfoldable pub insert_review : ReviewRow → Io ReviewDb E (Unit {0})
  insert_review row w =
      if any (has_token row.token) w.db.reviews
      then (threw (driver_violation review_token_constraint), w)
      else if any (is_review_of row.product_id row.author_id) w.db.reviews
      then (threw (driver_violation review_author_constraint), w)
      else (ok tt, record w { db = record w.db { reviews = w.db.reviews ++ row ∷ [] } })

  unfoldable pub claim_and_insert :
      String → String → SubmitReviewInput → Option ReviewRow → Io ReviewDb E SubmitReviewResult
  unfolding replay_or_conflict insert_review
  claim_and_insert token product_id input (some row) = replay_or_conflict (some row) input
  claim_and_insert token product_id input none = do
    row ← query (λ db. new_review token product_id input db.outbox.now)
    insert_review row
    execute (emit_rating_recompute product_id)
    return (record { review = to_review_record input.product_slug row; replayed = false })

  unfoldable pub submit_transaction :
      String → String → SubmitReviewInput → Io ReviewDb E SubmitReviewResult
  unfolding claim_and_insert
  submit_transaction token product_id input = transaction do
    under_lock ← read_existing_review product_id input.author_id
    claim_and_insert token product_id input under_lock

  -- the `catch` outside the transaction
  unfoldable pub submit_failed :
      (ReviewDb → ReviewDb) → String → SubmitReviewInput → Value → Io ReviewDb E SubmitReviewResult
  unfolding replay_or_conflict
  submit_failed elsewhere product_id input e =
      if is_author_violation (unique_violation_constraint_of e)
      then (execute elsewhere
          >> (read_existing_review product_id input.author_id
              >>= (λ row. replay_or_conflict row input)))
      else throw (or_default (translate_unique_violation e) e)

  unfoldable pub submit_absent :
      (Gap → ReviewDb → ReviewDb)
      → String
      → String
      → SubmitReviewInput
      → Option ReviewRow
      → Io ReviewDb E SubmitReviewResult
  unfolding replay_or_conflict submit_transaction submit_failed
  submit_absent elsewhere token product_id input (some row) = replay_or_conflict (some row) input
  submit_absent elsewhere token product_id input none = do
    execute (elsewhere before_claim)
    try_catch (submit_transaction token product_id input)
        (submit_failed (elsewhere before_reread) product_id input)

  unfoldable pub submit_review :
      (Gap → ReviewDb → ReviewDb) → String → SubmitReviewInput → Io ReviewDb E SubmitReviewResult
  unfolding resolve_product_id submit_absent
  submit_review elsewhere token input = do
    product_id ← resolve_product_id input.product_slug
    earlier ← read_existing_review product_id input.author_id
    submit_absent elsewhere token product_id input earlier
