-- ===== src/Reviews/ReviewList.antt =====
-- `listReviewsForProduct` of packages/reviews/src/reviews.ts and `listReviewsForModeration` of
-- moderation.ts, with the cursors of internal/cursor.ts. The rows of a page stand for the records
-- that are made of them. `ticks` is how many units of the database's clock a millisecond has, 1000 in
-- Postgres: a timestamp reaches the code as a `Date`, in whole milliseconds.
pub mod Walked
use cloudtalk_tech_task.Base.{
  ℕ, ◌*◌, ◌/◌, String, Bool, true, false, Option, none, some, List, ◌==◌, ltb, str_eq, ◌&&◌, ◌||◌,
  not, any, if◌then◌else◌,
}
use cloudtalk_tech_task.Kernel.Errors.{validation_error}
use cloudtalk_tech_task.Sql.Io.{Io, Outcome, ok, threw, lift, query, ◌>>=◌}
use cloudtalk_tech_task.Sql.Keyset.{Page, fetch_page}
use cloudtalk_tech_task.Reviews.Store.{
  ModerationState, state_eq, ProductRow, ReviewRow, ReviewDb, is_product_review, is_published,
  field_details, resolve_product_id,
}

-- `created_at` as the code has it
abbrev pub to_date : ℕ → ℕ → ℕ
to_date ticks created_at = created_at / ticks

-- `${...}::timestamptz`
abbrev pub of_date : ℕ → ℕ → ℕ
of_date ticks date = date * ticks

-- The payload of a cursor: what it is pinned to (a slug or a state) and its keyset pair.
pub record ListCursor (Pin : Type 0) : Type 0 where
  pub pin : Pin
  pub created_at : ℕ
  pub token : String

-- The codec of cursors: base64url of JSON, and the check of the payload against its schema.
pub record CursorCodec (Pin : Type 0) : Type 0 where
  pub encode : ListCursor Pin → String
  pub decode : String → Option (ListCursor Pin)

-- ORDER BY created_at DESC, token DESC
abbrev pub is_newer : (String → String → Bool) → ReviewRow → ReviewRow → Bool
is_newer before r s =
    ltb s.created_at r.created_at || ((s.created_at == r.created_at) && before s.token r.token)

-- the condition that a cursor adds
abbrev pub is_behind :
    {Pin : Type 0} → (String → String → Bool) → ℕ → ListCursor Pin → ReviewRow → Bool
is_behind before ticks c s =
    ltb s.created_at (of_date ticks c.created_at)
    || ((s.created_at == of_date ticks c.created_at) && before s.token c.token)

-- the rows of the list of one product
abbrev pub is_listed : String → ReviewRow → Bool
is_listed product_id r = is_product_review product_id r && is_published r

-- the JOIN with `reviews.product`: a row whose product is there
abbrev pub is_joined : List ProductRow → ReviewRow → Bool
is_joined products r = any (λ (p : ProductRow). str_eq p.product_id r.product_id) products

module _ {Pin : Type 0} (before : String → String → Bool) (ticks : ℕ) (codec : CursorCodec Pin)
    (same_pin : Pin → Pin → Bool) where
  abbrev pub cursor_at : Pin → ReviewRow → String
  cursor_at pin r =
      codec.encode (record { pin = pin; created_at = to_date ticks r.created_at; token = r.token })

  -- `decodeCursor`, and the check of what the cursor is pinned to
  abbrev pub decoded : Pin → String → Option (ListCursor Pin) → Outcome (ReviewRow → Bool)
  decoded pin mismatch none =
      threw (validation_error "cursor is not a valid continuation token" (field_details "cursor"))
  decoded pin mismatch (some c) =
      if not (same_pin c.pin pin)
      then threw (validation_error mismatch (field_details "cursor"))
      else ok (is_behind before ticks c)

  unfoldable pub cursor_filter : Pin → String → Option String → Outcome (ReviewRow → Bool)
  cursor_filter pin mismatch none = ok (λ r. true)
  cursor_filter pin mismatch (some cursor) = decoded pin mismatch (codec.decode cursor)

  -- the statement of a list and its page, once the cursor has been read
  unfoldable pub review_page :
      Pin → (ReviewRow → Bool) → ℕ → (ReviewRow → Bool) → ReviewDb → Page ReviewRow String
  review_page pin matches limit filter db =
      fetch_page (is_newer before) (cursor_at pin) matches limit db.reviews filter

module _ {E : Type 0} (before : String → String → Bool) (ticks : ℕ) where
  unfoldable pub list_reviews_for_product :
      CursorCodec String → String → Option String → ℕ → Io ReviewDb E (Page ReviewRow String)
  unfolding resolve_product_id cursor_filter review_page
  list_reviews_for_product codec product_slug cursor limit = do
    product_id ← resolve_product_id product_slug
    filter ← lift (
        cursor_filter before ticks codec str_eq product_slug "cursor does not match this product"
          cursor)
    query (review_page before ticks codec str_eq product_slug (is_listed product_id) limit filter)

  unfoldable pub list_reviews_for_moderation :
      CursorCodec ModerationState
      → ModerationState
      → Option String
      → ℕ
      → Io ReviewDb E (Page ReviewRow String)
  unfolding cursor_filter review_page
  list_reviews_for_moderation codec state cursor limit = do
    filter ← lift (
        cursor_filter before ticks codec state_eq state
          "cursor does not match the requested state filter" cursor)
    query (λ db.
        review_page before ticks codec state_eq state
          (λ r. state_eq r.state state && is_joined db.products r) limit filter db)
