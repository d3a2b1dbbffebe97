-- ===== src/Reviews/Store.antt =====
-- The tables of the `reviews` schema that packages/reviews reads and writes, and the reads and the
-- event that its operations share (packages/reviews/src/internal). The outbox of the schema is one
-- of packages/jobs; its `now` is the clock of the whole database.
use cloudtalk_tech_task.Base.{
  ℕ, String, Bool, Option, none, some, List, [], ◌∷◌, ◌==◌, str_eq, ◌&&◌, ◌&◌,
}
use cloudtalk_tech_task.Kernel.Value.{plain, Value, str, obj, end, prop}
use cloudtalk_tech_task.Kernel.Errors.{
  AppErrorOptions, no_options, not_found_error, forbidden_error,
}
use cloudtalk_tech_task.Sql.{first_where}
use cloudtalk_tech_task.Sql.Io.{Io, return, throw, query, ◌>>=◌}
use cloudtalk_tech_task.Jobs.Outbox.{OutboxDb, insert_outbox_rows}

pub data ModerationState : Type 0 where
  published pending rejected : ModerationState

abbrev pub state_id : ModerationState → ℕ
state_id published = 1
state_id pending = 2
state_id rejected = 3

abbrev pub state_eq : ModerationState → ModerationState → Bool
state_eq a b = state_id a == state_id b

pub record ProductRow : Type 0 where
  pub product_id : String
  pub slug : String

pub record ReviewRow : Type 0 where
  pub token : String
  pub product_id : String
  pub author_id : String
  pub rating : ℕ
  pub title : String
  pub body : String
  pub state : ModerationState
  pub created_at : ℕ
  pub updated_at : ℕ

-- `rating_average` in hundredths, as numeric(3,2) has it
pub record RatingRow : Type 0 where
  pub product_id : String
  pub review_count : ℕ
  pub rating_average : Option ℕ
  pub computed_at : ℕ

pub record ReviewDb : Type 0 where
  pub products : List ProductRow
  pub reviews : List ReviewRow
  pub ratings : List RatingRow
  pub outbox : OutboxDb Value

abbrev pub has_token : String → ReviewRow → Bool
has_token token r = str_eq r.token token

abbrev pub is_review_of : String → String → ReviewRow → Bool
is_review_of product_id author_id r = str_eq r.product_id product_id && str_eq r.author_id author_id

abbrev pub is_product_review : String → ReviewRow → Bool
is_product_review product_id r = str_eq r.product_id product_id

abbrev pub is_published : ReviewRow → Bool
is_published r = state_eq r.state published

abbrev pub field_details : String → AppErrorOptions
field_details field = record no_options {
  details = some (obj plain (prop "field" (str field) end));
}

abbrev pub not_owned_error : Value
not_owned_error = forbidden_error "this session does not own that review" (field_details "review")

abbrev pub rating_recompute_op : String
rating_recompute_op = "rating.recompute"

-- the one event of every write, in the transaction of the write
unfoldable pub emit_rating_recompute : String → ReviewDb → ReviewDb
emit_rating_recompute product_id db = record db {
  outbox =
      insert_outbox_rows
        (record { aggregate_id = product_id; op = rating_recompute_op; payload = obj plain end }
          ∷ [])
        db.outbox;
}

module _ {E : Type 0} where
  abbrev pub found_product : String → Option ProductRow → Io ReviewDb E String
  found_product slug none =
      throw (not_found_error ("no product with slug \"" & slug & "\"") no_options)
  found_product slug (some row) = return row.product_id

  unfoldable pub resolve_product_id : String → Io ReviewDb E String
  resolve_product_id slug = do
    row ← query (λ db. first_where (λ (p : ProductRow). str_eq p.slug slug) db.products)
    found_product slug row
