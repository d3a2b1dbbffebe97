-- ===== src/Reviews/Rating.antt =====
-- `applyRatingRecompute` of packages/reviews/src/internal/recompute-statement.ts, which
-- `recomputeProductRating` of rating.ts delegates to. The average is rounded half up to hundredths.
pub mod Laws
pub mod Published
pub mod Scheduled
use cloudtalk_tech_task.Base.{
  ℕ, zero, suc, ◌+◌, ◌*◌, ◌/◌, String, Bool, Option, none, some, List, [], ◌∷◌, ◌++◌, str_eq, ◌&&◌,
  if◌then◌else◌, any,
}
use cloudtalk_tech_task.Sql.{select_where, update_where}
use cloudtalk_tech_task.Reviews.Store.{
  ReviewRow, RatingRow, ReviewDb, is_product_review, is_published,
}

abbrev pub sum_ratings : List ReviewRow → ℕ
sum_ratings [] = 0
sum_ratings (r ∷ rs) = r.rating + sum_ratings rs

abbrev pub length_of : List ReviewRow → ℕ
length_of [] = 0
length_of (r ∷ rs) = suc (length_of rs)

-- round(sum / count, 2), in hundredths
abbrev pub average_of : ℕ → ℕ → Option ℕ
average_of zero sum = none
average_of (suc n) sum = some ((200 * sum + suc n) / (2 * suc n))

-- the reviews that count: the product's, and published
abbrev pub counted : String → List ReviewRow → List ReviewRow
counted product_id = select_where (λ r. is_product_review product_id r && is_published r)

-- the SELECT of the statement
abbrev pub aggregate : String → List ReviewRow → ℕ × Option ℕ
aggregate product_id reviews =
    let rows = counted product_id reviews in
    (length_of rows, average_of (length_of rows) (sum_ratings rows))

abbrev pub is_rating_of : String → RatingRow → Bool
is_rating_of product_id r = str_eq r.product_id product_id

abbrev pub rating_row : String → ℕ × Option ℕ → ℕ → RatingRow
rating_row product_id values now = record {
  product_id = product_id;
  review_count = values.0;
  rating_average = values.1;
  computed_at = now;
}

-- SET ... = excluded....
abbrev pub set_excluded : RatingRow → RatingRow → RatingRow
set_excluded row r = record r {
  review_count = row.review_count;
  rating_average = row.rating_average;
  computed_at = row.computed_at;
}

-- INSERT ... ON CONFLICT (product_id) DO UPDATE
unfoldable pub upsert_rating : RatingRow → List RatingRow → List RatingRow
upsert_rating row ratings =
    if any (is_rating_of row.product_id) ratings
    then update_where (is_rating_of row.product_id) (set_excluded row) ratings
    else ratings ++ row ∷ []

unfoldable pub apply_rating_recompute : String → ReviewDb → ReviewDb
unfolding upsert_rating
apply_rating_recompute product_id db = record db {
  ratings =
      upsert_rating (rating_row product_id (aggregate product_id db.reviews) db.outbox.now)
        db.ratings;
}
