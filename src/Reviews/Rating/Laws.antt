-- ===== src/Reviews/Rating/Laws.antt =====
-- What a recomputation leaves in the projection, and which reviews an operation may change without
-- one.
use cloudtalk_tech_task.Base.{
  ℕ, String, Bool, true, false, Option, none, some, List, [], ◌∷◌, ◌++◌, ◌≡◌, refl, ◌≢◌, ◌∙◌, sym,
  ap, str_eq_refl, str_eq-ne, str_eq→eq, any, All, Bool-cases, Option-cases, inl, inr, arith,
}
use cloudtalk_tech_task.Sql.{first_where, update_where, delete_where}
use cloudtalk_tech_task.Sql.Laws.{
  any-first_where, any_of_first_where, first_where-append, first_where-update_hit,
  first_where-update_other, first_where_sound,
}
use cloudtalk_tech_task.Reviews.Store.{ReviewRow, RatingRow, ReviewDb}
use cloudtalk_tech_task.Reviews.Rating.{
  counted, aggregate, is_rating_of, rating_row, set_excluded, upsert_rating, apply_rating_recompute,
}

-- What the projection answers for a product; with no row it has no reviews and no average.
abbrev pub shown : Option RatingRow → ℕ × Option ℕ
shown none = (0, none)
shown (some r) = (r.review_count, r.rating_average)

abbrev pub rating_of : String → List RatingRow → ℕ × Option ℕ
rating_of product_id ratings = shown (first_where (is_rating_of product_id) ratings)

pub upsert_rating_self :
    (row : RatingRow) (ratings : List RatingRow)
    → rating_of row.product_id (upsert_rating row ratings) ≡ (row.review_count, row.rating_average)
unfolding upsert_rating
upsert_rating_self row ratings =
    elim (Option-cases (first_where (is_rating_of row.product_id) ratings)) [
      | inl e ↦ rw (any-first_where _ ratings e) (
          rw (first_where-append (is_rating_of row.product_id) ratings (row ∷ []) e)
            (rw (str_eq_refl row.product_id)))
      | inr (r, e) ↦ rw (any_of_first_where _ ratings e) (
          rw (
            first_where-update_hit (is_rating_of row.product_id) (is_rating_of row.product_id)
              (set_excluded row) ratings (λ y. refl) e
              (first_where_sound (is_rating_of row.product_id) ratings e)))
    ]

first_where-append_miss :
    (p : RatingRow → Bool) (row : RatingRow) (ratings : List RatingRow)
    → p row ≡ false
    → first_where p (ratings ++ row ∷ []) ≡ first_where p ratings
first_where-append_miss p row [] h = rw h
first_where-append_miss p row (r ∷ ratings) h =
    ground (arith, first_where-append_miss p row ratings h)

pub upsert_rating_other :
    (row : RatingRow) (ratings : List RatingRow) (product_id : String)
    → row.product_id ≢ product_id
    → rating_of product_id (upsert_rating row ratings) ≡ rating_of product_id ratings
unfolding upsert_rating
upsert_rating_other row ratings product_id ne =
    elim (Bool-cases (any (is_rating_of row.product_id) ratings)) [
      | inl there ↦ rw there (
          ap shown (
            first_where-update_other (is_rating_of product_id) (is_rating_of row.product_id)
              (set_excluded row) ratings
              (λ y h.
                str_eq-ne y.product_id product_id
                  (λ e. ne (sym (str_eq→eq y.product_id row.product_id h) ∙ e)))
              (λ y. refl)))
      | inr absent ↦ rw absent (
          ap shown (
            first_where-append_miss (is_rating_of product_id) row ratings
              (str_eq-ne row.product_id product_id ne)))
    ]

-- The reviews that count for one product do not change with those of another.
abbrev pub SameFor : String → List ReviewRow → List ReviewRow → Type 0
SameFor product_id before after = counted product_id after ≡ counted product_id before

pub counted-append :
    (product_id : String) (row : ReviewRow) (reviews : List ReviewRow)
    → row.product_id ≢ product_id
    → SameFor product_id reviews (reviews ++ row ∷ [])
counted-append product_id row [] ne = rw (str_eq-ne row.product_id product_id ne)
counted-append product_id row (r ∷ reviews) ne =
    ground (arith, counted-append product_id row reviews ne)

-- Every row that `u` picks belongs to the product.
abbrev pub Only : String → (ReviewRow → Bool) → List ReviewRow → Type 0
Only product_id u = All (λ r. u r ≡ true → r.product_id ≡ product_id)

pub counted-update_where :
    (other product_id : String) (u : ReviewRow → Bool) (f : ReviewRow → ReviewRow)
    (reviews : List ReviewRow)
    → product_id ≢ other
    → ((y : ReviewRow) → (f y).product_id ≡ y.product_id)
    → Only product_id u reviews
    → SameFor other reviews (update_where u f reviews)
counted-update_where other product_id u f [] ne k only = refl
counted-update_where other product_id u f (r ∷ reviews) ne k (o, only) = elim (Bool-cases (u r)) [
  | inl picked ↦
      rw (picked, k r, o picked, str_eq-ne product_id other ne)
        (counted-update_where other product_id u f reviews ne k only)
  | inr left ↦ rw left (ground (arith, counted-update_where other product_id u f reviews ne k only))
]

pub counted-delete_where :
    (other product_id : String) (u : ReviewRow → Bool) (reviews : List ReviewRow)
    → product_id ≢ other
    → Only product_id u reviews
    → SameFor other reviews (delete_where u reviews)
counted-delete_where other product_id u [] ne only = refl
counted-delete_where other product_id u (r ∷ reviews) ne (o, only) = elim (Bool-cases (u r)) [
  | inl picked ↦
      rw (picked, o picked, str_eq-ne product_id other ne)
        (counted-delete_where other product_id u reviews ne only)
  | inr left ↦ rw left (ground (arith, counted-delete_where other product_id u reviews ne only))
]

-- A recomputation makes the rating of its product what the published reviews say, and leaves the
-- ratings of the other products as they were.
pub apply_rating_recompute_lem :
    (product_id : String) (db : ReviewDb)
    → (rating_of product_id (apply_rating_recompute product_id db).ratings
        ≡ aggregate product_id db.reviews)
      × ((other : String)
          → product_id ≢ other
          → rating_of other (apply_rating_recompute product_id db).ratings
            ≡ rating_of other db.ratings)
unfolding apply_rating_recompute
apply_rating_recompute_lem product_id db = (
  upsert_rating_self (rating_row product_id (aggregate product_id db.reviews) db.outbox.now)
      db.ratings,
  λ other ne.
      upsert_rating_other (rating_row product_id (aggregate product_id db.reviews) db.outbox.now)
        db.ratings other ne,
)
