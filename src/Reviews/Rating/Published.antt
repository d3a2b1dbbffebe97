-- ===== src/Reviews/Rating/Published.antt =====
-- What a recomputation makes of the published reviews of its product, told without its query.
use cloudtalk_tech_task.Base.{
  ℕ, suc, ◌+◌, ◌*◌, ◌≤◌, ◌<◌, String, Bool, true, false, Option, none, some, List, [], ◌∷◌, ◌≡◌,
  ◌≢◌, refl, str_eq, ◌&&◌, if◌then◌else◌, length, arith,
}
use native.Mathlib.Nat.{mul-div-le, lt-mul-div-succ}
use cloudtalk_tech_task.Reviews.Store.{
  ModerationState, state_eq, published, pending, rejected, ReviewRow, ReviewDb,
}
use cloudtalk_tech_task.Reviews.Rating.{
  sum_ratings, length_of, average_of, counted, apply_rating_recompute,
}
use cloudtalk_tech_task.Reviews.Rating.Laws.{rating_of, apply_rating_recompute_lem}

-- Readers see published reviews only.
abbrev pub is_visible : ModerationState → Bool
is_visible published = true
is_visible pending = false
is_visible rejected = false

-- The stars that readers see on a product.
abbrev pub stars : String → List ReviewRow → List ℕ
stars product_id [] = []
stars product_id (r ∷ rs) =
    let rest = stars product_id rs in
    if str_eq r.product_id product_id && is_visible r.state then r.rating ∷ rest else rest

abbrev pub sum : List ℕ → ℕ
sum [] = 0
sum (x ∷ xs) = x + sum xs

-- The number of the stars' reviews and their mean in hundredths, the nearest one, and the upper of
-- two that are equally near; with no reviews there is no mean.
abbrev pub IsRating : List ℕ → ℕ × Option ℕ → Type 0
IsRating [] v = v ≡ (0, none)
IsRating (x ∷ xs) v =
    let count = length (x ∷ xs) in
    let total = 200 * sum (x ∷ xs) in
    (mean : ℕ) × (v ≡ (count, some mean))
    × (2 * count * mean ≤ total + count)
    × (total + count < 2 * count * (mean + 1))

published_visible : (s : ModerationState) → state_eq s published ≡ is_visible s
published_visible published = refl
published_visible pending = refl
published_visible rejected = refl

counted_stars :
    (product_id : String) (rows : List ReviewRow)
    → (length_of (counted product_id rows) ≡ length (stars product_id rows))
      × (sum_ratings (counted product_id rows) ≡ sum (stars product_id rows))
counted_stars product_id [] = (refl, refl)
counted_stars product_id (r ∷ rows) =
    rw (published_visible r.state) (ground (arith, counted_stars product_id rows))

average_of-IsRating : (xs : List ℕ) → IsRating xs (length xs, average_of (length xs) (sum xs))
average_of-IsRating [] = refl
average_of-IsRating (x ∷ xs) =
    let n = 2 * suc (length xs) in
    let total = 200 * (x + sum xs) + suc (length xs) in
    (_, refl, mul-div-le total n, lt-mul-div-succ total (omega arith))

-- After a recomputation the rating of its product is the number of its published reviews and
-- their mean in hundredths, rounded to the nearest and half up, or no mean where there are none,
-- and the ratings of the other products are what they were.
pub apply_rating_recompute-IsRating :
    (product_id : String) (db : ReviewDb)
    → IsRating
        (stars product_id db.reviews)
        (rating_of product_id (apply_rating_recompute product_id db).ratings)
      × ((other : String)
          → product_id ≢ other
          → rating_of other (apply_rating_recompute product_id db).ratings
            ≡ rating_of other db.ratings)
apply_rating_recompute-IsRating product_id db =
    let (number, total) = counted_stars product_id db.reviews in
    let (this, others) = apply_rating_recompute_lem product_id db in
    (rw (this, number, total) (average_of-IsRating (stars product_id db.reviews)), others)
