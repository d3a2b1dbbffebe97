-- ===== src/Reviews/Rebuild.antt =====
-- `rebuildProductRating` of packages/reviews/src/rating.ts. `before` is the order of the uuids. Fuel
-- bounds the pages; `none` stands for a loop that is still running when it is spent.
pub mod Pages
pub mod Ratings
use cloudtalk_tech_task.Base.{
  ℕ, zero, suc, ◌+◌, String, Bool, true, Option, none, some, List, [], ◌∷◌, ltb, str_eq, any, map,
  if◌then◌else◌, length, take, ◌&◌,
}
use cloudtalk_tech_task.Kernel.Errors.{no_options, not_found_error}
use cloudtalk_tech_task.Sql.{select_where, first_where}
use cloudtalk_tech_task.Sql.Io.{Outcome, ok, threw}
use cloudtalk_tech_task.Sql.Keyset.{order_by, last}
use cloudtalk_tech_task.Reviews.Store.{ProductRow, ReviewRow, ReviewDb}
use cloudtalk_tech_task.Reviews.Rating.{apply_rating_recompute}

abbrev pub default_rebuild_batch_size : ℕ
default_rebuild_batch_size = 500

-- DISTINCT
unfoldable pub distinct : List String → List String
distinct [] = []
distinct (x ∷ xs) = let rest = distinct xs in if any (str_eq x) rest then rest else x ∷ rest

-- SELECT DISTINCT product_id FROM reviews.review
abbrev pub reviewed : List ReviewRow → List String
reviewed reviews = distinct (map (λ (r : ReviewRow). r.product_id) reviews)

-- the inner loop over a page
unfoldable pub recompute_all : List String → ReviewDb → ReviewDb
unfolding apply_rating_recompute
recompute_all [] db = db
recompute_all (product_id ∷ ids) db = recompute_all ids (apply_rating_recompute product_id db)

-- what is done with a page, of which `next` is the last id
abbrev pub rebuild_page :
    ℕ
    → List String
    → Option String
    → ℕ
    → ReviewDb
    → (String → ℕ → ReviewDb → Option (ℕ × ReviewDb))
    → Option (ℕ × ReviewDb)
rebuild_page batch_size page none recomputed db next = some (recomputed, db)
rebuild_page batch_size page (some cursor) recomputed db next =
    if ltb (length page) batch_size
    then some (recomputed + length page, recompute_all page db)
    else next cursor (recomputed + length page) (recompute_all page db)

-- the scoped rebuild, once the slug has been looked up
abbrev pub rebuild_one : String → Option ProductRow → ReviewDb → Outcome ℕ × ReviewDb
rebuild_one slug none db =
    (threw (not_found_error ("no product with slug \"" & slug & "\"") no_options), db)
rebuild_one slug (some p) db = (ok 1, apply_rating_recompute p.product_id db)

abbrev pub reported : Option (ℕ × ReviewDb) → Option (Outcome ℕ × ReviewDb)
reported none = none
reported (some (recomputed, db)) = some (ok recomputed, db)

module _ (before : String → String → Bool) (batch_size : ℕ) where
  -- one statement's page; `past` is the condition of the cursor, if there is one
  abbrev pub id_page : (String → Bool) → ReviewDb → List String
  id_page past db = take batch_size (order_by before (select_where past (reviewed db.reviews)))

  unfoldable pub rebuild_from : ℕ → (String → Bool) → ℕ → ReviewDb → Option (ℕ × ReviewDb)
  unfolding order_by distinct recompute_all
  rebuild_from zero past recomputed db = none
  rebuild_from (suc fuel) past recomputed db =
      rebuild_page batch_size (id_page past db) (last (id_page past db)) recomputed db
        (λ cursor. rebuild_from fuel (before cursor))

  unfoldable pub rebuild_product_rating :
      ℕ → Option String → ReviewDb → Option (Outcome ℕ × ReviewDb)
  unfolding rebuild_from apply_rating_recompute
  rebuild_product_rating fuel none db = reported (rebuild_from fuel (λ id. true) 0 db)
  rebuild_product_rating fuel (some slug) db =
      some (rebuild_one slug (first_where (λ (p : ProductRow). str_eq p.slug slug) db.products) db)
