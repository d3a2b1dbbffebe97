-- ===== src/Reviews/ProductList.antt =====
-- `listProducts` and `getProductBySlug` of packages/reviews/src/products.ts. The rows of a page stand
-- for the records that are made of them. `before` is the database's order of texts, `contains` its
-- `position(lower(...) in lower(...)) > 0`, and `ticks` the units of its clock in a millisecond. An
-- average is in hundredths; the sentinel -1 of a product with none stands below all of them.
pub mod Walked
use cloudtalk_tech_task.Base.{
  ℕ, suc, ◌+◌, ◌*◌, ◌/◌, String, Bool, true, false, Option, none, some, List, [], ◌==◌, ltb, str_eq,
  ◌&&◌, ◌||◌, not, ◌&◌, map, if◌then◌else◌,
}
use cloudtalk_tech_task.Kernel.Errors.{no_options, validation_error, not_found_error}
use cloudtalk_tech_task.Sql.{first_where}
use cloudtalk_tech_task.Sql.Io.{Outcome, ok, threw}
use cloudtalk_tech_task.Sql.Keyset.{Page, fetch_page}
use cloudtalk_tech_task.Reviews.Store.{RatingRow, field_details}
use cloudtalk_tech_task.Reviews.Rating.{is_rating_of}
use cloudtalk_tech_task.Reviews.Products.{
  Product, category_id_by_name, product_category_id_for, map_ok,
}

pub data ProductListSort : Type 0 where
  rating recent name : ProductListSort

abbrev pub sort_eq : ProductListSort → ProductListSort → Bool
sort_eq rating rating = true
sort_eq recent recent = true
sort_eq name name = true
sort_eq _ _ = false

-- A product LEFT JOINed to its rating.
pub record SummaryRow : Type 0 where
  pub product : Product
  pub review_count : ℕ
  pub rating_average : Option ℕ
  pub computed_at : Option ℕ

abbrev pub joined : Product → Option RatingRow → SummaryRow
joined p none = record { product = p; review_count = 0; rating_average = none; computed_at = none }
joined p (some r) = record {
  product = p;
  review_count = r.review_count;
  rating_average = r.rating_average;
  computed_at = some r.computed_at;
}

unfoldable pub join_ratings : List RatingRow → List Product → List SummaryRow
join_ratings ratings products =
    map (λ (p : Product). joined p (first_where (is_rating_of p.product_id) ratings)) products

-- `COALESCE(pr.rating_average, -1)`, one up
abbrev pub rank : Option ℕ → ℕ
rank none = 0
rank (some average) = suc average

-- The keys of a cursor, `k1` and `k2`, by the sort that it was made under.
pub data SortKey : Type 0 where
  by_rating : ℕ → ℕ → SortKey
  by_recent : ℕ → SortKey
  by_name : String → SortKey

pub record ProductListCursor : Type 0 where
  pub sort : ProductListSort
  pub key : SortKey
  pub slug : String

pub record ProductCodec : Type 0 where
  pub encode : ProductListCursor → String
  pub decode : String → Option ProductListCursor

pub record ListProductsInput : Type 0 where
  pub query : Option String
  pub category : Option String
  pub sort : ProductListSort
  pub cursor : Option String
  pub limit : ℕ

abbrev pub product_cursor_key_of : ℕ → ProductListSort → SummaryRow → SortKey
product_cursor_key_of ticks rating r = by_rating (rank r.rating_average) r.review_count
product_cursor_key_of ticks recent r = by_recent (r.product.created_at / ticks)
product_cursor_key_of ticks name r = by_name r.product.name

-- a column that falls, and what decides where it is equal
abbrev pub falls_then : ℕ → ℕ → Bool → Bool
falls_then a b tie = ltb b a || ((b == a) && tie)

module _ (before : String → String → Bool) where
  abbrev pub product_order : ProductListSort → SummaryRow → SummaryRow → Bool
  product_order rating r s =
      falls_then (rank r.rating_average) (rank s.rating_average)
        (falls_then r.review_count s.review_count (before r.product.slug s.product.slug))
  product_order recent r s =
      falls_then r.product.created_at s.product.created_at (before r.product.slug s.product.slug)
  product_order name r s =
      before r.product.name s.product.name
      || (str_eq s.product.name r.product.name && before r.product.slug s.product.slug)

  -- the condition that a cursor adds, by its keys
  abbrev pub product_cursor_filter : ℕ → SortKey → String → SummaryRow → Bool
  product_cursor_filter ticks (by_rating k1 k2) slug s =
      falls_then k1 (rank s.rating_average)
        (falls_then k2 s.review_count (before slug s.product.slug))
  product_cursor_filter ticks (by_recent k1) slug s =
      falls_then (k1 * ticks) s.product.created_at (before slug s.product.slug)
  product_cursor_filter ticks (by_name k1) slug s =
      before k1 s.product.name || (str_eq s.product.name k1 && before slug s.product.slug)

  module _ (trim lower : String → String) (contains : String → String → Bool) (ticks : ℕ)
      (codec : ProductCodec) where
    abbrev pub product_cursor : ProductListSort → SummaryRow → String
    product_cursor sort r =
        codec.encode
          (record { sort = sort; key = product_cursor_key_of ticks sort r; slug = r.product.slug })

    -- `isProductCategoryName` of the normalized name, and then its id
    abbrev pub category_or : String → String → Option ℕ → Outcome (SummaryRow → Bool)
    category_or category normalized none = threw (
        validation_error ("unknown product category \"" & category & "\"")
          (field_details "category"))
    category_or category normalized (some _) =
        map_ok (λ id. λ r. r.product.product_category_id == id)
          (product_category_id_for trim lower normalized)

    unfoldable pub category_filter : Option String → Outcome (SummaryRow → Bool)
    unfolding product_category_id_for
    category_filter none = ok (λ r. true)
    category_filter (some category) =
        let normalized = lower (trim category) in
        category_or category normalized (category_id_by_name normalized)

    -- no filter for an absent or empty query
    abbrev pub query_filter : Option String → SummaryRow → Bool
    query_filter none r = true
    query_filter (some query) r =
        str_eq query "" || contains query r.product.name || contains query r.product.sku

    abbrev pub decoded : ProductListSort → Option ProductListCursor → Outcome (SummaryRow → Bool)
    decoded sort none =
        threw (validation_error "cursor is not a valid continuation token" (field_details "cursor"))
    decoded sort (some c) =
        if not (sort_eq c.sort sort)
        then threw
            (validation_error "cursor does not match the current sort" (field_details "cursor"))
        else ok (product_cursor_filter ticks c.key c.slug)

    unfoldable pub cursor_filter : ProductListSort → Option String → Outcome (SummaryRow → Bool)
    cursor_filter sort none = ok (λ r. true)
    cursor_filter sort (some cursor) = decoded sort (codec.decode cursor)

    -- the statement, once its filters are there
    abbrev pub select_products :
        ListProductsInput
        → List SummaryRow
        → Outcome (SummaryRow → Bool)
        → Outcome (SummaryRow → Bool)
        → Outcome (Page SummaryRow String)
    select_products input table (threw e) past = threw e
    select_products input table (ok matches) (threw e) = threw e
    select_products input table (ok matches) (ok past) = ok (
        fetch_page (product_order input.sort) (product_cursor input.sort)
          (λ r. matches r && query_filter input.query r) input.limit table past)

    unfoldable pub list_products :
        ListProductsInput → List RatingRow → List Product → Outcome (Page SummaryRow String)
    unfolding join_ratings category_filter cursor_filter
    list_products input ratings products =
        select_products input (join_ratings ratings products) (category_filter input.category)
          (cursor_filter input.sort input.cursor)

abbrev pub detail_or : String → Option SummaryRow → Outcome SummaryRow
detail_or slug none = threw (not_found_error ("no product with slug \"" & slug & "\"") no_options)
detail_or slug (some r) = ok r

unfoldable pub get_product_by_slug : String → List RatingRow → List Product → Outcome SummaryRow
unfolding join_ratings
get_product_by_slug slug ratings products =
    detail_or slug
      (first_where (λ (r : SummaryRow). str_eq r.product.slug slug) (join_ratings ratings products))
