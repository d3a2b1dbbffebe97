-- ===== src/Reviews/ProductList/Walked.antt =====
-- A caller who follows the cursors of the catalogue gets every product once, under each sort.
use mathlib.Core.Path.{fun_ext}
use cloudtalk_tech_task.Base.{
  ℕ, ◌*◌, ◌/◌, ◌<◌, String, Bool, true, false, Option, none, some, List, ◌≡◌, refl, ap, arith, ◌&&◌,
  length, All, eq_iff,
}
use cloudtalk_tech_task.Sql.{select_where}
use cloudtalk_tech_task.Sql.Io.{Outcome, ok, threw}
use cloudtalk_tech_task.Sql.Keyset.{Page, order_by, fetch_page, walk_pages}
use cloudtalk_tech_task.Sql.Keyset.Order.{Comparable, IsStrict}
use cloudtalk_tech_task.Sql.Keyset.Walk.{walk_pages-fetch_page, All_later}
use cloudtalk_tech_task.Reviews.Store.{RatingRow}
use cloudtalk_tech_task.Reviews.Products.{Product}
use cloudtalk_tech_task.Reviews.ProductList.{
  ProductListSort, rating, recent, name, sort_eq, SummaryRow, join_ratings, ProductCodec,
  ListProductsInput, product_cursor_key_of, product_order, product_cursor_filter, product_cursor,
  category_filter, query_filter, cursor_filter, list_products,
}

module _ (before : String → String → Bool) (strict : IsStrict before) where
  order_irreflexive :
      (sort : ProductListSort) (r : SummaryRow) → product_order before sort r r ≡ false
  order_irreflexive rating r = ground (arith, strict.irreflexive r.product.slug)
  order_irreflexive recent r = ground (arith, strict.irreflexive r.product.slug)
  order_irreflexive name r =
      ground (arith, strict.irreflexive r.product.slug, strict.irreflexive r.product.name)

  order_transitive :
      (sort : ProductListSort) (r s t : SummaryRow)
      → product_order before sort r s ≡ true
      → product_order before sort s t ≡ true
      → product_order before sort r t ≡ true
  order_transitive rating r s t h k =
      ground (arith, strict.transitive r.product.slug s.product.slug t.product.slug)
  order_transitive recent r s t h k =
      ground (arith, strict.transitive r.product.slug s.product.slug t.product.slug)
  order_transitive name r s t h k = ground (
    arith,
    strict.transitive r.product.slug s.product.slug t.product.slug,
    strict.transitive r.product.name s.product.name t.product.name,
    eq_iff s.product.name r.product.name,
    eq_iff t.product.name s.product.name,
    eq_iff t.product.name r.product.name,
  )

  pub product_order-IsStrict : (sort : ProductListSort) → IsStrict (product_order before sort)
  product_order-IsStrict sort = record {
    irreflexive = order_irreflexive sort;
    transitive = order_transitive sort;
  }

-- The page that a list gives, if it gives one.
abbrev pub page_of : Outcome (Page SummaryRow String) → Option (Page SummaryRow String)
page_of (ok page) = some page
page_of (threw e) = none

-- A row that its cursor tells exactly: the codec reads the cursor back, and under the sort by age the
-- row's timestamp is a whole number of milliseconds.
pub record IsExact (ticks : ℕ) (codec : ProductCodec) (sort : ProductListSort) (r : SummaryRow)
    : Type 0 where
  pub read_back :
      codec.decode (
        codec.encode
          (record { sort = sort; key = product_cursor_key_of ticks sort r; slug = r.product.slug }))
      ≡ some
          (record { sort = sort; key = product_cursor_key_of ticks sort r; slug = r.product.slug })
  pub whole :
      sort_eq sort recent ≡ true → r.product.created_at / ticks * ticks ≡ r.product.created_at

sort_eq_refl : (sort : ProductListSort) → sort_eq sort sort ≡ true
sort_eq_refl rating = refl
sort_eq_refl recent = refl
sort_eq_refl name = refl

key_exact :
    (before : String → String → Bool) (ticks : ℕ) (sort : ProductListSort) (r s : SummaryRow)
    → (sort_eq sort recent ≡ true → r.product.created_at / ticks * ticks ≡ r.product.created_at)
    → product_cursor_filter before ticks (product_cursor_key_of ticks sort r) r.product.slug s
      ≡ product_order before sort r s
key_exact before ticks rating r s whole = refl
key_exact before ticks recent r s whole = rw (whole refl) refl
key_exact before ticks name r s whole = refl

module _ (before : String → String → Bool) (trim lower : String → String)
    (contains : String → String → Bool) (ticks : ℕ) (codec : ProductCodec) where
  cursor_filter_exact :
      (sort : ProductListSort) (r : SummaryRow)
      → IsExact ticks codec sort r
      → cursor_filter before trim lower contains ticks codec sort
          (some (product_cursor before trim lower contains ticks codec sort r))
        ≡ ok (product_order before sort r)
  unfolding cursor_filter
  cursor_filter_exact sort r x =
      rw (x.read_back, sort_eq_refl sort)
        (ap (λ f. ok f) (fun_ext (λ s. key_exact before ticks sort r s x.whole)))

  no_cursor :
      (sort : ProductListSort)
      → cursor_filter before trim lower contains ticks codec sort none ≡ ok (λ r. true)
  unfolding cursor_filter
  no_cursor sort = refl

  -- the list with this cursor
  abbrev pub listed_at :
      ListProductsInput
      → List RatingRow
      → List Product
      → Option String
      → Option (Page SummaryRow String)
  listed_at input ratings products cursor = page_of (
      list_products before trim lower contains ticks codec (record input { cursor = cursor })
        ratings products)

  -- the rows that a list shows
  abbrev pub shown_rows :
      ListProductsInput → (SummaryRow → Bool) → List RatingRow → List Product → List SummaryRow
  shown_rows input matches ratings products =
      select_where
        (λ r. matches r && query_filter before trim lower contains ticks codec input.query r)
        (join_ratings ratings products)

  listed_page :
      (input : ListProductsInput) (ratings : List RatingRow) (products : List Product)
      (matches past : SummaryRow → Bool) (cursor : Option String)
      → category_filter before trim lower contains ticks codec input.category ≡ ok matches
      → cursor_filter before trim lower contains ticks codec input.sort cursor ≡ ok past
      → listed_at input ratings products cursor
        ≡ some (
            fetch_page
              (product_order before input.sort)
              (product_cursor before trim lower contains ticks codec input.sort)
              (λ r. matches r && query_filter before trim lower contains ticks codec input.query r)
              input.limit
              (join_ratings ratings products)
              past)
  unfolding list_products
  listed_page input ratings products matches past cursor h k = rw (h, k)

  -- Under each sort, a caller who follows the cursors of the catalogue gets every product that
  -- the category and the query let through once, in the order of the sort, in finitely many
  -- pages, if the limit is positive, the category is known, no two of the products are at the
  -- same place in the order, the codec reads their cursors back and, under the sort by age,
  -- their timestamps are whole milliseconds.
  pub list_products_walked :
      (input : ListProductsInput) (ratings : List RatingRow) (products : List Product)
      (matches : SummaryRow → Bool) (fuel : ℕ)
      → IsStrict before
      → 0 < input.limit
      → category_filter before trim lower contains ticks codec input.category ≡ ok matches
      → Comparable (product_order before input.sort) (shown_rows input matches ratings products)
      → All (IsExact ticks codec input.sort) (shown_rows input matches ratings products)
      → length
          (order_by (product_order before input.sort) (shown_rows input matches ratings products))
        < fuel
      → walk_pages (listed_at input ratings products) fuel none
        ≡ some
            (order_by (product_order before input.sort) (shown_rows input matches ratings products))
  list_products_walked input ratings products matches fuel strict pos category comparable exact
        enough =
      walk_pages-fetch_page (product_order before input.sort)
        (product_cursor before trim lower contains ticks codec input.sort)
        (λ r. matches r && query_filter before trim lower contains ticks codec input.query r)
        input.limit (join_ratings ratings products) (listed_at input ratings products)
        (product_order-IsStrict before strict input.sort) pos comparable
        (listed_page input ratings products matches (λ row. true) none category
          (no_cursor input.sort))
        (All_later (IsExact ticks codec input.sort) _ (shown_rows input matches ratings products)
          (λ r x.
            listed_page input ratings products matches (product_order before input.sort r)
              (some (product_cursor before trim lower contains ticks codec input.sort r)) category
              (cursor_filter_exact input.sort r x))
          exact)
        fuel enough
