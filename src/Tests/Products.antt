-- ===== src/Tests/Products.antt =====
-- Products: their slugs, their creation and update, and their list.
use cloudtalk_tech_task.Base.{
  ◌<◌, String, Bool, true, false, none, some, List, [], ◌∷◌, ◌≡◌, refl, arith, map, length, All,
  ◌||◌, ◌≤◌, text_length, str_eq, if◌then◌else◌,
}
use cloudtalk_tech_task.Sql.Io.{World, ok}
use cloudtalk_tech_task.Sql.Keyset.{order_by, walk_pages}
use cloudtalk_tech_task.Sql.Keyset.Order.{Comparable}
use cloudtalk_tech_task.Reviews.Store.{RatingRow}
use cloudtalk_tech_task.Reviews.Slug.{derive_product_slug, is_empty, is_slug}
use cloudtalk_tech_task.Reviews.Slug.Format.{derive_product_slug-is_slug}
use cloudtalk_tech_task.Reviews.Products.{
  Product, Catalogue, CreateProductInput, UpdateProductInput, meets_checks, create_product,
  update_product,
}
use cloudtalk_tech_task.Reviews.Products.Sound.{fixed_of, update_product_fixed}
use cloudtalk_tech_task.Reviews.ProductList.{
  rating, SummaryRow, ProductCodec, by_rating, ListProductsInput, product_order, join_ratings,
  category_filter, product_cursor_key_of,
}
use cloudtalk_tech_task.Reviews.ProductList.Walked.{
  IsExact, listed_at, shown_rows, list_products_walked,
}
use cloudtalk_tech_task.Tests.Catalogue.{shorter, shorter-IsStrict}

abbrev same_text : String → String
same_text s = s

slug_of_lamp : derive_product_slug same_text same_text "  desk -- lamp!" ≡ "desk-lamp"
unfolding derive_product_slug
slug_of_lamp = refl

-- A name of two letters makes a slug that the table's own constraint refuses.
short_slug : derive_product_slug same_text same_text "tv" ≡ "tv"
unfolding derive_product_slug
short_slug = refl

abbrev lamp : Product
lamp = record {
  product_id = "p";
  slug = "lamp";
  sku = "LAMP-1";
  name = "Lamp";
  description = "";
  product_category_id = 3;
  price_minor = 1000;
  currency_code = "EUR";
  created_at = 10;
  updated_at = 10;
}

abbrev catalogue : World Catalogue (Unit {0})
catalogue = record { db = record { now = 50; products = lamp ∷ [] }; ext = tt }

abbrev desk : CreateProductInput
desk = record {
  slug = none;
  sku = "DESK-1";
  name = "desk";
  description = "";
  category_name = "home";
  price_minor = 5000;
  currency_code = "EUR";
}

two_slugs :
    map
      (λ (p : Product). p.slug)
      (create_product same_text same_text "q" desk catalogue).1.db.products
    ≡ "lamp" ∷ "desk" ∷ []
unfolding create_product meets_checks derive_product_slug
two_slugs = refl

abbrev rename : UpdateProductInput
rename = record {
  product_slug = "lamp";
  slug_key = false;
  sku_key = false;
  name = some "Desk lamp";
  description = none;
  category_name = none;
  price_minor = none;
  currency_code = none;
}

update_product_fixed_example :
    map fixed_of (update_product same_text same_text rename catalogue).1.db.products
    ≡ map fixed_of catalogue.db.products
update_product_fixed_example = update_product_fixed same_text same_text rename catalogue

renamed :
    map
      (λ (p : Product). p.name)
      (update_product same_text same_text rename catalogue).1.db.products
    ≡ "Desk lamp" ∷ []
unfolding update_product meets_checks
renamed = refl

abbrev chair : Product
chair = record lamp { product_id = "qq"; slug = "chair"; sku = "CHAIR-1"; name = "Chair" }

abbrev ratings : List RatingRow
ratings =
    record { product_id = "p"; review_count = 2; rating_average = some 450; computed_at = 30 } ∷ []

abbrev codec : ProductCodec
codec = record {
  encode = λ c. c.slug;
  decode = λ text. some (record {
    sort = rating;
    key = if str_eq text "lamp" then by_rating 451 2 else by_rating 0 0;
    slug = text;
  });
}

abbrev contains_nothing : String → String → Bool
contains_nothing a b = false

abbrev input : ListProductsInput
input = record { query = none; category = none; sort = rating; cursor = none; limit = 1 }

abbrev rows : List SummaryRow
rows =
    shown_rows shorter same_text same_text contains_nothing 1000 codec input (λ r. true) ratings
      (chair ∷ lamp ∷ [])

no_category :
    category_filter shorter same_text same_text contains_nothing 1000 codec none ≡ ok (λ r. true)
unfolding category_filter
no_category = refl

two-Comparable : Comparable (product_order shorter rating) rows
unfolding join_ratings
two-Comparable = ((refl, tt), (tt, tt))

IsExact-row :
    (r : SummaryRow)
    → codec.decode r.product.slug
      ≡ some (record {
        sort = rating;
        key = product_cursor_key_of 1000 rating r;
        slug = r.product.slug;
      })
    → IsExact 1000 codec rating r
IsExact-row r h = record { read_back = h; whole = λ e. cc }

two-IsExact : All (IsExact 1000 codec rating) rows
unfolding join_ratings
two-IsExact = (IsExact-row _ refl, (IsExact-row _ refl, tt))

two_listed : length (order_by (product_order shorter rating) rows) < 3
unfolding join_ratings order_by
two_listed = omega arith

list_products_walked_example :
    walk_pages
      (listed_at shorter same_text same_text contains_nothing 1000 codec input ratings
        (chair ∷ lamp ∷ []))
      3
      none
    ≡ some (order_by (product_order shorter rating) rows)
list_products_walked_example =
    list_products_walked shorter same_text same_text contains_nothing 1000 codec input ratings
      (chair ∷ lamp ∷ []) (λ r. true) 3 shorter-IsStrict (omega arith) no_category two-Comparable
      two-IsExact two_listed

derive_product_slug-is_slug_example :
    ((is_empty (derive_product_slug same_text same_text "desk -- lamp!")
        || is_slug (derive_product_slug same_text same_text "desk -- lamp!"))
      ≡ true)
    × (text_length (derive_product_slug same_text same_text "desk -- lamp!") ≤ 80)
derive_product_slug-is_slug_example =
    derive_product_slug-is_slug same_text same_text "desk -- lamp!"
