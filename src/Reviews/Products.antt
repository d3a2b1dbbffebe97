-- ===== src/Reviews/Products.antt =====
-- `createProduct` and `updateProduct` of packages/reviews/src/products.ts, with
-- internal/product-update-input.ts and the category part of internal/reference-ids.ts. Here a product
-- has all its columns; the constraints of `reviews.product` are those of migration 0004. `trim` and
-- `lower` stand for the methods of strings, and `id` for the default of `product_id`.
pub mod Distinct
pub mod Sound
use Prim.Native.Char.{code}
use Prim.Native.String
use cloudtalk_tech_task.Base.{
  ℕ, zero, suc, String, Bool, true, false, Option, none, some, List, [], ◌∷◌, ◌++◌, ◌==◌, leb,
  str_eq, ◌&&◌, ◌||◌, not, any, ◌&◌, text_length, if◌then◌else◌,
}
use cloudtalk_tech_task.Kernel.Value.{Value}
use cloudtalk_tech_task.Kernel.Errors.{no_options, validation_error, not_found_error}
use cloudtalk_tech_task.Sql.{first_where, update_where}
use cloudtalk_tech_task.Sql.Io.{
  Io, World, Outcome, ok, threw, lift, throw, query, try_catch, rescue, continue, ◌>>=◌, ◌>>◌,
}
use cloudtalk_tech_task.Jobs.DeadLetter.{check_violation}
use cloudtalk_tech_task.Reviews.Store.{field_details}
use cloudtalk_tech_task.Reviews.Violations.{
  product_slug_constraint, product_sku_constraint, driver_violation, translate_unique_violation,
}
use cloudtalk_tech_task.Reviews.Slug.{derive_product_slug, is_slug}

pub record Product : Type 0 where
  pub product_id : String
  pub slug : String
  pub sku : String
  pub name : String
  pub description : String
  pub product_category_id : ℕ
  pub price_minor : ℕ
  pub currency_code : String
  pub created_at : ℕ
  pub updated_at : ℕ

pub record Catalogue : Type 0 where
  pub now : ℕ
  pub products : List Product

pub record CreateProductInput : Type 0 where
  pub slug : Option String
  pub sku : String
  pub name : String
  pub description : String
  pub category_name : String
  pub price_minor : ℕ
  pub currency_code : String

-- `slug_key` and `sku_key` say that the object has such a key (`'slug' in input`).
pub record UpdateProductInput : Type 0 where
  pub product_slug : String
  pub slug_key : Bool
  pub sku_key : Bool
  pub name : Option String
  pub description : Option String
  pub category_name : Option String
  pub price_minor : Option ℕ
  pub currency_code : Option String

pub record ProductUpdateBinds : Type 0 where
  pub name : Option String
  pub description : Option String
  pub product_category_id : Option ℕ
  pub price_minor : Option ℕ
  pub currency_code : Option String

-- PRODUCT_CATEGORY_ID_BY_NAME.get
abbrev pub category_id_by_name : String → Option ℕ
category_id_by_name name =
    if str_eq name "audio"
    then some 1
    else if str_eq name "computing"
    then some 2
    else if str_eq name "home"
    then some 3
    else if str_eq name "outdoor"
    then some 4
    else if str_eq name "kitchen"
    then some 5
    else none

abbrev pub is_upper : ℕ → Bool
is_upper c = leb b'A' c && leb c b'Z'

abbrev pub is_digit : ℕ → Bool
is_digit c = leb b'0' c && leb c b'9'

abbrev pub all_chars : (ℕ → Bool) → String → Bool
all_chars p String.[] = true
all_chars p (String.◌∷◌ c s) = p (code c) && all_chars p s

-- ck_product__sku_format: ^[A-Z0-9][A-Z0-9-]{2,31}$
unfoldable pub is_sku : String → Bool
is_sku String.[] = false
is_sku (String.◌∷◌ c s) =
    (is_upper (code c) || is_digit (code c))
    && all_chars (λ d. is_upper d || is_digit d || d == b'-') s
    && leb 2 (text_length s)
    && leb (text_length s) 31

-- The CHECK constraints of `reviews.product`.
unfoldable pub meets_checks : Product → Bool
unfolding is_slug is_sku
meets_checks p =
    is_slug p.slug
    && (leb 3 (text_length p.slug) && leb (text_length p.slug) 80)
    && is_sku p.sku
    && not (str_eq p.name "")
    && (all_chars is_upper p.currency_code && text_length p.currency_code == 3)

abbrev pub has_slug : String → Product → Bool
has_slug slug p = str_eq p.slug slug

abbrev pub has_sku : String → Product → Bool
has_sku sku p = str_eq p.sku sku

-- the driver's error where a constraint is violated by an INSERT of `p`
abbrev pub insert_violation : Product → List Product → Option Value
insert_violation p products =
    if not (meets_checks p)
    then some check_violation
    else if any (has_slug p.slug) products
    then some (driver_violation product_slug_constraint)
    else if any (has_sku p.sku) products
    then some (driver_violation product_sku_constraint)
    else none

-- COALESCE($n, column)
abbrev pub coalesce : {A : Type 0} → Option A → A → A
coalesce none column = column
coalesce (some bind) column = bind

-- The row after the SET list; the table's trigger moves `updated_at`.
unfoldable pub updated_product : ProductUpdateBinds → ℕ → Product → Product
updated_product b now p = record p {
  name = coalesce b.name p.name;
  description = coalesce b.description p.description;
  product_category_id = coalesce b.product_category_id p.product_category_id;
  price_minor = coalesce b.price_minor p.price_minor;
  currency_code = coalesce b.currency_code p.currency_code;
  updated_at = now;
}

abbrev pub is_undefined : {A : Type 0} → Option A → Bool
is_undefined none = true
is_undefined (some a) = false

abbrev pub map_ok : {A B : Type 0} → (A → B) → Outcome A → Outcome B
map_ok f (ok a) = ok (f a)
map_ok f (threw e) = threw e

abbrev pub nothing_given : UpdateProductInput → Bool
nothing_given i =
    is_undefined i.name
    && is_undefined i.description
    && is_undefined i.category_name
    && is_undefined i.price_minor
    && is_undefined i.currency_code

module _ (trim lower : String → String) where
  abbrev pub category_id_or : Option ℕ → String → Outcome ℕ
  category_id_or none name = threw (
      validation_error ("unknown product category \"" & name & "\"") (field_details "categoryName"))
  category_id_or (some id) name = ok id

  unfoldable pub product_category_id_for : String → Outcome ℕ
  product_category_id_for name = category_id_or (category_id_by_name (lower (trim name))) name

  -- the category's bind: null where no name is given
  abbrev pub category_bind : Option String → Outcome (Option ℕ)
  category_bind none = ok none
  category_bind (some name) = map_ok some (product_category_id_for name)

  unfoldable pub product_update_binds_for : UpdateProductInput → Outcome ProductUpdateBinds
  unfolding product_category_id_for
  product_update_binds_for i =
      if i.slug_key
      then threw (validation_error "slug cannot be changed after creation" (field_details "slug"))
      else if i.sku_key
      then threw (validation_error "sku cannot be changed after creation" (field_details "sku"))
      else if nothing_given i
      then threw (
          validation_error "updateProduct requires at least one field to change"
            (field_details "update"))
      else map_ok
          (λ category. record {
            name = i.name;
            description = i.description;
            product_category_id = category;
            price_minor = i.price_minor;
            currency_code = i.currency_code;
          })
          (category_bind i.category_name)

  abbrev pub slug_of : CreateProductInput → Option String → String
  slug_of input none = derive_product_slug trim lower input.name
  slug_of input (some slug) = slug

  abbrev pub new_product : String → CreateProductInput → ℕ → ℕ → Product
  new_product id input category now = record {
    product_id = id;
    slug = slug_of input input.slug;
    sku = input.sku;
    name = input.name;
    description = input.description;
    product_category_id = category;
    price_minor = input.price_minor;
    currency_code = input.currency_code;
    created_at = now;
    updated_at = now;
  }

module _ {E : Type 0} where
  abbrev pub inserted : Product → Option Value → Io Catalogue E Product
  inserted p none w = (ok p, record w { db = record (w.db) { products = w.db.products ++ p ∷ [] } })
  inserted p (some e) w = (threw e, w)

  -- INSERT INTO reviews.product ... RETURNING
  unfoldable pub insert_product : Product → Io Catalogue E Product
  insert_product p w = inserted p (insert_violation p w.db.products) w

  abbrev pub rethrown : Value → Option Value → Io Catalogue E Product
  rethrown e none = throw e
  rethrown e (some violation) = throw violation

  -- an UPDATE whose row would violate a CHECK fails as a whole
  abbrev pub updated : String → ProductUpdateBinds → Option Product → Io Catalogue E Product
  updated slug b none w = (
    threw (not_found_error ("updateProduct: no product with slug \"" & slug & "\"") no_options),
    w,
  )
  updated slug b (some p) w =
      if meets_checks (updated_product b w.db.now p)
      then (
        ok (updated_product b w.db.now p),
        record w {
          db = record (w.db) {
            products = update_where (has_slug slug) (updated_product b w.db.now) w.db.products;
          };
        },
      )
      else (threw check_violation, w)

  -- UPDATE reviews.product ... WHERE slug = ... RETURNING
  unfoldable pub update_statement : String → ProductUpdateBinds → Io Catalogue E Product
  unfolding updated_product
  update_statement slug b w = updated slug b (first_where (has_slug slug) w.db.products) w

module _ {E : Type 0} (trim lower : String → String) where
  unfoldable pub create_product : String → CreateProductInput → Io Catalogue E Product
  unfolding product_category_id_for insert_product
  create_product id input =
      try_catch
        (do
          category ← lift (product_category_id_for trim lower input.category_name)
          now ← query (λ (db : Catalogue). db.now)
          insert_product (new_product trim lower id input category now))
        (λ e. rethrown e (translate_unique_violation e))

  unfoldable pub update_product : UpdateProductInput → Io Catalogue E Product
  unfolding product_update_binds_for update_statement
  update_product input = do
    binds ← lift (product_update_binds_for trim lower input)
    update_statement input.product_slug binds
