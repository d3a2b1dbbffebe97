-- ===== src/Tests/Catalogue.antt =====
-- Lists and their cursors, the rebuild of ratings, and products.
use cloudtalk_tech_task.Base.{
  ℕ, ◌≤◌, ◌<◌, String, Bool, none, some, List, [], ◌∷◌, ◌≡◌, refl, arith, ltb, str_eq, length, All,
  text_length, if◌then◌else◌,
}
use cloudtalk_tech_task.Sql.{select_where}
use cloudtalk_tech_task.Sql.Io.{World, ok}
use cloudtalk_tech_task.Sql.Keyset.{Page, order_by, fetch_page, walk_pages}
use cloudtalk_tech_task.Sql.Keyset.Order.{Comparable, IsStrict}
use cloudtalk_tech_task.Reviews.Store.{published, ReviewRow, ReviewDb}
use cloudtalk_tech_task.Reviews.Rating.{aggregate}
use cloudtalk_tech_task.Reviews.Rating.Laws.{rating_of}
use cloudtalk_tech_task.Reviews.ReviewList.{
  to_date, of_date, CursorCodec, is_newer, is_listed, list_reviews_for_product,
}
use cloudtalk_tech_task.Reviews.ReviewList.Walked.{
  page_of, IsExact, list_reviews_for_product_walked, list_reviews_for_product_behind,
}
use cloudtalk_tech_task.Reviews.Rebuild.{distinct, reviewed, rebuild_product_rating}
use cloudtalk_tech_task.Reviews.Rebuild.Ratings.{has_review, rebuild_product_rating_lem}
use cloudtalk_tech_task.Tests.Ratings.{outbox}

-- texts by their length
abbrev pub shorter : String → String → Bool
shorter a b = ltb (text_length a) (text_length b)

pub shorter-IsStrict : IsStrict shorter
shorter-IsStrict = record {
  irreflexive = λ a. ground arith;
  transitive = λ a b c h k. ground arith;
}

abbrev review_at : String → String → ℕ → ReviewRow
review_at token product_id created_at = record {
  token = token;
  product_id = product_id;
  author_id = token;
  rating = 4;
  title = "Good";
  body = "Does what it says";
  state = published;
  created_at = created_at;
  updated_at = created_at;
}

abbrev shop_with : List ReviewRow → World ReviewDb (Unit {0})
shop_with reviews = record {
  db = record {
    products = record { product_id = "p"; slug = "lamp" } ∷ [];
    reviews = reviews;
    ratings = [];
    outbox = outbox;
  };
  ext = tt;
}

-- a codec for the cursors of three reviews, made at `times`
abbrev codec_for : ℕ → ℕ → ℕ → CursorCodec String
codec_for a b c = record {
  encode = λ cursor. cursor.token;
  decode = λ text. some (record {
    pin = "lamp";
    created_at = if str_eq text "r" then a else if str_eq text "rr" then b else c;
    token = text;
  });
}

abbrev whole_ms : World ReviewDb (Unit {0})
whole_ms =
    shop_with (review_at "r" "p" 2000 ∷ review_at "rrr" "p" 3000 ∷ review_at "rr" "p" 2000 ∷ [])

IsExact-at :
    (token : String) (t : ℕ)
    → (codec_for 2 2 3).decode token
      ≡ some (record { pin = "lamp"; created_at = to_date 1000 t; token = token })
    → of_date 1000 (to_date 1000 t) ≡ t
    → IsExact 1000 (codec_for 2 2 3) "lamp" (review_at token "p" t)
IsExact-at token t read whole = record { read_back = read; whole = whole }

three_listed :
    length (order_by (is_newer shorter) (select_where (is_listed "p") whole_ms.db.reviews)) < 4
unfolding order_by
three_listed = omega arith

list_reviews_for_product_walked_example :
    walk_pages
      (λ cursor.
        page_of (list_reviews_for_product shorter 1000 (codec_for 2 2 3) "lamp" cursor 1 whole_ms))
      4
      none
    ≡ some (order_by (is_newer shorter) (select_where (is_listed "p") whole_ms.db.reviews))
list_reviews_for_product_walked_example =
    list_reviews_for_product_walked shorter 1000 (codec_for 2 2 3) "lamp" 1 4
      (record { product_id = "p"; slug = "lamp" }) whole_ms shorter-IsStrict (omega arith) refl
      ((refl, (refl, tt)), ((refl, tt), (tt, tt)))
      (
        IsExact-at "r" 2000 refl refl,
        (IsExact-at "rrr" 3000 refl refl, (IsExact-at "rr" 2000 refl refl, tt)),
      )
      three_listed

-- Three reviews of one microsecond inside a millisecond: the first page is the only one that shows
-- any of them.
abbrev one_microsecond : World ReviewDb (Unit {0})
one_microsecond =
    shop_with (review_at "r" "p" 2500 ∷ review_at "rr" "p" 2500 ∷ review_at "rrr" "p" 2500 ∷ [])

skipped :
    walk_pages
      (λ cursor.
        page_of
          (list_reviews_for_product shorter 1000 (codec_for 2 2 2) "lamp" cursor 1 one_microsecond))
      4
      none
    ≡ some (review_at "rrr" "p" 2500 ∷ [])
unfolding walk_pages list_reviews_for_product fetch_page
skipped = refl

list_reviews_for_product_behind_example :
    (page : Page ReviewRow String) × (page_of (
        list_reviews_for_product shorter 1000
          (codec_for 2 2 2)
          "lamp"
          (some "rrr")
          1
          one_microsecond)
      ≡ some page)
    × All (λ s. s.created_at ≤ 2000) page.items
list_reviews_for_product_behind_example =
    list_reviews_for_product_behind shorter 1000 (codec_for 2 2 2) "lamp" 1
      (record { product_id = "p"; slug = "lamp" }) (review_at "rrr" "p" 2500) one_microsecond refl
      refl

-- two products with reviews, a page each
abbrev two_products : ReviewDb
two_products =
    (shop_with (review_at "r" "pp" 10 ∷ review_at "rr" "p" 20 ∷ review_at "rrr" "pp" 30 ∷ [])).db

two-Comparable : Comparable shorter (reviewed two_products.reviews)
unfolding distinct
two-Comparable = ((refl, tt), (tt, tt))

two_listed : length (order_by shorter (reviewed two_products.reviews)) < 5
unfolding order_by distinct
two_listed = omega arith

rebuild_product_rating_lem_example :
    (db' : ReviewDb) × (rebuild_product_rating shorter 1 5 none two_products
      ≡ some (ok (length (order_by shorter (reviewed two_products.reviews))), db'))
    × ((id : String)
        → rating_of id db'.ratings ≡ (
            if has_review id two_products.reviews
            then aggregate id two_products.reviews
            else rating_of id two_products.ratings))
rebuild_product_rating_lem_example =
    rebuild_product_rating_lem shorter 1 5 two_products shorter-IsStrict (omega arith)
      two-Comparable two_listed
