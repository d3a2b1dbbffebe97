-- ===== src/Reviews/Rebuild/Ratings.antt =====
-- The ratings after a rebuild.
use cloudtalk_tech_task.Base.{
  ℕ, ◌<◌, String, Bool, true, false, none, some, List, [], ◌∷◌, ◌≡◌, refl, ◌∙◌, ap, arith, str_eq,
  str_eq_refl, str_eq→eq, ◌||◌, any, map, length, if◌then◌else◌, Bool-cases, inl, inr,
}
use cloudtalk_tech_task.Sql.Io.{ok}
use cloudtalk_tech_task.Sql.Keyset.{insert_by, order_by}
use cloudtalk_tech_task.Sql.Keyset.Order.{Comparable, IsStrict}
use cloudtalk_tech_task.Reviews.Store.{ReviewRow, ReviewDb}
use cloudtalk_tech_task.Reviews.Rating.{aggregate, apply_rating_recompute}
use cloudtalk_tech_task.Reviews.Rating.Laws.{rating_of, apply_rating_recompute_lem}
use cloudtalk_tech_task.Reviews.Rebuild.{
  distinct, reviewed, recompute_all, reported, rebuild_product_rating,
}
use cloudtalk_tech_task.Reviews.Rebuild.Pages.{rebuild_from_lem}

any-insert_by :
    (before : String → String → Bool) (p : String → Bool) (x : String) (xs : List String)
    → any p (insert_by before x xs) ≡ (p x || any p xs)
unfolding insert_by
any-insert_by before p x [] = refl
any-insert_by before p x (y ∷ ys) = ground (arith, any-insert_by before p x ys)

any-order_by :
    (before : String → String → Bool) (p : String → Bool) (xs : List String)
    → any p (order_by before xs) ≡ any p xs
unfolding order_by
any-order_by before p [] = refl
any-order_by before p (x ∷ xs) =
    any-insert_by before p x (order_by before xs) ∙ ap (λ b. p x || b) (any-order_by before p xs)

-- What holds of one element holds of an equal one.
any_of_equal :
    (id x : String) (xs : List String)
    → str_eq id x ≡ true
    → any (str_eq x) xs ≡ true
    → any (str_eq id) xs ≡ true
any_of_equal id x xs h k = let e : id ≡ x = str_eq→eq id x h in rw e k

any-distinct : (id : String) (xs : List String) → any (str_eq id) (distinct xs) ≡ any (str_eq id) xs
unfolding distinct
any-distinct id [] = refl
any-distinct id (x ∷ xs) =
    let rest = any-distinct id xs in
    elim (Bool-cases (any (str_eq x) (distinct xs))) [
      | inl there ↦ ground (arith, rest, any_of_equal id x (distinct xs))
      | inr absent ↦ ground (arith, rest)
    ]

-- whether a product has a review
abbrev pub has_review : String → List ReviewRow → Bool
has_review id reviews = any (str_eq id) (map (λ (r : ReviewRow). r.product_id) reviews)

if_or :
    {A : Type 0} (a b : Bool) (x y : A)
    → (if b then x else (if a then x else y)) ≡ (if a || b then x else y)
if_or true true x y = refl
if_or true false x y = refl
if_or false true x y = refl
if_or false false x y = refl

one_rating :
    (id x : String) (db : ReviewDb)
    → rating_of id (apply_rating_recompute x db).ratings
      ≡ (if str_eq id x then aggregate id db.reviews else rating_of id db.ratings)
one_rating id x db = elim (Bool-cases (str_eq id x)) [
  | inl same ↦
      let e : id ≡ x = str_eq→eq id x same in rw same (rw e (apply_rating_recompute_lem x db).0)
  | inr other ↦
      rw other
        ((apply_rating_recompute_lem x db).1 id (λ e. cc (other, ap (str_eq id) e, str_eq_refl id)))
]

apply_rating_recompute-reviews :
    (x : String) (db : ReviewDb) → (apply_rating_recompute x db).reviews ≡ db.reviews
unfolding apply_rating_recompute
apply_rating_recompute-reviews x db = refl

recompute_all_ratings :
    (id : String) (ids : List String) (db : ReviewDb)
    → rating_of id (recompute_all ids db).ratings
      ≡ (if any (str_eq id) ids then aggregate id db.reviews else rating_of id db.ratings)
unfolding recompute_all
recompute_all_ratings id [] db = refl
recompute_all_ratings id (x ∷ ids) db =
    recompute_all_ratings id ids (apply_rating_recompute x db)
    ∙ rw (one_rating id x db, apply_rating_recompute-reviews x db)
        (if_or (str_eq id x) (any (str_eq id) ids) (aggregate id db.reviews)
          (rating_of id db.ratings))

-- With a positive batch size, product ids that the order tells apart, and as much fuel as
-- products with a review and one, the unscoped rebuild ends and reports the number of products
-- with a review; the rating of each of them is then what its published reviews say, and every
-- other rating is what it was.
pub rebuild_product_rating_lem :
    (before : String → String → Bool) (batch_size fuel : ℕ) (db : ReviewDb)
    → IsStrict before
    → 0 < batch_size
    → Comparable before (reviewed db.reviews)
    → length (order_by before (reviewed db.reviews)) < fuel
    → (db' : ReviewDb) × (rebuild_product_rating before batch_size fuel none db
        ≡ some (ok (length (order_by before (reviewed db.reviews))), db'))
      × ((id : String)
          → rating_of id db'.ratings ≡ (
              if has_review id db.reviews
              then aggregate id db.reviews
              else rating_of id db.ratings))
unfolding rebuild_product_rating
rebuild_product_rating_lem before batch_size fuel db strict pos comparable enough = (
  recompute_all (order_by before (reviewed db.reviews)) db,
  ap reported
      (rebuild_from_lem before batch_size db.reviews strict pos comparable fuel db refl enough),
  λ id.
      recompute_all_ratings id (order_by before (reviewed db.reviews)) db
      ∙ rw (
          any-order_by before (str_eq id) (reviewed db.reviews)
          ∙ any-distinct id (map (λ (r : ReviewRow). r.product_id) db.reviews)),
)
