-- ===== src/Tests/Ratings.antt =====
-- Two products and their reviews.
use cloudtalk_tech_task.Base.{
  ℕ, String, none, some, [], ◌∷◌, ◌≡◌, refl, ◌≢◌, inl, inr, str_eq, arith, Bool-cases, eq_iff,
}
use cloudtalk_tech_task.Kernel.Value.{Value}
use cloudtalk_tech_task.Sql.{first_where}
use cloudtalk_tech_task.Sql.Io.{World, threw}
use cloudtalk_tech_task.Jobs.Outbox.{OutboxDb}
use cloudtalk_tech_task.Reviews.Store.{
  not_owned_error, published, rejected, ReviewRow, ReviewDb, has_token,
}
use cloudtalk_tech_task.Reviews.Submit.{SubmitReviewInput, Gap, submit_review}
use cloudtalk_tech_task.Reviews.Submit.Outcomes.{create_spec, submit_review_lem}
use cloudtalk_tech_task.Reviews.Change.{
  UpdateReviewInput, RemoveReviewInput, to_rejected, update_review, remove_review,
  set_review_moderation_state,
}
use cloudtalk_tech_task.Reviews.Rating.{average_of, apply_rating_recompute}
use cloudtalk_tech_task.Reviews.Rating.Laws.{rating_of}
use cloudtalk_tech_task.Reviews.Rating.Published.{IsRating, stars, apply_rating_recompute-IsRating}
use cloudtalk_tech_task.Reviews.Rating.Scheduled.{IsScheduled}
use cloudtalk_tech_task.Reviews.Upkeep.{
  KeepsProduct, submit_review-IsScheduled, update_review-IsScheduled, remove_review-IsScheduled,
}
use cloudtalk_tech_task.Reviews.Ownership.{IsForeign, update_review_foreign}
use cloudtalk_tech_task.Reviews.Moderated.{
  set_review_moderation_state-IsScheduled, set_review_moderation_state-edits,
}

abbrev review : ReviewRow
review = record {
  token = "rev_1";
  product_id = "p1";
  author_id = "ann";
  rating = 4;
  title = "Good";
  body = "Does what it says";
  state = published;
  created_at = 10;
  updated_at = 10;
}

abbrev pub outbox : OutboxDb Value
outbox = record { now = 100; next_id = 1; rows = []; dead_letters = [] }

abbrev shop : ReviewDb
shop = record {
  products =
      record { product_id = "p1"; slug = "lamp" }
      ∷ record { product_id = "p2"; slug = "desk" }
      ∷ [];
  reviews = review ∷ [];
  ratings =
      record { product_id = "p1"; review_count = 1; rating_average = some 400; computed_at = 20 }
      ∷ [];
  outbox = outbox;
}

abbrev world : World ReviewDb ℕ
world = record { db = shop; ext = 0 }

abbrev quiet : Gap → ReviewDb → ReviewDb
quiet gap db = db

abbrev desk_review : SubmitReviewInput
desk_review = record {
  product_slug = "desk";
  author_id = "ann";
  rating = 5;
  title = "Fine";
  body = "A fine desk to work at";
}

abbrev correction : UpdateReviewInput
correction = record {
  review_token = "rev_1";
  author_id = "ann";
  rating = some 2;
  title = none;
  body = none;
}

abbrev removal : RemoveReviewInput
removal = record { review_token = "rev_1"; author_id = "ann" }

rounds_up : average_of 3 11 ≡ some 367
rounds_up = refl

shop-IsScheduled : IsScheduled shop
shop-IsScheduled product_id = elim (Bool-cases (str_eq "p1" product_id)) [
  | inl this ↦ inl (rw this)
  | inr other ↦ inl (rw other)
]

own_product : KeepsProduct "rev_1" shop shop
own_product row h = ground arith

submit_review_lem_example :
    submit_review quiet "rev_2" desk_review world ≡ create_spec quiet "rev_2" desk_review "p2" world
submit_review_lem_example = submit_review_lem quiet "rev_2" desk_review world

submit_review-IsScheduled_example : IsScheduled (submit_review quiet "rev_2" desk_review world).1.db
submit_review-IsScheduled_example =
    submit_review-IsScheduled quiet "rev_2" desk_review world (λ db h. h) shop-IsScheduled

update_review-IsScheduled_example : IsScheduled (update_review (λ db. db) correction world).1.db
update_review-IsScheduled_example =
    update_review-IsScheduled (λ db. db) correction world own_product (λ db h. h) shop-IsScheduled

set_review_moderation_state-edits_example :
    first_where
      (has_token "rev_1")
      (set_review_moderation_state (λ db. db) "rev_1" to_rejected world).1.db.reviews
    ≡ some (record review { state = rejected; updated_at = 100 })
set_review_moderation_state-edits_example =
    set_review_moderation_state-edits "rev_1" to_rejected world refl refl

apply_rating_recompute-IsRating_example :
    IsRating (stars "p1" shop.reviews) (rating_of "p1" (apply_rating_recompute "p1" shop).ratings)
    × ((other : String)
        → "p1" ≢ other
        → rating_of other (apply_rating_recompute "p1" shop).ratings ≡ rating_of other shop.ratings)
apply_rating_recompute-IsRating_example = apply_rating_recompute-IsRating "p1" shop

remove_review-IsScheduled_example : IsScheduled (remove_review (λ db. db) removal world).1.db
remove_review-IsScheduled_example =
    remove_review-IsScheduled (λ db. db) removal world own_product (λ db h. h) shop-IsScheduled

set_review_moderation_state-IsScheduled_example :
    IsScheduled (set_review_moderation_state (λ db. db) "rev_1" to_rejected world).1.db
set_review_moderation_state-IsScheduled_example =
    set_review_moderation_state-IsScheduled (λ db. db) "rev_1" to_rejected world own_product
      (λ db h. h) shop-IsScheduled

abbrev intrusion : UpdateReviewInput
intrusion = record correction { author_id = "bob" }

bob-IsForeign : IsForeign "rev_1" "bob" shop
bob-IsForeign row h = ground (arith, eq_iff "ann" "bob")

update_review_foreign_example :
    update_review (λ db. db) intrusion world ≡ (threw not_owned_error, world)
update_review_foreign_example = update_review_foreign (λ db. db) world intrusion bob-IsForeign
