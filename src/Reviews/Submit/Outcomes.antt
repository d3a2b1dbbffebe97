-- ===== src/Reviews/Submit/Outcomes.antt =====
-- The outcome of a submission on every branch.
use cloudtalk_tech_task.Base.{
  String, true, false, Option, none, some, [], ◌∷◌, ◌++◌, ◌≡◌, refl, str_eq, ◌&◌, if◌then◌else◌,
  any, Bool-cases, Option-cases, inl, inr,
}
use cloudtalk_tech_task.Kernel.Value.{plain, Value, str, obj, end, prop}
use cloudtalk_tech_task.Kernel.Errors.{no_options, not_found_error, internal_error, app_error_of}
use cloudtalk_tech_task.Sql.{first_where}
use cloudtalk_tech_task.Sql.Laws.{any-first_where}
use cloudtalk_tech_task.Sql.Io.{World, Outcome, ok, threw, settle, rescue}
use cloudtalk_tech_task.Reviews.Store.{
  ProductRow, ReviewRow, ReviewDb, has_token, is_review_of, emit_rating_recompute,
  resolve_product_id,
}
use cloudtalk_tech_task.Reviews.Violations.{
  review_token_constraint, driver_violation, as_unique_violation, unique_violation_constraint_of,
  translate_unique_violation,
}
use cloudtalk_tech_task.Reviews.Submit.{
  SubmitReviewInput, SubmitReviewResult, to_review_record, is_replay, already_reviewed, new_review,
  Gap, before_claim, before_reread, replay_or_conflict, insert_review, claim_and_insert,
  submit_transaction, submit_failed, submit_absent, submit_review,
}

-- what a freshly minted token that is already taken is answered with
abbrev pub token_collision : Value
token_collision =
    internal_error false "unique constraint violated on an internally-minted value" (record {
      details = some (obj plain (prop "constraint" (str review_token_constraint) end));
      cause = driver_violation review_token_constraint;
    })

-- the review and its event, in one commit
abbrev pub added : String → SubmitReviewInput → String → ReviewDb → ReviewDb
added token input product_id db =
    emit_rating_recompute product_id
      (record db { reviews = db.reviews ++ new_review token product_id input db.outbox.now ∷ [] })

module _ {E : Type 0} (elsewhere : Gap → ReviewDb → ReviewDb) (token : String)
    (input : SubmitReviewInput) where
  -- An earlier review of the author is answered again if it says the same, and is a conflict if not.
  abbrev pub existing_spec :
      ReviewRow → World ReviewDb E → Outcome SubmitReviewResult × World ReviewDb E
  existing_spec row w =
      if is_replay row input
      then (ok (record { review = to_review_record input.product_slug row; replayed = true }), w)
      else (threw already_reviewed, w)

  abbrev pub create_spec : String → World ReviewDb E → Outcome SubmitReviewResult × World ReviewDb E
  create_spec product_id w =
      if any (has_token token) w.db.reviews then (threw token_collision, w) else (
        ok (record {
          review =
              to_review_record input.product_slug
                (new_review token product_id input w.db.outbox.now);
          replayed = false;
        }),
        record w { db = added token input product_id w.db },
      )

  -- by the review that is found under the lock
  abbrev pub claim_spec :
      String → Option ReviewRow → World ReviewDb E → Outcome SubmitReviewResult × World ReviewDb E
  claim_spec product_id none w = create_spec product_id w
  claim_spec product_id (some row) w = existing_spec row w

  -- by the review that is found before the lock
  abbrev pub product_spec :
      String → Option ReviewRow → World ReviewDb E → Outcome SubmitReviewResult × World ReviewDb E
  product_spec product_id none w =
      claim_spec product_id
        (first_where (is_review_of product_id input.author_id)
          (elsewhere before_claim w.db).reviews)
        (record w { db = elsewhere before_claim w.db })
  product_spec product_id (some row) w = existing_spec row w

  replay_or_conflict_lem :
      (row : ReviewRow) (w : World ReviewDb E)
      → replay_or_conflict (some row) input w ≡ existing_spec row w
  unfolding replay_or_conflict
  replay_or_conflict_lem row w = elim (Bool-cases (is_replay row input)) [
    | inl same ↦ rw same
    | inr other ↦ rw other
  ]

  -- The catch passes on the conflict of a replay.
  existing_lem :
      (product_id : String) (row : ReviewRow) (w : World ReviewDb E)
      → rescue
          (settle w.db (existing_spec row w))
          (submit_failed (elsewhere before_reread) product_id input)
        ≡ existing_spec row w
  unfolding submit_failed unique_violation_constraint_of translate_unique_violation
      as_unique_violation app_error_of
  existing_lem product_id row w = elim (Bool-cases (is_replay row input)) [
    | inl same ↦ rw same
    | inr other ↦ rw other
  ]

  create_lem :
      (product_id : String) (w : World ReviewDb E)
      → first_where (is_review_of product_id input.author_id) w.db.reviews ≡ none
      → rescue
          (settle w.db (claim_and_insert token product_id input none w))
          (submit_failed (elsewhere before_reread) product_id input)
        ≡ create_spec product_id w
  unfolding claim_and_insert insert_review submit_failed unique_violation_constraint_of
      translate_unique_violation as_unique_violation app_error_of
  create_lem product_id w h = elim (Bool-cases (any (has_token token) w.db.reviews)) [
    | inl taken ↦ rw taken
    | inr free ↦ rw (free, any-first_where (is_review_of product_id input.author_id) w.db.reviews h)
  ]

  claimed_lem :
      (product_id : String) (o : Option ReviewRow) (w : World ReviewDb E)
      → first_where (is_review_of product_id input.author_id) w.db.reviews ≡ o
      → rescue
          (settle w.db (claim_and_insert token product_id input o w))
          (submit_failed (elsewhere before_reread) product_id input)
        ≡ claim_spec product_id o w
  unfolding claim_and_insert
  claimed_lem product_id none w e = create_lem product_id w e
  claimed_lem product_id (some row) w e =
      rw (replay_or_conflict_lem row w) (existing_lem product_id row w)

  absent_lem :
      (product_id : String) (o : Option ReviewRow) (w : World ReviewDb E)
      → submit_absent elsewhere token product_id input o w ≡ product_spec product_id o w
  unfolding submit_absent submit_transaction
  absent_lem product_id none w =
      claimed_lem product_id _ (record w { db = elsewhere before_claim w.db }) refl
  absent_lem product_id (some row) w = replay_or_conflict_lem row w

  -- A submission does what its product and the author's reviews say: an unknown slug is a
  -- NotFoundError; a review of the author that was there before, or is found under the lock,
  -- is answered again if it says the same and is a ConflictError if not; otherwise the review
  -- and its event are added in one commit, or, where the token is taken, an InternalError is
  -- thrown and nothing is written.
  pub submit_review_lem :
      (w : World ReviewDb E)
      → submit_review elsewhere token input w
        ≡ elim (first_where (λ (p : ProductRow). str_eq p.slug input.product_slug) w.db.products) [
          | none ↦ (
            threw (
                not_found_error ("no product with slug \"" & input.product_slug & "\"") no_options),
            w,
          )
          | some p ↦
              product_spec p.product_id
                (first_where (is_review_of p.product_id input.author_id) w.db.reviews)
                w
        ]
  unfolding submit_review resolve_product_id
  submit_review_lem w =
      elim (Option-cases
        (first_where (λ (p : ProductRow). str_eq p.slug input.product_slug) w.db.products)) [
          | inl e ↦ rw e
          | inr (p, e) ↦ rw e (absent_lem p.product_id _ w)
        ]
