-- ===== src/Jobs/Retention/Batches.antt =====
-- The batched delete: where it ends, and what it never touches.
use cloudtalk_tech_task.Base.{
  ℕ, zero, suc, ◌+◌, ◌<◌, Bool, true, false, none, some, List, [], ◌∷◌, ◌≡◌, refl, ◌∙◌, arith, ltb,
  Bool-cases, inl, inr,
}
use cloudtalk_tech_task.Sql.{count_where, delete_where, select_where}
use cloudtalk_tech_task.Sql.Batch.{
  delete_limited, affected, affected_lem, delete_where-delete_limited, count_where-delete_limited,
  delete_limited_last,
}
use cloudtalk_tech_task.Jobs.Retention.{batched_delete_from, batched_delete}

module _ {A : Type 0} where
  batched_delete_from_lem :
      (fuel : ℕ) (p : A → Bool) (batch_size total : ℕ) (rows : List A)
      → 0 < batch_size
      → count_where p rows < fuel
      → batched_delete_from fuel p batch_size total rows
        ≡ some (total + count_where p rows, delete_where p rows)
  unfolding batched_delete_from
  batched_delete_from_lem zero p b total rows h k = absurd (omega arith)
  batched_delete_from_lem (suc fuel) p b total rows h k =
      elim (Bool-cases (ltb (affected p b rows) b)) [
        | inl last ↦ rw last (ground (arith, affected_lem p b rows, delete_limited_last p b rows))
        | inr full ↦ rw full (
            batched_delete_from_lem fuel p b (total + affected p b rows) (delete_limited p b rows) h
              (ground (arith, affected_lem p b rows, count_where-delete_limited p b rows))
            ∙ ground (
              arith,
              affected_lem p b rows,
              count_where-delete_limited p b rows,
              delete_where-delete_limited p b rows,
            ))
      ]

  -- With a positive batch size and more fuel than there are matching rows, the batches delete all of
  -- them and nothing else, and answer their number.
  pub batched_delete_lem :
      (fuel : ℕ) (p : A → Bool) (batch_size : ℕ) (rows : List A)
      → 0 < batch_size
      → count_where p rows < fuel
      → batched_delete fuel p batch_size rows ≡ some (count_where p rows, delete_where p rows)
  unfolding batched_delete
  batched_delete_lem fuel p b rows h k = batched_delete_from_lem fuel p b 0 rows h k ∙ ground arith

  batched_delete_from_zero :
      (fuel : ℕ) (p : A → Bool) (total : ℕ) (rows : List A)
      → batched_delete_from fuel p 0 total rows ≡ none
  unfolding batched_delete_from
  batched_delete_from_zero zero p total rows = refl
  batched_delete_from_zero (suc fuel) p total rows = ground (
    arith,
    affected_lem p 0 rows,
    batched_delete_from_zero fuel p (total + affected p 0 rows) (delete_limited p 0 rows),
  )

  -- With a batch size of 0 no fuel is enough.
  pub batched_delete_zero :
      (fuel : ℕ) (p : A → Bool) (rows : List A) → batched_delete fuel p 0 rows ≡ none
  unfolding batched_delete
  batched_delete_zero fuel p rows = batched_delete_from_zero fuel p 0 rows

  select_where-delete_limited :
      (q p : A → Bool) (n : ℕ) (rows : List A)
      → ((r : A) → q r ≡ true → p r ≡ false)
      → select_where q (delete_limited p n rows) ≡ select_where q rows
  unfolding delete_limited
  select_where-delete_limited q p zero rows h = refl
  select_where-delete_limited q p (suc n) [] h = refl
  select_where-delete_limited q p (suc n) (r ∷ rows) h = ground (
    arith,
    h r,
    select_where-delete_limited q p n rows h,
    select_where-delete_limited q p (suc n) rows h,
  )

  -- However many batches run, the rows of a condition that excludes theirs stay.
  pub select_where-batched_delete_from :
      (fuel : ℕ) (q p : A → Bool) (batch_size total : ℕ) (rows : List A) {n : ℕ} {left : List A}
      → ((r : A) → q r ≡ true → p r ≡ false)
      → batched_delete_from fuel p batch_size total rows ≡ some (n, left)
      → select_where q left ≡ select_where q rows
  unfolding batched_delete_from
  select_where-batched_delete_from zero q p b total rows h e = ground arith
  select_where-batched_delete_from (suc fuel) q p b total rows {n} {left} h e =
      elim (Bool-cases (ltb (affected p b rows) b)) [
        | inl last ↦ ground (arith, select_where-delete_limited q p b rows h)
        | inr full ↦
            select_where-batched_delete_from fuel q p b (total + affected p b rows)
              (delete_limited p b rows) {n = n} {left = left} h (ground arith)
            ∙ select_where-delete_limited q p b rows h
      ]

  pub select_where-batched_delete :
      (fuel : ℕ) (q p : A → Bool) (batch_size : ℕ) (rows : List A) {n : ℕ} {left : List A}
      → ((r : A) → q r ≡ true → p r ≡ false)
      → batched_delete fuel p batch_size rows ≡ some (n, left)
      → select_where q left ≡ select_where q rows
  unfolding batched_delete
  select_where-batched_delete fuel q p b rows h e =
      select_where-batched_delete_from fuel q p b 0 rows h e
