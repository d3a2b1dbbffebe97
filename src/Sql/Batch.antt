-- ===== src/Sql/Batch.antt =====
-- DELETE ... WHERE ctid = ANY (ARRAY(SELECT ctid ... WHERE ... LIMIT n)): a statement that deletes
-- at most `n` of the rows that it looks for, here the first ones.
use cloudtalk_tech_task.Base.{
  ℕ, zero, suc, ◌+◌, ◌-◌, ◌≤◌, Bool, true, false, List, [], ◌∷◌, ◌≡◌, refl, arith, length, min,
}
use cloudtalk_tech_task.Sql.{count_where, delete_where}

module _ {A : Type 0} where
  unfoldable pub delete_limited : (A → Bool) → ℕ → List A → List A
  delete_limited p zero xs = xs
  delete_limited p (suc n) [] = []
  delete_limited p (suc n) (x ∷ xs) = elim (p x) [
    | true ↦ delete_limited p n xs
    | false ↦ x ∷ delete_limited p (suc n) xs
  ]

  -- `numAffectedRows`
  unfoldable pub affected : (A → Bool) → ℕ → List A → ℕ
  unfolding delete_limited
  affected p n xs = length xs - length (delete_limited p n xs)

  pub length-delete_limited :
      (p : A → Bool) (n : ℕ) (xs : List A)
      → length (delete_limited p n xs) + min n (count_where p xs) ≡ length xs
  unfolding delete_limited
  length-delete_limited p zero xs = omega arith
  length-delete_limited p (suc n) [] = omega arith
  length-delete_limited p (suc n) (x ∷ xs) =
      ground (arith, length-delete_limited p n xs, length-delete_limited p (suc n) xs)

  pub affected_lem :
      (p : A → Bool) (n : ℕ) (xs : List A) → affected p n xs ≡ min n (count_where p xs)
  unfolding affected
  affected_lem p n xs = omega (arith, length-delete_limited p n xs)

  pub delete_where-delete_limited :
      (p : A → Bool) (n : ℕ) (xs : List A)
      → delete_where p (delete_limited p n xs) ≡ delete_where p xs
  unfolding delete_limited
  delete_where-delete_limited p zero xs = refl
  delete_where-delete_limited p (suc n) [] = refl
  delete_where-delete_limited p (suc n) (x ∷ xs) =
      ground (arith, delete_where-delete_limited p n xs, delete_where-delete_limited p (suc n) xs)

  pub count_where-delete_limited :
      (p : A → Bool) (n : ℕ) (xs : List A)
      → count_where p (delete_limited p n xs) ≡ count_where p xs - n
  unfolding delete_limited
  count_where-delete_limited p zero xs = omega arith
  count_where-delete_limited p (suc n) [] = omega arith
  count_where-delete_limited p (suc n) (x ∷ xs) =
      ground (arith, count_where-delete_limited p n xs, count_where-delete_limited p (suc n) xs)

  -- A DELETE that finds nothing keeps the table.
  pub delete_where_missed :
      (p : A → Bool) (xs : List A) → count_where p xs ≡ 0 → delete_where p xs ≡ xs
  delete_where_missed p [] h = refl
  delete_where_missed p (x ∷ xs) h = ground (arith, delete_where_missed p xs)

  -- A batch that is not full was the last one.
  pub delete_limited_last :
      (p : A → Bool) (n : ℕ) (xs : List A)
      → count_where p xs ≤ n
      → delete_limited p n xs ≡ delete_where p xs
  unfolding delete_limited
  delete_limited_last p zero xs h = ground (arith, delete_where_missed p xs)
  delete_limited_last p (suc n) [] h = refl
  delete_limited_last p (suc n) (x ∷ xs) h =
      ground (arith, delete_limited_last p n xs, delete_limited_last p (suc n) xs)
