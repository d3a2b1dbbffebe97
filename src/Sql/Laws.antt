-- ===== src/Sql/Laws.antt =====
-- What the statements do to a row that a later statement looks for.
use cloudtalk_tech_task.Base.{
  ◌+◌, ◌≤◌, Bool, true, false, none, some, List, [], ◌∷◌, ◌++◌, ◌≡◌, refl, ◌∙◌, arith,
  if◌then◌else◌, any, ◌&&◌, Bool-cases, All, inl, inr, not, length,
}
use cloudtalk_tech_task.Sql.{
  select_where, first_where, update_where, count_where, delete_where, insert_unless,
}

module _ {A : Type 0} where
  pub first_where_sound :
      (p : A → Bool) (xs : List A) {x : A} → first_where p xs ≡ some x → p x ≡ true
  first_where_sound p [] h = ground arith
  first_where_sound p (y ∷ ys) {x} h = elim (Bool-cases (p y)) [
    | inl here ↦ ground arith
    | inr there ↦ first_where_sound p ys (ground arith)
  ]

  -- A stronger test that the first row meets finds the same row.
  pub first_where-and :
      (p q : A → Bool) (xs : List A) {x : A}
      → first_where p xs ≡ some x
      → q x ≡ true
      → first_where (λ y. p y && q y) xs ≡ some x
  first_where-and p q [] h k = ground arith
  first_where-and p q (y ∷ ys) {x} h k = elim (Bool-cases (p y)) [
    | inl here ↦ ground arith
    | inr there ↦ ground (arith, first_where-and p q ys {x = x})
  ]

  -- An update that keeps the key is seen by a later look for the key.
  pub first_where-update_where :
      (p u : A → Bool) (f : A → A) (xs : List A) {x : A}
      → ((y : A) → p (f y) ≡ p y)
      → first_where p xs ≡ some x
      → first_where p (update_where u f xs) ≡ some (if u x then f x else x)
  first_where-update_where p u f [] k h = ground arith
  first_where-update_where p u f (y ∷ ys) {x} k h = elim (Bool-cases (p y)) [
    | inl here ↦ ground (arith, k y)
    | inr there ↦ ground (arith, k y, first_where-update_where p u f ys {x = x} k)
  ]

  pub first_where-update_hit :
      (p u : A → Bool) (f : A → A) (xs : List A) {x : A}
      → ((y : A) → p (f y) ≡ p y)
      → first_where p xs ≡ some x
      → u x ≡ true
      → first_where p (update_where u f xs) ≡ some (f x)
  first_where-update_hit p u f xs {x} k h hit = first_where-update_where p u f xs k h ∙ rw hit

  pub first_where-update_miss :
      (p u : A → Bool) (f : A → A) (xs : List A) {x : A}
      → ((y : A) → p (f y) ≡ p y)
      → first_where p xs ≡ some x
      → u x ≡ false
      → first_where p (update_where u f xs) ≡ some x
  first_where-update_miss p u f xs {x} k h miss = first_where-update_where p u f xs k h ∙ rw miss

  -- An update whose rows no longer meet its own condition leaves none that do.
  pub count_where-update_same :
      (p : A → Bool) (f : A → A) (xs : List A)
      → ((y : A) → p (f y) ≡ false)
      → count_where p (update_where p f xs) ≡ 0
  count_where-update_same p f [] k = refl
  count_where-update_same p f (y ∷ ys) k = ground (arith, k y, count_where-update_same p f ys k)

  pub any-first_where : (p : A → Bool) (xs : List A) → first_where p xs ≡ none → any p xs ≡ false
  any-first_where p [] h = refl
  any-first_where p (x ∷ xs) h = ground (arith, any-first_where p xs)

  pub any_of_first_where :
      (p : A → Bool) (xs : List A) {x : A} → first_where p xs ≡ some x → any p xs ≡ true
  any_of_first_where p [] h = ground arith
  any_of_first_where p (y ∷ ys) {x} h = ground (arith, any_of_first_where p ys {x = x})

  pub first_where-append :
      (p : A → Bool) (xs ys : List A)
      → first_where p xs ≡ none
      → first_where p (xs ++ ys) ≡ first_where p ys
  first_where-append p [] ys h = refl
  first_where-append p (x ∷ xs) ys h = ground (arith, first_where-append p xs ys)

  -- After INSERT ... ON CONFLICT DO NOTHING the key's row is the one that was there, if any.
  pub first_where-insert_unless_old :
      (p : A → Bool) (row : A) (xs : List A) {x : A}
      → first_where p xs ≡ some x
      → first_where p (insert_unless p row xs) ≡ some x
  first_where-insert_unless_old p row xs h = rw (any_of_first_where p xs h) h

  pub first_where-insert_unless_new :
      (p : A → Bool) (row : A) (xs : List A)
      → first_where p xs ≡ none
      → p row ≡ true
      → first_where p (insert_unless p row xs) ≡ some row
  first_where-insert_unless_new p row xs h k =
      rw (any-first_where p xs h) (rw (first_where-append p xs (row ∷ []) h) (rw k))

  pub count_where-update_where :
      (p u : A → Bool) (f : A → A) (xs : List A)
      → ((y : A) → u y ≡ true → p (f y) ≡ false)
      → count_where p (update_where u f xs) ≡ count_where (λ y. p y && not (u y)) xs
  count_where-update_where p u f [] k = refl
  count_where-update_where p u f (y ∷ ys) k =
      ground (arith, k y, count_where-update_where p u f ys k)

  pub count_where-first_where :
      (p : A → Bool) (xs : List A) → count_where p xs ≡ 0 → first_where p xs ≡ none
  count_where-first_where p [] h = refl
  count_where-first_where p (x ∷ xs) h = ground (arith, count_where-first_where p xs)

  pub any-append_self :
      (p : A → Bool) (row : A) (xs : List A) → p row ≡ true → any p (xs ++ row ∷ []) ≡ true
  any-append_self p row [] h = ground arith
  any-append_self p row (x ∷ xs) h = ground (arith, any-append_self p row xs)

  pub any-insert_unless :
      (p : A → Bool) (row : A) (xs : List A) → p row ≡ true → any p (insert_unless p row xs) ≡ true
  any-insert_unless p row xs h = elim (Bool-cases (any p xs)) [
    | inl there ↦ rw there there
    | inr absent ↦ rw absent (any-append_self p row xs h)
  ]

  -- An update takes its rows out of a count that they were all part of.
  pub count_where-update_out :
      (p u : A → Bool) (f : A → A) (xs : List A)
      → ((y : A) → u y ≡ true → p y ≡ true)
      → ((y : A) → u y ≡ true → p (f y) ≡ false)
      → count_where p (update_where u f xs) + count_where u xs ≡ count_where p xs
  count_where-update_out p u f [] k l = omega arith
  count_where-update_out p u f (y ∷ ys) k l =
      ground (arith, k y, l y, count_where-update_out p u f ys k l)

  -- An UPDATE that hits no row changes nothing.
  pub update_where_missed :
      (p : A → Bool) (f : A → A) (xs : List A) → first_where p xs ≡ none → update_where p f xs ≡ xs
  update_where_missed p f [] h = refl
  update_where_missed p f (x ∷ xs) h = ground (arith, update_where_missed p f xs)

  pub count_where_absent :
      (p : A → Bool) (xs : List A) → first_where p xs ≡ none → count_where p xs ≡ 0
  count_where_absent p [] h = refl
  count_where_absent p (x ∷ xs) h = ground (arith, count_where_absent p xs)

  pub count_where-append :
      (p : A → Bool) (xs ys : List A)
      → count_where p (xs ++ ys) ≡ count_where p xs + count_where p ys
  count_where-append p [] ys = omega arith
  count_where-append p (x ∷ xs) ys = ground (arith, count_where-append p xs ys)

  -- An update that keeps what a condition looks at keeps its count.
  pub count_where-update_kept :
      (p u : A → Bool) (f : A → A) (xs : List A)
      → ((y : A) → p (f y) ≡ p y)
      → count_where p (update_where u f xs) ≡ count_where p xs
  count_where-update_kept p u f [] k = refl
  count_where-update_kept p u f (x ∷ xs) k = ground (arith, k x, count_where-update_kept p u f xs k)

  pub count_where-delete_where :
      (p u : A → Bool) (xs : List A) → count_where p (delete_where u xs) ≤ count_where p xs
  count_where-delete_where p u [] = omega arith
  count_where-delete_where p u (x ∷ xs) = ground (arith, count_where-delete_where p u xs)

  pub count_where-le-length : (p : A → Bool) (xs : List A) → count_where p xs ≤ length xs
  count_where-le-length p [] = omega arith
  count_where-le-length p (x ∷ xs) = ground (arith, count_where-le-length p xs)

  -- A DELETE keeps the count of rows that its condition excludes.
  pub count_where-delete_other :
      (p u : A → Bool) (xs : List A)
      → ((y : A) → p y ≡ true → u y ≡ false)
      → count_where p (delete_where u xs) ≡ count_where p xs
  count_where-delete_other p u [] k = refl
  count_where-delete_other p u (x ∷ xs) k = ground (arith, k x, count_where-delete_other p u xs k)

module _ {ℓ} {A : Type 0} (P : A → Type ℓ) where
  pub All-select_where : (p : A → Bool) (xs : List A) → All P xs → All P (select_where p xs)
  All-select_where p [] h = tt
  All-select_where p (x ∷ xs) (q, h) = elim (Bool-cases (p x)) [
    | inl chosen ↦ rw chosen (q, All-select_where p xs h)
    | inr passed ↦ rw passed (All-select_where p xs h)
  ]

-- An UPDATE of rows that a SELECT does not look for changes nothing for it.
pub first_where-update_other {ℓ} :
    {A : Type ℓ} (p u : A → Bool) (f : A → A) (rows : List A)
    → ((y : A) → u y ≡ true → p y ≡ false)
    → ((y : A) → p (f y) ≡ p y)
    → first_where p (update_where u f rows) ≡ first_where p rows
first_where-update_other p u f [] h k = refl
first_where-update_other p u f (r ∷ rows) h k =
    ground (arith, h r, k r, first_where-update_other p u f rows h k)
