-- ===== src/Sql.antt =====
-- The statements that the packages send to Postgres, over a table as the list of its rows:
-- SELECT, UPDATE ... RETURNING, DELETE, and INSERT ... ON CONFLICT DO NOTHING.
pub mod Laws
pub mod Io
pub mod Batch
pub mod Keyset
use cloudtalk_tech_task.Base.{
  ℕ, suc, Bool, Option, none, some, List, [], ◌∷◌, ◌++◌, if◌then◌else◌, any,
}

module _ {ℓ} {A : Type ℓ} where
  -- the rows that a WHERE clause lets through
  abbrev pub select_where : (A → Bool) → List A → List A
  select_where p [] = []
  select_where p (x ∷ xs) = let rest = select_where p xs in if p x then x ∷ rest else rest

  -- `rows[0]` of a SELECT
  abbrev pub first_where : (A → Bool) → List A → Option A
  first_where p [] = none
  first_where p (x ∷ xs) = let rest = first_where p xs in if p x then some x else rest

  -- UPDATE ... SET ... WHERE ...
  abbrev pub update_where : (A → Bool) → (A → A) → List A → List A
  update_where p f [] = []
  update_where p f (x ∷ xs) = (if p x then f x else x) ∷ update_where p f xs

  -- the first row of UPDATE ... RETURNING, from the row that it was before
  abbrev pub returning : (A → A) → Option A → Option A
  returning f none = none
  returning f (some x) = some (f x)

  -- SELECT count(*) ... WHERE ...
  abbrev pub count_where : (A → Bool) → List A → ℕ
  count_where p [] = 0
  count_where p (x ∷ xs) = let rest = count_where p xs in if p x then suc rest else rest

  -- DELETE ... WHERE ...
  abbrev pub delete_where : (A → Bool) → List A → List A
  delete_where p [] = []
  delete_where p (x ∷ xs) = let rest = delete_where p xs in if p x then rest else x ∷ rest

  -- INSERT ... ON CONFLICT DO NOTHING; `same` tells the rows with the key of the new one
  abbrev pub insert_unless : (A → Bool) → A → List A → List A
  insert_unless same row xs = if any same xs then xs else xs ++ row ∷ []
