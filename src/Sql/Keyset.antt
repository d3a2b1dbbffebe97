-- ===== src/Sql/Keyset.antt =====
-- Keyset pagination: SELECT ... WHERE ... ORDER BY ... LIMIT limit + 1, the page that is cut from the
-- rows, and the cursor of the next one. `precedes` is the ORDER BY, and
-- `cursor_of` the cursor that is made of a row.
pub mod Order
pub mod Walk
use cloudtalk_tech_task.Base.{
  ℕ, zero, suc, Bool, Option, none, some, List, [], ◌∷◌, ◌++◌, ltb, ◌&&◌, if◌then◌else◌, length,
  take,
}
use cloudtalk_tech_task.Sql.{select_where}

module _ {A : Type 0} where
  -- a row's place in the order
  unfoldable pub insert_by : (A → A → Bool) → A → List A → List A
  insert_by precedes x [] = x ∷ []
  insert_by precedes x (y ∷ ys) = if precedes y x then y ∷ insert_by precedes x ys else x ∷ y ∷ ys

  -- ORDER BY
  unfoldable pub order_by : (A → A → Bool) → List A → List A
  unfolding insert_by
  order_by precedes [] = []
  order_by precedes (x ∷ xs) = insert_by precedes x (order_by precedes xs)

  -- `page[page.length - 1]`
  abbrev pub last : List A → Option A
  last [] = none
  last (x ∷ []) = some x
  last (x ∷ y ∷ ys) = last (y ∷ ys)

-- A page, and the cursor of its last row where more rows follow.
pub record Page (A C : Type 0) : Type 0 where
  pub items : List A
  pub next : Option C

module _ {A : Type 0} where
  -- a page before what the pages after it give
  abbrev pub prepend : List A → Option (List A) → Option (List A)
  prepend items none = none
  prepend items (some rest) = some (items ++ rest)

module _ {A C : Type 0} where
  -- the cursor of the next page
  abbrev pub next_cursor : (A → C) → Bool → Option A → Option C
  next_cursor cursor_of has_more none = none
  next_cursor cursor_of has_more (some row) = if has_more then some (cursor_of row) else none

  unfoldable pub cut_page : (A → C) → ℕ → List A → Page A C
  cut_page cursor_of limit rows = record {
    items = take limit rows;
    next = next_cursor cursor_of (ltb limit (length rows)) (last (take limit rows));
  }

  -- The statement and the cut; `past` is the condition of the cursor, if there is one.
  unfoldable pub fetch_page :
      (A → A → Bool) → (A → C) → (A → Bool) → ℕ → List A → (A → Bool) → Page A C
  unfolding order_by cut_page
  fetch_page precedes cursor_of matches limit table past =
      cut_page cursor_of limit
        (take (suc limit) (order_by precedes (select_where (λ row. matches row && past row) table)))

  abbrev pub add_pages : List A → Option C → (C → Option (List A)) → Option (List A)
  add_pages items none walk = some items
  add_pages items (some c) walk = prepend items (walk c)

  -- a list that throws ends the walk
  abbrev pub add_page : Option (Page A C) → (C → Option (List A)) → Option (List A)
  add_page none walk = none
  add_page (some page) walk = add_pages page.items page.next walk

  -- What a caller gets who follows the cursors; `none` where the fuel is spent before, or on a throw.
  unfoldable pub walk_pages : (Option C → Option (Page A C)) → ℕ → Option C → Option (List A)
  walk_pages list zero cursor = none
  walk_pages list (suc fuel) cursor = add_page (list cursor) (λ c. walk_pages list fuel (some c))
