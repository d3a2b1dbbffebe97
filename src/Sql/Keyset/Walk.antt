-- ===== src/Sql/Keyset/Walk.antt =====
-- A caller who follows the cursors of an exact key gets every row once, in order.
use cloudtalk_tech_task.Base.{
  ℕ, zero, suc, ◌-◌, ◌≤◌, ◌<◌, Bool, true, false, Option, none, some, List, [], ◌∷◌, ◌++◌, ◌≡◌,
  refl, sym, ◌∙◌, ap, arith, ◌&&◌, ltb, All, Bool-cases, inl, inr, length, take, drop,
  take-append-drop,
}
use cloudtalk_tech_task.Sql.{select_where}
use cloudtalk_tech_task.Sql.Keyset.{
  order_by, last, Page, next_cursor, cut_page, fetch_page, walk_pages,
}
use cloudtalk_tech_task.Sql.Keyset.Order.{
  Comparable, Ordered, IsStrict, All-order_by, order_by-Ordered, asymmetric, select_where-order_by,
}

module _ {A : Type 0} where
  select_where-and :
      (p q : A → Bool) (xs : List A)
      → select_where (λ x. p x && q x) xs ≡ select_where q (select_where p xs)
  select_where-and p q [] = refl
  select_where-and p q (x ∷ xs) = ground (arith, select_where-and p q xs)

  pub select_where_all : (xs : List A) → select_where (λ x. true) xs ≡ xs
  select_where_all [] = refl
  select_where_all (x ∷ xs) = ap (λ ys. x ∷ ys) (select_where_all xs)

  pub length-drop : (n : ℕ) (xs : List A) → length (drop n xs) ≡ length xs - n
  length-drop zero xs = omega arith
  length-drop (suc n) [] = omega arith
  length-drop (suc n) (x ∷ xs) = omega (arith, length-drop n xs)

  pub take_whole : (n : ℕ) (xs : List A) → length xs ≤ n → take n xs ≡ xs
  take_whole zero [] h = refl
  take_whole zero (x ∷ xs) h = absurd (omega arith)
  take_whole (suc n) [] h = refl
  take_whole (suc n) (x ∷ xs) h = ap (λ ys. x ∷ ys) (take_whole n xs (omega arith))

  take-take_more : (n : ℕ) (xs : List A) → take n (take (suc n) xs) ≡ take n xs
  take-take_more zero xs = refl
  take-take_more (suc n) [] = refl
  take-take_more (suc n) (x ∷ xs) = ap (λ ys. x ∷ ys) (take-take_more n xs)

  more_left : (n : ℕ) (xs : List A) → ltb n (length (take (suc n) xs)) ≡ ltb n (length xs)
  more_left zero [] = refl
  more_left zero (x ∷ xs) = ground arith
  more_left (suc n) [] = refl
  more_left (suc n) (x ∷ xs) = ground (arith, more_left n xs)

  pub last-append : (xs : List A) (x : A) → last (xs ++ x ∷ []) ≡ some x
  last-append [] x = refl
  last-append (y ∷ []) x = refl
  last-append (y ∷ z ∷ ys) x = last-append (z ∷ ys) x

  -- the rows of a full page, with its last one
  pub take_last :
      (n : ℕ) (xs : List A)
      → n < length xs
      → (front : List A) × (r : A) × (take (suc n) xs ≡ front ++ r ∷ [])
  take_last n [] h = absurd (omega arith)
  take_last zero (x ∷ xs) h = ([], x, refl)
  take_last (suc n) (x ∷ xs) h =
      let (front, r, e) = take_last n xs (omega arith) in (x ∷ front, r, ap (λ ys. x ∷ ys) e)

  pub take_limit :
      (limit : ℕ) (xs : List A)
      → 0 < limit
      → limit < length xs
      → (front : List A) × (r : A) × (take limit xs ≡ front ++ r ∷ [])
  take_limit zero xs pos h = absurd (omega arith)
  take_limit (suc n) xs pos h = take_last n xs (omega arith)

  pub append_assoc_last : (xs : List A) (x : A) (ys : List A) → (xs ++ x ∷ []) ++ ys ≡ xs ++ x ∷ ys
  append_assoc_last [] x ys = refl
  append_assoc_last (y ∷ xs) x ys = ap (λ zs. y ∷ zs) (append_assoc_last xs x ys)

  pub append_assoc : (xs ys zs : List A) → (xs ++ ys) ++ zs ≡ xs ++ (ys ++ zs)
  append_assoc [] ys zs = refl
  append_assoc (x ∷ xs) ys zs = ap (λ rest. x ∷ rest) (append_assoc xs ys zs)

  module _ (precedes : A → A → Bool) (strict : IsStrict precedes) where
    none_before :
        (r : A) (xs : List A)
        → All (λ y. precedes r y ≡ true) xs
        → select_where (precedes r) xs ≡ xs
    none_before r [] h = refl
    none_before r (x ∷ xs) h = ground (arith, none_before r xs)

    All-middle : (P : A → Type 0) (xs : List A) (r : A) (ys : List A) → All P (xs ++ r ∷ ys) → P r
    All-middle P [] r ys h = h.0
    All-middle P (x ∷ xs) r ys h = All-middle P xs r ys h.1

    pub select_after :
        (pre : List A) (r : A) (post : List A)
        → Ordered precedes (pre ++ r ∷ post)
        → select_where (precedes r) (pre ++ r ∷ post) ≡ post
    select_after [] r post o = rw (strict.irreflexive r) (none_before r post o.0)
    select_after (x ∷ pre) r post o =
        rw (asymmetric precedes strict x r (All-middle (λ y. precedes x y ≡ true) pre r post o.0))
          (select_after pre r post o.1)

module _ {A C : Type 0} where
  not_more : (cursor_of : A → C) (row : Option A) → next_cursor cursor_of false row ≡ none
  not_more cursor_of none = refl
  not_more cursor_of (some row) = refl

  walk_done :
      (list : Option C → Option (Page A C)) (fuel : ℕ) (cursor : Option C) (rest : List A)
      → list cursor ≡ some (record { items = rest; next = none })
      → walk_pages list (suc fuel) cursor ≡ some rest
  unfolding walk_pages
  walk_done list fuel cursor rest e = rw e

  walk_on :
      (list : Option C → Option (Page A C)) (fuel : ℕ) (cursor : Option C) (items : List A) (c : C)
      (rest : List A)
      → list cursor ≡ some (record { items = items; next = some c })
      → walk_pages list fuel (some c) ≡ some rest
      → walk_pages list (suc fuel) cursor ≡ some (items ++ rest)
  unfolding walk_pages
  walk_on list fuel cursor items c rest e l = rw (e, l)

-- A list whose first page is that of all rows, and whose page behind the cursor of a row is that of
-- the rows behind the row.
module _ {A C : Type 0} (precedes : A → A → Bool) (cursor_of : A → C) (matches : A → Bool)
    (limit : ℕ) (table : List A) (list : Option C → Option (Page A C)) (strict : IsStrict precedes)
    (pos : 0 < limit) (comparable : Comparable precedes (select_where matches table))
    (first : list none ≡ some (fetch_page precedes cursor_of matches limit table (λ row. true)))
    (later : All
      (λ r.
        list (some (cursor_of r))
        ≡ some (fetch_page precedes cursor_of matches limit table (precedes r)))
      (select_where matches table)) where
  -- what there is to see
  abbrev listed : List A
  listed = order_by precedes (select_where matches table)

  fetched :
      (past : A → Bool) (rest : List A)
      → select_where past listed ≡ rest
      → fetch_page precedes cursor_of matches limit table past
        ≡ cut_page cursor_of limit (take (suc limit) rest)
  unfolding fetch_page
  fetched past rest h =
      ap (λ rows. cut_page cursor_of limit (take (suc limit) rows))
        (ap (order_by precedes) (select_where-and matches past table)
          ∙ select_where-order_by precedes strict past (select_where matches table) comparable
          ∙ h)

  -- the page behind a row
  behind :
      (pre : List A) (r : A) (post : List A)
      → listed ≡ pre ++ r ∷ post
      → list (some (cursor_of r)) ≡ some (cut_page cursor_of limit (take (suc limit) post))
  behind pre r post e =
      let ordered = order_by-Ordered precedes strict (select_where matches table) comparable in
      let P : A → Type 0 = λ r.
        list (some (cursor_of r))
        ≡ some (fetch_page precedes cursor_of matches limit table (precedes r)) in
      let all = All-order_by precedes P (select_where matches table) later in
      All-middle precedes strict P pre r post (rw (← e) all)
      ∙ ap (λ page. some page)
          (fetched (precedes r) post (
            ap (select_where (precedes r)) e
            ∙ select_after precedes strict pre r post (rw (← e) ordered)))

  last_page :
      (rest : List A)
      → length rest ≤ limit
      → cut_page cursor_of limit (take (suc limit) rest) ≡ record { items = rest; next = none }
  unfolding cut_page
  last_page rest h =
      rw (take-take_more limit rest, more_left limit rest, take_whole limit rest h)
        (ground (arith, not_more cursor_of (last rest)))

  full_page :
      (rest front : List A) (r : A)
      → limit < length rest
      → take limit rest ≡ front ++ r ∷ []
      → cut_page cursor_of limit (take (suc limit) rest)
        ≡ record { items = front ++ r ∷ []; next = some (cursor_of r) }
  unfolding cut_page
  full_page rest front r h e =
      rw (take-take_more limit rest, more_left limit rest, e, last-append front r) (ground arith)

  walked :
      (fuel : ℕ) (cursor : Option C) (pre rest : List A)
      → length rest < fuel
      → listed ≡ pre ++ rest
      → list cursor ≡ some (cut_page cursor_of limit (take (suc limit) rest))
      → walk_pages list fuel cursor ≡ some rest
  walked zero cursor pre rest enough e f = absurd (omega arith)
  walked (suc fuel) cursor pre rest enough e f = elim (Bool-cases (ltb limit (length rest))) [
    | inr few ↦
        walk_done list fuel cursor rest (f ∙ ap (λ page. some page) (last_page rest (ground arith)))
    | inl many ↦
        let (front, r, full) = take_limit limit rest pos (ground arith) in
        let left = drop limit rest in
        let split : front ++ r ∷ left ≡ rest =
          sym (append_assoc_last front r left)
          ∙ ap (λ page. page ++ left) (sym full)
          ∙ take-append-drop limit rest in
        let here : listed ≡ (pre ++ front) ++ r ∷ left =
          e ∙ ap (λ xs. pre ++ xs) (sym split) ∙ sym (append_assoc pre front (r ∷ left)) in
        let then_rest =
          walked fuel (some (cursor_of r)) ((pre ++ front) ++ r ∷ []) left
            (ground (arith, length-drop limit rest))
            (here ∙ sym (append_assoc_last (pre ++ front) r left))
            (behind (pre ++ front) r left here) in
        walk_on list fuel cursor (front ++ r ∷ []) (cursor_of r) left
          (f ∙ ap (λ page. some page) (full_page rest front r (ground arith) full)) then_rest
        ∙ ap (λ xs. some xs) (append_assoc_last front r left ∙ split)
  ]

  pub walk_pages-fetch_page :
      (fuel : ℕ) → length listed < fuel → walk_pages list fuel none ≡ some listed
  walk_pages-fetch_page fuel enough =
      walked fuel none [] listed enough refl
        (first ∙ ap (λ page. some page) (fetched (λ row. true) listed (select_where_all listed)))

pub All_later :
    {A : Type 0} (P Q : A → Type 0) (rows : List A)
    → ((r : A) → P r → Q r)
    → All P rows
    → All Q rows
All_later P Q [] f h = tt
All_later P Q (r ∷ rows) f h = (f r h.0, All_later P Q rows f h.1)
