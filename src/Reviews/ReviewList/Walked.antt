-- ===== src/Reviews/ReviewList/Walked.antt =====
-- A caller who follows the cursors of a list gets every review once, if timestamps are whole
-- milliseconds; and what a page leaves out where they are not.
use cloudtalk_tech_task.Base.{
  ℕ, suc, ◌≤◌, ◌<◌, String, Bool, true, Option, none, some, List, [], ◌∷◌, ◌≡◌, refl, ap, arith,
  ◌==◌, ltb, str_eq, str_eq_refl, ◌&&◌, ◌||◌, length, All, All-take, Bool-cases, inl, inr,
}
use mathlib.Core.Path.{fun_ext}
use cloudtalk_tech_task.Sql.{select_where, first_where}
use cloudtalk_tech_task.Sql.Io.{World, Outcome, ok, threw}
use cloudtalk_tech_task.Sql.Keyset.{Page, order_by, cut_page, fetch_page, walk_pages}
use cloudtalk_tech_task.Sql.Keyset.Order.{Comparable, IsStrict, All-order_by}
use cloudtalk_tech_task.Sql.Keyset.Walk.{walk_pages-fetch_page, All_later}
use cloudtalk_tech_task.Reviews.Store.{ProductRow, ReviewRow, ReviewDb, resolve_product_id}
use cloudtalk_tech_task.Reviews.ReviewList.{
  ListCursor, CursorCodec, to_date, of_date, is_newer, is_behind, is_listed, cursor_at,
  cursor_filter, review_page, list_reviews_for_product,
}

is_newer-IsStrict : (before : String → String → Bool) → IsStrict before → IsStrict (is_newer before)
is_newer-IsStrict before strict = record {
  irreflexive = λ r. ground (arith, strict.irreflexive r.token);
  transitive = λ r s t h k. ground (arith, strict.transitive t.token s.token r.token);
}

-- The page that a run of a list gives, if it gives one.
abbrev pub page_of :
    {D E : Type 0} → Outcome (Page ReviewRow String) × World D E → Option (Page ReviewRow String)
page_of (ok page, w) = some page
page_of (threw e, w) = none

-- A row that its cursor tells exactly: the codec reads the cursor back, and its timestamp is a whole
-- number of milliseconds.
pub record IsExact {Pin : Type 0} (ticks : ℕ) (codec : CursorCodec Pin) (pin : Pin) (r : ReviewRow)
    : Type 0 where
  pub read_back :
      codec.decode (
        codec.encode
          (record { pin = pin; created_at = to_date ticks r.created_at; token = r.token }))
      ≡ some (record { pin = pin; created_at = to_date ticks r.created_at; token = r.token })
  pub whole : of_date ticks (to_date ticks r.created_at) ≡ r.created_at

behind-eq_newer :
    (before : String → String → Bool) (k : ℕ) (r s : ReviewRow)
    → k ≡ r.created_at
    → (ltb s.created_at k || ((s.created_at == k) && before s.token r.token)) ≡ is_newer before r s
behind-eq_newer before k r s h = ground arith

module _ {Pin : Type 0} (before : String → String → Bool) (ticks : ℕ) (codec : CursorCodec Pin)
    (same_pin : Pin → Pin → Bool) (pin : Pin) (same : same_pin pin pin ≡ true)
    (mismatch : String) where
  -- The filter of a row's own cursor lets through the rows behind it.
  cursor_filter_exact :
      (r : ReviewRow)
      → IsExact ticks codec pin r
      → cursor_filter before ticks codec same_pin pin mismatch
          (some (cursor_at before ticks codec same_pin pin r))
        ≡ ok (is_newer before r)
  unfolding cursor_filter
  cursor_filter_exact r x =
      rw (x.read_back, same)
        (ap (λ f. ok f)
          (fun_ext
            (λ s. behind-eq_newer before (of_date ticks (to_date ticks r.created_at)) r s x.whole)))

no_cursor :
    (before : String → String → Bool) (ticks : ℕ) (codec : CursorCodec String) (slug : String)
    → cursor_filter before ticks codec str_eq slug "cursor does not match this product" none
      ≡ ok (λ r. true)
unfolding cursor_filter
no_cursor before ticks codec slug = refl

-- The page of a list whose product is there and whose cursor is read.
listed_page :
    {E : Type 0} (before : String → String → Bool) (ticks : ℕ) (codec : CursorCodec String)
    (slug : String) (limit : ℕ) (p : ProductRow) (w : World ReviewDb E) (cursor : Option String)
    (filter : ReviewRow → Bool)
    → first_where (λ (q : ProductRow). str_eq q.slug slug) w.db.products ≡ some p
    → cursor_filter before ticks codec str_eq slug "cursor does not match this product" cursor
      ≡ ok filter
    → page_of (list_reviews_for_product before ticks codec slug cursor limit w)
      ≡ some (
          fetch_page
            (is_newer before)
            (cursor_at before ticks codec str_eq slug)
            (is_listed p.product_id)
            limit
            w.db.reviews
            filter)
unfolding list_reviews_for_product resolve_product_id review_page
listed_page before ticks codec slug limit p w cursor filter found h = rw (found, h)

-- A caller who follows the cursors of a product's list gets every published review of the
-- product once, newest first, in finitely many pages, if the product is there, the limit is
-- positive, no two of the reviews are at the same place in the order, the codec reads their
-- cursors back, and their timestamps are whole milliseconds.
pub list_reviews_for_product_walked :
    {E : Type 0} (before : String → String → Bool) (ticks : ℕ) (codec : CursorCodec String)
    (slug : String) (limit fuel : ℕ) (p : ProductRow) (w : World ReviewDb E)
    → IsStrict before
    → 0 < limit
    → first_where (λ (q : ProductRow). str_eq q.slug slug) w.db.products ≡ some p
    → Comparable (is_newer before) (select_where (is_listed p.product_id) w.db.reviews)
    → All (IsExact ticks codec slug) (select_where (is_listed p.product_id) w.db.reviews)
    → length (order_by (is_newer before) (select_where (is_listed p.product_id) w.db.reviews))
      < fuel
    → walk_pages
        (λ cursor. page_of (list_reviews_for_product before ticks codec slug cursor limit w))
        fuel
        none
      ≡ some (order_by (is_newer before) (select_where (is_listed p.product_id) w.db.reviews))
list_reviews_for_product_walked before ticks codec slug limit fuel p w strict pos found comparable
      exact enough =
    walk_pages-fetch_page (is_newer before) (cursor_at before ticks codec str_eq slug)
      (is_listed p.product_id) limit w.db.reviews
      (λ cursor. page_of (list_reviews_for_product before ticks codec slug cursor limit w))
      (is_newer-IsStrict before strict) pos comparable
      (listed_page before ticks codec slug limit p w none (λ row. true) found
        (no_cursor before ticks codec slug))
      (All_later (IsExact ticks codec slug) _ (select_where (is_listed p.product_id) w.db.reviews)
        (λ r x.
          listed_page before ticks codec slug limit p w
            (some (cursor_at before ticks codec str_eq slug r)) (is_newer before r) found
            (cursor_filter_exact before ticks codec str_eq slug (str_eq_refl slug)
              "cursor does not match this product" r x))
        exact)
      fuel enough

All-selected :
    {A : Type 0} (P : A → Type 0) (p : A → Bool) (xs : List A)
    → ((x : A) → p x ≡ true → P x)
    → All P (select_where p xs)
All-selected P p [] h = tt
All-selected P p (x ∷ xs) h = elim (Bool-cases (p x)) [
  | inl e ↦ rw e (h x e, All-selected P p xs h)
  | inr e ↦ rw e (All-selected P p xs h)
]

behind_bound :
    (before : String → String → Bool) (k : ℕ) (token : String) (s : ReviewRow)
    → (ltb s.created_at k || ((s.created_at == k) && before s.token token)) ≡ true
    → s.created_at ≤ k
behind_bound before k token s h = ground arith

and_right : (a b : Bool) → (a && b) ≡ true → b ≡ true
and_right a b h = ground arith

cursor_filter_read :
    (before : String → String → Bool) (ticks : ℕ) (codec : CursorCodec String) (slug : String)
    (r : ReviewRow)
    → codec.decode (cursor_at before ticks codec str_eq slug r)
      ≡ some (record { pin = slug; created_at = to_date ticks r.created_at; token = r.token })
    → cursor_filter before ticks codec str_eq slug "cursor does not match this product"
        (some (cursor_at before ticks codec str_eq slug r))
      ≡ ok (
          is_behind before ticks
            (record { pin = slug; created_at = to_date ticks r.created_at; token = r.token }))
unfolding cursor_filter
cursor_filter_read before ticks codec slug r read = rw (read, str_eq_refl slug)

fetched_bound :
    (before : String → String → Bool) (cursor_of : ReviewRow → String)
    (matches past : ReviewRow → Bool) (limit k : ℕ) (rows : List ReviewRow)
    → ((s : ReviewRow) → past s ≡ true → s.created_at ≤ k)
    → All
        (λ (s : ReviewRow). s.created_at ≤ k)
        (fetch_page (is_newer before) cursor_of matches limit rows past).items
unfolding fetch_page cut_page
fetched_bound before cursor_of matches past limit k rows h =
    let P : ReviewRow → Type 0 = λ s. s.created_at ≤ k in
    All-take P limit _ (
      All-take P (suc limit) _ (
        All-order_by (is_newer before) P (select_where (λ s. matches s && past s) rows) (
          All-selected P (λ s. matches s && past s) rows
            (λ s e. h s (and_right (matches s) (past s) e)))))

-- The page behind the cursor of a review, which the codec reads back, of a product that is there
-- holds no review that was made after the beginning of the millisecond in which that review was
-- made.
pub list_reviews_for_product_behind :
    {E : Type 0} (before : String → String → Bool) (ticks : ℕ) (codec : CursorCodec String)
    (slug : String) (limit : ℕ) (p : ProductRow) (r : ReviewRow) (w : World ReviewDb E)
    → first_where (λ (q : ProductRow). str_eq q.slug slug) w.db.products ≡ some p
    → codec.decode (cursor_at before ticks codec str_eq slug r)
      ≡ some (record { pin = slug; created_at = to_date ticks r.created_at; token = r.token })
    → (page : Page ReviewRow String) × (page_of (
          list_reviews_for_product before ticks codec slug
            (some (cursor_at before ticks codec str_eq slug r))
            limit
            w)
        ≡ some page)
      × All (λ s. s.created_at ≤ of_date ticks (to_date ticks r.created_at)) page.items
list_reviews_for_product_behind before ticks codec slug limit p r w found read =
    let c : ListCursor String = record {
      pin = slug;
      created_at = to_date ticks r.created_at;
      token = r.token;
    } in
    (
      fetch_page (is_newer before) (cursor_at before ticks codec str_eq slug)
          (is_listed p.product_id) limit w.db.reviews (is_behind before ticks c),
      listed_page before ticks codec slug limit p w
          (some (cursor_at before ticks codec str_eq slug r)) (is_behind before ticks c) found
          (cursor_filter_read before ticks codec slug r read),
      fetched_bound before (cursor_at before ticks codec str_eq slug) (is_listed p.product_id)
          (is_behind before ticks c) limit (of_date ticks (to_date ticks r.created_at)) w.db.reviews
          (λ s. behind_bound before (of_date ticks (to_date ticks r.created_at)) r.token s),
    )
