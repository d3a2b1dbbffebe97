-- ===== src/Reviews/Products/Sound.antt =====
-- What creating and updating products keeps.
use cloudtalk_tech_task.Base.{
  ℕ, String, Bool, true, false, Option, none, some, List, [], ◌∷◌, ◌++◌, ◌≡◌, refl, ap, arith, not,
  any, map, if◌then◌else◌, All, All-append, Bool-cases, inl, inr, str_eq→eq,
}
use cloudtalk_tech_task.Kernel.Value.{Value}
use cloudtalk_tech_task.Sql.{first_where, update_where}
use cloudtalk_tech_task.Sql.Io.{Outcome, ok, threw, World, rescue, Outcome-cases}
use cloudtalk_tech_task.Reviews.Violations.{translate_unique_violation}
use cloudtalk_tech_task.Reviews.Products.{
  Product, Catalogue, CreateProductInput, UpdateProductInput, ProductUpdateBinds, meets_checks,
  has_slug, insert_violation, updated_product, product_category_id_for, product_update_binds_for,
  inserted, insert_product, updated, update_statement, rethrown, new_product, create_product,
  update_product,
}
use cloudtalk_tech_task.Reviews.Products.Distinct.{
  Distinct, IsSound, Distinct-append, Distinct-update_where, update_where_none,
}

-- Of a sound table the row of a slug is the only one that an UPDATE by the slug changes.
checked_update :
    (slug : String) (g : Product → Product) (ps : List Product) (p : Product)
    → Distinct (λ (q : Product). q.slug) ps
    → All (λ q. meets_checks q ≡ true) ps
    → first_where (has_slug slug) ps ≡ some p
    → meets_checks (g p) ≡ true
    → All (λ q. meets_checks q ≡ true) (update_where (has_slug slug) g ps)
checked_update slug g [] p d c f h = tt
checked_update slug g (q ∷ ps) p d c f h = elim (Bool-cases (has_slug slug q)) [
  | inl here ↦
      let same : q.slug ≡ slug = str_eq→eq q.slug slug here in
      let alone : any (has_slug slug) ps ≡ false = rw (← same) d.0 in
      let e : q ≡ p = ground arith in
      rw (here, update_where_none (has_slug slug) g ps alone) (rw e h, c.1)
  | inr there ↦ rw there (c.0, checked_update slug g ps p d.1 c.1 (ground arith) h)
]

not-true_of_false : (b : Bool) → not b ≡ false → b ≡ true
not-true_of_false true h = refl
not-true_of_false false h = cc

-- An INSERT that no constraint stops.
inserted-IsSound :
    (p : Product) (ps : List Product)
    → IsSound ps
    → insert_violation p ps ≡ none
    → IsSound (ps ++ p ∷ [])
inserted-IsSound p ps s h = record {
  checked = All-append (λ q. meets_checks q ≡ true) ps (p ∷ []) s.checked (ground arith, tt);
  slugs = Distinct-append (λ (q : Product). q.slug) ps p s.slugs (ground arith);
  skus = Distinct-append (λ (q : Product). q.sku) ps p s.skus (ground arith);
}

-- The columns of a product that nothing changes after its creation.
abbrev pub fixed_of : Product → String × String × String × ℕ
fixed_of p = (p.product_id, p.slug, p.sku, p.created_at)

updated_slug :
    (b : ProductUpdateBinds) (now : ℕ) (p : Product) → (updated_product b now p).slug ≡ p.slug
unfolding updated_product
updated_slug b now p = refl

updated_sku :
    (b : ProductUpdateBinds) (now : ℕ) (p : Product) → (updated_product b now p).sku ≡ p.sku
unfolding updated_product
updated_sku b now p = refl

fixed_kept :
    (b : Bool) (q p : Product)
    → fixed_of q ≡ fixed_of p
    → fixed_of (if b then q else p) ≡ fixed_of p
fixed_kept true q p h = h
fixed_kept false q p h = refl

map-fixed_of :
    (slug : String) (b : ProductUpdateBinds) (now : ℕ) (ps : List Product)
    → map fixed_of (update_where (has_slug slug) (updated_product b now) ps) ≡ map fixed_of ps
unfolding updated_product
map-fixed_of slug b now [] = refl
map-fixed_of slug b now (p ∷ ps) =
    rw (fixed_kept (has_slug slug p) (updated_product b now p) p refl)
      (ap (λ rest. fixed_of p ∷ rest) (map-fixed_of slug b now ps))

module _ {E : Type 0} where
  rethrown_world :
      (e : Value) (v : Option Value) (w : World Catalogue E) → (rethrown {E = E} e v w).1 ≡ w
  rethrown_world e none w = refl
  rethrown_world e (some v) w = refl

  -- What stands after the catch of an INSERT: the row, if no constraint stopped it.
  caught :
      (p : Product) (v : Option Value) (w : World Catalogue E)
      → insert_violation p w.db.products ≡ v
      → IsSound w.db.products
      → IsSound
          (rescue (inserted p v w) (λ e. rethrown e (translate_unique_violation e))).1.db.products
  caught p none w h s = inserted-IsSound p w.db.products s h
  caught p (some e) w h s = rw (rethrown_world e (translate_unique_violation e) w) s

  category_checked :
      (trim lower : String → String) (id : String) (input : CreateProductInput) (o : Outcome ℕ)
      (w : World Catalogue E)
      → product_category_id_for trim lower input.category_name ≡ o
      → IsSound w.db.products
      → IsSound (create_product trim lower id input w).1.db.products
  unfolding create_product insert_product
  category_checked trim lower id input (ok category) w h s = rw h (
      caught (new_product trim lower id input category w.db.now)
        (insert_violation (new_product trim lower id input category w.db.now) w.db.products) w refl
        s)
  category_checked trim lower id input (threw e) w h s =
      rw h (rw (rethrown_world e (translate_unique_violation e) w) s)

  -- If every product meets the table's checks and no slug and no sku stands twice before a
  -- creation, then so it is afterwards, on every outcome.
  pub create_product-IsSound :
      (trim lower : String → String) (id : String) (input : CreateProductInput)
      (w : World Catalogue E)
      → IsSound w.db.products
      → IsSound (create_product trim lower id input w).1.db.products
  create_product-IsSound trim lower id input w =
      category_checked trim lower id input (product_category_id_for trim lower input.category_name)
        w refl

  -- The statement of an update, by the row that it finds.
  found-IsSound :
      (slug : String) (b : ProductUpdateBinds) (row : Option Product) (w : World Catalogue E)
      → first_where (has_slug slug) w.db.products ≡ row
      → IsSound w.db.products
      → IsSound (updated slug b row w).1.db.products
  found-IsSound slug b none w h s = s
  found-IsSound slug b (some p) w h s =
      elim (Bool-cases (meets_checks (updated_product b w.db.now p))) [
        | inl good ↦ rw good (record {
          checked =
              checked_update slug (updated_product b w.db.now) w.db.products p s.slugs s.checked h
                good;
          slugs =
              Distinct-update_where (λ (q : Product). q.slug) (has_slug slug)
                (updated_product b w.db.now) w.db.products (updated_slug b w.db.now) s.slugs;
          skus =
              Distinct-update_where (λ (q : Product). q.sku) (has_slug slug)
                (updated_product b w.db.now) w.db.products (updated_sku b w.db.now) s.skus;
        })
        | inr bad ↦ rw bad s
      ]

  -- An update, whichever columns it sets and whether or not a check of the table refuses it, keeps
  -- the table sound.
  pub update_product-IsSound :
      (trim lower : String → String) (input : UpdateProductInput) (w : World Catalogue E)
      → IsSound w.db.products
      → IsSound (update_product trim lower input w).1.db.products
  unfolding update_product update_statement
  update_product-IsSound trim lower input w s =
      elim (Outcome-cases (product_update_binds_for trim lower input)) [
        | inl (b, e) ↦ rw e (
            found-IsSound input.product_slug b
              (first_where (has_slug input.product_slug) w.db.products) w refl s)
        | inr (x, e) ↦ rw e s
      ]

  -- The columns of each row that nothing may change.
  found_fixed :
      (slug : String) (b : ProductUpdateBinds) (row : Option Product) (w : World Catalogue E)
      → map fixed_of (updated slug b row w).1.db.products ≡ map fixed_of w.db.products
  found_fixed slug b none w = refl
  found_fixed slug b (some p) w = elim (Bool-cases (meets_checks (updated_product b w.db.now p))) [
    | inl good ↦ rw good (map-fixed_of slug b w.db.now w.db.products)
    | inr bad ↦ rw bad refl
  ]

  -- Whatever its input is and however it ends, an update leaves the id, the slug, the sku and
  -- the creation time of every product as they were, and the number and the order of the
  -- products.
  pub update_product_fixed :
      (trim lower : String → String) (input : UpdateProductInput) (w : World Catalogue E)
      → map fixed_of (update_product trim lower input w).1.db.products ≡ map fixed_of w.db.products
  unfolding update_product update_statement
  update_product_fixed trim lower input w =
      elim (Outcome-cases (product_update_binds_for trim lower input)) [
        | inl (b, e) ↦ rw e (
            found_fixed input.product_slug b
              (first_where (has_slug input.product_slug) w.db.products) w)
        | inr (x, e) ↦ rw e refl
      ]
