-- ===== src/Reviews/Products/Distinct.antt =====
-- A table of products in which its constraints hold, and lists in which no key stands twice.
use cloudtalk_tech_task.Base.{
  String, Bool, true, false, List, [], ◌∷◌, ◌++◌, ◌≡◌, refl, ◌∙◌, ap, arith, str_eq, any,
  if◌then◌else◌, All, eq_iff,
}
use cloudtalk_tech_task.Sql.{update_where}
use cloudtalk_tech_task.Reviews.Products.{Product, meets_checks}

-- No key stands twice.
abbrev pub Distinct : (Product → String) → List Product → Type 0
Distinct key [] = Unit
Distinct key (p ∷ ps) = (any (λ q. str_eq (key q) (key p)) ps ≡ false) × Distinct key ps

-- Every row meets the table's CHECK constraints and its UNIQUE constraints hold.
pub record IsSound (products : List Product) : Type 0 where
  pub checked : All (λ p. meets_checks p ≡ true) products
  pub slugs : Distinct (λ (p : Product). p.slug) products
  pub skus : Distinct (λ (p : Product). p.sku) products

any-append :
    (f : Product → Bool) (ps : List Product) (p : Product)
    → any f ps ≡ false
    → f p ≡ false
    → any f (ps ++ p ∷ []) ≡ false
any-append f [] p h k = ground arith
any-append f (q ∷ ps) p h k = ground (arith, any-append f ps p)

pub Distinct-append :
    (key : Product → String) (ps : List Product) (p : Product)
    → Distinct key ps
    → any (λ q. str_eq (key q) (key p)) ps ≡ false
    → Distinct key (ps ++ p ∷ [])
Distinct-append key [] p d h = (refl, tt)
Distinct-append key (q ∷ ps) p d h = (
  any-append (λ r. str_eq (key r) (key q)) ps p d.0
      (ground (arith, eq_iff (key q) (key p), eq_iff (key p) (key q))),
  Distinct-append key ps p d.1 (ground arith),
)

any-update_where :
    (f u : Product → Bool) (g : Product → Product) (ps : List Product)
    → ((p : Product) → f (g p) ≡ f p)
    → any f (update_where u g ps) ≡ any f ps
any-update_where f u g [] k = refl
any-update_where f u g (p ∷ ps) k = ground (arith, k p, any-update_where f u g ps k)

key_kept :
    (key : Product → String) (b : Bool) (q p : Product)
    → key q ≡ key p
    → key (if b then q else p) ≡ key p
key_kept key true q p h = h
key_kept key false q p h = refl

pub Distinct-update_where :
    (key : Product → String) (u : Product → Bool) (g : Product → Product) (ps : List Product)
    → ((p : Product) → key (g p) ≡ key p)
    → Distinct key ps
    → Distinct key (update_where u g ps)
Distinct-update_where key u g [] k d = tt
Distinct-update_where key u g (p ∷ ps) k d = (
  rw (key_kept key (u p) (g p) p (k p)) (
      any-update_where (λ q. str_eq (key q) (key p)) u g ps (λ q. ap (λ s. str_eq s (key p)) (k q))
      ∙ d.0),
  Distinct-update_where key u g ps k d.1,
)

pub update_where_none :
    (u : Product → Bool) (g : Product → Product) (ps : List Product)
    → any u ps ≡ false
    → update_where u g ps ≡ ps
update_where_none u g [] h = refl
update_where_none u g (p ∷ ps) h = ground (arith, update_where_none u g ps)
