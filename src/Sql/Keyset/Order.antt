-- ===== src/Sql/Keyset/Order.antt =====
-- ORDER BY by insertion: it puts rows that differ in the order in strictly ascending order, and
-- commutes with WHERE.
use cloudtalk_tech_task.Base.{
  Bool, true, false, List, [], ◌∷◌, ◌≡◌, refl, sym, ◌∙◌, ap, arith, ◌||◌, if◌then◌else◌, All,
  Bool-cases, inl, inr,
}
use cloudtalk_tech_task.Sql.{select_where}
use cloudtalk_tech_task.Sql.Laws.{All-select_where}
use cloudtalk_tech_task.Sql.Keyset.{insert_by, order_by}

module _ {A : Type 0} (precedes : A → A → Bool) where
  -- any two rows of the list, in their two orders
  abbrev pub Comparable : List A → Type 0
  Comparable [] = Unit
  Comparable (x ∷ xs) = All (λ y. (precedes x y || precedes y x) ≡ true) xs × Comparable xs

  -- every row precedes those behind it
  abbrev pub Ordered : List A → Type 0
  Ordered [] = Unit
  Ordered (x ∷ xs) = All (λ y. precedes x y ≡ true) xs × Ordered xs

  pub record IsStrict : Type 0 where
    pub irreflexive : (x : A) → precedes x x ≡ false
    pub transitive : (x y z : A) → precedes x y ≡ true → precedes y z ≡ true → precedes x z ≡ true

  All-insert_by :
      (P : A → Type 0) (x : A) (xs : List A) → P x → All P xs → All P (insert_by precedes x xs)
  unfolding insert_by
  All-insert_by P x [] p h = (p, tt)
  All-insert_by P x (y ∷ ys) p h = elim (Bool-cases (precedes y x)) [
    | inl e ↦ rw e (h.0, All-insert_by P x ys p h.1)
    | inr e ↦ rw e (p, h)
  ]

  pub All-order_by : (P : A → Type 0) (xs : List A) → All P xs → All P (order_by precedes xs)
  unfolding order_by
  All-order_by P [] h = tt
  All-order_by P (x ∷ xs) h = All-insert_by P x (order_by precedes xs) h.0 (All-order_by P xs h.1)

  module _ (strict : IsStrict) where
    All_after :
        (x y : A) (ys : List A)
        → precedes x y ≡ true
        → All (λ z. precedes y z ≡ true) ys
        → All (λ z. precedes x z ≡ true) ys
    All_after x y [] h k = tt
    All_after x y (z ∷ ys) h k = (strict.transitive x y z h k.0, All_after x y ys h k.1)

    insert_by-Ordered :
        (x : A) (xs : List A)
        → All (λ y. (precedes x y || precedes y x) ≡ true) xs
        → Ordered xs
        → Ordered (insert_by precedes x xs)
    unfolding insert_by
    insert_by-Ordered x [] c o = (tt, tt)
    insert_by-Ordered x (y ∷ ys) c o = elim (Bool-cases (precedes y x)) [
      | inl e ↦
          rw e (All-insert_by (λ z. precedes y z ≡ true) x ys e o.0, insert_by-Ordered x ys c.1 o.1)
      | inr e ↦
          let first : precedes x y ≡ true = ground (arith, c.0) in
          rw e ((first, All_after x y ys first o.0), (o.0, o.1))
    ]

    pub order_by-Ordered : (xs : List A) → Comparable xs → Ordered (order_by precedes xs)
    unfolding order_by
    order_by-Ordered [] c = tt
    order_by-Ordered (x ∷ xs) c =
        insert_by-Ordered x (order_by precedes xs)
          (All-order_by (λ y. (precedes x y || precedes y x) ≡ true) xs c.0)
          (order_by-Ordered xs c.1)

    pub asymmetric : (x y : A) → precedes x y ≡ true → precedes y x ≡ false
    asymmetric x y h = elim (Bool-cases (precedes y x)) [
      | inl back ↦ absurd (ground (arith, strict.transitive x y x h back, strict.irreflexive x))
      | inr e ↦ e
    ]

    insert_by_front :
        (x : A) (ys : List A) → All (λ y. precedes x y ≡ true) ys → insert_by precedes x ys ≡ x ∷ ys
    unfolding insert_by
    insert_by_front x [] h = refl
    insert_by_front x (y ∷ ys) h = rw (asymmetric x y h.0)

    select_where-insert_by :
        (q : A → Bool) (x : A) (ys : List A)
        → All (λ y. (precedes x y || precedes y x) ≡ true) ys
        → Ordered ys
        → select_where q (insert_by precedes x ys)
          ≡ (if q x then insert_by precedes x (select_where q ys) else select_where q ys)
    unfolding insert_by
    select_where-insert_by q x [] c o = ground arith
    select_where-insert_by q x (y ∷ ys) c o = elim (Bool-cases (precedes y x)) [
      | inl e ↦ ground (arith, select_where-insert_by q x ys c.1 o.1)
      | inr e ↦
          let first : precedes x y ≡ true = ground (arith, c.0) in
          let front = insert_by_front x (select_where q (y ∷ ys)) (
            All-select_where (λ z. precedes x z ≡ true) q (y ∷ ys)
              (first, All_after x y ys first o.0)) in
          rw e (ground (arith, front))
    ]

    -- WHERE on top of ORDER BY
    pub select_where-order_by :
        (q : A → Bool) (xs : List A)
        → Comparable xs
        → order_by precedes (select_where q xs) ≡ select_where q (order_by precedes xs)
    unfolding order_by
    select_where-order_by q [] c = refl
    select_where-order_by q (x ∷ xs) c =
        let step =
          select_where-insert_by q x (order_by precedes xs)
            (All-order_by (λ y. (precedes x y || precedes y x) ≡ true) xs c.0)
            (order_by-Ordered xs c.1) in
        let rest = select_where-order_by q xs c.1 in
        elim (Bool-cases (q x)) [
          | inl chosen ↦ rw chosen (ap (insert_by precedes x) rest ∙ sym (step ∙ rw chosen))
          | inr passed ↦ rw passed (rest ∙ sym (step ∙ rw passed))
        ]
