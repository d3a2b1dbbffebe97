-- ===== src/Reviews/Rebuild/Pages.antt =====
-- The pages of a rebuild visit every reviewed product once.
use cloudtalk_tech_task.Base.{
  ℕ, zero, suc, ◌+◌, ◌≤◌, ◌<◌, String, Bool, true, Option, some, List, [], ◌∷◌, ◌++◌, ◌≡◌, refl,
  sym, ◌∙◌, ap, arith, ltb, Bool-cases, inl, inr, length, take, drop, take-append-drop, length-take,
}
use cloudtalk_tech_task.Sql.{select_where}
use cloudtalk_tech_task.Sql.Keyset.{order_by, last}
use cloudtalk_tech_task.Sql.Keyset.Order.{
  Comparable, IsStrict, order_by-Ordered, select_where-order_by,
}
use cloudtalk_tech_task.Sql.Keyset.Walk.{
  select_after, length-drop, take_whole, last-append, take_last, append_assoc_last, append_assoc,
  select_where_all,
}
use cloudtalk_tech_task.Reviews.Store.{ReviewRow, ReviewDb}
use cloudtalk_tech_task.Reviews.Rating.{apply_rating_recompute}
use cloudtalk_tech_task.Reviews.Rebuild.{
  reviewed, recompute_all, rebuild_page, id_page, rebuild_from,
}

recompute_all-append :
    (xs ys : List String) (db : ReviewDb)
    → recompute_all (xs ++ ys) db ≡ recompute_all ys (recompute_all xs db)
unfolding recompute_all
recompute_all-append [] ys db = refl
recompute_all-append (x ∷ xs) ys db = recompute_all-append xs ys (apply_rating_recompute x db)

pub recompute_all-reviews :
    (ids : List String) (db : ReviewDb) → (recompute_all ids db).reviews ≡ db.reviews
unfolding recompute_all apply_rating_recompute
recompute_all-reviews [] db = refl
recompute_all-reviews (x ∷ ids) db = recompute_all-reviews ids (apply_rating_recompute x db)

-- A list that is not empty, cut before its last element.
cut_last :
    (x : String) (xs : List String)
    → (front : List String) × (c : String) × (x ∷ xs ≡ front ++ c ∷ [])
cut_last x [] = ([], x, refl)
cut_last x (y ∷ ys) = let (front, c, e) = cut_last y ys in (x ∷ front, c, ap (λ zs. x ∷ zs) e)

-- What a page does that is not full, and one that is.
page_short :
    (batch_size : ℕ) (page : List String) (recomputed : ℕ) (db : ReviewDb)
    (next : String → ℕ → ReviewDb → Option (ℕ × ReviewDb))
    → length page < batch_size
    → rebuild_page batch_size page (last page) recomputed db next
      ≡ some (recomputed + length page, recompute_all page db)
unfolding recompute_all
page_short batch_size [] recomputed db next h = ground arith
page_short batch_size (x ∷ xs) recomputed db next h =
    let (front, c, e) = cut_last x xs in
    let l : last (x ∷ xs) ≡ some c = ap last e ∙ last-append front c in rw l (ground arith)

page_full :
    (batch_size : ℕ) (front : List String) (c : String) (recomputed : ℕ) (db : ReviewDb)
    (next : String → ℕ → ReviewDb → Option (ℕ × ReviewDb))
    → length (front ++ c ∷ []) ≡ batch_size
    → rebuild_page batch_size (front ++ c ∷ []) (last (front ++ c ∷ [])) recomputed db next
      ≡ next c (recomputed + batch_size) (recompute_all (front ++ c ∷ []) db)
page_full batch_size front c recomputed db next h = rw (last-append front c) (ground arith)

take_batch :
    (b : ℕ) (xs : List String)
    → 0 < b
    → b ≤ length xs
    → (front : List String) × (c : String) × (take b xs ≡ front ++ c ∷ [])
take_batch zero xs pos h = absurd (omega arith)
take_batch (suc n) xs pos h = take_last n xs (omega arith)

module _ (before : String → String → Bool) (batch_size : ℕ) (reviews : List ReviewRow)
    (strict : IsStrict before) (pos : 0 < batch_size)
    (comparable : Comparable before (reviewed reviews)) where
  abbrev ids : List String
  ids = order_by before (reviewed reviews)

  page_of :
      (past : String → Bool) (rest : List String) (db : ReviewDb)
      → db.reviews ≡ reviews
      → select_where past ids ≡ rest
      → id_page before batch_size past db ≡ take batch_size rest
  page_of past rest db same h =
      ap (λ rs. take batch_size (order_by before (select_where past (reviewed rs)))) same
      ∙ ap (take batch_size)
          (select_where-order_by before strict past (reviewed reviews) comparable ∙ h)

  behind :
      (pre : List String) (c : String) (post : List String)
      → ids ≡ pre ++ c ∷ post
      → select_where (before c) ids ≡ post
  behind pre c post e =
      let ordered = order_by-Ordered before strict (reviewed reviews) comparable in
      ap (select_where (before c)) e ∙ select_after before strict pre c post (rw (← e) ordered)

  rebuilt :
      (fuel : ℕ) (past : String → Bool) (pre rest : List String) (recomputed : ℕ) (db : ReviewDb)
      → length rest < fuel
      → db.reviews ≡ reviews
      → ids ≡ pre ++ rest
      → select_where past ids ≡ rest
      → rebuild_from before batch_size fuel past recomputed db
        ≡ some (recomputed + length rest, recompute_all rest db)
  unfolding rebuild_from
  rebuilt zero past pre rest recomputed db enough same e h = absurd (omega arith)
  rebuilt (suc fuel) past pre rest recomputed db enough same e h =
      elim (Bool-cases (ltb (length rest) batch_size)) [
        | inl short ↦
            rw (page_of past rest db same h, take_whole batch_size rest (ground arith))
              (page_short batch_size rest recomputed db
                (λ cursor. rebuild_from before batch_size fuel (before cursor)) (ground arith))
        | inr full ↦
            let (front, c, page) = take_batch batch_size rest pos (ground arith) in
            let left = drop batch_size rest in
            let split : front ++ c ∷ left ≡ rest =
              sym (append_assoc_last front c left)
              ∙ ap (λ p. p ++ left) (sym page)
              ∙ take-append-drop batch_size rest in
            let here : ids ≡ (pre ++ front) ++ c ∷ left =
              e ∙ ap (λ xs. pre ++ xs) (sym split) ∙ sym (append_assoc pre front (c ∷ left)) in
            let done = recompute_all (front ++ c ∷ []) db in
            let then_rest =
              rebuilt fuel (before c) ((pre ++ front) ++ c ∷ []) left (recomputed + batch_size) done
                (ground (arith, length-drop batch_size rest))
                (recompute_all-reviews (front ++ c ∷ []) db ∙ same)
                (here ∙ sym (append_assoc_last (pre ++ front) c left))
                (behind (pre ++ front) c left here) in
            let all : recompute_all left done ≡ recompute_all rest db =
              sym (recompute_all-append (front ++ c ∷ []) left db)
              ∙ ap (λ xs. recompute_all xs db) (append_assoc_last front c left ∙ split) in
            let size : length (front ++ c ∷ []) ≡ batch_size =
              ap (λ (p : List String). length p) (sym page)
              ∙ ground (arith, length-take batch_size rest) in
            let counted : recomputed + batch_size + length left ≡ recomputed + length rest =
              ground (arith, length-drop batch_size rest) in
            rw (page_of past rest db same h, page)
              (page_full batch_size front c recomputed db
                  (λ cursor. rebuild_from before batch_size fuel (before cursor)) size
                ∙ then_rest
                ∙ rw (all, counted))
      ]

  -- With more fuel than there are products the rebuild recomputes each of them once, in order, and
  -- answers their number.
  pub rebuild_from_lem :
      (fuel : ℕ) (db : ReviewDb)
      → db.reviews ≡ reviews
      → length ids < fuel
      → rebuild_from before batch_size fuel (λ id. true) 0 db
        ≡ some (length ids, recompute_all ids db)
  rebuild_from_lem fuel db same enough =
      rebuilt fuel (λ id. true) [] ids 0 db enough same refl (select_where_all ids) ∙ ground arith
