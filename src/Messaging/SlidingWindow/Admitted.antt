-- ===== src/Messaging/SlidingWindow/Admitted.antt =====
-- What the script admits over a sequence of calls.
use cloudtalk_tech_task.Base.{
  ℕ, ◌+◌, ◌≤◌, ◌<◌, Bool, true, false, List, [], ◌∷◌, ◌++◌, ◌≡◌, refl, sym, ◌∙◌, ap, arith, ltb,
  leb, ◌&&◌, any, length, All, map, Bool-cases, inl, inr,
}
use cloudtalk_tech_task.Sql.{delete_where, select_where, count_where}
use cloudtalk_tech_task.Sql.Laws.{count_where-append}
use cloudtalk_tech_task.Messaging.SlidingWindow.{
  Entry, Window, unexpired, is_past, prune, same_member, insert_entry,
}

-- a time whose window has not ended at `now`
abbrev pub is_live : ℕ → ℕ → ℕ → Bool
is_live window_ms now t = ltb now (t + window_ms)

-- a time in the window that ends at `t`
abbrev pub in_window : ℕ → ℕ → ℕ → Bool
in_window window_ms t s = leb s t && ltb t (s + window_ms)

abbrev pub score_of : Entry → ℕ
score_of e = e.score

-- The window after calls of which those at the times in `log` were admitted, the last at `last`.
pub record Follows (limit window_ms last : ℕ) (log : List ℕ) (w : Window) : Type 0 where
  pub scores : map score_of w.entries ≡ select_where (is_live window_ms last) log
  pub past : All (λ t. t ≤ last) log
  pub counted : All (λ (e : Entry). e.seq ≤ w.seq) w.entries
  pub expires : (now : ℕ) → w.expires_at < now → select_where (is_live window_ms now) log ≡ []
  pub room : (t : ℕ) → count_where (in_window window_ms t) log ≤ limit

scores_pruned :
    (window_ms now : ℕ) (entries : List Entry)
    → map score_of (prune window_ms now entries)
      ≡ select_where (is_live window_ms now) (map score_of entries)
unfolding prune
scores_pruned window_ms now [] = refl
scores_pruned window_ms now (e ∷ es) = ground (arith, scores_pruned window_ms now es)

select_where_later :
    (window_ms last now : ℕ) (log : List ℕ)
    → last ≤ now
    → select_where (is_live window_ms now) (select_where (is_live window_ms last) log)
      ≡ select_where (is_live window_ms now) log
select_where_later window_ms last now [] h = refl
select_where_later window_ms last now (t ∷ log) h =
    ground (arith, select_where_later window_ms last now log)

pub none_live :
    (window_ms last now : ℕ) (log : List ℕ)
    → All (λ t. t ≤ last) log
    → last + window_ms ≤ now
    → select_where (is_live window_ms now) log ≡ []
none_live window_ms last now [] h k = refl
none_live window_ms last now (t ∷ log) h k = ground (arith, none_live window_ms last now log)

All-delete_where {ℓ} :
    {A : Type 0} (P : A → Type ℓ) (p : A → Bool) (xs : List A)
    → All P xs
    → All P (delete_where p xs)
All-delete_where P p [] h = tt
All-delete_where P p (x ∷ xs) (q, h) = elim (Bool-cases (p x)) [
  | inl gone ↦ rw gone (All-delete_where P p xs h)
  | inr kept ↦ rw kept (q, All-delete_where P p xs h)
]

module _ (limit window_ms last : ℕ) (log : List ℕ) (w : Window)
    (f : Follows limit window_ms last log w) where
  -- Whether or not the keys have expired, the pruned set is the admitted times still live.
  pub pruned_live :
      (now : ℕ)
      → last ≤ now
      → map score_of (prune window_ms now (unexpired now w).entries)
        ≡ select_where (is_live window_ms now) log
  unfolding unexpired
  pruned_live now h = elim (Bool-cases (ltb w.expires_at now)) [
    | inl gone ↦ rw gone (scores_pruned window_ms now [] ∙ sym (f.expires now (ground arith)))
    | inr there ↦ rw there (
        scores_pruned window_ms now w.entries
        ∙ ap (select_where (is_live window_ms now)) f.scores
        ∙ select_where_later window_ms last now log h)
  ]

  pub pruned_counted :
      (now : ℕ)
      → All
          (λ (e : Entry). e.seq ≤ (unexpired now w).seq)
          (prune window_ms now (unexpired now w).entries)
  unfolding unexpired prune
  pruned_counted now = elim (Bool-cases (ltb w.expires_at now)) [
    | inl gone ↦ rw gone tt
    | inr there ↦ rw there (
        All-delete_where (λ (e : Entry). e.seq ≤ w.seq) (is_past window_ms now) w.entries f.counted)
  ]

pub length-live : (p : ℕ → Bool) (log : List ℕ) → length (select_where p log) ≡ count_where p log
length-live p [] = refl
length-live p (t ∷ log) = ground (arith, length-live p log)

pub length-scores : (es : List Entry) → length (map score_of es) ≡ length es
length-scores [] = refl
length-scores (e ∷ es) = ground (arith, length-scores es)

pub fresh_member :
    (now n : ℕ) (es : List Entry)
    → All (λ (e : Entry). e.seq ≤ n) es
    → any (same_member (record { score = now; seq = n + 1 })) es ≡ false
fresh_member now n [] h = refl
fresh_member now n (e ∷ es) h = ground (arith, fresh_member now n es)

pub insert_entry_last :
    (e : Entry) (es : List Entry)
    → All (λ s. s ≤ e.score) (map score_of es)
    → insert_entry e es ≡ es ++ e ∷ []
unfolding insert_entry
insert_entry_last e [] h = refl
insert_entry_last e (x ∷ es) h = ground (arith, insert_entry_last e es)

pub map-append_last :
    (es : List Entry) (e : Entry) → map score_of (es ++ e ∷ []) ≡ map score_of es ++ e.score ∷ []
map-append_last [] e = refl
map-append_last (x ∷ es) e = ground (arith, map-append_last es e)

pub select_where_last :
    (p : ℕ → Bool) (log : List ℕ) (t : ℕ)
    → p t ≡ true
    → select_where p (log ++ t ∷ []) ≡ select_where p log ++ t ∷ []
select_where_last p [] t h = ground arith
select_where_last p (s ∷ log) t h = ground (arith, select_where_last p log t)

pub All_weaken :
    (last now : ℕ) (log : List ℕ) → last ≤ now → All (λ t. t ≤ last) log → All (λ t. t ≤ now) log
All_weaken last now [] h k = tt
All_weaken last now (t ∷ log) h k = (omega arith, All_weaken last now log h k.1)

pub All_seq :
    (n : ℕ) (es : List Entry)
    → All (λ (e : Entry). e.seq ≤ n) es
    → All (λ (e : Entry). e.seq ≤ n + 1) es
All_seq n [] h = tt
All_seq n (e ∷ es) h = (omega arith, All_seq n es h.1)

pub All-select_live :
    (p : ℕ → Bool) (n : ℕ) (log : List ℕ)
    → All (λ t. t ≤ n) log
    → All (λ t. t ≤ n) (select_where p log)
All-select_live p n [] h = tt
All-select_live p n (t ∷ log) h = elim (Bool-cases (p t)) [
  | inl chosen ↦ rw chosen (h.0, All-select_live p n log h.1)
  | inr passed ↦ rw passed (All-select_live p n log h.1)
]

-- Every time in a window that ends at `t` is live at an earlier `now`.
in_window-le-live :
    (window_ms now t : ℕ) (log : List ℕ)
    → now ≤ t
    → count_where (in_window window_ms t) log ≤ count_where (is_live window_ms now) log
in_window-le-live window_ms now t [] h = omega arith
in_window-le-live window_ms now t (s ∷ log) h =
    ground (arith, in_window-le-live window_ms now t log)

pub room_after :
    (limit window_ms now : ℕ) (log : List ℕ)
    → count_where (is_live window_ms now) log < limit
    → ((t : ℕ) → count_where (in_window window_ms t) log ≤ limit)
    → (t : ℕ) → count_where (in_window window_ms t) (log ++ now ∷ []) ≤ limit
room_after limit window_ms now log few room t = ground (
  arith,
  count_where-append (in_window window_ms t) log (now ∷ []),
  room t,
  in_window-le-live window_ms now t log,
)
