-- ===== src/Messaging/SlidingWindow/Retry.antt =====
-- When the script refuses a call, and that its wait is long enough.
use cloudtalk_tech_task.Base.{
  ℕ, ◌+◌, ◌-◌, ◌≤◌, ◌<◌, true, false, List, [], ◌∷◌, ◌≡◌, refl, sym, ◌∙◌, ap, arith, ltb, length,
  All, Bool-cases, inl, inr,
}
use cloudtalk_tech_task.Sql.{count_where, delete_where}
use cloudtalk_tech_task.Messaging.SlidingWindow.{
  Entry, Window, unexpired, is_past, prune, admit, sliding_window,
}
use cloudtalk_tech_task.Messaging.SlidingWindow.Admitted.{
  is_live, in_window, Follows, pruned_live, length-live, length-scores,
}

-- Of times up to `now`, those still live are those of the window that ends now.
live-eq_in_window :
    (window_ms now last : ℕ) (log : List ℕ)
    → last ≤ now
    → All (λ t. t ≤ last) log
    → count_where (is_live window_ms now) log ≡ count_where (in_window window_ms now) log
live-eq_in_window window_ms now last [] h k = refl
live-eq_in_window window_ms now last (t ∷ log) h k =
    ground (arith, live-eq_in_window window_ms now last log h)

length-delete_past :
    (window_ms now : ℕ) (es : List Entry)
    → length (delete_where (is_past window_ms now) es) ≤ length es
length-delete_past window_ms now [] = omega arith
length-delete_past window_ms now (e ∷ es) = ground (arith, length-delete_past window_ms now es)

module _ (limit window_ms last now : ℕ) (log : List ℕ) (w : Window) (later : last ≤ now)
    (f : Follows limit window_ms last log w) where
  length-pruned :
      length (prune window_ms now (unexpired now w).entries)
      ≡ count_where (in_window window_ms now) log
  length-pruned =
      sym (length-scores (prune window_ms now (unexpired now w).entries))
      ∙ ap (λ (ss : List ℕ). length ss) (pruned_live limit window_ms last log w f now later)
      ∙ length-live (is_live window_ms now) log
      ∙ live-eq_in_window window_ms now last log later f.past

  -- After a run of calls a call is admitted where the log of the admitted ones has fewer than
  -- `limit` in the window.
  pub sliding_window_allowed :
      (sliding_window limit window_ms now w).0.allowed
      ≡ ltb (count_where (in_window window_ms now) log) limit
  unfolding sliding_window admit
  sliding_window_allowed = ground (arith, length-pruned)

allowed_few :
    (limit window_ms now : ℕ) (w : Window)
    → length (prune window_ms now (unexpired now w).entries) < limit
    → (sliding_window limit window_ms now w).0.allowed ≡ true
unfolding sliding_window admit
allowed_few limit window_ms now w few = ground arith

-- At the end of the oldest entry's window the entry is gone, expired or pruned.
oldest_gone :
    (window_ms now : ℕ) (w : Window) (e : Entry) (es : List Entry)
    → w.entries ≡ e ∷ es
    → e.score + window_ms ≤ now
    → length (prune window_ms now (unexpired now w).entries) ≤ length es
unfolding prune unexpired
oldest_gone window_ms now w e es same past = elim (Bool-cases (ltb w.expires_at now)) [
  | inl gone ↦ rw gone (omega arith)
  | inr there ↦ rw (there, same) (ground (arith, length-delete_past window_ms now es))
]

module _ (limit window_ms now : ℕ) (w : Window) where
  retried :
      (es : List Entry)
      → 0 < limit
      → length es ≤ limit
      → (admit limit window_ms now w es).0.allowed ≡ false
      → (sliding_window limit window_ms
          (now + (admit limit window_ms now w es).0.retry_after_ms)
          (admit limit window_ms now w es).1).0.allowed
        ≡ true
  unfolding admit
  retried [] pos few refused = absurd (ground arith)
  retried (e ∷ es) pos few refused = elim (Bool-cases (ltb (length (e ∷ es)) limit)) [
    | inl room ↦ absurd (ground arith)
    | inr full ↦ rw full (
        allowed_few limit window_ms (now + (e.score + window_ms - now))
          (record w { entries = e ∷ es; expires_at = now + window_ms })
          (omega (
            arith,
            oldest_gone window_ms (now + (e.score + window_ms - now))
                (record w { entries = e ∷ es; expires_at = now + window_ms }) e es refl
                (omega arith),
          )))
  ]

-- In a window that follows from admitted calls, with a positive limit, a call that is refused is
-- admitted when it is made again after the wait that the refusal names and no other call comes
-- in between.
pub sliding_window_retried :
    (limit window_ms last now : ℕ) (log : List ℕ) (w : Window)
    → 0 < limit
    → last ≤ now
    → Follows limit window_ms last log w
    → (sliding_window limit window_ms now w).0.allowed ≡ false
    → (sliding_window limit window_ms
        (now + (sliding_window limit window_ms now w).0.retry_after_ms)
        (sliding_window limit window_ms now w).1).0.allowed
      ≡ true
unfolding sliding_window
sliding_window_retried limit window_ms last now log w pos later f refused =
    retried limit window_ms now (unexpired now w) (prune window_ms now (unexpired now w).entries)
      pos (omega (arith, length-pruned limit window_ms last now log w later f, f.room now)) refused
