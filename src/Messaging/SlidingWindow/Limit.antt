-- ===== src/Messaging/SlidingWindow/Limit.antt =====
-- The limit over any sequence of calls.
use cloudtalk_tech_task.Base.{
  ℕ, ◌+◌, ◌≤◌, ◌<◌, Bool, List, [], ◌∷◌, ◌++◌, ◌≡◌, refl, sym, ◌∙◌, ap, arith, ltb, if◌then◌else◌,
  length, All, All-append, map, Bool-cases, inl, inr,
}
use cloudtalk_tech_task.Sql.{select_where, count_where}
use cloudtalk_tech_task.Messaging.SlidingWindow.{
  Entry, Window, empty_window, unexpired, prune, zadd, admit, sliding_window,
}
use cloudtalk_tech_task.Messaging.SlidingWindow.Admitted.{
  is_live, in_window, score_of, Follows, pruned_live, pruned_counted, length-live, length-scores,
  fresh_member, insert_entry_last, map-append_last, select_where_last, All_weaken, All_seq,
  All-select_live, none_live, room_after,
}

zadd_last :
    (now n : ℕ) (es : List Entry)
    → All (λ (e : Entry). e.seq ≤ n) es
    → All (λ s. s ≤ now) (map score_of es)
    → zadd (record { score = now; seq = n + 1 }) es ≡ es ++ record { score = now; seq = n + 1 } ∷ []
unfolding zadd
zadd_last now n es h k =
    rw (fresh_member now n es h) (insert_entry_last (record { score = now; seq = n + 1 }) es k)

-- the calls admitted so far, after one more call
abbrev pub log_after : Bool → ℕ → List ℕ → List ℕ
log_after allowed now log = if allowed then log ++ now ∷ [] else log

module _ (limit window_ms last now : ℕ) (log : List ℕ) where
  admit-Follows :
      (w : Window) (es : List Entry)
      → 0 < window_ms
      → last ≤ now
      → All (λ t. t ≤ last) log
      → ((t : ℕ) → count_where (in_window window_ms t) log ≤ limit)
      → map score_of es ≡ select_where (is_live window_ms now) log
      → All (λ (e : Entry). e.seq ≤ w.seq) es
      → Follows limit window_ms now
          (log_after (admit limit window_ms now w es).0.allowed now log)
          (admit limit window_ms now w es).1
  unfolding admit
  admit-Follows w es pos later past room scores counted =
      elim (Bool-cases (ltb (length es) limit)) [
        | inl few ↦
            let below =
              All-select_live (is_live window_ms now) now log
                (All_weaken last now log later past) in
            let past' =
              All-append (λ t. t ≤ now) log (now ∷ []) (All_weaken last now log later past)
                (omega arith, tt) in
            let added = zadd_last now w.seq es counted (rw scores below) in
            let live : count_where (is_live window_ms now) log < limit = ground (
              arith,
              length-scores es,
              length-live (is_live window_ms now) log,
              ap (λ (ss : List ℕ). length ss) scores,
            ) in
            rw (few, added)
              (record {
                scores =
                    map-append_last es (record { score = now; seq = w.seq + 1 })
                    ∙ ap (λ ss. ss ++ now ∷ []) scores
                    ∙ sym (select_where_last (is_live window_ms now) log now (ground arith));
                past = past';
                counted =
                    All-append (λ (e : Entry). e.seq ≤ w.seq + 1) es
                      (record { score = now; seq = w.seq + 1 } ∷ []) (All_seq w.seq es counted)
                      (omega arith, tt);
                expires = λ t gone. none_live window_ms now t (log ++ now ∷ []) past' (omega arith);
                room = room_after limit window_ms now log live room;
              })
        | inr full ↦ rw full (record {
          scores = scores;
          past = All_weaken last now log later past;
          counted = counted;
          expires = λ t gone.
              none_live window_ms now t log (All_weaken last now log later past) (omega arith);
          room = room;
        })
      ]

-- the times that calls at these times, one after the other, are admitted
unfoldable pub admitted_from : ℕ → ℕ → Window → List ℕ → List ℕ → List ℕ
admitted_from limit window_ms w log [] = log
admitted_from limit window_ms w log (now ∷ times) =
    let (reply, w') = sliding_window limit window_ms now w in
    admitted_from limit window_ms w' (log_after reply.allowed now log) times

-- each time at least the one before
abbrev pub Ascends : ℕ → List ℕ → Type 0
Ascends last [] = Unit
Ascends last (now ∷ times) = (last ≤ now) × Ascends now times

module _ (limit window_ms : ℕ) (pos : 0 < window_ms) where
  pub sliding_window-Follows :
      (last now : ℕ) (log : List ℕ) (w : Window)
      → last ≤ now
      → Follows limit window_ms last log w
      → Follows limit window_ms now
          (log_after (sliding_window limit window_ms now w).0.allowed now log)
          (sliding_window limit window_ms now w).1
  unfolding sliding_window
  sliding_window-Follows last now log w later f =
      admit-Follows limit window_ms last now log (unexpired now w)
        (prune window_ms now (unexpired now w).entries) pos later f.past f.room
        (pruned_live limit window_ms last log w f now later)
        (pruned_counted limit window_ms last log w f now)

  admitted_from_room :
      (last : ℕ) (times log : List ℕ) (w : Window)
      → Ascends last times
      → Follows limit window_ms last log w
      → (t : ℕ)
      → count_where (in_window window_ms t) (admitted_from limit window_ms w log times) ≤ limit
  unfolding admitted_from
  admitted_from_room last [] log w up f t = f.room t
  admitted_from_room last (now ∷ times) log w (later, up) f t =
      admitted_from_room now times
        (log_after (sliding_window limit window_ms now w).0.allowed now log)
        (sliding_window limit window_ms now w).1 up (sliding_window-Follows last now log w later f)
        t

-- Before the first call.
pub empty_window-Follows : (limit window_ms : ℕ) → Follows limit window_ms 0 [] empty_window
empty_window-Follows limit window_ms = record {
  scores = refl;
  past = tt;
  counted = tt;
  expires = λ _ _. refl;
  room = λ _. omega arith;
}

-- Over any sequence of calls whose times never fall, from an absent key on, the number of calls
-- that the script admits within any window of windowMs is at most the limit, whether or not the
-- keys expire in between.
pub sliding_window_limit :
    (limit window_ms t : ℕ) (times : List ℕ)
    → 0 < window_ms
    → Ascends 0 times
    → count_where (in_window window_ms t) (admitted_from limit window_ms empty_window [] times)
      ≤ limit
sliding_window_limit limit window_ms t times pos up =
    admitted_from_room limit window_ms pos 0 times [] empty_window up
      (empty_window-Follows limit window_ms) t
