-- ===== src/Messaging/SlidingWindow.antt =====
-- packages/messaging/src/sliding-window-rate-limiter.ts and internal/sliding-window-lua.ts: the
-- script on the two keys of one subject, and what the caller makes of its reply. Times are in
-- milliseconds; Redis runs a script as one step and drops a key whose time to live has passed.
-- Where two members have the same score the later one stands behind, whatever their texts; the
-- script reads scores only.
pub mod Admitted
pub mod Limit
pub mod Retry
use cloudtalk_tech_task.Base.{
  ℕ, zero, suc, ◌+◌, ◌-◌, Bool, true, false, Option, none, some, List, [], ◌∷◌, ◌==◌, ltb, leb,
  ◌&&◌, not, any, if◌then◌else◌, length,
}
use cloudtalk_tech_task.Kernel.Errors.{validation_error, no_options}
use cloudtalk_tech_task.Sql.{delete_where}
use cloudtalk_tech_task.Sql.Io.{Outcome, ok, threw}
use cloudtalk_tech_task.Jobs.Checks.{refuse_if, ◌>>◌}

-- A member of the sorted set: its text is `score-seq`.
pub record Entry : Type 0 where
  pub score : ℕ
  pub seq : ℕ

-- The sorted set and the counter of one subject, which have the same time to live. An absent key is
-- an empty set or a counter at 0.
pub record Window : Type 0 where
  pub entries : List Entry
  pub seq : ℕ
  pub expires_at : ℕ

pub record Reply : Type 0 where
  pub allowed : Bool
  pub remaining : ℕ
  pub retry_after_ms : ℕ

abbrev pub empty_window : Window
empty_window = record { entries = []; seq = 0; expires_at = 0 }

-- PEXPIRE
unfoldable pub unexpired : ℕ → Window → Window
unexpired now w = if ltb w.expires_at now then empty_window else w

-- a score of at most `nowMs - windowMs`
abbrev pub is_past : ℕ → ℕ → Entry → Bool
is_past window_ms now e = leb (e.score + window_ms) now

-- ZREMRANGEBYSCORE key -inf windowStart
unfoldable pub prune : ℕ → ℕ → List Entry → List Entry
prune window_ms now entries = delete_where (is_past window_ms now) entries

abbrev pub same_member : Entry → Entry → Bool
same_member a b = (a.score == b.score) && a.seq == b.seq

-- a member's place in the order of the scores
unfoldable pub insert_entry : Entry → List Entry → List Entry
insert_entry e [] = e ∷ []
insert_entry e (x ∷ xs) = if leb x.score e.score then x ∷ insert_entry e xs else e ∷ x ∷ xs

-- ZADD, which adds no member twice
unfoldable pub zadd : Entry → List Entry → List Entry
unfolding insert_entry
zadd e entries = if any (same_member e) entries then entries else insert_entry e entries

-- `ZRANGE key 0 0 WITHSCORES`, from which the wait is counted
abbrev pub wait_for : ℕ → ℕ → List Entry → ℕ
wait_for window_ms now [] = 0
wait_for window_ms now (oldest ∷ _) = oldest.score + window_ms - now

-- the admission, after the prune
unfoldable pub admit : ℕ → ℕ → ℕ → Window → List Entry → Reply × Window
unfolding zadd
admit limit window_ms now w entries =
    if ltb (length entries) limit
    then (
      record { allowed = true; remaining = limit - length entries - 1; retry_after_ms = 0 },
      record {
        entries = zadd (record { score = now; seq = w.seq + 1 }) entries;
        seq = w.seq + 1;
        expires_at = now + window_ms;
      },
    )
    else (
      record {
        allowed = false;
        remaining = limit - length entries;
        retry_after_ms = wait_for window_ms now entries;
      },
      record w { entries = entries; expires_at = now + window_ms },
    )

-- SLIDING_WINDOW_LUA
unfoldable pub sliding_window : ℕ → ℕ → ℕ → Window → Reply × Window
unfolding unexpired prune admit
sliding_window limit window_ms now w =
    let live = unexpired now w in admit limit window_ms now live (prune window_ms now live.entries)

unfoldable pub create_sliding_window_checks : ℕ → ℕ → Outcome (Unit {0})
create_sliding_window_checks limit window_ms = do
  refuse_if (leb limit 0) "createSlidingWindowRateLimiter: limit must be an integer > 0"
  refuse_if (leb window_ms 0) "createSlidingWindowRateLimiter: windowMs must be an integer > 0"

-- `Number.POSITIVE_INFINITY`, or a number
pub data Remaining : Type 0 where
  finite : ℕ → Remaining
  infinity : Remaining

pub record SlidingWindowDecision : Type 0 where
  pub allowed : Bool
  pub remaining : Remaining
  pub retry_after_ms : ℕ
  pub degraded : Bool

abbrev pub fail_open_decision : SlidingWindowDecision
fail_open_decision = record {
  allowed = true;
  remaining = infinity;
  retry_after_ms = 0;
  degraded = true;
}

-- The answer to a call within the deadline, or the rejection of the race.
unfoldable pub try_acquire : Outcome Reply → SlidingWindowDecision
try_acquire (ok r) = record {
  allowed = r.allowed;
  remaining = finite r.remaining;
  retry_after_ms = r.retry_after_ms;
  degraded = false;
}
try_acquire (threw e) = fail_open_decision
