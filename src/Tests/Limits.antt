-- ===== src/Tests/Limits.antt =====
-- The two rate limiters.
use cloudtalk_tech_task.Base.{
  ◌+◌, ◌-◌, ◌*◌, ◌≤◌, true, false, Option, none, some, [], ◌∷◌, ◌≡◌, refl, arith,
}
use cloudtalk_tech_task.Sql.{count_where}
use cloudtalk_tech_task.Messaging.SlidingWindow.{Window, empty_window, sliding_window}
use cloudtalk_tech_task.Messaging.SlidingWindow.Admitted.{in_window, Follows}
use cloudtalk_tech_task.Messaging.SlidingWindow.Limit.{
  admitted_from, log_after, empty_window-Follows, sliding_window-Follows, sliding_window_limit,
}
use cloudtalk_tech_task.Messaging.SlidingWindow.Retry.{sliding_window_retried}
use cloudtalk_tech_task.Messaging.LogSuppressor.{new_suppressor, warnings}
use cloudtalk_tech_task.Messaging.TokenBucket.{
  BucketOptions, Bucket, parts, token_bucket, rpm_limiter_options,
}
use cloudtalk_tech_task.Messaging.TokenBucket.Spending.{spent, token_bucket_spent}

-- two calls in ten milliseconds: the third has to wait, and then the keys have expired
admitted_times :
    admitted_from 2 10 empty_window [] (1 ∷ 3 ∷ 5 ∷ 12 ∷ 40 ∷ []) ≡ 1 ∷ 3 ∷ 12 ∷ 40 ∷ []
unfolding admitted_from sliding_window
admitted_times = refl

sliding_window_limit_example :
    count_where (in_window 10 14) (admitted_from 2 10 empty_window [] (1 ∷ 3 ∷ 5 ∷ 12 ∷ [])) ≤ 2
sliding_window_limit_example =
    sliding_window_limit 2 10 14 (1 ∷ 3 ∷ 5 ∷ 12 ∷ []) (omega arith) (omega arith)

abbrev once : Window
once = (sliding_window 1 10 4 empty_window).1

once-Follows : Follows 1 10 4 (log_after (sliding_window 1 10 4 empty_window).0.allowed 4 []) once
once-Follows =
    sliding_window-Follows 1 10 (omega arith) 0 4 [] empty_window (omega arith)
      (empty_window-Follows 1 10)

refused : (sliding_window 1 10 9 once).0.allowed ≡ false
unfolding sliding_window
refused = refl

sliding_window_retried_example :
    (sliding_window 1 10
      (9 + (sliding_window 1 10 9 once).0.retry_after_ms)
      (sliding_window 1 10 9 once).1).0.allowed
    ≡ true
sliding_window_retried_example =
    sliding_window_retried 1 10 4 9 (log_after (sliding_window 1 10 4 empty_window).0.allowed 4 [])
      once (omega arith) (omega arith) once-Follows refused

-- two tokens, and one more each second
abbrev two_tokens : BucketOptions
two_tokens = record { capacity = 2; num = 1; den = 1 }

token_bucket_spent_example :
    spent two_tokens none ((0, 1) ∷ (500, 2) ∷ (2000, 1) ∷ []) ≤ parts two_tokens 2 + (2000 - 0) * 1
token_bucket_spent_example =
    token_bucket_spent two_tokens none 0 1 ((500, 2) ∷ (2000, 1) ∷ []) (omega arith) (omega arith)

abbrev drained : Option Bucket
drained = some (record { tokens = 250; updated_at_ms = 100; expires_at = 4100 })

drained_wait : (token_bucket two_tokens 200 1 drained).0.retry_after_ms ≡ 650
unfolding token_bucket
drained_wait = refl

-- sixty requests a minute refill one token a second
per_minute : (token_bucket (rpm_limiter_options 60) 0 60 none).0.allowed ≡ true
unfolding token_bucket
per_minute = refl

-- five calls: the first and the fourth are logged, and the fourth tells of two others
suppressed_warnings : warnings 60000 (5 ∷ 6 ∷ 7 ∷ 60005 ∷ 60006 ∷ []) new_suppressor ≡ (
  record { logged_at = 5; swallowed = 0 } ∷ record { logged_at = 60005; swallowed = 2 } ∷ [],
  record { last_logged_at = some 60005; suppressed_count = 1 },
)
unfolding warnings
suppressed_warnings = refl
