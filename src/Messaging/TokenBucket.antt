-- ===== src/Messaging/TokenBucket.antt =====
-- packages/messaging/src/rate-limiter.ts with internal/token-bucket-lua.ts, internal/token-bucket-retry.ts
-- and internal/rpm-limiter-options.ts: the token bucket of one key. The rate is `num / den` tokens in
-- a second, and tokens are counted in parts of 1 / (1000 * den), so that every number of the script is
-- a natural number and nothing is rounded. The script has floats, and stores the tokens as text of 14
-- digits: near a whole token it may refuse a call that these numbers admit. Times are in milliseconds.
pub mod Spending
pub mod Stored
use cloudtalk_tech_task.Base.{
  ℕ, ◌+◌, ◌-◌, ◌*◌, ◌/◌, Bool, true, false, Option, none, some, leb, ltb, min, if◌then◌else◌,
}

-- The capacity and the rate of a bucket.
pub record BucketOptions : Type 0 where
  pub capacity : ℕ
  pub num : ℕ
  pub den : ℕ

pub record Bucket : Type 0 where
  pub tokens : ℕ
  pub updated_at_ms : ℕ
  pub expires_at : ℕ

pub record TokenBucketDecision : Type 0 where
  pub allowed : Bool
  pub remaining_tokens : ℕ
  pub retry_after_ms : ℕ

-- the parts of so many whole tokens
abbrev pub parts : BucketOptions → ℕ → ℕ
parts o n = n * (1000 * o.den)

-- `Math.ceil(a / n)`
unfoldable pub ceil_div : ℕ → ℕ → ℕ
ceil_div a n = (a + (n - 1)) / n

unfoldable pub compute_token_bucket_refill : ℕ → ℕ → ℕ → ℕ → ℕ
compute_token_bucket_refill tokens capacity num elapsed_ms =
    min capacity (tokens + elapsed_ms * num)

unfoldable pub compute_token_bucket_retry_after_ms : ℕ → ℕ → ℕ → ℕ
unfolding ceil_div
compute_token_bucket_retry_after_ms cost refilled num =
    if leb cost refilled then 0 else ceil_div (cost - refilled) num

-- HMGET, with a bucket whose time to live has passed gone: its tokens and their time
unfoldable pub stored_tokens : BucketOptions → ℕ → Option Bucket → ℕ × ℕ
stored_tokens o now none = (parts o o.capacity, now)
stored_tokens o now (some b) =
    if ltb b.expires_at now then (parts o o.capacity, now) else (b.tokens, b.updated_at_ms)

unfoldable pub refilled_tokens : BucketOptions → ℕ → Option Bucket → ℕ
unfolding stored_tokens compute_token_bucket_refill
refilled_tokens o now bucket =
    let (tokens, updated_at_ms) = stored_tokens o now bucket in
    compute_token_bucket_refill tokens (parts o o.capacity) o.num (now - updated_at_ms)

unfoldable pub time_to_live : BucketOptions → ℕ
unfolding ceil_div
time_to_live o = ceil_div (parts o o.capacity) o.num * 2

-- the rest of TOKEN_BUCKET_LUA, after the refill
unfoldable pub take_tokens : BucketOptions → ℕ → ℕ → ℕ → TokenBucketDecision × Bucket
unfolding time_to_live compute_token_bucket_retry_after_ms
take_tokens o now cost refilled =
    let left = if leb cost refilled then refilled - cost else refilled in
    (
      record {
        allowed = leb cost refilled;
        remaining_tokens = left;
        retry_after_ms = compute_token_bucket_retry_after_ms cost refilled o.num;
      },
      record { tokens = left; updated_at_ms = now; expires_at = now + time_to_live o },
    )

-- TOKEN_BUCKET_LUA at a cost in whole tokens
unfoldable pub token_bucket : BucketOptions → ℕ → ℕ → Option Bucket → TokenBucketDecision × Bucket
unfolding refilled_tokens take_tokens
token_bucket o now cost bucket = take_tokens o now (parts o cost) (refilled_tokens o now bucket)

-- `requestsPerMinute / 60` tokens in a second
abbrev pub rpm_limiter_options : ℕ → BucketOptions
rpm_limiter_options requests_per_minute = record {
  capacity = requests_per_minute;
  num = requests_per_minute;
  den = 60;
}
