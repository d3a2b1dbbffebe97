-- ===== src/Messaging/TokenBucket/Stored.antt =====
-- What a call of the script leaves in a bucket, and the refill of what it left.
use cloudtalk_tech_task.Base.{
  ℕ, ◌+◌, ◌-◌, ◌*◌, ◌≤◌, ◌<◌, Option, some, ltb, min, ◌≡◌, refl, arith, Bool-cases, inl, inr,
}
use cloudtalk_tech_task.Messaging.TokenBucket.{
  BucketOptions, Bucket, parts, ceil_div, compute_token_bucket_refill, stored_tokens,
  refilled_tokens, time_to_live, take_tokens, token_bucket,
}

pub ceil_div_enough : (a n : ℕ) → 0 < n → a ≤ ceil_div a n * n
unfolding ceil_div
ceil_div_enough a n h = grind arith

mul_le_mul : (a b n : ℕ) → a ≤ b → a * n ≤ b * n
mul_le_mul a b n h = grind arith

-- A bucket as a call of the script leaves it.
pub record IsStored (o : BucketOptions) (b : Bucket) : Type 0 where
  pub full : b.tokens ≤ parts o o.capacity
  pub lives : b.expires_at ≡ b.updated_at_ms + time_to_live o

-- The expiry of a bucket cannot be told from its refill: it would have been full.
pub refilled_tokens_stored :
    (o : BucketOptions) (now : ℕ) (b : Bucket)
    → 0 < o.num
    → IsStored o b
    → refilled_tokens o now (some b)
      ≡ min (parts o o.capacity) (b.tokens + (now - b.updated_at_ms) * o.num)
unfolding refilled_tokens stored_tokens time_to_live compute_token_bucket_refill
refilled_tokens_stored o now b pos s = elim (Bool-cases (ltb b.expires_at now)) [
  | inl gone ↦
      let long =
        mul_le_mul (ceil_div (parts o o.capacity) o.num) (now - b.updated_at_ms) o.num
          (ground (arith, s.lives)) in
      rw gone (omega (arith, long, ceil_div_enough (parts o o.capacity) o.num pos))
  | inr there ↦ rw there refl
]

pub take_tokens-IsStored :
    (o : BucketOptions) (now cost refilled : ℕ)
    → refilled ≤ parts o o.capacity
    → IsStored o (take_tokens o now cost refilled).1
unfolding take_tokens
take_tokens-IsStored o now cost refilled h = record { full = ground arith; lives = refl }

pub refilled_tokens-le :
    (o : BucketOptions) (now : ℕ) (bucket : Option Bucket)
    → refilled_tokens o now bucket ≤ parts o o.capacity
unfolding refilled_tokens compute_token_bucket_refill
refilled_tokens-le o now bucket = omega arith

-- A bucket that the script writes holds at most its capacity, and whole parts of a token.
pub token_bucket-IsStored :
    (o : BucketOptions) (now cost : ℕ) (bucket : Option Bucket)
    → IsStored o (token_bucket o now cost bucket).1
unfolding token_bucket
token_bucket-IsStored o now cost bucket =
    take_tokens-IsStored o now (parts o cost) (refilled_tokens o now bucket)
      (refilled_tokens-le o now bucket)
