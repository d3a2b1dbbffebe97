-- ===== src/Messaging/TokenBucket/Spending.antt =====
-- How many tokens a bucket gives out over a sequence of calls.
use cloudtalk_tech_task.Base.{
  ℕ, ◌+◌, ◌-◌, ◌*◌, ◌≤◌, ◌<◌, Option, some, List, [], ◌∷◌, ◌≡◌, arith, leb, if◌then◌else◌,
}
use cloudtalk_tech_task.Messaging.TokenBucket.{
  BucketOptions, Bucket, parts, refilled_tokens, take_tokens, token_bucket,
}
use cloudtalk_tech_task.Messaging.TokenBucket.Stored.{
  IsStored, refilled_tokens_stored, refilled_tokens-le, take_tokens-IsStored,
}

-- the parts of tokens that calls, each at a time and a cost, are given
unfoldable pub spent : BucketOptions → Option Bucket → List (ℕ × ℕ) → ℕ
spent o bucket [] = 0
spent o bucket ((now, cost) ∷ calls) =
    let (decision, b) = token_bucket o now cost bucket in
    (if decision.allowed then parts o cost else 0) + spent o (some b) calls

-- the time of the last call, or `t`
abbrev pub last_time : ℕ → List (ℕ × ℕ) → ℕ
last_time t [] = t
last_time t ((now, cost) ∷ calls) = last_time now calls

-- each call no earlier than the one before
abbrev pub CallsAscend : ℕ → List (ℕ × ℕ) → Type 0
CallsAscend t [] = Unit
CallsAscend t ((now, cost) ∷ calls) = (t ≤ now) × CallsAscend now calls

le-last_time : (t : ℕ) (calls : List (ℕ × ℕ)) → CallsAscend t calls → t ≤ last_time t calls
le-last_time t [] up = omega arith
le-last_time t ((now, cost) ∷ calls) up = omega (arith, le-last_time now calls up.1)

spans_join : (a b c n : ℕ) → a ≤ b → b ≤ c → (b - a) * n + (c - b) * n ≡ (c - a) * n
spans_join a b c n h k = grind arith

-- What is given at once and what is left for later add up to what there was.
given_and_left :
    (cost r rest x : ℕ)
    → rest ≤ (if leb cost r then r - cost else r) + x
    → (if leb cost r then cost else 0) + rest ≤ r + x
given_and_left cost r rest x h = ground arith

module _ (o : BucketOptions) (pos : 0 < o.num) where
  spent_stored :
      (b : Bucket) (calls : List (ℕ × ℕ))
      → IsStored o b
      → CallsAscend b.updated_at_ms calls
      → spent o (some b) calls
        ≤ b.tokens + (last_time b.updated_at_ms calls - b.updated_at_ms) * o.num
  unfolding spent token_bucket take_tokens
  spent_stored b [] s up = omega arith
  spent_stored b ((now, cost) ∷ calls) s (later, up) =
      let r = refilled_tokens o now (some b) in
      let rest =
        spent_stored (take_tokens o now (parts o cost) r).1 calls
          (take_tokens-IsStored o now (parts o cost) r (refilled_tokens-le o now (some b))) up in
      omega (
        arith,
        given_and_left (parts o cost) r
            (spent o (some (take_tokens o now (parts o cost) r).1) calls)
            ((last_time now calls - now) * o.num) rest,
        refilled_tokens_stored o now b pos s,
        spans_join b.updated_at_ms now (last_time now calls) o.num later
            (le-last_time now calls up),
      )

-- At a positive rate, the tokens given to any sequence of calls whose times never fall are at
-- most the capacity and what is refilled between the first and the last call, whatever the
-- bucket was before.
pub token_bucket_spent :
    (o : BucketOptions) (bucket : Option Bucket) (now cost : ℕ) (calls : List (ℕ × ℕ))
    → 0 < o.num
    → CallsAscend now calls
    → spent o bucket ((now, cost) ∷ calls)
      ≤ parts o o.capacity + (last_time now calls - now) * o.num
unfolding spent token_bucket take_tokens
token_bucket_spent o bucket now cost calls pos up =
    let r = refilled_tokens o now bucket in
    let rest =
      spent_stored o pos (take_tokens o now (parts o cost) r).1 calls
        (take_tokens-IsStored o now (parts o cost) r (refilled_tokens-le o now bucket)) up in
    omega (
      arith,
      given_and_left (parts o cost) r (spent o (some (take_tokens o now (parts o cost) r).1) calls)
          ((last_time now calls - now) * o.num) rest,
      refilled_tokens-le o now bucket,
    )
