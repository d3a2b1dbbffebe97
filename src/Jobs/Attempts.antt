-- ===== src/Jobs/Attempts.antt =====
-- packages/jobs/src/internal/attempts.ts and reason.ts
use cloudtalk_tech_task.Base.{
  ℕ, ◌-◌, ◌+◌, ◌≤◌, ◌<◌, String, Bool, true, false, ◌≡◌, ltb, leb, ◌||◌, not, arith, text_units,
  slice_units, text_units-slice_units, if◌then◌else◌,
}

unfoldable pub has_attempts_remaining : ℕ → ℕ → Bool
has_attempts_remaining consumed_attempts ceiling = ltb consumed_attempts ceiling

-- `attempts_after_claim - 1` is below every ceiling where it is -1.
unfoldable pub claim_reached_ceiling : ℕ → ℕ → Bool
unfolding has_attempts_remaining
claim_reached_ceiling attempts_after_claim ceiling =
    not (leb attempts_after_claim 0 || has_attempts_remaining (attempts_after_claim - 1) ceiling)

unfoldable pub attempts_exhausted : ℕ → ℕ → Bool
unfolding has_attempts_remaining
attempts_exhausted attempts ceiling = not (has_attempts_remaining attempts ceiling)

abbrev pub reason_max_length : ℕ
reason_max_length = 500

unfoldable pub truncate_reason : String → String
truncate_reason reason =
    if ltb reason_max_length (text_units reason)
    then slice_units reason_max_length reason
    else reason

-- A truncated reason has at most 500 UTF-16 units.
pub truncate_reason_bound : (reason : String) → text_units (truncate_reason reason) ≤ 500
unfolding truncate_reason
truncate_reason_bound reason = ground (arith, text_units-slice_units 500 reason)

-- The claim that would use one attempt more is turned down exactly when the reconciler, which
-- sees the attempts before it, gives the row up.
pub claim_reached_ceiling-attempts_exhausted :
    (attempts ceiling : ℕ)
    → claim_reached_ceiling (attempts + 1) ceiling ≡ attempts_exhausted attempts ceiling
unfolding claim_reached_ceiling attempts_exhausted
claim_reached_ceiling-attempts_exhausted attempts ceiling = ground arith

pub claim_reached_ceiling-false :
    (attempts ceiling : ℕ)
    → attempts < ceiling
    → claim_reached_ceiling (attempts + 1) ceiling ≡ false
unfolding claim_reached_ceiling
claim_reached_ceiling-false attempts ceiling h = ground arith

pub claim_reached_ceiling-true :
    (attempts ceiling : ℕ)
    → ceiling ≤ attempts
    → claim_reached_ceiling (attempts + 1) ceiling ≡ true
unfolding claim_reached_ceiling
claim_reached_ceiling-true attempts ceiling h = ground arith

pub attempts_exhausted-true :
    (attempts ceiling : ℕ) → ceiling ≤ attempts → attempts_exhausted attempts ceiling ≡ true
unfolding attempts_exhausted
attempts_exhausted-true attempts ceiling h = ground arith

pub attempts_exhausted-false :
    (attempts ceiling : ℕ) → attempts < ceiling → attempts_exhausted attempts ceiling ≡ false
unfolding attempts_exhausted
attempts_exhausted-false attempts ceiling h = ground arith
