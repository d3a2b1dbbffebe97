-- ===== src/Messaging/LogSuppressor.antt =====
-- packages/messaging/src/internal/log-suppressor.ts: `createIntervalSuppressor`, one warning in an
-- interval. Times are in milliseconds.
use cloudtalk_tech_task.Base.{
  ℕ, ◌+◌, Option, none, some, List, [], ◌∷◌, ◌≡◌, arith, leb, length, if◌then◌else◌,
}

pub record Suppressor : Type 0 where
  pub last_logged_at : Option ℕ
  pub suppressed_count : ℕ

-- A warning, with the time of its call and the number of the calls that were swallowed before it.
pub record Warning : Type 0 where
  pub logged_at : ℕ
  pub swallowed : ℕ

abbrev pub default_suppression_interval_ms : ℕ
default_suppression_interval_ms = 60000

abbrev pub new_suppressor : Suppressor
new_suppressor = record { last_logged_at = none; suppressed_count = 0 }

abbrev log_now : ℕ → ℕ → Option Warning × Suppressor
log_now now count = (
  some (record { logged_at = now; swallowed = count }),
  record { last_logged_at = some now; suppressed_count = 0 },
)

-- one call: `now - lastLoggedAt >= intervalMs`
unfoldable pub warn_at : ℕ → ℕ → Option ℕ → ℕ → Option Warning × Suppressor
warn_at interval_ms now none count = log_now now count
warn_at interval_ms now (some last) count =
    if leb (last + interval_ms) now
    then log_now now count
    else (none, record { last_logged_at = some last; suppressed_count = count + 1 })

abbrev keep : Option Warning → List Warning → List Warning
keep none ws = ws
keep (some w) ws = w ∷ ws

-- the warnings of a sequence of calls
unfoldable pub warnings : ℕ → List ℕ → Suppressor → List Warning × Suppressor
unfolding warn_at
warnings interval_ms [] s = ([], s)
warnings interval_ms (now ∷ times) s =
    let (logged, next) = warn_at interval_ms now s.last_logged_at s.suppressed_count in
    let (more, end) = warnings interval_ms times next in (keep logged more, end)

abbrev accounted : List Warning → ℕ
accounted [] = 0
accounted (w ∷ ws) = 1 + w.swallowed + accounted ws

-- No call is lost: each was logged, is counted in a warning, or is counted for the next one.
warnings-accounted :
    (interval_ms : ℕ) (times : List ℕ) (last : Option ℕ) (count : ℕ)
    → let (logged, end) =
        warnings interval_ms times (record { last_logged_at = last; suppressed_count = count }) in
      accounted logged + end.suppressed_count ≡ count + length times
unfolding warnings warn_at
warnings-accounted interval_ms [] last count = omega arith
warnings-accounted interval_ms (now ∷ times) none count =
    ground (arith, warnings-accounted interval_ms times (some now) 0)
warnings-accounted interval_ms (now ∷ times) (some last) count = ground (
  arith,
  warnings-accounted interval_ms times (some now) 0,
  warnings-accounted interval_ms times (some last) (count + 1),
)
