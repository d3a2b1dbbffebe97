-- ===== src/Kernel/Laws/Classify.antt =====
-- When a thrown value is terminal, and the classification of each error of the taxonomy.
use cloudtalk_tech_task.Base.{
  ℕ, String, Bool, true, false, Option, none, some, ◌≡◌, refl, ◌≢◌, ◌↔◌, ◌⊎◌, inl, inr, ◌≤◌, ◌&◌,
  arith, Bool-cases, eq_iff, decimal, if◌then◌else◌,
}
use Prim.Native.Char.{Char}
use text.Mathlib.TextLemmas.{cons-append}
use cloudtalk_tech_task.Kernel.Value.{Value}
use cloudtalk_tech_task.Kernel.Errors.{
  ErrorCode, code_text, AppErrorOptions, app_error_of, is_app_error,
}
use cloudtalk_tech_task.Kernel.Retry.{
  retry, terminal, extract_http_status, extract_network_code, retryable_of, code_of,
  is_retryable_network_code, classify_app_error, classify_network, classify_status, classify_retry,
}

classify_network-retry : (code : Option String) → (classify_network code).decision ≡ retry
unfolding classify_network
classify_network-retry code = ground arith

-- The statuses that stop a job: the client errors but 429.
abbrev pub IsTerminalStatus : Option ℕ → Type 0
IsTerminalStatus status = (n : ℕ) × (status ≡ some n) × (400 ≤ n) × (n ≤ 499) × (n ≢ 429)

classify_status-terminal :
    (status : Option ℕ) (code : Option String)
    → (classify_status status code).decision ≡ terminal
    → IsTerminalStatus status
unfolding classify_status
classify_status-terminal none code h = absurd (ground (arith, classify_network-retry code))
classify_status-terminal (some n) code h = (
  n,
  refl,
  ground (arith, classify_network-retry code),
  ground (arith, classify_network-retry code),
  ground (arith, classify_network-retry code),
)

classify_status_of_terminal :
    (status : Option ℕ) (code : Option String)
    → IsTerminalStatus status
    → (classify_status status code).decision ≡ terminal
unfolding classify_status
classify_status_of_terminal none code (n, e, a, b, c) = ground arith
classify_status_of_terminal (some m) code (n, e, a, b, c) = ground arith

-- What makes a thrown value terminal, stated without the order of the rules.
abbrev pub IsTerminal : Value → Type 0
IsTerminal e =
    ((is_app_error e ≡ true) × (retryable_of e ≡ false))
    ⊎ ((is_app_error e ≡ false) × IsTerminalStatus (extract_http_status e))

-- A thrown value is classified terminal exactly when it is an AppError that is not retryable, or
-- is no AppError and carries an HTTP status from 400 to 499 other than 429.
pub classify_retry-terminal_iff :
    (e : Value) → ((classify_retry e).decision ≡ terminal) ↔ IsTerminal e
unfolding classify_retry
classify_retry-terminal_iff e = elim (Bool-cases (is_app_error e)) [
  | inl app ↦ rw app (λ h. inl (refl, ground arith), λ t. ground arith)
  | inr foreign ↦ rw foreign (
    λ h. inr (refl, classify_status-terminal _ _ h),
    λ t. elim t [ inl (a, b) ↦ cc | inr (a, b) ↦ classify_status_of_terminal _ _ b ],
  )
]

-- An AppError built by any constructor of the taxonomy is recognised, and is classified by its
-- own retryable field with its own code as the reason, whatever its message, details and cause.
pub classify_retry-app_error_of :
    (name : String) (code : ErrorCode) (http_status : ℕ) (retryable : Bool) (message : String)
    (options : AppErrorOptions)
    → classify_retry (app_error_of name code http_status retryable message options) ≡ (
        if retryable
        then record { decision = retry; reason = "app-error-retryable:" & code_text code }
        else record { decision = terminal; reason = "app-error-terminal:" & code_text code })
unfolding classify_retry app_error_of is_app_error
classify_retry-app_error_of name code http_status true message options = refl
classify_retry-app_error_of name code http_status false message options = refl

&-ne : (c : Char) (s t : String) → (String.◌∷◌ c s) & t ≢ ""
&-ne c s t h = cc (cons-append c s t, h)

classify_app_error-reason_ne : (e : Value) → (classify_app_error e).reason ≢ ""
unfolding classify_app_error
classify_app_error-reason_ne e = elim (Bool-cases (retryable_of e)) [
  | inl yes_retry ↦ rw yes_retry (&-ne _ _ (code_of e))
  | inr no_retry ↦ rw no_retry (&-ne _ _ (code_of e))
]

classify_network-reason_ne : (code : Option String) → (classify_network code).reason ≢ ""
unfolding classify_network
classify_network-reason_ne none = ground (arith, eq_iff "unknown-default-retry" "")
classify_network-reason_ne (some code) = elim (Bool-cases (is_retryable_network_code code)) [
  | inl known ↦ rw known (&-ne _ _ code)
  | inr unknown ↦ rw unknown (ground (arith, eq_iff "unknown-default-retry" ""))
]

http_reason-ne : (text : String) → "http-status:" & text ≢ ""
http_reason-ne text = &-ne _ _ text

classify_status-reason_ne :
    (status : Option ℕ) (code : Option String) → (classify_status status code).reason ≢ ""
unfolding classify_status
classify_status-reason_ne none code = classify_network-reason_ne code
classify_status-reason_ne (some n) code =
    ground (arith, http_reason-ne (decimal n), classify_network-reason_ne code)

-- The reason of a classification is never the empty text.
pub classify_retry-reason_ne : (e : Value) → (classify_retry e).reason ≢ ""
unfolding classify_retry
classify_retry-reason_ne e = elim (Bool-cases (is_app_error e)) [
  | inl app ↦ rw app (classify_app_error-reason_ne e)
  | inr foreign ↦
      rw foreign (classify_status-reason_ne (extract_http_status e) (extract_network_code e))
]
