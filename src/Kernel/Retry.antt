-- ===== src/Kernel/Retry.antt =====
-- packages/kernel/src/errors/retry-classifier.ts
use cloudtalk_tech_task.Base.{
  ℕ, String, Bool, false, Option, none, some, List, [], ◌∷◌, str_eq, ◌&&◌, ◌&◌, leb, ◌==◌,
  if◌then◌else◌, any, decimal,
}
use cloudtalk_tech_task.Kernel.Value.{Value, int, str, obj, get, truthy, text_of}
use cloudtalk_tech_task.Kernel.Errors.{is_app_error}

pub data RetryDecision : Type 0 where
  retry terminal : RetryDecision

pub record RetryClassification : Type 0 where
  pub decision : RetryDecision
  pub reason : String

abbrev pub retryable_network_codes : List String
retryable_network_codes =
    "ECONNREFUSED" ∷ "ECONNRESET" ∷ "ECONNABORTED" ∷ "ETIMEDOUT" ∷ "EPIPE" ∷ "EAI_AGAIN"
    ∷ "EHOSTUNREACH" ∷ "ENETUNREACH" ∷ "ENETDOWN" ∷ "UND_ERR_CONNECT_TIMEOUT" ∷ "UND_ERR_SOCKET"
    ∷ []

-- The status itself where `isValidHttpStatus` holds.
abbrev pub valid_http_status : Value → Option ℕ
valid_http_status (int n) = if leb 100 n && leb n 599 then some n else none
valid_http_status _ = none

abbrev pub first_of : Option ℕ → Option ℕ → Option ℕ
first_of (some n) later = some n
first_of none later = later

abbrev pub nested_status : Value → Option ℕ
nested_status (obj c ps) = valid_http_status (get "status" ps)
nested_status _ = none

unfoldable pub extract_http_status : Value → Option ℕ
extract_http_status (obj c ps) =
    first_of (valid_http_status (get "status" ps))
      (first_of (valid_http_status (get "statusCode" ps)) (nested_status (get "response" ps)))
extract_http_status _ = none

abbrev pub string_value : Value → Option String
string_value (str s) = some s
string_value _ = none

unfoldable pub extract_network_code : Value → Option String
extract_network_code (obj c ps) = string_value (get "code" ps)
extract_network_code _ = none

abbrev pub is_retryable_network_code : String → Bool
is_retryable_network_code code = any (λ known. str_eq known code) retryable_network_codes

abbrev pub retryable_of : Value → Bool
retryable_of (obj c ps) = truthy (get "retryable" ps)
retryable_of _ = false

abbrev pub code_of : Value → String
code_of (obj c ps) = text_of (get "code" ps)
code_of _ = ""

unfoldable pub classify_app_error : Value → RetryClassification
classify_app_error e =
    if retryable_of e
    then record { decision = retry; reason = "app-error-retryable:" & code_of e }
    else record { decision = terminal; reason = "app-error-terminal:" & code_of e }

-- Rules 6 and 7.
unfoldable pub classify_network : Option String → RetryClassification
classify_network none = record { decision = retry; reason = "unknown-default-retry" }
classify_network (some code) =
    if is_retryable_network_code code
    then record { decision = retry; reason = "network:" & code }
    else record { decision = retry; reason = "unknown-default-retry" }

-- Rules 3 to 5; a status outside 400–599 falls through to the network code.
unfoldable pub classify_status : Option ℕ → Option String → RetryClassification
classify_status none code = classify_network code
classify_status (some status) code =
    if status == 429
    then record { decision = retry; reason = "http-status:" & decimal status }
    else if leb 400 status && leb status 499
    then record { decision = terminal; reason = "http-status:" & decimal status }
    else if leb 500 status && leb status 599
    then record { decision = retry; reason = "http-status:" & decimal status }
    else classify_network code

unfoldable pub classify_retry : Value → RetryClassification
unfolding classify_app_error classify_status classify_network
classify_retry e =
    if is_app_error e
    then classify_app_error e
    else classify_status (extract_http_status e) (extract_network_code e)
