-- ===== src/Kernel/Errors.antt =====
-- packages/kernel/src/errors: the error taxonomy and `isAppError`.
use cloudtalk_tech_task.Base.{ℕ, String, Bool, true, false, Option, none, some, str_eq, ◌&&◌}
use cloudtalk_tech_task.Kernel.Value.{
  Class, plain, app_error, Value, undefined, bool, int, str, obj, Props, end, prop, get, is_string,
  is_number, is_boolean,
}

-- The closed set of codes.
pub data ErrorCode : Type 0 where
  validation unauthorized forbidden not_found conflict rate_limited provider internal
        magic_link_send_failed :
      ErrorCode

abbrev pub code_text : ErrorCode → String
code_text validation = "VALIDATION"
code_text unauthorized = "UNAUTHORIZED"
code_text forbidden = "FORBIDDEN"
code_text not_found = "NOT_FOUND"
code_text conflict = "CONFLICT"
code_text rate_limited = "RATE_LIMITED"
code_text provider = "PROVIDER"
code_text internal = "INTERNAL"
code_text magic_link_send_failed = "MAGIC_LINK_SEND_FAILED"

pub record AppErrorOptions : Type 0 where
  pub details : Option Value
  -- `undefined` where no cause is given
  pub cause : Value

abbrev pub no_options : AppErrorOptions
no_options = record { details = none; cause = undefined }

abbrev with_details : Option Value → Props → Props
with_details none ps = ps
with_details (some d) ps = prop "details" d ps

abbrev with_cause : Value → Props → Props
with_cause undefined ps = ps
with_cause v ps = prop "cause" v ps

-- The `AppError` constructor, with the fields that the subclass fixes.
unfoldable pub app_error_of : String → ErrorCode → ℕ → Bool → String → AppErrorOptions → Value
app_error_of name code http_status retryable message options = obj app_error (
    prop "brand" (str "AppError") (
      prop "name" (str name) (
        prop "message" (str message) (
          prop "code" (str (code_text code)) (
            prop "httpStatus" (int http_status) (
              prop "retryable" (bool retryable)
                (with_details options.details (with_cause options.cause end))))))))

abbrev pub validation_error : String → AppErrorOptions → Value
validation_error = app_error_of "ValidationError" validation 400 false

abbrev pub unauthorized_error : String → AppErrorOptions → Value
unauthorized_error = app_error_of "UnauthorizedError" unauthorized 401 false

abbrev pub forbidden_error : String → AppErrorOptions → Value
forbidden_error = app_error_of "ForbiddenError" forbidden 403 false

abbrev pub not_found_error : String → AppErrorOptions → Value
not_found_error = app_error_of "NotFoundError" not_found 404 false

abbrev pub conflict_error : String → AppErrorOptions → Value
conflict_error = app_error_of "ConflictError" conflict 409 false

abbrev pub rate_limited_error : String → AppErrorOptions → Value
rate_limited_error = app_error_of "RateLimitedError" rate_limited 429 true

-- `retryable` is `options?.retryable ?? false`
abbrev pub provider_error : Bool → String → AppErrorOptions → Value
provider_error retryable = app_error_of "ProviderError" provider 502 retryable

abbrev pub internal_error : Bool → String → AppErrorOptions → Value
internal_error retryable = app_error_of "InternalError" internal 500 retryable

abbrev pub provider_unavailable_error : String → AppErrorOptions → Value
provider_unavailable_error = app_error_of "ProviderUnavailableError" provider 503 true

abbrev is_error : Class → Bool
is_error plain = false
is_error _ = true

-- `=== APP_ERROR_BRAND`
abbrev is_brand : Value → Bool
is_brand (str s) = str_eq s "AppError"
is_brand _ = false

-- The brand and the fields, checked without the class `AppError`.
unfoldable pub has_app_error_shape : Value → Bool
has_app_error_shape (obj c ps) =
    is_error c
    && is_brand (get "brand" ps)
    && is_string (get "code" ps)
    && is_number (get "httpStatus" ps)
    && is_boolean (get "retryable" ps)
has_app_error_shape _ = false

unfoldable pub is_app_error : Value → Bool
unfolding has_app_error_shape
is_app_error (obj app_error ps) = true
is_app_error v = has_app_error_shape v
