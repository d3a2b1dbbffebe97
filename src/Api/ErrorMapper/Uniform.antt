-- ===== src/Api/ErrorMapper/Uniform.antt =====
-- Every error leaves in the shape of the contract, whichever way it took.
use cloudtalk_tech_task.Base.{
  ℕ, ◌≤◌, String, Bool, true, false, none, some, ◌≡◌, refl, arith, Bool-cases, inl, inr, leb,
}
use cloudtalk_tech_task.Kernel.Value.{Value, undefined, get, int}
use cloudtalk_tech_task.Kernel.Errors.{ErrorCode, AppErrorOptions, app_error_of, is_app_error}
use cloudtalk_tech_task.Api.ErrorMapper.{
  ApiErrorShape, classified_of, classify_error, Response, error_response_for, json_of, OrpcError,
  to_orpc_error, is_api_error_shape, read_error_body, is_ok, is_bad_request, fallback_shape,
  finalize_error_response,
}

-- The value that the body of a response is read as.
abbrev pub body_of : Response → Value
body_of r = elim r.body [ none ↦ undefined | some v ↦ v ]

fallback_shape-shape : (code : Value) → is_api_error_shape (json_of (fallback_shape code)) ≡ true
unfolding is_api_error_shape
fallback_shape-shape code = elim (Bool-cases (is_bad_request code)) [
  | inl bad ↦ rw bad refl
  | inr other ↦ rw other refl
]

-- A response that is not ok leaves in the shape of the contract and with its own status.
pub finalize_error_response-shape :
    (response : Response)
    → is_ok response.status ≡ false
    → (is_api_error_shape (body_of (finalize_error_response response)) ≡ true)
      × ((finalize_error_response response).status ≡ response.status)
unfolding finalize_error_response
finalize_error_response-shape response failed =
    let error_data = get "data" (read_error_body response.body) in
    elim (Bool-cases (is_api_error_shape error_data)) [
      | inl shaped ↦ rw (failed, shaped) (shaped, refl)
      | inr other ↦
          rw (failed, other)
            (fallback_shape-shape (get "code" (read_error_body response.body)), refl)
    ]

classified_shape :
    (beyond : Bool) (name : String) (code : ErrorCode) (status : ℕ) (retryable : Bool)
    (message : String) (options : AppErrorOptions)
    → let wire : ApiErrorShape =
        (classify_error beyond (app_error_of name code status retryable message options)).wire in
      is_api_error_shape (json_of wire) ≡ true
unfolding is_api_error_shape classify_error classified_of app_error_of is_app_error
classified_shape beyond name code status retryable message options =
    elim (Bool-cases (leb 500 status)) [ inl fault ↦ rw fault refl | inr fine ↦ rw fine refl ]

classified_status :
    (beyond : Bool) (name : String) (code : ErrorCode) (status : ℕ) (retryable : Bool)
    (message : String) (options : AppErrorOptions)
    → (classify_error beyond (app_error_of name code status retryable message options)).http_status
      ≡ int status
unfolding classify_error classified_of app_error_of is_app_error
classified_status beyond name code status retryable message options =
    elim (Bool-cases (leb 500 status)) [ inl fault ↦ rw fault refl | inr fine ↦ rw fine refl ]

-- What oRPC answers to an `ORPCError`: its status, and its data in the body.
module _ (encode : OrpcError → Response) (keeps : (x : OrpcError) → (encode x).status ≡ x.status)
    (carries : (x : OrpcError)
      → get "data" (read_error_body (encode x).body) ≡ json_of x.error_data) where
  -- If oRPC keeps the status of an ORPCError and puts its data into the body, an error of the
  -- taxonomy with a status from 300 on, thrown by a handler and finalized, becomes the
  -- response that errorResponseFor gives it outside the handlers.
  pub finalize_error_response-to_orpc_error :
      (beyond : Bool) (name : String) (code : ErrorCode) (status : ℕ) (retryable : Bool)
      (message : String) (options : AppErrorOptions)
      → 300 ≤ status
      → finalize_error_response
          (encode (to_orpc_error beyond (app_error_of name code status retryable message options)))
        ≡ error_response_for beyond (app_error_of name code status retryable message options)
  unfolding finalize_error_response error_response_for to_orpc_error
  finalize_error_response-to_orpc_error beyond name code status retryable message options failed =
      let x = to_orpc_error beyond (app_error_of name code status retryable message options) in
      let not_ok : is_ok (int status) ≡ false = ground (arith, failed) in
      rw
        (
          keeps x,
          carries x,
          classified_status beyond name code status retryable message options,
          not_ok,
          classified_shape beyond name code status retryable message options,
        )
        refl
