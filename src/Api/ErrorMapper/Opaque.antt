-- ===== src/Api/ErrorMapper/Opaque.antt =====
-- What a caller cannot tell of a server fault.
use cloudtalk_tech_task.Base.{Bool, true, ◌≡◌, refl, arith, Bool-cases, inl, inr}
use cloudtalk_tech_task.Kernel.Value.{Value, undefined, get}
use cloudtalk_tech_task.Kernel.Errors.{is_app_error}
use cloudtalk_tech_task.Api.ErrorMapper.{
  ApiErrorShape, is_server_fault, properties, classified_of, classify_error, error_response_for,
  server_fault_message,
}

-- The shape of a server fault: nothing of the error but its code.
abbrev opaque_shape : Value → ApiErrorShape
opaque_shape code = record { code = code; message = server_fault_message; details = undefined }

classify_error-fault :
    (beyond : Bool) (e : Value)
    → is_server_fault beyond (classify_error beyond e).http_status ≡ true
    → (classify_error beyond e).wire ≡ opaque_shape (classify_error beyond e).wire.code
unfolding classify_error classified_of
classify_error-fault beyond e h = elim (Bool-cases (is_app_error e)) [
  | inl app ↦ elim (Bool-cases (is_server_fault beyond (get "httpStatus" (properties e)))) [
    | inl fault ↦ rw (app, fault) refl
    | inr fine ↦ ground (arith, h, app, fine)
  ]
  | inr other ↦ rw other refl
]

-- Two errors with the same status and the same code, of which the status is a server fault's,
-- get the same response, whatever their messages and their details are.
pub error_response_for-opaque :
    (beyond : Bool) (e f : Value)
    → is_server_fault beyond (classify_error beyond e).http_status ≡ true
    → (classify_error beyond f).http_status ≡ (classify_error beyond e).http_status
    → (classify_error beyond f).wire.code ≡ (classify_error beyond e).wire.code
    → error_response_for beyond f ≡ error_response_for beyond e
unfolding error_response_for
error_response_for-opaque beyond e f fault same_status same_code =
    rw
      (
        classify_error-fault beyond e fault,
        classify_error-fault beyond f (rw same_status fault),
        same_status,
        same_code,
      )
      refl
