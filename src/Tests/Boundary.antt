-- ===== src/Tests/Boundary.antt =====
-- What the HTTP boundary answers.
use cloudtalk_tech_task.Base.{true, false, none, some, ◌≡◌, refl, arith}
use cloudtalk_tech_task.Kernel.Value.{plain, undefined, int, str, obj, end, prop}
use cloudtalk_tech_task.Kernel.Errors.{
  AppErrorOptions, no_options, app_error_of, is_app_error, conflict, conflict_error, internal_error,
}
use cloudtalk_tech_task.Api.ErrorMapper.{
  OrpcError, Response, to_orpc_error, error_response_for, finalize_error_response, json_of,
  classify_error,
}
use cloudtalk_tech_task.Api.ErrorMapper.Opaque.{error_response_for-opaque}
use cloudtalk_tech_task.Api.ErrorMapper.Uniform.{finalize_error_response-to_orpc_error}

-- oRPC, as far as the boundary relies on it
abbrev orpc_response : OrpcError → Response
orpc_response x = record {
  status = x.status;
  body = some (obj plain (prop "defined" undefined (prop "data" (json_of x.error_data) end)));
}

abbrev with_identity : AppErrorOptions
with_identity = record { details = some (str "identity 7"); cause = undefined }

-- a server fault keeps its details to itself, and a conflict does not
fault_answer :
    error_response_for false (internal_error false "no user row" with_identity) ≡ record {
      status = int 500;
      body = some (
          obj plain
            (prop "code" (str "INTERNAL") (prop "message" (str "Internal server error") end)));
    }
unfolding error_response_for app_error_of is_app_error
fault_answer = refl

conflict_answer : error_response_for false (conflict_error "taken" with_identity) ≡ record {
  status = int 409;
  body = some (
      obj plain (
        prop "code"
          (str "CONFLICT")
          (prop "message" (str "taken") (prop "details" (str "identity 7") end))));
}
unfolding error_response_for app_error_of is_app_error
conflict_answer = refl

-- a body that is no JSON
unreadable_answer : finalize_error_response (record { status = int 502; body = none }) ≡ record {
  status = int 502;
  body =
      some (
        obj plain
          (prop "code" (str "INTERNAL") (prop "message" (str "Internal server error") end)));
}
unfolding finalize_error_response
unreadable_answer = refl

error_response_for-opaque_example :
    error_response_for false (internal_error true "connection lost" no_options)
    ≡ error_response_for false (internal_error false "no user row" with_identity)
unfolding classify_error app_error_of is_app_error
error_response_for-opaque_example =
    error_response_for-opaque false (internal_error false "no user row" with_identity)
      (internal_error true "connection lost" no_options) refl refl refl

finalize_error_response-to_orpc_error_example :
    finalize_error_response
      (orpc_response (to_orpc_error false (conflict_error "taken" with_identity)))
    ≡ error_response_for false (conflict_error "taken" with_identity)
finalize_error_response-to_orpc_error_example =
    finalize_error_response-to_orpc_error orpc_response (λ x. refl) (λ x. refl) false
      "ConflictError" conflict 409 false "taken" with_identity (omega arith)
