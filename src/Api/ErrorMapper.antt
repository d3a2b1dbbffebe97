-- ===== src/Api/ErrorMapper.antt =====
-- apps/api/src/http/error-mapper.ts: what a caller is told of an error. Spans, counters and logs are
-- left out. A JavaScript number that is no natural number is compared with 500 by `beyond`, which
-- is a parameter. The status of an error is taken as the status of its response, where `new Response`
-- throws on one outside 200 to 599, which no class of the taxonomy has.
pub mod Opaque
pub mod Uniform
use cloudtalk_tech_task.Base.{
  ℕ, String, Bool, true, false, Option, none, some, leb, ltb, str_eq, ◌&&◌, ◌||◌, not,
  if◌then◌else◌,
}
use cloudtalk_tech_task.Kernel.Value.{
  plain, Value, undefined, null, nan, other_number, bool, int, str, obj, Props, end, prop, get,
  is_string,
}
use cloudtalk_tech_task.Kernel.Errors.{is_app_error}

-- `details` is `undefined` where the field is left out.
pub record ApiErrorShape : Type 0 where
  pub code : Value
  pub message : Value
  pub details : Value

pub record ClassifiedError : Type 0 where
  pub wire : ApiErrorShape
  pub http_status : Value

abbrev pub server_fault_message : Value
server_fault_message = str "Internal server error"

-- `httpStatus >= 500`
abbrev pub is_server_fault : Bool → Value → Bool
is_server_fault beyond (int n) = leb 500 n
is_server_fault beyond other_number = beyond
is_server_fault beyond _ = false

-- the properties that a value is read for
abbrev pub properties : Value → Props
properties (obj c ps) = ps
properties _ = end

unfoldable pub classified_of : Bool → Props → ClassifiedError
classified_of beyond ps =
    let http_status = get "httpStatus" ps in
    if is_server_fault beyond http_status
    then record {
      wire = record { code = get "code" ps; message = server_fault_message; details = undefined };
      http_status = http_status;
    }
    else record {
      wire = record {
        code = get "code" ps;
        message = get "message" ps;
        details = get "details" ps;
      };
      http_status = http_status;
    }

abbrev pub internal_shape : ApiErrorShape
internal_shape = record {
  code = str "INTERNAL";
  message = server_fault_message;
  details = undefined;
}

unfoldable pub classify_error : Bool → Value → ClassifiedError
unfolding classified_of
classify_error beyond error =
    if is_app_error error
    then classified_of beyond (properties error)
    else record { wire = internal_shape; http_status = int 500 }

-- `JSON.stringify` leaves a property out that is `undefined`.
abbrev pub json_prop : String → Value → Props → Props
json_prop key undefined ps = ps
json_prop key value ps = prop key value ps

abbrev pub json_of : ApiErrorShape → Value
json_of wire = obj plain (
    json_prop "code" wire.code
      (json_prop "message" wire.message (json_prop "details" wire.details end)))

-- A response with the value that its body is read as, which is `none` where the body is no JSON.
pub record Response : Type 0 where
  pub status : Value
  pub body : Option Value

abbrev pub json_response : Value → Value → Response
json_response body status = record { status = status; body = some body }

unfoldable pub error_response_for : Bool → Value → Response
unfolding classify_error
error_response_for beyond error =
    let classified = classify_error beyond error in
    json_response (json_of classified.wire) classified.http_status

-- The arguments of the constructor `ORPCError`.
pub record OrpcError : Type 0 where
  pub code : Value
  pub status : Value
  pub message : Value
  pub error_data : ApiErrorShape

unfoldable pub to_orpc_error : Bool → Value → OrpcError
unfolding classify_error
to_orpc_error beyond error =
    let classified = classify_error beyond error in
    record {
      code = classified.wire.code;
      status = classified.http_status;
      message = classified.wire.message;
      error_data = classified.wire;
    }

-- `key in value`
abbrev pub has : String → Props → Bool
has key end = false
has key (prop name value rest) = str_eq name key || has key rest

unfoldable pub is_api_error_shape : Value → Bool
is_api_error_shape (obj c ps) = has "code" ps && is_string (get "code" ps) && has "message" ps
is_api_error_shape _ = false

-- The object that the fields of an error body are read from.
abbrev pub read_error_body : Option Value → Props
read_error_body none = end
read_error_body (some body) = properties body

-- `response.ok`
abbrev pub is_ok : Value → Bool
is_ok (int n) = leb 200 n && ltb n 300
is_ok _ = false

abbrev pub is_bad_request : Value → Bool
is_bad_request (str s) = str_eq s "BAD_REQUEST"
is_bad_request _ = false

-- the mapping of an error that oRPC made before a handler ran
abbrev pub fallback_shape : Value → ApiErrorShape
fallback_shape code =
    if is_bad_request code
    then record {
      code = str "VALIDATION";
      message = str "Input validation failed";
      details = undefined;
    }
    else internal_shape

unfoldable pub finalize_error_response : Response → Response
unfolding is_api_error_shape
finalize_error_response response =
    let body = read_error_body response.body in
    if is_ok response.status
    then response
    else if is_api_error_shape (get "data" body)
    then json_response (get "data" body) response.status
    else json_response (json_of (fallback_shape (get "code" body))) response.status
