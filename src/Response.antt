-- ===== src/Response.antt =====
-- What a client sees of an error: internal/shared/response/response.go.
pub mod Laws
use masterfabric_backend.Prelude.{ℕ, String, Option, none, some}
use masterfabric_backend.Errors.{
  Code, not_found, bad_request, unauthorized, forbidden, conflict, too_many, internal, Error,
  DomainError, as_domain,
}

-- `errorBody` with the status in front of it.
pub record Response : Type 0 where
  pub status : ℕ
  pub code : String
  pub message : String

unfoldable pub map_status : Code → ℕ
map_status not_found = 404
map_status bad_request = 400
map_status unauthorized = 401
map_status forbidden = 403
map_status conflict = 409
map_status too_many = 429
map_status internal = 500

-- The `Code` constants of errors.go.
unfoldable pub code_text : Code → String
code_text not_found = "NOT_FOUND"
code_text bad_request = "INVALID_INPUT"
code_text unauthorized = "UNAUTHORIZED"
code_text forbidden = "FORBIDDEN"
code_text conflict = "CONFLICT"
code_text too_many = "RATE_LIMITED"
code_text internal = "INTERNAL"

unfoldable respond : Option DomainError → Response
respond none = record {
  status = 500;
  code = code_text internal;
  message = "an internal error occurred";
}
respond (some de) = record {
  status = map_status de.code;
  code = code_text de.code;
  message = de.message;
}

-- `Error(w, err)`, without its log lines.
unfoldable pub error_response : Error → Response
unfolding respond
error_response err = respond (as_domain err)
