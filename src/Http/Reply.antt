-- ===== src/Http/Reply.antt =====
-- What `JSON`, `Created`, `NoContent` and `Error` of internal/shared/response/response.go send:
-- the status, and the value whose JSON is the body.
use masterfabric_backend.Prelude.{ℕ, String, List}
use masterfabric_backend.Errors.{Error}
use masterfabric_backend.Exec.{Result, ok, err}
use masterfabric_backend.Response.{Response, error_response}
use masterfabric_backend.Config.Model.{AppConfig}
use masterfabric_backend.Iam.Register.{RegisterResponse}
use masterfabric_backend.Iam.Login.{LoginResponse}
use masterfabric_backend.Iam.Refresh.{RefreshResponse}
use masterfabric_backend.Iam.Account as Account
use masterfabric_backend.Iam.Account.{MeResponse}
use masterfabric_backend.Llm.Sessions as Llm
use masterfabric_backend.Llm.Sessions.{EventDto, ListEventsResponse}
use masterfabric_backend.Llm.Models.{ModelDto}

pub data Body : Type 0 where
  empty : Body
  failure : Response → Body
  registered : RegisterResponse → Body
  logged_in : LoginResponse → Body
  refreshed : RefreshResponse → Body
  login_sessions : List Account.SessionDto → Body
  profile : MeResponse → Body
  models : List ModelDto → Body
  llm_session : Llm.SessionDto → Body
  event : EventDto → Body
  events : ListEventsResponse → Body
  config : AppConfig → Body
  status_text : String → Body
  readiness : String → String → String → Body

pub record Reply : Type 0 where
  pub status : ℕ
  pub body : Body

abbrev pub json : ℕ → Body → Reply
json status body = record { status = status; body = body }

abbrev pub created : Body → Reply
created body = json 201 body

abbrev pub no_content : Reply
no_content = json 204 Body.empty

-- `Error(w, err)`.
unfoldable pub error_reply : Error → Reply
error_reply e = json (error_response e).status (Body.failure (error_response e))

-- How every handler ends: the error of any of its steps goes to `Error`.
unfoldable pub settled : Result Reply → Reply
settled (ok reply) = reply
settled (err e) = error_reply e
