-- ===== src/Http/Request.antt =====
-- A request as the router and the middlewares leave it to a handler, what the handlers read of
-- it by internal/shared/validator/validator.go, and a reply.
-- JSON, the rules of the struct tags, uuids and the verification of tokens are the libraries':
-- `Web` gives what they answer. A body is its bytes, read whole.
use masterfabric_backend.Prelude.{ℕ, Bool, String, Option, none, some, List}
use masterfabric_backend.Prelude.Text.{Text}
use masterfabric_backend.Errors.{Error, domain, domain_by, bad_request, unauthorized}
use masterfabric_backend.Exec.{Result, ok, err}
use masterfabric_backend.World.{Env, AccessClaims}
use masterfabric_backend.Config.Model.{AppConfig}
use masterfabric_backend.Permissions.Resolver.{Cache}
use masterfabric_backend.Iam.Register.{RegisterRequest}
use masterfabric_backend.Iam.Login.{LoginRequest}
use masterfabric_backend.Iam.Account.{ChangePasswordRequest}
use masterfabric_backend.Llm.Recording.{RecordEventRequest, RecordScoreRequest}

-- `r.Header.Get("Authorization")`, `r.RemoteAddr`, the body, `chi.URLParam(r, "id")`, and
-- `r.URL.Query().Get` of "page" and "limit"; what is not there is empty.
pub record Request : Type 0 where
  pub authorization : Text
  pub remote_addr : Text
  pub body : Text
  pub id : Text
  pub page : Text
  pub limit : Text

-- The values of the request's context under `UserIDKey` and `RolesKey`.
pub record Context : Type 0 where
  pub user_id : Option ℕ
  pub roles : Option (List String)

abbrev pub no_context : Context
no_context = record { user_id = none; roles = none }

-- `RefreshRequest` and `LogoutRequest`, `UpdateMeRequest`, `CreateSessionRequest`.
pub record TokenRequest : Type 0 where
  pub refresh_token : Text

pub record UpdateMeRequest : Type 0 where
  pub email : Text

pub record CreateSessionRequest : Type 0 where
  pub model_id : Text
  pub model_hash : Text

-- What the decoder and then the validator make of a body.
pub data Decoding (A : Type 0) : Type 0 where
  malformed : Error → Decoding A
  invalid : String → Error → Decoding A
  decoded : A → Decoding A

pub record Web (env : Env) : Type 0 where
  pub register_body : Text → Decoding RegisterRequest
  pub login_body : Text → Decoding LoginRequest
  pub token_body : Text → Decoding TokenRequest
  pub update_me_body : Text → Decoding UpdateMeRequest
  pub change_password_body : Text → Decoding ChangePasswordRequest
  pub session_body : Text → Decoding CreateSessionRequest
  pub event_body : Text → Decoding RecordEventRequest
  pub score_body : Text → Decoding (RecordScoreRequest env.Float)
  -- the decoder alone
  pub config_body : Text → Decoding AppConfig
  -- `json.Unmarshal` into the one field, which stays empty where it fails
  pub email_field : Text → Text
  pub refresh_token_field : Text → Text
  pub parse_uuid : Text → Option ℕ
  pub equal_fold : Text → Text → Bool
  -- `ParseAccess` at the n-th call
  pub parse_access : ℕ → Text → Option AccessClaims
  -- the resolver's cache, and whether there is a connection pool
  pub permissions : Cache
  pub has_postgres : Bool

-- `DecodeAndValidate`.
unfoldable pub decode_and_validate : {A : Type 0} → Decoding A → Result A
decode_and_validate (malformed e) = err (domain_by bad_request "invalid JSON body" e)
decode_and_validate (invalid message e) = err (domain_by bad_request message e)
decode_and_validate (decoded a) = ok a

-- `ErrNoUserID`.
abbrev pub no_user_id : Error
no_user_id = domain unauthorized "no user in context"

-- `userIDFromCtx`; the value under the key is a uuid wherever there is one.
unfoldable pub user_id_from_ctx : Context → Result ℕ
user_id_from_ctx c = elim c.user_id [ none ↦ err no_user_id | some id ↦ ok id ]

-- `sessionIDFromURL`.
unfoldable pub session_id_from_url : {env : Env} → Web env → Request → Result ℕ
session_id_from_url web r = elim (web.parse_uuid r.id) [
  | none ↦ err (domain bad_request "invalid session id")
  | some id ↦ ok id
]
