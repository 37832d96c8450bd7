-- ===== src/Tests.antt =====
-- One small world on which the program is run, and the runs that several tests share.
mod Permissions
mod Identity
mod Inference
mod Service
mod Http
mod Routes
mod Monitoring
use masterfabric_backend.Prelude.{
  ℕ, suc, ◌+◌, ◌-◌, ◌*◌, ◌/◌, ◌≡◌, ◌≢◌, refl, sym, Bool, true, false, any, length, ltb, leb, ◌&&◌,
  String, Option, none, some, List, [], ◌∷◌, ◌++◌, ◌==◌, nat_eq, list_eq, if◌then◌else◌, arith,
  Memᴰ, ◌↔◌, list_beq,
}
use masterfabric_backend.Prelude.Integers.{ℤ, pos, negsuc}
use masterfabric_backend.Prelude.Text.{Text, codes}
use masterfabric_backend.Errors.{
  Error, domain_by, plain, internal, as_domain, is_no_rows, pg_code, is_unique_violation,
  is_not_found,
}
use masterfabric_backend.Exec.{Result, ok, err, pure, raise, lift, attempt, map_err, ◌>>=◌}
use masterfabric_backend.Http.RateLimit.Laws.{Counter, visible}
use masterfabric_backend.Table.{find, update, select, newest_first, insert_newest}
use masterfabric_backend.World.{
  Env, World, Fault, AccessClaims, call, query, publish, append_event, advance,
}
use masterfabric_backend.Permissions.{Role}
use masterfabric_backend.Iam.Model as Iam
use masterfabric_backend.Iam.Model.{
  User, RefreshToken, RoleRow, is_revoked, is_expired, remaining_lifetime,
}
use masterfabric_backend.Llm.Model as Llm
use masterfabric_backend.Iam.Email.{
  normalize_email, trim_space, trim_left, trim_right, to_lower, lower_rune, is_space,
}
use masterfabric_backend.Iam.Users.{
  insert_user, create_user, find_user_by_email, find_user_by_id, set_password, update_password,
}
use masterfabric_backend.Iam.RoleStore.{
  scan_role, scan_role?, scan_roles, is_assigned, find_role_by_name, find_roles_by_user_id,
  insert_user_role, assign_to_user,
}
use masterfabric_backend.Iam.Tokens.{
  is_live, insert_token, create_token, find_token_by_hash, revoke_where, revoke_token,
  revoke_all_for_user,
}
use masterfabric_backend.Iam.Blacklist.{blacklist_revoke, blacklist_is_revoked}
use masterfabric_backend.Iam.Access.{
  hash_token, hex, hex_digit, generate_opaque_token, generate_access,
}
use masterfabric_backend.Iam.Register.{
  RegisterRequest, register, check_existing, assign_found, assign_default_role, hash_password,
}
use masterfabric_backend.Iam.Login.{
  LoginRequest, LoginResponse, found_user, role_names, issue_refresh, login,
}
use masterfabric_backend.Iam.Refresh.{
  RefreshResponse, found_token, check_blacklist, lookup_token, check_live, live_token, complete,
  reissue, rotate, refresh,
}
use masterfabric_backend.Iam.Account.{ChangePasswordRequest, check_passwords, change_password}
use masterfabric_backend.Permissions.{match_permission, is_prefix_wildcard}
use masterfabric_backend.Permissions.RoleModel.{permissions_match}
use masterfabric_backend.Permissions.Wildcard.{
  MatchesStem, Covers, is_prefix_wildcard_iff, match_permission_iff, match_permission-unstarred,
}
use masterfabric_backend.Permissions.Roles.{permissions_of, permissions_match-match_permission}
use masterfabric_backend.Permissions.Resolver.{
  Cache, pass, permissions_for_roles, permissions_named, is_seen, require_permission,
}
use masterfabric_backend.Permissions.Resolver.Laws.{
  Distinct, IsGranted, permissions_for_roles_lem, require_permission_iff,
}
use masterfabric_backend.Iam.Login.Laws.{
  IsLogin, IsRefused, unknown, login-IsLogin, login_refusals_alike,
}
use masterfabric_backend.Iam.Login.{invalid_credentials}
use masterfabric_backend.Iam.Refresh.Laws.{IsRotation, refresh-IsRotation}
use masterfabric_backend.Iam.Register.{RegisterResponse}
use masterfabric_backend.Iam.Logout.{logout}
use masterfabric_backend.Iam.Register.Laws.{
  IsRegistered, register-IsRegistered, register_long_password,
}
use masterfabric_backend.Iam.Account.Laws.{IsPasswordChange, change_password-IsPasswordChange}
use masterfabric_backend.Errors.{Code, not_found, domain, wrap}
use masterfabric_backend.Response.{Response, map_status, code_text, error_response}
use masterfabric_backend.Response.Laws.{Outermost, error_response_discloses}
use masterfabric_backend.Llm.Model.{Session, InferenceEvent}
use masterfabric_backend.Llm.Store.{
  find_session_by_id, list_events_by_session, page_of, find_event_by_id, insert_score, create_score,
}
use masterfabric_backend.Llm.Sessions.{
  ListEventsResponse, event_dto, event_dtos, owned_session, list_events,
}
use masterfabric_backend.Llm.Sessions.Laws.{IsListing, list_events-IsListing}
use masterfabric_backend.Llm.Recording.{
  RecordScoreRequest, count, event_in_session, enforced_composite, score_row, announce_score,
  record_score,
}
use masterfabric_backend.Llm.Recording.Laws.{IsScored, record_score-IsScored}
use masterfabric_backend.Service.SignedOut.{logout_ends_session, change_password_ends_sessions}
use masterfabric_backend.Service.{Operation, run}
use masterfabric_backend.Service.SingleUse.{refresh_once}
use masterfabric_backend.Service.WellFormed.{WellFormed, run-WellFormed}

pub program : Unit {0}
unfolding find select update newest_first insert_newest list_beq scan_role scan_role? scan_roles
    is_assigned pure raise lift attempt map_err ◌>>=◌ call query publish append_event as_domain
    is_no_rows pg_code is_unique_violation is_not_found is_revoked is_expired remaining_lifetime
    normalize_email trim_space trim_left trim_right to_lower lower_rune is_space insert_user
    create_user find_user_by_email find_user_by_id set_password update_password find_role_by_name
    find_roles_by_user_id insert_user_role assign_to_user is_live insert_token create_token
    find_token_by_hash revoke_where revoke_token revoke_all_for_user blacklist_revoke
    blacklist_is_revoked hash_token hex hex_digit generate_opaque_token generate_access register
    check_existing assign_found assign_default_role hash_password found_user role_names
    issue_refresh login found_token check_blacklist lookup_token check_live live_token complete
    reissue rotate refresh check_passwords change_password find_session_by_id list_events_by_session
    page_of find_event_by_id insert_score create_score event_dto event_dtos owned_session
    list_events count event_in_session enforced_composite score_row announce_score record_score
program = tt

-- The milliseconds that a key still has.
abbrev pub left_of : Option ℕ → ℕ → ℤ
left_of none now = negsuc 0
left_of (some end) now = pos ((end - now) / 1000000)

-- Servers that answer every call, a bcrypt with the limit of the real one, and the calls'
-- numbers for clock, uuids and random bytes.
abbrev pub lab : Env
lab = record {
  now = λ n. n;
  fresh = λ n. 100 + n;
  random = λ n. some (n ∷ []);
  sha256 = λ text. text;
  bcrypt_hash = λ n password. if ltb 72 (length password) then none else some password;
  bcrypt_matches = λ hash password. hash == password;
  sign = λ claims. some (codes "jwt");
  lower_wide = λ c. c;
  fault = λ n. Fault.healthy;
  has_redis = true;
  Redis = Text → Option Counter;
  redis_set =
      λ keys prefix hash ttl now k. if hash == k then some (1, some (now + ttl)) else keys k;
  redis_exists = λ keys prefix hash now. ltb 0 (visible (keys hash) now).0;
  redis_incr = λ keys key now. (
    suc (visible (keys key) now).0,
    λ k.
        if key == k
        then some (suc (visible (keys key) now).0, (visible (keys key) now).1)
        else keys k,
  );
  redis_pexpire = λ keys key ms now k.
      if key == k then some ((visible (keys key) now).0, some (now + ms * 1000000)) else keys k;
  redis_pttl = λ keys key now. left_of (visible (keys key) now).1 now;
  lua_seconds = λ left sent. sent / 1000;
  rate_message = λ limit window. "rate limit exceeded";
  encode_config = λ cfg. cfg.web_llm.model_id;
  decode_config = λ text. some (record {
    web_llm = record { model_id = text; model_url = []; estimated_bytes = pos 0 };
    features = record { scoring = true; monitoring = true };
    limits = record { max_prompt_chars = pos 1; rate_per_min = pos 1 };
  });
  Float = ℕ;
  zero_float = 0;
  access_ttl = 900000000000;
  refresh_ttl = 1000;
}

abbrev pub ann : User
ann = record { id = 1; email = codes "ann@x.io"; password_hash = codes "secret"; created_at = 0 }

-- The row of the opaque token "ab".
abbrev pub ab_row : RefreshToken
ab_row = record {
  id = 7;
  user_id = 1;
  token_hash = codes "6162";
  expires_at = 500;
  created_at = 0;
  last_seen_at = 0;
  revoked_at = none;
}

abbrev pub start : World lab
start = record {
  step = 0;
  iam = record {
    users = ann ∷ [];
    roles = record { id = 3; name = "user"; permissions = some (codes "org:read" ∷ []) } ∷ [];
    user_roles = (1, 3) ∷ [];
    tokens = ab_row ∷ [];
  };
  llm = record {
    sessions =
        record {
          id = 20;
          user_id = 1;
          model_id = codes "m";
          model_hash = [];
          created_at = 0;
          ended_at = none;
        }
        ∷ [];
    events =
        record {
          id = 30;
          session_id = 20;
          user_id = 1;
          prompt = codes "p";
          completion = codes "c";
          tokens_in = 1;
          tokens_out = 2;
          latency_ms = 3;
          error = [];
          created_at = 0;
        }
        ∷ [];
    scores = [];
  };
  redis = λ key. none;
  app_config = none;
  published = [];
  metrics = [];
}

abbrev pub refreshed : RefreshResponse
refreshed = record { access_token = codes "jwt"; refresh_token = codes "06"; expires_in = 900 }

pub refresh_run :
    refresh lab (codes "ab") start ≡ (ok refreshed, (refresh lab (codes "ab") start).1)
unfolding program
refresh_run = refl

abbrev pub ann_login : LoginRequest
ann_login = record { email = codes " Ann@X.io"; password = codes "secret" }

abbrev pub bob : RegisterRequest
bob = record { email = codes "Bob@x.io"; password = codes "pw" }

abbrev pub ann_change : ChangePasswordRequest
ann_change = record { current_password = codes "secret"; new_password = codes "better" }

pub change_run :
    change_password lab 1 ann_change start ≡ (ok tt, (change_password lab 1 ann_change start).1)
unfolding program
change_run = refl

abbrev pub requests : List (Operation lab)
requests =
    Operation.logging_in ann_login
    ∷ Operation.registering bob
    ∷ Operation.changing_password 1 ann_change
    ∷ Operation.refreshing (codes "04")
    ∷ Operation.creating_session 1 [] []
    ∷ []
