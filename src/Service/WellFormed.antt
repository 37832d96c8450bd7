-- ===== src/Service/WellFormed.antt =====
-- The constraints of the tables (internal/infrastructure/postgres/migrations) as an invariant,
-- kept by every writing statement and so by every run of the service.
mod Rows
mod Users
mod Tokens
mod Inference
use masterfabric_backend.Prelude.{
  ℕ, ◌≡◌, refl, ◌∙◌, ◌≤◌, inl, inr, Bool, true, ◌&&◌, ◌||◌, List, [], ◌∷◌, arith, Bool-cases,
  Option-cases, any, any-append_left, All, All-append, All-imp, nat_eq, list_eq, ltb,
}
use masterfabric_backend.Prelude.Text.{Text}
use masterfabric_backend.Table.{find}
use masterfabric_backend.Table.Laws.{All-update, any-update}
use masterfabric_backend.Table.Unique.{UniqueBy, UniqueBy-snoc, UniqueBy-update, UniqueBy-set}
use masterfabric_backend.World.{Env, World}
use masterfabric_backend.Iam.Model as IamModel
use masterfabric_backend.Iam.Model.{User, RefreshToken}
use masterfabric_backend.Llm.Model as LlmModel
use masterfabric_backend.Llm.Model.{Session, InferenceEvent, DecisionScore}
use masterfabric_backend.Iam.Users.{
  with_id, with_email, taken, insert_user, set_email, set_password,
}
use masterfabric_backend.Iam.RoleStore.{role_has_id, is_assigned, insert_user_role}
use masterfabric_backend.Iam.Tokens.{with_token_id, is_live, revoke_at, insert_token, revoke_where}
use masterfabric_backend.Llm.Store.{
  session_with_id, event_with_id, score_of_event, score_with_id, max_int32, insert_session,
  insert_event, insert_score,
}
use masterfabric_backend.Service.{Operation, run}
use masterfabric_backend.Service.Writes.{KeptByWrites}
use masterfabric_backend.Service.Keeps.{run-Keeps}
pub use masterfabric_backend.Service.WellFormed.Rows.{IsSound, WellFormed}
use masterfabric_backend.Service.WellFormed.Users.{
  WellFormed-insert_user, WellFormed-set_password, WellFormed-set_email,
  WellFormed-insert_user_role,
}
use masterfabric_backend.Service.WellFormed.Tokens.{
  WellFormed-insert_token, WellFormed-revoke_where,
}
use masterfabric_backend.Service.WellFormed.Inference.{
  WellFormed-insert_session, WellFormed-insert_event, WellFormed-insert_score,
}

WellFormed-KeptByWrites : (env : Env) → KeptByWrites env (WellFormed env)
WellFormed-KeptByWrites env = record {
  insert_user_law = WellFormed-insert_user;
  set_email_law = WellFormed-set_email;
  set_password_law = WellFormed-set_password;
  insert_user_role_law = WellFormed-insert_user_role;
  insert_token_law = WellFormed-insert_token;
  revoke_where_law = WellFormed-revoke_where;
  insert_session_law = WellFormed-insert_session;
  insert_event_law = WellFormed-insert_event;
  insert_score_law = WellFormed-insert_score;
}

-- From well-formed tables every run of the service, with whatever faults, leads to well-formed
-- tables: no two users, roles, tokens, sessions, events or scores share an id, no two users an
-- email, no two roles a name, no two scores an event, and no role is assigned twice to one user;
-- references lead to rows, and the counters of events fit in 32 bits.
pub run-WellFormed :
    (env : Env) (ops : List (Operation env)) (w : World env)
    → WellFormed env w.iam w.llm
    → WellFormed env (run env ops w).iam (run env ops w).llm
run-WellFormed env = run-Keeps (WellFormed-KeptByWrites env)
