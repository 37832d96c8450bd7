-- ===== src/Service/WellFormed/Users.antt =====
-- The statements on users and their roles keep the tables well-formed.
use masterfabric_backend.Prelude.{
  ℕ, refl, ◌∙◌, inl, inr, ◌&&◌, ◌||◌, List, [], ◌∷◌, arith, Bool-cases, Option-cases, any,
  any-append_left, All-append, All-imp, nat_eq, list_eq, pair_eq, ◌==◌, ◌≡◌,
}
use masterfabric_backend.Prelude.Text.{Text}
use masterfabric_backend.Table.{find}
use masterfabric_backend.Table.Laws.{any-update}
use masterfabric_backend.Table.Unique.{UniqueBy, UniqueBy-snoc, UniqueBy-update, UniqueBy-set}
use masterfabric_backend.World.{Env, World}
use masterfabric_backend.Iam.Model as IamModel
use masterfabric_backend.Iam.Model.{User, RefreshToken}
use masterfabric_backend.Llm.Model as LlmModel
use masterfabric_backend.Llm.Model.{Session, InferenceEvent, DecisionScore}
use masterfabric_backend.Iam.Users.{
  with_id, with_email, taken, insert_user, set_email, set_password,
}
use masterfabric_backend.Iam.RoleStore.{role_has_id, is_assigned, insert_user_role}
use masterfabric_backend.Service.WellFormed.Rows.{HasUser, WellFormed}

-- The test of `ON CONFLICT` is that of the key.
unassigned :
    (user_id role_id : ℕ) (pairs : List (ℕ × ℕ))
    → any (λ (p : ℕ × ℕ). p == (user_id, role_id)) pairs ≡ is_assigned user_id role_id pairs
unfolding is_assigned
unassigned user_id role_id [] = refl
unassigned user_id role_id ((u, r) ∷ pairs) = ground (arith, unassigned user_id role_id pairs)

module _ {env : Env} where
  -- More users, or the same ones changed: every reference to a user still leads to one.
  users_kept :
      (iam : IamModel.Tables) (llm : LlmModel.Tables env.Float) (users : List User)
      → ((id : ℕ) → HasUser iam.users id → HasUser users id)
      → UniqueBy (λ (u : User). u.id) users
      → UniqueBy (λ (u : User). u.email) users
      → WellFormed env iam llm
      → WellFormed env (record iam { users = users }) llm
  users_kept iam llm users keep ids emails h = record {
    user_ids = ids;
    emails = emails;
    token_ids = h.token_ids;
    token_users = All-imp _ _ iam.tokens (λ t. keep t.user_id) h.token_users;
    assignments = All-imp _ _ iam.user_roles (λ p (u, r). (keep p.0 u, r)) h.assignments;
    assigned_once = h.assigned_once;
    role_ids = h.role_ids;
    role_names = h.role_names;
    session_ids = h.session_ids;
    session_users = All-imp _ _ llm.sessions (λ s. keep s.user_id) h.session_users;
    event_ids = h.event_ids;
    events =
        All-imp _ _ llm.events
          (λ e s. record {
            tokens_in = s.tokens_in;
            tokens_out = s.tokens_out;
            latency = s.latency;
            session = s.session;
            user = keep e.user_id s.user;
          })
          h.events;
    score_ids = h.score_ids;
    one_score = h.one_score;
    score_events = h.score_events;
  }

  pub WellFormed-insert_user :
      (email hash : Text) (n : ℕ) (w : World env)
      → WellFormed env w.iam w.llm
      → WellFormed env (insert_user env email hash n w).1.iam (insert_user env email hash n w).1.llm
  unfolding insert_user
  WellFormed-insert_user email hash n w h =
      elim (Bool-cases
        (any (with_email email) w.iam.users || any (with_id (env.fresh n)) w.iam.users)) [
          | inl e ↦ rw e h
          | inr e ↦ rw e (
              users_kept w.iam w.llm _ (λ id. any-append_left (with_id id) w.iam.users _)
                (UniqueBy-snoc (λ (u : User). u.id) w.iam.users _ h.user_ids (ground arith))
                (UniqueBy-snoc (λ (u : User). u.email) w.iam.users _ h.emails (ground arith)) h)
        ]

  pub WellFormed-set_password :
      (id : ℕ) (hash : Text) (n : ℕ) (w : World env)
      → WellFormed env w.iam w.llm
      → WellFormed env (set_password env id hash n w).1.iam (set_password env id hash n w).1.llm
  unfolding set_password
  WellFormed-set_password id hash n w h =
      users_kept w.iam w.llm _
        (λ i u. any-update (with_id i) (with_id id) _ w.iam.users (λ a. refl) ∙ u)
        (UniqueBy-update (λ (u : User). u.id) (with_id id) _ w.iam.users (λ a. refl) h.user_ids)
        (UniqueBy-update (λ (u : User). u.email) (with_id id) _ w.iam.users (λ a. refl) h.emails) h

  pub WellFormed-set_email :
      (id : ℕ) (email : Text) (n : ℕ) (w : World env)
      → WellFormed env w.iam w.llm
      → WellFormed env (set_email env id email n w).1.iam (set_email env id email n w).1.llm
  unfolding set_email
  WellFormed-set_email id email n w h = elim (Option-cases (find (with_id id) w.iam.users)) [
    | inl e ↦ rw (e, set_email) h
    | inr (u, e) ↦ elim (Bool-cases (taken id email w.iam.users)) [
      | inl t ↦ rw (e, set_email) (rw t h)
      | inr t ↦
          rw (e, set_email)
            (rw t (
              users_kept w.iam w.llm _
                (λ i v. any-update (with_id i) (with_id id) _ w.iam.users (λ a. refl) ∙ v)
                (UniqueBy-update (λ (v : User). v.id) (with_id id) _ w.iam.users (λ a. refl)
                  h.user_ids)
                (UniqueBy-set (λ (v : User). v.email) (λ (v : User). v.id) id _ email (λ a. refl)
                  w.iam.users h.user_ids h.emails t)
                h))
    ]
  ]

  pub WellFormed-insert_user_role :
      (user_id role_id n : ℕ) (w : World env)
      → WellFormed env w.iam w.llm
      → WellFormed env
          (insert_user_role env user_id role_id n w).1.iam
          (insert_user_role env user_id role_id n w).1.llm
  unfolding insert_user_role
  WellFormed-insert_user_role user_id role_id n w h =
      elim (Bool-cases
        (any (with_id user_id) w.iam.users && any (role_has_id role_id) w.iam.roles)) [
          | inr e ↦ rw e h
          | inl e ↦ elim (Bool-cases (is_assigned user_id role_id w.iam.user_roles)) [
            | inl a ↦ rw e (rw a h)
            | inr a ↦ rw e (
                rw a (record {
                  user_ids = h.user_ids;
                  emails = h.emails;
                  token_ids = h.token_ids;
                  token_users = h.token_users;
                  assignments =
                      All-append _ w.iam.user_roles ((user_id, role_id) ∷ []) h.assignments
                        ((ground arith, ground arith), tt);
                  assigned_once =
                      UniqueBy-snoc (λ (p : ℕ × ℕ). p) w.iam.user_roles (user_id, role_id)
                        h.assigned_once (unassigned user_id role_id w.iam.user_roles ∙ a);
                  role_ids = h.role_ids;
                  role_names = h.role_names;
                  session_ids = h.session_ids;
                  session_users = h.session_users;
                  event_ids = h.event_ids;
                  events = h.events;
                  score_ids = h.score_ids;
                  one_score = h.one_score;
                  score_events = h.score_events;
                }))
          ]
        ]
