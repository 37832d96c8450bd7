-- ===== src/Service/WellFormed/Inference.antt =====
-- The statements on sessions, events and scores keep the tables well-formed.
use masterfabric_backend.Prelude.{
  ℕ, ◌≡◌, inl, inr, true, ◌&&◌, ◌||◌, List, [], ◌∷◌, arith, Bool-cases, any, any-append_left, All,
  All-append, All-imp, nat_eq, list_eq, ltb,
}
use masterfabric_backend.Table.Unique.{UniqueBy, UniqueBy-snoc}
use masterfabric_backend.World.{Env, World}
use masterfabric_backend.Iam.Model as IamModel
use masterfabric_backend.Iam.Model.{User, RefreshToken}
use masterfabric_backend.Llm.Model as LlmModel
use masterfabric_backend.Llm.Model.{Session, InferenceEvent, DecisionScore}
use masterfabric_backend.Iam.Users.{with_id}
use masterfabric_backend.Llm.Store.{
  session_with_id, event_with_id, score_of_event, score_with_id, max_int32, insert_session,
  insert_event, insert_score,
}
use masterfabric_backend.Service.WellFormed.Rows.{HasUser, IsSound, WellFormed}

module _ {env : Env} where
  -- More sessions, events or scores.
  llm_kept :
      (iam : IamModel.Tables) (llm : LlmModel.Tables env.Float) (sessions : List Session)
      (events : List InferenceEvent)
      → UniqueBy (λ (s : Session). s.id) sessions
      → All (λ s. HasUser iam.users s.user_id) sessions
      → UniqueBy (λ (e : InferenceEvent). e.id) events
      → All (IsSound iam.users sessions) events
      → ((id : ℕ) → any (event_with_id id) llm.events ≡ true → any (event_with_id id) events ≡ true)
      → WellFormed env iam llm
      → WellFormed env iam (record llm { sessions = sessions; events = events })
  llm_kept iam llm sessions events ids users event_ids sound keep h = record {
    user_ids = h.user_ids;
    emails = h.emails;
    token_ids = h.token_ids;
    token_users = h.token_users;
    assignments = h.assignments;
    assigned_once = h.assigned_once;
    role_ids = h.role_ids;
    role_names = h.role_names;
    session_ids = ids;
    session_users = users;
    event_ids = event_ids;
    events = sound;
    score_ids = h.score_ids;
    one_score = h.one_score;
    score_events = All-imp _ _ llm.scores (λ s. keep s.event_id) h.score_events;
  }

  pub WellFormed-insert_session :
      (s : Session) (n : ℕ) (w : World env)
      → WellFormed env w.iam w.llm
      → WellFormed env (insert_session env s n w).1.iam (insert_session env s n w).1.llm
  unfolding insert_session
  WellFormed-insert_session s n w h =
      elim (Bool-cases (any (session_with_id s.id) w.llm.sessions)) [
        | inl e ↦ rw e h
        | inr e ↦ elim (Bool-cases (any (with_id s.user_id) w.iam.users)) [
          | inr f ↦ rw e (rw f h)
          | inl f ↦ rw e (
              rw f (
                llm_kept w.iam w.llm _ w.llm.events
                  (UniqueBy-snoc (λ (t : Session). t.id) w.llm.sessions _ h.session_ids e)
                  (All-append _ w.llm.sessions _ h.session_users (f, tt)) h.event_ids
                  (All-imp _ _ w.llm.events
                    (λ e i. record {
                      tokens_in = i.tokens_in;
                      tokens_out = i.tokens_out;
                      latency = i.latency;
                      session =
                          any-append_left (session_with_id e.session_id) w.llm.sessions _ i.session;
                      user = i.user;
                    })
                    h.events)
                  (λ id k. k) h))
        ]
      ]

  pub WellFormed-insert_event :
      (e : InferenceEvent) (n : ℕ) (w : World env)
      → WellFormed env w.iam w.llm
      → WellFormed env (insert_event env e n w).1.iam (insert_event env e n w).1.llm
  unfolding insert_event
  WellFormed-insert_event e n w h =
      elim (Bool-cases
        (ltb max_int32 e.tokens_in || ltb max_int32 e.tokens_out || ltb max_int32 e.latency_ms)) [
          | inl b ↦ rw b h
          | inr b ↦ elim (Bool-cases (any (event_with_id e.id) w.llm.events)) [
            | inl d ↦ rw b (rw d h)
            | inr d ↦
                elim (Bool-cases (
                  any (session_with_id e.session_id) w.llm.sessions
                  && any (with_id e.user_id) w.iam.users)) [
                    | inr f ↦ rw b (rw d (rw f h))
                    | inl f ↦ rw b (
                        rw d (
                          rw f (
                            llm_kept w.iam w.llm w.llm.sessions _ h.session_ids h.session_users
                              (UniqueBy-snoc (λ (x : InferenceEvent). x.id) w.llm.events _
                                h.event_ids d)
                              (All-append _ w.llm.events _ h.events (
                                record {
                                  tokens_in = ground arith;
                                  tokens_out = ground arith;
                                  latency = ground arith;
                                  session = ground arith;
                                  user = ground arith;
                                },
                                tt,
                              ))
                              (λ id. any-append_left (event_with_id id) w.llm.events _) h)))
                  ]
          ]
        ]

  pub WellFormed-insert_score :
      (s : DecisionScore env.Float) (n : ℕ) (w : World env)
      → WellFormed env w.iam w.llm
      → WellFormed env (insert_score env s n w).1.iam (insert_score env s n w).1.llm
  unfolding insert_score
  WellFormed-insert_score s n w h =
      elim (Bool-cases
        (any (score_of_event s.event_id) w.llm.scores || any (score_with_id s.id) w.llm.scores)) [
          | inl e ↦ rw e h
          | inr e ↦ elim (Bool-cases (any (event_with_id s.event_id) w.llm.events)) [
            | inr f ↦ rw e (rw f h)
            | inl f ↦ rw e (
                rw f (record {
                  user_ids = h.user_ids;
                  emails = h.emails;
                  token_ids = h.token_ids;
                  token_users = h.token_users;
                  assignments = h.assignments;
                  assigned_once = h.assigned_once;
                  role_ids = h.role_ids;
                  role_names = h.role_names;
                  session_ids = h.session_ids;
                  session_users = h.session_users;
                  event_ids = h.event_ids;
                  events = h.events;
                  score_ids =
                      UniqueBy-snoc (λ (x : DecisionScore env.Float). x.id) w.llm.scores s
                        h.score_ids (ground arith);
                  one_score =
                      UniqueBy-snoc (λ (x : DecisionScore env.Float). x.event_id) w.llm.scores s
                        h.one_score (ground arith);
                  score_events = All-append _ w.llm.scores (s ∷ []) h.score_events (f, tt);
                }))
          ]
        ]
