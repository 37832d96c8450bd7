-- ===== src/Llm/Store.antt =====
-- internal/infrastructure/postgres/llm/{session,event,score}_repository.go, with the constraints
-- of the tables: ids are keys, references are foreign keys, an event has one score at most, and
-- the counters of an event are 32-bit integers.
use masterfabric_backend.Prelude.{
  ℕ, Bool, ◌&&◌, ◌||◌, none, List, [], ◌∷◌, ◌++◌, any, take, drop, length, ◌==◌, nat_eq, ltb,
  if◌then◌else◌,
}
use masterfabric_backend.Errors.{
  Error, domain_by, wrap, pg_error, not_found, conflict, internal, is_no_rows, is_unique_violation,
}
use masterfabric_backend.Exec.{Result, ok, err, map_err}
use masterfabric_backend.Table.{find, select, newest_first}
use masterfabric_backend.World.{Env, World, Act, query}
use masterfabric_backend.Iam.Users.{with_id as user_with_id, or_no_rows}
use masterfabric_backend.Llm.Model.{Session, InferenceEvent, DecisionScore}

abbrev pub session_with_id : ℕ → Session → Bool
session_with_id id s = s.id == id

abbrev pub event_with_id : ℕ → InferenceEvent → Bool
event_with_id id e = e.id == id

abbrev pub event_of_session : ℕ → InferenceEvent → Bool
event_of_session session_id e = e.session_id == session_id

abbrev pub score_of_event : {F : Type 0} → ℕ → DecisionScore F → Bool
score_of_event event_id s = s.event_id == event_id

abbrev pub score_with_id : {F : Type 0} → ℕ → DecisionScore F → Bool
score_with_id id s = s.id == id

-- The largest value of the SQL type `integer`.
abbrev pub max_int32 : ℕ
max_int32 = 2147483647

abbrev session_error : Error → Error
session_error e =
    if is_no_rows e
    then domain_by not_found "session not found" e
    else domain_by internal "find session by id" (wrap "query llm_sessions" e)

-- `scanEvent`.
abbrev scan_event_error : Error → Error
scan_event_error e = if is_no_rows e then domain_by not_found "event not found" e else e

abbrev score_error : Error → Error
score_error e =
    if is_unique_violation e
    then domain_by conflict "score already exists for this event" e
    else domain_by internal "create decision score" (wrap "insert decision_scores" e)

abbrev find_score_error : Error → Error
find_score_error e =
    if is_no_rows e
    then domain_by not_found "score not found" e
    else domain_by internal "find score by event" (wrap "query decision_scores" e)

-- The variable `total` after the loop over the rows of the page.
abbrev pub page_total : List InferenceEvent → ℕ → ℕ
page_total [] count = 0
page_total (_ ∷ _) count = count

-- The rows of a page, and the count that `COUNT(*) OVER()` puts in each of them: where there is
-- no row there is no count, and the variable keeps its zero.
unfoldable pub page_of : List InferenceEvent → ℕ → ℕ → List InferenceEvent × ℕ
page_of rows limit offset =
    let page = take limit (drop offset rows) in (page, page_total page (length rows))

module _ (env : Env) where
  unfoldable pub insert_session : Session → ℕ → World env → Result Session × World env
  insert_session s n w =
      if any (session_with_id s.id) w.llm.sessions
      then (err (pg_error "23505"), w)
      else (if any (user_with_id s.user_id) w.iam.users
          then (let row = record s { ended_at = none } in
              (ok row, record w { llm = record w.llm { sessions = w.llm.sessions ++ row ∷ [] } }))
          else (err (pg_error "23503"), w))

  unfoldable pub create_session_row : Session → Act env Session
  create_session_row s = query env (insert_session s)

  unfoldable pub find_session_by_id : ℕ → Act env Session
  find_session_by_id id =
      map_err session_error
        (query env (λ n w. (or_no_rows (find (session_with_id id) w.llm.sessions), w)))

  unfoldable pub insert_event : InferenceEvent → ℕ → World env → Result InferenceEvent × World env
  insert_event e n w =
      if ltb max_int32 e.tokens_in || ltb max_int32 e.tokens_out || ltb max_int32 e.latency_ms
      then (err (pg_error "22003"), w)
      else (if any (event_with_id e.id) w.llm.events
          then (err (pg_error "23505"), w)
          else (if any (session_with_id e.session_id) w.llm.sessions
                && any (user_with_id e.user_id) w.iam.users
              then (ok e, record w { llm = record w.llm { events = w.llm.events ++ e ∷ [] } })
              else (err (pg_error "23503"), w)))

  unfoldable pub create_event : InferenceEvent → Act env InferenceEvent
  create_event e = map_err scan_event_error (query env (insert_event e))

  unfoldable pub find_event_by_id : ℕ → Act env InferenceEvent
  find_event_by_id id =
      map_err scan_event_error
        (query env (λ n w. (or_no_rows (find (event_with_id id) w.llm.events), w)))

  -- `… WHERE session_id = $1 ORDER BY created_at DESC LIMIT $2 OFFSET $3`.
  unfoldable pub list_events_by_session : ℕ → ℕ → ℕ → Act env (List InferenceEvent × ℕ)
  list_events_by_session session_id limit offset =
      map_err (λ e. domain_by internal "list events" (wrap "query inference_events" e))
        (query env (λ n w. (
          ok (
              page_of
                (newest_first (λ e. e.created_at)
                  (select (event_of_session session_id) w.llm.events))
                limit offset),
          w,
        )))

  unfoldable pub insert_score :
      DecisionScore env.Float → ℕ → World env → Result (Unit {0}) × World env
  insert_score s n w =
      if any (score_of_event s.event_id) w.llm.scores || any (score_with_id s.id) w.llm.scores
      then (err (pg_error "23505"), w)
      else (if any (event_with_id s.event_id) w.llm.events
          then (ok tt, record w { llm = record w.llm { scores = w.llm.scores ++ s ∷ [] } })
          else (err (pg_error "23503"), w))

  unfoldable pub create_score : DecisionScore env.Float → Act env (Unit {0})
  create_score s = map_err score_error (query env (insert_score s))

  unfoldable pub find_score_by_event_id : ℕ → Act env (DecisionScore env.Float)
  find_score_by_event_id event_id =
      map_err find_score_error
        (query env (λ n w. (or_no_rows (find (score_of_event event_id) w.llm.scores), w)))
