-- ===== src/Monitoring/Report/Rows.antt =====
-- The rows that the statements of monitoring_repository.go join and aggregate.
use masterfabric_backend.Prelude.{
  ℕ, ◌+◌, Bool, true, false, not, ◌&&◌, ◌||◌, Option, none, some, List, [], ◌∷◌, ◌++◌, any, ltb,
  leb, ◌==◌, nat_eq, list_eq, if◌then◌else◌,
}
use masterfabric_backend.Prelude.Text.{Text}
use masterfabric_backend.Table.{select}
use masterfabric_backend.Llm.Model.{Session, InferenceEvent, DecisionScore}
use masterfabric_backend.Llm.Store.{session_with_id, score_of_event}

pub record JoinedRow (F : Type 0) : Type 0 where
  pub event : InferenceEvent
  pub session : Session
  pub score : Option (DecisionScore F)

module _ {F : Type 0} where
  unfoldable pub scored_rows :
      InferenceEvent → Session → List (DecisionScore F) → List (JoinedRow F)
  scored_rows e s [] = []
  scored_rows e s (d ∷ scores) =
      record { event = e; session = s; score = some d } ∷ scored_rows e s scores

  -- `LEFT JOIN decision_scores s ON s.event_id = e.id`: a row with null where there is no score.
  unfoldable pub or_null : InferenceEvent → Session → List (JoinedRow F) → List (JoinedRow F)
  or_null e s [] = record { event = e; session = s; score = none } ∷ []
  or_null e s (row ∷ rows) = row ∷ rows

  unfoldable pub left_join :
      InferenceEvent → List (DecisionScore F) → List Session → List (JoinedRow F)
  left_join e scores [] = []
  left_join e scores (s ∷ sessions) =
      or_null e s (scored_rows e s (select (score_of_event e.id) scores))
      ++ left_join e scores sessions

  -- `JOIN llm_sessions sess ON sess.id = e.session_id`, and that.
  unfoldable pub joined :
      List InferenceEvent → List Session → List (DecisionScore F) → List (JoinedRow F)
  joined [] sessions scores = []
  joined (e ∷ events) sessions scores =
      left_join e scores (select (session_with_id e.session_id) sessions)
      ++ joined events sessions scores

  abbrev pub has_score : JoinedRow F → Bool
  has_score row = elim row.score [ none ↦ false | some d ↦ true ]

  unfoldable pub scores_of : List (JoinedRow F) → List (DecisionScore F)
  scores_of [] = []
  scores_of (row ∷ rows) =
      let rest = scores_of rows in elim row.score [ none ↦ rest | some d ↦ d ∷ rest ]

-- `($1 IS NULL OR created_at >= $1) AND ($2 IS NULL OR created_at < $2)`; the zero time is null
-- for `from`, and never stands for `to`.
unfoldable pub in_window : ℕ → ℕ → InferenceEvent → Bool
in_window from to e = (from == 0 || leb from e.created_at) && ltb e.created_at to

abbrev pub of_model : {F : Type 0} → Text → JoinedRow F → Bool
of_model model row = model == [] || row.session.model_id == model

abbrev pub has_error : {F : Type 0} → JoinedRow F → Bool
has_error row = not (row.event.error == [])

-- `COUNT(DISTINCT e.session_id)`, and the distinct models of `GROUP BY`.
unfoldable pub distinct_sessions : {F : Type 0} → List (JoinedRow F) → List ℕ
distinct_sessions [] = []
distinct_sessions (row ∷ rows) =
    let rest = distinct_sessions rows in
    if any (λ id. id == row.event.session_id) rest then rest else row.event.session_id ∷ rest

unfoldable pub distinct_models : {F : Type 0} → List (JoinedRow F) → List Text
distinct_models [] = []
distinct_models (row ∷ rows) =
    let rest = distinct_models rows in
    if any (λ id. id == row.session.model_id) rest then rest else row.session.model_id ∷ rest

module _ {A : Type 0} (f : A → ℕ) where
  unfoldable pub sum_of : List A → ℕ
  sum_of [] = 0
  sum_of (x ∷ xs) = f x + sum_of xs

  unfoldable pub max_of : List A → ℕ
  max_of [] = 0
  max_of (x ∷ xs) = let rest = max_of xs in if ltb rest (f x) then f x else rest

  unfoldable pub values_of : List A → List ℕ
  values_of [] = []
  values_of (x ∷ xs) = f x ∷ values_of xs

module _ {A B : Type 0} (f : A → B) where
  unfoldable pub column : List A → List B
  column [] = []
  column (x ∷ xs) = f x ∷ column xs
