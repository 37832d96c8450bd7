-- ===== src/Monitoring/Report.antt =====
-- internal/infrastructure/postgres/llm/monitoring_repository.go: the three statements over the
-- tables. A row of the joins is an event, its session, and a score or null. The percentile of
-- the server with the driver's reading of it into an int, and the averages, are parameters; a
-- sum stays in 64 bits.
pub mod Rows
pub mod Joins
pub mod Laws
use masterfabric_backend.Prelude.{
  ℕ, zero, suc, ◌+◌, Bool, true, false, not, ◌&&◌, ◌||◌, String, Option, none, some, List, [], ◌∷◌,
  ◌++◌, any, length, ltb, leb, ◌==◌, nat_eq, list_eq, if◌then◌else◌,
}
use masterfabric_backend.Prelude.Text.{Text, codes}
use masterfabric_backend.Errors.{Error, domain_by, wrap, plain, internal}
use masterfabric_backend.Exec.{Result, ok, err, map_err, pure, lift, ◌>>=◌}
use masterfabric_backend.Table.{select, newest_first}
use masterfabric_backend.World.{Env, World, Act, call, query}
use masterfabric_backend.Llm.Model.{Session, InferenceEvent, DecisionScore}
use masterfabric_backend.Llm.Store.{session_with_id, score_of_event}
use masterfabric_backend.Monitoring.{MonitoringFilter}
use masterfabric_backend.Monitoring.Report.Rows.{
  JoinedRow, scored_rows, or_null, left_join, joined, has_score, scores_of, in_window, of_model,
  has_error, distinct_sessions, distinct_models, sum_of, max_of, values_of, column,
}

pub record MonitoringTotals : Type 0 where
  pub sessions : ℕ
  pub events : ℕ
  pub scored_events : ℕ
  pub errors : ℕ

pub record MonitoringLatency : Type 0 where
  pub p50_ms : ℕ
  pub p95_ms : ℕ
  pub max_ms : ℕ

pub record MonitoringTokens : Type 0 where
  pub in_total : ℕ
  pub out_total : ℕ

pub record MonitoringScores (F : Type 0) : Type 0 where
  pub avg_correctness : F
  pub avg_composite : F
  pub safety_flag_rate : F
  pub user_accept_rate : F

pub record MonitoringByModel (F : Type 0) : Type 0 where
  pub model_id : Text
  pub events : ℕ
  pub p50_ms : ℕ
  pub avg_composite : F

pub record MonitoringReport (F : Type 0) : Type 0 where
  pub from : ℕ
  pub to : ℕ
  pub totals : MonitoringTotals
  pub latency : MonitoringLatency
  pub tokens : MonitoringTokens
  pub scores : MonitoringScores F
  pub by_model : List (MonitoringByModel F)

-- An answer of the driver, `none` where it cannot read the number into an int.
abbrev pub scanned : {A : Type 0} → Option A → Result A
scanned none = err (plain "cannot scan")
scanned (some a) = ok a

module _ (env : Env) (percentile : ℕ → List ℕ → Option ℕ) (average : List env.Float → env.Float)
    (rate : List Bool → env.Float) where
  -- `COALESCE(PERCENTILE_CONT(…) WITHIN GROUP (ORDER BY e.latency_ms), 0)` and `COALESCE(AVG(…), 0)`.
  unfoldable pub percentile_or_zero : ℕ → List (JoinedRow env.Float) → Option ℕ
  percentile_or_zero p [] = some 0
  percentile_or_zero p (row ∷ rows) =
      percentile p (values_of (λ (r : JoinedRow env.Float). r.event.latency_ms) (row ∷ rows))

  unfoldable pub average_or_zero : List env.Float → env.Float
  average_or_zero [] = env.zero_float
  average_or_zero (x ∷ xs) = average (x ∷ xs)

  unfoldable pub rate_or_zero : List Bool → env.Float
  rate_or_zero [] = env.zero_float
  rate_or_zero (x ∷ xs) = rate (x ∷ xs)

  abbrev pub Totals : Type 0
  Totals = MonitoringTotals × (MonitoringLatency × MonitoringTokens)

  -- The row of the first statement.
  unfoldable pub totals_row : List (JoinedRow env.Float) → Option Totals
  totals_row rows = elim (percentile_or_zero 50 rows) [
    | none ↦ none
    | some p50 ↦ elim (percentile_or_zero 95 rows) [
      | none ↦ none
      | some p95 ↦ some (
        record {
          sessions = length (distinct_sessions rows);
          events = length rows;
          scored_events = length (select has_score rows);
          errors = length (select has_error rows);
        },
        (
          record {
            p50_ms = p50;
            p95_ms = p95;
            max_ms = max_of (λ (r : JoinedRow env.Float). r.event.latency_ms) rows;
          },
          record {
            in_total = sum_of (λ (r : JoinedRow env.Float). r.event.tokens_in) rows;
            out_total = sum_of (λ (r : JoinedRow env.Float). r.event.tokens_out) rows;
          },
        ),
      )
    ]
  ]

  -- That of the second: the inner joins leave the rows with a score.
  unfoldable pub scores_row : List (DecisionScore env.Float) → MonitoringScores env.Float
  scores_row ds = record {
    avg_correctness = average_or_zero (column (λ (d : DecisionScore env.Float). d.correctness) ds);
    avg_composite = average_or_zero (column (λ (d : DecisionScore env.Float). d.composite) ds);
    safety_flag_rate = rate_or_zero (column (λ (d : DecisionScore env.Float). d.safety_flag) ds);
    user_accept_rate =
        rate_or_zero (column (λ (d : DecisionScore env.Float). d.user_signal == codes "accept") ds);
  }

  -- Those of the third, one for each model; `none` where one cannot be scanned.
  unfoldable pub model_rows :
      List (JoinedRow env.Float) → List Text → Option (List (MonitoringByModel env.Float))
  model_rows rows [] = some []
  model_rows rows (model ∷ models) =
      let own = select (λ (r : JoinedRow env.Float). r.session.model_id == model) rows in
      let rest = model_rows rows models in
      elim (percentile_or_zero 50 own) [
        | none ↦ none
        | some p50 ↦ elim rest [
          | none ↦ none
          | some more ↦ some (
              record {
                model_id = model;
                events = length own;
                p50_ms = p50;
                avg_composite =
                    average_or_zero
                      (column (λ (d : DecisionScore env.Float). d.composite) (scores_of own));
              }
              ∷ more)
        ]
      ]

  abbrev pub windowed : World env → ℕ → ℕ → List (JoinedRow env.Float)
  windowed w from to =
      select (λ (r : JoinedRow env.Float). in_window from to r.event)
        (joined w.llm.events w.llm.sessions w.llm.scores)

  abbrev pub matching : World env → ℕ → ℕ → Text → List (JoinedRow env.Float)
  matching w from to model = select (of_model model) (windowed w from to)

  abbrev most_events :
      Option (List (MonitoringByModel env.Float)) → Option (List (MonitoringByModel env.Float))
  most_events none = none
  most_events (some rows) = some (newest_first (λ (m : MonitoringByModel env.Float). m.events) rows)

  unfoldable pub totals_query : ℕ → ℕ → Text → Act env Totals
  totals_query from to model =
      map_err (λ e. domain_by internal "monitoring totals" (wrap "totals query" e))
        (query env (λ n w. (scanned (totals_row (matching w from to model)), w)))

  unfoldable pub scores_query : ℕ → ℕ → Text → Act env (MonitoringScores env.Float)
  scores_query from to model =
      map_err (λ e. domain_by internal "monitoring scores" (wrap "scores query" e))
        (query env (λ n w. (ok (scores_row (scores_of (matching w from to model))), w)))

  -- The loop over the rows of the third statement, whose scan may fail.
  abbrev scan_rows :
      Option (List (MonitoringByModel env.Float)) → Result (List (MonitoringByModel env.Float))
  scan_rows none = err (domain_by internal "scan by-model row" (plain "cannot scan"))
  scan_rows (some rows) = ok rows

  -- The model of the filter is no parameter of this one.
  unfoldable pub by_model_query : ℕ → ℕ → Act env (List (MonitoringByModel env.Float))
  by_model_query from to = do
    rows ←
        map_err (λ e. domain_by internal "monitoring by-model" (wrap "by-model query" e))
          (query env (λ n w. (
            ok (
                most_events
                  (model_rows (windowed w from to) (distinct_models (windowed w from to)))),
            w,
          )))
    lift (scan_rows rows)

  unfoldable pub end_of : MonitoringFilter → Act env ℕ
  end_of filter = if filter.to == 0 then call env env.now else pure filter.to

  -- `GetReport`; a zero `to` is the present instant.
  unfoldable pub get_report : MonitoringFilter → Act env (MonitoringReport env.Float)
  get_report filter = do
    to ← end_of filter
    sums ← totals_query filter.from to filter.model_id
    scores ← scores_query filter.from to filter.model_id
    by_model ← by_model_query filter.from to
    pure (record {
      from = filter.from;
      to = to;
      totals = sums.0;
      latency = sums.1.0;
      tokens = sums.1.1;
      scores = scores;
      by_model = by_model;
    })
