-- ===== src/Monitoring/Report/Laws.antt =====
-- The joins of the report count every event once.
use mathlib.Core.Path.{subst}
use mathlib.Core.Option.{some-injective}
use masterfabric_backend.Prelude.{
  ℕ, ◌≤◌, ◌≡◌, refl, sym, ap, ◌∙◌, inl, inr, Bool, Bool-cases, Option, none, some, List, [],
  All-imp, length, ◌==◌, nat_eq, list_eq, arith, not,
}
use masterfabric_backend.Prelude.Text.{Text}
use masterfabric_backend.Exec.{Result, ok}
use masterfabric_backend.Exec.Inversion.{>>=-eq-ok, map_err-eq-ok, pure-eq-ok}
use masterfabric_backend.Table.{select}
use masterfabric_backend.World.{Env, World}
use masterfabric_backend.World.Inversion.{query-eq-ok, call-eq-ok}
use masterfabric_backend.Iam.Model as IamModel
use masterfabric_backend.Llm.Model as LlmModel
use masterfabric_backend.Llm.Model.{Session, InferenceEvent, DecisionScore}
use masterfabric_backend.Service.WellFormed.{WellFormed}
use masterfabric_backend.Monitoring.{MonitoringFilter}
use masterfabric_backend.Monitoring.Report.{
  MonitoringReport, MonitoringTotals, MonitoringTokens, scanned, totals_row, Totals, matching,
  totals_query, end_of, get_report, percentile_or_zero,
}
use masterfabric_backend.Monitoring.Report.Rows.{
  JoinedRow, joined, in_window, column, sum_of, has_score, has_error, of_model,
}
use masterfabric_backend.Monitoring.Report.Joins.{
  is_in_model, select-swap, joined-events, length-column, sum_of-column, select-column,
  length-select_le,
}

-- A report's numbers are those of the events of its window.
pub record IsCount (F : Type 0) (events : List InferenceEvent) (filter : MonitoringFilter)
    (report : MonitoringReport F) : Type 0 where
  pub counted : report.totals.events ≡ length (select (in_window filter.from report.to) events)
  pub tokens_in :
      report.tokens.in_total
      ≡ sum_of
          (λ (e : InferenceEvent). e.tokens_in)
          (select (in_window filter.from report.to) events)
  pub tokens_out :
      report.tokens.out_total
      ≡ sum_of
          (λ (e : InferenceEvent). e.tokens_out)
          (select (in_window filter.from report.to) events)
  pub scored : report.totals.scored_events ≤ report.totals.events
  pub errors :
      report.totals.errors
      ≡ length (
          select
            (λ (e : InferenceEvent). not (e.error == []))
            (select (in_window filter.from report.to) events))

module _ (env : Env) (percentile : ℕ → List ℕ → Option ℕ) (average : List env.Float → env.Float)
    (rate : List Bool → env.Float) where
  abbrev Sums : Type 0
  Sums = Totals env percentile average rate

  abbrev rows_of : World env → ℕ → ℕ → Text → List (JoinedRow env.Float)
  rows_of = matching env percentile average rate

  -- The events of the window whose session has the model.
  abbrev counted_events : World env → Text → List InferenceEvent
  counted_events w model = select (is_in_model w.llm.sessions model) w.llm.events

  rows-events :
      (w : World env) (from to : ℕ) (model : Text)
      → WellFormed env w.iam w.llm
      → column (λ (r : JoinedRow env.Float). r.event) (rows_of w from to model)
        ≡ select (in_window from to) (counted_events w model)
  rows-events w from to model ok_tables =
      let all = joined w.llm.events w.llm.sessions w.llm.scores in
      let event : JoinedRow env.Float → InferenceEvent = λ r. r.event in
      ap (column event) (select-swap (of_model model) (λ r. in_window from to r.event) all)
      ∙ select-column event (in_window from to) (select (of_model model) all)
      ∙ ap (select (in_window from to)) (
          joined-events w.llm.events w.llm.sessions w.llm.scores model ok_tables.session_ids
            ok_tables.one_score
            (All-imp _ _ w.llm.events (λ e sound. sound.session) ok_tables.events))

  -- What the first statement answers, for its rows.
  record IsSummed (rows : List (JoinedRow env.Float)) (t : Sums) : Type 0 where
    counted : t.0.events ≡ length rows
    tokens_in : t.1.1.in_total ≡ sum_of (λ (r : JoinedRow env.Float). r.event.tokens_in) rows
    tokens_out : t.1.1.out_total ≡ sum_of (λ (r : JoinedRow env.Float). r.event.tokens_out) rows
    scored : t.0.scored_events ≡ length (select has_score rows)
    errors : t.0.errors ≡ length (select has_error rows)

  totals_row-IsSummed :
      (rows : List (JoinedRow env.Float)) (t : Sums)
      → totals_row env percentile average rate rows ≡ some t
      → IsSummed rows t
  unfolding totals_row
  totals_row-IsSummed rows t h =
      cases (percentile_or_zero env percentile average rate 50 rows)
        (percentile_or_zero env percentile average rate 95 rows) _ h
        (λ p q. record {
          counted = refl;
          tokens_in = refl;
          tokens_out = refl;
          scored = refl;
          errors = refl;
        })
    where
      cases :
          (a b : Option ℕ) (f : ℕ → ℕ → Sums)
          → elim a [ none ↦ none | some p ↦ elim b [ none ↦ none | some q ↦ some (f p q) ] ]
            ≡ some t
          → ((p q : ℕ) → IsSummed rows (f p q))
          → IsSummed rows t
      cases none b f h k = cc h
      cases (some p) none f h k = cc h
      cases (some p) (some q) f h k = subst (IsSummed rows) (some-injective (f p q) t h) (k p q)

  IsCount-summed :
      (w : World env) (filter : MonitoringFilter) (report : MonitoringReport env.Float) (t : Sums)
      → WellFormed env w.iam w.llm
      → IsSummed (rows_of w filter.from report.to filter.model_id) t
      → report.totals ≡ t.0
      → report.tokens ≡ t.1.1
      → IsCount env.Float (counted_events w filter.model_id) filter report
  IsCount-summed w filter report t tables s same same' =
      let rows = rows_of w filter.from report.to filter.model_id in
      let there = rows-events w filter.from report.to filter.model_id tables in
      let event : JoinedRow env.Float → InferenceEvent = λ r. r.event in
      record {
        counted =
            ap (λ (x : MonitoringTotals). x.events) same
            ∙ s.counted
            ∙ sym (length-column event rows)
            ∙ ap length there;
        tokens_in =
            ap (λ (x : MonitoringTokens). x.in_total) same'
            ∙ s.tokens_in
            ∙ sym (sum_of-column event (λ (x : InferenceEvent). x.tokens_in) rows)
            ∙ ap (sum_of (λ (x : InferenceEvent). x.tokens_in)) there;
        tokens_out =
            ap (λ (x : MonitoringTokens). x.out_total) same'
            ∙ s.tokens_out
            ∙ sym (sum_of-column event (λ (x : InferenceEvent). x.tokens_out) rows)
            ∙ ap (sum_of (λ (x : InferenceEvent). x.tokens_out)) there;
        scored =
            subst (λ (x : MonitoringTotals). x.scored_events ≤ x.events) (sym same)
              (omega (arith, s.scored, s.counted, length-select_le has_score rows));
        errors =
            ap (λ (x : MonitoringTotals). x.errors) same
            ∙ s.errors
            ∙ sym (length-column event (select has_error rows))
            ∙ ap length (select-column event (λ (x : InferenceEvent). not (x.error == [])) rows)
            ∙ ap
                (λ (l : List InferenceEvent).
                  length (select (λ (x : InferenceEvent). not (x.error == [])) l))
                there;
      }

  scanned-eq-ok : {A : Type 0} (o : Option A) {a : A} → scanned o ≡ ok a → o ≡ some a
  scanned-eq-ok none h = cc h
  scanned-eq-ok (some a) h = cc h

  totals_query-IsSummed :
      (from to : ℕ) (model : Text) (w u : World env) (t : Sums)
      → totals_query env percentile average rate from to model w ≡ (ok t, u)
      → IsSummed (rows_of w from to model) t
  unfolding totals_query
  totals_query-IsSummed from to model w u t h = totals_row-IsSummed _ t (
      scanned-eq-ok _
        (ap (λ (p : Result Sums × World env). p.0) (query-eq-ok _ w (map_err-eq-ok _ _ w h))))

  end_of-llm :
      (filter : MonitoringFilter) (w u : World env) (to : ℕ)
      → end_of env percentile average rate filter w ≡ (ok to, u)
      → (u.iam ≡ w.iam) × (u.llm ≡ w.llm)
  unfolding end_of
  end_of-llm filter w u to h = elim (Bool-cases (filter.to == 0)) [
    | inl e ↦
        let (_, moved) = call-eq-ok env.now w (rw e at h) in
        (sym (ap (λ (x : World env). x.iam) moved), sym (ap (λ (x : World env). x.llm) moved))
    | inr e ↦
        let (_, stay) = pure-eq-ok filter.to w (rw e at h) in
        (sym (ap (λ (x : World env). x.iam) stay), sym (ap (λ (x : World env). x.llm) stay))
  ]

  -- A report that is returned on well-formed tables counts each event of its window whose
  -- session has the model asked for, if one is asked for, and counts it once, whatever sessions
  -- and scores it is joined with: the number of the events, of those with an error, and the sums
  -- of their tokens; and no more of them scored than there are.
  pub get_report-IsCount :
      (filter : MonitoringFilter) (w u : World env) (report : MonitoringReport env.Float)
      → WellFormed env w.iam w.llm
      → get_report env percentile average rate filter w ≡ (ok report, u)
      → IsCount env.Float (counted_events w filter.model_id) filter report
  unfolding get_report
  get_report-IsCount filter w u report tables h =
      let (to, w1, ended, rest) = >>=-eq-ok _ _ w h in
      let (sums, w2, summed, rest2) = >>=-eq-ok _ _ w1 rest in
      let (scores, w3, _, rest3) = >>=-eq-ok _ _ w2 rest2 in
      let (models, w4, _, last) = >>=-eq-ok _ _ w3 rest3 in
      let (same, _) = pure-eq-ok _ w4 last in
      let (iam, llm) = end_of-llm filter w w1 to ended in
      let there = totals_query-IsSummed filter.from to filter.model_id w1 w2 sums summed in
      let ending : to ≡ report.to = ap (λ (r : MonitoringReport env.Float). r.to) same in
      let tables1 : WellFormed env w1.iam w1.llm =
        subst (λ (x : IamModel.Tables). WellFormed env x w1.llm) (sym iam)
          (subst (λ (x : LlmModel.Tables env.Float). WellFormed env w.iam x) (sym llm) tables) in
      subst
        (λ (x : LlmModel.Tables env.Float).
          IsCount env.Float (select (is_in_model x.sessions filter.model_id) x.events) filter
            report)
        llm
        (IsCount-summed w1 filter report sums tables1
          (subst (λ (x : ℕ). IsSummed (rows_of w1 filter.from x filter.model_id) sums) ending there)
          (sym (ap (λ (r : MonitoringReport env.Float). r.totals) same))
          (sym (ap (λ (r : MonitoringReport env.Float). r.tokens) same)))
