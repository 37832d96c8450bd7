-- ===== src/Tests/Monitoring.antt =====
-- The theorems on the monitoring report, its cache, the settings, the bus and the login that
-- returns, applied to concrete data.
use masterfabric_backend.Prelude.{
  ℕ, zero, suc, ◌<◌, ◌||◌, ◌≡◌, refl, ap, Bool, true, String, Option, none, some, List, [], ◌∷◌,
  All, Memᴰ, length, ◌==◌, nat_eq, list_eq, string_eq, if◌then◌else◌, arith,
}
use masterfabric_backend.Prelude.Integers.{ℤ, pos}
use masterfabric_backend.Prelude.Text.{Text, codes}
use masterfabric_backend.Errors.{plain}
use masterfabric_backend.Exec.{Result, ok, err, Exec}
use masterfabric_backend.World.{World, Event}
use masterfabric_backend.Iam.Login.{LoginResponse, login}
use masterfabric_backend.Iam.Login.Liveness.{IsWorking, MayLogIn, login_returns}
use masterfabric_backend.Monitoring as Monitoring
use masterfabric_backend.Monitoring.{MonitoringFilter, Cache, default_requests}
use masterfabric_backend.Monitoring.Laws.{get_report-again}
use masterfabric_backend.Monitoring.Defaults.{
  Apart, Asked, day_key, direct_requests, default_requests-direct_requests,
}
use masterfabric_backend.Monitoring.Report as Report
use masterfabric_backend.Monitoring.Report.Rows as Rows
use masterfabric_backend.Monitoring.Report.{
  MonitoringReport, totals_query, scores_query, by_model_query, end_of,
}
use masterfabric_backend.Table.{select}
use masterfabric_backend.Monitoring.Report.Joins.{is_in_model}
use masterfabric_backend.Monitoring.Report.Laws.{IsCount, get_report-IsCount}
use masterfabric_backend.Settings.{Config, settings, parse_origins}
use masterfabric_backend.Settings.Laws.{IsOrigin, parse_origins-IsOrigin}
use masterfabric_backend.Bus.{Bus, publish, handlers_of}
use masterfabric_backend.Bus.Ending.{publish_returns}
use masterfabric_backend.Tests.{ann, ann_login, lab, program, start}
use masterfabric_backend.Tests.Service.{start-WellFormed}

-- A repository that counts its requests.
abbrev counting : MonitoringFilter → Exec ℕ ℕ
counting filter n = (ok n, suc n)

abbrev window_at : ℕ → MonitoringFilter
window_at to = record { from = 1; to = to; model_id = [] }

-- A digest that shows its text, and a JSON of numbers.
abbrev shown : Text → Text
shown text = text

abbrev window_text : MonitoringFilter → Option Text
window_text filter = some (filter.from ∷ filter.to ∷ filter.model_id)

abbrev digits : ℕ → Option Text
digits n = some (n ∷ [])

abbrev read_back : Text → Option ℕ
read_back [] = none
read_back (n ∷ rest) = some n

abbrev ask_at : ℕ → ℕ × Cache → Result ℕ × (ℕ × Cache)
ask_at = Monitoring.get_report counting shown window_text digits read_back 300 (window_at 5)

get_report-again_example :
    ask_at 20 (9, (ask_at 10 (3, [])).1.1) ≡ (ok 3, (9, (ask_at 10 (3, [])).1.1))
unfolding Monitoring.get_report Monitoring.answered Monitoring.cached Monitoring.kept
    Monitoring.entry_at Monitoring.cache_key
get_report-again_example =
    get_report-again counting shown window_text digits read_back 300 (window_at 5) (window_at 5) 10
      20 3 4 9 [] (ask_at 10 (3, [])).1.1 3 (3 ∷ []) refl refl refl refl refl (omega arith) refl

abbrev second_or_zero : Text → ℕ
second_or_zero [] = 0
second_or_zero (c ∷ []) = 0
second_or_zero (c ∷ d ∷ s) = d

abbrev visits : List (ℕ × ℕ)
visits = (5, 6) ∷ (7, 8) ∷ []

visits-Apart :
    Apart
      (λ a. Asked a visits)
      (day_key counting shown window_text digits read_back 300 (λ text. none) [])
unfolding Monitoring.cache_key
visits-Apart a b p q h = ap second_or_zero h

default_requests-direct_requests_example :
    ((default_requests counting shown window_text digits read_back 300
        (λ text. none)
        []
        visits
        (0, [])).0
      ≡ (direct_requests counting shown window_text digits read_back 300
          (λ text. none)
          []
          visits
          0).0)
    × ((default_requests counting shown window_text digits read_back 300
          (λ text. none)
          []
          visits
          (0, [])).1.0
        ≡ (direct_requests counting shown window_text digits read_back 300
            (λ text. none)
            []
            visits
            0).1)
default_requests-direct_requests_example =
    default_requests-direct_requests counting shown window_text digits read_back 300 (λ text. none)
      [] visits 0 visits-Apart (omega arith, (omega arith, tt))

abbrev first_of : ℕ → List ℕ → Option ℕ
first_of p [] = some 0
first_of p (n ∷ ns) = some n

abbrev no_average : List ℕ → ℕ
no_average ns = 0

abbrev no_rate : List Bool → ℕ
no_rate flags = 0

abbrev all_time : MonitoringFilter
all_time = record { from = 0; to = 0; model_id = [] }

abbrev late : World lab
late = record start { step = 9 }

abbrev reported : Result (MonitoringReport ℕ) × World lab
reported = Report.get_report lab first_of no_average no_rate all_time late

abbrev report : MonitoringReport ℕ
report = record {
  from = 0;
  to = 9;
  totals = record { sessions = 1; events = 1; scored_events = 0; errors = 0 };
  latency = record { p50_ms = 3; p95_ms = 3; max_ms = 3 };
  tokens = record { in_total = 1; out_total = 2 };
  scores = record {
    avg_correctness = 0;
    avg_composite = 0;
    safety_flag_rate = 0;
    user_accept_rate = 0;
  };
  by_model = record { model_id = codes "m"; events = 1; p50_ms = 3; avg_composite = 0 } ∷ [];
}

reported_run : reported ≡ (ok report, reported.1)
unfolding program Report.get_report Report.end_of Report.totals_query Report.scores_query
    Report.by_model_query Report.totals_row Report.scores_row Report.model_rows
    Report.percentile_or_zero Report.average_or_zero Report.rate_or_zero Rows.joined Rows.left_join
    Rows.or_null Rows.scored_rows Rows.scores_of Rows.in_window Rows.distinct_sessions
    Rows.distinct_models Rows.sum_of Rows.max_of Rows.values_of Rows.column
reported_run = refl

get_report-IsCount_example :
    IsCount ℕ (select (is_in_model late.llm.sessions []) late.llm.events) all_time report
get_report-IsCount_example =
    get_report-IsCount lab first_of no_average no_rate all_time late reported.1 report
      start-WellFormed reported_run

abbrev variables : String → Option Text
variables key = if key == "DATABASE_DSN" || key == "JWT_SECRET" then some (codes "x") else none

abbrev one : Text → Option ℤ
one text = some (pos 1)

abbrev any_url : Text → Bool
any_url text = true

abbrev process : Config
process = settings variables one one any_url (codes "x") (codes "x")

parse_origins-IsOrigin_example : All IsOrigin (parse_origins (codes " https://x.io,, https://y.io"))
parse_origins-IsOrigin_example = parse_origins-IsOrigin (codes " https://x.io,, https://y.io")

-- A handler that fails, and one that fails unless another has returned before it.
abbrev refuse : Bool → Event ℕ → ℕ → Result (Unit {0})
refuse first event n =
    if first then err (plain "first") else (if n == 0 then err (plain "early") else ok tt)

abbrev login_event : Event ℕ
login_event = record {
  id = 1;
  kind = "user.logged_in";
  topic = "masterfabric.iam";
  source = "test";
  timestamp = 0;
  payload = [];
}

abbrev one_handler : Bus refuse
one_handler = ("masterfabric.iam", true ∷ []) ∷ []

one_scheduled :
    (idx : ℕ) → idx < length (handlers_of refuse one_handler "masterfabric.iam") → Memᴰ idx (0 ∷ [])
unfolding handlers_of
one_scheduled zero h = Memᴰ.head refl
one_scheduled (suc idx) h = absurd (omega arith)

publish_returns_example :
    (r : Result (Unit {0})) × (publish refuse one_handler login_event (0 ∷ []) ≡ some r)
publish_returns_example = publish_returns refuse one_handler login_event (0 ∷ []) one_scheduled

lab_working : IsWorking lab
lab_working = record {
  healthy = λ n. refl;
  entropy = λ n. (n ∷ [], refl);
  signing = λ claims. (codes "jwt", refl);
}

ann_may : MayLogIn lab ann_login start.iam
unfolding program
ann_may = record {
  user = ann;
  found = refl;
  matching = refl;
  roles = _;
  scanned = refl;
  known = refl;
  fresh_ids = λ n. ground arith;
}

login_returns_example :
    (resp : LoginResponse) × (u : World lab) × (login lab ann_login start ≡ (ok resp, u))
login_returns_example = login_returns lab_working ann_login start ann_may
