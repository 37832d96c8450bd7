-- ===== src/Monitoring.antt =====
-- internal/infrastructure/postgres/llm/monitoring_cache.go, with `GetMonitoringUseCase` of
-- internal/application/llm/usecase/get_monitoring.go and the request's window of `GetMonitoring`
-- in internal/infrastructure/http/handler/llm/handler.go. The repository that computes a report,
-- SHA-256 and `json.Marshal` of a filter, and the JSON of a report are parameters.
-- An instant is nanoseconds from the zero time. The map is an association list; the lock is not
-- modelled: what is read and written under it is one step.
pub mod Laws
pub mod Defaults
pub mod Report
pub mod Endpoint
use masterfabric_backend.Prelude.{
  ℕ, ◌+◌, ◌-◌, ◌*◌, ltb, Option, none, some, List, [], ◌∷◌, ◌==◌, nat_eq, list_eq, if◌then◌else◌,
}
use masterfabric_backend.Prelude.Text.{Text}
use masterfabric_backend.Errors.{Error}
use masterfabric_backend.Exec.{Result, ok, err, Exec}

-- `MonitoringFilter`.
pub record MonitoringFilter : Type 0 where
  pub from : ℕ
  pub to : ℕ
  pub model_id : Text

-- `cacheEntry`.
pub record CacheEntry : Type 0 where
  pub json_data : Text
  pub expires_at : ℕ

abbrev pub Cache : Type 0
Cache = List (Text × CacheEntry)

unfoldable pub entry_at : Cache → Text → Option CacheEntry
entry_at [] key = none
entry_at ((k, entry) ∷ cache) key =
    let later = entry_at cache key in if k == key then some entry else later

-- `r.cache[key] = entry`.
unfoldable pub put : Cache → Text → CacheEntry → Cache
put [] key entry = (key, entry) ∷ []
put ((k, old) ∷ cache) key entry =
    let rest = put cache key entry in if k == key then (key, entry) ∷ cache else (k, old) ∷ rest

-- A query value of the request as an instant: the zero time where it does not parse.
unfoldable pub asked_time : (Text → Option ℕ) → Text → ℕ → ℕ
asked_time parse_time v default =
    if v == [] then default else elim (parse_time v) [ none ↦ 0 | some at ↦ at ]

abbrev pub day : ℕ
day = 24 * 3600 * 1000000000

-- The filter that `GetMonitoring` makes of its query at an instant.
unfoldable pub asked_filter : (Text → Option ℕ) → Text → Text → Text → ℕ → MonitoringFilter
unfolding asked_time
asked_filter parse_time from to model_id now = record {
  from = asked_time parse_time from (now - day);
  to = asked_time parse_time to now;
  model_id = model_id;
}

abbrev or_nil : Option Text → Text
or_nil none = []
or_nil (some b) = b

-- `cacheKey`, whose error of `json.Marshal` is dropped: the bytes are nil then.
unfoldable pub cache_key :
    (Text → Text) → (MonitoringFilter → Option Text) → MonitoringFilter → Text
cache_key sha256 marshal_filter filter = sha256 (or_nil (marshal_filter filter))

module _ {S Report : Type 0} (inner : MonitoringFilter → Exec S Report) (sha256 : Text → Text)
    (marshal_filter : MonitoringFilter → Option Text) (encode : Report → Option Text)
    (decode : Text → Option Report) (ttl : ℕ) where
  -- The report of an entry that has not expired.
  unfoldable pub cached : Option CacheEntry → ℕ → Option Report
  cached none now = none
  cached (some entry) now = if ltb now entry.expires_at then decode entry.json_data else none

  -- What is done with an answer of the inner repository.
  unfoldable pub kept : Text → ℕ → Result Report → S → Cache → Result Report × (S × Cache)
  kept key now (err e) s cache = (err e, (s, cache))
  kept key now (ok report) s cache = elim (encode report) [
    | none ↦ (ok report, (s, cache))
    | some b ↦ (ok report, (s, put cache key (record { json_data = b; expires_at = now + ttl })))
  ]

  -- The report of the cache, or that of the inner repository.
  unfoldable pub answered :
      MonitoringFilter → ℕ → Option Report → S → Cache → Result Report × (S × Cache)
  answered filter now (some report) s cache = (ok report, (s, cache))
  answered filter now none s cache =
      kept (cache_key sha256 marshal_filter filter) now (inner filter s).0 (inner filter s).1 cache

  -- `GetReport` at an instant.
  unfoldable pub get_report : MonitoringFilter → ℕ → Exec (S × Cache) Report
  get_report filter now (s, cache) =
      answered filter now (cached (entry_at cache (cache_key sha256 marshal_filter filter)) now) s
        cache

  -- Requests without a window for one model, each at the handler's instant and then the cache's:
  -- their answers, and what is left.
  unfoldable pub default_requests :
      (Text → Option ℕ) → Text → List (ℕ × ℕ) → S × Cache → List (Result Report) × (S × Cache)
  default_requests parse_time model_id [] at = ([], at)
  default_requests parse_time model_id ((now, later) ∷ rest) at =
      let (answer, at') = get_report (asked_filter parse_time [] [] model_id now) later at in
      let (answers, end) = default_requests parse_time model_id rest at' in (answer ∷ answers, end)
