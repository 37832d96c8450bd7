-- ===== src/Monitoring/Defaults.antt =====
-- Requests for a report that name no window: each has a window of its own, to the nanosecond.
use masterfabric_backend.Prelude.{
  ℕ, ◌+◌, ◌-◌, ◌<◌, ◌≤◌, ◌≡◌, refl, sym, ap, ◌∙◌, Bool-cases, ◌⊎◌, inl, inr, Option, none, some,
  List, [], ◌∷◌, All, ◌==◌, nat_eq, list_eq, list_beq_iff, list_beq, arith,
}
use mathlib.Core.Path.{ap₂}
use masterfabric_backend.Prelude.Text.{Text}
use masterfabric_backend.Exec.{Result, ok, err, Exec}
use masterfabric_backend.Monitoring.{
  MonitoringFilter, CacheEntry, Cache, entry_at, put, asked_filter, asked_time, cached, kept,
  answered, get_report, cache_key, default_requests, day,
}

All-put :
    (P : Text × CacheEntry → Type 0) (cache : Cache) (key : Text) (entry : CacheEntry)
    → P (key, entry)
    → All P cache
    → All P (put cache key entry)
unfolding put
All-put P [] key entry p h = (p, tt)
All-put P ((k, old) ∷ cache) key entry p (q, h) = elim (Bool-cases (k == key)) [
  | inl same ↦ rw same (p, h)
  | inr other ↦ rw other (q, All-put P cache key entry p h)
]

-- Each instant is after the one before.
abbrev pub Ascending : ℕ → List (ℕ × ℕ) → Type 0
Ascending least [] = Unit {0}
Ascending least ((now, later) ∷ rest) = (least ≤ now) × Ascending (now + 1) rest

-- The instants of the handler in the requests.
abbrev pub Asked : ℕ → List (ℕ × ℕ) → Type 0
Asked at [] = ⊥
Asked at ((now, later) ∷ rest) = (at ≡ now) ⊎ Asked at rest

-- No two instants that satisfy `P` have the same key.
abbrev pub Apart : (ℕ → Type 0) → (ℕ → Text) → Type 0
Apart P key = (a b : ℕ) → P a → P b → key a ≡ key b → a ≡ b

All-Asked :
    (P : ℕ → Type 0) (requests : List (ℕ × ℕ))
    → ((a : ℕ) → Asked a requests → P a)
    → All (λ (r : ℕ × ℕ). P r.0) requests
All-Asked P [] h = tt
All-Asked P ((now, later) ∷ rest) h =
    (h now (inl refl), All-Asked P rest (λ a asked. h a (inr asked)))

module _ (key : ℕ → Text) (P : ℕ → Type 0) where
  -- The keys of instants before a bound.
  abbrev Older : ℕ → Cache → Type 0
  Older bound = All (λ (e : Text × CacheEntry). (a : ℕ) × P a × (e.0 ≡ key a) × (a < bound))

  Older-le : (a b : ℕ) (cache : Cache) → a ≤ b → Older a cache → Older b cache
  Older-le a b [] h old = tt
  Older-le a b (e ∷ cache) h ((at, p, same, before), old) =
      ((at, p, same, omega arith), Older-le a b cache h old)

  unseen :
      (now bound : ℕ) (cache : Cache)
      → Apart P key
      → P now
      → bound ≤ now
      → Older bound cache
      → entry_at cache (key now) ≡ none
  unfolding entry_at
  unseen now bound [] apart p h old = refl
  unseen now bound ((k, entry) ∷ cache) apart p h ((at, q, same, before), old) =
      elim (Bool-cases (k == key now)) [
        | inr other ↦ rw other (unseen now bound cache apart p h old)
        | inl hit ↦
            let e : at ≡ now = apart at now q p (sym same ∙ (list_beq_iff k (key now)).0 hit) in
            absurd (omega (arith, e, before, h))
      ]

module _ {S Report : Type 0} (inner : MonitoringFilter → Exec S Report) (sha256 : Text → Text)
    (marshal_filter : MonitoringFilter → Option Text) (encode : Report → Option Text)
    (decode : Text → Option Report) (ttl : ℕ) (parse_time : Text → Option ℕ) (model_id : Text) where
  abbrev run : List (ℕ × ℕ) → S × Cache → List (Result Report) × (S × Cache)
  run = default_requests inner sha256 marshal_filter encode decode ttl parse_time model_id

  -- The day that ends at an instant.
  abbrev pub last_day : ℕ → MonitoringFilter
  last_day now = record { from = now - day; to = now; model_id = model_id }

  abbrev pub day_key : ℕ → Text
  day_key now = cache_key sha256 marshal_filter (last_day now)

  -- The same requests to the inner repository alone.
  pub direct_requests : List (ℕ × ℕ) → S → List (Result Report) × S
  direct_requests [] s = ([], s)
  direct_requests ((now, later) ∷ rest) s =
      let (answer, s') = inner (last_day now) s in
      let (answers, end) = direct_requests rest s' in (answer ∷ answers, end)

  module _ (P : ℕ → Type 0) where
    record IsThrough (bound : ℕ) (answer : Result Report) (s : S)
        (after : Result Report × (S × Cache)) : Type 0 where
      same : after.0 ≡ answer
      state : after.1.0 ≡ s
      older : Older day_key P bound after.1.1

    kept-IsThrough :
        (at bound now : ℕ) (answer : Result Report) (s : S) (cache : Cache)
        → P at
        → at < bound
        → Older day_key P bound cache
        → IsThrough bound answer s
            (kept inner sha256 marshal_filter encode decode ttl (day_key at) now answer s cache)
    unfolding kept
    kept-IsThrough at bound now (err e) s cache p h old = record {
      same = refl;
      state = refl;
      older = old;
    }
    kept-IsThrough at bound now (ok report) s cache p h old = stored (encode report)
      where
        stored :
            (b : Option Text)
            → IsThrough bound (ok report) s (elim b [
              | none ↦ (ok report, (s, cache))
              | some b ↦ (
                ok report,
                (s, put cache (day_key at) (record { json_data = b; expires_at = now + ttl })),
              )
            ])
        stored none = record { same = refl; state = refl; older = old }
        stored (some b) = record {
          same = refl;
          state = refl;
          older = All-put _ cache (day_key at) _ (at, p, refl, h) old;
        }

    miss-IsThrough :
        (at now : ℕ) (s : S) (cache : Cache)
        → P at
        → entry_at cache (day_key at) ≡ none
        → Older day_key P (at + 1) cache
        → IsThrough
            (at + 1)
            (inner (last_day at) s).0
            (inner (last_day at) s).1
            (get_report inner sha256 marshal_filter encode decode ttl (last_day at) now (s, cache))
    unfolding get_report answered cached
    miss-IsThrough at now s cache p missed old = rw missed (
        kept-IsThrough at (at + 1) now (inner (last_day at) s).0 (inner (last_day at) s).1 cache p
          (omega arith) old)

    uncached_from :
        (bound : ℕ) (requests : List (ℕ × ℕ)) (s : S) (cache : Cache)
        → Apart P day_key
        → All (λ (r : ℕ × ℕ). P r.0) requests
        → Ascending bound requests
        → Older day_key P bound cache
        → ((run requests (s, cache)).0 ≡ (direct_requests requests s).0)
          × ((run requests (s, cache)).1.0 ≡ (direct_requests requests s).1)
    unfolding default_requests direct_requests asked_filter asked_time list_beq
    uncached_from bound [] s cache apart ps up old = (refl, refl)
    uncached_from bound ((now, later) ∷ rest) s cache apart (p, ps) (first, up) old =
        let m =
          miss-IsThrough now later s cache p (unseen day_key P now bound cache apart p first old)
            (Older-le day_key P bound (now + 1) cache (omega (arith, first)) old) in
        let after : Result Report × (S × Cache) =
          get_report inner sha256 marshal_filter encode decode ttl (last_day now) later
            (s, cache) in
        let (answers, left) =
          uncached_from (now + 1) rest after.1.0 after.1.1 apart ps up m.older in
        (
          ap₂ (λ (x : Result Report) (y : List (Result Report)). x ∷ y) m.same
              (answers ∙ ap (λ (x : S). (direct_requests rest x).0) m.state),
          left ∙ ap (λ (x : S). (direct_requests rest x).1) m.state,
        )

  -- From an empty cache, requests for a report that name no window are answered as the inner
  -- repository answers each of them for the day that ends at its instant, and ask it each time,
  -- where each comes at a later instant than the one before and no two of these days share a key:
  -- the cache never answers any.
  pub default_requests-direct_requests :
      (requests : List (ℕ × ℕ)) (s : S)
      → Apart (λ a. Asked a requests) day_key
      → Ascending 0 requests
      → ((run requests (s, [])).0 ≡ (direct_requests requests s).0)
        × ((run requests (s, [])).1.0 ≡ (direct_requests requests s).1)
  default_requests-direct_requests requests s apart up =
      uncached_from (λ a. Asked a requests) 0 requests s [] apart
        (All-Asked (λ a. Asked a requests) requests (λ a asked. asked)) up tt
