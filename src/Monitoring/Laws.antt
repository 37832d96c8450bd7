-- ===== src/Monitoring/Laws.antt =====
-- What the cache of the monitoring reports gives back, and for which requests.
use mathlib.Core.Path.{subst}
use masterfabric_backend.Prelude.{
  ℕ, ◌+◌, ◌<◌, ◌≡◌, refl, sym, ap, ◌∙◌, true, Bool-cases, inl, inr, ltb, Option, none, some, [],
  ◌∷◌, ==-refl, ◌==◌, nat_eq, list_eq, arith,
}
use masterfabric_backend.Prelude.Text.{Text}
use masterfabric_backend.Exec.{Result, ok, Exec}
use masterfabric_backend.Monitoring.{
  MonitoringFilter, CacheEntry, Cache, entry_at, put, cached, kept, answered, get_report, cache_key,
}

lt→ltb : (a b : ℕ) → a < b → ltb a b ≡ true
lt→ltb a b h = ground arith

entry_at-put :
    (cache : Cache) (key : Text) (entry : CacheEntry)
    → entry_at (put cache key entry) key ≡ some entry
unfolding entry_at put
entry_at-put [] key entry = rw (==-refl key) refl
entry_at-put ((k, old) ∷ cache) key entry = elim (Bool-cases (k == key)) [
  | inl same ↦ rw same (rw (==-refl key) refl)
  | inr other ↦ rw other (rw other (entry_at-put cache key entry))
]

module _ {S Report : Type 0} (inner : MonitoringFilter → Exec S Report) (sha256 : Text → Text)
    (marshal_filter : MonitoringFilter → Option Text) (encode : Report → Option Text)
    (decode : Text → Option Report) (ttl : ℕ) where
  abbrev key_of : MonitoringFilter → Text
  key_of = cache_key sha256 marshal_filter

  abbrev ask : MonitoringFilter → ℕ → Exec (S × Cache) Report
  ask = get_report inner sha256 marshal_filter encode decode ttl

  abbrev found : MonitoringFilter → ℕ → Cache → Option Report
  found filter now cache =
      cached inner sha256 marshal_filter encode decode ttl (entry_at cache (key_of filter)) now

  ask-hit :
      (filter : MonitoringFilter) (now : ℕ) (s : S) (cache : Cache) (report : Report)
      → found filter now cache ≡ some report
      → ask filter now (s, cache) ≡ (ok report, (s, cache))
  unfolding get_report answered
  ask-hit filter now s cache report h =
      ap
        (λ (o : Option Report).
          answered inner sha256 marshal_filter encode decode ttl filter now o s cache)
        h

  ask-miss :
      (filter : MonitoringFilter) (now : ℕ) (s : S) (cache : Cache)
      → found filter now cache ≡ none
      → ask filter now (s, cache)
        ≡ kept inner sha256 marshal_filter encode decode ttl
            (key_of filter)
            now
            (inner filter s).0
            (inner filter s).1
            cache
  unfolding get_report answered
  ask-miss filter now s cache h =
      ap
        (λ (o : Option Report).
          answered inner sha256 marshal_filter encode decode ttl filter now o s cache)
        h

  -- The cache in which a report has been put.
  abbrev with_report : MonitoringFilter → ℕ → Cache → Text → Cache
  with_report filter now cache b =
      put cache (key_of filter) (record { json_data = b; expires_at = now + ttl })

  ask-fetched :
      (filter : MonitoringFilter) (now : ℕ) (s s' : S) (cache : Cache) (report : Report) (b : Text)
      → found filter now cache ≡ none
      → inner filter s ≡ (ok report, s')
      → encode report ≡ some b
      → ask filter now (s, cache) ≡ (ok report, (s', with_report filter now cache b))
  unfolding kept
  ask-fetched filter now s s' cache report b missed fetched encoded =
      ask-miss filter now s cache missed
      ∙ ap
          (λ (x : Result Report × S).
            kept inner sha256 marshal_filter encode decode ttl (key_of filter) now x.0 x.1 cache)
          fetched
      ∙ rw (encoded, kept) refl

  found-fresh :
      (filter again : MonitoringFilter) (now later : ℕ) (cache : Cache) (report : Report) (b : Text)
      → decode b ≡ some report
      → key_of again ≡ key_of filter
      → later < now + ttl
      → found again later (with_report filter now cache b) ≡ some report
  unfolding cached
  found-fresh filter again now later cache report b decoded same fresh =
      ap
        (λ (k : Text).
          cached inner sha256 marshal_filter encode decode ttl
            (entry_at (with_report filter now cache b) k) later)
        same
      ∙ ap (λ (o : Option CacheEntry). cached inner sha256 marshal_filter encode decode ttl o later)
          (entry_at-put cache (key_of filter) _)
      ∙ rw (lt→ltb later (now + ttl) fresh) decoded

  -- A report that the cache did not have and that was fetched, and whose JSON reads back as it
  -- was, is the answer to the next request with the same key if it comes before the time to live
  -- is over, whatever the tables have become: the inner repository is not asked, and the cache
  -- stays.
  pub get_report-again :
      (filter again : MonitoringFilter) (now later : ℕ) (s s' t : S) (cache cache' : Cache)
      (report : Report) (b : Text)
      → found filter now cache ≡ none
      → inner filter s ≡ (ok report, s')
      → encode report ≡ some b
      → decode b ≡ some report
      → key_of again ≡ key_of filter
      → later < now + ttl
      → ask filter now (s, cache) ≡ (ok report, (s', cache'))
      → ask again later (t, cache') ≡ (ok report, (t, cache'))
  get_report-again filter again now later s s' t cache cache' report b missed fetched encoded
        decoded same fresh asked =
      let kept_in : with_report filter now cache b ≡ cache' =
        ap (λ (x : Result Report × (S × Cache)). x.1.1)
          (sym (ask-fetched filter now s s' cache report b missed fetched encoded) ∙ asked) in
      ask-hit again later t cache' report (
        subst (λ (c : Cache). found again later c ≡ some report) kept_in
          (found-fresh filter again now later cache report b decoded same fresh))
