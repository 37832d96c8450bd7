-- ===== src/Http/RateLimit/Served.antt =====
-- Requests that go through the middleware `RateLimit` one after another, each at the clock and the
-- server's instant that its calls meet.
use masterfabric_backend.Prelude.{
  ℕ, suc, ◌+◌, ◌/◌, ◌≡◌, Bool, true, false, ◌&&◌, Option, none, some, List, [], ◌∷◌, ◌==◌, nat_eq,
  list_eq,
}
use masterfabric_backend.Prelude.Text.{Text}
use masterfabric_backend.Errors.{Error}
use masterfabric_backend.Exec.{Result, ok, err}
use masterfabric_backend.World.{Env, World, Fault}
use masterfabric_backend.Http.RateLimit.{Window, milliseconds, prefixed, run_script, rate_limit}
use masterfabric_backend.Http.RateLimit.Laws.{Attempt, one_if}

-- A request at the middleware of its route: its key, the limit and the window in milliseconds.
pub record Limited : Type 0 where
  pub key : Text
  pub limit : ℕ
  pub window : ℕ

-- The requests with a key.
pub requests_with : Text → List Limited → ℕ
requests_with k [] = 0
requests_with k (q ∷ qs) = one_if (q.key == k) + requests_with k qs

abbrev pub goes_on : Result (Option Error) → Bool
goes_on (ok none) = true
goes_on (ok (some e)) = false
goes_on (err e) = false

module _ (env : Env) where
  abbrev pub limit_of : Limited → World env → Result (Option Error) × World env
  limit_of q w = rate_limit env q.key q.limit q.window w

  -- The requests with a key that pass to the next handler.
  pub let_through : Text → List Limited → World env → ℕ
  let_through k [] w = 0
  let_through k (q ∷ qs) w =
      one_if (q.key == k && goes_on (limit_of q w).0) + let_through k qs (limit_of q w).1

  -- The attempt that a request makes where the clock is called first at a step.
  abbrev pub attempt_at : ℕ → Limited → Attempt
  attempt_at n q = record {
    key = prefixed q.key;
    limit = q.limit;
    window = q.window;
    at = env.now (suc n);
    sent = env.now n / milliseconds;
  }

  abbrev pub attempts_from : ℕ → List Limited → List Attempt
  attempts_from n [] = []
  attempts_from n (q ∷ qs) = attempt_at n q ∷ attempts_from (suc (suc n)) qs

module _ {env : Env} (redis : env.has_redis ≡ true)
    (healthy : (n : ℕ) → env.fault n ≡ Fault.healthy) where
  abbrev ran : Limited → World env → Window × env.Redis
  ran q w =
      run_script env (prefixed q.key) q.limit q.window (env.now w.step / milliseconds)
        (env.now (suc w.step)) w.redis

  abbrev left_by : Limited → World env → World env
  left_by q w = record w { step = suc (suc w.step); redis = (ran q w).1 }
