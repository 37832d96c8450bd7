-- ===== src/Http/RateLimit.antt =====
-- internal/shared/middleware/rate_limit.go: a counter in Redis for each key and window. The
-- script runs as one command of the server; its key "mf:rl:" ++ key stands for the key.
pub mod Laws
pub mod Served
use masterfabric_backend.Prelude.{
  ℕ, ◌-◌, ◌*◌, ◌/◌, Bool, true, false, Option, none, some, leb, ◌==◌, nat_eq, list_eq, [], ◌++◌,
  if◌then◌else◌,
}
use masterfabric_backend.Prelude.Integers.{ℤ}
use masterfabric_backend.Prelude.Text.{Text, codes}
use masterfabric_backend.Errors.{Error, domain, too_many}
use masterfabric_backend.Exec.{Result, ok, err, attempt, pure, ◌>>=◌}
use masterfabric_backend.World.{Env, World, Act, call, query}

-- The result `{current, remaining, reset_at}` of the script.
pub record Window : Type 0 where
  pub current : ℕ
  pub remaining : ℕ
  pub reset_at : ℕ

-- What `Allow` returns.
pub record Allowance : Type 0 where
  pub allowed : Bool
  pub left : ℕ
  pub reset : ℕ

abbrev milliseconds : ℕ
milliseconds = 1000000

abbrev pub prefixed : Text → Text
prefixed key = codes "mf:rl:" ++ key

module _ (env : Env) where
  -- `if current == 1 then redis.call("PEXPIRE", …) end`.
  unfoldable pub expire_first : ℕ → Text → ℕ → ℕ → env.Redis → env.Redis
  expire_first current key window now redis =
      if current == 1 then env.redis_pexpire redis key window now else redis

  -- The script at an instant of the server; `sent` is the client's clock in milliseconds.
  unfoldable pub run_script : Text → ℕ → ℕ → ℕ → ℕ → env.Redis → Window × env.Redis
  unfolding expire_first
  run_script key limit window sent now redis =
      let (current, counted) = env.redis_incr redis key now in
      let kept = expire_first current key window now counted in
      (
        record {
          current = current;
          remaining = limit - current;
          reset_at = env.lua_seconds (env.redis_pttl kept key now) sent;
        },
        kept,
      )

  abbrev unlimited : ℕ → Allowance
  unlimited limit = record { allowed = true; left = limit; reset = 0 }

  -- What becomes of the outcome of the script: an error lets the request pass.
  unfoldable pub allowance : ℕ → Result Window → Allowance
  allowance limit (err e) = unlimited limit
  allowance limit (ok w) = record {
    allowed = leb w.current limit;
    left = w.remaining;
    reset = w.reset_at;
  }

  unfoldable pub scripted : Text → ℕ → ℕ → ℕ → ℕ → World env → Result Window × World env
  unfolding run_script
  scripted key limit window sent n w =
      let (answer, redis) = run_script key limit window sent (env.now n) w.redis in
      (ok answer, record w { redis = redis })

  unfoldable pub allow : Text → ℕ → ℕ → Act env Allowance
  unfolding allowance scripted
  allow key limit window =
      if env.has_redis
      then (do
        now ← call env env.now
        outcome ← attempt (query env (scripted (prefixed key) limit window (now / milliseconds)))
        pure (allowance limit outcome))
      else pure (unlimited limit)

  -- `RateLimit`: `none` where the request passes to the next handler.
  unfoldable pub rate_limit : Text → ℕ → ℕ → Act env (Option Error)
  rate_limit key limit window = if key == [] then pure none else (do
    answer ← allow key limit window
    pure (if answer.allowed then none else some (domain too_many (env.rate_message limit window))))
