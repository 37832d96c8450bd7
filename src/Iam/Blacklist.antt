-- ===== src/Iam/Blacklist.antt =====
-- internal/infrastructure/redis/token_blacklist.go: hashes of revoked refresh tokens in Redis,
-- each for what is left of the token's life. The key's prefix "mf:revoked:" is a bijection
-- between hashes and the keys of this use, so a hash stands for its key.
use masterfabric_backend.Prelude.{ℕ, Bool, String, if◌then◌else◌, ◌==◌, nat_eq}
use masterfabric_backend.Prelude.Text.{Text}
use masterfabric_backend.Errors.{domain, domain_by, wrap, internal}
use masterfabric_backend.Exec.{ok, map_err, pure, raise}
use masterfabric_backend.World.{Env, Act, query}

abbrev revoked_prefix : String
revoked_prefix = "mf:revoked:"

module _ (env : Env) where
  unfoldable pub blacklist_revoke : Text → ℕ → Act env (Unit {0})
  blacklist_revoke hash ttl =
      if env.has_redis
      then (if ttl == 0
          then pure tt
          else map_err (wrap "set blacklist") (
              query env (λ n w. (
                ok tt,
                record w { redis = env.redis_set w.redis revoked_prefix hash ttl (env.now n) },
              ))))
      else pure tt

  unfoldable pub blacklist_is_revoked : Text → Act env Bool
  blacklist_is_revoked hash =
      if env.has_redis
      then map_err (domain_by internal "blacklist query failed")
          (query env (λ n w. (ok (env.redis_exists w.redis revoked_prefix hash (env.now n)), w)))
      else raise (domain internal "blacklist unavailable")
