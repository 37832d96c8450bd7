-- ===== src/Settings/Sources.antt =====
-- Which variable each setting comes from, and what it is without it.
use masterfabric_backend.Prelude.{
  ℕ, ◌+◌, ◌-◌, ◌*◌, ◌<◌, ◌≡◌, refl, Bool, true, Option, none, some, String, [], list_beq,
}
use masterfabric_backend.Prelude.Integers.{ℤ, pos, negsuc}
use masterfabric_backend.Prelude.Text.{Text, codes}
use masterfabric_backend.Iam.Email.{trim_space, trim_left, trim_right}
use masterfabric_backend.Settings.{Config, parse_origins, get_env}

-- A text setting: the variable's value, the empty one included, or the default without it.
pub record IsText (v : Option Text) (default out : Text) : Type 0 where
  pub given : (t : Text) → v ≡ some t → out ≡ t
  pub unset : v ≡ none → out ≡ default

-- A whole-number setting, which also has its default where the value does not parse.
pub record IsNumber (parse : Text → Option ℤ) (v : Option Text) (default out : ℤ) : Type 0 where
  pub given : (t : Text) (n : ℤ) → v ≡ some t → parse t ≡ some n → out ≡ n
  pub unreadable : (t : Text) → v ≡ some t → parse t ≡ none → out ≡ default
  pub unset : v ≡ none → out ≡ default

-- A duration in nanoseconds, from a number of units: it is exact where the product lies within
-- 63 bits.
pub record IsSpan (parse : Text → Option ℤ) (v : Option Text) (default unit : ℕ) (out : ℤ)
    : Type 0 where
  pub given :
      (t : Text) (n : ℕ)
      → v ≡ some t
      → parse t ≡ some (pos n)
      → n * unit < 9223372036854775808
      → out ≡ pos (n * unit)
  pub negative :
      (t : Text) (n : ℕ)
      → v ≡ some t
      → parse t ≡ some (negsuc n)
      → (n + 1) * unit - 1 < 9223372036854775808
      → out ≡ negsuc ((n + 1) * unit - 1)
  pub unreadable : (t : Text) → v ≡ some t → parse t ≡ none → out ≡ pos (default * unit)
  pub unset : v ≡ none → out ≡ pos (default * unit)

-- The settings by the documented variables and defaults.
pub record IsConfigured (env : String → Option Text) (atoi parse_int32 : Text → Option ℤ)
    (is_url : Text → Bool) (cfg : Config) : Type 0 where
  pub dsn : env "DATABASE_DSN" ≡ some cfg.dsn
  pub url : is_url cfg.dsn ≡ true
  pub secret : env "JWT_SECRET" ≡ some cfg.jwt_secret
  pub host : IsText (env "SERVER_HOST") (codes "0.0.0.0") cfg.host
  pub port : IsText (env "SERVER_PORT") (codes "8080") cfg.port
  pub ssl_mode : IsText (env "DB_SSLMODE") (codes "require") cfg.ssl_mode
  pub redis_url : IsText (env "REDIS_URL") (codes "redis://localhost:6379") cfg.redis_url
  pub log_level : IsText (env "LOG_LEVEL") (codes "info") cfg.log_level
  pub log_format : IsText (env "LOG_FORMAT") (codes "json") cfg.log_format
  pub max_conns : IsNumber parse_int32 (env "DB_MAX_CONNS") (pos 25) cfg.max_conns
  pub min_conns : IsNumber parse_int32 (env "DB_MIN_CONNS") (pos 5) cfg.min_conns
  pub max_body : IsNumber atoi (env "MAX_BODY_BYTES") (pos 1048576) cfg.max_body_bytes
  pub read_timeout : IsSpan atoi (env "SERVER_READ_TIMEOUT_SECONDS") 15 1000000000 cfg.read_timeout
  pub write_timeout :
      IsSpan atoi (env "SERVER_WRITE_TIMEOUT_SECONDS") 15 1000000000 cfg.write_timeout
  pub idle_timeout : IsSpan atoi (env "SERVER_IDLE_TIMEOUT_SECONDS") 60 1000000000 cfg.idle_timeout
  pub access_ttl : IsSpan atoi (env "JWT_ACCESS_TTL_MINUTES") 15 60000000000 cfg.access_ttl
  pub refresh_ttl : IsSpan atoi (env "JWT_REFRESH_TTL_HOURS") 168 3600000000000 cfg.refresh_ttl
  pub no_origins : env "CORS_ALLOWED_ORIGINS" ≡ none → cfg.allowed_origins ≡ []

module _ (env : String → Option Text) (atoi parse_int32 : Text → Option ℤ)
    (is_url : Text → Bool) where
  no_origins :
      env "CORS_ALLOWED_ORIGINS" ≡ none
      → parse_origins (get_env env atoi parse_int32 is_url "CORS_ALLOWED_ORIGINS" []) ≡ []
  unfolding get_env parse_origins trim_space trim_left trim_right list_beq
  no_origins h = rw (h, get_env) refl
