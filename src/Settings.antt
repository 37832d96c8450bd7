-- ===== src/Settings.antt =====
-- The settings of the process, internal/shared/config/config.go. The environment's variables,
-- `strconv` and `url.Parse` are parameters. Durations are nanoseconds of 64 bits.
pub mod Laws
pub mod Sources
use masterfabric_backend.Prelude.{
  Bool, ◌/◌, ℕ, ◌+◌, ◌-◌, ◌*◌, ◌%◌, String, Option, none, some, List, [], ◌∷◌, ltb, ◌==◌, nat_eq,
  list_eq, if◌then◌else◌,
}
use masterfabric_backend.Prelude.Integers.{ℤ, pos, negsuc}
use masterfabric_backend.Prelude.Text.{Text, codes}
use masterfabric_backend.Iam.Email.{trim_space}

abbrev word : ℕ
word = 18446744073709551616

-- The product of a 64-bit integer and a constant `k`, at least 1, in 64 bits.
unfoldable pub wrap_64 : ℤ → ℤ
wrap_64 (pos n) = let m = n % word in if ltb m (word / 2) then pos m else negsuc (word - 1 - m)
wrap_64 (negsuc n) = let m = n % word in if ltb m (word / 2) then negsuc m else pos (word - 1 - m)

unfoldable pub times : ℤ → ℕ → ℤ
times (pos n) k = wrap_64 (pos (n * k))
times (negsuc n) k = wrap_64 (negsuc ((n + 1) * k - 1))

abbrev second : ℕ
second = 1000000000

-- `Config`, its groups side by side.
pub record Config : Type 0 where
  pub host : Text
  pub port : Text
  pub read_timeout : ℤ
  pub write_timeout : ℤ
  pub idle_timeout : ℤ
  pub dsn : Text
  pub max_conns : ℤ
  pub min_conns : ℤ
  pub ssl_mode : Text
  pub redis_url : Text
  pub jwt_secret : Text
  pub access_ttl : ℤ
  pub refresh_ttl : ℤ
  pub allowed_origins : List Text
  pub max_body_bytes : ℤ
  pub log_level : Text
  pub log_format : Text

-- The end of `Load`: the process stops for want of a variable, or an error, or the settings.
pub data Loading : Type 0 where
  exited : String → Loading
  bad_dsn : Loading
  loaded : Config → Loading

-- `strings.Split(s, ",")`.
unfoldable pub split_commas : Text → List Text
split_commas [] = [] ∷ []
split_commas (c ∷ s) =
    let rest = split_commas s in
    if c == b','
    then [] ∷ rest
    else elim rest [ [] ↦ (c ∷ []) ∷ [] | part ∷ parts ↦ (c ∷ part) ∷ parts ]

-- The loop of `parseOrigins`.
unfoldable pub trimmed_parts : List Text → List Text
trimmed_parts [] = []
trimmed_parts (p ∷ parts) =
    let rest = trimmed_parts parts in let s = trim_space p in if s == [] then rest else s ∷ rest

unfoldable pub parse_origins : Text → List Text
parse_origins raw = if trim_space raw == [] then [] else trimmed_parts (split_commas raw)

-- `os.LookupEnv`, `strconv.Atoi`, `strconv.ParseInt(v, 10, 32)`, and whether `url.Parse` accepts.
module _ (lookup_env : String → Option Text) (atoi : Text → Option ℤ)
    (parse_int32 : Text → Option ℤ) (is_url : Text → Bool) where
  unfoldable pub get_env : String → Text → Text
  get_env key fallback = elim (lookup_env key) [ none ↦ fallback | some v ↦ v ]

  abbrev or_int : Option ℤ → ℤ → ℤ
  or_int none fallback = fallback
  or_int (some n) fallback = n

  unfoldable pub get_env_int : String → ℤ → ℤ
  get_env_int key fallback = elim (lookup_env key) [
    | none ↦ fallback
    | some v ↦ or_int (atoi v) fallback
  ]

  unfoldable pub env_or_default_int32 : String → ℤ → ℤ
  env_or_default_int32 key fallback = elim (lookup_env key) [
    | none ↦ fallback
    | some v ↦ or_int (parse_int32 v) fallback
  ]

  -- The settings with the two that have no fallback.
  unfoldable pub settings : Text → Text → Config
  settings dsn secret = record {
    host = get_env "SERVER_HOST" (codes "0.0.0.0");
    port = get_env "SERVER_PORT" (codes "8080");
    read_timeout = times (get_env_int "SERVER_READ_TIMEOUT_SECONDS" (pos 15)) second;
    write_timeout = times (get_env_int "SERVER_WRITE_TIMEOUT_SECONDS" (pos 15)) second;
    idle_timeout = times (get_env_int "SERVER_IDLE_TIMEOUT_SECONDS" (pos 60)) second;
    dsn = dsn;
    max_conns = env_or_default_int32 "DB_MAX_CONNS" (pos 25);
    min_conns = env_or_default_int32 "DB_MIN_CONNS" (pos 5);
    ssl_mode = get_env "DB_SSLMODE" (codes "require");
    redis_url = get_env "REDIS_URL" (codes "redis://localhost:6379");
    jwt_secret = secret;
    access_ttl = times (get_env_int "JWT_ACCESS_TTL_MINUTES" (pos 15)) (60 * second);
    refresh_ttl = times (get_env_int "JWT_REFRESH_TTL_HOURS" (pos 168)) (3600 * second);
    allowed_origins = parse_origins (get_env "CORS_ALLOWED_ORIGINS" []);
    max_body_bytes = get_env_int "MAX_BODY_BYTES" (pos 1048576);
    log_level = get_env "LOG_LEVEL" (codes "info");
    log_format = get_env "LOG_FORMAT" (codes "json");
  }

  -- `Load`: the first variable without a value that is needed ends the process.
  unfoldable pub load : Loading
  load = elim (lookup_env "DATABASE_DSN") [
    | none ↦ exited "DATABASE_DSN"
    | some dsn ↦ elim (lookup_env "JWT_SECRET") [
      | none ↦ exited "JWT_SECRET"
      | some secret ↦ if is_url dsn then loaded (settings dsn secret) else bad_dsn
    ]
  ]
