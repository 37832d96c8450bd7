-- ===== src/Errors.antt =====
-- Domain errors, internal/shared/errors/errors.go, with the error values of the driver that the
-- repositories look for. `fmt.Errorf("…: %w", err)` is `wrap`.
use masterfabric_backend.Prelude.{Bool, true, false, ◌==◌, string_eq, String, Option, none, some}

pub data Code : Type 0 where
  not_found bad_request unauthorized forbidden conflict too_many internal : Code

pub data Error : Type 0 where
  -- `New(code, message, nil)` and `New(code, message, cause)`
  domain : Code → String → Error
  domain_by : Code → String → Error → Error
  -- `fmt.Errorf` with `%w`, and an error with no cause
  wrap : String → Error → Error
  plain : String → Error
  -- `pgx.ErrNoRows`, and a `*pgconn.PgError` with its code
  no_rows : Error
  pg_error : String → Error

pub record DomainError : Type 0 where
  pub code : Code
  pub message : String

-- `As`: the first domain error of the chain of causes.
unfoldable pub as_domain : Error → Option DomainError
as_domain (domain c m) = some (record { code = c; message = m })
as_domain (domain_by c m cause) = some (record { code = c; message = m })
as_domain (wrap m cause) = as_domain cause
as_domain (plain m) = none
as_domain no_rows = none
as_domain (pg_error code) = none

-- `errors.Is(err, pgx.ErrNoRows)`.
unfoldable pub is_no_rows : Error → Bool
is_no_rows (domain c m) = false
is_no_rows (domain_by c m cause) = is_no_rows cause
is_no_rows (wrap m cause) = is_no_rows cause
is_no_rows (plain m) = false
is_no_rows no_rows = true
is_no_rows (pg_error code) = false

-- The code of the first `*pgconn.PgError` of the chain, by `errors.As`.
unfoldable pub pg_code : Error → Option String
pg_code (domain c m) = none
pg_code (domain_by c m cause) = pg_code cause
pg_code (wrap m cause) = pg_code cause
pg_code (plain m) = none
pg_code no_rows = none
pg_code (pg_error code) = some code

-- `errors.As(err, &pgErr) && pgErr.Code == "23505"`.
unfoldable pub is_unique_violation : Error → Bool
unfolding pg_code
is_unique_violation e = elim (pg_code e) [ none ↦ false | some code ↦ code == "23505" ]

-- `de, ok := domainerr.As(err); ok && de.Code == CodeNotFound`.
abbrev is_code_not_found : Code → Bool
is_code_not_found not_found = true
is_code_not_found _ = false

unfoldable pub is_not_found : Error → Bool
unfolding as_domain
is_not_found e = elim (as_domain e) [ none ↦ false | some de ↦ is_code_not_found de.code ]
