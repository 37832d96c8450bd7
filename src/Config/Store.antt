-- ===== src/Config/Store.antt =====
-- internal/infrastructure/postgres/config/config_repository.go and the use cases of
-- internal/application/config/usecase. The repository returns a configuration or an error, never
-- neither, so the test `cfg == nil` of the use case, and with it `Default()`, has no case here;
-- nor has `req == nil`, since the handler passes the address of a variable. `json.Marshal` does
-- not fail on a value of texts, integers and Booleans.
use masterfabric_backend.Prelude.{Option, none, some}
use masterfabric_backend.Errors.{Error, domain_by, wrap, plain, no_rows, not_found, internal}
use masterfabric_backend.Exec.{Result, ok, err, map_err, lift, ◌>>=◌, ◌>>◌}
use masterfabric_backend.World.{Env, Act, query}
use masterfabric_backend.Iam.Users.{or_no_rows}
use masterfabric_backend.Config.Model.{AppConfig}

abbrev get_error : Error → Error
get_error no_rows = domain_by not_found "app config not found" no_rows
get_error e = domain_by internal "get app config" (wrap "query app_config" e)

unfoldable pub parsed_config : Option AppConfig → Result AppConfig
parsed_config none = err (domain_by internal "unmarshal app config" (plain "json"))
parsed_config (some cfg) = ok cfg

module _ (env : Env) where
  unfoldable pub find_config : Act env AppConfig
  find_config = do
    raw ← map_err get_error (query env (λ n w. (or_no_rows w.app_config, w)))
    lift (parsed_config (env.decode_config raw))

  -- `INSERT … ON CONFLICT (key) DO UPDATE …`.
  unfoldable pub upsert_config : AppConfig → Act env (Unit {0})
  upsert_config cfg =
      map_err (λ e. domain_by internal "upsert app config" (wrap "exec upsert app_config" e))
        (query env (λ n w. (ok tt, record w { app_config = some (env.encode_config cfg) })))

  unfoldable pub get_config : Act env AppConfig
  get_config = find_config

  unfoldable pub update_config : AppConfig → Act env AppConfig
  update_config req = do upsert_config req; find_config
