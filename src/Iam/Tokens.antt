-- ===== src/Iam/Tokens.antt =====
-- internal/infrastructure/postgres/iam/refresh_token_repository.go, with the constraints of the
-- table `refresh_tokens`: the id is its key, the user a foreign key; the hash is not unique.
pub mod Laws
use masterfabric_backend.Prelude.{
  ℕ, zero, suc, Bool, true, false, ◌&&◌, ◌||◌, not, String, Option, none, some, List, [], ◌∷◌, ◌++◌,
  any, take, ◌==◌, nat_eq, list_eq, if◌then◌else◌,
}
use masterfabric_backend.Prelude.Text.{Text}
use masterfabric_backend.Errors.{
  Error, domain, domain_by, wrap, no_rows, pg_error, not_found, internal, is_no_rows,
}
use masterfabric_backend.Exec.{Result, ok, err, Exec, map_err, pure, raise, ◌>>=◌}
use masterfabric_backend.Table.{find, select, update, newest_first}
use masterfabric_backend.World.{Env, World, Act, query}
use masterfabric_backend.Iam.Model.{User, RefreshToken, Tables, is_revoked}
use masterfabric_backend.Iam.Users.{with_id, or_no_rows}

abbrev pub with_hash : Text → RefreshToken → Bool
with_hash hash t = t.token_hash == hash

abbrev pub with_token_id : ℕ → RefreshToken → Bool
with_token_id id t = t.id == id

abbrev pub of_user : ℕ → RefreshToken → Bool
of_user user_id t = t.user_id == user_id

-- `… AND revoked_at IS NULL`.
unfoldable pub is_live : (RefreshToken → Bool) → RefreshToken → Bool
unfolding is_revoked
is_live p t = p t && not (is_revoked t)

abbrev pub revoke_at : ℕ → RefreshToken → RefreshToken
revoke_at at t = record t { revoked_at = some at }

abbrev find_hash_error : Error → Error
find_hash_error e =
    if is_no_rows e
    then domain_by not_found "refresh token not found" e
    else domain_by internal "find refresh token by hash" (wrap "query refresh_tokens" e)

module _ (env : Env) where
  abbrev pub set_tokens : World env → List RefreshToken → World env
  set_tokens w tokens = record w { iam = record w.iam { tokens = tokens } }

  unfoldable pub insert_token : RefreshToken → ℕ → World env → Result (Unit {0}) × World env
  insert_token t n w =
      if any (with_token_id t.id) w.iam.tokens
      then (err (pg_error "23505"), w)
      else (if any (with_id t.user_id) w.iam.users
          then (ok tt, set_tokens w (w.iam.tokens ++ record t { revoked_at = none } ∷ []))
          else (err (pg_error "23503"), w))

  unfoldable pub create_token : RefreshToken → Act env (Unit {0})
  create_token t =
      map_err (λ e. domain_by internal "create refresh token" (wrap "insert refresh_tokens" e))
        (query env (insert_token t))

  unfoldable pub find_token_by_hash : Text → Act env RefreshToken
  find_token_by_hash hash =
      map_err find_hash_error
        (query env (λ n w. (or_no_rows (find (with_hash hash) w.iam.tokens), w)))

  -- The update, and whether it changed a row.
  unfoldable pub revoke_where : (RefreshToken → Bool) → ℕ → World env → Result Bool × World env
  unfolding is_live
  revoke_where p n w = (
    ok (any (is_live p) w.iam.tokens),
    set_tokens w (update (is_live p) (revoke_at (env.now n)) w.iam.tokens),
  )

  unfoldable pub revoke_token : ℕ → Act env (Unit {0})
  revoke_token id = do
    changed ←
        map_err (λ e. domain_by internal "revoke refresh token" (wrap "update refresh_tokens" e))
          (query env (revoke_where (with_token_id id)))
    if changed
        then pure tt
        else raise (domain not_found "refresh token not found or already revoked")

  unfoldable pub revoke_all_for_user : ℕ → Act env (Unit {0})
  revoke_all_for_user user_id = do
    changed ←
        map_err
          (λ e.
            domain_by internal "revoke all refresh tokens for user"
              (wrap "update refresh_tokens" e))
          (query env (revoke_where (of_user user_id)))
    pure tt

  unfoldable pub update_last_seen : ℕ → ℕ → Act env (Unit {0})
  update_last_seen id at =
      map_err (λ e. domain_by internal "update last_seen_at" (wrap "update refresh_tokens" e))
        (query env (λ n w. (
          ok tt,
          set_tokens w
              (update (with_token_id id) (λ t. record t { last_seen_at = at }) w.iam.tokens),
        )))

  -- `… WHERE user_id = $1 ORDER BY created_at DESC LIMIT 50`.
  unfoldable pub list_tokens_by_user : ℕ → Act env (List RefreshToken)
  list_tokens_by_user user_id =
      map_err
        (λ e. domain_by internal "list refresh tokens by user" (wrap "query refresh_tokens" e))
        (query env (λ n w. (
          ok (take 50 (newest_first (λ t. t.created_at) (select (of_user user_id) w.iam.tokens))),
          w,
        )))
