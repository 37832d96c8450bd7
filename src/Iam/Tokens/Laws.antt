-- ===== src/Iam/Tokens/Laws.antt =====
-- What the statements on refresh tokens did, where they were answered.
use masterfabric_backend.Prelude.{
  ℕ, ◌≡◌, sym, ap, ◌∙◌, true, false, none, some, [], ◌∷◌, ◌++◌, inl, inr, any, Bool-cases,
}
use masterfabric_backend.Prelude.Text.{Text}
use masterfabric_backend.Exec.{ok}
use masterfabric_backend.Exec.Inversion.{
  >>=-eq-ok, map_err-eq-ok, guard-eq-ok, ok-injective, err-ne-ok,
}
use masterfabric_backend.Table.{find, update}
use masterfabric_backend.World.{Env, World, advance}
use masterfabric_backend.World.Inversion.{query-eq-ok}
use masterfabric_backend.Iam.Model.{RefreshToken}
use masterfabric_backend.Iam.Users.{or_no_rows, with_id}
use masterfabric_backend.Iam.Users.Laws.{or_no_rows-eq-ok, read-eq-ok}
use masterfabric_backend.Iam.Tokens.{
  with_hash, with_token_id, is_live, revoke_at, insert_token, create_token, find_token_by_hash,
  revoke_where, revoke_token,
}

module _ {env : Env} where
  pub find_token_by_hash-eq-ok :
      (hash : Text) (w : World env) {t : RefreshToken} {u : World env}
      → find_token_by_hash env hash w ≡ (ok t, u)
      → (find (with_hash hash) w.iam.tokens ≡ some t) × (advance env w ≡ u)
  unfolding find_token_by_hash
  find_token_by_hash-eq-ok hash w h =
      let (found, same) =
        read-eq-ok (λ v. or_no_rows (find (with_hash hash) v.iam.tokens)) w
          (map_err-eq-ok _ _ w h) in
      (or_no_rows-eq-ok _ found, same)

  -- A revocation that returned has found the row live, and has revoked every live row of the id.
  pub revoke_token-eq-ok :
      (id : ℕ) (w u : World env)
      → revoke_token env id w ≡ (ok tt, u)
      → (any (is_live (with_token_id id)) w.iam.tokens ≡ true)
        × (u.iam.tokens
            ≡ update (is_live (with_token_id id)) (revoke_at (env.now w.step)) w.iam.tokens)
        × (u.iam.users ≡ w.iam.users)
  unfolding revoke_token revoke_where
  revoke_token-eq-ok id w u h =
      let (changed, v, asked, tested) = >>=-eq-ok _ _ w h in
      let (hit, _, same) = guard-eq-ok changed tt _ v tested in
      let (found, written) = ok-injective (query-eq-ok _ w (map_err-eq-ok _ _ w asked)) in
      (
        found ∙ hit,
        sym (ap (λ (x : World env). x.iam.tokens) (written ∙ same)),
        sym (ap (λ (x : World env). x.iam.users) (written ∙ same)),
      )

  insert_token-eq-ok :
      (t : RefreshToken) (n : ℕ) (w u : World env)
      → insert_token env t n w ≡ (ok tt, u)
      → (u.iam.tokens ≡ w.iam.tokens ++ record t { revoked_at = none } ∷ [])
        × (any (with_token_id t.id) w.iam.tokens ≡ false)
        × (any (with_id t.user_id) w.iam.users ≡ true)
  unfolding insert_token
  insert_token-eq-ok t n w u h = elim (Bool-cases (any (with_token_id t.id) w.iam.tokens)) [
    | inl e ↦ absurd (err-ne-ok (rw e at h))
    | inr e ↦ elim (Bool-cases (any (with_id t.user_id) w.iam.users)) [
      | inl f ↦
          (sym (ap (λ (x : World env). x.iam.tokens) (ok-injective (rw f at (rw e at h))).1), e, f)
      | inr f ↦ absurd (err-ne-ok (rw f at (rw e at h)))
    ]
  ]

  -- An insertion that returned has appended the row, under a new id, for a user that exists.
  pub create_token-eq-ok :
      (t : RefreshToken) (w u : World env)
      → create_token env t w ≡ (ok tt, u)
      → (u.iam.tokens ≡ w.iam.tokens ++ record t { revoked_at = none } ∷ [])
        × (any (with_token_id t.id) w.iam.tokens ≡ false)
        × (any (with_id t.user_id) w.iam.users ≡ true)
  unfolding create_token
  create_token-eq-ok t w u h =
      insert_token-eq-ok t w.step (advance env w) u (query-eq-ok _ w (map_err-eq-ok _ _ w h))
