-- ===== src/Iam/Account/Laws.antt =====
-- What a change of password does.
use mathlib.Core.Path.{subst}
use masterfabric_backend.Prelude.{
  ℕ, ◌≡◌, sym, ap, ◌∙◌, ◌≢◌, inl, inr, Bool, true, false, some, All, Bool-cases, arith, list_beq,
  list_beq_iff, nat_eq, list_eq,
}
use masterfabric_backend.Prelude.Text.{Text}
use masterfabric_backend.Exec.{ok}
use masterfabric_backend.Exec.Inversion.{
  >>=-eq-ok, map_err-eq-ok, pure-eq-ok, raise-ne-ok, ok-injective,
}
use masterfabric_backend.Table.{find, update}
use masterfabric_backend.Table.Laws.{All-update_hit}
use masterfabric_backend.World.{Env, World}
use masterfabric_backend.World.Inversion.{query-eq-ok}
use masterfabric_backend.Iam.Model.{User, RefreshToken, Tables}
use masterfabric_backend.Iam.Users.{with_id}
use masterfabric_backend.Iam.Users.Laws.{find_user_by_id-eq-ok, update_password-eq-ok}
use masterfabric_backend.Iam.Tokens.{of_user, is_live, revoke_at, revoke_where, revoke_all_for_user}
use masterfabric_backend.Iam.Register.{hash_password}
use masterfabric_backend.Iam.Register.Laws.{hash_password-eq-ok}
use masterfabric_backend.Reads.{Keeps-frame, Keeps-iam, hash_password-Keeps}
use masterfabric_backend.Iam.Account.{ChangePasswordRequest, check_passwords, change_password}

-- What a change of password that returned has checked and written.
pub record IsPasswordChange (env : Env) (user_id : ℕ) (req : ChangePasswordRequest)
    (before after : Tables) : Type 0 where
  pub user : User
  pub salt : ℕ
  pub hash : Text
  pub at : ℕ
  pub found : find (with_id user_id) before.users ≡ some user
  pub verified : env.bcrypt_matches user.password_hash req.current_password ≡ true
  pub different : req.current_password ≢ req.new_password
  pub hashed : env.bcrypt_hash salt req.new_password ≡ some hash
  pub written :
      after.users ≡ update (with_id user_id) (λ v. record v { password_hash = hash }) before.users
  pub revoked : after.tokens ≡ update (is_live (of_user user_id)) (revoke_at at) before.tokens
  pub none_live : All (λ t. is_live (of_user user_id) t ≡ false) after.tokens

revoked_not-live :
    (p : RefreshToken → Bool) (at : ℕ) (t : RefreshToken) → is_live p (revoke_at at t) ≡ false
unfolding is_live
revoked_not-live p at t = ground arith

module _ {env : Env} where
  check_passwords-eq-ok :
      (user : User) (req : ChangePasswordRequest) (w u : World env)
      → check_passwords env user req w ≡ (ok tt, u)
      → (env.bcrypt_matches user.password_hash req.current_password ≡ true)
        × (req.current_password ≢ req.new_password)
        × (w ≡ u)
  unfolding check_passwords
  check_passwords-eq-ok user req w u h =
      elim (Bool-cases (env.bcrypt_matches user.password_hash req.current_password)) [
        | inr e ↦ absurd (raise-ne-ok _ w (rw e at h))
        | inl e ↦ elim (Bool-cases (list_beq req.current_password req.new_password)) [
          | inl s ↦ absurd (raise-ne-ok _ w (rw s at (rw e at h)))
          | inr s ↦ (
            e,
            λ same. cc (s, (list_beq_iff req.current_password req.new_password).1 same),
            (pure-eq-ok _ w (rw s at (rw e at h))).1,
          )
        ]
      ]

  revoke_all_for_user-eq-ok :
      (user_id : ℕ) (w u : World env)
      → revoke_all_for_user env user_id w ≡ (ok tt, u)
      → (at : ℕ) × (u.iam.tokens ≡ update (is_live (of_user user_id)) (revoke_at at) w.iam.tokens)
        × (u.iam.users ≡ w.iam.users)
  unfolding revoke_all_for_user revoke_where
  revoke_all_for_user-eq-ok user_id w u h =
      let (changed, v, asked, last) = >>=-eq-ok _ _ w h in
      let (_, same) = pure-eq-ok tt v last in
      let (_, written) = ok-injective (query-eq-ok _ w (map_err-eq-ok _ _ w asked)) in
      (
        env.now w.step,
        sym (ap (λ (x : World env). x.iam.tokens) (written ∙ same)),
        sym (ap (λ (x : World env). x.iam.users) (written ∙ same)),
      )

-- A change of password that returns has had bcrypt accept the current password of a user that
-- exists, for a new password that differs from it; it has written a bcrypt hash of the new one to
-- that user alone, has revoked the live refresh tokens of the user and no others, and leaves
-- none of the user live.
pub change_password-IsPasswordChange :
    (env : Env) (user_id : ℕ) (req : ChangePasswordRequest) (w u : World env)
    → change_password env user_id req w ≡ (ok tt, u)
    → IsPasswordChange env user_id req w.iam u.iam
unfolding change_password
change_password-IsPasswordChange env user_id req w u h =
    let (user, w1, asked, rest1) = >>=-eq-ok _ _ w h in
    let (_, w2, checked, rest2) = >>=-eq-ok _ _ w1 rest1 in
    let (hash, w3, hashed, rest3) = >>=-eq-ok _ _ w2 rest2 in
    let (_, w4, written, last) = >>=-eq-ok _ _ w3 rest3 in
    let (found, moved) = find_user_by_id-eq-ok user_id w asked in
    let (verified, different, stay) = check_passwords-eq-ok user req w1 w2 checked in
    let (salt, salted) = hash_password-eq-ok req.new_password w2 w3 hash hashed in
    let (_, new_users, same_tokens) = update_password-eq-ok user_id hash w3 w4 written in
    let (at, new_tokens, same_users) = revoke_all_for_user-eq-ok user_id w4 u last in
    let before : w3.iam ≡ w.iam =
      Keeps-iam (hash_password env req.new_password) w2 w3 hashed
        (Keeps-frame (hash_password env req.new_password) w2 (hash_password-Keeps req.new_password))
      ∙ sym (ap (λ (x : World env). x.iam) stay)
      ∙ sym (ap (λ (x : World env). x.iam) moved) in
    let revoked : u.iam.tokens ≡ update (is_live (of_user user_id)) (revoke_at at) w.iam.tokens =
      new_tokens
      ∙ ap (update (is_live (of_user user_id)) (revoke_at at))
          (same_tokens ∙ ap (λ (x : Tables). x.tokens) before) in
    record {
      user = user;
      salt = salt;
      hash = hash;
      at = at;
      found = found;
      verified = verified;
      different = different;
      hashed = salted;
      written =
          same_users
          ∙ new_users
          ∙ ap
              (λ (x : Tables).
                update (with_id user_id) (λ v. record v { password_hash = hash }) x.users)
              before;
      revoked = revoked;
      none_live = subst (All (λ t. is_live (of_user user_id) t ≡ false)) (sym revoked) (
          All-update_hit (λ t. is_live (of_user user_id) t ≡ false) (is_live (of_user user_id))
            (revoke_at at) w.iam.tokens (λ t e. revoked_not-live (of_user user_id) at t)
            (λ t e. e));
    }
