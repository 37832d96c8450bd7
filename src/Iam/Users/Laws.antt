-- ===== src/Iam/Users/Laws.antt =====
-- What the statements on users did, where they were answered.
use masterfabric_backend.Prelude.{
  ℕ, ◌≡◌, sym, ap, ◌∙◌, inl, inr, true, false, ◌||◌, Option, none, some, [], ◌∷◌, ◌++◌, any,
  Bool-cases, arith,
}
use masterfabric_backend.Prelude.Text.{Text}
use masterfabric_backend.Exec.{Result, ok}
use masterfabric_backend.Exec.Inversion.{
  >>=-eq-ok, map_err-eq-ok, guard-eq-ok, ok-injective, err-ne-ok,
}
use masterfabric_backend.Table.{find, update}
use masterfabric_backend.World.{Env, World, query, advance}
use masterfabric_backend.World.Inversion.{query-eq-ok}
use masterfabric_backend.Iam.Model.{User}
use masterfabric_backend.Iam.Users.{
  or_no_rows, with_email, with_id, insert_user, create_user, find_user_by_email, find_user_by_id,
  set_password, update_password,
}

pub or_no_rows-eq-ok : {A : Type 0} (o : Option A) {a : A} → or_no_rows o ≡ ok a → o ≡ some a
or_no_rows-eq-ok none h = cc
or_no_rows-eq-ok (some b) h = cc

module _ {env : Env} where
  -- A read that was answered gives the answer, and leaves the world but for the call.
  pub read-eq-ok :
      {A : Type 0} (f : World env → Result A) (w : World env) {a : A} {u : World env}
      → query env (λ n v. (f v, v)) w ≡ (ok a, u)
      → (f (advance env w) ≡ ok a) × (advance env w ≡ u)
  read-eq-ok {A} f w h =
      let e = query-eq-ok (λ n v. (f v, v)) w h in
      (ap (λ (p : Result A × World env). p.0) e, ap (λ (p : Result A × World env). p.1) e)

  pub find_user_by_email-eq-ok :
      (email : Text) (w : World env) {user : User} {u : World env}
      → find_user_by_email env email w ≡ (ok user, u)
      → (find (with_email email) w.iam.users ≡ some user) × (advance env w ≡ u)
  unfolding find_user_by_email
  find_user_by_email-eq-ok email w h =
      let (found, same) =
        read-eq-ok (λ v. or_no_rows (find (with_email email) v.iam.users)) w
          (map_err-eq-ok _ _ w h) in
      (or_no_rows-eq-ok _ found, same)

  pub find_user_by_id-eq-ok :
      (id : ℕ) (w : World env) {user : User} {u : World env}
      → find_user_by_id env id w ≡ (ok user, u)
      → (find (with_id id) w.iam.users ≡ some user) × (advance env w ≡ u)
  unfolding find_user_by_id
  find_user_by_id-eq-ok id w h =
      let (found, same) =
        read-eq-ok (λ v. or_no_rows (find (with_id id) v.iam.users)) w (map_err-eq-ok _ _ w h) in
      (or_no_rows-eq-ok _ found, same)

  insert_user-eq-ok :
      (email hash : Text) (n : ℕ) (w u : World env) (user : User)
      → insert_user env email hash n w ≡ (ok user, u)
      → (any (with_email email) w.iam.users ≡ false)
        × (u.iam.users ≡ w.iam.users ++ user ∷ [])
        × (user.email ≡ email)
        × (user.password_hash ≡ hash)
  unfolding insert_user
  insert_user-eq-ok email hash n w u user h =
      elim (Bool-cases
        (any (with_email email) w.iam.users || any (with_id (env.fresh n)) w.iam.users)) [
          | inl e ↦ absurd (err-ne-ok (rw e at h))
          | inr e ↦
              let (same, moved) = ok-injective (rw e at h) in
              (
                ground arith,
                sym (ap (λ (x : World env). x.iam.users) moved)
                    ∙ ap (λ (x : User). w.iam.users ++ x ∷ []) same,
                sym (ap (λ (x : User). x.email) same),
                sym (ap (λ (x : User). x.password_hash) same),
              )
        ]

  -- A registration's insertion that returned: the email was free, and its row is the last.
  pub create_user-eq-ok :
      (email hash : Text) (w u : World env) (user : User)
      → create_user env email hash w ≡ (ok user, u)
      → (any (with_email email) w.iam.users ≡ false)
        × (u.iam.users ≡ w.iam.users ++ user ∷ [])
        × (user.email ≡ email)
        × (user.password_hash ≡ hash)
  unfolding create_user
  create_user-eq-ok email hash w u user h =
      insert_user-eq-ok email hash w.step (advance env w) u user
        (query-eq-ok _ w (map_err-eq-ok _ _ w h))

  -- A change of password that returned has found the user and written the hash.
  pub update_password-eq-ok :
      (id : ℕ) (hash : Text) (w u : World env)
      → update_password env id hash w ≡ (ok tt, u)
      → (any (with_id id) w.iam.users ≡ true)
        × (u.iam.users ≡ update (with_id id) (λ v. record v { password_hash = hash }) w.iam.users)
        × (u.iam.tokens ≡ w.iam.tokens)
  unfolding update_password set_password
  update_password-eq-ok id hash w u h =
      let (changed, v, asked, tested) = >>=-eq-ok _ _ w h in
      let (hit, _, same) = guard-eq-ok changed tt _ v tested in
      let (found, written) = ok-injective (query-eq-ok _ w (map_err-eq-ok _ _ w asked)) in
      (
        found ∙ hit,
        sym (ap (λ (x : World env). x.iam.users) (written ∙ same)),
        sym (ap (λ (x : World env). x.iam.tokens) (written ∙ same)),
      )
